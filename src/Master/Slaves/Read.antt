-- ===== src/Master/Slaves/Read.antt =====
-- A list of slaves as it is written in the configuration, read back.
use slg.Base.{
  ℕ, suc, ◌+◌, ◌^◌, ◌<◌, ◌≡◌, ◌≢◌, refl, sym, ap, ◌∙◌, List, [], ◌∷◌, ◌++◌, some, Bool, append-nil,
  length, map, length-map, arith, lt→ltb, eq→==, if◌then◌else◌,
}
use slg.Base.Int.{ℤ, pos}
use slg.Base.Decimal.{decimal, decimal-IsNumeral, atoi-decimal}
use slg.Base.Tokens.{Plain, IsField, strtok, comma, strtok-field, strtok-last, IsNumeral-IsField}
use slg.Base.Outcome.{ok}
use slg.Protocol.Fields.{IsField-Plain, commas, AreFields}
use slg.Master.Slaves.{
  count_entries, split_colon, read_entry, read_entries, read_list, init_slaves_info, add_servers,
}

abbrev NoColon : List ℕ → Type 0
NoColon [] = Unit {0}
NoColon (c ∷ s) = (c ≢ b':') × NoColon s

-- A host whose name fits, and a port that an int holds.
abbrev pub IsHost : List ℕ × ℕ → Type 0
IsHost (host, port) = Plain host × NoColon host × (length host < 128) × (port < 2 ^ 31)

abbrev pub AreHosts : List (List ℕ × ℕ) → Type 0
AreHosts [] = Unit {0}
AreHosts (e ∷ es) = IsHost e × AreHosts es

abbrev pub entry : List ℕ × ℕ → List ℕ
entry (host, port) = host ++ b':' ∷ decimal port

-- "host:port,host:port"
abbrev pub host_list : List ℕ × ℕ → List (List ℕ × ℕ) → List ℕ
host_list e es = commas (entry e) (map entry es)

abbrev pub as_read : List ℕ × ℕ → List ℕ × ℤ
as_read (host, port) = (host, pos port)

Plain-append : (s t : List ℕ) → Plain s → Plain t → Plain (s ++ t)
Plain-append [] t h k = k
Plain-append (c ∷ s) t h k = (h.0, h.1, h.2, Plain-append s t h.3 k)

Plain-IsField : (s t : List ℕ) → Plain (s ++ b':' ∷ t) → IsField (s ++ b':' ∷ t)
Plain-IsField [] t h = h
Plain-IsField (c ∷ s) t h = h

entry-IsField : (e : List ℕ × ℕ) → IsHost e → IsField (entry e)
entry-IsField (host, port) (p, n, l, b) =
    let digits =
      IsField-Plain (decimal port) (IsNumeral-IsField (decimal port) (decimal-IsNumeral port)) in
    Plain-IsField host (decimal port)
      (Plain-append host (b':' ∷ decimal port) p (omega arith, omega arith, omega arith, digits))

split_colon-host :
    (host port : List ℕ) → NoColon host → split_colon (host ++ b':' ∷ port) ≡ some (host, port)
unfolding split_colon
split_colon-host [] port h = refl
split_colon-host (c ∷ host) port h = ground (arith, split_colon-host host port)

read_entry-entry : (e : List ℕ × ℕ) → IsHost e → read_entry (entry e) ≡ ok (as_read e)
unfolding read_entry
read_entry-entry (host, port) (p, n, l, b) = rw (
  read_entry,
  split_colon-host host (decimal port) n,
  lt→ltb (length host) 128 l,
  atoi-decimal port,
  lt→ltb port (2 ^ 31) b,
)

count_entries-append : (s t : List ℕ) → Plain s → count_entries (s ++ t) ≡ count_entries t
unfolding count_entries
count_entries-append [] t h = refl
count_entries-append (c ∷ s) t h = ground (arith, count_entries-append s t)

count_entries-commas :
    (w : List ℕ) (ws : List (List ℕ))
    → AreFields (w ∷ ws)
    → count_entries (commas w ws) ≡ length ws + 1
unfolding count_entries
count_entries-commas w [] h =
    ap count_entries (sym (append-nil w)) ∙ count_entries-append w [] (IsField-Plain w h.0)
count_entries-commas w (v ∷ ws) h =
    let rest = count_entries-commas v ws h.1 in
    rw (count_entries-append w (b',' ∷ commas v ws) (IsField-Plain w h.0)) (omega (arith, rest))

entries-AreFields : (es : List (List ℕ × ℕ)) → AreHosts es → AreFields (map entry es)
entries-AreFields [] h = tt
entries-AreFields (e ∷ es) h = (entry-IsField e h.0, entries-AreFields es h.1)

read_entries-host_list :
    (e : List ℕ × ℕ) (es : List (List ℕ × ℕ))
    → AreHosts (e ∷ es)
    → read_entries (suc (length es)) (strtok comma (host_list e es)) ≡ ok (map as_read (e ∷ es))
unfolding read_entries
read_entries-host_list e [] h =
    rw (strtok-last (entry e) (entry-IsField e h.0), read_entry-entry e h.0)
read_entries-host_list e (f ∷ es) h = rw (
  strtok-field (entry e) (host_list f es) (entry-IsField e h.0),
  read_entry-entry e h.0,
  read_entries-host_list f es h.1,
)

first_token :
    (e : List ℕ × ℕ) (es : List (List ℕ × ℕ))
    → AreHosts (e ∷ es)
    → (rest : List ℕ) × (strtok comma (host_list e es) ≡ (some (entry e), rest))
first_token e [] h = ([], strtok-last (entry e) (entry-IsField e h.0))
first_token e (f ∷ es) h =
    (host_list f es, strtok-field (entry e) (host_list f es) (entry-IsField e h.0))

entries_of_hosts :
    (e : List ℕ × ℕ) (es : List (List ℕ × ℕ))
    → AreHosts (e ∷ es)
    → count_entries (host_list e es) ≡ suc (length es)
entries_of_hosts e es h = omega (
  arith,
  count_entries-commas (entry e) (map entry es) (entry-IsField e h.0, entries-AreFields es h.1),
  length-map entry es,
)

read_list-host_list :
    (e : List ℕ × ℕ) (es : List (List ℕ × ℕ))
    → AreHosts (e ∷ es)
    → read_list (suc (length es)) (host_list e es) ≡ ok (map as_read (e ∷ es))
unfolding read_list
read_list-host_list e es h =
    let (rest, t) = first_token e es h in
    let r = read_entries-host_list e es h in rw (read_list, t) r

-- Two lists of as many entries, with hosts of less than 128 bytes and without NUL, comma, colon and end of
-- line and with ports that an int holds, are read as the entries that they were written from, each slave with the target in its place;
-- without N-copy one server counts, with it those that differ.
pub init_slaves_info-host_list :
    (n_copy : Bool) (s t : List ℕ × ℕ) (ss ts : List (List ℕ × ℕ))
    → AreHosts (s ∷ ss)
    → AreHosts (t ∷ ts)
    → length ss ≡ length ts
    → init_slaves_info n_copy (host_list s ss) (host_list t ts)
      ≡ ok (
        map as_read (s ∷ ss),
        map as_read (t ∷ ts),
        add_servers (map as_read (t ∷ ts)) [],
        if n_copy then length (add_servers (map as_read (t ∷ ts)) []) else 1,
      )
unfolding init_slaves_info
init_slaves_info-host_list n_copy s t ss ts hs ht same = rw (
  entries_of_hosts s ss hs,
  entries_of_hosts t ts ht,
  eq→== (suc (length ts)) (suc (length ss)) (omega arith),
  read_list-host_list s ss hs,
  read_list-host_list t ts ht,
)
