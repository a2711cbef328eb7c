-- ===== src/Master/Slaves.antt =====
-- slg_master.c: `init_slaves_info`, the lists of slaves and of their targets, "host:port,host:port".
pub mod Read
pub mod Distinct
use slg.Base.{
  ℕ, zero, suc, ◌+◌, List, [], ◌∷◌, ◌++◌, Option, none, some, Bool, true, false, ◌&&◌, length, ◌==◌,
  ◌^◌, if◌then◌else◌, ltb,
}
use slg.Base.Int.{ℤ, pos, negsuc}
use slg.Base.Text.{atoi}
use slg.Base.Tokens.{strtok, comma}
use slg.Base.Outcome.{Outcome, ok, stop, ◌>>=◌}

pub data BadList : Type 0 where
  different_numbers no_entry no_port name_too_long port_overflow : BadList

-- The length of the arrays `addr` and `target`.
abbrev name_size : ℕ
name_size = 128

-- `nb_slaves` and `nb_targets`: the commas, and one
unfoldable pub count_entries : List ℕ → ℕ
count_entries [] = 1
count_entries (c ∷ s) = let rest = count_entries s in if comma c then rest + 1 else rest

-- `strchr` for the colon: what stands before it and behind it.
unfoldable pub split_colon : List ℕ → Option (List ℕ × List ℕ)
split_colon [] = none
split_colon (c ∷ s) =
    let rest = split_colon s in
    if c == b':' then some ([], s) else elim rest [ none ↦ none | some (h, p) ↦ some (c ∷ h, p) ]

-- The port is an int; atoi of a number that an int does not hold is undefined.
is_int : ℤ → Bool
is_int (pos n) = ltb n (2 ^ 31)
is_int (negsuc n) = ltb n (2 ^ 31)

-- One entry: the name that strcpy copies, and the port.
read_entry : List ℕ → Outcome BadList (List ℕ × ℤ)
unfolding is_int
read_entry token = elim (split_colon token) [
  | none ↦ stop no_port
  | some (host, port) ↦
      if ltb (length host) name_size
      then if is_int (atoi port) then ok (host, atoi port) else stop port_overflow
      else stop name_too_long
]

-- The loop over the tokens, `k` rounds at most, which a NULL token ends.
unfoldable pub read_entries : ℕ → Option (List ℕ) × List ℕ → Outcome BadList (List (List ℕ × ℤ))
unfolding read_entry
read_entries zero t = ok []
read_entries (suc k) (none, s) = ok []
read_entries (suc k) (some token, s) =
    let rest = read_entries k (strtok comma s) in
    read_entry token >>= (λ e. rest >>= (λ es. ok (e ∷ es)))

-- A list without a token ends the process.
unfoldable pub read_list : ℕ → List ℕ → Outcome BadList (List (List ℕ × ℤ))
unfolding read_entries
read_list nb s =
    let first = strtok comma s in
    elim (first.0) [ none ↦ stop no_entry | some token ↦ read_entries nb first ]

abbrev pub same_text : List ℕ → List ℕ → Bool
same_text [] [] = true
same_text [] (d ∷ t) = false
same_text (c ∷ s) [] = false
same_text (c ∷ s) (d ∷ t) = (c == d) && same_text s t

abbrev pub same_int : ℤ → ℤ → Bool
same_int (pos a) (pos b) = a == b
same_int (pos a) (negsuc b) = false
same_int (negsuc a) (pos b) = false
same_int (negsuc a) (negsuc b) = a == b

abbrev pub same_server : List ℕ × ℤ → List ℕ × ℤ → Bool
same_server a b = same_text a.0 b.0 && same_int a.1 b.1

unfoldable pub find_server : List ℕ × ℤ → List (List ℕ × ℤ) → Bool
find_server t [] = false
find_server t (s ∷ servers) =
    let rest = find_server t servers in if same_server t s then true else rest

-- `servers` after the loop over the targets.
unfoldable pub add_servers : List (List ℕ × ℤ) → List (List ℕ × ℤ) → List (List ℕ × ℤ)
unfolding find_server
add_servers [] servers = servers
add_servers (t ∷ targets) servers =
    if find_server t servers
    then add_servers targets servers
    else add_servers targets (servers ++ t ∷ [])

-- `init_slaves_info`: the slaves, their targets, the distinct servers and `nb_distict_servers`.
unfoldable pub init_slaves_info :
    Bool
    → List ℕ
    → List ℕ
    → Outcome BadList (List (List ℕ × ℤ) × List (List ℕ × ℤ) × List (List ℕ × ℤ) × ℕ)
unfolding count_entries read_list add_servers
init_slaves_info n_copy slaves_infos targets =
    let nb_slaves = count_entries slaves_infos in
    let nb_targets = count_entries targets in
    if nb_targets == nb_slaves
    then read_list nb_slaves slaves_infos >>= (λ slaves. read_list nb_targets targets >>= (λ ts.
      let servers = add_servers ts [] in
      ok (slaves, ts, servers, if n_copy then length servers else 1)))
    else stop different_numbers
