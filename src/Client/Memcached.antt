-- ===== src/Client/Memcached.antt =====
-- slg.c, built with MEMCACHED_PROTOCOL: `build_memcached_request`. A request of the tables `get_requests` and
-- `set_requests` is the text that asprintf printed for its key when the table was filled.
pub mod Keys
mod Tests
use slg.Base.{
  ℕ, zero, suc, ◌+◌, ◌%◌, List, [], ◌∷◌, ◌++◌, Bool, true, false, if◌then◌else◌, ltb, leb, length,
  replicate,
}
use slg.Base.Text.{codes, drop}
use slg.Base.Decimal.{decimal}
use slg.Base.Outcome.{Outcome, ok, stop, ◌>>=◌}
use slg.Client.{Client}

pub data NotBuilt : Type 0 where
  asprintf_failed buffer_overflow : NotBuilt

-- `HOW_MANY_KEYS`
abbrev pub how_many_keys : ℕ
how_many_keys = 10000

-- `REQUEST_BUFFER_SIZE` for this protocol
abbrev pub memcached_buffer_size : ℕ
memcached_buffer_size = 2048

-- "get key%d\r\n"
abbrev pub get_text : ℕ → List ℕ
get_text key = codes "get key" ++ (decimal key ++ codes "\r\n")

-- "set key%d 0 0 %d\r\n%*.*s\r\n", with the value in a field of 450
abbrev pub set_text : ℕ → List ℕ
set_text key =
    codes "set key"
    ++ (decimal key ++ (codes " 0 0 450\r\n" ++ (replicate 445 b' ' ++ codes "value\r\n")))

-- One in ten requests is a set.
unfoldable pub request_of : ℕ → ℕ → List ℕ
request_of rand key = if leb 10 (rand % 100) then get_text key else set_text key

-- `build_memcached_request`, on `next_key` and with the number that is drawn; memcpy leaves what stands
-- behind the request in the buffer.
unfoldable pub build_memcached_request : Bool → ℕ → ℕ → Client → Outcome NotBuilt (Client × ℕ)
unfolding request_of
build_memcached_request allocated rand next_key c =
    let text = request_of rand next_key in
    if allocated
    then if leb (length text) memcached_buffer_size
      then ok (
        record c {
          request_buf = text ++ drop (length text) c.request_buf;
          request_total_len = length text;
        },
        (next_key + 1) % how_many_keys,
      )
      else stop buffer_overflow
    else stop asprintf_failed

-- Requests of several clients, one after the other, with a number drawn for each.
unfoldable pub build_requests : List (ℕ × Client) → ℕ → Outcome NotBuilt (List Client × ℕ)
unfolding build_memcached_request
build_requests [] next_key = ok ([], next_key)
build_requests ((rand, c) ∷ rest) next_key =
    build_memcached_request true rand next_key c
    >>= (λ r. build_requests rest r.1 >>= (λ rs. ok (r.0 ∷ rs.0, rs.1)))
