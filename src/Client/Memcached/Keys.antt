-- ===== src/Client/Memcached/Keys.antt =====
-- Requests fit the buffer, and go round the keys.
use slg.Base.{ℕ, ◌+◌, ◌%◌, ◌≤◌, ◌≡◌, List, [], ◌∷◌, take}
use slg.Client.{Client}
use slg.Client.Memcached.{request_of}

-- Each client has the request for its key in its buffer.
abbrev pub HaveRequests : List (ℕ × Client) → ℕ → List Client → Type 0
HaveRequests [] key [] = Unit {0}
HaveRequests ((rand, c) ∷ rest) key (c' ∷ cs) =
    (c'.request_total_len ≤ 475)
    × (take c'.request_total_len c'.request_buf ≡ request_of rand key)
    × HaveRequests rest ((key + 1) % 10000) cs
HaveRequests _ key _ = ⊥
