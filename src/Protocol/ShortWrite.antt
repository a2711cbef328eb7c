-- ===== src/Protocol/ShortWrite.antt =====
-- A call that writes less than an order: `send_order_to_slaves` of slg_master.c starts again.
use slg.Base.{
  ℕ, zero, suc, ◌+◌, ◌≤◌, ◌<◌, ◌≡◌, ◌≢◌, ◌⊎◌, inl, inr, refl, sym, ap, ◌∙◌, List, [], ◌∷◌, ◌++◌,
  length, length-append, take, arith,
}
use slg.Base.Outcome.{ok}
use slg.Os.{wrote}
use slg.Protocol.Order.{write_order}
use slg.Protocol.Line.{last}
use slg.Protocol.Reading.{NoNewline, last-append, last-NoNewline}

length-take : (n : ℕ) (s : List ℕ) → n ≤ length s → length (take n s) ≡ n
length-take zero s h = refl
length-take (suc n) [] h = absurd (omega arith)
length-take (suc n) (c ∷ s) h = omega (arith, length-take n s (omega arith))

take-NoNewline :
    (m : ℕ) (line end : List ℕ)
    → m ≤ length line
    → NoNewline line
    → NoNewline (take m (line ++ end))
take-NoNewline zero line end h n = tt
take-NoNewline (suc m) [] end h n = absurd (omega arith)
take-NoNewline (suc m) (c ∷ line) end h n = (n.0, take-NoNewline m line end (omega arith) n.1)

last-take :
    (m : ℕ) (line end sent : List ℕ)
    → 0 < m
    → m ≤ length line
    → NoNewline line
    → last (sent ++ take m (line ++ end)) ≢ b'\n'
last-take zero line end sent p h n = absurd (omega arith)
last-take (suc m) [] end sent p h n = absurd (omega arith)
last-take (suc m) (c ∷ line) end sent p h n = λ e.
    last-NoNewline (take m (line ++ end)) c (n.0, take-NoNewline m line end (omega arith) n.1)
      (sym (last-append sent (take m (line ++ end)) c) ∙ e)

below_or_end : (m n : ℕ) → m ≤ n + 1 → (m ≤ n) ⊎ (m ≡ n + 1)
below_or_end m n h = ground arith

restart_differs :
    (line : List ℕ) (k m : ℕ)
    → NoNewline line
    → 0 < k
    → k ≤ length line
    → 0 < m
    → m ≤ length line + 1
    → take k (line ++ b'\n' ∷ []) ++ take m (line ++ b'\n' ∷ []) ≢ line ++ b'\n' ∷ []
restart_differs line k m n p h q l e =
    let order = line ++ b'\n' ∷ [] in
    let len : length order ≡ length line + 1 = length-append line (b'\n' ∷ []) in
    elim (below_or_end m (length line) l) [
      | inl b ↦
          last-take m line (b'\n' ∷ []) (take k order) q b n (ap last e ∙ last-append line [] b'\n')
      | inr a ↦ omega (
        arith,
        len,
        ap length e,
        length-append (take k order) (take m order),
        length-take k order (omega arith),
        length-take m order (omega arith),
      )
    ]

-- When the first call of `write` takes a part of an order only and the second one takes all that is
-- missing at least, the master goes on to the next slave, and the connection does not carry the order.
pub write_order-short :
    (line : List ℕ) (k m : ℕ)
    → NoNewline line
    → 0 < k
    → k ≤ length line
    → length line + 1 ≤ k + m
    → m ≤ length line + 1
    → (wire : List ℕ) × (write_order (line ++ b'\n' ∷ []) (wrote k ∷ wrote m ∷ []) 0 [] ≡ ok wire)
      × (wire ≢ line ++ b'\n' ∷ [])
unfolding write_order
write_order-short line k m n p h q l =
    let order = line ++ b'\n' ∷ [] in
    let len : length order ≡ length line + 1 = length-append line (b'\n' ∷ []) in
    (
      take k order ++ take m order,
      ground (arith, len),
      restart_differs line k m n p h (omega arith) l,
    )
