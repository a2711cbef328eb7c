-- ===== src/Circular/Window.antt =====
-- Stretches of a ring: the ints from a position on, and how they change with a write.
use mathlib.Core.Path.{ap₂}
use slg.Base.{
  ℕ, zero, suc, ◌+◌, ◌-◌, ◌<◌, ◌≡◌, ◌≢◌, refl, ap, List, [], ◌∷◌, ◌++◌, arith, length, get_or, set,
  get_or-set_self, get_or-set_ne, if◌then◌else◌, leb,
}
use slg.Base.Int.{ℤ, pos}
use slg.Circular.{advance}
use slg.Circular.Queue.{Queue}

-- the `n` ints from position `p` on, round the ring
abbrev pub window : List ℤ → ℕ → ℕ → ℕ → Queue
window buf size p zero = []
window buf size p (suc n) = get_or buf p (pos 0) ∷ window buf size (advance size p) n

-- how many positions from `r` on, round the ring, to `w`
abbrev pub distance : ℕ → ℕ → ℕ → ℕ
distance size r w = if leb r w then w - r else w + size - r

pub length-window : (buf : List ℤ) (size p n : ℕ) → length (window buf size p n) ≡ n
length-window buf size p zero = refl
length-window buf size p (suc n) = ap suc (length-window buf size (advance size p) n)

pub window_of_ne_zero :
    (buf : List ℤ) (size p n : ℕ)
    → n ≢ 0
    → window buf size p n ≡ get_or buf p (pos 0) ∷ window buf size (advance size p) (n - 1)
window_of_ne_zero buf size p zero h = absurd (h refl)
window_of_ne_zero buf size p (suc n) h = ap (λ k. window buf size p (suc k)) (omega arith)

-- A write just past a window does not show in it.
pub window-set_past :
    (buf : List ℤ) (size : ℕ) (x : ℤ) (n p w : ℕ)
    → p < size
    → w < size
    → distance size p w ≡ n
    → window (set buf w x) size p n ≡ window buf size p n
window-set_past buf size x zero p w hp hw e = refl
window-set_past buf size x (suc n) p w hp hw e =
    ap₂ ◌∷◌ (get_or-set_ne buf w p x (pos 0) (ground arith))
      (window-set_past buf size x n (advance size p) w (ground arith) hw (ground arith))

-- A window that takes in one more position ends with the int there.
pub window-suc :
    (buf : List ℤ) (size n p w : ℕ)
    → p < size
    → w < size
    → distance size p w ≡ n
    → window buf size p (suc n) ≡ window buf size p n ++ (get_or buf w (pos 0) ∷ [])
window-suc buf size zero p w hp hw e = let q : p ≡ w = ground arith in rw q
window-suc buf size (suc n) p w hp hw e =
    ap (λ l. get_or buf p (pos 0) ∷ l)
      (window-suc buf size n (advance size p) w (ground arith) hw (ground arith))

-- A write at the end of a window extends it by the written int.
pub window-set :
    (buf : List ℤ) (size : ℕ) (x : ℤ) (n p w : ℕ)
    → length buf ≡ size
    → p < size
    → w < size
    → distance size p w ≡ n
    → window (set buf w x) size p (suc n) ≡ window buf size p n ++ (x ∷ [])
window-set buf size x n p w hs hp hw e = rw (
  window-suc (set buf w x) size n p w hp hw e,
  window-set_past buf size x n p w hp hw e,
  get_or-set_self buf w x (pos 0) (omega arith),
)
