-- ===== src/Slave/SetUp.antt =====
-- The state in which `main` starts the two threads: every client is in the write buffer.
use mathlib.Core.Option.{bind}
use slg.Base.{
  ℕ, zero, suc, ◌+◌, ◌≤◌, ◌<◌, ◌≡◌, refl, inl, List, [], ◌∷◌, ◌++◌, some, true, arith, AllBelow,
  AllBelow-append, count, count-snoc, count-nil, length, length-append,
}
use native.Mathlib.Numerals.{add-one}
use mathlib.Core.Path.{subst}
use slg.Circular.{CircularBuffer, open_circ}
use slg.Circular.Refine.{open_circ-contents}
use slg.Client.{Stats}
use slg.Slave.{Config, System, uninitialised, put_clients, started, set_up}
use slg.Slave.Queues.{Queues, put_circ-Queues}
use slg.Slave.Invariant.{Owned}

-- the numbers below `n`
abbrev pub up_to : ℕ → List ℕ
up_to zero = []
up_to (suc n) = up_to n ++ (n ∷ [])

length-up_to : (n : ℕ) → length (up_to n) ≡ n
length-up_to zero = refl
length-up_to (suc n) = omega (arith, length-append (up_to n) (n ∷ []), length-up_to n)

count-up_to_above : (n i : ℕ) → n ≤ i → count i (up_to n) ≡ 0
count-up_to_above zero i h = count-nil i
count-up_to_above (suc n) i h = ground (arith, count-snoc i n (up_to n), count-up_to_above n i)

count-up_to : (n i : ℕ) → i < n → count i (up_to n) ≡ 1
count-up_to zero i h = absurd (omega arith)
count-up_to (suc n) i h =
    ground (arith, count-snoc i n (up_to n), count-up_to n i, count-up_to_above n i)

AllBelow-mono : (m n : ℕ) (xs : List ℕ) → m ≤ n → AllBelow m xs → AllBelow n xs
AllBelow-mono m n [] le h = tt
AllBelow-mono m n (x ∷ xs) le h = (omega arith, AllBelow-mono m n xs le h.1)

up_to-AllBelow : (n : ℕ) → AllBelow n (up_to n)
up_to-AllBelow zero = tt
up_to-AllBelow (suc n) =
    AllBelow-append (suc n) (up_to n) (n ∷ [])
      (AllBelow-mono n (suc n) (up_to n) (omega arith) (up_to-AllBelow n)) (omega arith, tt)

put_clients-Queues :
    (n i k : ℕ) (cb : CircularBuffer)
    → i + k ≡ n
    → Queues n (up_to i) cb
    → (cb' : CircularBuffer) × (put_clients i k cb ≡ some cb') × Queues n (up_to n) cb'
unfolding put_clients bind
put_clients-Queues n i zero cb e q =
    let m : i ≡ n = omega arith in (cb, refl, subst (λ k. Queues n (up_to k) cb) m q)
put_clients-Queues n i (suc k) cb e q =
    let (r, p, _, q') = put_circ-Queues n i (up_to i) cb q (omega (arith, length-up_to i)) in
    let (cb', e', q'') = put_clients-Queues n (suc i) k r.1 (omega arith) q' in
    (cb', rw (p, add-one) e', q'')

opened-Queues :
    (old : CircularBuffer) (n : ℕ)
    → (cb : CircularBuffer) × (open_circ true (some old) n ≡ some cb) × Queues n [] cb
opened-Queues old n =
    let (cb, e, v, n', h) = open_circ-contents old n in
    (cb, e, record { valid = v; sized = n'; holds = h })

-- `main` never finds a buffer full when it fills it, and hands the threads a state in which each client
-- is owned: the write buffer holds the numbers of all clients in order, and the read buffer none.
pub set_up-Owned :
    (c : Config) (address max_connect : ℕ) (g : Stats)
    → (s : System) × (set_up c address max_connect g ≡ some s)
      × (s.config ≡ c)
      × Owned s (up_to c.nb_clients) []
unfolding set_up bind
set_up-Owned c address max_connect g =
    let (r, er, qr) = opened-Queues uninitialised c.nb_clients in
    let (f, ef, qf) = put_clients-Queues c.nb_clients 0 c.nb_clients r (omega arith) qr in
    (
      started c address max_connect g r f,
      rw (er, ef),
      refl,
      record {
        write_queue = qf;
        read_queue = qr;
        write_below = up_to-AllBelow c.nb_clients;
        read_below = tt;
        once = λ i lt. ground (arith, count-up_to c.nb_clients i lt, count-nil i);
        with_writer = λ i lt h. (tt, inl refl);
        with_reader = λ i lt h. ground (arith, h, count-nil i);
      },
    )
