-- ===== src/Slave/Rounds/Filling.antt =====
-- The filling loops: one round more than there are clients is enough, and they end when nothing is left.
use slg.Base.{
  ℕ, zero, suc, ◌+◌, ◌≤◌, ◌<◌, ◌≡◌, refl, ap, List, [], ◌∷◌, true, false, arith, lt→ltb, length,
  count-cons,
}
use slg.Base.Outcome.{ok}
use slg.Circular.{CircularBuffer}
use slg.Circular.Refine.{length-contents}
use slg.Slave.{System}
use slg.Slave.Queues.{Queues, get_circ-Takes, length-map-pos}
use slg.Slave.Writer.{writer_take}
use slg.Slave.Reader.{reader_take}
use slg.Slave.Invariant.{Owned}
use slg.Slave.Invariant.Moves.{writer_has-Owned, reader_has-Owned}
use slg.Slave.Invariant.Steps.{fd_of_reader}
use slg.Slave.Threads.{Kept, Kept-refl, Kept-trans, here, next, writer_takes, reader_takes}
use slg.Slave.Rounds.{fill}

-- No more numbers are in a buffer than it was made for.
pub Queues-le : (n : ℕ) (ids : List ℕ) (cb : CircularBuffer) → Queues n ids cb → length ids ≤ n
Queues-le n ids cb q =
    ground (arith, length-contents cb, ap length q.holds, length-map-pos ids, q.sized)

pub writer_take-empty : (s : System) (rs : List ℕ) → Owned s [] rs → writer_take s ≡ ok (s, false)
unfolding writer_take
writer_take-empty s rs o =
    let (r, e, t) = get_circ-Takes s.config.nb_clients [] s.to_write_buffer o.write_queue in
    rw (e, t.0) refl

pub writer_take-next :
    (s : System) (i : ℕ) (ws rs : List ℕ)
    → Owned s (i ∷ ws) rs
    → (t : System) × (writer_take s ≡ ok (t, true)) × (t.config ≡ s.config) × Owned t ws rs
unfolding writer_take
writer_take-next s i ws rs o =
    let (r, e, t) = get_circ-Takes s.config.nb_clients (i ∷ ws) s.to_write_buffer o.write_queue in
    (
      _,
      rw (e, t.0, lt→ltb i s.config.nb_clients o.write_below.0) refl,
      refl,
      writer_has-Owned s i ws rs r.1 o t.1,
    )

pub reader_take-empty : (s : System) (ws : List ℕ) → Owned s ws [] → reader_take s ≡ ok (s, false)
unfolding reader_take
reader_take-empty s ws o =
    let (r, e, t) = get_circ-Takes s.config.nb_clients [] s.to_read_buffer o.read_queue in
    rw (e, t.0) refl

pub reader_take-next :
    (s : System) (i : ℕ) (ws rs : List ℕ)
    → Owned s ws (i ∷ rs)
    → (t : System) × (reader_take s ≡ ok (t, true)) × (t.config ≡ s.config) × Owned t ws rs
unfolding reader_take
reader_take-next s i ws rs o =
    let (r, e, t) = get_circ-Takes s.config.nb_clients (i ∷ rs) s.to_read_buffer o.read_queue in
    let (fd, h, _) = fd_of_reader (s.all_clients i) (
      o.with_reader i o.read_below.0
        (ground (arith, o.once i o.read_below.0, count-cons i i rs))) in
    (
      _,
      rw (e, t.0, lt→ltb i s.config.nb_clients o.read_below.0, h) refl,
      refl,
      reader_has-Owned s i fd ws rs r.1 o t.1,
    )

writer_fill :
    (fuel : ℕ) (s : System) (ws rs : List ℕ)
    → length ws < fuel
    → Owned s ws rs
    → (t : System) × (fill writer_take fuel s ≡ ok (t, false)) × Kept s t × Owned t [] rs
unfolding fill
writer_fill zero s ws rs h o = absurd (omega arith)
writer_fill (suc k) s [] rs h o = (
  s,
  rw (fill, writer_take-empty s rs o) refl,
  Kept-refl (record { ws = []; rs = rs; owned = o }),
  o,
)
writer_fill (suc k) s (i ∷ ws) rs h o =
    let (t, e, c, o') = writer_take-next s i ws rs o in
    let (u, e', kept, o'') = writer_fill k t ws rs (omega arith) o' in
    (
      u,
      rw (fill, e, e') refl,
      Kept-trans
          (record {
            inv = record { ws = ws; rs = rs; owned = o' };
            config = c;
            reached = next here (writer_takes true e);
          })
          kept,
      o'',
    )

reader_fill :
    (fuel : ℕ) (s : System) (ws rs : List ℕ)
    → length rs < fuel
    → Owned s ws rs
    → (t : System) × (fill reader_take fuel s ≡ ok (t, false)) × Kept s t × Owned t ws []
unfolding fill
reader_fill zero s ws rs h o = absurd (omega arith)
reader_fill (suc k) s ws [] h o = (
  s,
  rw (fill, reader_take-empty s ws o) refl,
  Kept-refl (record { ws = ws; rs = []; owned = o }),
  o,
)
reader_fill (suc k) s ws (i ∷ rs) h o =
    let (t, e, c, o') = reader_take-next s i ws rs o in
    let (u, e', kept, o'') = reader_fill k t ws rs (omega arith) o' in
    (
      u,
      rw (fill, e, e') refl,
      Kept-trans
          (record {
            inv = record { ws = ws; rs = rs; owned = o' };
            config = c;
            reached = next here (reader_takes true e);
          })
          kept,
      o'',
    )

-- When nothing else moves clients, the filling loop of either thread ends within one round more than
-- there are clients, stops for no reason, and leaves its buffer empty; the thread then has each client
-- that was in it, and the other buffer is as it was. The states in
-- between are ones that the threads reach.
pub fill-ends :
    (s : System) (ws rs : List ℕ)
    → Owned s ws rs
    → ((t : System) × (fill writer_take (s.config.nb_clients + 1) s ≡ ok (t, false))
        × Kept s t
        × Owned t [] rs)
      × ((t : System) × (fill reader_take (s.config.nb_clients + 1) s ≡ ok (t, false))
          × Kept s t
          × Owned t ws [])
fill-ends s ws rs o = (
  writer_fill (s.config.nb_clients + 1) s ws rs
      (omega (arith, Queues-le s.config.nb_clients ws s.to_write_buffer o.write_queue)) o,
  reader_fill (s.config.nb_clients + 1) s ws rs
      (omega (arith, Queues-le s.config.nb_clients rs s.to_read_buffer o.read_queue)) o,
)
