-- ===== src/Slave/Daemon/Run.antt =====
-- A whole run of the two threads under any scheduler keeps what each of their rounds keeps.
use slg.Base.{ℕ, List, [], ◌∷◌, true, ltb, Bool-cases, inl, inr, ltb→lt}
use slg.Base.Outcome.{Ensures, Ensures-bind}
use slg.Client.Lifecycle.{Tolerated}
use slg.Slave.{System}
use slg.Slave.Invariant.{Inv, Owned}
use slg.Slave.Threads.{Kept, Kept-refl, Kept-trans, here, next, writer_takes, reader_takes}
use slg.Slave.Rounds.Filling.{
  writer_take-empty, writer_take-next, reader_take-empty, reader_take-next,
}
use slg.Slave.Rounds.Serving.{writer_serve-Kept, reader_serve-Kept, Ensures-map}
use slg.Slave.Daemon.{
  Action, take_to_write, take_to_read, serve_writing, serve_reading, act, run_threads,
}

take_to_write-Kept :
    (s : System) (ws rs : List ℕ) → Owned s ws rs → Ensures Tolerated (Kept s) (act take_to_write s)
unfolding act
take_to_write-Kept s [] rs o =
    rw (writer_take-empty s rs o) (Kept-refl (record { ws = []; rs = rs; owned = o }))
take_to_write-Kept s (i ∷ ws) rs o =
    let (t, e, c, o') = writer_take-next s i ws rs o in
    rw e (record {
      inv = record { ws = ws; rs = rs; owned = o' };
      config = c;
      reached = next here (writer_takes true e);
    })

take_to_read-Kept :
    (s : System) (ws rs : List ℕ) → Owned s ws rs → Ensures Tolerated (Kept s) (act take_to_read s)
unfolding act
take_to_read-Kept s ws [] o =
    rw (reader_take-empty s ws o) (Kept-refl (record { ws = ws; rs = []; owned = o }))
take_to_read-Kept s ws (i ∷ rs) o =
    let (t, e, c, o') = reader_take-next s i ws rs o in
    rw e (record {
      inv = record { ws = ws; rs = rs; owned = o' };
      config = c;
      reached = next here (reader_takes true e);
    })

act-Kept : (x : Action) (s : System) → Inv s → Ensures Tolerated (Kept s) (act x s)
act-Kept take_to_write s i = take_to_write-Kept s i.ws i.rs i.owned
act-Kept take_to_read s i = take_to_read-Kept s i.ws i.rs i.owned
act-Kept (serve_writing j a) s i = elim (Bool-cases (ltb j s.config.nb_clients)) [
  | inl e ↦ unfold act in rw e (writer_serve-Kept s j a (ltb→lt j s.config.nb_clients e) i)
  | inr e ↦ unfold act in rw e (Kept-refl i)
]
act-Kept (serve_reading j a) s i = elim (Bool-cases (ltb j s.config.nb_clients)) [
  | inl e ↦ unfold act in rw e (reader_serve-Kept s j a (ltb→lt j s.config.nb_clients e) i)
  | inr e ↦ unfold act in rw e (Kept-refl i)
]

pub run_threads-Kept :
    (actions : List Action) (s : System)
    → Inv s
    → Ensures Tolerated (Kept s) (run_threads actions s)
unfolding run_threads
run_threads-Kept [] s i = Kept-refl i
run_threads-Kept (x ∷ actions) s i =
    Ensures-bind Tolerated (Kept s) (Kept s) (act x s) _ (act-Kept x s i) (λ t kept.
      Ensures-map (Kept t) (Kept s) (run_threads actions t) (run_threads-Kept actions t kept.inv)
        (λ u. Kept-trans kept))
