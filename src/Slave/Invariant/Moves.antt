-- ===== src/Slave/Invariant/Moves.antt =====
-- The ways in which a client changes hands, and what each does to the ownership of the clients.
use slg.Base.{
  ℕ, ◌≤◌, ◌<◌, ◌≡◌, List, [], ◌∷◌, ◌++◌, Option, Bool, true, false, arith, AllBelow-append, count,
  count_above, count-cons, count-snoc, length, length-lt_of_missing, dec_lt,
}
use slg.Base.Update.{update}
use slg.FdSet.{FdSet}
use slg.Circular.{CircularBuffer}
use slg.Client.{Client, Stats}
use slg.Slave.{System}
use slg.Slave.Queues.{Queues}
use slg.Slave.Writer.{watch}
use slg.Slave.Reader.{raise}
use slg.Slave.Invariant.{Owned, FitsWriter, FitsReader}

-- `writer_take` on the client at the head of the write buffer.
abbrev pub writer_has : System → ℕ → CircularBuffer → System
writer_has s i ring = record s {
  to_write_buffer = ring;
  internal_to_write = update s.internal_to_write i true;
  connect_fds = watch (s.all_clients i).fd s.connect_fds;
}

pub writer_has-Owned :
    (s : System) (i : ℕ) (ws rs : List ℕ) (ring : CircularBuffer)
    → Owned s (i ∷ ws) rs
    → Queues s.config.nb_clients ws ring
    → Owned (writer_has s i ring) ws rs
writer_has-Owned s i ws rs ring o q = record {
  write_queue = q;
  read_queue = o.read_queue;
  write_below = o.write_below.1;
  read_below = o.read_below;
  once = λ j lt. ground (arith, o.once j lt, count-cons j i ws);
  with_writer = λ j lt h. o.with_writer j lt (ground (arith, h, o.once j lt, count-cons j i ws));
  with_reader = λ j lt h. o.with_reader j lt h;
}

-- `reader_take` on the client at the head of the read buffer, whose descriptor is `fd`.
abbrev pub reader_has : System → ℕ → ℕ → CircularBuffer → System
reader_has s i fd ring = record s {
  to_read_buffer = ring;
  internal_to_read = update s.internal_to_read i true;
  max_fd = raise s.max_fd fd;
  master_read_set = update s.master_read_set fd true;
}

pub reader_has-Owned :
    (s : System) (i fd : ℕ) (ws rs : List ℕ) (ring : CircularBuffer)
    → Owned s ws (i ∷ rs)
    → Queues s.config.nb_clients rs ring
    → Owned (reader_has s i fd ring) ws rs
reader_has-Owned s i fd ws rs ring o q = record {
  write_queue = o.write_queue;
  read_queue = q;
  write_below = o.write_below;
  read_below = o.read_below.1;
  once = λ j lt. ground (arith, o.once j lt, count-cons j i rs);
  with_writer = λ j lt h. o.with_writer j lt h;
  with_reader = λ j lt h. o.with_reader j lt (ground (arith, h, o.once j lt, count-cons j i rs));
}

module _ (s : System) (i : ℕ) (ws rs : List ℕ) (lt : i < s.config.nb_clients)
    (o : Owned s ws rs) where
  at_most_once_read : (j : ℕ) → count j rs ≤ 1
  at_most_once_read j = elim (dec_lt j s.config.nb_clients) [
    | yes p ↦ omega (arith, o.once j p)
    | no p ↦ omega (arith, count_above s.config.nb_clients j rs o.read_below)
  ]

  at_most_once_write : (j : ℕ) → count j ws ≤ 1
  at_most_once_write j = elim (dec_lt j s.config.nb_clients) [
    | yes p ↦ omega (arith, o.once j p)
    | no p ↦ omega (arith, count_above s.config.nb_clients j ws o.write_below)
  ]

  -- While the writing thread has client `i` there is room in the read buffer, and the other way round.
  pub room_to_read : s.internal_to_write i ≡ true → length rs < s.config.nb_clients
  room_to_read e =
      length-lt_of_missing s.config.nb_clients i rs o.read_below at_most_once_read lt
        (ground (arith, o.once i lt))

  pub room_to_write : s.internal_to_read i ≡ true → length ws < s.config.nb_clients
  room_to_write e =
      length-lt_of_missing s.config.nb_clients i ws o.write_below at_most_once_write lt
        (ground (arith, o.once i lt))

  -- The writing thread keeps client `i`, as `c`.
  pub writer_keeps-Owned :
      (c : Client) (g : Stats) (fds : FdSet)
      → s.internal_to_write i ≡ true
      → FitsWriter c
      → Owned
          (record s { stats = g; all_clients = update s.all_clients i c; connect_fds = fds })
          ws
          rs
  writer_keeps-Owned c g fds e fits = record {
    write_queue = o.write_queue;
    read_queue = o.read_queue;
    write_below = o.write_below;
    read_below = o.read_below;
    once = o.once;
    with_writer = λ j jt h. ground (arith, h, fits, o.with_writer j jt h);
    with_reader = λ j jt h. ground (arith, h, o.once j jt, o.with_reader j jt h);
  }

  -- The writing thread puts client `i`, now `c`, into the read buffer.
  pub writer_gives-Owned :
      (c : Client) (g : Stats) (fds : FdSet) (ring : CircularBuffer)
      → s.internal_to_write i ≡ true
      → FitsReader c
      → Queues s.config.nb_clients (rs ++ (i ∷ [])) ring
      → Owned
          (record s {
            stats = g;
            all_clients = update s.all_clients i c;
            connect_fds = fds;
            internal_to_write = update s.internal_to_write i false;
            to_read_buffer = ring;
          })
          ws
          (rs ++ (i ∷ []))
  writer_gives-Owned c g fds ring e fits q = record {
    write_queue = o.write_queue;
    read_queue = q;
    write_below = o.write_below;
    read_below = AllBelow-append s.config.nb_clients rs (i ∷ []) o.read_below (lt, tt);
    once = λ j jt. ground (arith, o.once j jt, count-snoc j i rs);
    with_writer = λ j jt h. ground (arith, h, o.once j jt, o.with_writer j jt);
    with_reader =
        λ j jt h. ground (arith, h, fits, o.once j jt, o.with_reader j jt, count-snoc j i rs);
  }

  -- The reading thread keeps client `i`, as `c`.
  pub reader_keeps-Owned :
      (c : Client) (g : Stats)
      → s.internal_to_read i ≡ true
      → FitsReader c
      → Owned (record s { stats = g; all_clients = update s.all_clients i c }) ws rs
  reader_keeps-Owned c g e fits = record {
    write_queue = o.write_queue;
    read_queue = o.read_queue;
    write_below = o.write_below;
    read_below = o.read_below;
    once = o.once;
    with_writer = λ j jt h. ground (arith, h, o.once j jt, o.with_writer j jt h);
    with_reader = λ j jt h. ground (arith, h, fits, o.with_reader j jt h);
  }

  -- The reading thread puts client `i`, now `c`, into the write buffer.
  pub reader_gives-Owned :
      (c : Client) (g : Stats) (m : Option ℕ) (set : ℕ → Bool) (ring : CircularBuffer)
      → s.internal_to_read i ≡ true
      → FitsWriter c
      → Queues s.config.nb_clients (ws ++ (i ∷ [])) ring
      → Owned
          (record s {
            stats = g;
            all_clients = update s.all_clients i c;
            internal_to_read = update s.internal_to_read i false;
            max_fd = m;
            master_read_set = set;
            to_write_buffer = ring;
          })
          (ws ++ (i ∷ []))
          rs
  reader_gives-Owned c g m set ring e fits q = record {
    write_queue = q;
    read_queue = o.read_queue;
    write_below = AllBelow-append s.config.nb_clients ws (i ∷ []) o.write_below (lt, tt);
    read_below = o.read_below;
    once = λ j jt. ground (arith, o.once j jt, count-snoc j i ws);
    with_writer =
        λ j jt h. ground (arith, h, fits, o.once j jt, o.with_writer j jt, count-snoc j i ws);
    with_reader = λ j jt h. ground (arith, h, o.once j jt, o.with_reader j jt);
  }
