-- ===== src/Master/Iteration.antt =====
-- slg_master.c: `connect_to_slaves`, and one iteration of `main` and the warmup, which use it.
pub mod Whole
use slg.Base.{
  ℕ, suc, ◌+◌, List, [], ◌∷◌, Option, none, some, Bool, true, false, if◌then◌else◌, ◌==◌, map, ◌%◌,
  ◌^◌,
}
use slg.Base.Word.{to_u32}
use slg.Base.Int.{ℤ, pos, negsuc}
use slg.Base.Outcome.{Outcome, ok, stop, within, ◌>>=◌}
use slg.Time.{Timeval, compare_time}
use slg.Os.{ReadAnswer, WriteAnswer}
use slg.Protocol.Line.{Failure}
use slg.Protocol.Order.{Load, send_order_to_slaves}
use slg.Protocol.Response.{SlaveStats, read_slaves_response}
use slg.Sample.{Sample, Failed, Arithmetic}
use slg.Master.Measures.{Measures, fill_master_stat_report}

-- What gethostbyname, socket, setsockopt, bind and connect answer for one slave: gethostbyname for any name,
-- connect for any address and port.
pub record ConnectAnswers : Type 0 where
  pub gethostbyname : List ℕ → Option ℕ
  pub socket : Option ℕ
  pub reuse_set : Bool
  pub bound : Bool
  pub connected : (address port : ℕ) → Bool

pub data NotConnected : Type 0 where
  no_more_answers lookup_failed no_socket bind_failed connect_failed : NotConnected

-- `htons` of an int: the 16 bits of a port.
abbrev pub port_of : ℤ → ℕ
port_of port = to_u32 port % 2 ^ 16

-- One round of the loop: the socket, on the address and the port of the slave. A setsockopt that fails is
-- reported only.
unfoldable pub connect_slave : List ℕ × ℤ → ConnectAnswers → Outcome NotConnected ℕ
connect_slave (addr, port) a = elim (a.gethostbyname addr) [
  | none ↦ stop lookup_failed
  | some address ↦ elim a.socket [
    | none ↦ stop no_socket
    | some fd ↦
        if a.bound
        then if a.connected address (port_of port) then ok fd else stop connect_failed
        else stop bind_failed
  ]
]

-- `connect_to_slaves`: the sockets of the slaves, in their order.
unfoldable pub connect_to_slaves :
    List (List ℕ × ℤ) → List ConnectAnswers → Outcome NotConnected (List ℕ)
unfolding connect_slave
connect_to_slaves [] answers = ok []
connect_to_slaves (slave ∷ slaves) [] = stop no_more_answers
connect_to_slaves (slave ∷ slaves) (a ∷ answers) =
    connect_slave slave a >>= (λ fd. connect_to_slaves slaves answers >>= (λ fds. ok (fd ∷ fds)))

pub data IterationFailed : Type 0 where
  not_connected : NotConnected → IterationFailed
  order_not_sent : Failure → IterationFailed
  no_response : Failure → IterationFailed
  not_filled : Failed → IterationFailed

-- The answers for one iteration, those of `write` and `read` on each socket, and the two readings of the clock.
pub record IterationAnswers : Type 0 where
  pub connects : List ConnectAnswers
  pub writes : (socket : ℕ) → List WriteAnswer
  pub start_time : Timeval
  pub reads : (socket : ℕ) → List ReadAnswer
  pub stop_time : Timeval

-- `slaves_stats` after bzero, for `slaves` slaves
unfoldable pub cleared {ℓ} : {F : Type ℓ} → Arithmetic F → List (List ℕ × ℤ) → List (SlaveStats F)
cleared f [] = []
cleared f (s ∷ rest) =
    record {
      total_time = 0;
      bytes_recv = 0;
      resp_recv = 0;
      avg_ct = f.nought;
      avg_rt = f.nought;
      avg_crt = f.nought;
      min_ct = 0;
      max_ct = 0;
      errors = 0;
    }
    ∷ cleared f rest

module _ {ℓ} {F : Type ℓ} (f : Arithmetic F) (multiply : F → F → F) (atof : List ℕ → F) (l : Load)
    (name : List ℕ) (slaves targets : List (List ℕ × ℤ)) where
  -- One round of the loop over the iterations of a wave, on the entry of the wave. The result is what
  -- the connections have carried and the entry.
  unfoldable pub run_iteration :
      IterationAnswers
      → Measures (Sample F)
      → Outcome IterationFailed (List (List ℕ) × Measures (Sample F))
  unfolding connect_to_slaves cleared
  run_iteration a stats = within not_connected (connect_to_slaves slaves a.connects) >>= (λ sockets.
      within order_not_sent (send_order_to_slaves l false name 0 targets (map a.writes sockets))
      >>= (λ wires.
          within no_response
            (read_slaves_response atof false (map a.reads sockets) (cleared f slaves))
          >>= (λ slaves_stats.
              within not_filled (
                fill_master_stat_report f multiply slaves_stats
                  (compare_time a.start_time a.stop_time) stats)
              >>= (λ stats'. ok (wires, stats')))))

  -- `warmup_time`, for a length that is an int: nothing, or an iteration whose responses are dropped
  unfoldable pub warmup_time : ℤ → IterationAnswers → Outcome IterationFailed (List (List ℕ))
  unfolding connect_to_slaves cleared
  warmup_time (negsuc n) a = ok []
  warmup_time (pos n) a =
      if n == 0
      then ok []
      else within not_connected (connect_to_slaves slaves a.connects) >>= (λ sockets.
        within order_not_sent (send_order_to_slaves l true name 0 targets (map a.writes sockets))
        >>= (λ wires.
            within no_response
              (read_slaves_response atof true (map a.reads sockets) (cleared f slaves))
            >>= (λ dropped. ok wires)))
