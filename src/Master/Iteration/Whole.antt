-- ===== src/Master/Iteration/Whole.antt =====
-- A whole iteration: every slave gets its own order, and the wave gets what all slaves report.
use slg.Base.{
  arith, ne→==, Bool, ℕ, ◌<◌, ◌≡◌, refl, ap, ◌∙◌, List, [], ◌∷◌, ◌++◌, map, length, some, true,
  false,
}
use slg.Base.Int.{ℤ, pos}
use slg.Base.Outcome.{ok, within, ◌>>=◌}
use slg.Time.{compare_time}
use slg.Os.{ReadAnswer, got}
use slg.Protocol.Order.{Load, order_message, send_order_to_slaves}
use slg.Protocol.Orders.{orders, takes_whole, send_order_to_slaves-orders}
use slg.Protocol.Response.{Report, response_message, read_slaves_response}
use slg.Protocol.Reading.{concat, NonemptyParts}
use slg.Protocol.Report.{reported, IsSent, read_response-response_message, read_response-warmup}
use slg.Sample.{Sample, Arithmetic}
use slg.Master.Measures.{Measures, wave_values, fill_master_stat_report}
use slg.Master.Filled.{Filled, insert_measures-Filled}
use slg.Master.Iteration.{
  warmup_time, ConnectAnswers, port_of, connect_slave, connect_to_slaves, cleared, IterationAnswers,
  run_iteration, not_filled,
}

-- Every call for the slave succeeds, but for setsockopt, whose answer does not count: its name is found, and
-- the socket is connected to its address and port.
abbrev pub Reaches : List ℕ × ℤ → ConnectAnswers → ℕ → Type 0
Reaches (addr, port) a fd =
    ((address : ℕ) × (a.gethostbyname addr ≡ some address)
      × (a.connected address (port_of port) ≡ true))
    × (a.socket ≡ some fd)
    × (a.bound ≡ true)

-- Each slave is reached on its socket.
abbrev pub AllReach : List (List ℕ × ℤ) → List ConnectAnswers → List ℕ → Type 0
AllReach [] answers [] = Unit {0}
AllReach (s ∷ slaves) (a ∷ answers) (fd ∷ fds) = Reaches s a fd × AllReach slaves answers fds
AllReach _ _ _ = ⊥

connect_slave-Reaches :
    (slave : List ℕ × ℤ) (a : ConnectAnswers) (fd : ℕ)
    → Reaches slave a fd
    → connect_slave slave a ≡ ok fd
unfolding connect_slave
connect_slave-Reaches (addr, port) a fd ((address, ea, ec), es, eb) =
    rw (connect_slave, ea, es, eb, ec) refl

connect_to_slaves-AllReach :
    (slaves : List (List ℕ × ℤ)) (answers : List ConnectAnswers) (fds : List ℕ)
    → AllReach slaves answers fds
    → connect_to_slaves slaves answers ≡ ok fds
unfolding connect_to_slaves
connect_to_slaves-AllReach [] answers [] h = refl
connect_to_slaves-AllReach [] answers (fd ∷ fds) h = absurd h
connect_to_slaves-AllReach (s ∷ slaves) [] fds h = absurd h
connect_to_slaves-AllReach (s ∷ slaves) (a ∷ answers) [] h = absurd h
connect_to_slaves-AllReach (s ∷ slaves) (a ∷ answers) (fd ∷ fds) (r, h) =
    rw (connect_slave-Reaches s a fd r, connect_to_slaves-AllReach slaves answers fds h) refl

-- A call of `read` for each part of each response.
abbrev pub arriving : List (List (List ℕ)) → List (List ReadAnswer)
arriving [] = []
arriving (parts ∷ rest) = map got parts ∷ arriving rest

module _ {ℓ} {F : Type ℓ} (f : Arithmetic F) (multiply : F → F → F) (atof : List ℕ → F)
    (print_lf : F → List ℕ) (l : Load) (name : List ℕ) where
  -- A report for each slave, and its response in parts.
  abbrev pub Respond : List (List ℕ × ℤ) → List (Report F) → List (List (List ℕ)) → Type 0
  Respond [] [] [] = Unit {0}
  Respond (s ∷ slaves) (r ∷ reports) (parts ∷ rest) =
      IsSent print_lf atof r
      × NonemptyParts parts
      × (concat parts ≡ response_message print_lf r)
      × Respond slaves reports rest
  Respond _ _ _ = ⊥

  read_slaves_response-Respond :
      (slaves : List (List ℕ × ℤ)) (reports : List (Report F)) (parts : List (List (List ℕ)))
      → Respond slaves reports parts
      → read_slaves_response atof false (arriving parts) (cleared f slaves)
        ≡ ok (map (reported print_lf atof) reports)
  unfolding read_slaves_response cleared
  read_slaves_response-Respond [] [] [] h = refl
  read_slaves_response-Respond [] [] (p ∷ parts) h = absurd h
  read_slaves_response-Respond [] (r ∷ reports) parts h = absurd h
  read_slaves_response-Respond (s ∷ slaves) [] parts h = absurd h
  read_slaves_response-Respond (s ∷ slaves) (r ∷ reports) [] h = absurd h
  read_slaves_response-Respond (s ∷ slaves) (r ∷ reports) (p ∷ parts) (sent, cut, whole, h) =
      rw
        (
          read_response-response_message print_lf atof r p _ sent cut whole,
          read_slaves_response-Respond slaves reports parts h,
        )
        refl

  read_slaves_response-warmup :
      (slaves : List (List ℕ × ℤ)) (reports : List (Report F)) (parts : List (List (List ℕ)))
      → Respond slaves reports parts
      → read_slaves_response atof true (arriving parts) (cleared f slaves) ≡ ok (cleared f slaves)
  unfolding read_slaves_response cleared
  read_slaves_response-warmup [] [] [] h = refl
  read_slaves_response-warmup [] [] (p ∷ parts) h = absurd h
  read_slaves_response-warmup [] (r ∷ reports) parts h = absurd h
  read_slaves_response-warmup (s ∷ slaves) [] parts h = absurd h
  read_slaves_response-warmup (s ∷ slaves) (r ∷ reports) [] h = absurd h
  read_slaves_response-warmup (s ∷ slaves) (r ∷ reports) (p ∷ parts) (sent, cut, whole, h) =
      rw
        (
          read_response-warmup print_lf atof r p _ sent cut whole,
          read_slaves_response-warmup slaves reports parts h,
        )
        refl

  -- Every slave is reached, takes its order whole and sends its report, in whatever nonempty parts.
  pub record Plays (warmup : Bool) (slaves targets : List (List ℕ × ℤ)) (a : IterationAnswers)
      (reports : List (Report F)) : Type ℓ where
    pub sockets : List ℕ
    pub reached : AllReach slaves a.connects sockets
    pub ordered : map a.writes sockets ≡ map takes_whole (orders l warmup name 0 targets)
    pub parts : List (List (List ℕ))
    pub heard : map a.reads sockets ≡ arriving parts
    pub respond : Respond slaves reports parts

  -- What the connections of one round carry.
  abbrev pub wires : Bool → List (List ℕ × ℤ) → List (List ℕ)
  wires warmup targets = map order_message (orders l warmup name 0 targets)

  send_order_to_slaves-Plays :
      (warmup : Bool) (slaves targets : List (List ℕ × ℤ)) (a : IterationAnswers)
      (reports : List (Report F))
      → (p : Plays warmup slaves targets a reports)
      → send_order_to_slaves l warmup name 0 targets (map a.writes p.sockets)
        ≡ ok (wires warmup targets)
  send_order_to_slaves-Plays warmup slaves targets a reports p =
      ap (send_order_to_slaves l warmup name 0 targets) p.ordered
      ∙ send_order_to_slaves-orders l warmup name 0 targets

  pub run_iteration-Plays :
      (slaves targets : List (List ℕ × ℤ)) (a : IterationAnswers) (reports : List (Report F))
      (stats : Measures (Sample F))
      → Plays false slaves targets a reports
      → run_iteration f multiply atof l name slaves targets a stats ≡ (
          within not_filled (
            fill_master_stat_report f multiply
              (map (reported print_lf atof) reports)
              (compare_time a.start_time a.stop_time)
              stats)
          >>= (λ after. ok (wires false targets, after)))
  unfolding run_iteration
  run_iteration-Plays slaves targets a reports stats p =
      let connected = connect_to_slaves-AllReach slaves a.connects p.sockets p.reached in
      let heard =
        ap (λ x. read_slaves_response atof false x (cleared f slaves)) p.heard
        ∙ read_slaves_response-Respond slaves reports p.parts p.respond in
      rw (connected, send_order_to_slaves-Plays false slaves targets a reports p, heard) refl

  pub warmup_time-Plays :
      (slaves targets : List (List ℕ × ℤ)) (a : IterationAnswers) (reports : List (Report F))
      (n : ℕ)
      → 0 < n
      → Plays true slaves targets a reports
      → warmup_time f multiply atof l name slaves targets (pos n) a ≡ ok (wires true targets)
  unfolding warmup_time
  warmup_time-Plays slaves targets a reports n positive p =
      let connected = connect_to_slaves-AllReach slaves a.connects p.sockets p.reached in
      let heard =
        ap (λ x. read_slaves_response atof true x (cleared f slaves)) p.heard
        ∙ read_slaves_response-warmup slaves reports p.parts p.respond in
      rw
        (
          ne→== n 0 (λ e. omega arith),
          connected,
          send_order_to_slaves-Plays true slaves targets a reports p,
          heard,
        )
        refl

  -- In an iteration in which every slave is reached, takes its order whole and sends a report of at most
  -- 1023 bytes in whatever nonempty parts, each connection carries the order of its slave, with its
  -- number and its target, and the wave takes one more value of each measure: what
  -- `fill_master_stat_report` makes of the reports of all slaves and the time between the two
  -- readings of the clock. The wave must have room for one more value.
  pub run_iteration-reports :
      (slaves targets : List (List ℕ × ℤ)) (a : IterationAnswers) (reports : List (Report F))
      (n : ℕ) (stats : Measures (Sample F)) (vs : List (Measures F))
      → Plays false slaves targets a reports
      → Filled n stats vs
      → length vs < n
      → (after : Measures (Sample F)) × (run_iteration f multiply atof l name slaves targets a stats
          ≡ ok (map order_message (orders l false name 0 targets), after))
        × Filled n after (
            vs
            ++ wave_values f multiply
                (map (reported print_lf atof) reports)
                (compare_time a.start_time a.stop_time)
              ∷ [])
  unfolding fill_master_stat_report
  run_iteration-reports slaves targets a reports n stats vs played filled room =
      let (after, e, h) =
        insert_measures-Filled n stats vs
          (wave_values f multiply (map (reported print_lf atof) reports)
            (compare_time a.start_time a.stop_time))
          filled room in
      let ran = run_iteration-Plays slaves targets a reports stats played in
      (after, rw ran (rw e refl), h)
