-- ===== src/Master/Tests/Iterations.antt =====
-- One iteration with two slaves, whose responses come in one part and in two.
use slg.Base.{◌==◌, if◌then◌else◌, ℕ, ◌+◌, ◌≡◌, refl, List, [], ◌∷◌, map, false, true, some, arith}
use slg.Base.Int.{ℤ, pos}
use slg.Base.Text.{codes}
use slg.Base.Decimal.{decimal, print_int}
use slg.Base.Outcome.{ok}
use slg.Time.{compare_time}
use slg.Os.{wrote, got}
use slg.Protocol.Order.{Load, order_message, order_for}
use slg.Protocol.Response.{Report, response_message}
use slg.Protocol.Report.{reported, IsSent}
use slg.Sample.{Sample}
use slg.Master.Measures.{Measures, wave_values}
use slg.Master.Filled.{Column, Filled}
use slg.Master.Iteration.{ConnectAnswers, IterationAnswers, run_iteration}
use slg.Master.Iteration.Whole.{run_iteration-reports}
use slg.Master.Tests.{whole, times}

abbrev pub light : Load
light = record {
  nb_clients = 20;
  duration = 3;
  warmup_length = 1;
  nb_msg_per_connection = 4;
  delay = 0;
}

abbrev pub two_slaves : List (List ℕ × ℤ)
two_slaves = (codes "s", pos 5000) ∷ (codes "t", pos 5000) ∷ []

abbrev pub two_targets : List (List ℕ × ℤ)
two_targets = (codes "web", pos 80) ∷ (codes "web", pos 81) ∷ []

abbrev pub report : Report ℕ
report = record {
  elapsed = 3;
  global_total_bytes_recv = 2;
  global_total_resp_recv = 1;
  global_avg_ct = 5;
  global_avg_rt = 6;
  global_avg_crt = 7;
  global_min_ct = 4;
  global_max_ct = 8;
  global_errors = 0;
}

abbrev pub as_text : ℕ → List ℕ
as_text n = (n + b'0') ∷ []

abbrev pub of_text : List ℕ → ℕ
of_text [] = 0
of_text (c ∷ s) = c

abbrev pub answers_on : ℕ → ConnectAnswers
answers_on fd = record {
  gethostbyname = λ addr. some 1;
  socket = some fd;
  reuse_set = false;
  bound = true;
  connected = λ address port. port == 5000;
}

abbrev two_answers : IterationAnswers
two_answers = record {
  connects = answers_on 5 ∷ answers_on 6 ∷ [];
  writes = λ socket. wrote 20 ∷ [];
  start_time = record { tv_sec = 10; tv_usec = 0 };
  reads = λ socket.
      if socket == 5
      then got (codes "3,2,1,5,6,7,4,8,0\n") ∷ []
      else got (codes "3,2,1,5,6,") ∷ got (codes "7,4,8,0\n") ∷ [];
  stop_time = record { tv_sec = 13; tv_usec = 0 };
}

abbrev empty_sample : Sample ℕ
empty_sample = record { s = 0 ∷ []; nb_elem = 0; size_max = 1 }

abbrev empty_wave : Measures (Sample ℕ)
empty_wave = record {
  total_time = empty_sample;
  avg_ct = empty_sample;
  avg_rt = empty_sample;
  avg_crt = empty_sample;
  resp_rate = empty_sample;
  bytes_rate = empty_sample;
  max_ct = empty_sample;
  min_ct = empty_sample;
  errors = empty_sample;
}

empty-Column : (measure : Measures ℕ → ℕ) → Column 1 empty_sample measure []
empty-Column measure = record {
  size = refl;
  holds = record { storage = refl; fits = omega arith; count = refl; elements = refl };
}

empty_wave-Filled : Filled 1 empty_wave []
empty_wave-Filled = record {
  total_time = empty-Column (λ v. v.total_time);
  avg_ct = empty-Column (λ v. v.avg_ct);
  avg_rt = empty-Column (λ v. v.avg_rt);
  avg_crt = empty-Column (λ v. v.avg_crt);
  resp_rate = empty-Column (λ v. v.resp_rate);
  bytes_rate = empty-Column (λ v. v.bytes_rate);
  max_ct = empty-Column (λ v. v.max_ct);
  min_ct = empty-Column (λ v. v.min_ct);
  errors = empty-Column (λ v. v.errors);
}

pub report-IsSent : IsSent as_text of_text report
unfolding response_message decimal
report-IsSent = (
  (
    (omega arith, omega arith, omega arith, tt),
    (omega arith, omega arith, omega arith, tt),
    (omega arith, omega arith, omega arith, tt),
  ),
  omega arith,
)

run_iteration-reports_example :
    (after : Measures (Sample ℕ)) × (run_iteration whole times of_text light
        (codes "m")
        two_slaves
        two_targets
        two_answers
        empty_wave
      ≡ ok (codes "0,m,web,80,20,3,4,0\n" ∷ codes "1,m,web,81,20,3,4,0\n" ∷ [], after))
    × Filled 1 after (
        wave_values whole times
          (map (reported as_text of_text) (report ∷ report ∷ []))
          (compare_time two_answers.start_time two_answers.stop_time)
        ∷ [])
unfolding order_message order_for print_int response_message decimal
run_iteration-reports_example =
    run_iteration-reports whole times of_text as_text light (codes "m") two_slaves two_targets
      two_answers (report ∷ report ∷ []) 1 empty_wave []
      (record {
        sockets = 5 ∷ 6 ∷ [];
        reached = (((1, refl, refl), refl, refl), (((1, refl, refl), refl, refl), tt));
        ordered = refl;
        parts =
            (codes "3,2,1,5,6,7,4,8,0\n" ∷ []) ∷ (codes "3,2,1,5,6," ∷ codes "7,4,8,0\n" ∷ []) ∷ [];
        heard = refl;
        respond = (report-IsSent, tt, refl, (report-IsSent, tt, refl, tt));
      })
      empty_wave-Filled (omega arith)
