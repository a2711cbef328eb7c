-- ===== src/Time/Tests.antt =====
-- Two times whose microseconds wrap.
use slg.Base.{◌+◌, ◌≡◌, arith}
use slg.Time.{compare_time, compare_time_exact}

compare_time_exact_example :
    compare_time (record { tv_sec = 7; tv_usec = 900000 }) (record { tv_sec = 9; tv_usec = 100000 })
      + 7900000
    ≡ 9100000
compare_time_exact_example = compare_time_exact _ _ (omega arith) (omega arith)
