-- ===== src/Time.antt =====
-- debug_tools.c: `compare_time`, the clock arithmetic of every measure.
mod Tests
use slg.Base.{ℕ, ◌+◌, ◌*◌, ◌^◌, ◌≤◌, ◌<◌, ◌≡◌, arith}
use slg.Base.Word.{u64, sub64}

-- `struct timeval`; gettimeofday gives times after 1970, so no field is negative.
pub record Timeval : Type 0 where
  pub tv_sec : ℕ
  pub tv_usec : ℕ

unfoldable pub compare_time : Timeval → Timeval → ℕ
compare_time start_time stop_time =
    let sec_res = sub64 stop_time.tv_sec start_time.tv_sec in
    let usec_res = sub64 stop_time.tv_usec start_time.tv_usec in
    u64 (u64 (1000000 * sec_res) + usec_res)

-- the microseconds since 1970
abbrev pub micros : Timeval → ℕ
micros t = 1000000 * t.tv_sec + t.tv_usec

-- `compare_time` is the number of microseconds from its first argument to its second, if the second
-- is not earlier and both are below 2 ^ 64 microseconds, also where the microsecond fields wrap.
pub compare_time_exact :
    (a b : Timeval)
    → micros a ≤ micros b
    → micros b < 2 ^ 64
    → compare_time a b + micros a ≡ micros b
unfolding compare_time
compare_time_exact a b le fits = omega arith
