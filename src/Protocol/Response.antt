-- ===== src/Protocol/Response.antt =====
-- A response: `send_stat_response` of slg.c writes it, `read_slaves_response` of slg_master.c reads it.
-- The floating-point types, `%Lf` and `atof` are parameters.
use slg.Base.{
  ℕ, ◌+◌, List, [], ◌∷◌, ◌++◌, Option, none, some, Bool, length, take, ◌==◌, if◌then◌else◌, ltb,
}
use slg.Base.Word.{to_u64}
use slg.Base.Text.{drop, atol, c_string}
use slg.Base.Decimal.{decimal}
use slg.Base.Tokens.{strtok, comma}
use slg.Base.Outcome.{Outcome, ok, stop, ◌>>=◌}
use slg.Os.{ReadAnswer, WriteAnswer, wrote, write_failed}
use slg.Protocol.Line.{
  Failure, no_more, closed, failed, too_long, missing_field, unterminated, read_line,
}

-- What a slave reports.
pub record Report {ℓ} (LongDouble : Type ℓ) : Type ℓ where
  pub elapsed : ℕ
  pub global_total_bytes_recv : ℕ
  pub global_total_resp_recv : ℕ
  pub global_avg_ct : LongDouble
  pub global_avg_rt : LongDouble
  pub global_avg_crt : LongDouble
  pub global_min_ct : ℕ
  pub global_max_ct : ℕ
  pub global_errors : ℕ

-- `slaves_stats_t`, without `fd`, which nothing uses, and `id`, which is printed only
pub record SlaveStats {ℓ} (Double : Type ℓ) : Type ℓ where
  pub total_time : ℕ
  pub bytes_recv : ℕ
  pub resp_recv : ℕ
  pub avg_ct : Double
  pub avg_rt : Double
  pub avg_crt : Double
  pub min_ct : ℕ
  pub max_ct : ℕ
  pub errors : ℕ

-- `RESPONSE_SIZE`
abbrev response_size : ℕ
response_size = 1024

-- The loop that writes: it goes on from what is written.
unfoldable pub write_response : List ℕ → List WriteAnswer → ℕ → List ℕ → Outcome Failure (List ℕ)
write_response msg [] written sent = if ltb written (length msg) then stop no_more else ok sent
write_response msg (wrote k ∷ answers) written sent =
    let rest = write_response msg answers (written + k) (sent ++ take k (drop written msg)) in
    if ltb written (length msg) then if k == 0 then stop closed else rest else ok sent
write_response msg (write_failed e ∷ answers) written sent =
    if ltb written (length msg) then stop failed else ok sent

module _ {ℓ} {LongDouble : Type ℓ} (print_lf : LongDouble → List ℕ) where
  -- "%lu,%llu,%llu,%Lf,%Lf,%Lf,%lu,%lu,%lu\n"
  unfoldable pub response_message : Report LongDouble → List ℕ
  response_message r =
      decimal r.elapsed
      ++ b','
        ∷ (decimal r.global_total_bytes_recv
            ++ b','
              ∷ (decimal r.global_total_resp_recv
                  ++ b','
                    ∷ (print_lf r.global_avg_ct
                        ++ b','
                          ∷ (print_lf r.global_avg_rt
                              ++ b','
                                ∷ (print_lf r.global_avg_crt
                                    ++ b','
                                      ∷ (decimal r.global_min_ct
                                          ++ b','
                                            ∷ (decimal r.global_max_ct
                                                ++ b','
                                                  ∷ (decimal r.global_errors ++ b'\n' ∷ []))))))))

  -- `send_stat_response`: what the connection has carried
  unfoldable pub send_stat_response :
      Report LongDouble → List WriteAnswer → Outcome Failure (List ℕ)
  unfolding response_message write_response
  send_stat_response r answers =
      let response = response_message r in
      if ltb (length response) response_size
      then write_response response answers 0 []
      else stop too_long

-- `atol` and `atof`, which must not be given NULL
long : Option (List ℕ) → Outcome Failure ℕ
long none = stop missing_field
long (some s) = ok (to_u64 (atol s))

-- strdup copies the array up to its NUL, which an array that is full does not have.
copied : List ℕ → Outcome Failure (List ℕ)
copied s = if ltb (length s) response_size then ok s else stop unterminated

module _ {ℓ} {Double : Type ℓ} (atof : List ℕ → Double) where
  double : Option (List ℕ) → Outcome Failure Double
  double none = stop missing_field
  double (some s) = ok (atof s)

  -- The results in a line.
  unfoldable pub read_results : List ℕ → Outcome Failure (SlaveStats Double)
  unfolding long double
  read_results cp =
      let t1 = strtok comma cp in
      let t2 = strtok comma t1.1 in
      let t3 = strtok comma t2.1 in
      let t4 = strtok comma t3.1 in
      let t5 = strtok comma t4.1 in
      let t6 = strtok comma t5.1 in
      let t7 = strtok comma t6.1 in
      let t8 = strtok comma t7.1 in
      let t9 = strtok comma t8.1 in
      long t1.0 >>= (λ total_time. long t2.0 >>= (λ bytes_recv. long t3.0 >>= (λ resp_recv.
        double t4.0 >>= (λ avg_ct. double t5.0 >>= (λ avg_rt. double t6.0 >>= (λ avg_crt.
          long t7.0 >>= (λ min_ct. long t8.0 >>= (λ max_ct. long t9.0 >>= (λ errors. ok (record {
            total_time = total_time;
            bytes_recv = bytes_recv;
            resp_recv = resp_recv;
            avg_ct = avg_ct;
            avg_rt = avg_rt;
            avg_crt = avg_crt;
            min_ct = min_ct;
            max_ct = max_ct;
            errors = errors;
          }))))))))))

  -- One round of `read_slaves_response`: the array keeps the end of line.
  unfoldable pub read_response :
      Bool → List ReadAnswer → SlaveStats Double → Outcome Failure (SlaveStats Double)
  unfolding read_results copied
  read_response warmup answers old = read_line response_size answers [] >>= (λ line.
      if warmup then ok old else copied (c_string (line ++ b'\n' ∷ [])) >>= (λ cp. read_results cp))

  -- `read_slaves_response`, with the answers of the socket of each slave
  unfoldable pub read_slaves_response :
      Bool
      → List (List ReadAnswer)
      → List (SlaveStats Double)
      → Outcome Failure (List (SlaveStats Double))
  unfolding read_response
  read_slaves_response warmup (answers ∷ sockets) (old ∷ slaves) =
      read_response warmup answers old
      >>= (λ s. read_slaves_response warmup sockets slaves >>= (λ rest. ok (s ∷ rest)))
  read_slaves_response warmup sockets slaves = ok slaves
