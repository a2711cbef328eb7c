-- ===== src/Protocol/Report.antt =====
-- A response that slg.c sends, read by slg_master.c.
use slg.Base.{
  ℕ, ◌^◌, ◌+◌, ◌-◌, ◌≤◌, ◌<◌, ◌≡◌, refl, sym, ap, ◌∙◌, List, [], ◌∷◌, ◌++◌, append_assoc, map,
  length, length-append, take, take-all, arith, ltb, lt→ltb, ne→==, zero, suc, if◌then◌else◌, true,
  false,
}
use slg.Base.Word.{to_u64}
use slg.Base.Outcome.{ok}
use slg.Base.Text.{c_string, atol, drop}
use slg.Base.Tokens.{IsField, strtok-field, strtok-line, IsNumeral-IsField}
use slg.Base.Decimal.{decimal, decimal-IsNumeral, atoi-decimal, atoi-decimal_line}
use slg.Os.{got, WriteAnswer, wrote, write_failed}
use slg.Protocol.Fields.{commas, AreFields, c_string-commas_line, NoNewline-commas}
use slg.Protocol.Response.{
  Report, SlaveStats, response_message, write_response, send_stat_response, read_results,
  read_response,
}
use slg.Protocol.Reading.{concat, NonemptyParts, read_line-parts}
use slg.Protocol.Line.{read_line}

-- The answers of the calls take `n` bytes, one at least each.
abbrev pub TakesAll : ℕ → List WriteAnswer → Type 0
TakesAll n [] = n ≡ 0
TakesAll n (wrote k ∷ answers) = (0 < k) × (k ≤ n) × TakesAll (n - k) answers
TakesAll n (write_failed e ∷ answers) = ⊥

take-nil : (n : ℕ) → take {A = ℕ} n [] ≡ []
take-nil zero = refl
take-nil (suc n) = refl

take-take-drop : (i k : ℕ) (s : List ℕ) → take i s ++ take k (drop i s) ≡ take (i + k) s
take-take-drop zero k s = ground arith
take-take-drop (suc i) zero [] = sym (take-nil (suc i + 0))
take-take-drop (suc i) (suc k) [] = sym (take-nil (suc i + suc k))
take-take-drop (suc i) k (c ∷ s) =
    let e : suc i + k ≡ suc (i + k) = omega arith in rw (e, take-take-drop i k s)

write_response-whole :
    (msg : List ℕ) (answers : List WriteAnswer) (written n : ℕ)
    → written + n ≡ length msg
    → TakesAll n answers
    → write_response msg answers written (take written msg) ≡ ok msg
unfolding write_response
write_response-whole msg [] written n h t = ground (arith, take-all written msg)
write_response-whole msg (wrote k ∷ answers) written n h t =
    let rest = write_response-whole msg answers (written + k) (n - k) (omega arith) t.2 in
    rw (
      lt→ltb written (length msg) (omega arith),
      take-take-drop written k msg,
      ne→== k 0 (λ e. omega arith),
      rest,
    )
write_response-whole msg (write_failed e ∷ answers) written n h t = absurd t

-- What `atol` makes of a printed counter.
unfoldable pub as_long : ℕ → ℕ
as_long n = if ltb n (2 ^ 63) then n else 2 ^ 63 - 1

atol-decimal : (n : ℕ) → to_u64 (atol (decimal n)) ≡ as_long n
unfolding atol as_long
atol-decimal n = rw (to_u64, atoi-decimal n) (ground arith)

atol-decimal_line : (n : ℕ) → to_u64 (atol (decimal n ++ b'\n' ∷ [])) ≡ as_long n
unfolding atol as_long
atol-decimal_line n = rw (to_u64, atoi-decimal_line n) (ground arith)

decimal-IsField : (n : ℕ) → IsField (decimal n)
decimal-IsField n = IsNumeral-IsField (decimal n) (decimal-IsNumeral n)

module _ {ℓ κ} {LongDouble : Type ℓ} {Double : Type κ} (print_lf : LongDouble → List ℕ)
    (atof : List ℕ → Double) where
  line_fields : Report LongDouble → List (List ℕ)
  line_fields r =
      decimal r.global_total_bytes_recv
      ∷ decimal r.global_total_resp_recv
      ∷ print_lf r.global_avg_ct
      ∷ print_lf r.global_avg_rt
      ∷ print_lf r.global_avg_crt
      ∷ decimal r.global_min_ct
      ∷ decimal r.global_max_ct
      ∷ decimal r.global_errors
      ∷ []

  response_line : Report LongDouble → List ℕ
  unfolding line_fields
  response_line r = commas (decimal r.elapsed) (line_fields r)

  response_message-line :
      (r : Report LongDouble) → response_message print_lf r ≡ response_line r ++ b'\n' ∷ []
  unfolding response_message response_line line_fields
  response_message-line r = simp append_assoc

  -- The results that the slave meant.
  unfoldable pub reported : Report LongDouble → SlaveStats Double
  unfolding as_long
  reported r = record {
    total_time = as_long r.elapsed;
    bytes_recv = as_long r.global_total_bytes_recv;
    resp_recv = as_long r.global_total_resp_recv;
    avg_ct = atof (print_lf r.global_avg_ct);
    avg_rt = atof (print_lf r.global_avg_rt);
    avg_crt = atof (print_lf r.global_avg_crt);
    min_ct = as_long r.global_min_ct;
    max_ct = as_long r.global_max_ct;
    errors = as_long r.global_errors;
  }

  response_fields :
      (r : Report LongDouble)
      → AreFields
          (print_lf r.global_avg_ct ∷ print_lf r.global_avg_rt ∷ print_lf r.global_avg_crt ∷ [])
      → AreFields (decimal r.elapsed ∷ line_fields r)
  unfolding line_fields
  response_fields r (a, (b, (c, d))) =
      let field = decimal-IsField in
      (
        field r.elapsed,
        (
          field r.global_total_bytes_recv,
          (
            field r.global_total_resp_recv,
            (
              a,
              (
                b,
                (c, (field r.global_min_ct, (field r.global_max_ct, (field r.global_errors, tt)))),
              ),
            ),
          ),
        ),
      )

  read_results-line :
      (r : Report LongDouble)
      → AreFields
          (print_lf r.global_avg_ct ∷ print_lf r.global_avg_rt ∷ print_lf r.global_avg_crt ∷ [])
      → read_results atof (response_message print_lf r) ≡ ok (reported r)
  unfolding response_message read_results reported
  read_results-line r (a, (b, (c, d))) =
      let f = decimal-IsField in
      rw (
        strtok-field (decimal r.elapsed),
        f r.elapsed,
        strtok-field (decimal r.global_total_bytes_recv),
        f r.global_total_bytes_recv,
        strtok-field (decimal r.global_total_resp_recv),
        f r.global_total_resp_recv,
        strtok-field (print_lf r.global_avg_ct),
        a,
        strtok-field (print_lf r.global_avg_rt),
        b,
        strtok-field (print_lf r.global_avg_crt),
        c,
        strtok-field (decimal r.global_min_ct),
        f r.global_min_ct,
        strtok-field (decimal r.global_max_ct),
        f r.global_max_ct,
        strtok-line (decimal r.global_errors),
        f r.global_errors,
        atol-decimal r.elapsed,
        atol-decimal r.global_total_bytes_recv,
        atol-decimal r.global_total_resp_recv,
        atol-decimal r.global_min_ct,
        atol-decimal r.global_max_ct,
        atol-decimal_line r.global_errors,
      )

  -- The averages of a report print as fields, and the report fits the buffers.
  abbrev pub IsSent : Report LongDouble → Type 0
  IsSent r =
      (IsField (print_lf r.global_avg_ct)
        × IsField (print_lf r.global_avg_rt)
        × IsField (print_lf r.global_avg_crt))
      × (length (response_message print_lf r) < 1024)

  -- However the connection cuts a response, the master's line is the response without its end.
  read_line-response :
      (r : Report LongDouble) (parts : List (List ℕ))
      → IsSent r
      → NonemptyParts parts
      → concat parts ≡ response_message print_lf r
      → read_line 1024 (map got parts) [] ≡ ok (response_line r)
  unfolding response_line
  read_line-response r parts ((a, b, c), l) p e =
      let line = response_line r in
      let m = response_message-line r in
      let k : length line + 1 < 1024 =
        omega (arith, l, ap length m, length-append line (b'\n' ∷ [])) in
      let n =
        NoNewline-commas (decimal r.elapsed) (line_fields r)
          (response_fields r (a, (b, (c, tt)))) in
      read_line-parts 1024 parts [] line p (e ∙ m) n (omega arith)

  -- The master reads what the response was printed from.
  pub read_response-response_message :
      (r : Report LongDouble) (parts : List (List ℕ)) (old : SlaveStats Double)
      → IsSent r
      → NonemptyParts parts
      → concat parts ≡ response_message print_lf r
      → read_response atof false (map got parts) old ≡ ok (reported r)
  unfolding read_response response_line
  read_response-response_message r parts old sent p e =
      let ((a, b, c), l) = sent in
      let z : c_string (response_line r ++ b'\n' ∷ []) ≡ response_message print_lf r =
        c_string-commas_line (decimal r.elapsed) (line_fields r)
          (response_fields r (a, (b, (c, tt))))
        ∙ sym (response_message-line r) in
      rw (
        read_line-response r parts sent p e,
        z,
        lt→ltb (length (response_message print_lf r)) 1024 l,
        read_results-line r (a, (b, (c, tt))),
      )

  -- A response to a warmup leaves the results as they are.
  pub read_response-warmup :
      (r : Report LongDouble) (parts : List (List ℕ)) (old : SlaveStats Double)
      → IsSent r
      → NonemptyParts parts
      → concat parts ≡ response_message print_lf r
      → read_response atof true (map got parts) old ≡ ok old
  unfolding read_response
  read_response-warmup r parts old sent p e = rw (read_line-response r parts sent p e) refl

  -- A slave's response reaches the master whole and is read as the results it was printed from,
  -- however the slave's writes and the master's reads cut it, if the three averages print as fields
  -- and the response is shorter than the two buffers. A counter of 2 ^ 63 or more is read as 2 ^ 63 - 1.
  pub read_response-send_stat_response :
      (r : Report LongDouble) (answers : List WriteAnswer) (parts : List (List ℕ))
      (old : SlaveStats Double)
      → IsField (print_lf r.global_avg_ct)
        × IsField (print_lf r.global_avg_rt)
        × IsField (print_lf r.global_avg_crt)
      → length (response_message print_lf r) < 1024
      → TakesAll (length (response_message print_lf r)) answers
      → NonemptyParts parts
      → concat parts ≡ response_message print_lf r
      → (send_stat_response print_lf r answers ≡ ok (concat parts))
        × (read_response atof false (map got parts) old ≡ ok (reported r))
  unfolding send_stat_response
  read_response-send_stat_response r answers parts old fields l t p e =
      let msg = response_message print_lf r in
      (
        rw (
          lt→ltb (length msg) 1024 l,
          write_response-whole msg answers 0 (length msg) (omega arith) t,
          e,
        ),
        read_response-response_message r parts old (fields, l) p e,
      )
