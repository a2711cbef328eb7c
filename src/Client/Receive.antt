-- ===== src/Client/Receive.antt =====
-- slg.c: what the reading thread does with a client: `treat_error`, `read_complete`, `read_headers`,
-- `read_content` and `read_response`.
use slg.Base.{
  ℕ, ◌+◌, ◌-◌, ◌^◌, List, [], ◌∷◌, none, some, Bool, ◌==◌, if◌then◌else◌, ltb, leb, length, set,
}
use slg.Base.Text.{codes, c_string, strstr, strcasestr, atoi, drop}
use slg.Base.Word.{u32, u64, sub32, to_u32}
use slg.Base.Outcome.{ok, stop, ◌>>=◌}
use slg.Time.{Timeval, compare_time}
use slg.Os.{eagain, ReadAnswer, got, eof, read_failed}
use slg.Client.{
  Client, Stats, writing, connecting, M, close_failed, read_error, eof_in_content, no_headers,
  no_content_length, header_overflow, max_hdr_length, change_state,
}

-- What `close` and the clock answer at the end of a request.
pub record EndAnswers : Type 0 where
  pub closed : Bool
  pub now : Timeval

add_crt : Client → Timeval → Stats → Stats
add_crt c now g = record g {
  global_avg_crt = g.global_avg_crt + compare_time c.crt_start now;
  nb_crt = u64 (g.nb_crt + c.nb_requests_on_iteration);
}

unfoldable pub treat_error : EndAnswers → Client → Stats → M (Client × Stats)
unfolding add_crt
treat_error a c g =
    if a.closed
    then change_state (record c { errors = u64 (c.errors + 1); fd = none }) connecting
      >>= (λ c'. ok (c', add_crt c a.now g))
    else stop close_failed

-- The last part of `read_complete`: the connection is used again, or closed.
complete : ℕ → EndAnswers → Client → Stats → M (Client × Stats)
unfolding add_crt
complete nb_msg_per_connection a c g =
    if ltb c.nb_requests_on_iteration nb_msg_per_connection
    then change_state c writing >>= (λ c'. ok (c', g))
    else if a.closed
    then change_state (record c { fd = none }) connecting >>= (λ c'. ok (c', add_crt c a.now g))
    else stop close_failed

unfoldable pub read_complete : ℕ → EndAnswers → Client → Stats → M (Client × Stats)
unfolding complete
read_complete nb_msg_per_connection a c g =
    complete nb_msg_per_connection a
      (record c {
        total_resp_recv = u64 (c.total_resp_recv + 1);
        nb_requests_on_iteration = u32 (c.nb_requests_on_iteration + 1);
      })
      (record g {
        global_avg_rt = g.global_avg_rt + compare_time c.rt_start a.now;
        nb_rt = u64 (g.nb_rt + 1);
        file_nb_req_successful = u64 (g.file_nb_req_successful + 1);
      })

-- `status` bytes, or -1, added to `total_bytes_recv`, an unsigned long long.
abbrev pub status_u64 : ReadAnswer → ℕ
status_u64 (got bytes) = length bytes
status_u64 eof = 0
status_u64 (read_failed e) = 2 ^ 64 - 1

count_read : ReadAnswer → Client → Client
count_read answer c = record c { total_bytes_recv = u64 (c.total_bytes_recv + status_u64 answer) }

-- What read puts into an array from `offset` on.
unfoldable pub write_at : List ℕ → ℕ → List ℕ → List ℕ
write_at buf offset [] = buf
write_at buf offset (b ∷ bs) = write_at (set buf offset b) (offset + 1) bs

-- Once the end of the headers is found, `off` bytes into the buffer.
parse_headers : ℕ → EndAnswers → ℕ → Client → Stats → M (Client × Stats)
parse_headers nb_msg_per_connection a off c g =
    let text = c_string c.read_hdr_buf in
    elim (strcasestr (codes "200 OK") text) [
      | none ↦ treat_error a c g
      | some _ ↦ elim (strstr (codes "Content-Length:") text) [
        | none ↦ stop no_content_length
        | some cl ↦
            let c' = record c {
              header_length = off + 4;
              content_length = to_u32 (atoi (drop (cl + 15) text));
              bytes_read = sub32 c.bytes_read (off + 4);
            } in
            if c'.bytes_read == c'.content_length
            then read_complete nb_msg_per_connection a c' g
            else ok (c', g)
      ]
    ]

-- The search for the end of the headers, in a buffer with its terminator.
find_headers : ℕ → EndAnswers → Client → Stats → M (Client × Stats)
unfolding parse_headers
find_headers n a c g = elim (strstr (codes "\r\n\r\n") (c_string c.read_hdr_buf)) [
  | none ↦ if leb max_hdr_length c.bytes_read then stop no_headers else ok (c, g)
  | some off ↦ parse_headers n a off c g
]

-- After a read of `bytes`. The terminator goes behind them; where they fill the array that write is past
-- its end.
after_headers : ℕ → EndAnswers → List ℕ → Client → Stats → M (Client × Stats)
unfolding find_headers
after_headers n a bytes c g =
    let total = u32 (c.bytes_read + length bytes) in
    if ltb total max_hdr_length
    then find_headers n a
        (record c {
          bytes_read = total;
          read_hdr_buf = set (write_at c.read_hdr_buf c.bytes_read bytes) total 0;
        })
        g
    else stop header_overflow

headers : ReadAnswer → ℕ → EndAnswers → Client → Stats → M (Client × Stats)
unfolding after_headers
headers (got bytes) n a c g = after_headers n a bytes c g
headers eof n a c g = treat_error a c g
headers (read_failed eagain) n a c g = ok (c, g)
headers (read_failed e) n a c g = stop read_error

count_reads : Stats → Stats
count_reads g = record g { file_nb_reads = u64 (g.file_nb_reads + 1) }

unfoldable pub read_headers : ReadAnswer → ℕ → EndAnswers → Client → Stats → M (Client × Stats)
unfolding headers count_read count_reads
read_headers answer n a c g = headers answer n a (count_read answer c) (count_reads g)

content : ReadAnswer → ℕ → EndAnswers → Client → Stats → M (Client × Stats)
content (got bytes) n a c g =
    let c' = record c { bytes_read = u32 (c.bytes_read + length bytes) } in
    if c'.bytes_read == c'.content_length then read_complete n a c' g else ok (c', g)
content eof n a c g = stop eof_in_content
content (read_failed eagain) n a c g = ok (c, g)
content (read_failed e) n a c g = stop read_error

-- The bytes go to a local buffer and are dropped.
unfoldable pub read_content : ReadAnswer → ℕ → EndAnswers → Client → Stats → M (Client × Stats)
unfolding content count_read count_reads
read_content answer n a c g = content answer n a (count_read answer c) (count_reads g)

-- The state that it returns is the client's.
unfoldable pub read_response : ReadAnswer → ℕ → EndAnswers → Client → Stats → M (Client × Stats)
read_response answer n a c g =
    if c.header_length == 0 then read_headers answer n a c g else read_content answer n a c g
