-- ===== src/Client/Request.antt =====
-- slg.c: `choose_url`, `build_http_request` and `send_request`.
use slg.Base.{ℕ, ◌+◌, List, [], ◌∷◌, ◌++◌, ◌==◌, if◌then◌else◌, ltb, length}
use slg.Base.Text.{codes}
use slg.Base.Word.{u32, u64}
use slg.Base.Outcome.{ok, stop, ◌>>=◌}
use slg.Time.{Timeval}
use slg.Os.{WriteAnswer, wrote, write_failed, PendingAnswer, no_answer, clear, pending}
use slg.Os.{eagain}
use slg.Client.{
  Client, Stats, reading, M, request_too_long, sockopt_failed, pending_error, write_error,
  request_buffer_size, change_state,
}

-- With UNIQUE_FILE_ACCESS_PATTERN the url is always `file`.
abbrev pub choose_url : List ℕ → List ℕ
choose_url file = file

abbrev pub request_text : List ℕ → List ℕ → List ℕ
request_text url host =
    codes "GET "
    ++ (url
        ++ (codes " HTTP/1.1\r\nHost: "
            ++ (host ++ codes "\r\nAccept: text/plain,text/html,*/*\r\n\r\n")))

-- snprintf cuts a text that does not fit with its NUL, and the assert on its length then fails.
unfoldable pub build_http_request : List ℕ → List ℕ → Client → M Client
build_http_request file host c =
    let text = request_text (choose_url file) host in
    if ltb (length text) request_buffer_size
    then ok (record c {
      req_unique_id = u32 (c.req_unique_id + 1);
      request_buf = text ++ (0 ∷ []);
      request_total_len = length text;
    })
    else stop request_too_long

-- After the write: `res` is what it returned.
after_write : WriteAnswer → Client → M Client
after_write (wrote res) c =
    if res == 0
    then ok c
    else let c' = record c { bytes_write = u32 (c.bytes_write + res) } in
      if c'.bytes_write == c'.request_total_len then change_state c' reading else ok c'
after_write (write_failed eagain) c = ok c
after_write (write_failed e) c = stop write_error

start_clock : Timeval → Client → Client
start_clock now c = if c.bytes_write == 0 then record c { rt_start = now } else c

-- The state that it returns is the client's.
unfoldable pub send_request :
    PendingAnswer → Timeval → WriteAnswer → Client → Stats → M (Client × Stats)
unfolding after_write start_clock
send_request no_answer now answer c g = stop sockopt_failed
send_request (pending e) now answer c g = stop pending_error
send_request clear now answer c g = do
  c' ← after_write answer (start_clock now c)
  ok (c', record g { file_nb_req = u64 (g.file_nb_req + 1) })
