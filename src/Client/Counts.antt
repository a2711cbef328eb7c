-- ===== src/Client/Counts.antt =====
-- How each handler counts the responses: in the client, in nb_RT, and in nb_CRT once a connection ends.
use slg.Base.{ℕ, ◌+◌, ◌-◌, ◌%◌, ◌^◌, ◌<◌, ◌≡◌, ◌∙◌, List, Bool-cases, inl, inr, arith, ◌==◌}
use slg.Base.Outcome.{Ensures}
use slg.Time.{Timeval}
use slg.FdSet.{FdSet}
use slg.Os.{PendingAnswer, WriteAnswer, ConnectAnswer, ReadAnswer}
use slg.Client.{Client, Stats, M, Fault, change_state}
use slg.Client.Request.{build_http_request, send_request}
use slg.Client.Connect.{
  SocketAnswers, initialize_connect_client_to_server, finalize_connect_client_to_server,
}
use slg.Client.Receive.{
  EndAnswers, treat_error, read_complete, read_headers, read_content, read_response,
}

-- No condition on the reason of a stop.
abbrev pub Unspecified : Fault → Type 0
Unspecified f = Unit {0}

-- The counter of the requests of a connection is not about to wrap.
abbrev pub Countable : Client → Type 0
Countable c = c.nb_requests_on_iteration < 2 ^ 32 - 1

-- As many responses are added to the client as to nb_RT, and to its open connection and nb_CRT
-- together; the total of the order stays as it is.
pub record Counts (c : Client) (g : Stats) (c' : Client) (g' : Stats) : Type 0 where
  pub countable : Countable c'
  pub untouched : g'.global_total_resp_recv ≡ g.global_total_resp_recv
  pub responses : (g'.nb_rt + c.total_resp_recv) % 2 ^ 64 ≡ (g.nb_rt + c'.total_resp_recv) % 2 ^ 64
  pub connections :
      (g'.nb_rt + g.nb_crt + c.nb_requests_on_iteration) % 2 ^ 64
      ≡ (g.nb_rt + g'.nb_crt + c'.nb_requests_on_iteration) % 2 ^ 64

abbrev pub CountsResult : Client → Stats → M (Client × Stats) → Type 0
CountsResult c g m = Ensures Unspecified (λ (r : Client × Stats). Counts c g r.0 r.1) m

treat_error-Counts :
    (a : EndAnswers) (c : Client) (g : Stats) → Countable c → CountsResult c g (treat_error a c g)
unfolding treat_error change_state
treat_error-Counts a c g h = ground arith

read_complete-Counts :
    (n : ℕ) (a : EndAnswers) (c : Client) (g : Stats)
    → n < 2 ^ 32
    → Countable c
    → CountsResult c g (read_complete n a c g)
unfolding read_complete change_state
read_complete-Counts n a c g l h = ground arith

read_content-Counts :
    (answer : ReadAnswer) (n : ℕ) (a : EndAnswers) (c : Client) (g : Stats)
    → n < 2 ^ 32
    → Countable c
    → CountsResult c g (read_content answer n a c g)
unfolding read_content
read_content-Counts answer n a c g l h = grind (arith, read_complete-Counts)

read_headers-Counts :
    (answer : ReadAnswer) (n : ℕ) (a : EndAnswers) (c : Client) (g : Stats)
    → n < 2 ^ 32
    → Countable c
    → CountsResult c g (read_headers answer n a c g)
unfolding read_headers
read_headers-Counts answer n a c g l h = grind (arith, read_complete-Counts, treat_error-Counts)

pub read_response-Counts :
    (answer : ReadAnswer) (n : ℕ) (a : EndAnswers) (c : Client) (g : Stats)
    → n < 2 ^ 32
    → Countable c
    → CountsResult c g (read_response answer n a c g)
unfolding read_response
read_response-Counts answer n a c g l h = elim (Bool-cases (c.header_length == 0)) [
  | inl e ↦ rw e (read_headers-Counts answer n a c g l h)
  | inr e ↦ rw e (read_content-Counts answer n a c g l h)
]

pub build_http_request-Counts :
    (file host : List ℕ) (c : Client) (g : Stats)
    → Countable c
    → Ensures Unspecified (λ (c' : Client). Counts c g c' g) (build_http_request file host c)
unfolding build_http_request
build_http_request-Counts file host c g h = ground arith

pub send_request-Counts :
    (e : PendingAnswer) (now : Timeval) (answer : WriteAnswer) (c : Client) (g : Stats)
    → Countable c
    → CountsResult c g (send_request e now answer c g)
unfolding send_request change_state
send_request-Counts e now answer c g h = ground arith

pub finalize-Counts :
    (e : PendingAnswer) (now : Timeval) (port : ℕ) (c : Client) (g : Stats)
    → Countable c
    → CountsResult c g (finalize_connect_client_to_server e now port c g)
unfolding finalize_connect_client_to_server change_state
finalize-Counts e now port c g h = ground arith

pub initialize-Counts :
    (a : SocketAnswers) (answer : ConnectAnswer) (c : Client) (s : FdSet) (g : Stats)
    → Countable c
    → Ensures Unspecified
        (λ (r : Client × FdSet). Counts c g r.0 g)
        (initialize_connect_client_to_server a answer c s)
unfolding initialize_connect_client_to_server
initialize-Counts a answer c s g h = ground arith

-- One handler after another.
pub Counts-trans :
    {c c' c'' : Client} {g g' g'' : Stats}
    → Counts c g c' g'
    → Counts c' g' c'' g''
    → Counts c g c'' g''
Counts-trans x y = record {
  countable = y.countable;
  untouched = y.untouched ∙ x.untouched;
  responses = omega (arith, x.responses, y.responses);
  connections = omega (arith, x.connections, y.connections);
}
