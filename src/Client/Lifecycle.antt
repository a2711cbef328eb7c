-- ===== src/Client/Lifecycle.antt =====
-- How each handler moves a client between its states, and which faults it can end in.
use slg.Base.{
  ℕ, ◌≡◌, List, Bool-cases, ◌⊎◌, inl, inr, Option, none, some, Bool, true, false, arith, ◌==◌,
}
use slg.Base.Outcome.{Ensures}
use slg.Time.{Timeval}
use slg.FdSet.{FdSet}
use slg.Os.{PendingAnswer, WriteAnswer, ConnectAnswer, ReadAnswer}
use slg.Client.{
  Client, Stats, State, waiting, reading, writing, connecting, M, Fault, bad_state, ring_full,
  out_of_bounds, change_state,
}
use slg.Client.Request.{build_http_request, send_request}
use slg.Client.Connect.{
  SocketAnswers, initialize_connect_client_to_server, finalize_connect_client_to_server,
}
use slg.Client.Receive.{
  EndAnswers, treat_error, read_complete, read_headers, read_content, read_response,
}

-- A descriptor is there wherever the code uses one.
abbrev pub Holds : State → Option ℕ → Bool → Type 0
Holds waiting fd b = ⊥
Holds connecting none true = ⊥
Holds connecting none false = Unit {0}
Holds connecting (some fd) b = Unit {0}
Holds reading none b = ⊥
Holds reading (some fd) b = b ≡ false
Holds writing none b = ⊥
Holds writing (some fd) b = b ≡ false

abbrev pub IsLive : Client → Type 0
IsLive c = Holds c.state c.fd c.connect_in_progress

-- The faults that the protocol between the threads must rule out.
abbrev pub Tolerated : Fault → Type 0
Tolerated bad_state = ⊥
Tolerated ring_full = ⊥
Tolerated out_of_bounds = ⊥
Tolerated _ = Unit {0}

-- the result of a handler that returns the client and the statistics
abbrev pub Leaves : (Client → Type 0) → M (Client × Stats) → Type 0
Leaves P m = Ensures Tolerated (λ (r : Client × Stats). P r.0) m

-- From ST_READING a client stays, keeping its descriptor, or goes to ST_WRITING with it, or to
-- ST_CONNECT without one.
abbrev pub AfterReading : Client → Client → Type 0
AfterReading c c' =
    (c'.connect_in_progress ≡ false)
    × (((c'.state ≡ reading) × (c'.fd ≡ c.fd))
        ⊎ ((c'.state ≡ writing) × (c'.fd ≡ c.fd))
        ⊎ ((c'.state ≡ connecting) × (c'.fd ≡ none)))

treat_error_live :
    (a : EndAnswers) (c : Client) (g : Stats)
    → c.state ≡ reading
    → c.connect_in_progress ≡ false
    → Leaves (AfterReading c) (treat_error a c g)
unfolding treat_error change_state
treat_error_live a c g r p = ground arith

read_complete_live :
    (n : ℕ) (a : EndAnswers) (c : Client) (g : Stats)
    → c.state ≡ reading
    → c.connect_in_progress ≡ false
    → Leaves (AfterReading c) (read_complete n a c g)
unfolding read_complete change_state
read_complete_live n a c g r p = ground arith

read_content_live :
    (answer : ReadAnswer) (n : ℕ) (a : EndAnswers) (c : Client) (g : Stats)
    → c.state ≡ reading
    → c.connect_in_progress ≡ false
    → Leaves (AfterReading c) (read_content answer n a c g)
unfolding read_content
read_content_live answer n a c g r p = grind (arith, read_complete_live)

read_headers_live :
    (answer : ReadAnswer) (n : ℕ) (a : EndAnswers) (c : Client) (g : Stats)
    → c.state ≡ reading
    → c.connect_in_progress ≡ false
    → Leaves (AfterReading c) (read_headers answer n a c g)
unfolding read_headers
read_headers_live answer n a c g r p = grind (arith, read_complete_live, treat_error_live)

-- `read_response` on a client in ST_READING ends in one of the three states, or in a fault that is not
-- one of the protocol's.
pub read_response_live :
    (answer : ReadAnswer) (n : ℕ) (a : EndAnswers) (c : Client) (g : Stats)
    → c.state ≡ reading
    → c.connect_in_progress ≡ false
    → Leaves (AfterReading c) (read_response answer n a c g)
unfolding read_response
read_response_live answer n a c g r p = elim (Bool-cases (c.header_length == 0)) [
  | inl e ↦ rw e (read_headers_live answer n a c g r p)
  | inr e ↦ rw e (read_content_live answer n a c g r p)
]

-- From ST_WRITING a client goes to ST_READING when its request is out, and stays until then.
abbrev pub AfterWriting : Client → Client → Type 0
AfterWriting c c' =
    (c'.connect_in_progress ≡ c.connect_in_progress)
    × (c'.fd ≡ c.fd)
    × ((c'.state ≡ reading) ⊎ (c'.state ≡ writing))

pub build_http_request_live :
    (file host : List ℕ) (c : Client)
    → Ensures Tolerated
        (λ (c' : Client).
          (c'.connect_in_progress ≡ c.connect_in_progress) × (c'.fd ≡ c.fd) × (c'.state ≡ c.state))
        (build_http_request file host c)
unfolding build_http_request
build_http_request_live file host c = ground arith

pub send_request_live :
    (e : PendingAnswer) (now : Timeval) (answer : WriteAnswer) (c : Client) (g : Stats)
    → c.state ≡ writing
    → Leaves (AfterWriting c) (send_request e now answer c g)
unfolding send_request change_state
send_request_live e now answer c g w = ground arith

-- From ST_CONNECT a client stays, or goes to ST_WRITING once it is connected.
abbrev pub AfterConnecting : Client → Client → Type 0
AfterConnecting c c' =
    (c'.connect_in_progress ≡ false)
    × (c'.fd ≡ c.fd)
    × ((c'.state ≡ connecting) ⊎ (c'.state ≡ writing))

pub finalize_live :
    (e : PendingAnswer) (now : Timeval) (port : ℕ) (c : Client) (g : Stats)
    → c.state ≡ connecting
    → Leaves (AfterConnecting c) (finalize_connect_client_to_server e now port c g)
unfolding finalize_connect_client_to_server change_state
finalize_live e now port c g w = ground arith

-- Starting a connection leaves the client in ST_CONNECT with a descriptor.
pub initialize-IsLive :
    (a : SocketAnswers) (answer : ConnectAnswer) (c : Client) (s : FdSet)
    → c.state ≡ connecting
    → Ensures Tolerated
        (λ (r : Client × FdSet). (r.0.state ≡ connecting) × IsLive r.0)
        (initialize_connect_client_to_server a answer c s)
unfolding initialize_connect_client_to_server
initialize-IsLive a answer c s w = ground arith
