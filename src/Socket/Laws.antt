-- ===== src/Socket/Laws.antt =====
-- What the clients and the servers of socket.c and socketforkserver.c do: the text that a client
-- shows, to whom a server answers, and when the poll loop gives up.
use generic_tests.Common.{
  ℕ, zero, suc, ◌+◌, ◌*◌, ◌-◌, ◌≡◌, true, false, List, [], ◌∷◌, ◌++◌, arith, length, replicate,
  ◌==◌,
}
use generic_tests.Common.Int.{ℤ, pos, ltb_ℤ}
use generic_tests.Sys.{Answer, printf, poll, fflush, read, send, sleep, close, nat, text}
use generic_tests.Sys.Run.{Event, did, got, done, waiting, run}
use generic_tests.Socket.{response, hello_from, Settings}
use generic_tests.Socket.Client.{talk}
use generic_tests.Socket.Server.{Serving, poll_loop}
use generic_tests.Socket.Mains.{thread_settings}

-- The text "Hello from client <id>".
abbrev pub hello_client : ℕ → List ℕ
hello_client thread_id =
    hello_from (b'c' ∷ b'l' ∷ b'i' ∷ b'e' ∷ b'n' ∷ b't' ∷ b' ' ∷ (48 + thread_id) ∷ [])

-- An answer to `read` with these bytes.
abbrev pub bytes_read : List ℕ → Answer
bytes_read bs = record { result = pos (length bs); status = 0; bytes = bs }

digit_not_nul : (n : ℕ) → (48 + n == 0) ≡ false
digit_not_nul n = ground arith

pub still_open : (more : ℕ) → ltb_ℤ (pos 0) (pos (suc more)) ≡ true
still_open more = ground arith

-- A client that reads the server's answer shows the tail of its own message behind it: "Hello from
-- server" is followed by " <id>", since `read` stores no NUL.
pub client_keeps_tail :
    (thread_id : ℕ) (sock : ℤ) (rest : List Answer)
    → run (talk thread_id sock) (bytes_read response ∷ rest) ≡ record {
      events =
          did (sleep (6 - 2 * thread_id))
          ∷ did (send sock (hello_client thread_id))
          ∷ did (
              printf "Client %d: Sent message: %s\n"
                (nat thread_id ∷ text (hello_client thread_id) ∷ []))
          ∷ did fflush
          ∷ got (read sock 1024) (bytes_read response)
          ∷ did (
              printf "Client %d: Received message: %s\n"
                (nat thread_id ∷ text (response ++ b' ' ∷ (48 + thread_id) ∷ []) ∷ []))
          ∷ did fflush
          ∷ did (close sock)
          ∷ did (printf "Client %d: Closed socket\n" (nat thread_id ∷ []))
          ∷ did fflush
          ∷ [];
      outcome = done (pos 0) rest;
    }
unfolding talk run
client_keeps_tail thread_id sock rest = rw (digit_not_nul thread_id)

-- A poll that times out.
abbrev pub timed_out : Answer
timed_out = record { result = pos 0; status = 0; bytes = [] }

-- What the poll loop does on a time-out.
abbrev pub timeout_events : List (ℤ × ℕ) → ℕ → List Event → List Event
timeout_events fds timeout rest =
    got (poll fds timeout) timed_out
    ∷ did fflush
    ∷ did (printf "Server: Poll timed out. No data in %d ms\n" (nat timeout ∷ []))
    ∷ did fflush
    ∷ rest

-- The events of n time-outs in a row.
abbrev pub timeouts_of : List (ℤ × ℕ) → ℕ → ℕ → List Event
timeouts_of fds timeout zero = []
timeouts_of fds timeout (suc n) = timeout_events fds timeout (timeouts_of fds timeout n)

-- `timeouts++`
abbrev pub later : Serving → Serving
later st = record st { timeouts = st.timeouts + 1 }

pub timeout_round :
    (s : Settings) (fuel : ℕ) (st : Serving) (rest : List Answer)
    → s.goes_on st.num_open st.timeouts ≡ true
    → run (poll_loop s (suc fuel) st) (timed_out ∷ rest) ≡ record {
      events = timeout_events st.fds s.timeout (run (poll_loop s fuel (later st)) rest).events;
      outcome = (run (poll_loop s fuel (later st)) rest).outcome;
    }
unfolding poll_loop run
timeout_round s fuel st rest e = rw e

polls :
    (s : Settings) (fuel : ℕ) (st : Serving)
    → s.goes_on st.num_open st.timeouts ≡ true
    → run (poll_loop s (suc fuel) st) []
      ≡ record { events = []; outcome = waiting (poll st.fds s.timeout) }
unfolding poll_loop run
polls s fuel st e = rw e

pub stops :
    (s : Settings) (fuel : ℕ) (st : Serving) (rest : List Answer)
    → s.goes_on st.num_open st.timeouts ≡ false
    → run (poll_loop s (suc fuel) st) rest ≡ record { events = []; outcome = done st rest }
unfolding poll_loop run
stops s fuel st rest e = rw e

-- The server of socket.c with an open connection is polling still after any number of time-outs:
-- the second half of its test, `timeouts > 3`, does not stop it.
pub thread_server_never_times_out :
    (n : ℕ) (st : Serving) (more : ℕ)
    → st.num_open ≡ pos (suc more)
    → run (poll_loop thread_settings (suc n) st) (replicate n timed_out)
      ≡ record { events = timeouts_of st.fds 5000 n; outcome = waiting (poll st.fds 5000) }
thread_server_never_times_out zero st more e =
    polls thread_settings zero st (rw (e, still_open more))
thread_server_never_times_out (suc n) st more e = rw (
  timeout_round thread_settings (suc n) st (replicate n timed_out) (rw (e, still_open more)),
  thread_server_never_times_out n (later st) more e,
)
