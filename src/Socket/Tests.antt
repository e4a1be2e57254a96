-- ===== src/Socket/Tests.antt =====
-- Runs of the clients and servers.
use generic_tests.Common.{ℕ, ◌≡◌, refl, List, [], ◌∷◌, ◌++◌, none, replicate}
use generic_tests.Common.Int.{ℤ, pos}
use generic_tests.Sys.{Answer, printf, poll, fflush, read, send, sleep, close, nat, text}
use generic_tests.Sys.Run.{did, got, done, waiting, run}
use generic_tests.Sys.Monitor.{Accepts}
use generic_tests.Socket.{response}
use generic_tests.Socket.Client.{talk}
use generic_tests.Socket.Server.{Serving, poll_loop, server_thread}
use generic_tests.Socket.Mains.{thread_settings, fork_settings}
use generic_tests.Socket.Laws.{
  hello_client, bytes_read, timed_out, timeouts_of, client_keeps_tail,
  thread_server_never_times_out,
}
use generic_tests.Socket.Timeouts.{three_time_outs, fork_server_stops}
use generic_tests.Socket.Order.{replies, server_answers_reads}

client_keeps_tail_example : run (talk 2 (pos 5)) (bytes_read response ∷ []) ≡ record {
  events =
      did (sleep 2)
      ∷ did (send (pos 5) (hello_client 2))
      ∷ did (printf "Client %d: Sent message: %s\n" (nat 2 ∷ text (hello_client 2) ∷ []))
      ∷ did fflush
      ∷ got (read (pos 5) 1024) (bytes_read response)
      ∷ did (
          printf "Client %d: Received message: %s\n"
            (nat 2 ∷ text (response ++ b' ' ∷ 50 ∷ []) ∷ []))
      ∷ did fflush
      ∷ did (close (pos 5))
      ∷ did (printf "Client %d: Closed socket\n" (nat 2 ∷ []))
      ∷ did fflush
      ∷ [];
  outcome = done (pos 0) [];
}
client_keeps_tail_example = client_keeps_tail 2 (pos 5) []

abbrev three_files : List (ℤ × ℕ)
three_files = (pos 4, 1) ∷ (pos 5, 1) ∷ (pos 6, 1) ∷ []

abbrev at_start : Serving
at_start = record { fds = three_files; num_open = pos 3; timeouts = 0; buffer = 0 ∷ [] }

thread_server_never_times_out_example :
    run (poll_loop thread_settings 6 at_start) (replicate 5 timed_out)
    ≡ record { events = timeouts_of three_files 5000 5; outcome = waiting (poll three_files 5000) }
thread_server_never_times_out_example = thread_server_never_times_out 5 at_start 2 refl

-- A connection from which one byte is read.
abbrev served : List Answer
served =
    record { result = pos 3; status = 0; bytes = [] }
    ∷ timed_out
    ∷ timed_out
    ∷ record { result = pos 4; status = 0; bytes = [] }
    ∷ record { result = pos 5; status = 0; bytes = [] }
    ∷ record { result = pos 6; status = 0; bytes = [] }
    ∷ record { result = pos 1; status = 0; bytes = 0 ∷ 1 ∷ 0 ∷ [] }
    ∷ bytes_read (b'x' ∷ [])
    ∷ []

server_answers_reads_example :
    Accepts replies none (run (server_thread thread_settings 9) served).events
    × Accepts replies none (run (server_thread fork_settings 9) served).events
server_answers_reads_example = server_answers_reads 9 served

abbrev after_two : Serving
after_two = record at_start { timeouts = 2 }

fork_server_stops_example :
    Accepts three_time_outs 0 (run (server_thread fork_settings 9) served).events
    × (run (poll_loop fork_settings 11 after_two) (timed_out ∷ timed_out ∷ []) ≡ record {
      events = timeouts_of three_files 5000000 1;
      outcome = done (record after_two { timeouts = 3 }) (timed_out ∷ []);
    })
fork_server_stops_example = fork_server_stops 9 served after_two 2 (timed_out ∷ []) refl refl
