-- ===== src/Socket/Mains.antt =====
-- The settings and the `main` of socket.c and of socketforkserver.c.
use generic_tests.Common.{ℕ, zero, suc, ◌+◌, [], ◌∷◌, ◌&&◌, ◌||◌, ltb, if◌then◌else◌}
use generic_tests.Common.Int.{ℤ, pos, minus_one, ltb_ℤ, eqb_ℤ}
use generic_tests.Sys.{
  nat, Prog, ret, exit, emit, ask, say, skip, ◌>>◌, print_flush, printf, perror, fflush, sleep,
  fork, waitpid, pthread_create, pthread_join,
}
use generic_tests.Wait.{Formats, report}
use generic_tests.Socket.{Settings, num_threads}
use generic_tests.Socket.Server.{server_thread}

-- socket.c
abbrev pub thread_settings : Settings
thread_settings = record {
  timeout = 5000;
  goes_on = λ num_open timeouts. ltb_ℤ (pos 0) num_open || ltb 3 timeouts;
  closed = skip;
  polled = λ i revents.
      print_flush "Server: Polled 0x%x from client %d\n" (nat revents ∷ nat (i + 1) ∷ []);
}

-- socketforkserver.c
abbrev pub fork_settings : Settings
fork_settings = record {
  timeout = 5000000;
  goes_on = λ num_open timeouts. ltb_ℤ (pos 0) num_open && ltb timeouts 3;
  closed = say fflush;
  polled = λ i revents. skip;
}

-- The loops over `pthread_create` and `pthread_join`, from the thread of index i on.
unfoldable pub create_clients : ℕ → ℕ → Prog (Unit {0})
create_clients zero i = skip
create_clients (suc left) i = emit (pthread_create i) (create_clients left (i + 1))

unfoldable pub join_clients : ℕ → ℕ → Prog (Unit {0})
join_clients zero i = skip
join_clients (suc left) i = emit (pthread_join i) (join_clients left (i + 1))

-- `main` of socket.c; its server is thread 3.
unfoldable pub socket_main : Prog ℤ
socket_main = do
  say (pthread_create num_threads)
  say (sleep 1)
  create_clients num_threads 0
  print_flush "Created %d threads\n" (nat num_threads ∷ [])
  say (pthread_join num_threads)
  join_clients num_threads 0
  print_flush "All %d threads done\n" (nat num_threads ∷ [])
  ret (pos 0)

abbrev pub server_formats : Formats
server_formats = record {
  exited = "server exited, status=%d\n";
  signaled = "server killed by signal %d\n";
  stopped = "server stopped by signal %d\n";
  continued = "server continued\n";
  args = [];
}

-- The branch of the parent, which waits once.
unfoldable pub fork_clients : ℤ → Prog ℤ
fork_clients cpid = do
  say (sleep 1)
  create_clients num_threads 0
  print_flush "Created %d threads\n" (nat num_threads ∷ [])
  join_clients num_threads 0
  print_flush "All %d child threads done\n" (nat num_threads ∷ [])
  ask (waitpid cpid) (λ a.
      if eqb_ℤ a.result minus_one
      then emit (perror "Waitpid failed") (exit minus_one)
      else (report server_formats a.status
          >> emit (printf "Server fork done\n" []) (emit fflush (ret (pos 0)))))

-- `main` of socketforkserver.c
unfoldable pub socketforkserver_main : ℕ → Prog ℤ
socketforkserver_main fuel = ask fork (λ a.
    if eqb_ℤ a.result minus_one
    then emit (perror "fork failed") (exit minus_one)
    else if eqb_ℤ a.result (pos 0)
    then (server_thread fork_settings fuel >> ret (pos 0))
    else fork_clients a.result)
