-- ===== src/Socket/Server.antt =====
-- `closefd` and `server_thread`.
use generic_tests.Common.{
  take, ℕ, zero, suc, ◌+◌, ◌%◌, String, List, [], ◌∷◌, ◌==◌, if◌then◌else◌, replicate,
}
use generic_tests.Common.Int.{ℤ, pos, negsuc, is_neg, ltb_ℤ, eqb_ℤ}
use generic_tests.Sys.{
  nat, int, text, Prog, ret, exit, spin, emit, ask, ◌>>=◌, ◌>>◌, printf, perror, fflush, sys, read,
  send, close, poll,
}
use generic_tests.Threads.{text_of}
use generic_tests.Socket.{overlay, buffer_size, num_threads, response, Settings}

abbrev pub closefd : Settings → ℕ → ℤ → Prog (Unit {0})
closefd s i fd = ask (close fd) (λ a.
    if eqb_ℤ a.result (negsuc 0)
    then emit (perror "Error closing fd")
        (emit (printf "Error closing fd %d %d\n" (nat i ∷ int fd ∷ [])) s.closed)
    else emit (printf "Closed fd %d %d\n" (nat i ∷ int fd ∷ [])) s.closed)

-- The variables of the poll loop: `fds` with the events asked for, `num_open`, `timeouts` and
-- `buffer`.
pub record Serving : Type 0 where
  pub fds : List (ℤ × ℕ)
  pub num_open : ℤ
  pub timeouts : ℕ
  pub buffer : List ℕ

-- `num_open--`
abbrev pub dec : ℤ → ℤ
dec (pos zero) = negsuc 0
dec (pos (suc n)) = pos n
dec (negsuc n) = negsuc (suc n)

-- `fds[i].events=0`; the next poll stores `revents` anew.
abbrev pub deaf : List (ℤ × ℕ) → ℕ → List (ℤ × ℕ)
deaf [] i = []
deaf (e ∷ es) zero = (e.0, 0) ∷ es
deaf (e ∷ es) (suc i) = e ∷ deaf es i

abbrev pub file_at : List (ℤ × ℕ) → ℕ → ℤ
file_at [] i = pos 0
file_at (e ∷ es) zero = e.0
file_at (e ∷ es) (suc i) = file_at es i

-- The body of the loop over the connections.
unfoldable pub serve_one : Settings → ℕ → ℕ → Serving → Prog Serving
serve_one s i revents st =
    let fd = file_at st.fds i in
    if revents % 2 == 1
    then ask (read fd buffer_size) (λ a.
      let buffer = overlay st.buffer a.bytes in
      if ltb_ℤ (pos 0) a.result
      then emit
          (printf "Server: Received from client %d: %s\n"
            (nat (i + 1) ∷ text (text_of buffer) ∷ []))
          (emit fflush (emit (send fd response) (ret (record st { buffer = buffer }))))
      else if eqb_ℤ a.result (pos 0)
      then emit (printf "Server: Received EOF from client %d\n" (nat (i + 1) ∷ []))
          (closefd s i fd >> emit fflush (ret (record st { num_open = dec st.num_open })))
      else ret st)
    else if revents == 0
    then ret st
    else (s.polled i revents >> ret (record st { fds = deaf st.fds i }))

-- The loop, over the `revents` that the poll has stored.
unfoldable pub serve_all : Settings → ℕ → List ℕ → Serving → Prog Serving
serve_all s i [] st = ret st
serve_all s i (r ∷ rs) st = serve_one s i r st >>= serve_all s (i + 1) rs

-- The poll loop, on fuel.
unfoldable pub poll_loop : Settings → ℕ → Serving → Prog Serving
poll_loop s zero st = spin
poll_loop s (suc fuel) st =
    let rest = poll_loop s fuel in
    if s.goes_on st.num_open st.timeouts
    then ask (poll st.fds s.timeout) (λ a. emit fflush (
        if is_neg a.result
        then emit (perror "Poll error") (exit (pos 1))
        else if eqb_ℤ a.result (pos 0)
        then emit (printf "Server: Poll timed out. No data in %d ms\n" (nat s.timeout ∷ []))
            (emit fflush (rest (record st { timeouts = st.timeouts + 1 })))
        else (serve_all s 0 (take num_threads a.bytes) st >>= λ after.
            if eqb_ℤ a.result (pos 3) then ret after else rest after)))
    else ret st

-- `perror(…); exit(EXIT_FAILURE);`
abbrev pub fail {ℓ} : {A : Type ℓ} → String → Prog A
fail message = emit (perror message) (exit (pos 1))

-- The loop over `accept`, which asks for POLLIN on each connection.
unfoldable pub accept_loop : ℤ → ℕ → Prog (List (ℤ × ℕ))
accept_loop server_fd zero = ret []
accept_loop server_fd (suc left) = ask (sys "accept" (int server_fd ∷ [])) (λ a.
    if is_neg a.result
    then fail "Accept failed"
    else (accept_loop server_fd left >>= λ fds. ret ((a.result, 1) ∷ fds)))

-- After the connections are accepted.
unfoldable pub serve : Settings → ℕ → ℤ → List (ℤ × ℕ) → Prog ℤ
serve s fuel server_fd fds = emit (printf "Server: Accepted connections from all children\n" []) (
    emit fflush (
      poll_loop s fuel (record {
        fds = fds;
        num_open = pos num_threads;
        timeouts = 0;
        buffer = replicate buffer_size 0;
      })
      >>= λ _.
          emit (close server_fd) (emit (printf "Server: Done\n" []) (emit fflush (ret (pos 0))))))

-- `socket` is said to have failed where it gives 0.
unfoldable pub server_thread : Settings → ℕ → Prog ℤ
server_thread s fuel = ask (sys "socket" []) (λ a.
    if eqb_ℤ a.result (pos 0)
    then fail "Socket failed"
    else ask (sys "bind" (int a.result ∷ nat 8080 ∷ [])) (λ b.
      if is_neg b.result
      then fail "Bind failed"
      else ask (sys "listen" (int a.result ∷ nat 3 ∷ [])) (λ c.
        if is_neg c.result
        then fail "Listen failed"
        else emit (printf "Server: Listening on port %d...\n" (nat 8080 ∷ []))
            (emit fflush (accept_loop a.result num_threads >>= serve s fuel a.result)))))
