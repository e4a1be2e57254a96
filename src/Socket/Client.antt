-- ===== src/Socket/Client.antt =====
-- `client_thread`.
use generic_tests.Common.{ℕ, ◌+◌, ◌*◌, ◌-◌, String, List, [], ◌∷◌, if◌then◌else◌, replicate}
use generic_tests.Common.Int.{ℤ, pos, is_neg, ltb_ℤ}
use generic_tests.Sys.{
  nat, int, str, text, Prog, ret, emit, ask, printf, fflush, sys, sleep, read, send, close,
}
use generic_tests.Threads.{text_of}
use generic_tests.Socket.{overlay, hello_from, buffer_size}

-- `sprintf(buffer,"%s %d",message,thread_id)`, in a buffer of zeros. The ids are 1, 2 and 3.
abbrev pub greeting : ℕ → List ℕ
greeting thread_id = hello_from (
    b'c'
    ∷ b'l'
    ∷ b'i'
    ∷ b'e'
    ∷ b'n'
    ∷ b't'
    ∷ b' '
    ∷ (48 + thread_id)
    ∷ replicate (buffer_size - 19) 0)

-- `printf(…); return NULL;`
abbrev pub give_up : String → Prog ℤ
give_up message = emit (printf message []) (ret (pos 0))

-- From the `sleep` on.
unfoldable pub talk : ℕ → ℤ → Prog ℤ
talk thread_id sock =
    let buffer = greeting thread_id in
    emit (sleep (6 - 2 * thread_id)) (
      emit (send sock (text_of buffer)) (
        emit (printf "Client %d: Sent message: %s\n" (nat thread_id ∷ text (text_of buffer) ∷ [])) (
          emit fflush (
            ask (read sock buffer_size) (λ a.
              emit
                (printf "Client %d: Received message: %s\n"
                  (nat thread_id ∷ text (text_of (overlay buffer a.bytes)) ∷ []))
                (emit fflush (
                  emit (close sock) (
                    emit (printf "Client %d: Closed socket\n" (nat thread_id ∷ []))
                      (emit fflush (ret (pos 0)))))))))))

-- The socket and the connection; `next` is what follows.
unfoldable pub connected : (ℤ → Prog ℤ) → Prog ℤ
connected next = ask (sys "socket" []) (λ a.
    if is_neg a.result
    then give_up "Socket creation error\n"
    else ask (sys "inet_pton" (str "127.0.0.1" ∷ [])) (λ b.
      if ltb_ℤ (pos 0) b.result
      then ask (sys "connect" (int a.result ∷ nat 8080 ∷ []))
          (λ c. if is_neg c.result then give_up "Connection failed\n" else next a.result)
      else give_up "Invalid address / Address not supported\n"))

-- socket.c
unfoldable pub client_thread : ℕ → Prog ℤ
client_thread thread_id = connected (talk thread_id)

-- socketforkserver.c asks for the peer first; `bytes` are the text of its address and `status` its
-- port.
unfoldable pub peer_client_thread : ℕ → Prog ℤ
peer_client_thread thread_id = connected (λ sock. ask (sys "getpeername" (int sock ∷ [])) (λ a.
    if is_neg a.result
    then give_up "getpeername failed\n"
    else emit (printf "Connected to %s:%d\n" (text a.bytes ∷ nat a.status ∷ []))
        (talk thread_id sock)))
