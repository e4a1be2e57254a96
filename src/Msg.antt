-- ===== src/Msg.antt =====
-- msgtest.c: a message queue that is made, destroyed and made again, and two messages that are
-- received in the other order by their types.
pub mod Laws
mod Tests
use generic_tests.Common.{ℕ, String, List, [], ◌∷◌, if◌then◌else◌}
use generic_tests.Common.Int.{ℤ, pos, minus_one, eqb_ℤ}
use generic_tests.Sys.{
  Answer, nat, int, str, text, Arg, Call, Prog, ret, exit, emit, ask, printf, fflush, perror, sys,
}

-- `if (… == -1) { perror(message); exit(1); }` around a call.
abbrev pub checked : Call → String → (Answer → Prog ℤ) → Prog ℤ
checked c message next =
    ask c (λ a. if eqb_ℤ a.result minus_one then emit (perror message) (exit (pos 1)) else next a)

-- `printf(…); fflush(file);`
abbrev pub note : String → List Arg → Prog ℤ → Prog ℤ
note format args next = emit (printf format args) (emit fflush next)

abbrev pub msgget : ℤ → String → Call
msgget key flags = sys "msgget" (int key ∷ str flags ∷ [])

abbrev pub msgctl : ℤ → Call
msgctl msgid = sys "msgctl" (int msgid ∷ str "IPC_RMID" ∷ [])

-- A message of a type, whose text is copied to the queue.
abbrev pub msgsnd : ℤ → ℕ → String → Call
msgsnd msgid type t = sys "msgsnd" (int msgid ∷ nat type ∷ str t ∷ nat 100 ∷ [])

abbrev pub msgrcv : ℤ → ℕ → Call
msgrcv msgid type = sys "msgrcv" (int msgid ∷ nat type ∷ nat 100 ∷ [])

-- From the second making of the queue on; the bytes of `msgrcv` are the text received, of the
-- length that it gives.
unfoldable pub exchange : ℤ → Prog ℤ
exchange key = checked (msgget key "IPC_CREAT") "msgget failed" (λ q.
    note "Recreated msg queue %d for key 0x%x\n" (int q.result ∷ int key ∷ []) (
      checked (msgsnd q.result 1 "Hello, this is a message of type 1") "msgsnd failed" (λ _.
        note "Message 1 sent: %s\n" (str "Hello, this is a message of type 1" ∷ []) (
          checked (msgsnd q.result 2 "Hello, this is a message of type 2") "msgsnd failed" (λ _.
            note "Message 2 sent: %s\n" (str "Hello, this is a message of type 2" ∷ []) (
              checked (msgrcv q.result 2) "msgrcv failed" (λ r.
                note "Message 2 received: %.*s\n" (int r.result ∷ text r.bytes ∷ []) (
                  checked (msgrcv q.result 1) "msgrcv failed" (λ s.
                    note "Message 1 received: %.*s\n" (int s.result ∷ text s.bytes ∷ []) (
                      checked (msgctl q.result) "msgctl destroy failed" (λ _. ret (pos 0))))))))))))

-- `main`. The second `msgget` is to fail, since the queue is there.
unfoldable pub msgtest_main : Prog ℤ
msgtest_main = ask (sys "ftok" (str "msgtest-stat" ∷ nat 17 ∷ [])) (λ k.
    checked (msgget k.result "IPC_CREAT|IPC_EXCL") "msgget failed" (λ q.
      ask (msgget k.result "IPC_CREAT|IPC_EXCL") (λ n.
        if eqb_ℤ n.result minus_one
        then checked (msgctl q.result) "msgctl destroy failed" (λ _.
          note "Created and destroyed msg queue %d for key 0x%x\n"
            (int q.result ∷ int k.result ∷ []) (exchange k.result))
        else emit (perror "msgget which should fail did not") (exit (pos 1)))))
