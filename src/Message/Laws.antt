-- ===== src/Message/Laws.antt =====
-- What the receiver shows of a message.
use generic_tests.Common.{
  ℕ, ◌-◌, ◌≤◌, ◌≡◌, refl, ap, false, List, [], ◌∷◌, ◌++◌, ◌==◌, length, take, drop, take_all,
  drop_all, take-append, All,
}
use generic_tests.Common.Int.{ℤ, is_neg}
use generic_tests.Sys.{Answer, nat, int, text, printf, sys, close}
use generic_tests.Sys.Run.{run, did, got, done}
use generic_tests.Threads.{text_of}
use generic_tests.Message.{
  room, shown_text, first_buffer, second_buffer, sender_numbers, plain_lines, receive,
}

pub text_of-append :
    (d rest : List ℕ) → All (λ c. (c == 0) ≡ false) d → text_of (d ++ rest) ≡ d ++ text_of rest
text_of-append [] rest h = refl
text_of-append (c ∷ cs) rest h = rw h.0 (ap (λ l. c ∷ l) (text_of-append cs rest h.1))

-- What stands behind a message in its buffer, as far as it is shown.
abbrev pub left_over : List ℕ → List ℕ → List ℕ
left_over d old = text_of (take (room - length d) (drop (length d) old))

first_shown :
    (d old : List ℕ)
    → length d ≤ room
    → All (λ c. (c == 0) ≡ false) d
    → shown_text room (first_buffer d old) ≡ d ++ left_over d old
first_shown d old fits no_nul =
    rw (take_all room d fits, take-append room d (drop (length d) old) fits)
      (text_of-append d (take (room - length d) (drop (length d) old)) no_nul)

second_shown :
    (d old : List ℕ)
    → length d ≤ room
    → shown_text room (second_buffer d old) ≡ text_of (take room old)
second_shown d old fits = rw (drop_all room d fits) refl

-- recvmsg.c, for a message of at most 1023 bytes without a NUL: the line for the first buffer shows
-- the message and behind it what the buffer held there before, up to a NUL; the line for the second
-- shows what that buffer held before. Then the socket is closed and the thread returns.
pub receive_shows_leftovers :
    (sockfd : ℤ) (old old' : List ℕ) (r a ip : Answer)
    → is_neg r.result ≡ false
    → length r.bytes ≤ room
    → All (λ c. (c == 0) ≡ false) r.bytes
    → run (receive plain_lines sockfd old old') (r ∷ a ∷ ip ∷ []) ≡ record {
      events =
          got (sys "recvmsg" (int sockfd ∷ [])) r
          ∷ got (sys "sender_addr" []) a
          ∷ got (sys "inet_ntop" []) ip
          ∷ did (
              printf "Received message: '%.*s' from %s:%d  %d:%d:\n"
                (nat 16 ∷ text (shown_text 16 a.bytes) ∷ sender_numbers a.bytes ip.bytes))
          ∷ did (printf " '%.*s'\n" (nat room ∷ text (r.bytes ++ left_over r.bytes old) ∷ []))
          ∷ did (printf " '%.*s'\n" (nat room ∷ text (text_of (take room old')) ∷ []))
          ∷ did (close sockfd)
          ∷ [];
      outcome = done tt [];
    }
unfolding receive run
receive_shows_leftovers sockfd old old' r a ip received fits no_nul =
    rw (received, first_shown r.bytes old fits no_nul, second_shown r.bytes old' fits) refl
