-- ===== src/Message/Tests.antt =====
-- A message of three bytes, into buffers with other bytes.
use generic_tests.Common.{◌≡◌, refl, List, ℕ, [], ◌∷◌, ◌++◌, arith, take}
use generic_tests.Common.Int.{pos}
use generic_tests.Sys.{Answer, nat, int, text, printf, sys, close}
use generic_tests.Sys.Run.{run, did, got, done}
use generic_tests.Threads.{text_of}
use generic_tests.Message.{room, shown_text, sender_numbers, plain_lines, receive}
use generic_tests.Message.Laws.{left_over, receive_shows_leftovers}

abbrev hey : Answer
hey = record { result = pos 3; status = 0; bytes = b'h' ∷ b'e' ∷ b'y' ∷ [] }

abbrev address : Answer
address = record { result = pos 0; status = 0; bytes = 2 ∷ 0 ∷ 48 ∷ 57 ∷ 127 ∷ 0 ∷ 0 ∷ 1 ∷ [] }

abbrev ip_text : Answer
ip_text = record { result = pos 0; status = 0; bytes = b'1' ∷ b'2' ∷ b'7' ∷ [] }

abbrev full : List ℕ
full = b'x' ∷ b'x' ∷ b'x' ∷ b'x' ∷ b'x' ∷ 0 ∷ []

receive_shows_leftovers_example :
    run (receive plain_lines (pos 4) full full) (hey ∷ address ∷ ip_text ∷ []) ≡ record {
      events =
          got (sys "recvmsg" (int (pos 4) ∷ [])) hey
          ∷ got (sys "sender_addr" []) address
          ∷ got (sys "inet_ntop" []) ip_text
          ∷ did (
              printf "Received message: '%.*s' from %s:%d  %d:%d:\n" (
                nat 16
                ∷ text (shown_text 16 address.bytes)
                ∷ sender_numbers address.bytes ip_text.bytes))
          ∷ did (printf " '%.*s'\n" (nat room ∷ text (hey.bytes ++ left_over hey.bytes full) ∷ []))
          ∷ did (printf " '%.*s'\n" (nat room ∷ text (text_of (take room full)) ∷ []))
          ∷ did (close (pos 4))
          ∷ [];
      outcome = done tt [];
    }
receive_shows_leftovers_example =
    receive_shows_leftovers (pos 4) full full hey address ip_text refl (omega arith)
      (refl, (refl, (refl, tt)))
