-- ===== src/Message.antt =====
-- recvmsg.c and recvmsg-flush.c: a message in two parts over UDP, from one thread to another.
pub mod Laws
mod Tests
use generic_tests.Common.{
  ℕ, ◌+◌, ◌*◌, ◌/◌, ◌%◌, String, List, [], ◌∷◌, ◌++◌, if◌then◌else◌, length, take, drop,
}
use generic_tests.Common.Int.{ℤ, pos, is_neg}
use generic_tests.Sys.{
  nat, int, str, text, Arg, Prog, ret, emit, ask, say, skip, ◌>>◌, print, print_flush, printf,
  perror, fflush, sys, close, sleep, pthread_create, pthread_join,
}
use generic_tests.Clock.{to_int}
use generic_tests.Call64.Dirents.{little}
use generic_tests.Threads.{text_of}

-- `PORT`, and what fits in a buffer: `BUF_SIZE` less one.
abbrev pub port : ℕ
port = 12345

abbrev pub room : ℕ
room = 1023

-- A buffer of BUF_SIZE bytes, with these at its start.
abbrev pub refill : List ℕ → List ℕ → List ℕ
refill bytes old = bytes ++ drop (length bytes) old

-- What `recvmsg` leaves in the two buffers, one filled behind the other.
abbrev pub first_buffer : List ℕ → List ℕ → List ℕ
first_buffer message old = refill (take room message) old

abbrev pub second_buffer : List ℕ → List ℕ → List ℕ
second_buffer message old = refill (take room (drop room message)) old

-- What "%.*s" shows of a buffer.
abbrev pub shown_text : ℕ → List ℕ → List ℕ
shown_text precision buffer = text_of (take precision buffer)

-- The fields of the `struct sockaddr_in` of the sender.
abbrev pub sin_port : List ℕ → ℕ
sin_port name = little (take 2 (drop 2 name))

abbrev pub ntohs : ℕ → ℕ
ntohs p = p % 256 * 256 + p / 256

abbrev pub s_addr : List ℕ → ℕ
s_addr name = little (take 4 (drop 4 name))

-- The numbers at the end of the line on the sender.
abbrev pub sender_numbers : List ℕ → List ℕ → List Arg
sender_numbers name ip =
    text ip ∷ nat (ntohs (sin_port name)) ∷ int (to_int (s_addr name)) ∷ nat (sin_port name) ∷ []

-- The lines in which the two programs differ.
pub record Lines : Type 0 where
  pub waiting : Prog (Unit {0})
  pub announce : List ℕ → List ℕ → Prog (Unit {0})  -- the address of the sender, and its text
  pub show : List ℕ → Prog (Unit {0})
  pub flush : Prog (Unit {0})  -- behind the lines of the sender

abbrev pub show_unflushed : List ℕ → Prog (Unit {0})
show_unflushed shown = print " '%.*s'\n" (nat room ∷ text shown ∷ [])

abbrev pub plain_lines : Lines
plain_lines = record {
  waiting = print "Waiting for message on port %d...\n" (nat port ∷ []);
  announce = λ name ip.
      print "Received message: '%.*s' from %s:%d  %d:%d:\n"
        (nat 16 ∷ text (shown_text 16 name) ∷ sender_numbers name ip);
  show = show_unflushed;
  flush = skip;
}

-- recvmsg-flush.c. Its `file` is NULL in the threads, since `main` has a variable of that name, so
-- that every stream is flushed.
abbrev pub flush_all : Prog (Unit {0})
flush_all = say (sys "fflush" (str "NULL" ∷ []))

abbrev pub flushed_lines : ℕ → Lines
flushed_lines size = record {
  waiting =
      print "Waiting for message on port %d...\n" (nat port ∷ [])
      >> (print "msg struct %p, name field %p, name len field %p, iov field %p, struct size %x\n" (
            str "&msg"
            ∷ str "&msg.msg_name"
            ∷ str "&msg.msg_namelen"
            ∷ str "&msg.msg_iov"
            ∷ nat size
            ∷ [])
          >> flush_all);
  announce = λ name ip.
      print "Received message: %p for %d bytes from %s:%d  %d:%d:\n"
        (str "msg.msg_name" ∷ nat 16 ∷ sender_numbers name ip)
      >> flush_all;
  show = λ shown. show_unflushed shown >> flush_all;
  flush = flush_all;
}

-- `recv_thread` from `recvmsg` on; `old` and `old'` are what the buffers hold before.
unfoldable pub receive : Lines → ℤ → List ℕ → List ℕ → Prog (Unit {0})
receive l sockfd old old' = ask (sys "recvmsg" (int sockfd ∷ [])) (λ r.
    if is_neg r.result
    then emit (perror "recvmsg") (say (close sockfd))
    else ask (sys "sender_addr" []) (λ a. ask (sys "inet_ntop" []) (λ ip.
      l.announce a.bytes ip.bytes
      >> (l.show (shown_text room (first_buffer r.bytes old))
          >> (l.show (shown_text room (second_buffer r.bytes old')) >> say (close sockfd))))))

unfoldable pub recv_thread : Lines → List ℕ → List ℕ → Prog (Unit {0})
recv_thread l old old' = ask (sys "socket" []) (λ s.
    if is_neg s.result
    then say (perror "socket")
    else ask (sys "bind" (int s.result ∷ nat port ∷ [])) (λ b.
      if is_neg b.result
      then emit (perror "bind") (say (close s.result))
      else (l.waiting >> receive l s.result old old')))

-- The two parts.
abbrev pub msg_text : String
msg_text = "Hello from sendmsg!"

abbrev pub msg_text2 : String
msg_text2 = "A little something extra"

-- `sender_thread`; the address is AF_INET in two bytes, so that "%.*s" shows the first of them.
unfoldable pub sender_thread : Lines → Prog (Unit {0})
sender_thread l = ask (sys "socket" []) (λ s.
    print "Sending message: '%.*s' from 127.0.0.1:%d :\n" (nat 16 ∷ text (2 ∷ []) ∷ nat port ∷ [])
    >> (print " '%s'\n" (str msg_text ∷ [])
        >> (print " '%s'\n" (str msg_text2 ∷ [])
            >> (l.flush
                >> emit (sys "sendmsg" (int s.result ∷ str msg_text ∷ str msg_text2 ∷ []))
                    (say (close s.result))))))

-- `main`, of both; the threads are numbered in the order in which they are made.
unfoldable pub recvmsg_main : Prog ℤ
recvmsg_main = do
  say (pthread_create 0)
  say (sleep 1)
  say (pthread_create 1)
  print_flush "Created threads\n" []
  say (pthread_join 1)
  say (pthread_join 0)
  print_flush "All threads done\n" []
  ret (pos 0)

-- The functions of recvmsg-flush.c.
unfoldable pub flush_recv_thread : ℕ → List ℕ → List ℕ → Prog (Unit {0})
flush_recv_thread size old old' = recv_thread (flushed_lines size) old old'

unfoldable pub flush_sender_thread : ℕ → Prog (Unit {0})
flush_sender_thread size = sender_thread (flushed_lines size)

unfoldable pub recvmsg_flush_main : Prog ℤ
recvmsg_flush_main = recvmsg_main
