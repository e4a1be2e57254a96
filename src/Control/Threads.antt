-- ===== src/Control/Threads.antt =====
-- The functions that the threads of controlthreads.c run. A result is what `pthread_exit` is given:
-- the number behind the pointer, or none for NULL.
use generic_tests.Common.{
  ℕ, zero, suc, String, Option, none, some, List, [], ◌∷◌, ◌++◌, not, if◌then◌else◌, replicate,
}
use generic_tests.Common.Int.{ℤ, pos, minus_one, eqb_ℤ, ltb_ℤ, is_neg}
use generic_tests.Sys.{
  nat, int, str, text, Call, Prog, ret, spin, emit, ask, say, skip, ◌>>=◌, ◌>>◌, print, value_of,
  printf, perror, sys, sleep, read, close,
}
use generic_tests.Threads.{text_of}
use generic_tests.Socket.{overlay}
use generic_tests.Control.{char_of, byte_at, starts_with, bingo}

abbrev pub Exit : Type 0
Exit = Option ℤ

pub print_thread_id : ℕ → Prog Exit
print_thread_id thread_id = do
  say (sys "malloc" (nat 4 ∷ []))
  pid ← value_of Call.getpid
  tid ← value_of Call.gettid
  print "Our thread %d is running as pid, tid: %d,%d\n" (nat thread_id ∷ int pid ∷ int tid ∷ [])
  say (sleep 1)
  pid' ← value_of Call.getpid
  tid' ← value_of Call.gettid
  print "Our thread %d is running as pid, tid: %d,%d ready to exit\n"
      (nat thread_id ∷ int pid' ∷ int tid' ∷ [])
  ret (some (pos thread_id))

-- `ch = getchar()`: EOF and the byte 255 give the same `char`.
abbrev pub key_char : ℤ → ℤ
key_char (pos b) = char_of b
key_char c = c

unfoldable pub waitkeyboard : ℕ → Prog Exit
waitkeyboard thread_id = do
  say (sys "malloc" (nat 4 ∷ []))
  print "Thread %d will wait for char to be entered\n" (nat thread_id ∷ [])
  c ← value_of (sys "getchar" [])
  (if eqb_ℤ (key_char c) minus_one
      then print "Interrupted\n" []
      else print "Got %c\n" (int (key_char c) ∷ []))
  ret (some (key_char c))

-- The loop that reads ten bytes at a time until they start with "bingo", on fuel; `short` follows a
-- read of another length, `wrong` other bytes.
unfoldable pub bingo_loop :
    (ℤ → Prog (Unit {0})) → (List ℕ → Prog (Unit {0})) → ℤ → ℕ → List ℕ → Prog ℕ
bingo_loop short wrong fd zero input = spin
bingo_loop short wrong fd (suc fuel) input =
    let rest = bingo_loop short wrong fd fuel in
    ask (read fd 10) (λ a.
      let input' = overlay input a.bytes in
      if not (eqb_ℤ a.result (pos 10))
      then (short a.result >> rest input')
      else if starts_with bingo input'
      then emit (printf "got bingo, return %c\n" (nat (byte_at 9 input') ∷ []))
          (ret (byte_at 9 input'))
      else (wrong input' >> rest input'))

-- `printf("bad input %s not bingo\n",input);`
abbrev pub bad_input : List ℕ → Prog (Unit {0})
bad_input input = print "bad input %s not bingo\n" (text (text_of input) ∷ [])

abbrev pub short_dev : ℤ → Prog (Unit {0})
short_dev nb =
    print "Not enough input try again %d\n" (int nb ∷ [])
    >> (if ltb_ℤ (pos 0) nb then skip else say (sleep 1))

abbrev pub short_file : ℤ → Prog (Unit {0})
short_file nb =
    print "Not enough input (%d) try again\n" (int nb ∷ [])
    >> (if eqb_ℤ nb (pos 0) then say (sleep 1) else skip)

-- What `waitfakedev` and `waitfakefile` have in common; `garbage` is what the first ten bytes of
-- `input` hold before a read.
abbrev pub wait_bingo :
    String
    → String
    → (ℤ → Prog (Unit {0}))
    → (List ℕ → Prog (Unit {0}))
    → ℕ
    → List ℕ
    → ℕ
    → Prog Exit
wait_bingo name missing short wrong fuel garbage thread_id = emit (sys "malloc" (nat 4 ∷ [])) (
    ask (sys "open" (str name ∷ [])) (λ a.
      if eqb_ℤ a.result minus_one
      then emit (printf missing []) (ret (some minus_one))
      else emit
          (printf "Thread %d will wait for string 'bingo' to be read from fake dev\n"
            (nat thread_id ∷ []))
          (bingo_loop short wrong a.result fuel (garbage ++ 0 ∷ []) >>= λ b.
            ret (some (char_of b)))))

unfoldable pub waitfakedev : ℕ → List ℕ → ℕ → Prog Exit
waitfakedev =
    wait_bingo "/dev/fakeme" "No /dev/fakeme\n" short_dev
      (λ input. bad_input input >> say (sleep 1))

unfoldable pub waitfakefile : ℕ → List ℕ → ℕ → Prog Exit
waitfakefile = wait_bingo "/FAKEME/fakename" "No file FAKEME\n" short_file bad_input

-- The messages that the writer sends, each with its NUL; the buffer is described by its format and
-- arguments.
unfoldable pub send_messages : ℤ → ℕ → List String → Prog (Unit {0})
send_messages fd thread_id [] = skip
send_messages fd thread_id (m ∷ ms) =
    emit (sys "write" (int fd ∷ str "From %d: %s" ∷ nat thread_id ∷ str m ∷ [])) (
      emit (printf "Writer: Sent message: From %d: %s\n" (nat thread_id ∷ str m ∷ []))
        (send_messages fd thread_id ms))

unfoldable pub pipewriter : ℕ → Prog Exit
pipewriter thread_id = emit (sys "malloc" (nat 4 ∷ [])) (
    ask (sys "open" (str "/tmp/controlthreads_pipe" ∷ str "O_WRONLY" ∷ [])) (λ a.
      if eqb_ℤ a.result minus_one
      then emit (perror "Failed to open pipe for writing") (ret none)
      else (send_messages a.result thread_id ("1st message" ∷ "2nd message" ∷ "last message" ∷ [])
          >> emit (close a.result) (ret (some (pos b'X'))))))

-- The loop over the reads, which leaves `readbuf`.
unfoldable pub read_messages : ℤ → ℕ → ℕ → List ℕ → Prog (List ℕ)
read_messages fd thread_id zero readbuf = ret readbuf
read_messages fd thread_id (suc left) readbuf = ask (read fd 100) (λ a.
    let readbuf' = overlay readbuf a.bytes in
    if ltb_ℤ (pos 0) a.result
    then emit
        (printf "Reader %d: Received message: %s\n" (nat thread_id ∷ text (text_of readbuf') ∷ []))
        (read_messages fd thread_id left readbuf')
    else read_messages fd thread_id left readbuf')

unfoldable pub pipereader : List ℕ → ℕ → Prog Exit
pipereader garbage thread_id = emit (sys "malloc" (nat 4 ∷ [])) (
    ask (sys "open" (str "/tmp/controlthreads_pipe" ∷ str "O_RDONLY" ∷ [])) (λ a.
      if eqb_ℤ a.result minus_one
      then emit (perror "Failed to open pipe for writing") (ret none)
      else (read_messages a.result thread_id 3 garbage >>= λ readbuf.
          emit (close a.result) (ret (some (char_of (byte_at 10 readbuf)))))))

-- "Hello, device!" with its NUL.
abbrev pub write_buf : List ℕ
write_buf =
    b'H' ∷ b'e' ∷ b'l' ∷ b'l' ∷ b'o' ∷ b',' ∷ b' ' ∷ b'd' ∷ b'e' ∷ b'v' ∷ b'i' ∷ b'c' ∷ b'e' ∷ b'!'
    ∷ 0 ∷ []

-- `*exitval = EXIT_FAILURE; goto exit;`
abbrev pub ioctl_failed : String → ℤ → Prog Exit
ioctl_failed message fd = emit (perror message) (emit (close fd) (ret (some (pos 1))))

unfoldable pub useioctls : Prog Exit
useioctls = emit (sys "malloc" (nat 4 ∷ [])) (
    ask (sys "open" (str "/dev/mydevice" ∷ str "O_RDWR" ∷ [])) (λ a.
      if is_neg a.result
      then emit (perror "Failed to open the device") (ret (some (pos 1)))
      else ask (sys "ioctl" (int a.result ∷ str "IOCTL_WRITE" ∷ text write_buf ∷ [])) (λ b.
        if is_neg b.result
        then ioctl_failed "Failed to write via ioctl" a.result
        else emit (printf "Data written: %s\n" (text (text_of write_buf) ∷ [])) (
            ask (sys "ioctl" (int a.result ∷ str "IOCTL_READ" ∷ [])) (λ c.
              if is_neg c.result
              then ioctl_failed "Failed to read via ioctl" a.result
              else (let read_buf = overlay (replicate 100 0) c.bytes in
                  emit (printf "Data read: %s\n" (text (text_of read_buf) ∷ [])) (
                    (if starts_with write_buf read_buf
                      then skip
                      else print "Read did not match write %s != %s"
                          (text (text_of read_buf) ∷ text (text_of write_buf) ∷ []))
                    >> emit (close a.result) (ret (some (pos 0))))))))))
