-- ===== src/Call64.antt =====
-- call64.c: the calls whose names end in 64, one after the other.
pub mod Dirents
pub mod Laws
mod Tests
use generic_tests.Common.{ℕ, zero, suc, ◌+◌, ◌^◌, String, Bool, List, [], ◌∷◌, if◌then◌else◌, ltb}
use generic_tests.Common.Int.{ℤ, pos, minus_one, is_neg, eqb_ℤ, pos_part}
use generic_tests.Sys.{
  Answer, nat, int, str, text, Arg, Call, Prog, ret, exit, emit, ask, say, skip, call, ◌>>=◌, ◌>>◌,
  print, printf, perror, sys, close,
}
use generic_tests.Threads.{text_of}
use generic_tests.Call64.Dirents.{walk}

-- Which of the names that the source tests by `#ifdef` are defined.
pub record Build : Type 0 where
  pub pwrite64 : Bool
  pub pread64 : Bool
  pub sendfile64 : Bool
  pub sendfile : Bool
  pub getdents64 : Bool

-- `fprintf(stderr, …)`
abbrev pub complain : String → Prog (Unit {0})
complain message = say (sys "fprintf" (str "stderr" ∷ str message ∷ []))

abbrev pub perror_exit {ℓ} : {A : Type ℓ} → String → Prog A
perror_exit msg = emit (perror msg) (exit (pos 1))

-- `if (… < 0) perror(msg); else printf(…);`, with the value of the call.
abbrev pub tried : Call → String → (ℤ → Prog (Unit {0})) → Prog (Unit {0})
tried c msg shown = ask c (λ a. if is_neg a.result then say (perror msg) else shown a.result)

-- `if (… < 0) perror_exit(msg);`
abbrev pub needed : Call → String → Prog Answer
needed c msg = ask c (λ a. if is_neg a.result then perror_exit msg else ret a)

abbrev pub write_off : ℕ
write_off = 1234567890123

-- Steps 2 and 3, with the second try by `syscall`.
unfoldable pub pwrite_step : Build → ℤ → Prog (Unit {0})
pwrite_step b fd =
    let args = int fd ∷ str "Hello from pwrite64/pread64!\n" ∷ nat write_off ∷ [] in
    ask (sys "pwrite64" args) (λ a.
      if is_neg a.result
      then emit (perror "pwrite64 (may not be available as wrapper) - trying syscall fallback") (
          if b.pwrite64
          then (needed (sys "syscall" (str "SYS_pwrite64" ∷ args)) "syscall(SYS_pwrite64)" >>= λ w.
              print "syscall(SYS_pwrite64) wrote=%zd\n" (int w.result ∷ []))
          else complain "SYS_pwrite64 not available on this platform\n")
      else print "pwrite64 wrote=%zd at offset %PRId64\n" (int a.result ∷ nat write_off ∷ []))

unfoldable pub pread_step : Build → ℤ → Prog (Unit {0})
pread_step b fd =
    let args = int fd ∷ nat 4095 ∷ nat write_off ∷ [] in
    ask (sys "pread64" args) (λ a.
      if is_neg a.result
      then emit (perror "pread64 - trying syscall fallback") (
          if b.pread64
          then (needed (sys "syscall" (str "SYS_pread64" ∷ args)) "syscall(SYS_pread64)" >>= λ r.
              print "syscall(SYS_pread64) read=%zd bytes: %s\n"
                (int r.result ∷ text (text_of r.bytes) ∷ []))
          else complain "SYS_pread64 not available on this platform\n")
      else print "pread64 read=%zd bytes: %s\n" (int a.result ∷ text (text_of a.bytes) ∷ []))

-- Steps 4 to 6; the numbers stored by a `stat` are the size, the inode and the mode.
abbrev pub field : ℕ → List ℕ → ℕ
field i [] = 0
field zero (b ∷ bs) = b
field (suc i) (b ∷ bs) = field i bs

unfoldable pub stat_step : ℤ → Prog (Unit {0})
stat_step fd = do
  offset ← needed (sys "lseek64" (int fd ∷ nat 0 ∷ str "SEEK_END" ∷ [])) "lseek64"
  print "lseek64 -> end offset=%PRId64\n" (int offset.result ∷ [])
  ask (sys "fstat64" (int fd ∷ [])) (λ a.
      if is_neg a.result
      then emit (perror "fstat64 - attempt fallback to fstat") (
          needed (sys "fstat" (int fd ∷ [])) "fstat fallback" >>= λ st.
          print "fstat fallback: size=%lld\n" (nat (field 0 st.bytes) ∷ []))
      else print "fstat64: size=%PRId64, ino=%PRIu64\n"
          (nat (field 0 a.bytes) ∷ nat (field 1 a.bytes) ∷ []))
  ask (sys "stat64" (str "test64.tmp" ∷ [])) (λ a.
      if is_neg a.result
      then say (perror "stat64 (may be unneeded if stat is 64)")
      else print "stat64: size=%PRId64\n" (nat (field 0 a.bytes) ∷ []))
  ask (sys "lstat64" (str "test64.tmp" ∷ [])) (λ a.
      if is_neg a.result
      then say (perror "lstat64")
      else print "lstat64: mode=%o\n" (nat (field 2 a.bytes) ∷ []))

-- Step 7, and the write behind it.
unfoldable pub truncate_step : ℤ → Prog (Unit {0})
truncate_step fd = do
  tried (sys "ftruncate64" (int fd ∷ nat 0 ∷ [])) "ftruncate64"
      (λ _. print "ftruncate64 -> truncated to 0\n" [])
  tried (sys "truncate64" (str "test64.tmp" ∷ nat 0 ∷ [])) "truncate64"
      (λ _. print "truncate64 -> truncated to 0\n" [])
  ask (sys "write" (int fd ∷ str "again\n" ∷ nat 6 ∷ []))
      (λ a. if eqb_ℤ a.result (pos 6) then skip else perror_exit "write")

-- Step 8.
abbrev pub open_out : Call
open_out = sys "open64" (str "test64.out" ∷ str "O_CREAT|O_RDWR|O_TRUNC" ∷ [])

unfoldable pub sendfile_step : Build → ℤ → Prog (Unit {0})
sendfile_step b fd =
    if b.sendfile64
    then (needed open_out "open64 test64.out" >>= λ o.
        tried (sys "syscall" (str "SYS_sendfile64" ∷ int o.result ∷ int fd ∷ nat 0 ∷ nat 4096 ∷ []))
          "syscall(SYS_sendfile64)"
          (λ sf. print "syscall(SYS_sendfile64) -> %zd bytes\n" (int sf ∷ [])))
    else if b.sendfile
    then emit (sys "lseek64" (int fd ∷ nat 0 ∷ str "SEEK_SET" ∷ [])) (
        ask open_out (λ o.
          if is_neg o.result
          then skip
          else tried (sys "sendfile" (int o.result ∷ int fd ∷ nat 0 ∷ nat 4096 ∷ [])) "sendfile"
              (λ sf. print "sendfile -> %zd bytes\n" (int sf ∷ []))))
    else skip

-- Step 9, with the fuel of the loop.
unfoldable pub getdents_step : Build → ℕ → Prog (Unit {0})
getdents_step b fuel = ask (sys "open64" (str "." ∷ str "O_RDONLY|O_DIRECTORY" ∷ [])) (λ d.
    if is_neg d.result
    then say (perror "open64(.) for getdents64")
    else ((if b.getdents64
          then ask (sys "syscall" (str "SYS_getdents64" ∷ int d.result ∷ nat 8192 ∷ [])) (λ a.
            if is_neg a.result
            then say (perror "syscall(SYS_getdents64)")
            else emit (printf "getdents64 returned %d bytes\n" (int a.result ∷ []))
                (walk fuel a.bytes 0 (pos_part a.result)))
          else complain "SYS_getdents64 not available on this platform\n")
        >> say (close d.result)))

-- Step 11.
unfoldable pub big_offset_step : ℤ → Prog (Unit {0})
big_offset_step fd =
    let bigoff = 2 ^ 40 + 100 in
    ask (sys "lseek64" (int fd ∷ nat bigoff ∷ str "SEEK_SET" ∷ [])) (λ a.
      if eqb_ℤ a.result minus_one
      then skip
      else ask (sys "write" (int fd ∷ str "X\n" ∷ nat 2 ∷ [])) (λ w.
        if eqb_ℤ w.result (pos 2)
        then print "wrote 2 bytes at large offset %PRId64\n" (nat bigoff ∷ [])
        else skip))

unfoldable pub call64_main : Build → ℕ → Prog ℤ
call64_main b fuel = do
  print "=== test64: starting\n" []
  fd ← needed (sys "open64" (str "test64.tmp" ∷ str "O_CREAT|O_RDWR|O_TRUNC" ∷ [])) "open64"
  print "open64 -> fd=%d\n" (int fd.result ∷ [])
  pwrite_step b fd.result
  pread_step b fd.result
  stat_step fd.result
  truncate_step fd.result
  sendfile_step b fd.result
  getdents_step b fuel
  big_offset_step fd.result
  ret (pos 0)
