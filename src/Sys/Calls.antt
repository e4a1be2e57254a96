-- ===== src/Sys/Calls.antt =====
-- The calls that the programs make, and what comes back.
use generic_tests.Common.{ℕ, String, List}
use generic_tests.Common.Int.{ℤ}

-- An argument of a `printf`; `text` is the bytes of a buffer up to its first NUL.
pub data Arg : Type 0 where
  int : ℤ → Arg
  nat : ℕ → Arg
  str : String → Arg
  text : List ℕ → Arg

pub data Call : Type 0 where
  printf : String → List Arg → Call  -- to stdout, which is buffered
  perror : String → Call
  fflush : Call  -- of stdout
  setbuf : Call  -- stdout to unbuffered
  sleep : ℕ → Call
  fork getpid gettid getppid getuid geteuid getgid getegid : Call
  waitpid : ℤ → Call
  execve : String → Call
  pthread_create pthread_join : ℕ → Call
  read : ℤ → ℕ → Call  -- a file, a number of bytes at most
  send : ℤ → List ℕ → Call
  close : ℤ → Call
  open_proc : ℤ → String → Call  -- /proc/<process>/<name>, for writing
  write : ℤ → List ℕ → Call
  poll : List (ℤ × ℕ) → ℕ → Call  -- the files with the events asked for, the timeout
  sys : String → List Arg → Call  -- another system or library call, by its name

-- What a call gives back: its value, the status word of a wait, the numbers that it stores: the
-- bytes of a read, the `revents` of a poll.
pub record Answer : Type 0 where
  pub result : ℤ
  pub status : ℕ
  pub bytes : List ℕ
