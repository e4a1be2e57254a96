-- ===== src/Fork.antt =====
-- The programs that fork: serialfork.c, parallelfork.c, multiforkexec.c and forktree_and_pthread.c.
-- Here is what they share: the four variables that show that memory is copied, the line with which
-- a child names itself, and the command line.
pub mod Order
mod Tests
pub mod Serial
pub mod Parallel
pub mod Multi
pub mod Single
pub mod Exec
use generic_tests.Common.{ℕ, zero, suc, ◌+◌, String, List, [], ◌∷◌, ltb, if◌then◌else◌, length}
use generic_tests.Common.Int.{ℤ, pos}
use generic_tests.Sys.{
  Arg, int, nat, str, Call, Prog, ret, emit, ◌>>=◌, ◌>>◌, value_of, print, perror, exit,
}
use generic_tests.Common.Int.{minus_one}

-- One variable of each kind of storage.
pub record Vars : Type 0 where
  pub local : ℕ
  pub static : ℕ
  pub global : ℕ
  pub heap : ℕ

abbrev pub vars : ℕ → Vars
vars n = record { local = n; static = n + 0x10; global = n + 0x20; heap = n + 0x30 }

abbrev pub show : Vars → List Arg
show v = nat v.local ∷ nat v.static ∷ nat v.global ∷ nat v.heap ∷ []

-- `getpid(), getppid(), getuid(), geteuid(), getgid(), getegid()`
abbrev pub identity : Prog (List Arg)
identity = do
  pid ← value_of Call.getpid
  ppid ← value_of Call.getppid
  uid ← value_of Call.getuid
  euid ← value_of Call.geteuid
  gid ← value_of Call.getgid
  egid ← value_of Call.getegid
  ret (int pid ∷ int ppid ∷ int uid ∷ int euid ∷ int gid ∷ int egid ∷ [])

-- argv[i]; the empty text stands for NULL.
abbrev pub arg : List String → ℕ → String
arg [] i = ""
arg (a ∷ rest) zero = a
arg (a ∷ rest) (suc i) = arg rest i

-- `printf("Fork %d failed\n",forkno); perror("fork failed"); exit(-1);`
abbrev pub fork_failed {ℓ} : {A : Type ℓ} → ℕ → Prog A
fork_failed forkno =
    emit (Call.printf "Fork %d failed\n" (nat forkno ∷ []))
      (emit (perror "fork failed") (exit minus_one))

-- The number of forks: the argument, or 5.
abbrev pub fork_count : (String → ℤ) → List String → ℤ
fork_count atoi argv = if ltb 1 (length argv) then atoi (arg argv 1) else pos 5
