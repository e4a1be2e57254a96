-- ===== src/Namespace.antt =====
-- mkuidns.c: a command in a new user namespace and root directory. The parent writes the maps of the
-- child's ids, and then tells the child to go on.
pub mod Ids
pub mod Child
pub mod Order
pub mod Laws
mod Tests
use generic_tests.Common.{ℕ, zero, suc, String, List, [], ◌∷◌, if◌then◌else◌, take, ltb, ◌==◌}
use generic_tests.Common.Int.{ℤ, pos, negsuc, minus_one, is_neg, eqb_ℤ, ltb_ℤ}
use generic_tests.Sys.{
  Answer, nat, int, str, Call, Prog, ret, exit, emit, ask, skip, ◌>>◌, print, printf, perror, sys,
  setbuf, close, open_proc, write, waitpid,
}
use generic_tests.Wait.{if_exited, exit_status, report, Formats}
use generic_tests.Namespace.Ids.{id_line}

-- `sockets[i]`
abbrev pub socket_at : ℕ → List ℕ → ℤ
socket_at i [] = pos 0
socket_at zero (s ∷ rest) = pos s
socket_at (suc i) (s ∷ rest) = socket_at i rest

-- `write(fd,"deny\n",5)` and `write(sockets[1],"go",2)`
abbrev pub deny : List ℕ
deny = b'd' ∷ b'e' ∷ b'n' ∷ b'y' ∷ 10 ∷ []

abbrev pub go : List ℕ
go = b'g' ∷ b'o' ∷ []

-- `fd = open(…,O_WRONLY)`: where it fails the child is killed. `path` is the name of the file below
-- /proc/<childpid>.
abbrev pub opened : ℤ → String → String → (ℤ → Prog ℤ) → Prog ℤ
opened childpid path complaint next = ask (open_proc childpid path) (λ a.
    if eqb_ℤ a.result minus_one
    then emit (printf complaint [])
        (emit (sys "kill" (int childpid ∷ str "SIGTERM" ∷ [])) (exit (pos 2)))
    else next a.result)

-- The lines on the child; nothing is said of an exit with 0.
abbrev pub child_formats : Formats
child_formats = record {
  exited = "child exited, status=%d\n";
  signaled = "killed by signal %d\n";
  stopped = "stopped by signal %d\n";
  continued = "continued\n";
  args = [];
}

abbrev pub judge : ℕ → Prog (Unit {0})
judge s =
    if if_exited s
    then (if s == 0 then skip else print "child exited, status=%d\n" (nat (exit_status s) ∷ []))
    else report child_formats s

-- From the permission to go on.
abbrev pub released : ℤ → ℤ → Prog ℤ
released sock childpid = emit (write sock go) (
    ask (waitpid childpid) (λ a.
      if ltb_ℤ (pos 0) a.result
      then (judge a.status >> ret (pos 0))
      else emit (perror "parent waitpid failed") (exit (pos 1))))

-- The three files. Eleven bytes of each map are written.
unfoldable pub write_maps : ℤ → ℤ → Prog ℤ
write_maps sock childpid = opened childpid "uid_map" "unable to open uid map\n" (λ fd.
    ask Call.getuid (λ u. emit (write fd (take 11 (id_line u.result))) (
      emit (close fd) (
        opened childpid "setgroups" "unable to open setgroups\n" (λ fd'. emit (write fd' deny) (
          emit (close fd') (
            opened childpid "gid_map" "unable to open gid map\n" (λ fd''. ask Call.getgid (λ g.
              emit (write fd'' (take 11 (id_line g.result)))
                (emit (close fd'') (released sock childpid)))))))))))

-- `main`; a `malloc` that gives 0 has failed.
unfoldable pub mkuidns_main : Prog ℤ
mkuidns_main = emit setbuf (
    ask (sys "socketpair" []) (λ p.
      if is_neg p.result
      then emit (perror "opening stream socket pair") (exit (pos 1))
      else ask (sys "malloc" (nat 1048576 ∷ [])) (λ m.
        if eqb_ℤ m.result (pos 0)
        then emit (perror "child stack alloc failed") (exit (pos 1))
        else ask (sys "clone" []) (λ c.
          if eqb_ℤ c.result minus_one
          then emit (perror "clone failed") (exit (pos 1))
          else write_maps (socket_at 1 p.bytes) c.result))))
