-- ===== src/Small.antt =====
-- The programs of a few calls: hello.c, helloargs.c, identity.c, stat.c, waitkeyboard.c, termios.c and
-- robustlist.c. Small/Files has those that work on files.
pub mod Files
pub mod Sample
use generic_tests.Common.{
  ℕ, zero, suc, ◌+◌, String, List, [], ◌∷◌, ◌==◌, ltb, if◌then◌else◌, length,
}
use generic_tests.Common.Int.{ℤ, pos, minus_one, eqb_ℤ, ltb_ℤ}
use generic_tests.Sys.{
  nat, int, str, text, Call, Prog, ret, emit, ask, say, skip, call, ◌>>=◌, ◌>>◌, print, print_flush,
  printf, perror, setbuf, sys, getuid, geteuid, getgid, getegid, gettid,
}
use generic_tests.Fork.{arg}
use generic_tests.Call64.{field}

-- hello.c
unfoldable pub hello_main : List String → Prog ℤ
hello_main argv =
    (if length argv == 1
      then print "x86 ahoy!\n" []
      else print "x86 hello %s\n" (str (arg argv 1) ∷ []))
    >> ret (pos 0)

-- helloargs.c: the arguments behind the name of the program.
unfoldable pub show_args : List String → Prog (Unit {0})
show_args [] = skip
show_args (a ∷ rest) = emit (printf "| %s|" (str a ∷ [])) (show_args rest)

-- The loop over the environment, from the variable of this index on; the value is their number.
unfoldable pub print_env : ℤ → ℕ → List String → Prog ℕ
print_env maxenv index [] = ret index
print_env maxenv index (e ∷ rest) =
    (if ltb_ℤ maxenv (pos index)
      then skip
      else print "envp[%d] = \"%s\"\n" (nat index ∷ str e ∷ []))
    >> print_env maxenv (index + 1) rest

unfoldable pub helloargs_main : (String → ℤ) → List String → List String → Prog ℤ
helloargs_main atoi argv envp = if length argv == 1 then (print "ahoy!\n" [] >> ret (pos 0)) else do
  print "%s had args:" (str (arg argv 0) ∷ [])
  show_args (elim argv [ [] ↦ [] | name ∷ args ↦ args ])
  print "\n" []
  number ← print_env (atoi (arg argv 1)) 0 envp
  print "Number of environment vars= %d\n" (nat number ∷ [])
  ret (pos 0)

-- identity.c; the texts of `uname` are asked for by their names, and each id twice.
abbrev pub uname_field : String → Prog (List ℕ)
uname_field name = ask (sys "uts" (str name ∷ [])) (λ a. ret a.bytes)

unfoldable pub two_ids : Call → Call → Prog (Unit {0})
two_ids first second = ask first (λ a. ask first (λ b. ask second (λ c. ask second (λ d.
    print "%d 0x%x %d 0x%x\n" (int a.result ∷ int b.result ∷ int c.result ∷ int d.result ∷ [])))))

unfoldable pub identity_main : Prog ℤ
identity_main = do
  say setbuf
  say (sys "uname" [])
  sysname ← uname_field "sysname"
  nodename ← uname_field "nodename"
  release ← uname_field "release"
  version ← uname_field "version"
  machine ← uname_field "machine"
  print "%s %s %s %s %s\n"
      (text sysname ∷ text nodename ∷ text release ∷ text version ∷ text machine ∷ [])
  two_ids getuid geteuid
  two_ids getgid getegid
  ret (pos 0)

-- stat.c: the numbers of the file in the order in which they are printed, in two bases.
abbrev pub numbers : List String → List ℕ → Prog (Unit {0})
numbers (f1 ∷ f2 ∷ f3 ∷ f4 ∷ []) n = do
  print f1 (nat (field 0 n) ∷ nat (field 1 n) ∷ nat (field 2 n) ∷ nat (field 3 n) ∷ [])
  print f2 (nat (field 4 n) ∷ nat (field 5 n) ∷ nat (field 6 n) ∷ [])
  print f3 (nat (field 7 n) ∷ nat (field 8 n) ∷ nat (field 9 n) ∷ [])
  print f4 (nat (field 10 n) ∷ nat (field 11 n) ∷ nat (field 12 n) ∷ [])
numbers formats n = skip

unfoldable pub stat_main : List String → Prog ℤ
stat_main argv =
    let filename = if length argv == 1 then arg argv 0 else arg argv 1 in
    ask (sys "stat" (str filename ∷ [])) (λ a. do
      numbers ("%lld %ld %d %d\n" ∷ "%d %d %lld\n" ∷ "%ld %ld %ld\n" ∷ "%ld %ld %ld\n" ∷ []) a.bytes
      numbers ("%llx %lx %x %x\n" ∷ "%x %x %llx\n" ∷ "%lx %lx %lx\n" ∷ "%lx %lx %lx\n" ∷ []) a.bytes
      ret (pos 0))

-- waitkeyboard.c; `char` is signed, so that the byte 255 is taken for EOF as well.
unfoldable pub waitkeyboard_main : Prog ℤ
waitkeyboard_main =
    print_flush "Will wait for char to be entered\n" []
    >> ask (sys "getchar" []) (λ a.
      (if eqb_ℤ a.result minus_one
        then print "Interrupted\n" []
        else if eqb_ℤ a.result (pos 255)
        then print "Interrupted\n" []
        else print "Got %c\n" (int a.result ∷ []))
      >> ret (pos 0))

-- termios.c
unfoldable pub termios_main : Prog ℤ
termios_main = emit (sys "tcgetattr" (nat 1 ∷ [])) (ret (pos 0))

-- robustlist.c; the call stores the pointer and the size, and the two fields behind the pointer are
-- asked for.
unfoldable pub robustlist_main : Prog ℤ
robustlist_main = ask gettid (λ t. ask (sys "set_robust_list" (str "head" ∷ [])) (λ s.
    if eqb_ℤ s.result (pos 0)
    then ask (sys "get_robust_list" (int t.result ∷ [])) (λ g.
      if eqb_ℤ g.result minus_one then emit (perror "get_robust_list") (ret (pos 2)) else do
        print "Robust list head: %p\n" (nat (field 0 g.bytes) ∷ [])
        print "Length: %zu\n" (nat (field 1 g.bytes) ∷ [])
        if field 0 g.bytes == 0
            then skip
            else ask (sys "got_head" []) (λ h.
              print "Futex offset: %ld\n" (nat (field 0 h.bytes) ∷ [])
              >> print "List pending: %p\n" (nat (field 1 h.bytes) ∷ []))
        ret (pos 0))
    else emit (perror "set_robust_list failed") (ret (pos 1))))
