-- ===== src/Namespace/Child.antt =====
-- `childfunc`.
use generic_tests.Common.{ℕ, zero, suc, String, List, [], ◌∷◌, if◌then◌else◌}
use generic_tests.Common.Int.{ℤ, pos, negsuc, minus_one, eqb_ℤ}
use generic_tests.Sys.{
  str, Call, Prog, exit, replaced, emit, ask, skip, ◌>>◌, printf, perror, sys, read, execve,
}
use generic_tests.Fork.{arg}

-- `if (ret != 0) {perror(message); exit(code);}` around a call.
abbrev pub required : Call → String → ℤ → Prog ℤ → Prog ℤ
required c message code next =
    ask c (λ a. if eqb_ℤ a.result (pos 0) then next else emit (perror message) (exit code))

-- `mkdir` and `mount` of a directory below the root.
abbrev pub mkdir_below : String → String → Call
mkdir_below rootdir name = sys "mkdir" (str rootdir ∷ str name ∷ [])

abbrev pub mount_below : String → String → String → Call
mount_below source rootdir name = sys "mount" (str source ∷ str rootdir ∷ str name ∷ [])

-- The loop that prints ten arguments at most.
unfoldable pub print_arguments : ℕ → List String → Prog (Unit {0})
print_arguments zero args = skip
print_arguments (suc left) [] = skip
print_arguments (suc left) (a ∷ rest) = emit (printf " %s" (str a ∷ [])) (print_arguments left rest)

-- From `chroot` on; `args` are the root directory and the command with its arguments.
unfoldable pub enter : List String → Prog ℤ
enter args = required (sys "chroot" (str (arg args 0) ∷ [])) "mkuidns: Chroot failed" (pos 22) (
    required (sys "chdir" (str "/" ∷ [])) "mkuidns: Chdir to / failed" (pos 66) (
      required (sys "access" (str (arg args 1) ∷ str "F_OK" ∷ [])) "mkuidns: cmd does not exist"
        (negsuc 1)
        (required (sys "access" (str (arg args 1) ∷ str "X_OK" ∷ []))
          "mkuidns: No execute access to cmd" (negsuc 1)
          (print_arguments 10 (elim args [ [] ↦ [] | root ∷ cmdargs ↦ cmdargs ])
            >> emit (printf "\n" []) (
                ask (execve (arg args 1)) (λ a.
                  if eqb_ℤ a.result minus_one
                  then emit (perror "mkuidns: Execve failed") (exit (negsuc 1))
                  else replaced))))))

-- With MOUNTQEMU.
unfoldable pub childfunc : ℤ → List String → Prog ℤ
childfunc sock args =
    let rootdir = arg args 0 in
    emit (read sock 2) (
      emit (mkdir_below rootdir "lib64") (
        required (mount_below "/lib64" rootdir "lib64") "mkuidns: Mount of lib64 failed" (pos 11) (
          emit (mkdir_below rootdir "qemu") (
            required (mount_below "/u06/dsg/mountasqemu" rootdir "qemu")
              "mkuidns: Mount of qemu failed" (pos 12)
              (emit (mkdir_below rootdir "proc") (
                ask (mount_below "/proc" rootdir "proc") (λ a.
                  (if eqb_ℤ a.result (pos 0)
                    then skip
                    else emit (perror "mkuidns: Mount of proc failed") skip)
                  >> enter args)))))))
