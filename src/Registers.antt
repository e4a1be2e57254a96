-- ===== src/Registers.antt =====
-- arch_prctl.c: the registers GS and FS set and set back, and the other commands tried.
pub mod Laws
pub mod Unread
mod Tests
use generic_tests.Common.{ℕ, zero, suc, String, Bool, List, [], ◌∷◌, ◌==◌, if◌then◌else◌, not, ◌&&◌}
use generic_tests.Common.Int.{ℤ, pos, minus_one, eqb_ℤ}
use generic_tests.Sys.{
  Answer, nat, int, str, text, Arg, Call, Prog, ret, killed, emit, ask, skip, call, ◌>>=◌, ◌>>◌,
  print, sys,
}

-- Which of the names that the source tests are defined, and the number of the system call.
pub record Macros : Type 0 where
  pub number : ℕ
  pub set_gs : Bool
  pub get_gs : Bool
  pub set_fs : Bool
  pub get_fs : Bool
  pub cpuid : Bool
  pub map_vdso : Bool
  pub get_l1i : Bool
  pub get_l1d : Bool
  pub set_l1i : Bool
  pub set_l1d : Bool
  pub get_xcomp_supp : Bool
  pub set_xcomp : Bool
  pub get_xcomp : Bool
  pub get_xstate_size : Bool
  pub get_kernel_bp : Bool
  pub set_kernel_bp : Bool

-- `print_result`
unfoldable pub print_result : String → ℤ → Prog (Unit {0})
print_result name r =
    if eqb_ℤ r minus_one
    then ask (sys "errno" []) (λ e. ask (sys "strerror" (int e.result ∷ [])) (λ m.
      print "%-28s -> retval=-1 errno=%d (%s)\n" (str name ∷ int e.result ∷ text m.bytes ∷ [])))
    else print "%-28s -> retval=%ld\n" (str name ∷ int r ∷ [])

-- `syscall(SYS_arch_prctl, cmd, ptr)` and `syscall(SYS_arch_prctl, cmd, value)`
abbrev pub get_command : String → Call
get_command cmd = sys "arch_prctl" (str cmd ∷ str "ptr" ∷ [])

abbrev pub set_command : String → ℕ → Call
set_command cmd value = sys "arch_prctl" (str cmd ∷ nat value ∷ [])

-- The variable behind the pointer, which keeps its value where the call stores nothing.
abbrev pub stored : ℕ → Answer → ℕ
stored old a = elim a.bytes [ [] ↦ old | v ∷ _ ↦ v ]

abbrev pub test_val : ℕ
test_val = 0xdeadbeef

abbrev pub feedface : ℕ
feedface = 0xfeedface

-- `assert`
abbrev pub ensure : String → Bool → Prog (Unit {0})
ensure expression b =
    if b then skip else emit (sys "__assert_fail" (str expression ∷ [])) (killed 6)

-- The first reading of a register, with the value that is left in `orig_val`.
unfoldable pub read_original : String → String → Prog ℕ
read_original getcmd name = ask (get_command getcmd) (λ a.
    (if eqb_ℤ a.result (pos 0)
      then print "orig  -> %s = 0x%lx\n" (str name ∷ nat (stored feedface a) ∷ [])
      else print_result "ARCH_GET" a.result)
    >> ret (stored feedface a))

-- GS set to a value, with the line on it, and read back.
unfoldable pub set_and_check : String → ℕ → String → String → (ℕ → List Arg) → Prog ℕ
set_and_check label value expression line args = do
  s ← call (set_command "ARCH_SET_GS" value)
  print_result label s.result
  a ← call (get_command "ARCH_GET_GS")
  print_result "ARCH_GET" a.result
  ensure expression (stored feedface a == value)
  if eqb_ℤ a.result (pos 0) then print line (args (stored feedface a)) else skip
  ret (stored feedface a)

abbrev pub check_gs : Prog ℕ
check_gs =
    set_and_check "ARCH_SET" test_val "out_val == test_val" "check set  -> GS = 0x%lx\n"
      (λ v. nat v ∷ [])

abbrev pub restore_gs : ℕ → Prog ℕ
restore_gs orig_val =
    set_and_check "ARCH_SET reset to orig" orig_val "out_val == orig_val"
      "check restored  -> %s = 0x%lx\n" (λ v. str "GS" ∷ nat v ∷ [])

-- The two parts end with the value of `out_val`.
unfoldable pub gs_section : Prog ℕ
gs_section =
    read_original "ARCH_GET_GS" "GS" >>= λ orig_val. (check_gs >>= λ out_val. restore_gs orig_val)

-- FS set to a value and read back; `out_val` has its value from before.
unfoldable pub set_quietly : ℕ → ℕ → String → Prog ℕ
set_quietly out_val value expression = do
  s ← call (set_command "ARCH_SET_FS" value)
  a ← call (get_command "ARCH_GET_FS")
  ensure expression (stored out_val a == value)
  ret (stored out_val a)

abbrev pub restore_fs : ℕ → ℕ → Prog ℕ
restore_fs orig_val out_val = set_quietly out_val orig_val "out_val == orig_val"

unfoldable pub fs_section : Prog ℕ
fs_section = read_original "ARCH_GET_FS" "FS" >>= λ orig_val.
    (set_quietly feedface test_val "out_val == test_val" >>= restore_fs orig_val)

-- Four words, where a call stores less.
abbrev pub four : List ℕ → List Arg
four bytes = nat (word 0 bytes) ∷ nat (word 1 bytes) ∷ nat (word 2 bytes) ∷ nat (word 3 bytes) ∷ []
  where
    word : ℕ → List ℕ → ℕ
    word i [] = 0
    word zero (w ∷ ws) = w
    word (suc i) (w ∷ ws) = word i ws

unfoldable pub cpuid_section : Prog (Unit {0})
cpuid_section = do
  a ← call (get_command "ARCH_GET_CPUID")
  print_result "ARCH_GET_CPUID" a.result
  print "orig  -> cpuid[0..3] = %lx %lx %lx %lx\n" (four a.bytes)
  s ← call (sys "arch_prctl" (str "ARCH_SET_CPUID" ∷ nat 1 ∷ nat 2 ∷ nat 3 ∷ nat 4 ∷ []))
  print_result "ARCH_SET_CPUID" s.result
  b ← call (get_command "ARCH_GET_CPUID")
  print_result "ARCH_GET_CPUID" b.result
  print "new  -> cpuid[0..3] = %lx %lx %lx %lx\n" (four b.bytes)

-- A command that is tried where it is defined; a reading one gives the new value of `out_val`.
abbrev pub try_get : Bool → String → ℕ → Prog ℕ
try_get defined cmd out_val =
    if defined
    then ask (get_command cmd) (λ a. print_result cmd a.result >> ret (stored out_val a))
    else ret out_val

abbrev pub try_set : Bool → String → ℕ → Prog (Unit {0})
try_set defined cmd value =
    if defined then ask (set_command cmd value) (λ a. print_result cmd a.result) else skip

abbrev pub xstate_size : Bool → ℕ → Prog ℕ
xstate_size defined out_val =
    if defined
    then ask (get_command "ARCH_GET_XSTATE_SIZE") (λ a.
      print_result "ARCH_GET_XSTATE_SIZE" a.result
      >> ((if eqb_ℤ a.result (pos 0)
            then print "  -> xstate size = %lu\n" (nat (stored out_val a) ∷ [])
            else skip)
          >> ret (stored out_val a)))
    else ret out_val

-- The rarer commands.
unfoldable pub probes : Macros → ℕ → Prog (Unit {0})
probes m out_val = do
  if m.map_vdso
      then ask (set_command "ARCH_MAP_VDSO" 0) (λ a. print_result "ARCH_MAP_VDSO" a.result)
      else print "ARCH_MAP_VDSO not defined on this build (skipping)\n" []
  l1i ← try_get m.get_l1i "ARCH_GET_L1I" out_val
  l1d ← try_get m.get_l1d "ARCH_GET_L1D" l1i
  try_set m.set_l1i "ARCH_SET_L1I" test_val
  try_set m.set_l1d "ARCH_SET_L1D" test_val
  supp ← try_get m.get_xcomp_supp "ARCH_GET_XCOMP_SUPP" l1d
  try_set m.set_xcomp "ARCH_SET_XCOMP" test_val
  comp ← try_get m.get_xcomp "ARCH_GET_XCOMP" supp
  size ← xstate_size m.get_xstate_size comp
  bp ← try_get m.get_kernel_bp "ARCH_GET_KERNEL_BP" size
  try_set m.set_kernel_bp "ARCH_SET_KERNEL_BP" test_val

unfoldable pub arch_prctl_main : Macros → Prog ℤ
arch_prctl_main m = do
  print "arch_prctl exercise program\n" []
  print "Using syscall number SYS_arch_prctl = %d\n" (nat m.number ∷ [])
  after_gs ←
      if m.get_gs && m.set_gs
      then gs_section
      else (print "ARCH_SET_GS not defined on this build (skipping)\n" [] >> ret 0)
  after_fs ←
      if m.get_fs && m.set_fs
      then fs_section
      else (print "ARCH_GET/SET_GS not defined on this build (skipping)\n" [] >> ret after_gs)
  if m.cpuid
      then cpuid_section
      else print "ARCH_GET/SET_CPUID not defined on this build (skipping)\n" []
  probes m after_fs
  if not m.set_gs && not m.get_gs && not m.set_fs && not m.get_fs
      then print
          "No common ARCH_* macros detected at compile time. Check your kernel headers (/usr/include/asm/prctl.h or /usr/include/linux/prctl.h).\n"
          []
      else skip
  print "Finished arch_prctl probes.\n" []
  ret (pos 0)
