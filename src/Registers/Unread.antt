-- ===== src/Registers/Unread.antt =====
-- GS after arch_prctl.c, on a kernel that sets the register and does not read it.
use generic_tests.Common.{ℕ, ◌≡◌, refl, String, List, []}
use generic_tests.Common.Int.{pos, minus_one}
use generic_tests.Sys.{Arg, printf, sys}
use generic_tests.Sys.Run.{faulted}
use generic_tests.Sys.Serve.{Server, drive}
use generic_tests.Registers.{
  get_command, set_command, read_original, set_and_check, print_result, gs_section, test_val,
}

pub record IsUnread {S : Type 0} (serve : Server S) (gs : S → ℕ) : Type 0 where
  pub get_gs :
      (s : S)
      → serve (get_command "ARCH_GET_GS") s
        ≡ (record { result = minus_one; status = 0; bytes = [] }, s)
  pub set_gs :
      (v : ℕ) (s : S)
      → (serve (set_command "ARCH_SET_GS" v) s).0
        ≡ record { result = pos 0; status = 0; bytes = [] }
  pub gs_set : (v : ℕ) (s : S) → gs (serve (set_command "ARCH_SET_GS" v) s).1 ≡ v
  pub gs_printed :
      (format : String) (args : List Arg) (s : S) → gs (serve (printf format args) s).1 ≡ gs s
  pub errno_kept : (args : List Arg) (s : S) → gs (serve (sys "errno" args) s).1 ≡ gs s
  pub strerror_kept : (args : List Arg) (s : S) → gs (serve (sys "strerror" args) s).1 ≡ gs s
  pub assert_kept : (args : List Arg) (s : S) → gs (serve (sys "__assert_fail" args) s).1 ≡ gs s

-- Where GS can be set and not be read, the part on GS ends in a failed `assert`, and the register is
-- left with the value of the test.
pub unread_gs :
    {S : Type 0} (serve : Server S) (gs : S → ℕ) (s : S)
    → IsUnread serve gs
    → ((drive serve gs_section s).0 ≡ faulted 6) × (gs (drive serve gs_section s).1 ≡ test_val)
unfolding gs_section read_original set_and_check print_result drive
unread_gs serve gs s kernel = (
  rw (drive, kernel.get_gs, kernel.set_gs, kernel.get_gs) refl,
  rw (drive, kernel.get_gs, kernel.set_gs, kernel.get_gs)
      (simp (
        kernel.assert_kept, kernel.gs_printed, kernel.strerror_kept, kernel.errno_kept,
        kernel.gs_set,
      )),
)
