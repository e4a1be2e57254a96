-- ===== src/Registers/Tests.antt =====
-- A kernel with the two registers.
use text.Mathlib.Text.{◌==◌}
use generic_tests.Common.{ℕ, ◌≡◌, refl, String, List, [], ◌∷◌, if◌then◌else◌}
use generic_tests.Common.Int.{minus_one}
use generic_tests.Sys.{Arg, Call, Answer}
use generic_tests.Sys.Run.{done, faulted}
use generic_tests.Sys.Serve.{Server, drive}
use generic_tests.Registers.{gs_section, fs_section, test_val}
use generic_tests.Registers.Laws.{success, IsSegments, Holding, sections_restore}
use generic_tests.Registers.Unread.{unread_gs}

-- The state is the values of GS and FS.
abbrev registered : String → List Arg → ℕ × ℕ → Answer × (ℕ × ℕ)
registered cmd args s =
    if cmd == "ARCH_GET_GS"
    then (success (s.0 ∷ []), s)
    else if cmd == "ARCH_GET_FS"
    then (success (s.1 ∷ []), s)
    else if cmd == "ARCH_SET_GS"
    then (success [], (value args, s.1))
    else if cmd == "ARCH_SET_FS"
    then (success [], (s.0, value args))
    else (success [], s)
  where
    value : List Arg → ℕ
    value (Arg.nat v ∷ rest) = v
    value rest = 0

abbrev registers : Server (ℕ × ℕ)
registers (Call.sys name (Arg.str cmd ∷ args)) s =
    if name == "arch_prctl" then registered cmd args s else (success [], s)
registers c s = (success [], s)

registers-IsSegments : IsSegments registers (λ s. s.0) (λ s. s.1)
registers-IsSegments = record {
  get_gs = λ s. refl;
  get_fs = λ s. refl;
  set_gs = λ v s. refl;
  gs_set = λ v s. refl;
  fs_kept = λ v s. refl;
  set_fs = λ v s. refl;
  fs_set = λ v s. refl;
  gs_kept = λ v s. refl;
  gs_printed = λ format args s. refl;
  fs_printed = λ format args s. refl;
}

sections_restore_example :
    (((drive registers gs_section (5, 6)).0 ≡ done 5 [])
      × Holding registers
          (λ s. s.0)
          (λ s. s.1)
          registers-IsSegments
          5
          6
          (drive registers gs_section (5, 6)).1)
    × (((drive registers fs_section (5, 6)).0 ≡ done 6 [])
        × Holding registers
            (λ s. s.0)
            (λ s. s.1)
            registers-IsSegments
            5
            6
            (drive registers fs_section (5, 6)).1)
sections_restore_example =
    sections_restore registers (λ s. s.0) (λ s. s.1) registers-IsSegments (5, 6)

-- GS, which can be set only. The texts of the C library are empty.
abbrev only_set : List Arg → ℕ → Answer × ℕ
only_set (Arg.str cmd ∷ Arg.nat v ∷ []) s =
    if cmd == "ARCH_SET_GS" then (success [], v) else (success [], s)
only_set args s = (record { result = minus_one; status = 0; bytes = [] }, s)

abbrev write_only : Server ℕ
write_only (Call.sys name args) s =
    if name == "arch_prctl" then only_set args s else (success [], s)
write_only c s = (success [], s)

unread_gs_example :
    ((drive write_only gs_section 5).0 ≡ faulted 6) × ((drive write_only gs_section 5).1 ≡ test_val)
unread_gs_example =
    unread_gs write_only (λ s. s) 5
      (record {
        get_gs = λ s. refl;
        set_gs = λ v s. refl;
        gs_set = λ v s. refl;
        gs_printed = λ format args s. refl;
        errno_kept = λ args s. refl;
        strerror_kept = λ args s. refl;
        assert_kept = λ args s. refl;
      })
