-- ===== src/Registers/Laws.antt =====
-- The registers after arch_prctl.c, on a kernel that keeps them.
use generic_tests.Common.{ℕ, ◌≡◌, refl, String, List, [], ◌∷◌, true, ◌==◌, arith}
use generic_tests.Common.Int.{pos}
use generic_tests.Sys.{Answer, Arg, Prog, printf, ◌>>=◌}
use generic_tests.Sys.Run.{done}
use generic_tests.Sys.Serve.{Server, Achieves, Achieves->>=, Achieves-drive, drive}
use generic_tests.Registers.{
  get_command, set_command, read_original, set_and_check, set_quietly, print_result, gs_section,
  fs_section, test_val, feedface, check_gs, restore_gs, restore_fs,
}

abbrev pub success : List ℕ → Answer
success bytes = record { result = pos 0; status = 0; bytes = bytes }

-- What arch_prctl(2) promises of the two registers: reading one stores its value and changes
-- nothing, setting one succeeds and leaves the other alone, and a line leaves both alone.
pub record IsSegments {S : Type 0} (serve : Server S) (gs fs : S → ℕ) : Type 0 where
  pub get_gs : (s : S) → serve (get_command "ARCH_GET_GS") s ≡ (success (gs s ∷ []), s)
  pub get_fs : (s : S) → serve (get_command "ARCH_GET_FS") s ≡ (success (fs s ∷ []), s)
  pub set_gs : (v : ℕ) (s : S) → (serve (set_command "ARCH_SET_GS" v) s).0 ≡ success []
  pub gs_set : (v : ℕ) (s : S) → gs (serve (set_command "ARCH_SET_GS" v) s).1 ≡ v
  pub fs_kept : (v : ℕ) (s : S) → fs (serve (set_command "ARCH_SET_GS" v) s).1 ≡ fs s
  pub set_fs : (v : ℕ) (s : S) → (serve (set_command "ARCH_SET_FS" v) s).0 ≡ success []
  pub fs_set : (v : ℕ) (s : S) → fs (serve (set_command "ARCH_SET_FS" v) s).1 ≡ v
  pub gs_kept : (v : ℕ) (s : S) → gs (serve (set_command "ARCH_SET_FS" v) s).1 ≡ gs s
  pub gs_printed :
      (format : String) (args : List Arg) (s : S) → gs (serve (printf format args) s).1 ≡ gs s
  pub fs_printed :
      (format : String) (args : List Arg) (s : S) → fs (serve (printf format args) s).1 ≡ fs s

==-refl : (n : ℕ) → (n == n) ≡ true
==-refl n = ground arith

module _ {S : Type 0} (serve : Server S) (gs fs : S → ℕ) (kernel : IsSegments serve gs fs) where
  -- The two registers have these values.
  abbrev pub Holding : ℕ → ℕ → S → Type 0
  Holding v w s = (gs s ≡ v) × (fs s ≡ w)

  abbrev pub Leaves : ℕ → ℕ → ℕ → ℕ → S → Type 0
  Leaves r v w a s = (a ≡ r) × Holding v w s

  set_and_check-Achieves :
      (label : String) (value : ℕ) (expression line : String) (args : ℕ → List Arg) (w : ℕ) (s : S)
      → fs s ≡ w
      → Achieves serve (Leaves value value w) (set_and_check label value expression line args) s
  unfolding set_and_check print_result
  set_and_check-Achieves label value expression line args w s h =
      rw
        (
          Achieves,
          set_and_check,
          print_result,
          kernel.set_gs value s,
          kernel.get_gs,
          kernel.gs_printed,
          kernel.gs_set,
          ==-refl,
        )
        (
          refl,
          (simp (kernel.gs_printed, kernel.gs_set), simp (kernel.fs_printed, kernel.fs_kept, h)),
        )

  set_quietly-Achieves :
      (out value : ℕ) (expression : String) (v : ℕ) (s : S)
      → gs s ≡ v
      → Achieves serve (Leaves value v value) (set_quietly out value expression) s
  unfolding set_quietly
  set_quietly-Achieves out value expression v s h =
      rw (Achieves, set_quietly, kernel.get_fs, kernel.fs_set, ==-refl)
        (refl, (simp (kernel.gs_kept, h), kernel.fs_set value s))

  read_gs-Achieves :
      (s : S) → Achieves serve (Leaves (gs s) (gs s) (fs s)) (read_original "ARCH_GET_GS" "GS") s
  unfolding read_original
  read_gs-Achieves s =
      rw (Achieves, read_original, kernel.get_gs)
        (refl, (kernel.gs_printed _ _ s, kernel.fs_printed _ _ s))

  read_fs-Achieves :
      (s : S) → Achieves serve (Leaves (fs s) (gs s) (fs s)) (read_original "ARCH_GET_FS" "FS") s
  unfolding read_original
  read_fs-Achieves s =
      rw (Achieves, read_original, kernel.get_fs)
        (refl, (kernel.gs_printed _ _ s, kernel.fs_printed _ _ s))

  gs_section-Achieves : (s : S) → Achieves serve (Leaves (gs s) (gs s) (fs s)) gs_section s
  unfolding gs_section
  gs_section-Achieves s =
      Achieves->>= serve (Leaves (gs s) (gs s) (fs s)) (Leaves (gs s) (gs s) (fs s))
        (λ orig. check_gs >>= λ out. restore_gs orig)
        (λ orig s1 h1.
          Achieves->>= serve (Leaves test_val test_val (fs s)) (Leaves (gs s) (gs s) (fs s))
            (λ out. restore_gs orig)
            (λ out s2 h2. rw h1.0 (
              set_and_check-Achieves "ARCH_SET reset to orig" (gs s) "out_val == orig_val" _ _
                (fs s) s2 h2.1.1))
            check_gs s1
            (set_and_check-Achieves "ARCH_SET" test_val "out_val == test_val" _ _ (fs s) s1 h1.1.1))
        (read_original "ARCH_GET_GS" "GS") s (read_gs-Achieves s)

  fs_section-Achieves : (s : S) → Achieves serve (Leaves (fs s) (gs s) (fs s)) fs_section s
  unfolding fs_section
  fs_section-Achieves s =
      let check = set_quietly feedface test_val "out_val == test_val" in
      Achieves->>= serve (Leaves (fs s) (gs s) (fs s)) (Leaves (fs s) (gs s) (fs s))
        (λ orig. check >>= restore_fs orig)
        (λ orig s1 h1.
          Achieves->>= serve (Leaves test_val (gs s) test_val) (Leaves (fs s) (gs s) (fs s))
            (restore_fs orig)
            (λ out s2 h2.
              rw h1.0 (set_quietly-Achieves out (fs s) "out_val == orig_val" (gs s) s2 h2.1.0))
            check s1
            (set_quietly-Achieves feedface test_val "out_val == test_val" (gs s) s1 h1.1.0))
        (read_original "ARCH_GET_FS" "FS") s (read_fs-Achieves s)

  finished :
      (r v w : ℕ) (p : Prog ℕ) (s : S)
      → Achieves serve (Leaves r v w) p s
      → ((drive serve p s).0 ≡ done r []) × Holding v w (drive serve p s).1
  finished r v w p s h =
      let (a, (ended, (same, held))) = Achieves-drive serve (Leaves r v w) p s h in
      (rw (ended, same) refl, held)

  -- On a kernel that keeps its promises on the registers, each of the two parts returns, so that no
  -- `assert` of it fails, its last reading is the value from before, and both registers are left with
  -- their values from before.
  pub sections_restore :
      (s : S)
      → (((drive serve gs_section s).0 ≡ done (gs s) [])
          × Holding (gs s) (fs s) (drive serve gs_section s).1)
        × (((drive serve fs_section s).0 ≡ done (fs s) [])
            × Holding (gs s) (fs s) (drive serve fs_section s).1)
  sections_restore s = (
    finished (gs s) (gs s) (fs s) gs_section s (gs_section-Achieves s),
    finished (fs s) (gs s) (fs s) fs_section s (fs_section-Achieves s),
  )
