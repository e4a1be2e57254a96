-- ===== src/Shm/Laws.antt =====
-- What `fill_buffer` puts in the segment.
use generic_tests.Common.{
  ℕ, zero, suc, ◌+◌, ◌-◌, ◌%◌, ◌≤◌, ◌≡◌, refl, ap, false, [], ◌∷◌, ◌++◌, arith, length, replicate,
  length-append, length-replicate, ◌==◌,
}
use generic_tests.Threads.{strlen, text_of}
use generic_tests.Shm.{wrap, fill_buffer}

strlen-replicate :
    (n c : ℕ)
    → 1 ≤ c
    → (strlen (replicate n c ++ 0 ∷ []) ≡ n) × (text_of (replicate n c ++ 0 ∷ []) ≡ replicate n c)
strlen-replicate zero c ge = (refl, refl)
strlen-replicate (suc n) c ge =
    let rest = strlen-replicate n c ge in rw (not_nul c ge) (ap suc rest.0, ap (λ l. c ∷ l) rest.1)
  where
    not_nul : (b : ℕ) → 1 ≤ b → (b == 0) ≡ false
    not_nul b le = ground arith

-- The `ch` before the call number k, where the first has number 0.
unfoldable pub ch_at : ℕ → ℕ
ch_at zero = 65
ch_at (suc k) = (fill_buffer (ch_at k) 1024).ch

wrap_step : (k : ℕ) → wrap (66 + k % 26) + 1 ≡ 66 + suc k % 26
wrap_step k = by_rest (k % 26) (omega arith)
  where
    by_rest : (m : ℕ) → m ≡ k % 26 → wrap (66 + m) + 1 ≡ 66 + suc k % 26
    by_rest m e = ground arith

-- The call number k of `fill_buffer` finds 'A' for k = 0, and then over and over again the 26 bytes
-- from 'B' to '[': the bracket is written, and neither 'A' again nor a small letter ever is.
pub ch_at_lem : (k : ℕ) → ch_at (suc k) ≡ 66 + k % 26
unfolding ch_at fill_buffer
ch_at_lem zero = refl
ch_at_lem (suc k) = rw (ch_at_lem k) (wrap_step k)

ch_at_positive : (k : ℕ) → 1 ≤ ch_at k
unfolding ch_at
ch_at_positive zero = omega arith
ch_at_positive (suc k) = omega (arith, ch_at_lem k)

-- Each call of `fill_buffer` with room for a byte and its NUL writes copies of one byte, which is not
-- NUL, over all but the last place, and gives their number.
pub fill_buffer_lem :
    (k size : ℕ)
    → 1 ≤ size
    → ((fill_buffer (ch_at k) size).count + 1 ≡ size)
      × (text_of (fill_buffer (ch_at k) size).buffer ≡ replicate (size - 1) (ch_at k))
      × (length (fill_buffer (ch_at k) size).buffer ≡ size)
unfolding fill_buffer
fill_buffer_lem k size ge =
    let text = strlen-replicate (size - 1) (ch_at k) (ch_at_positive k) in
    (
      omega (arith, text.0),
      text.1,
      omega (
        arith,
        length-append (replicate (size - 1) (ch_at k)) (0 ∷ []),
        length-replicate (size - 1) (ch_at k),
      ),
    )
