-- ===== src/Namespace/Laws.antt =====
-- The line of an id map, read back.
use generic_tests.Common.{
  take_all, ℕ, zero, suc, ◌+◌, ◌-◌, ◌*◌, ◌/◌, ◌%◌, ◌≤◌, ◌<◌, ◌^◌, ◌≡◌, refl, inl, inr, List, [],
  ◌∷◌, ◌++◌, arith, ltb, Bool-cases, length, length-append, length-replicate, replicate, take,
  take_all,
}
use generic_tests.Common.Int.{pos}
use generic_tests.Clock.Laws.{to_int-small}
use generic_tests.Namespace.Ids.{decimal, six_digits, id_line}

-- The value of decimal digits, after digits of the value `acc`.
unfoldable pub value : ℕ → List ℕ → ℕ
value acc [] = acc
value acc (d ∷ ds) = value (acc * 10 + (d - 48)) ds

value-append : (acc : ℕ) (xs ys : List ℕ) → value acc (xs ++ ys) ≡ value (value acc xs) ys
unfolding value
value-append acc [] ys = refl
value-append acc (x ∷ xs) ys = value-append (acc * 10 + (x - 48)) xs ys

value-zeros : (j : ℕ) → value 0 (replicate j 48) ≡ 0
unfolding value
value-zeros zero = refl
value-zeros (suc j) = value-zeros j

tenth : (k n : ℕ) → n < 10 ^ suc k → n / 10 < 10 ^ k
tenth k n small = omega arith

-- Enough fuel gives a number of `suc k` digits at most its value and its length.
value-decimal : (fuel n : ℕ) → n < 10 ^ fuel → value 0 (decimal fuel n) ≡ n
unfolding decimal value
value-decimal zero n small = omega arith
value-decimal (suc fuel) n small = elim (Bool-cases (ltb n 10)) [
  | inl e ↦ rw e (omega arith)
  | inr e ↦
      rw
        (
          e,
          value-append 0 (decimal fuel (n / 10)) ((48 + n % 10) ∷ []),
          value-decimal fuel (n / 10) (tenth fuel n small),
        )
        (omega arith)
]

length-decimal : (fuel k n : ℕ) → n < 10 ^ suc k → length (decimal fuel n) ≤ suc k
unfolding decimal
length-decimal zero k n small = omega arith
length-decimal (suc fuel) zero n small = elim (Bool-cases (ltb n 10)) [
  | inl e ↦ rw e (omega arith)
  | inr e ↦ ground arith
]
length-decimal (suc fuel) (suc k) n small = elim (Bool-cases (ltb n 10)) [
  | inl e ↦ rw e (omega arith)
  | inr e ↦
      rw (e, length-append (decimal fuel (n / 10)) ((48 + n % 10) ∷ []))
        (omega (arith, length-decimal fuel k (n / 10) (tenth (suc k) n small)))
]

length-six_digits : (n : ℕ) → n < 1000000 → length (six_digits (pos n)) ≡ 6
unfolding six_digits
length-six_digits n small =
    rw
      (
        length-append (replicate (6 - length (decimal 10 n)) 48) (decimal 10 n),
        length-replicate {A = ℕ} (6 - length (decimal 10 n)) 48,
      )
      (omega (arith, length-decimal 10 5 n small))

value-six_digits : (n : ℕ) → n < 1000000 → value 0 (six_digits (pos n)) ≡ n
unfolding six_digits
value-six_digits n small =
    rw
      (
        value-append 0 (replicate (6 - length (decimal 10 n)) 48) (decimal 10 n),
        value-zeros (6 - length (decimal 10 n)),
      )
      (value-decimal 10 n (omega (arith, small)))

-- An id below a million is written as six digits that are its value, and the eleven bytes that are
-- written are the whole line, with its newline.
pub id_line_lem :
    (n : ℕ)
    → n < 1000000
    → (take 11 (id_line (pos n)) ≡ id_line (pos n))
      × (length (six_digits (pos n)) ≡ 6)
      × (value 0 (six_digits (pos n)) ≡ n)
unfolding id_line
id_line_lem n small = (
  take_all 11 _ (
      rw
        (
          to_int-small n (omega arith),
          length-append (six_digits (pos n)) (b' ' ∷ b'1' ∷ 10 ∷ []),
          length-six_digits n small,
        )
        (omega arith)),
  length-six_digits n small,
  value-six_digits n small,
)
