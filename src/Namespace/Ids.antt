-- ===== src/Namespace/Ids.antt =====
-- The line of an id map, `sprintf(…,"0 %06d 1\n",…)`.
use generic_tests.Common.{
  ℕ, zero, suc, ◌+◌, ◌-◌, ◌/◌, ◌%◌, List, [], ◌∷◌, ◌++◌, ltb, if◌then◌else◌, length, replicate,
}
use generic_tests.Common.Int.{ℤ, pos, negsuc, pos_part}
use generic_tests.Clock.{to_int}

-- The decimal digits of a number, on fuel for one digit each.
unfoldable pub decimal : ℕ → ℕ → List ℕ
decimal zero n = []
decimal (suc fuel) n =
    let rest = decimal fuel (n / 10) in
    if ltb n 10 then (48 + n) ∷ [] else rest ++ (48 + n % 10) ∷ []

-- `%06d`, with the zeros after the sign; ten digits are enough for an `int`.
unfoldable pub six_digits : ℤ → List ℕ
six_digits (pos n) = replicate (6 - length (decimal 10 n)) 48 ++ decimal 10 n
six_digits (negsuc n) =
    b'-' ∷ (replicate (5 - length (decimal 10 (suc n))) 48 ++ decimal 10 (suc n))

-- The id is unsigned and is printed as an `int`.
unfoldable pub id_line : ℤ → List ℕ
id_line n = b'0' ∷ b' ' ∷ (six_digits (to_int (pos_part n)) ++ b' ' ∷ b'1' ∷ 10 ∷ [])
