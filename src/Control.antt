-- ===== src/Control.antt =====
-- controlthreads.c: a main that makes a pipe and a demon, waits for a child, and runs seven threads
-- of different kinds.
pub mod Threads
pub mod Main
pub mod Laws
pub mod Processes
mod Tests
use generic_tests.Common.{
  ℕ, zero, suc, ◌-◌, Bool, true, false, List, [], ◌∷◌, ltb, ◌==◌, ◌&&◌, if◌then◌else◌,
}
use generic_tests.Common.Int.{ℤ, pos, negsuc}

-- The value of a `char` with this byte, which is signed.
abbrev pub char_of : ℕ → ℤ
char_of b = if ltb b 128 then pos b else negsuc (255 - b)

abbrev pub byte_at : ℕ → List ℕ → ℕ
byte_at i [] = 0
byte_at zero (b ∷ bs) = b
byte_at (suc i) (b ∷ bs) = byte_at i bs

-- `strncmp(word, text, n) == 0` for a word of n bytes, none of them NUL.
abbrev pub starts_with : List ℕ → List ℕ → Bool
starts_with [] text = true
starts_with (c ∷ cs) [] = false
starts_with (c ∷ cs) (b ∷ bs) = c == b && starts_with cs bs

-- The word that ends the loops over the fake device and the fake file.
abbrev pub bingo : List ℕ
bingo = b'b' ∷ b'i' ∷ b'n' ∷ b'g' ∷ b'o' ∷ []
