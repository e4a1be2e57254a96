-- ===== src/Call64/Laws.antt =====
-- The loop over the records gives back the entries that were laid out, as the manual of
-- `getdents64` lays them out.
use generic_tests.Common.{
  ℕ, zero, suc, ◌+◌, ◌*◌, ◌%◌, ◌/◌, ◌^◌, ◌≤◌, ◌<◌, ◌≡◌, refl, ap, true, false, List, [], ◌∷◌, ◌++◌,
  arith, length, drop, ltb, ◌==◌, All, length-append, lt→ltb, le→ltb,
}
use mathlib.Core.List.{append_assoc}
use native.Mathlib.Nat.{pow-suc}
use generic_tests.Sys.{Answer, Call, printf, text, nat, int}
use generic_tests.Sys.Run.{Event, did, run, done, add}
use generic_tests.Threads.{text_of}
use generic_tests.Call64.Dirents.{little, signed64, d_ino, d_off, d_reclen, d_name, walk}

-- The k bytes of a number, the lowest first.
abbrev pub bytes_of : ℕ → ℕ → List ℕ
bytes_of zero n = []
bytes_of (suc k) n = n % 256 ∷ bytes_of k (n / 256)

quotient-lt : (n m : ℕ) → n < 256 * m → n / 256 < m
quotient-lt n m lt = omega arith

pub little-bytes_of : (k n : ℕ) → n < 256 ^ k → little (bytes_of k n) ≡ n
little-bytes_of zero n lt = omega (arith, lt)
little-bytes_of (suc k) n lt = omega (
  arith,
  little-bytes_of k (n / 256) (quotient-lt n (256 ^ k) (omega (arith, lt, pow-suc 256 k))),
)

-- An entry, with what fills its record up behind the NUL of the name.
pub record Entry : Type 0 where
  pub ino : ℕ
  pub off : ℕ
  pub kind : ℕ
  pub name : List ℕ
  pub padding : List ℕ

abbrev pub record_length : Entry → ℕ
record_length e = 20 + length e.name + length e.padding

unfoldable pub layout : Entry → List ℕ
layout e =
    bytes_of 8 e.ino
    ++ (bytes_of 8 e.off ++ (bytes_of 2 (record_length e) ++ (e.kind ∷ e.name ++ 0 ∷ e.padding)))

abbrev pub layouts : List Entry → List ℕ
layouts [] = []
layouts (e ∷ es) = layout e ++ layouts es

pub record IsEntry (e : Entry) : Type 0 where
  pub ino_fits : e.ino < 2 ^ 64
  pub off_fits : e.off < 2 ^ 64
  pub length_fits : record_length e < 2 ^ 16
  pub no_nul : All (λ c. (c == 0) ≡ false) e.name

-- The line for an entry.
abbrev pub entry_line : Entry → Call
entry_line e =
    printf "  d_name=%s, ino=%PRIu64, d_off=%PRId64\n"
      (text e.name ∷ nat e.ino ∷ int (signed64 e.off) ∷ [])

abbrev pub entry_lines : List Entry → List Event
entry_lines [] = []
entry_lines (e ∷ es) = did (entry_line e) ∷ entry_lines es

text_of-nul :
    (name rest : List ℕ) → All (λ c. (c == 0) ≡ false) name → text_of (name ++ 0 ∷ rest) ≡ name
text_of-nul [] rest h = refl
text_of-nul (c ∷ cs) rest h = rw h.0 (ap (λ l. c ∷ l) (text_of-nul cs rest h.1))

drop-length : (xs ys : List ℕ) → drop (length xs) (xs ++ ys) ≡ ys
drop-length [] ys = refl
drop-length (x ∷ xs) ys = drop-length xs ys

-- What the loop reads at the start of a laid out entry.
layout-fields :
    (e : Entry) (rest : List ℕ)
    → IsEntry e
    → (d_ino (layout e ++ rest) ≡ e.ino)
      × (d_off (layout e ++ rest) ≡ e.off)
      × (d_reclen (layout e ++ rest) ≡ record_length e)
      × (d_name (layout e ++ rest) ≡ e.name)
unfolding layout
layout-fields e rest h = (
  little-bytes_of 8 e.ino (omega (arith, h.ino_fits)),
  little-bytes_of 8 e.off (omega (arith, h.off_fits)),
  little-bytes_of 2 (record_length e) (omega (arith, h.length_fits)),
  rw append_assoc (text_of-nul e.name (e.padding ++ rest) h.no_nul),
)

layout-length : (e : Entry) → length (layout e) ≡ record_length e
unfolding layout
layout-length e = omega (arith, length-append e.name (0 ∷ e.padding))

walk_end :
    (fuel : ℕ) (dbuf : List ℕ) (bpos nread : ℕ) (s : List Answer)
    → nread ≤ bpos
    → run (walk (suc fuel) dbuf bpos nread) s ≡ record { events = []; outcome = done tt s }
unfolding walk run
walk_end fuel dbuf bpos nread s over = rw (le→ltb bpos nread over)

-- One round of the loop.
walk_round :
    (fuel : ℕ) (dbuf : List ℕ) (bpos nread : ℕ) (d : List ℕ) (s : List Answer)
    → drop bpos dbuf ≡ d
    → ltb bpos nread ≡ true
    → run (walk (suc fuel) dbuf bpos nread) s
      ≡ add
          (did (
            printf "  d_name=%s, ino=%PRIu64, d_off=%PRId64\n"
              (text (d_name d) ∷ nat (d_ino d) ∷ int (signed64 (d_off d)) ∷ [])))
          (run (walk fuel dbuf (bpos + d_reclen d) nread) s)
unfolding walk run
walk_round fuel dbuf bpos nread d s at below = rw (at, below)

-- The loop from an entry on, behind the bytes of those before it.
walk-layouts :
    (fuel : ℕ) (dbuf : List ℕ) (bpos nread : ℕ) (before : List ℕ) (es : List Entry)
    (s : List Answer)
    → dbuf ≡ before ++ layouts es
    → bpos ≡ length before
    → nread ≡ bpos + length (layouts es)
    → All IsEntry es
    → length es < fuel
    → run (walk fuel dbuf bpos nread) s ≡ record { events = entry_lines es; outcome = done tt s }
walk-layouts zero dbuf bpos nread before es s buf at end h lt = absurd (omega arith)
walk-layouts (suc fuel) dbuf bpos nread before [] s buf at end h lt =
    walk_end fuel dbuf bpos nread s (omega arith)
walk-layouts (suc fuel) dbuf bpos nread before (e ∷ es) s buf at end h lt =
    let (ino, off, reclen, name) = layout-fields e (layouts es) h.0 in
    let size = layout-length e in
    rw (
      walk_round fuel dbuf bpos nread (layout e ++ layouts es) s
          (rw (buf, at) (drop-length before (layout e ++ layouts es)))
          (lt→ltb bpos nread (omega (arith, end, size, length-append (layout e) (layouts es)))),
      ino,
      off,
      reclen,
      name,
      walk-layouts fuel dbuf (bpos + record_length e) nread (before ++ layout e) es s
          (rw (buf, append_assoc)) (omega (arith, at, size, length-append before (layout e)))
          (omega (arith, end, size, length-append (layout e) (layouts es))) h.1 (omega arith),
    )

-- On the bytes of any entries, laid out one behind the other, the loop prints the name, the inode
-- number and the offset of each in order, and ends, if its fuel is more than the number of entries.
pub walk_lem :
    (fuel : ℕ) (es : List Entry) (s : List Answer)
    → All IsEntry es
    → length es < fuel
    → run (walk fuel (layouts es) 0 (length (layouts es))) s
      ≡ record { events = entry_lines es; outcome = done tt s }
walk_lem fuel es s h lt =
    walk-layouts fuel (layouts es) 0 (length (layouts es)) [] es s refl refl (omega arith) h lt
