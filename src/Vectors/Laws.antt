-- ===== src/Vectors/Laws.antt =====
-- What iovec_demo.c shows of the bytes that it reads.
use generic_tests.Common.{
  ltb→lt, ltb→le, String, ℕ, zero, suc, ◌+◌, ◌≤◌, ◌≡◌, refl, sym, ap, ◌∙◌, inl, inr, false, List,
  [], ◌∷◌, ◌++◌, arith, ltb, ◌==◌, Bool-cases, length, take, drop, take_all, drop_all, take-nil,
  length-drop, length-take, take-append_at, drop-append_at, drop-drop, take-append-drop, All,
  replicate,
}
use mathlib.Core.List.{append_assoc, append-nil}
use generic_tests.Common.Int.{ℤ, pos}
use generic_tests.Sys.{Answer, int, nat, str, text, sys, printf, close}
use generic_tests.Sys.Run.{Event, Trace, did, got, done, run}
use generic_tests.Threads.{text_of}
use generic_tests.Message.{refill, shown_text}
use generic_tests.Message.Laws.{text_of-append}
use generic_tests.Vectors.{scatter, b1, b2, read_back, preadv_back, recv_back}

-- The bytes fit in the first part, or they reach the second.
short_scatter :
    (a b : ℕ) (d old : List ℕ)
    → length d ≤ a
    → scatter (record { offset = 0; size = a } ∷ record { offset = a; size = b } ∷ []) d old
      ≡ refill d old
unfolding scatter
short_scatter a b d old h =
    let none_added : 0 + length d ≡ length d = omega arith in
    let none_written : a + 0 ≡ a = omega arith in
    rw (take_all a d h, drop_all a d h, take-nil b, none_added, none_written)
      (take-append-drop a (refill d old))

long_scatter :
    (a b : ℕ) (d old : List ℕ)
    → a ≤ length d
    → length d ≤ a + b
    → scatter (record { offset = 0; size = a } ∷ record { offset = a; size = b } ∷ []) d old
      ≡ refill d old
unfolding scatter
long_scatter a b d old reaches fits =
    let x = take a d in
    let y = drop a d in
    let size : length x ≡ a = length-take a d reaches in
    let all : length d ≡ (0 + length x) + length y = omega (arith, size, length-drop a d) in
    let z = drop (length d) old in
    rw
      (
        take_all b (drop a d) (omega (arith, length-drop a d)),
        take-append_at a (take a d) (drop (0 + length x) old) size,
        drop-append_at (a + length y) (length y) (take a d) (drop (0 + length x) old)
            (omega (arith, size)),
        drop-drop (length d) (0 + length x) (length y) old all,
      )
      (sym (append_assoc x y z) ∙ ap (λ l. l ++ z) (take-append-drop a d))

-- Bytes read into two parts of a buffer, of which the second begins where the first ends, lie as
-- after one read into the whole buffer, where the two parts are large enough for them.
scatter_contiguous :
    (a b : ℕ) (d old : List ℕ)
    → length d ≤ a + b
    → scatter (record { offset = 0; size = a } ∷ record { offset = a; size = b } ∷ []) d old
      ≡ refill d old
scatter_contiguous a b d old fits = elim (Bool-cases (ltb a (length d))) [
  | inl e ↦ long_scatter a b d old (omega (arith, ltb→lt a (length d) e)) fits
  | inr e ↦ short_scatter a b d old (ltb→le a (length d) e)
]

abbrev pub HasNoNul : List ℕ → Type 0
HasNoNul = All (λ c. (c == 0) ≡ false)

text_of-all : (d : List ℕ) → HasNoNul d → text_of d ≡ d
text_of-all [] h = refl
text_of-all (c ∷ cs) h = rw h.0 (ap (λ l. c ∷ l) (text_of-all cs h.1))

-- A line with the number of bytes shows these bytes.
shown_bytes : (d old : List ℕ) → HasNoNul d → shown_text (length d) (refill d old) ≡ d
shown_bytes d old h = rw (take-append_at (length d) d (drop (length d) old) refl) (text_of-all d h)

-- What a reading call gives.
abbrev pub reading : List ℕ → Answer
reading d = record { result = pos (length d); status = 0; bytes = d }

abbrev pub flushed : Event
flushed = did (sys "fflush" (str "NULL" ∷ []))

abbrev pub buffer_line : String → List ℕ → Event
buffer_line tag d = did (printf "%s: [%.*s]\n" (str tag ∷ nat (length d) ∷ text d ∷ []))

abbrev pub ending : ℤ → ℤ → List Event
ending p q = did (close p) ∷ did (close q) ∷ did (sys "putchar" (nat 10 ∷ [])) ∷ []

abbrev pub readv_trace : ℤ → ℤ → List ℕ → Trace (Unit {0})
readv_trace p q d = record {
  events =
      got (sys "readv" (int p ∷ nat 7 ∷ nat 57 ∷ [])) (reading d)
      ∷ buffer_line "readv got" d
      ∷ flushed
      ∷ ending p q;
  outcome = done tt [];
}

readv_shows :
    (p q : ℤ) (d old : List ℕ)
    → length d ≤ 64
    → HasNoNul d
    → run (read_back p q old) (reading d ∷ []) ≡ readv_trace p q d
unfolding read_back run
readv_shows p q d old fits no_nul =
    rw (scatter_contiguous 7 57 d old fits, shown_bytes d old no_nul) refl

abbrev pub recvmsg_trace : ℤ → ℤ → List ℕ → Trace (Unit {0})
recvmsg_trace p q d = record {
  events =
      got (sys "recvmsg" (int q ∷ nat 32 ∷ nat 32 ∷ [])) (reading d)
      ∷ did (
          printf "Read message named: '%.*s'\n  text: '%.*s' vectors at %p \n"
            (nat 0 ∷ text [] ∷ int (pos (length d)) ∷ text d ∷ str "riov" ∷ []))
      ∷ flushed
      ∷ ending p q;
  outcome = done tt [];
}

recvmsg_shows :
    (p q : ℤ) (d old : List ℕ)
    → length d ≤ 64
    → HasNoNul d
    → run (recv_back p q old) (reading d ∷ []) ≡ recvmsg_trace p q d
unfolding recv_back run
recvmsg_shows p q d old fits no_nul =
    rw (scatter_contiguous 32 32 d old fits, shown_bytes d old no_nul) refl

zeros-text : (n m : ℕ) → text_of (drop n (replicate m 0)) ≡ []
zeros-text zero zero = refl
zeros-text zero (suc m) = refl
zeros-text (suc n) zero = refl
zeros-text (suc n) (suc m) = zeros-text n m

first_holds_all :
    (d : List ℕ) → length d ≤ 31 → HasNoNul d → (text_of (b1 d) ≡ d) × (b2 d ≡ replicate 32 0)
first_holds_all d fits no_nul = (
  rw
      (
        take_all 31 d fits,
        text_of-append d (drop (length d) (replicate 32 0)) no_nul,
        zeros-text (length d) 32,
      )
      (append-nil d),
  rw (drop_all 31 d fits) refl,
)

abbrev pub preadv_trace : ℤ → List ℕ → Trace (Unit {0})
preadv_trace fd d = record {
  events =
      got (sys "preadv" (int fd ∷ nat 31 ∷ nat 31 ∷ nat 0 ∷ [])) (reading d)
      ∷ did (printf "preadv read total %zd bytes\n" (int (pos (length d)) ∷ []))
      ∷ flushed
      ∷ buffer_line "buf1" d
      ∷ flushed
      ∷ buffer_line "buf2" []
      ∷ flushed
      ∷ did (close fd)
      ∷ did (sys "putchar" (nat 10 ∷ []))
      ∷ [];
  outcome = done tt [];
}

preadv_shows :
    (fd : ℤ) (d : List ℕ)
    → length d ≤ 31
    → HasNoNul d
    → run (preadv_back fd) (reading d ∷ []) ≡ preadv_trace fd d
unfolding preadv_back run
preadv_shows fd d fits no_nul =
    let (first, second) = first_holds_all d fits no_nul in
    let all : shown_text (length d) (b1 d) ≡ d =
      rw (take_all 31 d fits) (shown_bytes d (replicate 32 0) no_nul) in
    rw (first, second, all) refl

-- For bytes without a NUL: of at most 64 bytes that `readv` or `recvmsg` gives into its two parts of a
-- buffer, the line shows all and no other; of at most 31 bytes that `preadv` gives, the line for the
-- first of its two buffers shows all, and the line for the second none.
pub demos_show :
    (p q fd : ℤ) (d e old : List ℕ)
    → length d ≤ 64
    → HasNoNul d
    → length e ≤ 31
    → HasNoNul e
    → (run (read_back p q old) (reading d ∷ []) ≡ readv_trace p q d)
      × (run (recv_back p q old) (reading d ∷ []) ≡ recvmsg_trace p q d)
      × (run (preadv_back fd) (reading e ∷ []) ≡ preadv_trace fd e)
demos_show p q fd d e old d_fits d_no_nul e_fits e_no_nul = (
  readv_shows p q d old d_fits d_no_nul,
  recvmsg_shows p q d old d_fits d_no_nul,
  preadv_shows fd e e_fits e_no_nul,
)
