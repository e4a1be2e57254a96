-- ===== src/Vectors.antt =====
-- iovec_demo.c: reads and writes of several buffers at once.
pub mod Demos
pub mod Laws
mod Tests
use generic_tests.Common.{
  ℕ, zero, suc, ◌+◌, String, List, [], ◌∷◌, ◌++◌, if◌then◌else◌, length, take, drop, replicate,
}
use generic_tests.Common.Int.{ℤ, pos, is_neg, eqb_ℤ, pos_part}
use generic_tests.Sys.{
  Answer, nat, int, str, text, Call, Prog, exit, emit, ask, say, skip, ◌>>◌, print, perror, sys,
  close,
}
use generic_tests.Threads.{text_of}
use generic_tests.Message.{refill, shown_text, flush_all}

abbrev pub die {ℓ} : {A : Type ℓ} → String → Prog A
die op = emit (perror op) (exit (pos 1))

-- `if (… < 0) die(op);` and `if (… != 0) die(op);` around a call.
abbrev pub at_least_zero : Call → String → (Answer → Prog (Unit {0})) → Prog (Unit {0})
at_least_zero c op next = ask c (λ a. if is_neg a.result then die op else next a)

abbrev pub is_zero_or : Call → String → (Answer → Prog (Unit {0})) → Prog (Unit {0})
is_zero_or c op next = ask c (λ a. if eqb_ℤ a.result (pos 0) then next a else die op)

-- `printf(…); fflush(file);`, where `file` is NULL in all functions but `main`.
abbrev pub show_buf : String → List ℕ → ℕ → Prog (Unit {0})
show_buf tag buf n =
    print "%s: [%.*s]\n" (str tag ∷ nat n ∷ text (shown_text n buf) ∷ []) >> flush_all

abbrev pub title : String → Prog (Unit {0})
title line = print line [] >> flush_all

-- `close(p[0]); close(p[1]); putchar('\n');`
abbrev pub new_line : Prog (Unit {0})
new_line = say (sys "putchar" (nat 10 ∷ []))

abbrev pub close_both : ℤ → ℤ → Prog (Unit {0})
close_both p q = emit (close p) (emit (close q) new_line)

-- A part of a buffer: its offset and its length.
pub record Part : Type 0 where
  pub offset : ℕ
  pub size : ℕ

abbrev pub write_at : ℕ → List ℕ → List ℕ → List ℕ
write_at i bytes buf = take i buf ++ (bytes ++ drop (i + length bytes) buf)

-- A buffer after bytes were stored in its parts, each filled before the next.
unfoldable pub scatter : List Part → List ℕ → List ℕ → List ℕ
scatter [] bytes buf = buf
scatter (v ∷ vs) bytes buf =
    scatter vs (drop v.size bytes) (write_at v.offset (take v.size bytes) buf)

-- `rv` and `riov`: the two parts of a buffer of 64 bytes.
abbrev pub rv : List Part
rv = record { offset = 0; size = 7 } ∷ record { offset = 7; size = 57 } ∷ []

abbrev pub riov : List Part
riov = record { offset = 0; size = 32 } ∷ record { offset = 32; size = 32 } ∷ []

-- `demo_readv_writev` from `readv` on; `old` is what `buf` holds before.
unfoldable pub read_back : ℤ → ℤ → List ℕ → Prog (Unit {0})
read_back p q old =
    at_least_zero (sys "readv" (int p ∷ nat 7 ∷ nat 57 ∷ [])) "readv"
      (λ r. show_buf "readv got" (scatter rv r.bytes old) (pos_part r.result) >> close_both p q)

-- `demo_preadv_pwritev` from `preadv` on: two buffers of 32 zeros, with room for 31 bytes each.
abbrev pub b1 : List ℕ → List ℕ
b1 bytes = refill (take 31 bytes) (replicate 32 0)

abbrev pub b2 : List ℕ → List ℕ
b2 bytes = refill (take 31 (drop 31 bytes)) (replicate 32 0)

unfoldable pub preadv_back : ℤ → Prog (Unit {0})
preadv_back fd = at_least_zero (sys "preadv" (int fd ∷ nat 31 ∷ nat 31 ∷ nat 0 ∷ [])) "preadv" (λ r.
    print "preadv read total %zd bytes\n" (int r.result ∷ [])
    >> (flush_all
        >> (show_buf "buf1" (b1 r.bytes) (length (text_of (b1 r.bytes)))
            >> (show_buf "buf2" (b2 r.bytes) (length (text_of (b2 r.bytes)))
                >> emit (close fd) new_line))))

-- `demo_sendmsg_recvmsg` from `recvmsg` on. The name that is printed is that of the message sent,
-- which has none.
unfoldable pub recv_back : ℤ → ℤ → List ℕ → Prog (Unit {0})
recv_back p q old = at_least_zero (sys "recvmsg" (int q ∷ nat 32 ∷ nat 32 ∷ [])) "recvmsg" (λ r.
    print "Read message named: '%.*s'\n  text: '%.*s' vectors at %p \n" (
      nat 0
      ∷ text []
      ∷ int r.result
      ∷ text (shown_text (pos_part r.result) (scatter riov r.bytes old))
      ∷ str "riov"
      ∷ [])
    >> (flush_all >> close_both p q))
