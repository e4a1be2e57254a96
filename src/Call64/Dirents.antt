-- ===== src/Call64/Dirents.antt =====
-- The loop of call64.c over the records that `getdents64` stores.
use generic_tests.Common.{
  ℕ, zero, suc, ◌+◌, ◌-◌, ◌*◌, ◌^◌, List, [], ◌∷◌, ltb, if◌then◌else◌, take, drop,
}
use generic_tests.Common.Int.{ℤ, pos, negsuc}
use generic_tests.Sys.{nat, int, text, Prog, spin, emit, skip, printf}
use generic_tests.Threads.{text_of}

-- A number stored with its lowest byte first.
abbrev pub little : List ℕ → ℕ
little [] = 0
little (b ∷ bs) = b + 256 * little bs

-- `(int64_t)`
abbrev pub signed64 : ℕ → ℤ
signed64 n = if ltb n (2 ^ 63) then pos n else negsuc (2 ^ 64 - n - 1)

-- The fields of `struct linux_dirent64`, at the start of these bytes.
abbrev pub d_ino : List ℕ → ℕ
d_ino d = little (take 8 d)

abbrev pub d_off : List ℕ → ℕ
d_off d = little (take 8 (drop 8 d))

abbrev pub d_reclen : List ℕ → ℕ
d_reclen d = little (take 2 (drop 16 d))

abbrev pub d_name : List ℕ → List ℕ
d_name d = text_of (drop 19 d)

-- `while (bpos < nread)`, on fuel. The macros PRIu64 and PRId64 stand in a format by their names.
unfoldable pub walk : ℕ → List ℕ → ℕ → ℕ → Prog (Unit {0})
walk zero dbuf bpos nread = spin
walk (suc fuel) dbuf bpos nread =
    let d = drop bpos dbuf in
    let rest = walk fuel dbuf (bpos + d_reclen d) nread in
    if ltb bpos nread
    then emit
        (printf "  d_name=%s, ino=%PRIu64, d_off=%PRId64\n"
          (text (d_name d) ∷ nat (d_ino d) ∷ int (signed64 (d_off d)) ∷ []))
        rest
    else skip
