-- ===== src/Call64/Tests.antt =====
-- Two entries of a directory.
use generic_tests.Common.{◌≡◌, refl, [], ◌∷◌, arith, length}
use generic_tests.Sys.Run.{run, done}
use generic_tests.Call64.Dirents.{walk}
use generic_tests.Call64.Laws.{Entry, IsEntry, layouts, entry_lines, walk_lem}

abbrev here : Entry
here = record { ino = 7; off = 1; kind = 4; name = b'.' ∷ []; padding = 0 ∷ 0 ∷ 0 ∷ [] }

abbrev file : Entry
file = record { ino = 1000; off = 2; kind = 8; name = b'a' ∷ b'b' ∷ []; padding = 0 ∷ 0 ∷ [] }

here-IsEntry : IsEntry here
here-IsEntry = record {
  ino_fits = omega arith;
  off_fits = omega arith;
  length_fits = omega arith;
  no_nul = (refl, tt);
}

file-IsEntry : IsEntry file
file-IsEntry = record {
  ino_fits = omega arith;
  off_fits = omega arith;
  length_fits = omega arith;
  no_nul = (refl, (refl, tt));
}

walk_example :
    run (walk 3 (layouts (here ∷ file ∷ [])) 0 (length (layouts (here ∷ file ∷ [])))) []
    ≡ record { events = entry_lines (here ∷ file ∷ []); outcome = done tt [] }
walk_example = walk_lem 3 (here ∷ file ∷ []) [] (here-IsEntry, (file-IsEntry, tt)) (omega arith)
