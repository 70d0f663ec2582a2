-- ===== src/Utils/Logger/Tests.antt =====
-- A logger at work on a small file.
use tzzero_http.Prelude.{
  ℕ, suc, ◌≤◌, ◌<◌, ◌≡◌, ◌≢◌, refl, true, none, some, [], ◌∷◌, ◌++◌, Bytes, codes, arith, ◌=?◌,
}
use tzzero_http.Http.Numbers.{decimal}
use tzzero_http.Utils.Logger.{
  Files, Logger, make, numbered, put, set_output_file, write_line, rotate_files, log, debug,
}
use tzzero_http.Utils.Logger.Rotation.{rotate_files_lem}
use tzzero_http.Utils.Logger.Sizes.{IsCounted, Written, write_line_lem}

abbrev no_files : Files
no_files f = none

abbrev name : Bytes
name = codes "log"

-- Three files: the log and its first two predecessors.
abbrev three : Files
three =
    put name (some (codes "c"))
      (put (codes "log.1") (some (codes "b")) (put (codes "log.2") (some (codes "a")) no_files))

abbrev rotated : Files
rotated = rotate_files name 3 three

rotated-files :
    (rotated name ≡ some [])
    × (rotated (codes "log.1") ≡ some (codes "c"))
    × (rotated (codes "log.2") ≡ some (codes "b"))
    × (rotated (codes "log.3") ≡ none)
unfolding rotate_files ◌=?◌ decimal
rotated-files = (refl, refl, refl, refl)

abbrev ready : Logger
ready = record (make three) {
  output_file = name;
  is_open = true;
  current_file_size = 1;
  max_file_size = 4;
}

ready-made :
    record (set_output_file true name (make three)) { max_file_size = 4; files = three } ≡ ready
unfolding make set_output_file put ◌=?◌
ready-made = refl

ready-IsCounted : IsCounted (codes "c") ready
unfolding make put ◌=?◌
ready-IsCounted = record {
  named = refl;
  opened = refl;
  held = refl;
  size = refl;
  below = omega arith;
}

ready-max_files : ready.max_files ≡ 10
unfolding make
ready-max_files = refl

filtered : log [] debug [] (make no_files) ≡ make no_files
unfolding make log
filtered = refl

rotate_files_lem_example :
    (rotated name ≡ some [])
    × (rotated (numbered name 1) ≡ three name)
    × ((j : ℕ) → 1 ≤ j → suc j < 3 → rotated (numbered name (suc j)) ≡ three (numbered name j))
    × ((n : Bytes)
        → n ≢ name
        → ((j : ℕ) → 1 ≤ j → j < 3 → n ≢ numbered name j)
        → rotated n ≡ three n)
rotate_files_lem_example = rotate_files_lem name 3 three (omega arith) (omega arith)

write_line_lem_example :
    Written (codes "c" ++ codes "xy" ++ 10 ∷ []) ready (write_line (codes "xy") ready)
write_line_lem_example =
    write_line_lem (codes "xy") (codes "c") ready ready-IsCounted (omega arith)
      (omega (arith, ready-max_files)) (omega (arith, ready-max_files))
