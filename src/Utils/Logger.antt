-- ===== src/Utils/Logger.antt =====
-- include/tzzero/utils/logger.h and src/utils/logger.cpp: the logger, over a file system that only it
-- changes, a function from names to contents, where `std::filesystem` does not fail. The time stamp
-- is an argument. The mutex makes each call one step. A negative number of files is left out.
pub mod Rotation
pub mod Sizes
mod Tests
use tzzero_http.Prelude.{
  ℕ, zero, suc, ◌+◌, ◌-◌, ◌*◌, ◌%◌, Bool, true, false, not, ◌&&◌, ◌==◌, ltb, leb, if◌then◌else◌,
  Option, none, some, List, [], ◌∷◌, ◌++◌, Bytes, ◌=?◌, codes, length, add_size, size_mod,
}
use tzzero_http.Http.Numbers.{decimal}

abbrev pub Files : Type 0
Files = Bytes → Option Bytes

unfoldable pub exists : Bytes → Files → Bool
exists f fs = elim (fs f) [ none ↦ false | some _ ↦ true ]

unfoldable pub put : Bytes → Option Bytes → Files → Files
put f content fs g = if g =? f then content else fs g

-- `std::filesystem::remove`
unfoldable pub remove : Bytes → Files → Files
unfolding put
remove f fs = put f none fs

-- `std::filesystem::rename`, which replaces the file of the new name.
unfoldable pub rename : Bytes → Bytes → Files → Files
unfolding put
rename f g fs = put f none (put g (fs f) fs)

pub data LogLevel : Type 0 where
  debug info warn error fatal : LogLevel

abbrev pub rank : LogLevel → ℕ
rank debug = 0
rank info = 1
rank warn = 2
rank error = 3
rank fatal = 4

unfoldable pub level_to_string : LogLevel → Bytes
level_to_string debug = codes "DEBUG"
level_to_string info = codes "INFO "
level_to_string warn = codes "WARN "
level_to_string error = codes "ERROR"
level_to_string fatal = codes "FATAL"

-- `console` lists the lines of the standard output.
pub record Logger : Type 0 where
  pub level : LogLevel
  pub output_file : Bytes
  pub is_open : Bool
  pub current_file_size : ℕ
  pub max_file_size : ℕ
  pub max_files : ℕ
  pub files : Files
  pub console : List Bytes

unfoldable pub make : Files → Logger
make files = record {
  level = info;
  output_file = [];
  is_open = false;
  current_file_size = 0;
  max_file_size = 104857600;
  max_files = 10;
  files = files;
  console = [];
}

unfoldable pub set_level : LogLevel → Logger → Logger
set_level level l = record l { level = level }

unfoldable pub set_max_file_size : ℕ → Logger → Logger
set_max_file_size max_size_mb l = record l { max_file_size = max_size_mb * 1048576 % size_mod }

unfoldable pub set_max_files : ℕ → Logger → Logger
set_max_files max_files l = record l { max_files = max_files }

-- The file with a number.
unfoldable pub numbered : Bytes → ℕ → Bytes
numbered base i = base ++ (b'.' ∷ decimal i)

-- One round of the loop of `rotate_log_file`.
unfoldable pub rotate_one : Bytes → ℕ → ℕ → Files → Files
unfolding exists remove rename numbered
rotate_one base max_files i fs =
    if exists (numbered base i) fs
    then (if i == max_files - 1
        then remove (numbered base i) fs
        else rename (numbered base i) (numbered base (i + 1)) fs)
    else fs

-- The rounds from a number down to 1.
unfoldable pub rotate_down : Bytes → ℕ → ℕ → Files → Files
unfolding rotate_one
rotate_down base max_files zero fs = fs
rotate_down base max_files (suc i) fs =
    rotate_down base max_files i (rotate_one base max_files (suc i) fs)

unfoldable pub move_current : Bytes → Files → Files
unfolding exists rename numbered
move_current base fs = if exists base fs then rename base (numbered base 1) fs else fs

unfoldable pub rotate_files : Bytes → ℕ → Files → Files
unfolding rotate_down move_current put
rotate_files base max_files fs =
    put base (some []) (move_current base (rotate_down base max_files (max_files - 1) fs))

abbrev is_empty : Bytes → Bool
is_empty [] = true
is_empty (c ∷ s) = false

-- The new file can be opened.
unfoldable pub rotate_log_file : Logger → Logger
unfolding rotate_files
rotate_log_file l = if is_empty l.output_file then l else record l {
  files = rotate_files l.output_file l.max_files l.files;
  is_open = true;
  current_file_size = 0;
}

-- The line goes to the end of the file, if the file is still there.
unfoldable pub append_line : Bytes → Bytes → Files → Files
unfolding put
append_line f line fs = elim (fs f) [
  | none ↦ fs
  | some content ↦ put f (some (content ++ line ++ (10 ∷ []))) fs
]

unfoldable pub write_file : Bytes → Logger → Logger
unfolding append_line
write_file line l = record l {
  files = append_line l.output_file line l.files;
  current_file_size = add_size l.current_file_size (length line + 1);
}

unfoldable pub rotate_if_full : Logger → Logger
unfolding rotate_log_file
rotate_if_full l = if leb l.max_file_size l.current_file_size then rotate_log_file l else l

-- What both `log`s do with their line.
unfoldable pub write_line : Bytes → Logger → Logger
unfolding write_file rotate_if_full
write_line line l =
    let shown = record l { console = l.console ++ (line ∷ []) } in
    if not (is_empty l.output_file) && l.is_open
    then rotate_if_full (write_file line shown)
    else shown

unfoldable pub log_line : Bytes → LogLevel → Bytes → Bytes
unfolding level_to_string
log_line timestamp level message =
    codes "[" ++ timestamp ++ codes "] [" ++ level_to_string level ++ codes "] " ++ message

unfoldable pub log_line_at : Bytes → LogLevel → Bytes → ℕ → Bytes → Bytes
unfolding level_to_string
log_line_at timestamp level file line message =
    codes "["
    ++ timestamp
    ++ codes "] ["
    ++ level_to_string level
    ++ codes "] ["
    ++ file
    ++ codes ":"
    ++ decimal line
    ++ codes "] "
    ++ message

unfoldable pub log : Bytes → LogLevel → Bytes → Logger → Logger
unfolding write_line log_line
log timestamp level message l =
    if ltb (rank level) (rank l.level) then l else write_line (log_line timestamp level message) l

unfoldable pub log_at : Bytes → LogLevel → Bytes → ℕ → Bytes → Logger → Logger
unfolding write_line log_line_at
log_at timestamp level file line message l =
    if ltb (rank level) (rank l.level)
    then l
    else write_line (log_line_at timestamp level file line message) l

-- The contents of a file opened to append.
abbrev contents : Option Bytes → Bytes
contents none = []
contents (some content) = content

-- `opened` tells whether the file can be opened.
unfoldable pub set_output_file : Bool → Bytes → Logger → Logger
unfolding put
set_output_file opened filename l =
    if not (is_empty filename) && opened
    then record l {
      output_file = filename;
      is_open = true;
      current_file_size = length (contents (l.files filename));
      files = put filename (some (contents (l.files filename))) l.files;
    }
    else record l { output_file = filename; is_open = false; current_file_size = 0 }
