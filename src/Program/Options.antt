-- ===== src/Program/Options.antt =====
-- The command line of src/main.cpp: the loop over what `getopt_long` returns, one option with its
-- argument at a time. `stoi` is `std::stoi`, which throws where the text is no number that an `int`
-- holds, and nothing catches it there.
pub mod Chosen
use tzzero_http.Prelude.{
  ℕ, ◌+◌, ◌-◌, ◌%◌, Bool, true, false, ◌==◌, if◌then◌else◌, Option, none, some, List, [], ◌∷◌,
  Bytes, codes,
}

-- An `int`.
pub data ℤ : Type 0 where
  pos : ℕ → ℤ
  negsuc : ℕ → ℤ

-- `static_cast<uint16_t>`
unfoldable pub to_uint16 : ℤ → ℕ
to_uint16 (pos n) = n % 65536
to_uint16 (negsuc n) = 65535 - n % 65536

pub record Settings : Type 0 where
  pub listen_addr : Bytes
  pub port : ℕ
  pub thread_num : ℤ
  pub enable_keepalive : Bool
  pub verbose : Bool
  pub log_file : Bytes
  pub log_level : Bytes

-- The default configuration, on a machine with that many processors.
abbrev pub defaults : ℕ → Settings
defaults hardware_concurrency = record {
  listen_addr = codes "0.0.0.0";
  port = 3000;
  thread_num = pos hardware_concurrency;
  enable_keepalive = true;
  verbose = false;
  log_file = [];
  log_level = codes "INFO";
}

-- What the loop leaves: the settings, the status with which `main` returns, or an exception.
pub data Parsed : Type 0 where
  ready : Settings → Parsed
  returns : ℕ → Parsed
  throws : Parsed

unfoldable pub set_port : Option ℤ → Settings → Parsed
unfolding to_uint16
set_port none s = throws
set_port (some n) s = ready (record s { port = to_uint16 n })

unfoldable pub set_threads : Option ℤ → Settings → Parsed
set_threads none s = throws
set_threads (some n) s = ready (record s { thread_num = n })

-- The `switch`, by the option's letter.
unfoldable pub take_option : (Bytes → Option ℤ) → ℕ → Bytes → Settings → Parsed
unfolding set_port set_threads
take_option stoi c optarg s =
    if c == b'h'
    then returns 0
    else if c == b'p'
    then set_port (stoi optarg) s
    else if c == b'a'
    then ready (record s { listen_addr = optarg })
    else if c == b't'
    then set_threads (stoi optarg) s
    else if c == b'k'
    then ready (record s { enable_keepalive = true })
    else if c == b'l'
    then ready (record s { log_file = optarg })
    else if c == b'L'
    then ready (record s { log_level = optarg })
    else if c == b'v'
    then ready (record s { verbose = true })
    else returns 1

unfoldable pub parse_options : (Bytes → Option ℤ) → List (ℕ × Bytes) → Settings → Parsed
unfolding take_option
parse_options stoi [] s = ready s
parse_options stoi ((c, optarg) ∷ os) s = elim (take_option stoi c optarg s) [
  | ready s' ↦ parse_options stoi os s'
  | returns status ↦ returns status
  | throws ↦ throws
]
