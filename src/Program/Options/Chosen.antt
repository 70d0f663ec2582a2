-- ===== src/Program/Options/Chosen.antt =====
-- Which settings the options of a command line choose.
use tzzero_http.Prelude.{
  ℕ, ◌<◌, ◌≡◌, refl, ap, ◌∙◌, arith, inl, inr, Bool, true, false, ◌==◌, not, ◌||◌, ◌&&◌,
  if◌then◌else◌, Option, none, some, Option-cases, List, [], ◌∷◌, Bytes,
}
use tzzero_http.Program.Options.{
  ℤ, pos, negsuc, to_uint16, Settings, Parsed, ready, returns, throws, set_port, set_threads,
  take_option, parse_options,
}

abbrev pub read_or {ℓ} : {A : Type ℓ} → Option A → A → A
read_or none before = before
read_or (some a) before = a

-- What the last option with this letter reads, or else what was there before.
unfoldable pub last_value {ℓ} : {A : Type ℓ} → (Bytes → Option A) → ℕ → List (ℕ × Bytes) → A → A
last_value read letter [] before = before
last_value read letter ((c, optarg) ∷ os) before =
    last_value read letter os (if c == letter then read_or (read optarg) before else before)

abbrev pub read_port : Option ℤ → Option ℕ
read_port none = none
read_port (some n) = some (to_uint16 n)

-- Each setting comes from its own letter.
unfoldable pub chosen : (Bytes → Option ℤ) → List (ℕ × Bytes) → Settings → Settings
chosen stoi os s = record {
  listen_addr = last_value some b'a' os s.listen_addr;
  port = last_value (λ t. read_port (stoi t)) b'p' os s.port;
  thread_num = last_value stoi b't' os s.thread_num;
  enable_keepalive = last_value (λ t. some true) b'k' os s.enable_keepalive;
  verbose = last_value (λ t. some true) b'v' os s.verbose;
  log_file = last_value some b'l' os s.log_file;
  log_level = last_value some b'L' os s.log_level;
}

abbrev is_some {ℓ} : {A : Type ℓ} → Option A → Bool
is_some none = false
is_some (some a) = true

abbrev pub takes_number : ℕ → Bool
takes_number c = c == b'p' || c == b't'

abbrev pub takes_other : ℕ → Bool
takes_other c = c == b'a' || c == b'k' || c == b'l' || c == b'L' || c == b'v'

to_uint16_bound : (n : ℤ) → to_uint16 n < 65536
unfolding to_uint16
to_uint16_bound (pos n) = omega arith
to_uint16_bound (negsuc n) = omega arith

-- Where the first option that is no setting stops the loop: `-h` with the status 0, what is no option
-- with the status 1, and what is no number with an exception.
unfoldable pub first_stop : (Bytes → Option ℤ) → List (ℕ × Bytes) → Settings → Parsed
first_stop stoi [] s = ready s
first_stop stoi ((c, optarg) ∷ os) s =
    if c == b'h'
    then returns 0
    else if takes_number c && not (is_some (stoi optarg))
    then throws
    else if takes_number c || takes_other c
    then first_stop stoi os s
    else returns 1

one_option :
    (stoi : Bytes → Option ℤ) (c : ℕ) (optarg : Bytes) (s : Settings)
    → take_option stoi c optarg s
      ≡ first_stop stoi ((c, optarg) ∷ []) (chosen stoi ((c, optarg) ∷ []) s)
unfolding take_option first_stop chosen last_value set_port set_threads
one_option stoi c optarg s = elim (Option-cases (stoi optarg)) [
  | inl q ↦ ground (arith, q)
  | inr (m, q) ↦ ground (arith, q)
]

abbrev goes_on : (Bytes → Option ℤ) → List (ℕ × Bytes) → Parsed → Parsed
goes_on stoi os (ready s) = parse_options stoi os s
goes_on stoi os (returns status) = returns status
goes_on stoi os throws = throws

parse_options-step :
    (stoi : Bytes → Option ℤ) (c : ℕ) (optarg : Bytes) (os : List (ℕ × Bytes)) (s : Settings)
    → parse_options stoi ((c, optarg) ∷ os) s ≡ goes_on stoi os (take_option stoi c optarg s)
unfolding parse_options
parse_options-step stoi c optarg os s =
    elim (take_option stoi c optarg s) as (λ r. goes_on stoi os r ≡ goes_on stoi os r) [
      | ready s' ↦ refl
      | returns status ↦ refl
      | throws ↦ refl
    ]

first_stop-step :
    (stoi : Bytes → Option ℤ) (c : ℕ) (optarg : Bytes) (os : List (ℕ × Bytes)) (s t : Settings)
    → parse_options stoi os s ≡ first_stop stoi os t
    → goes_on stoi os (first_stop stoi ((c, optarg) ∷ []) s) ≡ first_stop stoi ((c, optarg) ∷ os) t
unfolding first_stop
first_stop-step stoi c optarg os s t e = ground (arith, e)

-- The loop over the options, whatever they are: it stops at the first one that is no setting, and if
-- there is none, each setting is that of the last option with its letter.
pub parse_options_lem :
    (stoi : Bytes → Option ℤ) (os : List (ℕ × Bytes)) (s : Settings)
    → parse_options stoi os s ≡ first_stop stoi os (chosen stoi os s)
unfolding parse_options first_stop chosen last_value
parse_options_lem stoi [] s = refl
parse_options_lem stoi ((c, optarg) ∷ os) s =
    let next = chosen stoi ((c, optarg) ∷ []) s in
    parse_options-step stoi c optarg os s
    ∙ ap (goes_on stoi os) (one_option stoi c optarg s)
    ∙ first_stop-step stoi c optarg os next (chosen stoi os next) (parse_options_lem stoi os next)

pub last_value-bound :
    (stoi : Bytes → Option ℤ) (os : List (ℕ × Bytes)) (port : ℕ)
    → port < 65536
    → last_value (λ t. read_port (stoi t)) b'p' os port < 65536
unfolding last_value
last_value-bound stoi [] port h = h
last_value-bound stoi ((c, optarg) ∷ os) port h =
    last_value-bound stoi os _ (elim (Option-cases (stoi optarg)) [
      | inl q ↦ ground (arith, q, h)
      | inr (m, q) ↦ ground (arith, q, h, to_uint16_bound m)
    ])

-- If the loop does not stop, it leaves the settings.
pub first_stop-ready :
    (stoi : Bytes → Option ℤ) (os : List (ℕ × Bytes)) (s t : Settings)
    → first_stop stoi os s ≡ ready t
    → s ≡ t
unfolding first_stop
first_stop-ready stoi [] s t h = cc
first_stop-ready stoi ((c, optarg) ∷ os) s t h = ground (arith, first_stop-ready stoi os s t)
