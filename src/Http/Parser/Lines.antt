-- ===== src/Http/Parser/Lines.antt =====
-- `parse_request_line`, `parse_header_line` and the two text tables of src/http/http_parser.cpp.
use tzzero_http.Prelude.{
  ℕ, suc, Bool, true, false, ◌||◌, ◌&&◌, ◌==◌, if◌then◌else◌, Option, none, some, [], ◌∷◌, Bytes,
  codes, ◌=?◌, take, drop,
}
use tzzero_http.Http.Numbers.{is_space}
use tzzero_http.Http.Request.{
  HttpRequest, HttpMethod, invalid, get, post, put, delete, head, options, patch, connect, trace,
  HttpVersion, unknown, http_1_0, http_1_1, http_2_0, add_header,
}

unfoldable pub string_to_method : Bytes → HttpMethod
string_to_method s =
    if s =? codes "GET"
    then get
    else if s =? codes "POST"
    then post
    else if s =? codes "PUT"
    then put
    else if s =? codes "DELETE"
    then delete
    else if s =? codes "HEAD"
    then head
    else if s =? codes "OPTIONS"
    then options
    else if s =? codes "PATCH"
    then patch
    else if s =? codes "CONNECT"
    then connect
    else if s =? codes "TRACE"
    then trace
    else invalid

unfoldable pub string_to_version : Bytes → HttpVersion
string_to_version s =
    if s =? codes "HTTP/1.0"
    then http_1_0
    else if s =? codes "HTTP/1.1"
    then http_1_1
    else if s =? codes "HTTP/2.0"
    then http_2_0
    else unknown

-- The word at the front, and what is behind it.
unfoldable pub split_word : Bytes → Bytes × Bytes
split_word [] = ([], [])
split_word (c ∷ s) =
    let (w, rest) = split_word s in if is_space c then ([], c ∷ s) else (c ∷ w, rest)

unfoldable pub skip_spaces : Bytes → Bytes
skip_spaces [] = []
skip_spaces (c ∷ s) = if is_space c then skip_spaces s else c ∷ s

-- `iss >> word`: it fails if there is no word.
unfoldable pub extract : Bytes → Option (Bytes × Bytes)
unfolding split_word skip_spaces
extract s = let (w, rest) = split_word (skip_spaces s) in if w =? [] then none else some (w, rest)

-- `std::string::find` of a character
unfoldable pub find_char : ℕ → Bytes → Option ℕ
find_char k [] = none
find_char k (c ∷ s) =
    let rest = find_char k s in
    if c == k then some 0 else elim rest [ none ↦ none | some n ↦ some (suc n) ]

-- The path and the query of `path_and_query`; without `?` the query stays as it was.
unfoldable pub set_target : Bytes → HttpRequest → HttpRequest
unfolding find_char
set_target target r = elim (find_char b'?' target) [
  | none ↦ record r { path = target }
  | some n ↦ record r { path = take n target; query = drop (suc n) target }
]

-- What is written before a failure stays written.
unfoldable pub set_version : HttpVersion → HttpRequest → Bool × HttpRequest
set_version unknown r = (false, r)
set_version v r = (true, record r { version = v })

unfoldable pub set_request_line : HttpMethod → Bytes → Bytes → HttpRequest → Bool × HttpRequest
unfolding set_target set_version string_to_version
set_request_line invalid target version r = (false, r)
set_request_line m target version r =
    set_version (string_to_version version) (set_target target (record r { method = m }))

infixl 5 ◌>>=◌
abbrev ◌>>=◌ {ℓ κ} : {A : Type ℓ} {B : Type κ} → Option A → (A → Option B) → Option B
none >>= f = none
some a >>= f = f a

-- The three words of a request line.
unfoldable pub three_words : Bytes → Option (Bytes × Bytes × Bytes)
unfolding extract
three_words line = do
  (method, rest) ← extract line
  (target, rest') ← extract rest
  (version, rest'') ← extract rest'
  some (method, target, version)

unfoldable pub request_line : Bytes → HttpRequest → Bool × HttpRequest
unfolding three_words set_request_line string_to_method
request_line line r = elim (three_words line) [
  | none ↦ (false, r)
  | some (method, target, version) ↦ set_request_line (string_to_method method) target version r
]

unfoldable pub is_blank : ℕ → Bool
is_blank c = c == b' ' || c == b'\t'

unfoldable pub is_blank_or_eol : ℕ → Bool
is_blank_or_eol c = c == b' ' || c == b'\t' || c == b'\r' || c == b'\n'

-- `s.erase(s.find_last_not_of(...) + 1)`: if there is none, `npos + 1` is 0.
unfoldable pub trim_end : (ℕ → Bool) → Bytes → Bytes
trim_end blank [] = []
trim_end blank (c ∷ s) = let t = trim_end blank s in if t =? [] && blank c then [] else c ∷ t

-- `s.erase(0, s.find_first_not_of(...))`: if there is none, `npos` bytes are erased.
unfoldable pub trim_start : (ℕ → Bool) → Bytes → Bytes
trim_start blank [] = []
trim_start blank (c ∷ s) = if blank c then trim_start blank s else c ∷ s

unfoldable pub trim_field : Bytes → Bytes
unfolding trim_start trim_end is_blank
trim_field s = trim_start is_blank (trim_end is_blank s)

unfoldable pub trim_value : Bytes → Bytes
unfolding trim_start trim_end is_blank is_blank_or_eol
trim_value s = trim_start is_blank (trim_end is_blank_or_eol s)

unfoldable pub header_line : Bytes → HttpRequest → Bool × HttpRequest
unfolding find_char trim_field trim_value
header_line line r = elim (find_char b':' line) [
  | none ↦ (false, r)
  | some n ↦
      let field = trim_field (take n line) in
      let value = trim_value (drop (suc n) line) in
      if field =? [] then (false, r) else (true, add_header r field value)
]
