-- ===== src/Http/RoundTrip/RequestLine.antt =====
-- The request line of a printed request.
use tzzero_http.Prelude.{
  ℕ, ◌≡◌, ◌≢◌, refl, sym, ap, ◌∙◌, arith, true, false, some, none, [], ◌∷◌, ◌++◌, Bytes, codes,
  length, All, All-append, append-nil, ◌=?◌, =?_sound, if◌then◌else◌, inl, inr, Bool-cases,
  append_assoc, take-append_all, drop-append_next,
}
use mathlib.Core.List.{concat-ne-nil}
use tzzero_http.Http.Numbers.{is_space}
use tzzero_http.Http.Request.{
  HttpRequest, HttpMethod, invalid, get, post, put, delete, head, options, patch, connect, trace,
  HttpVersion, unknown, method_string, version_string, query_part,
}
use tzzero_http.Http.Parser.Lines.{
  string_to_method, string_to_version, request_line, set_target, set_request_line, set_version,
  three_words, extract, split_word, skip_spaces, find_char,
}

-- The text of a method is read as that method, and that of no method as none.
pub string_to_method-method_string : (m : HttpMethod) → string_to_method (method_string m) ≡ m
unfolding string_to_method method_string ◌=?◌
string_to_method-method_string m = ground arith

pub string_to_version-version_string :
    (v : HttpVersion) → v ≢ unknown → string_to_version (version_string v) ≡ v
unfolding string_to_version version_string ◌=?◌
string_to_version-version_string v h = ground arith

abbrev pub IsWord : Bytes → Type 0
IsWord s = (s ≢ []) × All (λ c. is_space c ≡ false) s

abbrev pub Lacks : ℕ → Bytes → Type 0
Lacks k = All (λ c. c ≢ k)

split_word-append :
    (w rest : Bytes)
    → All (λ c. is_space c ≡ false) w
    → split_word (w ++ b' ' ∷ rest) ≡ (w, b' ' ∷ rest)
unfolding split_word is_space
split_word-append [] rest h = refl
split_word-append (c ∷ w) rest h = ground (arith, split_word-append w rest)

split_word-All : (w : Bytes) → All (λ c. is_space c ≡ false) w → split_word w ≡ (w, [])
unfolding split_word
split_word-All [] h = refl
split_word-All (c ∷ w) h = ground (arith, split_word-All w)

skip_spaces-IsWord : (w rest : Bytes) → IsWord w → skip_spaces (w ++ rest) ≡ w ++ rest
unfolding skip_spaces
skip_spaces-IsWord [] rest h = absurd (h.0 refl)
skip_spaces-IsWord (c ∷ w) rest h = ground arith

pub extract-append :
    (w rest : Bytes) → IsWord w → extract (w ++ b' ' ∷ rest) ≡ some (w, b' ' ∷ rest)
unfolding extract ◌=?◌
extract-append [] rest h = absurd (h.0 refl)
extract-append (c ∷ w) rest h =
    rw (skip_spaces-IsWord (c ∷ w) (b' ' ∷ rest) h, split_word-append (c ∷ w) rest h.1)

extract-all : (w : Bytes) → IsWord w → extract w ≡ some (w, [])
unfolding extract ◌=?◌
extract-all [] h = absurd (h.0 refl)
extract-all (c ∷ w) h = rw (
  ap skip_spaces (sym (append-nil (c ∷ w))) ∙ skip_spaces-IsWord (c ∷ w) [] h ∙ append-nil (c ∷ w),
  split_word-All (c ∷ w) h.1,
)

pub extract-space : (s : Bytes) → extract (b' ' ∷ s) ≡ extract s
unfolding extract is_space
extract-space s = refl

three_words-append :
    (a b c : Bytes)
    → IsWord a
    → IsWord b
    → IsWord c
    → three_words (a ++ b' ' ∷ (b ++ b' ' ∷ c)) ≡ some (a, b, c)
unfolding three_words
three_words-append a b c ha hb hc = rw (
  extract-append a (b ++ b' ' ∷ c) ha,
  extract-space (b ++ b' ' ∷ c),
  extract-append b c hb,
  extract-space c,
  extract-all c hc,
)

find_char-none : (k : ℕ) (s : Bytes) → Lacks k s → find_char k s ≡ none
unfolding find_char
find_char-none k [] h = refl
find_char-none k (c ∷ s) h = ground (arith, find_char-none k s)

pub find_char-append :
    (k : ℕ) (s rest : Bytes) → Lacks k s → find_char k (s ++ k ∷ rest) ≡ some (length s)
unfolding find_char
find_char-append k [] rest h = ground arith
find_char-append k (c ∷ s) rest h = ground (arith, find_char-append k s rest)

-- The path and the query behind `?` are separated again.
set_target-query_part :
    (path query : Bytes) (r : HttpRequest)
    → Lacks b'?' path
    → r.query ≡ []
    → set_target (path ++ query_part query) r ≡ record r { path = path; query = query }
unfolding set_target query_part
set_target-query_part path [] r h e =
    rw (append-nil path) (ground (arith, find_char-none b'?' path h, e))
set_target-query_part path (c ∷ q) r h e = ground (
  arith,
  find_char-append b'?' path (c ∷ q) h,
  take-append_all path (b'?' ∷ c ∷ q),
  drop-append_next path b'?' (c ∷ q),
)

set_request_line-valid :
    (m : HttpMethod) (v : HttpVersion) (target : Bytes) (r : HttpRequest)
    → m ≢ invalid
    → v ≢ unknown
    → set_request_line m target (version_string v) r
      ≡ (true, record (set_target target (record r { method = m })) { version = v })
unfolding set_request_line set_version
set_request_line-valid m v target r hm hv = ground (arith, string_to_version-version_string v hv)

IsWord-method_string : (m : HttpMethod) → IsWord (method_string m)
unfolding method_string is_space
IsWord-method_string m = (ground arith, ground arith)

IsWord-version_string : (v : HttpVersion) → IsWord (version_string v)
unfolding version_string is_space
IsWord-version_string v = (ground arith, ground arith)

IsWord-target :
    (path query : Bytes)
    → IsWord path
    → All (λ c. is_space c ≡ false) query
    → IsWord (path ++ query_part query)
unfolding query_part is_space
IsWord-target [] query h k = absurd (h.0 refl)
IsWord-target (c ∷ path) [] h k = rw (append-nil path) h
IsWord-target (c ∷ path) (d ∷ q) h k =
    ((λ e. cc), (h.1.0, All-append (λ a. is_space a ≡ false) path (b'?' ∷ d ∷ q) h.1.1 (refl, k)))

-- The line that a request prints, read into a request without a query.
pub request_line-print :
    (m : HttpMethod) (path query : Bytes) (v : HttpVersion) (r : HttpRequest)
    → m ≢ invalid
    → v ≢ unknown
    → IsWord path
    → Lacks b'?' path
    → All (λ c. is_space c ≡ false) query
    → r.query ≡ []
    → request_line
        (method_string m ++ b' ' ∷ ((path ++ query_part query) ++ b' ' ∷ version_string v))
        r
      ≡ (true, record r { method = m; path = path; query = query; version = v })
unfolding request_line
request_line-print m path query v r hm hv hp hq hw e = rw (
  three_words-append (method_string m) (path ++ query_part query) (version_string v)
      (IsWord-method_string m) (IsWord-target path query hp hw) (IsWord-version_string v),
  string_to_method-method_string m,
  set_request_line-valid m v (path ++ query_part query) r hm hv,
  set_target-query_part path query (record r { method = m }) hq e,
  request_line,
)

word-Lacks : (k : ℕ) (s : Bytes) → is_space k ≡ true → All (λ c. is_space c ≡ false) s → Lacks k s
word-Lacks k [] e h = tt
word-Lacks k (c ∷ s) e h = ((λ q. cc (ap is_space q)), word-Lacks k s e h.1)

-- No CR stands in the line.
pub Lacks-request_line :
    (m : HttpMethod) (path query : Bytes) (v : HttpVersion)
    → IsWord path
    → All (λ c. is_space c ≡ false) query
    → Lacks b'\r'
        (method_string m ++ b' ' ∷ ((path ++ query_part query) ++ b' ' ∷ version_string v))
unfolding is_space
Lacks-request_line m path query v hp hw =
    All-append (λ c. c ≢ b'\r') (method_string m)
      (b' ' ∷ ((path ++ query_part query) ++ b' ' ∷ version_string v))
      (word-Lacks b'\r' (method_string m) refl (IsWord-method_string m).1)
      (
        omega arith,
        All-append (λ c. c ≢ b'\r') (path ++ query_part query) (b' ' ∷ version_string v)
            (word-Lacks b'\r' (path ++ query_part query) refl (IsWord-target path query hp hw).1)
            (omega arith, word-Lacks b'\r' (version_string v) refl (IsWord-version_string v).1),
      )

module _ (k : ℕ) (s : Bytes) where
  branch :
      (t : Bytes) (m n : HttpMethod)
      → Lacks k t
      → (n ≢ invalid → Lacks k s)
      → (if s =? t then m else n) ≢ invalid
      → Lacks k s
  branch t m n ht hn h = elim (Bool-cases (s =? t)) [
    | inl e ↦ rw (=?_sound s t e) ht
    | inr e ↦ hn (rw e at h)
  ]

-- The text of a method holds no colon.
string_to_method-no_colon : (s : Bytes) → string_to_method s ≢ invalid → Lacks b':' s
unfolding string_to_method
string_to_method-no_colon s = branch b':' s (codes "GET") get _ (omega arith) (
    branch b':' s (codes "POST") post _ (omega arith) (
      branch b':' s (codes "PUT") put _ (omega arith) (
        branch b':' s (codes "DELETE") delete _ (omega arith) (
          branch b':' s (codes "HEAD") head _ (omega arith) (
            branch b':' s (codes "OPTIONS") options _ (omega arith) (
              branch b':' s (codes "PATCH") patch _ (omega arith) (
                branch b':' s (codes "CONNECT") connect _ (omega arith) (
                  branch b':' s (codes "TRACE") trace invalid (omega arith)
                    (λ h. absurd (h refl))))))))))

colon_end : (s : Bytes) → ¬ Lacks b':' (s ++ b':' ∷ [])
colon_end [] h = h.0 refl
colon_end (c ∷ s) h = colon_end s h.1

string_to_method-colon : (s : Bytes) → string_to_method (s ++ b':' ∷ []) ≡ invalid
string_to_method-colon s =
    decided (string_to_method (s ++ b':' ∷ []))
      (λ n. colon_end s (string_to_method-no_colon (s ++ b':' ∷ []) n))
  where
    decided : (m : HttpMethod) → ¬ (m ≢ invalid) → m ≡ invalid
    decided invalid h = refl
    decided m h = absurd (h (λ e. cc))

-- A header line is no request line.
pub request_line-header :
    (field value : Bytes) (r : HttpRequest)
    → IsWord field
    → (request_line (field ++ b':' ∷ b' ' ∷ value) r).0 ≡ false
unfolding request_line set_request_line three_words
request_line-header field value r h = rw (sym (append_assoc field (b':' ∷ []) (b' ' ∷ value))) (
    ground (
      arith,
      extract-append (field ++ b':' ∷ []) value (colon_word field h),
      string_to_method-colon field,
    ))
  where
    colon_word : (s : Bytes) → IsWord s → IsWord (s ++ b':' ∷ [])
    colon_word s w = (
      concat-ne-nil b':' s,
      All-append (λ c. is_space c ≡ false) s (b':' ∷ []) w.1 (unfold is_space in (refl, tt)),
    )
