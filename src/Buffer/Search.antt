-- ===== src/Buffer/Search.antt =====
-- The search methods: the first line end of the unread bytes.
use tzzero_http.Prelude.{
  ℕ, zero, suc, ◌+◌, ◌≤◌, ◌≡◌, refl, arith, none, some, [], ◌∷◌, ◌++◌, Bytes, length, take, drop,
}
use tzzero_http.Buffer.{Buffer, search_crlf, find_crlf, to_string}
use tzzero_http.Buffer.Bounds.{IsValid}
use tzzero_http.Buffer.Contents.{to_string-slice}

abbrev pub crlf : Bytes
crlf = b'\r' ∷ b'\n' ∷ []

-- No CR LF stands in the bytes.
abbrev pub LacksCrlf : Bytes → Type 0
LacksCrlf s = search_crlf s ≡ none

-- A line without CR LF, then CR LF: the search stops at the line's end.
pub search_crlf-append :
    (line rest : Bytes)
    → LacksCrlf line
    → search_crlf (line ++ b'\r' ∷ b'\n' ∷ rest) ≡ some (length line)
unfolding search_crlf
search_crlf-append [] rest h = refl
search_crlf-append (c ∷ []) rest h = ground arith
search_crlf-append (c ∷ d ∷ line) rest h = ground (arith, search_crlf-append (d ∷ line) rest)

-- Where the search finds a line end, CR and LF stand there, inside the bytes.
pub search_crlf_splits :
    (s : Bytes) (n : ℕ)
    → search_crlf s ≡ some n
    → (s ≡ take n s ++ b'\r' ∷ b'\n' ∷ drop (suc (suc n)) s) × (n + 2 ≤ length s)
unfolding search_crlf
search_crlf_splits [] n h = absurd (cc)
search_crlf_splits (c ∷ []) n h = absurd (cc)
search_crlf_splits (c ∷ d ∷ s) zero h = ground (arith)
search_crlf_splits (c ∷ d ∷ s) (suc n) h = ground (arith, search_crlf_splits (d ∷ s) n)

-- No line end stands before the one that is found.
pub search_crlf_first : (s : Bytes) (n : ℕ) → search_crlf s ≡ some n → LacksCrlf (take n s)
unfolding search_crlf
search_crlf_first [] n h = absurd (cc)
search_crlf_first (c ∷ []) n h = absurd (cc)
search_crlf_first (c ∷ d ∷ s) zero h = refl
search_crlf_first (c ∷ d ∷ s) (suc zero) h = refl
search_crlf_first (c ∷ d ∷ s) (suc (suc n)) h = ground (arith, search_crlf_first (d ∷ s) (suc n))

-- Bytes that come later do not change what was found.
pub search_crlf-append_found :
    (s more : Bytes) (n : ℕ) → search_crlf s ≡ some n → search_crlf (s ++ more) ≡ some n
unfolding search_crlf
search_crlf-append_found [] more n h = absurd (cc)
search_crlf-append_found (c ∷ []) more n h = absurd (cc)
search_crlf-append_found (c ∷ d ∷ s) more zero h =
    ground (arith, search_crlf-append_found (d ∷ s) more 0)
search_crlf-append_found (c ∷ d ∷ s) more (suc n) h =
    ground (arith, search_crlf-append_found (d ∷ s) more n)

-- In a buffer in order the search between the two indices is a search in the unread bytes.
pub find_crlf-to_string : (b : Buffer) → IsValid b → find_crlf b ≡ search_crlf (to_string b)
unfolding find_crlf
find_crlf-to_string b v = rw (to_string-slice b v)
