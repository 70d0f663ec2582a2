-- ===== src/Http/RoundTrip/HeaderLine.antt =====
-- A header line of a printed request.
use tzzero_http.Prelude.{
  ℕ, ◌≡◌, ◌≢◌, refl, arith, Bool, true, false, [], ◌∷◌, ◌++◌, Bytes, All-append, ◌=?◌,
  take-append_all, drop-append_next, =?_iff,
}
use tzzero_http.Http.Request.{HttpRequest, add_header}
use tzzero_http.Http.Parser.Lines.{
  header_line, trim_end, trim_start, trim_field, trim_value, is_blank, is_blank_or_eol,
}
use tzzero_http.Http.RoundTrip.RequestLine.{Lacks, find_char-append}

-- The text does not begin with a blank.
abbrev pub StartsClean : Bytes → Type 0
StartsClean [] = Unit {0}
StartsClean (c ∷ s) = is_blank c ≡ false

-- The text does not end with a blank or a line end.
abbrev pub EndsClean : Bytes → Type 0
EndsClean [] = Unit {0}
EndsClean (c ∷ []) = is_blank_or_eol c ≡ false
EndsClean (c ∷ d ∷ s) = EndsClean (d ∷ s)

is_blank_lem : (c : ℕ) → is_blank_or_eol c ≡ false → is_blank c ≡ false
unfolding is_blank is_blank_or_eol
is_blank_lem c h = ground arith

trim_end-EndsClean :
    (blank : ℕ → Bool) (s : Bytes)
    → ((c : ℕ) → is_blank_or_eol c ≡ false → blank c ≡ false)
    → EndsClean s
    → trim_end blank s ≡ s
unfolding trim_end ◌=?◌
trim_end-EndsClean blank [] w h = refl
trim_end-EndsClean blank (c ∷ []) w h = ground (arith, w c h)
trim_end-EndsClean blank (c ∷ d ∷ s) w h = rw (trim_end-EndsClean blank (d ∷ s) w h)

trim_start-StartsClean : (s : Bytes) → StartsClean s → trim_start is_blank s ≡ s
unfolding trim_start
trim_start-StartsClean [] h = refl
trim_start-StartsClean (c ∷ s) h = ground arith

pub trim_field-clean : (s : Bytes) → StartsClean s → EndsClean s → trim_field s ≡ s
unfolding trim_field
trim_field-clean s h k =
    rw (trim_end-EndsClean is_blank s is_blank_lem k) (trim_start-StartsClean s h)

-- The blank that a printed value stands behind goes.
pub trim_value-clean : (s : Bytes) → StartsClean s → EndsClean s → trim_value (b' ' ∷ s) ≡ s
unfolding trim_value is_blank is_blank_or_eol ◌=?◌
trim_value-clean [] h k = refl
trim_value-clean (c ∷ s) h k =
    rw (trim_end-EndsClean is_blank_or_eol (b' ' ∷ c ∷ s) (λ a e. e) k)
      (trim_start-StartsClean (c ∷ s) h)

-- A header that a line can carry: a name without colon, and neither with CR nor with blanks around.
pub record IsPrintable (field value : Bytes) : Type 0 where
  pub named : field ≢ []
  pub no_colon : Lacks b':' field
  pub field_line : Lacks b'\r' field
  pub value_line : Lacks b'\r' value
  pub field_start : StartsClean field
  pub field_end : EndsClean field
  pub value_start : StartsClean value
  pub value_end : EndsClean value

pub header_line-print :
    (field value : Bytes) (r : HttpRequest)
    → IsPrintable field value
    → header_line (field ++ b':' ∷ b' ' ∷ value) r ≡ (true, add_header r field value)
unfolding header_line
header_line-print field value r ok = ground (
  arith,
  find_char-append b':' field (b' ' ∷ value) ok.no_colon,
  take-append_all field (b':' ∷ b' ' ∷ value),
  drop-append_next field b':' (b' ' ∷ value),
  trim_field-clean field ok.field_start ok.field_end,
  trim_value-clean value ok.value_start ok.value_end,
  ok.named,
  =?_iff field [],
)

pub Lacks-header_line :
    (field value : Bytes) → IsPrintable field value → Lacks b'\r' (field ++ b':' ∷ b' ' ∷ value)
Lacks-header_line field value ok =
    All-append (λ c. c ≢ b'\r') field (b':' ∷ b' ' ∷ value) ok.field_line
      (omega arith, (omega arith, ok.value_line))
