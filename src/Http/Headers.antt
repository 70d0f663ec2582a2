-- ===== src/Http/Headers.antt =====
-- `headers_` of src/http/http_request.cpp and src/http/http_response.cpp, a
-- `std::unordered_map<std::string, std::string>` whose keys are in lower case, as an association
-- list. The two classes have the same methods on it.
use tzzero_http.Prelude.{
  ◌≡◌, ◌≢◌, refl, ap, ◌∙◌, arith, inl, inr, Bool, true, false, ◌||◌, if◌then◌else◌, Option, none,
  some, List, [], ◌∷◌, ◌++◌, Bytes, codes, ◌=?◌, =?_iff, Option-cases,
}
use tzzero_http.Http.Numbers.{lower, lower_idempotent}

abbrev pub Headers : Type 0
Headers = List (Bytes × Bytes)

unfoldable pub find : Bytes → Headers → Option Bytes
find k [] = none
find k ((j, v) ∷ h) = if j =? k then some v else find k h

-- `headers_[k] = v`
unfoldable pub assign : Bytes → Bytes → Headers → Headers
assign k v [] = (k, v) ∷ []
assign k v ((j, w) ∷ h) = if j =? k then (j, v) ∷ h else (j, w) ∷ assign k v h

unfoldable pub erase : Bytes → Headers → Headers
erase k [] = []
erase k ((j, v) ∷ h) = if j =? k then h else (j, v) ∷ erase k h

unfoldable pub comma : Bytes → Bytes → Bytes
comma old value = old ++ codes ", " ++ value

unfoldable pub add_header : Headers → Bytes → Bytes → Headers
unfolding assign find
add_header h field value = elim (find (lower field) h) [
  | some old ↦ assign (lower field) (comma old value) h
  | none ↦ assign (lower field) value h
]

unfoldable pub set_header : Headers → Bytes → Bytes → Headers
set_header h field value = assign (lower field) value h

abbrev or_empty : Option Bytes → Bytes
or_empty none = []
or_empty (some v) = v

abbrev is_some : Option Bytes → Bool
is_some none = false
is_some (some v) = true

unfoldable pub get_header : Headers → Bytes → Bytes
get_header h field = or_empty (find (lower field) h)

unfoldable pub has_header : Headers → Bytes → Bool
has_header h field = is_some (find (lower field) h)

unfoldable pub remove_header : Headers → Bytes → Headers
remove_header h field = erase (lower field) h

pub find-assign :
    (k j v : Bytes) (h : Headers) → find j (assign k v h) ≡ (if k =? j then some v else find j h)
unfolding find assign
find-assign k j v [] = refl
find-assign k j v ((i, w) ∷ h) =
    ground (arith, =?_iff k j, =?_iff i k, =?_iff i j, find-assign k j v h)

-- No key stands twice.
abbrev Fresh : Bytes → Headers → Type 0
Fresh k [] = Unit {0}
Fresh k ((j, v) ∷ h) = (j ≢ k) × Fresh k h

-- The keys are in lower case and differ from one another.
abbrev pub IsValid : Headers → Type 0
IsValid [] = Unit {0}
IsValid ((j, v) ∷ h) = (lower j ≡ j) × Fresh j h × IsValid h

find-Fresh : (k : Bytes) (h : Headers) → Fresh k h → find k h ≡ none
unfolding find
find-Fresh k [] f = refl
find-Fresh k ((j, v) ∷ h) f = ground (arith, =?_iff j k, find-Fresh k h)

pub find-erase :
    (k j : Bytes) (h : Headers)
    → IsValid h
    → find j (erase k h) ≡ (if k =? j then none else find j h)
unfolding find erase
find-erase k j [] v = ground arith
find-erase k j ((i, w) ∷ h) v =
    ground (arith, =?_iff k j, =?_iff i k, =?_iff i j, find-erase k j h, find-Fresh j h)

Fresh-assign : (k j v : Bytes) (h : Headers) → j ≢ k → Fresh k h → Fresh k (assign j v h)
unfolding assign
Fresh-assign k j v [] d f = (d, tt)
Fresh-assign k j v ((i, w) ∷ h) d f = ground (arith, Fresh-assign k j v h)

Fresh-erase : (k j : Bytes) (h : Headers) → Fresh k h → Fresh k (erase j h)
unfolding erase
Fresh-erase k j [] f = tt
Fresh-erase k j ((i, w) ∷ h) f = ground (arith, Fresh-erase k j h)

assign-IsValid : (k v : Bytes) (h : Headers) → lower k ≡ k → IsValid h → IsValid (assign k v h)
unfolding assign
assign-IsValid k v [] low valid = (low, tt, tt)
assign-IsValid k v ((i, w) ∷ h) low valid =
    ground (arith, =?_iff i k, assign-IsValid k v h, Fresh-assign i k v h)

erase-IsValid : (k : Bytes) (h : Headers) → IsValid h → IsValid (erase k h)
unfolding erase
erase-IsValid k [] valid = tt
erase-IsValid k ((i, w) ∷ h) valid = ground (arith, erase-IsValid k h, Fresh-erase i k h)

-- Adding, setting and removing keep the names in lower case and distinct.
pub headers-IsValid :
    (h : Headers) (field value : Bytes)
    → IsValid h
    → IsValid (add_header h field value)
      × IsValid (set_header h field value)
      × IsValid (remove_header h field)
unfolding add_header set_header remove_header
headers-IsValid h field value v =
    let low = lower_idempotent field in
    (
      elim (Option-cases (find (lower field) h)) [
        | inl e ↦ rw (e, add_header) (assign-IsValid (lower field) value h low v)
        | inr (old, e) ↦ rw (e, add_header) (assign-IsValid (lower field) (comma old value) h low v)
      ],
      assign-IsValid (lower field) value h low v,
      erase-IsValid (lower field) h v,
    )

-- What a lookup gives after an addition: the name is compared without regard to case, and a value
-- that was there is extended behind a comma.
pub get_header-add_header :
    (h : Headers) (field value name : Bytes)
    → get_header (add_header h field value) name ≡ (
        if lower field =? lower name
        then (if has_header h field then comma (get_header h field) value else value)
        else get_header h name)
unfolding get_header add_header has_header
get_header-add_header h field value name = ground (
  arith,
  find-assign (lower field) (lower name) value h,
  find-assign (lower field) (lower name) (comma (or_empty (find (lower field) h)) value) h,
)

-- A lookup after `set_header` gives the new value under the name, in any case of its letters, and what
-- was there under every other name.
pub get_header-set_header :
    (h : Headers) (field value name : Bytes)
    → get_header (set_header h field value) name
      ≡ (if lower field =? lower name then value else get_header h name)
unfolding get_header set_header
get_header-set_header h field value name =
    ground (arith, find-assign (lower field) (lower name) value h)

-- A lookup after `remove_header`, in a map of distinct names in lower case, gives nothing under the
-- name and what was there under every other name.
pub get_header-remove_header :
    (h : Headers) (field name : Bytes)
    → IsValid h
    → get_header (remove_header h field) name
      ≡ (if lower field =? lower name then [] else get_header h name)
unfolding get_header remove_header
get_header-remove_header h field name v = ground (arith, find-erase (lower field) (lower name) h v)

Fresh-append : (j k v : Bytes) (acc h : Headers) → Fresh j (acc ++ (k, v) ∷ h) → k ≢ j
Fresh-append j k v [] h f = f.0
Fresh-append j k v ((i, w) ∷ acc) h f = Fresh-append j k v acc h f.1

find-append_valid :
    (k v : Bytes) (acc h : Headers)
    → IsValid (acc ++ (k, v) ∷ h)
    → (find k acc ≡ none) × (lower k ≡ k)
unfolding find
find-append_valid k v [] h valid = (refl, valid.0)
find-append_valid k v ((i, w) ∷ acc) h valid =
    ground (arith, =?_iff i k, Fresh-append i k v acc h, find-append_valid k v acc h)

assign-absent : (k v : Bytes) (h : Headers) → find k h ≡ none → assign k v h ≡ h ++ (k, v) ∷ []
unfolding find assign
assign-absent k v [] e = refl
assign-absent k v ((i, w) ∷ h) e = ground (arith, assign-absent k v h)

add_header-absent :
    (h : Headers) (k v : Bytes) → find (lower k) h ≡ none → add_header h k v ≡ assign (lower k) v h
unfolding add_header
add_header-absent h k v e = rw (e, add_header)

-- A new name goes to the end.
pub add_header-new :
    (acc h : Headers) (k v : Bytes)
    → IsValid (acc ++ (k, v) ∷ h)
    → add_header acc k v ≡ acc ++ (k, v) ∷ []
add_header-new acc h k v valid =
    let (absent, low) = find-append_valid k v acc h valid in
    add_header-absent acc k v (ap (λ x. find x acc) low ∙ absent)
    ∙ ap (λ x. assign x v acc) low
    ∙ assign-absent k v acc absent

pub has_header-set_header :
    (h : Headers) (field value name : Bytes)
    → has_header (set_header h field value) name ≡ (lower field =? lower name || has_header h name)
unfolding has_header set_header
has_header-set_header h field value name =
    ground (arith, find-assign (lower field) (lower name) value h)
