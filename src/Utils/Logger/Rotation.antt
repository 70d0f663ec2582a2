-- ===== src/Utils/Logger/Rotation.antt =====
-- The names and the contents of the files that a rotation moves.
use tzzero_http.Prelude.{
  ℕ, zero, suc, ◌+◌, ◌-◌, ◌^◌, ◌≤◌, ◌<◌, ◌≡◌, ◌≢◌, inl, inr, refl, sym, ap, ◌∙◌, arith, subst,
  false, ltb, if◌then◌else◌, Option, none, some, Bool-cases, Option-cases, [], ◌∷◌, Bytes, ◌=?◌,
  =?_sound, =?_refl, length, length-append, drop, drop-append_all,
}
use tzzero_http.Http.Numbers.{decimal, decimal_injective}
use tzzero_http.Utils.Logger.{
  Files, exists, put, remove, rename, numbered, rotate_one, rotate_down, move_current, rotate_files,
}

differs : (f g : Bytes) → f ≢ g → (f =? g) ≡ false
differs f g h = elim (Bool-cases (f =? g)) [ inl e ↦ absurd (h (=?_sound f g e)) | inr e ↦ e ]

pub put_same : (f : Bytes) (o : Option Bytes) (fs : Files) → put f o fs f ≡ o
unfolding put
put_same f o fs = rw (=?_refl f) refl

pub put_other : (f g : Bytes) (o : Option Bytes) (fs : Files) → g ≢ f → put f o fs g ≡ fs g
unfolding put
put_other f g o fs h = rw (differs g f h) refl

tail : Bytes → Bytes
tail [] = []
tail (x ∷ xs) = xs

numbered_injective :
    (base : Bytes) (i j : ℕ) → i < 2 ^ 64 → j < 2 ^ 64 → numbered base i ≡ numbered base j → i ≡ j
unfolding numbered tail
numbered_injective base i j h k e = decimal_injective i j h k (
    ap tail (
      sym (drop-append_all base (b'.' ∷ decimal i))
      ∙ ap (drop (length base)) e
      ∙ drop-append_all base (b'.' ∷ decimal j)))

base_differs : (base : Bytes) (i : ℕ) → base ≢ numbered base i
unfolding numbered
base_differs base i e = omega (arith, length-append base (b'.' ∷ decimal i), ap length e)

numbered_differs :
    (base : Bytes) (i j : ℕ) → i < 2 ^ 64 → j < 2 ^ 64 → i ≢ j → numbered base i ≢ numbered base j
numbered_differs base i j h k d e = d (numbered_injective base i j h k e)

pub rename_new : (f g : Bytes) (fs : Files) → f ≢ g → rename f g fs g ≡ fs f
unfolding rename
rename_new f g fs d = put_other f g none (put g (fs f) fs) (λ e. d (sym e)) ∙ put_same g (fs f) fs

pub rename_old : (f g : Bytes) (fs : Files) → rename f g fs f ≡ none
unfolding rename
rename_old f g fs = put_same f none (put g (fs f) fs)

pub rename_other : (f g n : Bytes) (fs : Files) → n ≢ f → n ≢ g → rename f g fs n ≡ fs n
unfolding rename
rename_other f g n fs d e = put_other f n none (put g (fs f) fs) d ∙ put_other g n (fs f) fs e

-- What a move of a file does that may not be there, onto a name that is free.
record Moved (f g : Bytes) (fs : Files) (moved : Files) : Type 0 where
  new : moved g ≡ fs f
  old : moved f ≡ none
  others : (n : Bytes) → n ≢ f → n ≢ g → moved n ≡ fs n

exists_none : (f : Bytes) (fs : Files) → exists f fs ≡ false → fs f ≡ none
unfolding exists
exists_none f fs h = elim (Option-cases (fs f)) [
  | inl e ↦ e
  | inr (c, e) ↦ absurd (cc (rw (e, exists) at h))
]

move-Moved :
    (f g : Bytes) (fs : Files)
    → f ≢ g
    → fs g ≡ none
    → Moved f g fs (if exists f fs then rename f g fs else fs)
move-Moved f g fs d free = elim (Bool-cases (exists f fs)) [
  | inl e ↦ rw e (record {
    new = rename_new f g fs d;
    old = rename_old f g fs;
    others = λ n h k. rename_other f g n fs h k;
  })
  | inr e ↦ rw e (record {
    new = free ∙ sym (exists_none f fs e);
    old = exists_none f fs e;
    others = λ n h k. refl;
  })
]

-- Every file below a number went to the next number.
record Shifted (base : Bytes) (k : ℕ) (fs : Files) (r : Files) : Type 0 where
  shifted : (j : ℕ) → 1 ≤ j → j ≤ k → r (numbered base (suc j)) ≡ fs (numbered base j)
  free : r (numbered base 1) ≡ none
  others : (n : Bytes) → ((j : ℕ) → 1 ≤ j → j ≤ suc k → n ≢ numbered base j) → r n ≡ fs n

rotate_one_moves :
    (base : Bytes) (max_files i : ℕ) (fs : Files)
    → suc i < max_files
    → rotate_one base max_files i fs ≡ (
        if exists (numbered base i) fs
        then rename (numbered base i) (numbered base (suc i)) fs
        else fs)
unfolding rotate_one
rotate_one_moves base max_files i fs h =
    let next : i + 1 ≡ suc i = omega arith in
    ground (arith, ap (λ k. rename (numbered base i) (numbered base k) fs) next)

shift_more :
    (base : Bytes) (k : ℕ) (fs fs' r : Files)
    → suc k < 2147483648
    → Moved (numbered base (suc k)) (numbered base (suc (suc k))) fs fs'
    → Shifted base k fs' r
    → Shifted base (suc k) fs r
shift_more base k fs fs' r u m s = record {
  shifted = λ j l b. elim (Bool-cases (ltb k j)) [
    | inl e ↦
        subst (λ i. r (numbered base (suc i)) ≡ fs (numbered base i)) (ground (arith, e))
          (s.others (numbered base (suc (suc k))) (λ i v w.
              numbered_differs base (suc (suc k)) i (omega arith) (omega arith) (omega arith))
            ∙ m.new)
    | inr e ↦
        s.shifted j l (ground (arith, e))
        ∙ m.others (numbered base j)
            (numbered_differs base j (suc k) (omega arith) (omega arith) (ground (arith, e)))
            (numbered_differs base j (suc (suc k)) (omega arith) (omega arith) (omega arith))
  ];
  free = s.free;
  others = λ n d.
      s.others n (λ j l b. d j l (omega arith))
      ∙ m.others n (d (suc k) (omega arith) (omega arith))
          (d (suc (suc k)) (omega arith) (omega arith));
}

rotate_down-Shifted :
    (base : Bytes) (max_files k : ℕ) (fs : Files)
    → suc k < max_files
    → max_files < 2147483648
    → fs (numbered base (suc k)) ≡ none
    → Shifted base k fs (rotate_down base max_files k fs)
unfolding rotate_down
rotate_down-Shifted base max_files zero fs h u e = record {
  shifted = λ j l m. absurd (omega arith);
  free = e;
  others = λ n d. refl;
}
rotate_down-Shifted base max_files (suc k) fs h u e =
    let fs' = rotate_one base max_files (suc k) fs in
    let m =
      subst (Moved (numbered base (suc k)) (numbered base (suc (suc k))) fs)
        (sym (rotate_one_moves base max_files (suc k) fs (omega arith)))
        (move-Moved (numbered base (suc k)) (numbered base (suc (suc k))) fs
          (numbered_differs base (suc k) (suc (suc k)) (omega arith) (omega arith) (omega arith))
          e) in
    shift_more base k fs fs' (rotate_down base max_files k fs') (omega arith) m
      (rotate_down-Shifted base max_files k fs' (omega arith) u m.old)

rotate_one_last :
    (base : Bytes) (i : ℕ) (fs : Files)
    → rotate_one base (suc i) i fs
      ≡ (if exists (numbered base i) fs then remove (numbered base i) fs else fs)
unfolding rotate_one
rotate_one_last base i fs = ground arith

-- The oldest file is gone.
record Dropped (f : Bytes) (fs : Files) (r : Files) : Type 0 where
  gone : r f ≡ none
  others : (n : Bytes) → n ≢ f → r n ≡ fs n

remove-Dropped : (f : Bytes) (fs : Files) → Dropped f fs (if exists f fs then remove f fs else fs)
unfolding remove
remove-Dropped f fs = elim (Bool-cases (exists f fs)) [
  | inl e ↦ rw e (record { gone = put_same f none fs; others = λ n d. put_other f n none fs d })
  | inr e ↦ rw e (record { gone = exists_none f fs e; others = λ n d. refl })
]

move_current-Moved :
    (base : Bytes) (fs : Files)
    → fs (numbered base 1) ≡ none
    → Moved base (numbered base 1) fs (move_current base fs)
unfolding move_current
move_current-Moved base fs e = move-Moved base (numbered base 1) fs (base_differs base 1) e

rotated_lem :
    (base : Bytes) (k : ℕ) (fs : Files)
    → suc (suc k) < 2147483648
    → let r = put base (some []) (move_current base (rotate_down base (suc (suc k)) (suc k) fs)) in
      (r base ≡ some [])
      × (r (numbered base 1) ≡ fs base)
      × ((j : ℕ) → 1 ≤ j → suc j < suc (suc k) → r (numbered base (suc j)) ≡ fs (numbered base j))
      × ((n : Bytes)
          → n ≢ base
          → ((j : ℕ) → 1 ≤ j → j < suc (suc k) → n ≢ numbered base j)
          → r n ≡ fs n)
unfolding rotate_down
rotated_lem base k fs u =
    let dropped = rotate_one base (suc (suc k)) (suc k) fs in
    let d =
      subst (Dropped (numbered base (suc k)) fs) (sym (rotate_one_last base (suc k) fs))
        (remove-Dropped (numbered base (suc k)) fs) in
    let down = rotate_down base (suc (suc k)) k dropped in
    let s = rotate_down-Shifted base (suc (suc k)) k dropped (omega arith) u d.gone in
    let m = move_current-Moved base down s.free in
    let outer =
      λ (n : Bytes) (e : n ≢ base). put_other base n (some []) (move_current base down) e in
    (
      put_same base (some []) (move_current base down),
      outer (numbered base 1) (λ e. base_differs base 1 (sym e))
          ∙ m.new
          ∙ s.others base (λ j l b. base_differs base j)
          ∙ d.others base (base_differs base (suc k)),
      (λ j l b.
          outer (numbered base (suc j)) (λ e. base_differs base (suc j) (sym e))
          ∙ m.others (numbered base (suc j)) (λ e. base_differs base (suc j) (sym e))
              (numbered_differs base (suc j) 1 (omega arith) (omega arith) (omega arith))
          ∙ s.shifted j l (omega arith)
          ∙ d.others (numbered base j)
              (numbered_differs base j (suc k) (omega arith) (omega arith) (omega arith))),
      λ n e f.
          outer n e
          ∙ m.others n e (f 1 (omega arith) (omega arith))
          ∙ s.others n (λ j l b. f j l (omega arith))
          ∙ d.others n (f (suc k) (omega arith) (omega arith)),
    )

-- A rotation: the log file is empty, what it held is in the file with the number 1, what each
-- numbered file held is in the next one, what the one with the largest number held is gone, and no
-- other file changes. The condition is that two files are kept at least, and fewer than
-- 2147483648.
pub rotate_files_lem :
    (base : Bytes) (max_files : ℕ) (fs : Files)
    → 1 < max_files
    → max_files < 2147483648
    → (rotate_files base max_files fs base ≡ some [])
      × (rotate_files base max_files fs (numbered base 1) ≡ fs base)
      × ((j : ℕ)
          → 1 ≤ j
          → suc j < max_files
          → rotate_files base max_files fs (numbered base (suc j)) ≡ fs (numbered base j))
      × ((n : Bytes)
          → n ≢ base
          → ((j : ℕ) → 1 ≤ j → j < max_files → n ≢ numbered base j)
          → rotate_files base max_files fs n ≡ fs n)
unfolding rotate_files
rotate_files_lem base zero fs h u = absurd (omega arith)
rotate_files_lem base (suc zero) fs h u = absurd (omega arith)
rotate_files_lem base (suc (suc k)) fs h u =
    let less : suc (suc k) - 1 ≡ suc k = omega arith in rw less (rotated_lem base k fs u)
