-- ===== src/Utils/Logger/Sizes.antt =====
-- The size that the logger keeps of its file, and where the lines go.
use tzzero_http.Prelude.{
  ◌+◌, ◌≤◌, ◌<◌, ◌≡◌, inl, inr, refl, sym, ap, ◌∙◌, arith, true, false, leb, leb→le, some,
  Bool-cases, [], ◌∷◌, ◌++◌, Bytes, length, length-append, add_size_exact, size_mod,
}
use tzzero_http.Utils.Logger.{
  Files, Logger, is_empty, numbered, append_line, write_file, rotate_files, rotate_log_file,
  rotate_if_full, write_line,
}
use tzzero_http.Utils.Logger.Rotation.{put_same, rotate_files_lem}

-- The file is open with these contents, and its size is noted and below the limit.
pub record IsCounted (content : Bytes) (l : Logger) : Type 0 where
  pub named : is_empty l.output_file ≡ false
  pub opened : l.is_open ≡ true
  pub held : l.files l.output_file ≡ some content
  pub size : l.current_file_size ≡ length content
  pub below : l.current_file_size < l.max_file_size

append_line-same :
    (f line content : Bytes) (fs : Files)
    → fs f ≡ some content
    → append_line f line fs f ≡ some (content ++ line ++ 10 ∷ [])
unfolding append_line
append_line-same f line content fs h =
    rw (append_line, h) (put_same f (some (content ++ line ++ 10 ∷ [])) fs)

write_file-size :
    (line content : Bytes) (l : Logger)
    → l.current_file_size ≡ length content
    → l.current_file_size < l.max_file_size
    → length line + 1 + l.max_file_size ≤ size_mod
    → (write_file line l).current_file_size ≡ length (content ++ line ++ 10 ∷ [])
unfolding write_file
write_file-size line content l e b h =
    add_size_exact l.current_file_size (length line + 1) (omega arith)
    ∙ omega (arith, length-append (content ++ line) (10 ∷ []), length-append content line)

write_line-open :
    (line : Bytes) (l : Logger)
    → is_empty l.output_file ≡ false
    → l.is_open ≡ true
    → write_line line l
      ≡ rotate_if_full (write_file line (record l { console = l.console ++ line ∷ [] }))
unfolding write_line
write_line-open line l e o = ground arith

-- What a write leaves: the line at the end of the file, or, if the file has grown to the limit, of
-- the first numbered one.
pub data Written (grown : Bytes) (l l' : Logger) : Type 0 where
  stays : length grown < l.max_file_size → IsCounted grown l' → Written grown l l'
  rotates :
      l.max_file_size ≤ length grown
      → IsCounted [] l'
      → l'.files (numbered l.output_file 1) ≡ some grown
      → Written grown l l'

rotate_log_file-named :
    (w : Logger)
    → is_empty w.output_file ≡ false
    → rotate_log_file w ≡ record w {
      files = rotate_files w.output_file w.max_files w.files;
      is_open = true;
      current_file_size = 0;
    }
unfolding rotate_log_file
rotate_log_file-named w e = ground (arith, e)

rotated-Written :
    (grown : Bytes) (l w : Logger)
    → is_empty w.output_file ≡ false
    → w.output_file ≡ l.output_file
    → w.max_file_size ≡ l.max_file_size
    → w.files w.output_file ≡ some grown
    → 0 < w.max_file_size
    → 1 < w.max_files
    → w.max_files < 2147483648
    → w.max_file_size ≤ length grown
    → Written grown l (rotate_log_file w)
rotated-Written grown l w e o m f z h u b =
    let (fresh, moved, others, kept) = rotate_files_lem w.output_file w.max_files w.files h u in
    let name : numbered l.output_file 1 ≡ numbered w.output_file 1 =
      ap (λ n. numbered n 1) (sym o) in
    rw (rotate_log_file-named w e) (
      rotates (omega (arith, b, m))
        (record { named = e; opened = refl; held = fresh; size = refl; below = z })
        (rw name (moved ∙ f)))

rotate_if_full-Written :
    (grown : Bytes) (l w : Logger)
    → is_empty w.output_file ≡ false
    → w.is_open ≡ true
    → w.output_file ≡ l.output_file
    → w.max_file_size ≡ l.max_file_size
    → w.files w.output_file ≡ some grown
    → w.current_file_size ≡ length grown
    → 0 < w.max_file_size
    → 1 < w.max_files
    → w.max_files < 2147483648
    → Written grown l (rotate_if_full w)
unfolding rotate_if_full
rotate_if_full-Written grown l w e p o m f c z h u =
    elim (Bool-cases (leb w.max_file_size w.current_file_size)) [
      | inl b ↦ rw b (
          rotated-Written grown l w e o m f z h u
            (omega (arith, c, leb→le w.max_file_size w.current_file_size b)))
      | inr b ↦ rw b (
          stays (ground (arith, c, m, b))
            (record { named = e; opened = p; held = f; size = c; below = ground (arith, b) }))
    ]

-- A line that is written to the open file is at its end, and the file's size is still noted right
-- and below the limit; or the file has reached the limit, the line is at the end of the first
-- numbered file, and the log file is empty. The conditions are that the size was
-- noted right and below the limit before, two files are kept at least and fewer than 2147483648, and
-- the sizes fit in 64 bits.
pub write_line_lem :
    (line content : Bytes) (l : Logger)
    → IsCounted content l
    → length line + 1 + l.max_file_size ≤ size_mod
    → 1 < l.max_files
    → l.max_files < 2147483648
    → Written (content ++ line ++ 10 ∷ []) l (write_line line l)
unfolding write_file
write_line_lem line content l v h two u =
    let shown = record l { console = l.console ++ line ∷ [] } in
    rw (write_line-open line l v.named v.opened) (
      rotate_if_full-Written (content ++ line ++ 10 ∷ []) l (write_file line shown) v.named v.opened
        refl refl (append_line-same l.output_file line content l.files v.held)
        (write_file-size line content shown v.size v.below h) (omega (arith, v.below)) two u)
