-- ===== src/Path/Win32/Normal.antt =====
-- The segments that `normalize` keeps, and `relative`.
use goja_ext.Prelude.{
  ℕ, zero, suc, ◌||◌, ◌&&◌, ◌==◌, List, [], ◌∷◌, ◌++◌, if◌then◌else◌, Bytes, All-append, All-init,
  codes, ◌≡◌, refl, ap, ◌∙◌, arith, append_assoc, append-nil, sym, split, init, length, take, drop,
  equal, replace_byte, take-append-drop, if_split,
}
use goja_ext.Path.Segments.{Plain, Plain-drop, common, take-common, dots, pop, pop-append}
use goja_ext.Path.Win32.{
  to_backslash, is_drive_letter, is_win_separator, drive_prefix, unc_prefix, split_win_prefix,
  normalize, assemble, clean_from, clean_step, clean_win_segments, relative_segments,
}

clean_from-Plain : (out parts : List Bytes) → Plain out → Plain (clean_from out parts)
unfolding clean_from
clean_from-Plain out [] h = h
clean_from-Plain out (seg ∷ parts) h = clean_from-Plain (clean_step out seg) parts (
    if_split Plain (equal seg [] || equal seg (codes ".")) out
      (if equal seg (codes "..") then init out else out ++ (seg ∷ [])) (λ _. h)
      (λ p.
        if_split Plain (equal seg (codes "..")) (init out) (out ++ (seg ∷ []))
          (λ _. All-init _ out h) (λ q. All-append _ out (seg ∷ []) h (ground arith, tt))))

clean_from-append :
    (out xs ys : List Bytes) → clean_from out (xs ++ ys) ≡ clean_from (clean_from out xs) ys
unfolding clean_from
clean_from-append out [] ys = refl
clean_from-append out (x ∷ xs) ys = clean_from-append (clean_step out x) xs ys

clean_from_of : (out parts : List Bytes) → Plain parts → clean_from out parts ≡ out ++ parts
unfolding clean_from
clean_from_of out [] h = sym (append-nil out)
clean_from_of out (seg ∷ parts) h =
    ground (arith, clean_from_of (out ++ (seg ∷ [])) parts h.1, append_assoc out (seg ∷ []) parts)

clean_from-dots : (n : ℕ) (out : List Bytes) → clean_from out (dots n) ≡ pop n out
unfolding clean_from dots pop equal
clean_from-dots zero out = refl
clean_from-dots (suc n) out = clean_from-dots n (init out)

-- `cleanWinSegments` leaves no empty segment, no "." and no "..", and cleaning again changes nothing.
pub clean_win_segments-Plain :
    (parts : List Bytes)
    → Plain (clean_win_segments parts)
      × (clean_win_segments (clean_win_segments parts) ≡ clean_win_segments parts)
clean_win_segments-Plain parts =
    let h = clean_from-Plain [] parts tt in (h, clean_from_of [] (clean_win_segments parts) h)

-- Following the segments of `relative` from the cleaned segments of `from` leads to those of `to`.
pub clean_from-relative_segments :
    (from to : List Bytes)
    → clean_from
        (clean_win_segments from)
        (relative_segments (clean_win_segments from) (clean_win_segments to))
      ≡ clean_win_segments to
unfolding relative_segments
clean_from-relative_segments from to =
    let f = clean_win_segments from in
    let t = clean_win_segments to in
    let i = common f t in
    let up : pop (length (drop i f)) f ≡ take i f =
      ap (pop (length (drop i f))) (sym (take-append-drop i f))
      ∙ pop-append (take i f) (drop i f) in
    clean_from-append f (dots (length (drop i f))) (drop i t)
    ∙ ap (λ out. clean_from out (drop i t))
        (clean_from-dots (length (drop i f)) f ∙ up ∙ take-common f t)
    ∙ clean_from_of (take i t) (drop i t) (Plain-drop i t (clean_from-Plain [] to tt))
    ∙ take-append-drop i t

no_prefix : (p : Bytes) → (split_win_prefix p).0 ≡ [] → split_win_prefix p ≡ ([], p)
unfolding split_win_prefix drive_prefix unc_prefix
no_prefix [] h = refl
no_prefix (c ∷ []) h = ground arith
no_prefix (c ∷ d ∷ s) h =
    if_split Same (is_drive_letter c && (d == b':' || d == b'|')) (drive_prefix (c ∷ d ∷ []) s)
      (if is_win_separator c && is_win_separator d
        then unc_prefix (c ∷ d ∷ []) s
        else if is_win_separator c
        then (b'\\' ∷ [], d ∷ s)
        else ([], c ∷ d ∷ s))
      (λ _. drive s)
      (λ _.
        if_split Same (is_win_separator c && is_win_separator d) (unc_prefix (c ∷ d ∷ []) s)
          (if is_win_separator c then (b'\\' ∷ [], d ∷ s) else ([], c ∷ d ∷ s)) (λ _ e. cc)
          (λ _.
            if_split Same (is_win_separator c) (b'\\' ∷ [], d ∷ s) ([], c ∷ d ∷ s) (λ _ e. cc)
              (λ _ e. refl)))
      h
  where
    Same : Bytes × Bytes → Type 0
    Same r = r.0 ≡ [] → r ≡ ([], c ∷ d ∷ s)

    drive :
        (s' : Bytes)
        → (drive_prefix (c ∷ d ∷ []) s').0 ≡ []
        → drive_prefix (c ∷ d ∷ []) s' ≡ ([], c ∷ d ∷ s)
    drive [] e = cc
    drive (b ∷ s') e = ground arith

-- `n` steps up.
abbrev pub ups : ℕ → Bytes → Bytes
ups zero p = p
ups (suc n) p = codes "..\\" ++ ups n p

ups-prefix :
    (n : ℕ) (p : Bytes)
    → (split_win_prefix (to_backslash p)).0 ≡ []
    → (split_win_prefix (to_backslash (ups n p))).0 ≡ []
unfolding split_win_prefix replace_byte
ups-prefix zero p h = h
ups-prefix (suc n) p h = refl

normalize_up :
    (p : Bytes)
    → (split_win_prefix (to_backslash p)).0 ≡ []
    → normalize (codes "..\\" ++ p) ≡ normalize p
unfolding normalize replace_byte split clean_from equal
normalize_up p h =
    ap (λ (r : Bytes × Bytes). assemble r.0 (clean_win_segments (split b'\\' r.1)))
      (sym (no_prefix (to_backslash p) h))

-- Steps up at the start of a path that has no prefix, however many, are dropped: `normalize` gives what it
-- gives for the path without them, so it never leads out of the directory that the path is relative to.
pub normalize_parents :
    (n : ℕ) (p : Bytes)
    → (split_win_prefix (to_backslash p)).0 ≡ []
    → normalize (ups n p) ≡ normalize p
normalize_parents zero p h = refl
normalize_parents (suc n) p h = normalize_up (ups n p) (ups-prefix n p h) ∙ normalize_parents n p h
