-- ===== src/Path/Win32/Prefix.antt =====
-- The prefix of a win32 path, and absolute parts.
use mathlib.Core.List.{reverse, reverse-append, reverse-cons}
use goja_ext.Prelude.{
  ℕ, Bool, true, false, not, List, [], ◌∷◌, ◌++◌, if◌then◌else◌, Bytes, Avoids, ◌≡◌, refl, ap, ◌∙◌,
  arith, append_assoc, replace_byte,
}
use goja_ext.Path.Segments.{is_empty}
use goja_ext.Path.Win32.{
  to_backslash, is_win_separator, span, drive_prefix, unc_prefix, split_win_prefix, is_absolute,
  is_absolute_bytes, resolve_from, resolve, normalize,
}

pub to_backslash-Avoids : (p : Bytes) → Avoids b'/' (to_backslash p)
unfolding replace_byte
to_backslash-Avoids [] = tt
to_backslash-Avoids (c ∷ p) = (ground arith, to_backslash-Avoids p)

to_backslash_of : (p : Bytes) → Avoids b'/' p → to_backslash p ≡ p
unfolding replace_byte
to_backslash_of [] h = refl
to_backslash_of (c ∷ p) h = ground (arith, to_backslash_of p h.1)

pub to_backslash_idem : (p : Bytes) → to_backslash (to_backslash p) ≡ to_backslash p
to_backslash_idem p = to_backslash_of (to_backslash p) (to_backslash-Avoids p)

span-append : (test : ℕ → Bool) (s : Bytes) → (span test s).0 ++ (span test s).1 ≡ s
unfolding span
span-append test [] = refl
span-append test (c ∷ s) = ground (arith, span-append test s)

unc_prefix-append :
    (start s : Bytes) → (unc_prefix start s).0 ++ (unc_prefix start s).1 ≡ start ++ s
unfolding unc_prefix
unc_prefix-append start s =
    let a = span (λ c. not (is_win_separator c)) s in
    let b = span is_win_separator a.1 in
    let d = span (λ c. not (is_win_separator c)) b.1 in
    simp append_assoc (
      ap (λ t. start ++ (a.0 ++ (b.0 ++ t))) (span-append (λ c. not (is_win_separator c)) b.1)
      ∙ ap (λ t. start ++ (a.0 ++ t)) (span-append is_win_separator a.1)
      ∙ ap (λ t. start ++ t) (span-append (λ c. not (is_win_separator c)) s))

drive_prefix-append :
    (drive s : Bytes)
    → Avoids b'/' s
    → (drive_prefix drive s).0 ++ (drive_prefix drive s).1 ≡ drive ++ s
unfolding drive_prefix
drive_prefix-append drive [] h = refl
drive_prefix-append drive (c ∷ s) h = ground (arith, append_assoc drive (b'\\' ∷ []) s)

split_prefix_bytes :
    (p : Bytes) → Avoids b'/' p → (split_win_prefix p).0 ++ (split_win_prefix p).1 ≡ p
unfolding split_win_prefix
split_prefix_bytes [] h = refl
split_prefix_bytes (c ∷ []) h = ground arith
split_prefix_bytes (c ∷ d ∷ s) h =
    ground (arith, drive_prefix-append (c ∷ d ∷ []) s h.1.1, unc_prefix-append (c ∷ d ∷ []) s)

-- Splitting a path whose slashes are turned into backslashes loses nothing: the prefix and the rest are
-- the path.
pub split_win_prefix-append :
    (p : Bytes)
    → (split_win_prefix (to_backslash p)).0 ++ (split_win_prefix (to_backslash p)).1
      ≡ to_backslash p
split_win_prefix-append p = split_prefix_bytes (to_backslash p) (to_backslash-Avoids p)

is_absolute_nonempty : (p : Bytes) → is_absolute p ≡ true → is_empty p ≡ false
unfolding is_absolute replace_byte
is_absolute_nonempty [] h = cc
is_absolute_nonempty (c ∷ p) h = refl

is_absolute-to_backslash : (p : Bytes) → is_absolute (to_backslash p) ≡ is_absolute p
unfolding is_absolute
is_absolute-to_backslash p = ap is_absolute_bytes (to_backslash_idem p)

-- The loop stops at an absolute part: what comes behind it in the loop is not read.
resolve_from_stops :
    (after : List Bytes) (p : Bytes) (xs ys : List Bytes) (resolved : Bytes)
    → is_absolute p ≡ true
    → resolve_from (after ++ p ∷ xs) resolved ≡ resolve_from (after ++ p ∷ ys) resolved
unfolding resolve_from
resolve_from_stops [] p xs ys resolved h =
    ground (arith, is_absolute_nonempty p h, is_absolute-to_backslash p)
resolve_from_stops (q ∷ after) p xs ys resolved h = ground (
  arith,
  resolve_from_stops after p xs ys
      (if is_empty q then resolved else to_backslash q ++ (b'\\' ∷ resolved)) h,
)

reverse_parts :
    (before after : List Bytes) (p cwd : Bytes)
    → reverse (before ++ p ∷ after) ++ cwd ∷ [] ≡ reverse after ++ p ∷ (reverse before ++ cwd ∷ [])
reverse_parts before after p cwd = simp (reverse-append, reverse-cons, append_assoc)

-- `resolve` with an absolute part depends neither on the current directory nor on the parts before it.
pub resolve_absolute :
    (before after : List Bytes) (p cwd cwd' : Bytes)
    → is_absolute p ≡ true
    → resolve cwd (before ++ p ∷ after) ≡ resolve cwd' (p ∷ after)
unfolding resolve
resolve_absolute before after p cwd cwd' h =
    rw (reverse_parts before after p cwd, reverse_parts [] after p cwd')
      (ap normalize
        (resolve_from_stops (reverse after) p (reverse before ++ cwd ∷ []) (cwd' ∷ []) [] h))
