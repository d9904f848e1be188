-- ===== src/Path/Segments.antt =====
-- What the two flavours share: tests on strings, and the segments of a path.
use goja_ext.Prelude.{
  ℕ, zero, suc, ◌-◌, Bool, true, false, not, ◌&&◌, List, [], ◌∷◌, ◌++◌, ◌==◌, if◌then◌else◌, length,
  take, drop, Bytes, equal, equal_iff, codes, has_suffix, All, init, init-snoc, sym, ◌∙◌,
  append-nil, append_assoc, ◌≡◌, refl, ap, arith,
}

-- `p == ""`
abbrev pub is_empty : Bytes → Bool
is_empty [] = true
is_empty (c ∷ s) = false

-- `strings.HasSuffix` at a suffix of one byte.
abbrev pub last_is : ℕ → Bytes → Bool
last_is c [] = false
last_is c (d ∷ []) = d == c
last_is c (d ∷ e ∷ s) = last_is c (e ∷ s)

-- The loop over `i` in `relative`: how many segments the two lists share at their start.
unfoldable pub common : List Bytes → List Bytes → ℕ
common [] ys = 0
common (x ∷ xs) [] = 0
common (x ∷ xs) (y ∷ ys) = if equal x y then suc (common xs ys) else 0

-- `n` times "..".
unfoldable pub dots : ℕ → List Bytes
dots zero = []
dots (suc n) = codes ".." ∷ dots n

-- The end of `basenameExt`.
unfoldable pub strip_ext : Bytes → Bytes → Bytes
unfolding has_suffix
strip_ext base ext =
    if not (is_empty ext) && (has_suffix base ext && not (equal base ext))
    then take (length base - length ext) base
    else base

pub take-common : (xs ys : List Bytes) → take (common xs ys) xs ≡ take (common xs ys) ys
unfolding common
take-common [] ys = refl
take-common (x ∷ xs) [] = refl
take-common (x ∷ xs) (y ∷ ys) = ground (arith, equal_iff x y, take-common xs ys)

-- A segment that stays in a path: not empty, not "." and not "..".
abbrev pub is_plain : Bytes → Bool
is_plain s = not (equal s []) && (not (equal s (codes ".")) && not (equal s (codes "..")))

abbrev pub Plain : List Bytes → Type 0
Plain xs = All (λ s. is_plain s ≡ true) xs

pub Plain-drop : (n : ℕ) (xs : List Bytes) → Plain xs → Plain (drop n xs)
Plain-drop zero xs h = h
Plain-drop (suc n) [] h = tt
Plain-drop (suc n) (x ∷ xs) h = Plain-drop n xs h.1

-- `len(parts)-1` times `[:len-1]`.
unfoldable pub pop : ℕ → List Bytes → List Bytes
pop zero xs = xs
pop (suc n) xs = pop n (init xs)

pop-init : (n : ℕ) (xs : List Bytes) → pop n (init xs) ≡ init (pop n xs)
unfolding pop
pop-init zero xs = refl
pop-init (suc n) xs = pop-init n (init xs)

pub pop-append : (xs ys : List Bytes) → pop (length ys) (xs ++ ys) ≡ xs
unfolding pop
pop-append xs [] = append-nil xs
pop-append xs (y ∷ ys) =
    pop-init (length ys) (xs ++ y ∷ ys)
    ∙ ap (λ zs. init (pop (length ys) zs)) (sym (append_assoc xs (y ∷ []) ys))
    ∙ ap init (pop-append (xs ++ y ∷ []) ys)
    ∙ init-snoc xs y
