-- ===== src/Prelude/Strings.antt =====
-- Go strings and byte slices as lists of bytes, with the functions of package `strings` that the
-- sources call.
use Prim.Native.Char.{code}
use Prim.Native.Nat.{ℕ, ◌-◌, ◌<◌}
use Prim.Native.String.{String}
use mathlib.Core.Path.{◌≡◌, refl, ap, subst}
use mathlib.Core.Logic.{◌↔◌}
use mathlib.Core.Bool.{Bool, true, false, ◌&&◌}
use mathlib.Core.List.{List, [], ◌∷◌, ◌++◌}
use mathlib.Core.Option.{Option, none, some}
use native.Mathlib.Omega.{arith}
use goja_ext.Prelude.Tests.{◌==◌, if◌then◌else◌, leb}
use goja_ext.Prelude.Lists.{length, drop, All}

abbrev pub Bytes : Type 0
Bytes = List ℕ

-- The bytes of an ASCII literal.
abbrev pub codes : String → Bytes
codes String.[] = []
codes (String.◌∷◌ c s) = code c ∷ codes s

abbrev pub IsByte : ℕ → Type 0
IsByte c = c < 256

-- `a == b` on strings.
unfoldable pub equal : Bytes → Bytes → Bool
equal [] [] = true
equal [] (d ∷ t) = false
equal (c ∷ s) [] = false
equal (c ∷ s) (d ∷ t) = if c == d then equal s t else false

equal_sound : (s t : Bytes) → equal s t ≡ true → s ≡ t
unfolding equal
equal_sound [] [] h = refl
equal_sound [] (d ∷ t) h = cc
equal_sound (c ∷ s) [] h = cc
equal_sound (c ∷ s) (d ∷ t) h = ground (arith, equal_sound s t)

equal_refl : (s : Bytes) → equal s s ≡ true
unfolding equal
equal_refl [] = refl
equal_refl (c ∷ s) = ground (arith, equal_refl s)

pub equal_iff : (s t : Bytes) → (equal s t ≡ true) ↔ (s ≡ t)
equal_iff s t = (equal_sound s t, λ e. subst (λ u. equal s u ≡ true) e (equal_refl s))

pub equal_self : (a : Bytes) → equal a a ≡ true
equal_self a = (equal_iff a a).1 refl

abbrev cons_head : ℕ → List Bytes → List Bytes
cons_head c [] = (c ∷ []) ∷ []
cons_head c (x ∷ xs) = (c ∷ x) ∷ xs

-- `strings.Split` at a separator of one byte.
unfoldable pub split : ℕ → Bytes → List Bytes
split sep [] = [] ∷ []
split sep (c ∷ s) = if c == sep then [] ∷ split sep s else cons_head c (split sep s)

-- `strings.Join` with a separator of one byte.
abbrev pub join : ℕ → List Bytes → Bytes
join sep [] = []
join sep (x ∷ []) = x
join sep (x ∷ y ∷ xs) = x ++ (sep ∷ join sep (y ∷ xs))

abbrev pub Avoids : ℕ → Bytes → Type 0
Avoids sep s = All (λ c. (c == sep) ≡ false) s

pub split-Avoids : (sep : ℕ) (s : Bytes) → Avoids sep s → split sep s ≡ s ∷ []
unfolding split
split-Avoids sep [] h = refl
split-Avoids sep (c ∷ s) h = ground (arith, split-Avoids sep s h.1)

pub split-append :
    (sep : ℕ) (s t : Bytes) → Avoids sep s → split sep (s ++ (sep ∷ t)) ≡ s ∷ split sep t
unfolding split
split-append sep [] t h = ground arith
split-append sep (c ∷ s) t h = ground (arith, split-append sep s t h.1)

-- Every piece of a split avoids the separator.
pub split_pieces_Avoid : (sep : ℕ) (s : Bytes) → All (Avoids sep) (split sep s)
unfolding split
split_pieces_Avoid sep [] = (tt, tt)
split_pieces_Avoid sep (c ∷ s) = cons (split sep s) (split_pieces_Avoid sep s)
  where
    cons :
        (l : List Bytes)
        → All (Avoids sep) l
        → All (Avoids sep) (if c == sep then [] ∷ l else cons_head c l)
    cons [] h = ground arith
    cons (x ∷ l) h = ground arith

pub split-join :
    (sep : ℕ) (x : Bytes) (xs : List Bytes)
    → All (Avoids sep) (x ∷ xs)
    → split sep (join sep (x ∷ xs)) ≡ x ∷ xs
split-join sep x [] h = split-Avoids sep x h.0
split-join sep x (y ∷ xs) h =
    rw (split-append sep x (join sep (y ∷ xs)) h.0) (ap (◌∷◌ x) (split-join sep y xs h.1))

-- `strings.SplitN(s, sep, 2)`: what stands before the first separator, and what stands after it.
unfoldable pub split_first : ℕ → Bytes → Bytes × Option Bytes
split_first sep [] = ([], none)
split_first sep (c ∷ s) =
    if c == sep then ([], some s) else let (a, b) = split_first sep s in (c ∷ a, b)

pub split_first-append :
    (sep : ℕ) (s t : Bytes) → Avoids sep s → split_first sep (s ++ (sep ∷ t)) ≡ (s, some t)
unfolding split_first
split_first-append sep [] t h = ground arith
split_first-append sep (c ∷ s) t h = ground (arith, split_first-append sep s t h.1)

-- `strings.HasPrefix`
unfoldable pub has_prefix : Bytes → Bytes → Bool
has_prefix s [] = true
has_prefix [] (p ∷ ps) = false
has_prefix (c ∷ s) (p ∷ ps) = c == p && has_prefix s ps

-- `strings.HasSuffix`
unfoldable pub has_suffix : Bytes → Bytes → Bool
unfolding equal
has_suffix s suffix =
    leb (length suffix) (length s) && equal (drop (length s - length suffix) s) suffix

-- `strings.ReplaceAll` of one byte by another.
unfoldable pub replace_byte : ℕ → ℕ → Bytes → Bytes
replace_byte old new [] = []
replace_byte old new (c ∷ s) = (if c == old then new else c) ∷ replace_byte old new s

-- `strings.TrimRight` of one byte.
unfoldable pub trim_right : ℕ → Bytes → Bytes
trim_right cut [] = []
trim_right cut (c ∷ s) = put (trim_right cut s)
  where
    put : Bytes → Bytes
    put [] = if c == cut then [] else c ∷ []
    put (d ∷ t) = c ∷ d ∷ t

-- What stands before the last `sep`, and what stands behind it: the slices that the sources take at
-- `strings.LastIndexByte`. `none` where the index is -1.
unfoldable pub split_last : ℕ → Bytes → Option (Bytes × Bytes)
split_last sep [] = none
split_last sep (c ∷ s) = put (split_last sep s)
  where
    put : Option (Bytes × Bytes) → Option (Bytes × Bytes)
    put none = if c == sep then some ([], s) else none
    put (some (a, b)) = some (c ∷ a, b)
