-- ===== src/Prelude/Maps.antt =====
-- Maps from strings, as lists of pairs.
use mathlib.Core.Path.{◌≡◌}
use mathlib.Core.List.{List, [], ◌∷◌}
use mathlib.Core.Option.{Option, none, some}
use native.Mathlib.Omega.{arith}
use goja_ext.Prelude.Tests.{if◌then◌else◌}
use goja_ext.Prelude.Strings.{Bytes, equal, equal_iff}

module _ {ℓ} {A : Type ℓ} where
  -- `m[key]`
  unfoldable pub lookup : Bytes → List (Bytes × A) → Option A
  lookup key [] = none
  lookup key (p ∷ entries) = if equal key p.0 then some p.1 else lookup key entries

  -- `delete(m, key)`
  unfoldable pub delete_key : Bytes → List (Bytes × A) → List (Bytes × A)
  delete_key key [] = []
  delete_key key (p ∷ entries) =
      let rest = delete_key key entries in if equal key p.0 then rest else p ∷ rest

  pub lookup-delete_key :
      (k key : Bytes) (entries : List (Bytes × A))
      → lookup k (delete_key key entries) ≡ (if equal k key then none else lookup k entries)
  unfolding lookup delete_key
  lookup-delete_key k key [] = ground arith
  lookup-delete_key k key (p ∷ entries) =
      ground (
        arith,
        lookup-delete_key k key entries,
        equal_iff k key,
        equal_iff key p.0,
        equal_iff k p.0,
      )
