-- ===== src/Kv/Policy/Keys.antt =====
-- The keys of a read: what `validateKeys` lets through.
use goja_ext.Prelude.{
  ◌<◌, ◌≤◌, Bool, false, List, [], ◌∷◌, none, ◌≡◌, ◌≢◌, ◌↔◌, ◌⊎◌, length, Bytes, codes, equal_iff,
  All, arith,
}
use goja_ext.Kv.Policy.{Limits, validate_key, validate_each, validate_keys}

-- A key that the limits allow.
abbrev pub IsAllowed : Limits → Bytes → Type 0
IsAllowed l key =
    ((key ≢ []) × ((key ≢ codes ".") × (key ≢ codes "..")))
    × ((l.max_key_bytes ≡ 0) ⊎ (length key ≤ l.max_key_bytes))

-- A count of keys that the limits allow in one read of several keys.
abbrev pub IsBulk : Limits → List Bytes → Type 0
IsBulk l keys = (0 < length keys) × ((l.max_bulk_keys ≡ 0) ⊎ (length keys ≤ l.max_bulk_keys))

validate_key-none : (l : Limits) (key : Bytes) → (validate_key l key ≡ none) ↔ IsAllowed l key
unfolding validate_key
validate_key-none l key =
    ground (arith, equal_iff key [], equal_iff key (codes "."), equal_iff key (codes ".."))

validate_each-none :
    (l : Limits) (keys : List Bytes) → (validate_each l keys ≡ none) ↔ All (IsAllowed l) keys
unfolding validate_each
validate_each-none l [] = ground arith
validate_each-none l (key ∷ keys) =
    ground (arith, validate_key-none l key, validate_each-none l keys)

-- `validateKeys` reports no error exactly if every key is allowed and, in a bulk read, there is at least
-- one key and not more than the limit.
pub validate_keys-none :
    (l : Limits) (keys : List Bytes) (bulk : Bool)
    → (validate_keys l keys bulk ≡ none)
      ↔ (All (IsAllowed l) keys × ((bulk ≡ false) ⊎ IsBulk l keys))
unfolding validate_keys
validate_keys-none l keys bulk = ground (arith, validate_each-none l keys)
