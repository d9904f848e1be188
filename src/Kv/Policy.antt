-- ===== src/Kv/Policy.antt =====
-- cloudflarekv/policy.go. A limit that is not positive, which the code reads as none, is 0; a duration
-- counts nanoseconds, and one that is not positive is 0.
pub mod Rate
pub mod Keys
use goja_ext.Prelude.{
  ℕ, zero, suc, ◌+◌, ◌-◌, ◌≤◌, ◌<◌, ◌*◌, Bool, true, false, not, ◌&&◌, ◌||◌, List, [], ◌∷◌, Option,
  none, some, ◌≡◌, ◌==◌, ltb, leb, ◌⊎◌, inl, inr, if◌then◌else◌, length, Bytes, equal, codes,
  lookup, delete_key,
}

pub record Limits : Type 0 where
  pub max_key_bytes : ℕ
  pub max_value_bytes : ℕ
  pub max_metadata_bytes : ℕ
  pub max_bulk_keys : ℕ
  pub max_bulk_response_bytes : ℕ
  pub max_list_keys : ℕ
  pub min_cache_ttl : ℕ
  pub min_expiration_ttl : ℕ

abbrev pub second : ℕ
second = 1000000000

abbrev pub cloudflare_limits : Limits
cloudflare_limits = record {
  max_key_bytes = 512;
  max_value_bytes = 25 * 1024 * 1024;
  max_metadata_bytes = 1024;
  max_bulk_keys = 100;
  max_bulk_response_bytes = 25 * 1024 * 1024;
  max_list_keys = 1000;
  min_cache_ttl = 30 * second;
  min_expiration_ttl = 60 * second;
}

-- The errors of the checks, in the order of the source.
pub data PolicyError : Type 0 where
  cache_ttl_too_short key_not_allowed key_too_long no_bulk_key too_many_bulk_keys value_too_large :
      PolicyError
  expiration_ttl_too_short expiration_too_soon metadata_not_json metadata_too_large : PolicyError

-- `maximum > 0 && size > maximum`
abbrev pub exceeds : ℕ → ℕ → Bool
exceeds maximum size = ltb 0 maximum && ltb maximum size

-- `minimum > 0 && requested < minimum`
abbrev pub falls_short : ℕ → ℕ → Bool
falls_short minimum requested = ltb 0 minimum && ltb requested minimum

unfoldable pub cache_ttl : Limits → ℕ → ℕ → Bool → PolicyError ⊎ ℕ
cache_ttl l default requested supplied =
    if supplied
    then (if falls_short l.min_cache_ttl requested then inl cache_ttl_too_short else inr requested)
    else inr default

unfoldable pub validate_key : Limits → Bytes → Option PolicyError
validate_key l key =
    if equal key [] || (equal key (codes ".") || equal key (codes ".."))
    then some key_not_allowed
    else if exceeds l.max_key_bytes (length key)
    then some key_too_long
    else none

-- The loop over the keys.
unfoldable pub validate_each : Limits → List Bytes → Option PolicyError
unfolding validate_key
validate_each l [] = none
validate_each l (key ∷ keys) = elim (validate_key l key) [
  | none ↦ validate_each l keys
  | some e ↦ some e
]

unfoldable pub validate_keys : Limits → List Bytes → Bool → Option PolicyError
unfolding validate_each
validate_keys l keys bulk =
    if bulk && length keys == 0
    then some no_bulk_key
    else if bulk && exceeds l.max_bulk_keys (length keys)
    then some too_many_bulk_keys
    else validate_each l keys

unfoldable pub validate_value_size : Limits → ℕ → Option PolicyError
validate_value_size l size = if exceeds l.max_value_bytes size then some value_too_large else none

-- `store.PutOptions`, with metadata of a type `M`; no check reads its `ValueKind`.
pub record PutOptions (M : Type 0) : Type 0 where
  pub expiration_ttl : ℕ
  pub expiration : Option ℕ
  pub metadata : Option M

abbrev pub too_soon : ℕ → ℕ → Option ℕ → Bool
too_soon minimum now none = false
too_soon minimum now (some expiration) = ltb (expiration - now) minimum

-- The check of the metadata, at the length of what `json.Marshal` gives.
unfoldable pub check_metadata : Limits → Option ℕ → Option PolicyError
check_metadata l none = some metadata_not_json
check_metadata l (some n) = if exceeds l.max_metadata_bytes n then some metadata_too_large else none

-- `marshal` stands for the length of what `json.Marshal` gives, none for its error.
unfoldable pub validate_put_options :
    {M : Type 0} → (M → Option ℕ) → Limits → ℕ → PutOptions M → Option PolicyError
unfolding check_metadata
validate_put_options marshal l now o =
    if ltb 0 l.min_expiration_ttl
      && (ltb 0 o.expiration_ttl && ltb o.expiration_ttl l.min_expiration_ttl)
    then some expiration_ttl_too_short
    else if ltb 0 l.min_expiration_ttl && too_soon l.min_expiration_ttl now o.expiration
    then some expiration_too_soon
    else elim o.metadata [ none ↦ none | some m ↦ check_metadata l (marshal m) ]

abbrev pub written_lately : ℕ → ℕ → Option ℕ → Bool
written_lately interval now none = false
written_lately interval now (some previous) = ltb (now - previous) interval

-- The loop that forgets old writes.
unfoldable pub forget : ℕ → ℕ → List (Bytes × ℕ) → List (Bytes × ℕ)
forget interval now [] = []
forget interval now (p ∷ last) =
    let rest = forget interval now last in if leb interval (now - p.1) then rest else p ∷ rest

-- The map with an accepted write.
unfoldable pub record_write : ℕ → ℕ → Bytes → List (Bytes × ℕ) → List (Bytes × ℕ)
unfolding delete_key forget
record_write interval now key last =
    let last' = (key, now) ∷ delete_key key last in
    if ltb 4096 (length last') then forget interval now last' else last'

-- `beginWrite` on the map `last`; none: the write comes too soon.
unfoldable pub begin_write : ℕ → ℕ → Bytes → List (Bytes × ℕ) → Option (List (Bytes × ℕ))
unfolding lookup record_write
begin_write interval now key last =
    if interval == 0
    then some last
    else if written_lately interval now (lookup key last)
    then none
    else some (record_write interval now key last)
