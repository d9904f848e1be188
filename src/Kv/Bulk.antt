-- ===== src/Kv/Bulk.antt =====
-- cloudflarekv/bulk.go: the work of getManyPromise. `clock` gives the time of each look at the clock, and
-- `fetch` stands for getManyFromStore, none for its error.
pub mod Coherent
pub mod Read
pub mod Whole
use goja_ext.Prelude.{
  ℕ, suc, ◌+◌, Bool, true, false, ◌||◌, ◌&&◌, List, [], ◌∷◌, ◌++◌, Option, none, some, ◌⊎◌, inl,
  inr, ltb, if◌then◌else◌, length, Bytes, equal, lookup, delete_key,
}
use goja_ext.Kv.Cache.{Record, LruCache, get, put}

-- The variables of the first loop: `records`, `misses` (and `seenMiss`, its elements), and the cache.
pub record Gathered : Type 0 where
  pub records : List (Bytes × Record)
  pub misses : List Bytes
  pub cache : Option LruCache

-- `_, seen := seenMiss[key]`
unfoldable pub seen_miss : Bytes → List Bytes → Bool
seen_miss key [] = false
seen_miss key (x ∷ misses) = equal key x || seen_miss key misses

-- `records[key] = record`
abbrev pub put_key : Bytes → Record → List (Bytes × Record) → List (Bytes × Record)
put_key key r records = (key, r) ∷ delete_key key records

-- One round of the first loop, at what the cache gives.
unfoldable pub gather_at : Bytes → Option (Record × Bool) × Option LruCache → Gathered → Gathered
unfolding seen_miss
gather_at key (some (r, found), c) g = record {
  records = if found then put_key key r g.records else g.records;
  misses = g.misses;
  cache = c;
}
gather_at key (none, c) g = record {
  records = g.records;
  misses = if seen_miss key g.misses then g.misses else g.misses ++ (key ∷ []);
  cache = c;
}

unfoldable pub gather : (ℕ → ℕ) → ℕ → List Bytes → Gathered → Gathered
unfolding get gather_at
gather clock n [] g = g
gather clock n (key ∷ keys) g =
    gather clock (suc n) keys (gather_at key (get (clock n) key g.cache) g)

abbrev pub no_record : Record
no_record = record { key = []; value = []; metadata = []; expiration = none }

-- One round of the loop over the misses, at what was fetched.
unfoldable pub keep_at : ℕ → ℕ → Bytes → Option Record → Gathered → Gathered
unfolding put
keep_at now ttl key none g = record g { cache = put now key no_record false ttl g.cache }
keep_at now ttl key (some r) g = record {
  records = put_key key r g.records;
  misses = g.misses;
  cache = put now key r true ttl g.cache;
}

unfoldable pub keep : (ℕ → ℕ) → ℕ → ℕ → List (Bytes × Record) → List Bytes → Gathered → Gathered
unfolding keep_at lookup
keep clock n ttl fetched [] g = g
keep clock n ttl fetched (key ∷ misses) g =
    keep clock (suc n) ttl fetched misses (keep_at (clock n) ttl key (lookup key fetched) g)

-- The loop over the records: whether their sizes go beyond the maximum.
unfoldable pub too_large : ℕ → ℕ → List (Bytes × Record) → Bool
too_large maximum size [] = false
too_large maximum size (p ∷ records) =
    let size' = size + (length p.1.value + length p.1.metadata) in
    let rest = too_large maximum size' records in if ltb maximum size' then true else rest

pub data BulkError : Type 0 where
  store_failed response_too_large : BulkError

-- `if len(misses) > 0`
abbrev pub fetch_misses :
    (List Bytes → Option (List (Bytes × Record))) → List Bytes → Option (List (Bytes × Record))
fetch_misses fetch [] = some []
fetch_misses fetch (key ∷ misses) = fetch (key ∷ misses)

abbrev pub sized : ℕ → Gathered → (BulkError ⊎ List (Bytes × Record)) × Option LruCache
sized maximum g =
    if ltb 0 maximum && too_large maximum 0 g.records
    then (inl response_too_large, g.cache)
    else (inr g.records, g.cache)

unfoldable pub answer :
    (ℕ → ℕ)
    → ℕ
    → ℕ
    → ℕ
    → Option (List (Bytes × Record))
    → Gathered
    → (BulkError ⊎ List (Bytes × Record)) × Option LruCache
unfolding keep too_large
answer clock n maximum ttl none g = (inl store_failed, g.cache)
answer clock n maximum ttl (some fetched) g = sized maximum (keep clock n ttl fetched g.misses g)

unfoldable pub get_many :
    (ℕ → ℕ)
    → (List Bytes → Option (List (Bytes × Record)))
    → ℕ
    → ℕ
    → List Bytes
    → Option LruCache
    → (BulkError ⊎ List (Bytes × Record)) × Option LruCache
unfolding gather answer
get_many clock fetch maximum ttl keys c =
    let g = gather clock 0 keys (record { records = []; misses = []; cache = c }) in
    answer clock (length keys) maximum ttl (fetch_misses fetch g.misses) g
