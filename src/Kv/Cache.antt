-- ===== src/Kv/Cache.antt =====
-- cloudflarekv/cache.go. Instants and durations count nanoseconds; a duration below 0, which the code
-- treats like 0, is 0. An operation reads the clock once, as `now`.
pub mod Agree
pub mod Evict
pub mod Hit
pub mod Other
pub mod Held
use goja_ext.Prelude.{
  ℕ, zero, suc, ◌+◌, ◌-◌, ◌≤◌, ◌<◌, Bool, true, false, List, [], ◌∷◌, Option, none, some, ◌≡◌, ◌==◌,
  ltb, leb, if◌then◌else◌, length, Bytes, lookup, delete_key,
}

-- `store.Record`
pub record Record : Type 0 where
  pub key : Bytes
  pub value : Bytes
  pub metadata : Bytes
  pub expiration : Option ℕ

-- A list element and the `cacheEntry` that it holds; `id` tells elements apart.
pub record Element : Type 0 where
  pub id : ℕ
  pub key : Bytes
  pub stored : Record
  pub found : Bool
  pub expires_at : ℕ
  pub size : ℕ

-- `entries` is the map from keys to elements, `order` the list, its front first; `next` is the identity
-- of the next element.
pub record LruCache : Type 0 where
  pub capacity : ℕ
  pub size : ℕ
  pub entries : List (Bytes × Element)
  pub order : List Element
  pub next : ℕ

abbrev pub new_lru_cache : ℕ → Option LruCache
new_lru_cache capacity =
    if capacity == 0
    then none
    else some (record { capacity = capacity; size = 0; entries = []; order = []; next = 0 })

-- `order.Remove`
unfoldable pub remove_id : ℕ → List Element → List Element
remove_id id [] = []
remove_id id (e ∷ order) = let rest = remove_id id order in if e.id == id then order else e ∷ rest

-- `order.Back`
unfoldable pub back : List Element → Option Element
back [] = none
back (e ∷ []) = some e
back (e ∷ f ∷ order) = back (f ∷ order)

-- `remove`, at an element that is not nil.
unfoldable pub remove_element : Element → LruCache → LruCache
unfolding delete_key remove_id
remove_element e c = record {
  capacity = c.capacity;
  size = c.size - e.size;
  entries = delete_key e.key c.entries;
  order = remove_id e.id c.order;
  next = c.next;
}

unfoldable pub remove : Option Element → LruCache → LruCache
unfolding remove_element
remove none c = c
remove (some e) c = remove_element e c

-- `order.MoveToFront`
unfoldable pub move_to_front : Element → LruCache → LruCache
unfolding remove_id
move_to_front e c = record {
  capacity = c.capacity;
  size = c.size;
  entries = c.entries;
  order = e ∷ remove_id e.id c.order;
  next = c.next;
}

-- `order.PushFront`, the map write and the new size.
unfoldable pub push_front : Element → LruCache → LruCache
unfolding delete_key
push_front e c = record {
  capacity = c.capacity;
  size = c.size + e.size;
  entries = (e.key, e) ∷ delete_key e.key c.entries;
  order = e ∷ c.order;
  next = suc c.next;
}

-- The loop at the end of `put`, with as much fuel as there are elements.
unfoldable pub evict : ℕ → LruCache → LruCache
unfolding remove back
evict zero c = c
evict (suc fuel) c =
    let rest = evict fuel (remove (back c.order) c) in if ltb c.capacity c.size then rest else c

-- `get`, at the element that the map has: what it returns, and the cache.
unfoldable pub get_at : ℕ → Option Element → LruCache → Option (Record × Bool) × LruCache
unfolding remove_element move_to_front
get_at now none c = (none, c)
get_at now (some e) c =
    if ltb now e.expires_at
    then (some (e.stored, e.found), move_to_front e c)
    else (none, remove_element e c)

unfoldable pub get_in : ℕ → Bytes → LruCache → Option (Record × Bool) × LruCache
unfolding lookup get_at
get_in now key c = get_at now (lookup key c.entries) c

unfoldable pub get : ℕ → Bytes → Option LruCache → Option (Record × Bool) × Option LruCache
unfolding get_in
get now key none = (none, none)
get now key (some c) = let (r, c') = get_in now key c in (r, some c')

-- How long `put` may keep a record: 0 for not at all.
abbrev pub lifetime : ℕ → Option ℕ → ℕ → ℕ
lifetime now none ttl = ttl
lifetime now (some expiration) ttl = if ltb (expiration - now) ttl then expiration - now else ttl

abbrev pub record_size : Bytes → Record → ℕ
record_size key r = length key + length r.value + length r.metadata

abbrev pub new_element : ℕ → Bytes → Record → Bool → ℕ → LruCache → Element
new_element now key r found life c = record {
  id = c.next;
  key = key;
  stored = r;
  found = found;
  expires_at = now + life;
  size = record_size key r;
}

-- `put`, behind its guards.
unfoldable pub store_entry : Element → LruCache → LruCache
unfolding lookup remove push_front evict
store_entry e c =
    let c' = push_front e (remove (lookup e.key c.entries) c) in evict (length c'.order) c'

unfoldable pub put_in : ℕ → Bytes → Record → Bool → ℕ → LruCache → LruCache
unfolding store_entry
put_in now key r found ttl c =
    let life = lifetime now r.expiration ttl in
    if ttl == 0
    then c
    else if life == 0
    then c
    else if ltb c.capacity (record_size key r)
    then c
    else store_entry (new_element now key r found life c) c

unfoldable pub put : ℕ → Bytes → Record → Bool → ℕ → Option LruCache → Option LruCache
unfolding put_in
put now key r found ttl none = none
put now key r found ttl (some c) = some (put_in now key r found ttl c)

unfoldable pub delete_in : Bytes → LruCache → LruCache
unfolding lookup remove
delete_in key c = remove (lookup key c.entries) c

-- The rest of `getRecordCached` behind the look into the cache.
unfoldable pub after_lookup :
    ℕ
    → Bytes
    → ℕ
    → Option (Record × Bool)
    → Option (Record × Bool) × Option LruCache
    → Option (Record × Bool) × Option LruCache
unfolding put
after_lookup now key ttl answer (some hit, c) = (some hit, c)
after_lookup now key ttl none (none, c) = (none, c)
after_lookup now key ttl (some a) (none, c) = (some a, put now key a.0 a.1 ttl c)

-- `getRecordCached`, where the store would answer `answer`: none is an error.
unfoldable pub get_record_cached :
    ℕ
    → Bytes
    → ℕ
    → Option (Record × Bool)
    → Option LruCache
    → Option (Record × Bool) × Option LruCache
unfolding get after_lookup
get_record_cached now key ttl answer c = after_lookup now key ttl answer (get now key c)
