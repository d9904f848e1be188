-- ===== src/Kv/Cache/Held.antt =====
-- What `get` finds under a key while other keys are read and deleted.
use goja_ext.Prelude.{
  lookup, ℕ, ◌+◌, ◌≤◌, ◌<◌, Bool, List, [], ◌∷◌, Option, none, some, ◌≡◌, ◌≢◌, ◌⊎◌, refl, sym, ap,
  ◌∙◌, ltb, if_split, Bytes, equal, equal_iff, arith, Bool-cases, inl, inr,
}
use goja_ext.Kv.Cache.{
  Record, Element, LruCache, remove, remove_element, move_to_front, get_at, get_in, put_in,
  delete_in, new_element, record_size, lifetime,
}
use goja_ext.Kv.Cache.Evict.{IsSound, IsValid, put_in-IsValid, get_in-IsValid, delete_in-IsValid}
use goja_ext.Kv.Cache.Hit.{put_in-stored}
use goja_ext.Kv.Cache.Other.{lookup-removed, Call, call_get, call_put, call_delete, calls}

-- A call that leaves an entry alone: a `get` of the key before the entry's time is over, a `get` of
-- another key at any time, and a `delete` of another key.
abbrev pub Spares : Bytes → ℕ → Call → Type 0
Spares k expires (call_get now key) = (now < expires) ⊎ (k ≢ key)
Spares k expires (call_put now key x found ttl) = ⊥
Spares k expires (call_delete key) = k ≢ key

abbrev pub AllSpare : Bytes → ℕ → List Call → Type 0
AllSpare k expires [] = Unit {0}
AllSpare k expires (a ∷ rest) = Spares k expires a × AllSpare k expires rest

removed_other :
    (k key : Bytes) (o : Option Element) (c : LruCache)
    → IsSound c
    → lookup key c.entries ≡ o
    → k ≢ key
    → lookup k (remove o c).entries ≡ lookup k c.entries
removed_other k key o c s h n =
    lookup-removed key k o c s h
    ∙ if_split (λ x. x ≡ lookup k c.entries) (equal k key) none (lookup k c.entries)
        (λ p. absurd (n ((equal_iff k key).0 p))) (λ _. refl)

get_at_other :
    (now : ℕ) (k key : Bytes) (o : Option Element) (c : LruCache)
    → IsSound c
    → lookup key c.entries ≡ o
    → k ≢ key
    → lookup k (get_at now o c).1.entries ≡ lookup k c.entries
unfolding get_at remove move_to_front
get_at_other now k key none c s h n = refl
get_at_other now k key (some e) c s h n =
    if_split (λ (r : Option (Record × Bool) × LruCache). lookup k r.1.entries ≡ lookup k c.entries)
      (ltb now e.expires_at) (some (e.stored, e.found), move_to_front e c)
      (none, remove_element e c) (λ _. refl) (λ _. removed_other k key (some e) c s h n)

get_at_fresh :
    (now : ℕ) (e : Element) (o : Option Element) (c : LruCache)
    → o ≡ some e
    → now < e.expires_at
    → (get_at now o c).1.entries ≡ c.entries
unfolding get_at move_to_front
get_at_fresh now e none c h l = cc
get_at_fresh now e (some f) c h l = ground arith

get_in_fresh :
    (now : ℕ) (k : Bytes) (e : Element) (c : LruCache)
    → lookup k c.entries ≡ some e
    → now < e.expires_at
    → lookup k (get_in now k c).1.entries ≡ some e
unfolding get_in
get_in_fresh now k e c h l = ap (lookup k) (get_at_fresh now e (lookup k c.entries) c h l) ∙ h

-- Such a `get`, at the key or at another one.
get_in-spared :
    (now : ℕ) (k key : Bytes) (e : Element) (c : LruCache)
    → IsValid c
    → lookup k c.entries ≡ some e
    → (now < e.expires_at) ⊎ (k ≢ key)
    → lookup k (get_in now key c).1.entries ≡ some e
unfolding get_in
get_in-spared now k key e c v h (inr n) =
    get_at_other now k key (lookup key c.entries) c v.sound refl n ∙ h
get_in-spared now k key e c v h (inl l) = elim (Bool-cases (equal k key)) [
  | inl p ↦
      let q : k ≡ key = (equal_iff k key).0 p in
      ap (λ x. lookup k (get_at now (lookup x c.entries) c).1.entries) (sym q)
      ∙ ap (lookup k) (get_at_fresh now e (lookup k c.entries) c h l)
      ∙ h
  | inr p ↦
      get_at_other now k key (lookup key c.entries) c v.sound refl
        (λ q. grind (arith, (equal_iff k key).1 q))
      ∙ h
]

calls-spared :
    (rest : List Call) (k : Bytes) (e : Element) (c : LruCache)
    → IsValid c
    → lookup k c.entries ≡ some e
    → AllSpare k e.expires_at rest
    → lookup k (calls rest c).entries ≡ some e
unfolding delete_in
calls-spared [] k e c v h s = h
calls-spared (call_get now key ∷ rest) k e c v h s =
    calls-spared rest k e (get_in now key c).1 (get_in-IsValid now key c v)
      (get_in-spared now k key e c v h s.0) s.1
calls-spared (call_put now key x found ttl ∷ rest) k e c v h s = elim s.0 [ ]
calls-spared (call_delete key ∷ rest) k e c v h s =
    calls-spared rest k e (delete_in key c) (delete_in-IsValid key c v)
      (removed_other k key (lookup key c.entries) c v.sound refl s.0 ∙ h) s.1

get_at_hit :
    (now : ℕ) (e : Element) (o : Option Element) (c : LruCache)
    → o ≡ some e
    → now < e.expires_at
    → (get_at now o c).0 ≡ some (e.stored, e.found)
unfolding get_at
get_at_hit now e none c h l = cc
get_at_hit now e (some f) c h l = ground arith

-- In a valid cache, a record that `put` may keep for some time and that fits is found at any time before
-- that time is over, whatever calls stand between that are a `get` of its key before then, or a `get` or
-- a `delete` of another key.
pub get_in-calls-put_in :
    (now now' ttl : ℕ) (k : Bytes) (x : Record) (found : Bool) (rest : List Call) (c : LruCache)
    → IsValid c
    → 0 < lifetime now x.expiration ttl
    → 0 < ttl
    → record_size k x ≤ c.capacity
    → AllSpare k (now + lifetime now x.expiration ttl) rest
    → now' < now + lifetime now x.expiration ttl
    → (get_in now' k (calls rest (put_in now k x found ttl c))).0 ≡ some (x, found)
unfolding get_in
get_in-calls-put_in now now' ttl k x found rest c v p t h s l =
    let e = new_element now k x found (lifetime now x.expiration ttl) c in
    let d = put_in now k x found ttl c in
    let kept : lookup k (calls rest d).entries ≡ some e =
      calls-spared rest k e d (put_in-IsValid now k x found ttl c v)
        (put_in-stored now ttl k x found c v p t h) s in
    get_at_hit now' e (lookup k (calls rest d).entries) (calls rest d) kept l
