-- ===== src/Kv/Cache/Other.antt =====
-- What `get` finds under other keys, after `delete`, and in `getRecordCached`; and calls in any order.
use goja_ext.Prelude.{
  lookup, lookup-delete_key, ℕ, zero, suc, ◌+◌, ◌≤◌, ◌<◌, Bool, true, false, List, [], ◌∷◌, Option,
  none, some, ◌≡◌, ◌≢◌, ◌⊎◌, refl, sym, ap, ◌∙◌, ◌==◌, ltb, if◌then◌else◌, Bytes, equal, equal_iff,
  arith, Bool-cases, inl, inr, length, if_split,
}
use goja_ext.Kv.Cache.{
  Record, Element, LruCache, back, remove_element, remove, move_to_front, push_front, evict, get_at,
  get_in, store_entry, get, put, put_in, delete_in, new_element, record_size, lifetime,
  after_lookup, get_record_cached,
}
use goja_ext.Kv.Cache.Agree.{key-find_key}
use goja_ext.Kv.Cache.Evict.{IsSound, IsValid, put_in-IsValid, get_in-IsValid, delete_in-IsValid}
use goja_ext.Kv.Cache.Hit.{get_in-put_in}

-- The map of `d` has under `k` what the map of `c` has, or nothing.
abbrev pub Kept : Bytes → LruCache → LruCache → Type 0
Kept k c d = (lookup k d.entries ≡ none) ⊎ (lookup k d.entries ≡ lookup k c.entries)

pub remove-Kept : (k : Bytes) (o : Option Element) (c : LruCache) → Kept k c (remove o c)
unfolding remove remove_element
remove-Kept k none c = inr refl
remove-Kept k (some e) c = elim (Bool-cases (equal k e.key)) [
  | inl q ↦ inl (ground (arith, lookup-delete_key k e.key c.entries))
  | inr q ↦ inr (ground (arith, lookup-delete_key k e.key c.entries))
]

Kept-trans : (k : Bytes) (a b c : LruCache) → Kept k a b → Kept k b c → Kept k a c
Kept-trans k a b c (inl p) (inl q) = inl q
Kept-trans k a b c (inl p) (inr q) = inl (q ∙ p)
Kept-trans k a b c (inr p) (inl q) = inl q
Kept-trans k a b c (inr p) (inr q) = inr (q ∙ p)

pub evict-Kept : (fuel : ℕ) (k : Bytes) (c : LruCache) → Kept k c (evict fuel c)
unfolding evict
evict-Kept zero k c = inr refl
evict-Kept (suc fuel) k c =
    let d = remove (back c.order) c in
    if_split (Kept k c) (ltb c.capacity c.size) (evict fuel d) c
      (λ p. Kept-trans k c d (evict fuel d) (remove-Kept k (back c.order) c) (evict-Kept fuel k d))
      (λ p. inr refl)

push_front-other :
    (k : Bytes) (e : Element) (c : LruCache)
    → equal k e.key ≡ false
    → lookup k (push_front e c).entries ≡ lookup k c.entries
unfolding push_front lookup
push_front-other k e c h = ground (arith, lookup-delete_key k e.key c.entries)

store_entry-Kept :
    (k : Bytes) (e : Element) (c : LruCache) → equal k e.key ≡ false → Kept k c (store_entry e c)
unfolding store_entry
store_entry-Kept k e c h =
    let a = remove (lookup e.key c.entries) c in
    let b = push_front e a in
    Kept-trans k c a (evict (length b.order) b) (remove-Kept k (lookup e.key c.entries) c) (
      Kept-trans k a b (evict (length b.order) b) (inr (push_front-other k e a h))
        (evict-Kept (length b.order) k b))

put_in-Kept :
    (now ttl : ℕ) (k k' : Bytes) (x : Record) (found : Bool) (c : LruCache)
    → equal k' k ≡ false
    → Kept k' c (put_in now k x found ttl c)
unfolding put_in
put_in-Kept now ttl k k' x found c h =
    let life = lifetime now x.expiration ttl in
    let stored = store_entry (new_element now k x found life c) c in
    if_split (Kept k' c) (ttl == 0) c
      (if life == 0 then c else if ltb c.capacity (record_size k x) then c else stored)
      (λ _. inr refl)
      (λ _.
        if_split (Kept k' c) (life == 0) c (if ltb c.capacity (record_size k x) then c else stored)
          (λ _. inr refl)
          (λ _.
            if_split (Kept k' c) (ltb c.capacity (record_size k x)) c stored (λ _. inr refl)
              (λ _. store_entry-Kept k' (new_element now k x found life c) c h)))

get_at_result :
    (now : ℕ) (o : Option Element) (c d : LruCache) → (get_at now o d).0 ≡ (get_at now o c).0
unfolding get_at
get_at_result now none c d = refl
get_at_result now (some e) c d = ground arith

get_at_if :
    (now : ℕ) (b : Bool) (o : Option Element) (c d : LruCache)
    → (get_at now (if b then none else o) d).0 ≡ (if b then none else (get_at now o c).0)
unfolding get_at
get_at_if now true o c d = refl
get_at_if now false o c d = get_at_result now o c d

get_in-Kept :
    (now : ℕ) (k : Bytes) (c d : LruCache)
    → Kept k c d
    → ((get_in now k d).0 ≡ none) ⊎ ((get_in now k d).0 ≡ (get_in now k c).0)
unfolding get_in get_at
get_in-Kept now k c d (inl p) = inl (ap (λ o. (get_at now o d).0) p)
get_in-Kept now k c d (inr p) =
    inr (ap (λ o. (get_at now o d).0) p ∙ get_at_result now (lookup k c.entries) c d)

-- After `put` under one key, another key finds what it found before, or nothing, never anything else.
pub get_in-put_in_other :
    (now now' ttl : ℕ) (k k' : Bytes) (x : Record) (found : Bool) (c : LruCache)
    → k' ≢ k
    → ((get_in now' k' (put_in now k x found ttl c)).0 ≡ none)
      ⊎ ((get_in now' k' (put_in now k x found ttl c)).0 ≡ (get_in now' k' c).0)
get_in-put_in_other now now' ttl k k' x found c h =
    get_in-Kept now' k' c (put_in now k x found ttl c)
      (put_in-Kept now ttl k k' x found c (ground (arith, equal_iff k' k)))

pub lookup-removed :
    (k k' : Bytes) (o : Option Element) (c : LruCache)
    → IsSound c
    → lookup k c.entries ≡ o
    → lookup k' (remove o c).entries ≡ (if equal k' k then none else lookup k' c.entries)
unfolding remove remove_element
lookup-removed k k' none c s h = elim (Bool-cases (equal k' k)) [
  | inl q ↦
      ap (λ x. lookup x c.entries) ((equal_iff k' k).0 q)
      ∙ h
      ∙ sym (ap (λ b. if b then none else lookup k' c.entries) q)
  | inr q ↦ sym (ap (λ b. if b then none else lookup k' c.entries) q)
]
lookup-removed k k' (some e) c s h =
    let q : e.key ≡ k = key-find_key k c.order e (sym (s.agree k) ∙ h) in
    lookup-delete_key k' e.key c.entries
    ∙ ap (λ x. if equal k' x then none else lookup k' c.entries) q

-- In a valid cache, after `delete` under a key nothing is found under it, and other keys find what they
-- found before.
pub get_in-delete_in :
    (now : ℕ) (k k' : Bytes) (c : LruCache)
    → IsValid c
    → (get_in now k' (delete_in k c)).0 ≡ (if equal k' k then none else (get_in now k' c).0)
unfolding get_in get_at delete_in
get_in-delete_in now k k' c v =
    let d = remove (lookup k c.entries) c in
    ap (λ o. (get_at now o d).0) (lookup-removed k k' (lookup k c.entries) c v.sound refl)
    ∙ get_at_if now (equal k' k) (lookup k' c.entries) c d

-- Calls on the cache, each with the time of its clock.
pub data Call : Type 0 where
  call_get : ℕ → Bytes → Call
  call_put : ℕ → Bytes → Record → Bool → ℕ → Call
  call_delete : Bytes → Call

abbrev pub call : Call → LruCache → LruCache
call (call_get now k) c = (get_in now k c).1
call (call_put now k x found ttl) c = put_in now k x found ttl c
call (call_delete k) c = delete_in k c

abbrev pub calls : List Call → LruCache → LruCache
calls [] c = c
calls (a ∷ rest) c = calls rest (call a c)

-- Whatever is called in whatever order on a valid cache, the map and the list still agree and the sizes
-- stay within the capacity.
pub calls-IsValid : (rest : List Call) (c : LruCache) → IsValid c → IsValid (calls rest c)
calls-IsValid [] c v = v
calls-IsValid (call_get now k ∷ rest) c v =
    calls-IsValid rest (get_in now k c).1 (get_in-IsValid now k c v)
calls-IsValid (call_put now k x found ttl ∷ rest) c v =
    calls-IsValid rest (put_in now k x found ttl c) (put_in-IsValid now k x found ttl c v)
calls-IsValid (call_delete k ∷ rest) c v =
    calls-IsValid rest (delete_in k c) (delete_in-IsValid k c v)

get_at_capacity :
    (now : ℕ) (o : Option Element) (c : LruCache) → (get_at now o c).1.capacity ≡ c.capacity
unfolding get_at remove_element move_to_front
get_at_capacity now none c = refl
get_at_capacity now (some e) c = ground arith

get_in_capacity : (now : ℕ) (k : Bytes) (c : LruCache) → (get_in now k c).1.capacity ≡ c.capacity
unfolding get_in
get_in_capacity now k c = get_at_capacity now (lookup k c.entries) c

missed :
    (now ttl : ℕ) (k : Bytes) (a : Record × Bool) (r : Option (Record × Bool)) (c : LruCache)
    → r ≡ none
    → after_lookup now k ttl (some a) (r, some c) ≡ (some a, some (put_in now k a.0 a.1 ttl c))
unfolding after_lookup put
missed now ttl k a none c h = refl
missed now ttl k a (some x) c h = cc

hit :
    (now ttl : ℕ) (k : Bytes) (a : Record × Bool) (answer : Option (Record × Bool))
    → (r : Option (Record × Bool)) (c : Option LruCache) → r ≡ some a
    → (after_lookup now k ttl answer (r, c)).0 ≡ some a
unfolding after_lookup
hit now ttl k a answer none c h = cc
hit now ttl k a answer (some x) c h = h

-- In a valid cache, a record that `getRecordCached` took from the store after a miss, and that fits and
-- may be kept for some time, it gives again until that time is over, whatever the store would answer.
pub get_record_cached-again :
    (now now' ttl : ℕ) (k : Bytes) (a : Record × Bool) (answer : Option (Record × Bool))
    (c : LruCache)
    → IsValid c
    → (get_in now k c).0 ≡ none
    → 0 < lifetime now a.0.expiration ttl
    → 0 < ttl
    → record_size k a.0 ≤ c.capacity
    → now' < now + lifetime now a.0.expiration ttl
    → (get_record_cached now' k ttl answer (get_record_cached now k ttl (some a) (some c)).1).0
      ≡ some a
unfolding get_record_cached get
get_record_cached-again now now' ttl k a answer c v m p t h l =
    let d = (get_in now k c).1 in
    ap (λ q. (get_record_cached now' k ttl answer q.1).0)
      (missed now ttl k a (get_in now k c).0 d m)
    ∙ hit now' ttl k a answer (get_in now' k (put_in now k a.0 a.1 ttl d)).0
        (some (get_in now' k (put_in now k a.0 a.1 ttl d)).1)
        (get_in-put_in now now' ttl k a.0 a.1 d (get_in-IsValid now k c v) p t
          (omega (arith, h, get_in_capacity now k c)) l)
