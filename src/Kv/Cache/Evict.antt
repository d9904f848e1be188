-- ===== src/Kv/Cache/Evict.antt =====
-- The invariant of the cache: every operation keeps it, and the loop of `put` ends.
use goja_ext.Prelude.{
  lookup, lookup-delete_key, ℕ, zero, suc, ◌≤◌, ◌<◌, Bool, List, [], ◌∷◌, Option, none, some, ◌≡◌,
  ◌≢◌, refl, sym, ◌∙◌, ◌==◌, ltb, if◌then◌else◌, Bytes, equal_iff, equal_self, All, arith, subst,
  length, if_split,
}
use goja_ext.Kv.Cache.{
  Record, Element, LruCache, remove_id, back, remove_element, remove, move_to_front, push_front,
  evict, get_at, get_in, store_entry, put_in, delete_in, new_element, record_size, lifetime,
}
use goja_ext.Kv.Cache.Agree.{
  find_key, total, IsDistinct, find_key-All, remove_id-All, find_key-remove_id,
  remove_id-IsDistinct, total-remove_id, find_key-back, length-remove_id, remove_id-gone,
  key-find_key, total_empty, length-back,
}

-- The map and the list have the same elements, each key and each identity once, and `size` adds up the
-- sizes.
pub record IsSound (c : LruCache) : Type 0 where
  pub agree : (k : Bytes) → lookup k c.entries ≡ find_key k c.order
  pub distinct : IsDistinct c.order
  pub below : All (λ e. e.id < c.next) c.order
  pub counted : c.size ≡ total c.order

-- What a cache satisfies between operations: it is sound, and within its capacity.
pub record IsValid (c : LruCache) : Type 0 where
  pub sound : IsSound c
  pub bounded : c.size ≤ c.capacity

pub remove_element-IsSound :
    (e : Element) (c : LruCache)
    → find_key e.key c.order ≡ some e
    → IsSound c
    → IsSound (remove_element e c)
unfolding remove_element
remove_element-IsSound e c h s = record {
  agree = λ k. ground (
    arith,
    lookup-delete_key k e.key c.entries,
    find_key-remove_id c.order e k s.distinct h,
    s.agree k,
  );
  distinct = remove_id-IsDistinct e.id c.order s.distinct;
  below = remove_id-All (λ f. f.id < c.next) e.id c.order s.below;
  counted = omega (arith, total-remove_id c.order e.key e s.distinct h, s.counted);
}

below-apart : (n : ℕ) (order : List Element) → All (λ e. e.id < n) order → All (λ e. e.id ≢ n) order
below-apart n [] a = tt
below-apart n (e ∷ order) a = (omega (arith, a.0), below-apart n order a.1)

below_suc :
    (n : ℕ) (order : List Element) → All (λ e. e.id < n) order → All (λ e. e.id < suc n) order
below_suc n [] a = tt
below_suc n (e ∷ order) a = (omega (arith, a.0), below_suc n order a.1)

pub push_front-IsSound :
    (e : Element) (c : LruCache)
    → find_key e.key c.order ≡ none
    → e.id ≡ c.next
    → IsSound c
    → IsSound (push_front e c)
unfolding push_front find_key IsDistinct lookup total
push_front-IsSound e c h q s = record {
  agree = λ k. ground (arith, lookup-delete_key k e.key c.entries, s.agree k);
  distinct = (
    h,
    (
      subst (λ n. All (λ f. f.id ≢ n) c.order) (sym q) (below-apart c.next c.order s.below),
      s.distinct,
    ),
  );
  below = (omega (arith, q), below_suc c.next c.order s.below);
  counted = omega (arith, s.counted);
}

pub move_to_front-IsSound :
    (e : Element) (c : LruCache)
    → find_key e.key c.order ≡ some e
    → IsSound c
    → IsSound (move_to_front e c)
unfolding move_to_front find_key IsDistinct lookup total
move_to_front-IsSound e c h s = record {
  agree = λ k.
      ground (arith, find_key-remove_id c.order e k s.distinct h, s.agree k, equal_iff k e.key);
  distinct = (
    ground (arith, find_key-remove_id c.order e e.key s.distinct h, equal_self e.key),
    (remove_id-gone c.order e.key e s.distinct h, remove_id-IsDistinct e.id c.order s.distinct),
  );
  below = (
    (find_key-All (λ f. f.id < c.next) e.key c.order e s.below h).0,
    remove_id-All (λ f. f.id < c.next) e.id c.order s.below,
  );
  counted = omega (arith, s.counted, total-remove_id c.order e.key e s.distinct h);
}

-- An element that the map has under a key is found in the list under its own key.
pub find_key-lookup :
    (c : LruCache) (k : Bytes) (e : Element)
    → IsSound c
    → lookup k c.entries ≡ some e
    → find_key e.key c.order ≡ some e
find_key-lookup c k e s h =
    let i : find_key k c.order ≡ some e = sym (s.agree k) ∙ h in
    subst (λ x. find_key x c.order ≡ some e) (sym (key-find_key k c.order e i)) i

removed_size : (e : Element) (c : LruCache) → (remove_element e c).size ≤ c.size
unfolding remove_element
removed_size e c = omega arith

pub remove_capacity : (o : Option Element) (c : LruCache) → (remove o c).capacity ≡ c.capacity
unfolding remove remove_element
remove_capacity none c = refl
remove_capacity (some e) c = refl

pub remove_next : (o : Option Element) (c : LruCache) → (remove o c).next ≡ c.next
unfolding remove remove_element
remove_next none c = refl
remove_next (some e) c = refl

-- Removing what the map has under a key, if it has something: the cache stays sound, and nothing is found
-- under the key.
pub removed :
    (c : LruCache) (k : Bytes) (o : Option Element)
    → IsSound c
    → lookup k c.entries ≡ o
    → IsSound (remove o c) × ((remove o c).size ≤ c.size × (find_key k (remove o c).order ≡ none))
unfolding remove
removed c k none s h = (s, (omega arith, sym (s.agree k) ∙ h))
removed c k (some e) s h =
    let i : find_key e.key c.order ≡ some e = find_key-lookup c k e s h in
    let q : e.key ≡ k = key-find_key k c.order e (sym (s.agree k) ∙ h) in
    let n : find_key e.key (remove_id e.id c.order) ≡ none =
      ground (arith, find_key-remove_id c.order e e.key s.distinct i, equal_self e.key) in
    (
      remove_element-IsSound e c i s,
      (removed_size e c, subst (λ x. find_key x (remove_id e.id c.order) ≡ none) q n),
    )

-- Removing the last element leaves fewer elements.
pub removed_back :
    (c : LruCache) (o : Option Element)
    → IsSound c
    → 0 < c.size
    → back c.order ≡ o
    → IsSound (remove o c) × length (remove o c).order < length c.order
unfolding remove remove_element
removed_back c none s p h = ground (arith, total_empty c.order (length-back c.order h), s.counted)
removed_back c (some e) s p h =
    let i : find_key e.key c.order ≡ some e = find_key-back c.order e s.distinct h in
    (remove_element-IsSound e c i s, length-remove_id c.order e.key e i)

evict-IsValid :
    (fuel : ℕ) (c : LruCache) → length c.order ≤ fuel → IsSound c → IsValid (evict fuel c)
unfolding evict
evict-IsValid zero c h s = record {
  sound = s;
  bounded = omega (arith, s.counted, total_empty c.order h);
}
evict-IsValid (suc fuel) c h s =
    if_split IsValid (ltb c.capacity c.size) (evict fuel (remove (back c.order) c)) c
      (λ p.
        let r = removed_back c (back c.order) s (ground arith) refl in
        evict-IsValid fuel (remove (back c.order) c) (omega (arith, r.1)) r.0)
      (λ p. record { sound = s; bounded = ground arith })

evict_capacity : (fuel : ℕ) (c : LruCache) → (evict fuel c).capacity ≡ c.capacity
unfolding evict
evict_capacity zero c = refl
evict_capacity (suc fuel) c =
    if_split {A = LruCache} (λ x. x.capacity ≡ c.capacity) (ltb c.capacity c.size)
      (evict fuel (remove (back c.order) c)) c
      (λ p. evict_capacity fuel (remove (back c.order) c) ∙ remove_capacity (back c.order) c)
      (λ p. refl)

pub delete_in-IsValid : (k : Bytes) (c : LruCache) → IsValid c → IsValid (delete_in k c)
unfolding delete_in
delete_in-IsValid k c v =
    let r = removed c k (lookup k c.entries) v.sound refl in
    record {
      sound = r.0;
      bounded = omega (arith, r.1.0, v.bounded, remove_capacity (lookup k c.entries) c);
    }

get_at-IsValid :
    (now : ℕ) (k : Bytes) (o : Option Element) (c : LruCache)
    → lookup k c.entries ≡ o
    → IsValid c
    → IsValid (get_at now o c).1
unfolding get_at move_to_front
get_at-IsValid now k none c h v = v
get_at-IsValid now k (some e) c h v =
    let i = find_key-lookup c k e v.sound h in
    if_split {A = Option (Record × Bool) × LruCache} (λ x. IsValid x.1) (ltb now e.expires_at)
      (some (e.stored, e.found), move_to_front e c) (none, remove_element e c)
      (λ p. record { sound = move_to_front-IsSound e c i v.sound; bounded = v.bounded })
      (λ p. record {
        sound = remove_element-IsSound e c i v.sound;
        bounded = omega (arith, removed_size e c, v.bounded, remove_capacity (some e) c);
      })

pub get_in-IsValid : (now : ℕ) (k : Bytes) (c : LruCache) → IsValid c → IsValid (get_in now k c).1
unfolding get_in
get_in-IsValid now k c v = get_at-IsValid now k (lookup k c.entries) c refl v

pub store_entry-IsValid :
    (e : Element) (c : LruCache) → e.id ≡ c.next → IsValid c → IsValid (store_entry e c)
unfolding store_entry
store_entry-IsValid e c q v =
    let c' = remove (lookup e.key c.entries) c in
    let r = removed c e.key (lookup e.key c.entries) v.sound refl in
    evict-IsValid (length (push_front e c').order) (push_front e c') (omega arith)
      (push_front-IsSound e c' r.1.1 (q ∙ sym (remove_next (lookup e.key c.entries) c)) r.0)

pub put_in-IsValid :
    (now : ℕ) (k : Bytes) (x : Record) (found : Bool) (ttl : ℕ) (c : LruCache)
    → IsValid c
    → IsValid (put_in now k x found ttl c)
unfolding put_in
put_in-IsValid now k x found ttl c v =
    let life = lifetime now x.expiration ttl in
    let stored = store_entry (new_element now k x found life c) c in
    if_split IsValid (ttl == 0) c
      (if life == 0 then c else if ltb c.capacity (record_size k x) then c else stored) (λ _. v)
      (λ _.
        if_split IsValid (life == 0) c (if ltb c.capacity (record_size k x) then c else stored)
          (λ _. v)
          (λ _.
            if_split IsValid (ltb c.capacity (record_size k x)) c stored (λ _. v)
              (λ _. store_entry-IsValid (new_element now k x found life c) c refl v)))
