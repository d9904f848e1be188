-- ===== src/Kv/Cache/Hit.antt =====
-- What `get` finds after `put` and `delete`.
use goja_ext.Prelude.{
  lookup, ℕ, zero, suc, ◌+◌, ◌≤◌, ◌<◌, Bool, List, [], ◌∷◌, Option, none, some, ◌≡◌, ◌≢◌, refl, sym,
  ap, ◌∙◌, ltb, Bytes, equal_self, arith, subst, length, if_split,
}
use goja_ext.Kv.Cache.{
  Record, Element, LruCache, remove_id, back, remove_element, remove, push_front, evict, get_at,
  get_in, store_entry, put_in, new_element, record_size, lifetime,
}
use goja_ext.Kv.Cache.Agree.{find_key, total, IsDistinct, find_key-All, find_key-back}
use goja_ext.Kv.Cache.Evict.{
  IsSound, IsValid, removed, removed_back, push_front-IsSound, remove_next, remove_capacity,
  store_entry-IsValid,
}

back_behind :
    (e f : Element) (es : List Element)
    → IsDistinct (e ∷ es)
    → e.size < total (e ∷ es)
    → back (e ∷ es) ≡ some f
    → remove_id f.id (e ∷ es) ≡ e ∷ remove_id f.id es
unfolding back remove_id total IsDistinct
back_behind e f [] d h b = ground arith
back_behind e f (g ∷ es) d h b =
    let i : find_key f.key (g ∷ es) ≡ some f = find_key-back (g ∷ es) f d.1.1 b in
    let n : f.id ≢ e.id = (find_key-All (λ x. x.id ≢ e.id) f.key (g ∷ es) f d.1.0 i).0 in
    ground arith

abbrev remaining : Option Element → List Element → List Element
remaining none es = es
remaining (some f) es = remove_id f.id es

front_stays :
    (c : LruCache) (e : Element) (es : List Element) (o : Option Element)
    → IsSound c
    → c.order ≡ e ∷ es
    → e.size < c.size
    → back c.order ≡ o
    → (remove o c).order ≡ e ∷ remaining o es
unfolding remove remove_element
front_stays c e es none s q h b = q
front_stays c e es (some f) s q h b =
    ap (remove_id f.id) q
    ∙ back_behind e f es (subst IsDistinct q s.distinct)
        (subst (λ xs. e.size < total xs) q (omega (arith, s.counted))) (ap back (sym q) ∙ b)

-- The loop never removes a first element that fits.
evict_front :
    (fuel : ℕ) (c : LruCache) (e : Element) (es : List Element)
    → IsSound c
    → c.order ≡ e ∷ es
    → e.size ≤ c.capacity
    → find_key e.key (evict fuel c).order ≡ some e
unfolding evict find_key
evict_front zero c e es s q h = ap (find_key e.key) q ∙ ground (arith, equal_self e.key)
evict_front (suc fuel) c e es s q h =
    let o = back c.order in
    if_split {A = LruCache} (λ x. find_key e.key x.order ≡ some e) (ltb c.capacity c.size)
      (evict fuel (remove (back c.order) c)) c
      (λ p.
        evict_front fuel (remove o c) e (remaining o es) (removed_back c o s (ground arith) refl).0
          (front_stays c e es o s q (ground arith) refl) (omega (arith, remove_capacity o c)))
      (λ p. ap (find_key e.key) q ∙ ground (arith, equal_self e.key))

store_entry-front :
    (e : Element) (c : LruCache)
    → e.id ≡ c.next
    → e.size ≤ c.capacity
    → IsValid c
    → lookup e.key (store_entry e c).entries ≡ some e
unfolding store_entry push_front
store_entry-front e c q h v =
    let o = lookup e.key c.entries in
    let c' = remove o c in
    let r = removed c e.key o v.sound refl in
    (store_entry-IsValid e c q v).sound.agree e.key
    ∙ evict_front (length (push_front e c').order) (push_front e c') e c'.order
        (push_front-IsSound e c' r.1.1 (q ∙ sym (remove_next o c)) r.0) refl
        (omega (arith, h, remove_capacity o c))

-- In a valid cache, a record that fits and that `put` may keep for some time is stored.
pub put_in-stored :
    (now ttl : ℕ) (k : Bytes) (x : Record) (found : Bool) (c : LruCache)
    → IsValid c
    → 0 < lifetime now x.expiration ttl
    → 0 < ttl
    → record_size k x ≤ c.capacity
    → lookup k (put_in now k x found ttl c).entries
      ≡ some (new_element now k x found (lifetime now x.expiration ttl) c)
unfolding put_in
put_in-stored now ttl k x found c v p t h =
    let life = lifetime now x.expiration ttl in
    let e = new_element now k x found life c in
    let s : put_in now k x found ttl c ≡ store_entry e c = ground arith in
    ap (λ (d : LruCache). lookup k d.entries) s ∙ store_entry-front e c refl h v

-- In a valid cache, such a record is found under its key, directly afterwards, until that time is over.
pub get_in-put_in :
    (now now' ttl : ℕ) (k : Bytes) (x : Record) (found : Bool) (c : LruCache)
    → IsValid c
    → 0 < lifetime now x.expiration ttl
    → 0 < ttl
    → record_size k x ≤ c.capacity
    → now' < now + lifetime now x.expiration ttl
    → (get_in now' k (put_in now k x found ttl c)).0 ≡ some (x, found)
unfolding get_in get_at
get_in-put_in now now' ttl k x found c v p t h l =
    ap (λ o. (get_at now' o (put_in now k x found ttl c)).0)
      (put_in-stored now ttl k x found c v p t h)
    ∙ ground arith
