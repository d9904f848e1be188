-- ===== src/Kv/Bulk/Coherent.antt =====
-- A cache that agrees with the store, and that looks and writes keep so.
use goja_ext.Prelude.{
  ℕ, Bool, Option, none, some, ◌≡◌, refl, sym, ◌∙◌, ◌==◌, ltb, length, if◌then◌else◌, Bytes, equal,
  equal_iff, lookup, lookup-delete_key, arith, Bool-cases, inl, inr, if_split,
}
use goja_ext.Kv.Cache.{
  Record, Element, LruCache, remove_element, remove, move_to_front, push_front, evict, get_at,
  get_in, get, store_entry, put_in, put, new_element, lifetime, record_size,
}
use goja_ext.Kv.Cache.Other.{Kept, evict-Kept, remove-Kept}

module _ (ns : Bytes → Option Record) where
  -- Every element says what the store has under its key.
  abbrev pub IsCoherent : LruCache → Type 0
  IsCoherent c =
      (k : Bytes) (e : Element)
      → lookup k c.entries ≡ some e
      → (if e.found then some e.stored else none) ≡ ns k

  abbrev pub IsCoherentIf : Option LruCache → Type 0
  IsCoherentIf none = Unit
  IsCoherentIf (some c) = IsCoherent c

  Kept-IsCoherent : (c d : LruCache) → ((k : Bytes) → Kept k c d) → IsCoherent c → IsCoherent d
  Kept-IsCoherent c d kept h k e p = elim (kept k) [ inl q ↦ cc | inr q ↦ h k e (sym q ∙ p) ]

  get_at-Kept :
      (now : ℕ) (o : Option Element) (c : LruCache) (k : Bytes) → Kept k c (get_at now o c).1
  unfolding get_at move_to_front remove
  get_at-Kept now none c k = inr refl
  get_at-Kept now (some e) c k =
      if_split {A = Option (Record × Bool) × LruCache} (λ x. Kept k c x.1) (ltb now e.expires_at)
        (some (e.stored, e.found), move_to_front e c) (none, remove_element e c) (λ _. inr refl)
        (λ _. remove-Kept k (some e) c)

  pub get-IsCoherent :
      (now : ℕ) (key : Bytes) (c : Option LruCache)
      → IsCoherentIf c
      → IsCoherentIf (get now key c).1
  unfolding get get_in
  get-IsCoherent now key none h = tt
  get-IsCoherent now key (some c) h =
      Kept-IsCoherent c (get_in now key c).1 (get_at-Kept now (lookup key c.entries) c) h

  get_at-right :
      (now : ℕ) (key : Bytes) (o : Option Element) (c : LruCache) (r : Record) (found : Bool)
      → IsCoherent c
      → lookup key c.entries ≡ o
      → (get_at now o c).0 ≡ some (r, found)
      → (if found then some r else none) ≡ ns key
  unfolding get_at
  get_at-right now key none c r found h q p = cc
  get_at-right now key (some e) c r found h q p = ground (arith, h key e q)

  -- What a look finds is what the store has.
  pub get-right :
      (now : ℕ) (key : Bytes) (c : Option LruCache) (r : Record) (found : Bool)
      → IsCoherentIf c
      → (get now key c).0 ≡ some (r, found)
      → (if found then some r else none) ≡ ns key
  unfolding get get_in
  get-right now key none r found h p = cc
  get-right now key (some c) r found h p =
      get_at-right now key (lookup key c.entries) c r found h refl p

  store_entry-IsCoherent :
      (e : Element) (c : LruCache)
      → (if e.found then some e.stored else none) ≡ ns e.key
      → IsCoherent c
      → IsCoherent (store_entry e c)
  unfolding store_entry push_front lookup
  store_entry-IsCoherent e c q h =
      let a = remove (lookup e.key c.entries) c in
      let b = push_front e a in
      let ha = Kept-IsCoherent c a (λ k. remove-Kept k (lookup e.key c.entries) c) h in
      Kept-IsCoherent b (evict (length b.order) b) (λ k. evict-Kept (length b.order) k b)
        (λ k f p. elim (Bool-cases (equal k e.key)) [
          | inl s ↦ ground (arith, equal_iff k e.key)
          | inr s ↦ ha k f (ground (arith, lookup-delete_key k e.key a.entries))
        ])

  -- Writing what the store has keeps the cache coherent.
  pub put-IsCoherent :
      (now : ℕ) (key : Bytes) (r : Record) (found : Bool) (ttl : ℕ) (c : Option LruCache)
      → (if found then some r else none) ≡ ns key
      → IsCoherentIf c
      → IsCoherentIf (put now key r found ttl c)
  unfolding put put_in
  put-IsCoherent now key r found ttl none q h = tt
  put-IsCoherent now key r found ttl (some c) q h =
      let life = lifetime now r.expiration ttl in
      let stored = store_entry (new_element now key r found life c) c in
      if_split IsCoherent (ttl == 0) c
        (if life == 0 then c else if ltb c.capacity (record_size key r) then c else stored) (λ _. h)
        (λ _.
          if_split IsCoherent (life == 0) c
            (if ltb c.capacity (record_size key r) then c else stored) (λ _. h)
            (λ _.
              if_split IsCoherent (ltb c.capacity (record_size key r)) c stored (λ _. h)
                (λ _. store_entry-IsCoherent (new_element now key r found life c) c q h)))
