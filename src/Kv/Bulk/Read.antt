-- ===== src/Kv/Bulk/Read.antt =====
-- A bulk read through a coherent cache reads what the store has.
use goja_ext.Prelude.{
  ℕ, suc, Bool, true, false, ◌||◌, List, [], ◌∷◌, ◌++◌, Option, none, some, ◌≡◌, ◌⊎◌, refl, sym,
  ◌∙◌, if◌then◌else◌, Bytes, equal, equal_iff, equal_self, lookup, lookup-delete_key, arith,
  Bool-cases, Option-cases, inl, inr, All,
}
use goja_ext.Kv.Cache.{Record, LruCache, get}
use goja_ext.Kv.Bulk.{Gathered, seen_miss, put_key, gather_at, gather, no_record, keep_at, keep}
use goja_ext.Kv.Bulk.Coherent.{IsCoherentIf, get-IsCoherent, get-right, put-IsCoherent}

lookup-put_key :
    (k key : Bytes) (r : Record) (m : List (Bytes × Record))
    → lookup k (put_key key r m) ≡ (if equal k key then some r else lookup k m)
unfolding lookup
lookup-put_key k key r m = ground (arith, lookup-delete_key k key m)

seen_miss-snoc :
    (k key : Bytes) (m : List Bytes)
    → seen_miss k (m ++ (key ∷ [])) ≡ (seen_miss k m || equal k key)
unfolding seen_miss
seen_miss-snoc k key [] = ground arith
seen_miss-snoc k key (x ∷ m) = ground (arith, seen_miss-snoc k key m)

module _ (ns : Bytes → Option Record) where
  -- Every record is the store's, and the cache is coherent.
  pub record IsRight (g : Gathered) : Type 0 where
    pub right : (k : Bytes) (r : Record) → lookup k g.records ≡ some r → ns k ≡ some r
    pub coherent : IsCoherentIf ns g.cache

  abbrev pub IsRead : Bytes → Gathered → Type 0
  IsRead k g = lookup k g.records ≡ ns k

  -- A key that the first loop has passed: a miss, or read.
  abbrev pub IsPassed : Bytes → Gathered → Type 0
  IsPassed k g = (seen_miss k g.misses ≡ true) ⊎ IsRead k g

  put_key-right :
      (key : Bytes) (x : Record) (m : List (Bytes × Record))
      → ns key ≡ some x
      → ((k : Bytes) (r : Record) → lookup k m ≡ some r → ns k ≡ some r)
      → (k : Bytes) (r : Record) → lookup k (put_key key x m) ≡ some r
      → ns k ≡ some r
  put_key-right key x m q h k r p = elim (Bool-cases (equal k key)) [
    | inl s ↦ ground (arith, lookup-put_key k key x m, equal_iff k key)
    | inr s ↦ h k r (ground (arith, lookup-put_key k key x m))
  ]

  put_key-read :
      (key k : Bytes) (x : Record) (m : List (Bytes × Record))
      → ns key ≡ some x
      → lookup k m ≡ ns k
      → lookup k (put_key key x m) ≡ ns k
  put_key-read key k x m q h = ground (arith, lookup-put_key k key x m, equal_iff k key)

  -- What a look gives agrees with the store.
  abbrev IsAnswer : Bytes → Option (Record × Bool) → Type 0
  IsAnswer key none = Unit
  IsAnswer key (some a) = (if a.1 then some a.0 else none) ≡ ns key

  get-IsAnswer :
      (now : ℕ) (key : Bytes) (c : Option LruCache)
      → IsCoherentIf ns c
      → IsAnswer key (get now key c).0
  get-IsAnswer now key c h = of (get now key c).0 refl
    where
      of : (o : Option (Record × Bool)) → (get now key c).0 ≡ o → IsAnswer key o
      of none q = tt
      of (some a) q = get-right ns now key c a.0 a.1 h q

  gather_at-IsRight :
      (key : Bytes) (o : Option (Record × Bool)) (c : Option LruCache) (g : Gathered)
      → IsAnswer key o
      → IsCoherentIf ns c
      → IsRight g
      → IsRight (gather_at key (o, c) g)
  unfolding gather_at
  gather_at-IsRight key none c g a h r = record { right = r.right; coherent = h }
  gather_at-IsRight key (some (x, true)) c g a h r = record {
    right = put_key-right key x g.records (sym a) r.right;
    coherent = h;
  }
  gather_at-IsRight key (some (x, false)) c g a h r = record { right = r.right; coherent = h }

  gather_at-kept :
      (key k : Bytes) (o : Option (Record × Bool)) (c : Option LruCache) (g : Gathered)
      → IsAnswer key o
      → IsPassed k g
      → IsPassed k (gather_at key (o, c) g)
  unfolding gather_at
  gather_at-kept key k none c g a (inl p) = inl (ground (arith, seen_miss-snoc k key g.misses))
  gather_at-kept key k none c g a (inr p) = inr p
  gather_at-kept key k (some (x, f)) c g a (inl p) = inl p
  gather_at-kept key k (some (x, true)) c g a (inr p) =
      inr (put_key-read key k x g.records (sym a) p)
  gather_at-kept key k (some (x, false)) c g a (inr p) = inr p

  unread : (g : Gathered) (key : Bytes) → IsRight g → ns key ≡ none → lookup key g.records ≡ none
  unread g key r q = elim (Option-cases (lookup key g.records)) [
    | inl n ↦ n
    | inr (x, s) ↦ ground (arith, r.right key x s)
  ]

  gather_at-IsPassed :
      (key : Bytes) (o : Option (Record × Bool)) (c : Option LruCache) (g : Gathered)
      → IsAnswer key o
      → IsRight g
      → IsPassed key (gather_at key (o, c) g)
  unfolding gather_at
  gather_at-IsPassed key none c g a r =
      inl (ground (arith, seen_miss-snoc key key g.misses, equal_self key))
  gather_at-IsPassed key (some (x, true)) c g a r =
      inr (ground (arith, lookup-put_key key key x g.records, equal_self key))
  gather_at-IsPassed key (some (x, false)) c g a r = inr (unread g key r (sym a) ∙ a)

  gather-kept :
      (clock : ℕ → ℕ) (n : ℕ) (keys : List Bytes) (k : Bytes) (g : Gathered)
      → IsRight g
      → IsPassed k g
      → IsPassed k (gather clock n keys g)
  unfolding gather
  gather-kept clock n [] k g r p = p
  gather-kept clock n (key ∷ keys) k g r p =
      let a = get (clock n) key g.cache in
      let i = get-IsAnswer (clock n) key g.cache r.coherent in
      gather-kept clock (suc n) keys k (gather_at key a g)
        (gather_at-IsRight key a.0 a.1 g i (get-IsCoherent ns (clock n) key g.cache r.coherent) r)
        (gather_at-kept key k a.0 a.1 g i p)

  pub gather-IsPassed :
      (clock : ℕ → ℕ) (n : ℕ) (keys : List Bytes) (g : Gathered)
      → IsRight g
      → IsRight (gather clock n keys g) × All (λ k. IsPassed k (gather clock n keys g)) keys
  unfolding gather
  gather-IsPassed clock n [] g r = (r, tt)
  gather-IsPassed clock n (key ∷ keys) g r =
      let a = get (clock n) key g.cache in
      let i = get-IsAnswer (clock n) key g.cache r.coherent in
      let r' =
        gather_at-IsRight key a.0 a.1 g i (get-IsCoherent ns (clock n) key g.cache r.coherent) r in
      let rest = gather-IsPassed clock (suc n) keys (gather_at key a g) r' in
      (
        rest.0,
        (
          gather-kept clock (suc n) keys key (gather_at key a g) r'
              (gather_at-IsPassed key a.0 a.1 g i r),
          rest.1,
        ),
      )

  keep_at-IsRight :
      (now ttl : ℕ) (key : Bytes) (o : Option Record) (g : Gathered)
      → o ≡ ns key
      → IsRight g
      → IsRight (keep_at now ttl key o g)
  unfolding keep_at
  keep_at-IsRight now ttl key none g q r = record {
    right = r.right;
    coherent = put-IsCoherent ns now key no_record false ttl g.cache q r.coherent;
  }
  keep_at-IsRight now ttl key (some x) g q r = record {
    right = put_key-right key x g.records (sym q) r.right;
    coherent = put-IsCoherent ns now key x true ttl g.cache q r.coherent;
  }

  keep_at-kept :
      (now ttl : ℕ) (key k : Bytes) (o : Option Record) (g : Gathered)
      → o ≡ ns key
      → IsRead k g
      → IsRead k (keep_at now ttl key o g)
  unfolding keep_at
  keep_at-kept now ttl key k none g q p = p
  keep_at-kept now ttl key k (some x) g q p = put_key-read key k x g.records (sym q) p

  keep_at-IsRead :
      (now ttl : ℕ) (key : Bytes) (o : Option Record) (g : Gathered)
      → o ≡ ns key
      → IsRight g
      → IsRead key (keep_at now ttl key o g)
  unfolding keep_at
  keep_at-IsRead now ttl key none g q r = unread g key r (sym q) ∙ q
  keep_at-IsRead now ttl key (some x) g q r =
      ground (arith, lookup-put_key key key x g.records, equal_self key)

  pub keep-kept :
      (clock : ℕ → ℕ) (n ttl : ℕ) (fetched : List (Bytes × Record)) (misses : List Bytes)
      (k : Bytes) (g : Gathered)
      → All (λ x. lookup x fetched ≡ ns x) misses
      → IsRead k g
      → IsRead k (keep clock n ttl fetched misses g)
  unfolding keep
  keep-kept clock n ttl fetched [] k g a p = p
  keep-kept clock n ttl fetched (key ∷ misses) k g a p =
      keep-kept clock (suc n) ttl fetched misses k
        (keep_at (clock n) ttl key (lookup key fetched) g) a.1
        (keep_at-kept (clock n) ttl key k (lookup key fetched) g a.0 p)

  pub keep-IsRead :
      (clock : ℕ → ℕ) (n ttl : ℕ) (fetched : List (Bytes × Record)) (misses : List Bytes)
      (g : Gathered)
      → All (λ x. lookup x fetched ≡ ns x) misses
      → IsRight g
      → IsRight (keep clock n ttl fetched misses g)
        × All (λ k. IsRead k (keep clock n ttl fetched misses g)) misses
  unfolding keep
  keep-IsRead clock n ttl fetched [] g a r = (r, tt)
  keep-IsRead clock n ttl fetched (key ∷ misses) g a r =
      let g' = keep_at (clock n) ttl key (lookup key fetched) g in
      let rest =
        keep-IsRead clock (suc n) ttl fetched misses g' a.1
          (keep_at-IsRight (clock n) ttl key (lookup key fetched) g a.0 r) in
      (
        rest.0,
        (
          keep-kept clock (suc n) ttl fetched misses key g' a.1
              (keep_at-IsRead (clock n) ttl key (lookup key fetched) g a.0 r),
          rest.1,
        ),
      )
