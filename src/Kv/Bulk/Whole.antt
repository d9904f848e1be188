-- ===== src/Kv/Bulk/Whole.antt =====
-- The whole bulk read.
use goja_ext.Prelude.{
  ℕ, true, List, [], ◌∷◌, Option, none, some, ◌≡◌, refl, sym, ap, length, Bytes, equal, equal_iff,
  lookup, arith, Bool-cases, inl, inr, All, subst,
}
use goja_ext.Kv.Cache.{Record, LruCache}
use goja_ext.Kv.Bulk.{Gathered, seen_miss, gather, keep, fetch_misses, sized, answer, get_many}
use goja_ext.Kv.Bulk.Coherent.{IsCoherentIf}
use goja_ext.Kv.Bulk.Read.{IsRight, IsRead, IsPassed, gather-IsPassed, keep-IsRead, keep-kept}

seen_miss-All :
    (P : Bytes → Type 0) (k : Bytes) (misses : List Bytes)
    → seen_miss k misses ≡ true
    → All P misses
    → P k
unfolding seen_miss
seen_miss-All P k [] h a = cc
seen_miss-All P k (x ∷ misses) h a = elim (Bool-cases (equal k x)) [
  | inl q ↦ subst P (sym ((equal_iff k x).0 q)) a.0
  | inr q ↦ seen_miss-All P k misses (ground arith) a.1
]

module _ (ns : Bytes → Option Record) where
  All-IsRead :
      (clock : ℕ → ℕ) (n ttl : ℕ) (fetched : List (Bytes × Record)) (g : Gathered)
      (keys : List Bytes)
      → All (λ x. lookup x fetched ≡ ns x) g.misses
      → IsRight ns g
      → All (λ k. IsPassed ns k g) keys
      → All (λ k. IsRead ns k (keep clock n ttl fetched g.misses g)) keys
  All-IsRead clock n ttl fetched g [] a r p = tt
  All-IsRead clock n ttl fetched g (k ∷ keys) a r p = (
    elim p.0 [
      | inl m ↦
          seen_miss-All (λ x. IsRead ns x (keep clock n ttl fetched g.misses g)) k g.misses m
            (keep-IsRead ns clock n ttl fetched g.misses g a r).1
      | inr q ↦ keep-kept ns clock n ttl fetched g.misses k g a q
    ],
    All-IsRead clock n ttl fetched g keys a r p.1,
  )

  sized-records :
      (maximum : ℕ) (g : Gathered) (records : List (Bytes × Record))
      → (sized maximum g).0 ≡ inr records
      → g.records ≡ records
  sized-records maximum g records h = ground arith

  sized-cache : (maximum : ℕ) (g : Gathered) → (sized maximum g).1 ≡ g.cache
  sized-cache maximum g = ground arith

  answered :
      (clock : ℕ → ℕ) (n maximum ttl : ℕ) (o : Option (List (Bytes × Record))) (g : Gathered)
      → (keys : List Bytes) (records : List (Bytes × Record))
      → ((m : List (Bytes × Record)) → o ≡ some m → All (λ x. lookup x m ≡ ns x) g.misses)
      → IsRight ns g
      → All (λ k. IsPassed ns k g) keys
      → (answer clock n maximum ttl o g).0 ≡ inr records
      → All (λ k. lookup k records ≡ ns k) keys × IsCoherentIf ns (answer clock n maximum ttl o g).1
  unfolding answer
  answered clock n maximum ttl none g keys records f r p h = cc
  answered clock n maximum ttl (some m) g keys records f r p h =
      let g' = keep clock n ttl m g.misses g in
      (
        subst (λ x. All (λ k. lookup k x ≡ ns k) keys) (sized-records maximum g' records h)
            (All-IsRead clock n ttl m g keys (f m refl) r p),
        subst (IsCoherentIf ns) (sym (sized-cache maximum g'))
            (keep-IsRead ns clock n ttl m g.misses g (f m refl) r).0.coherent,
      )

  fetched_right :
      (fetch : List Bytes → Option (List (Bytes × Record))) (misses : List Bytes)
      → ((ks : List Bytes) (m : List (Bytes × Record))
          → fetch ks ≡ some m
          → All (λ x. lookup x m ≡ ns x) ks)
      → (m : List (Bytes × Record)) → fetch_misses fetch misses ≡ some m
      → All (λ x. lookup x m ≡ ns x) misses
  fetched_right fetch [] f m q = tt
  fetched_right fetch (k ∷ misses) f m q = f (k ∷ misses) m q

-- For a store that has `ns`, a fetch that gives what the store has whenever it succeeds, and a cache whose
-- elements agree with the store: a bulk read that returns records returns for each key what the store
-- has, nothing where it has nothing, and leaves a cache whose elements agree with the store.
pub get_many-reads :
    (ns : Bytes → Option Record) (clock : ℕ → ℕ)
    (fetch : List Bytes → Option (List (Bytes × Record)))
    → (maximum ttl : ℕ) (keys : List Bytes) (c : Option LruCache) (records : List (Bytes × Record))
    → IsCoherentIf ns c
    → ((ks : List Bytes) (m : List (Bytes × Record))
        → fetch ks ≡ some m
        → All (λ x. lookup x m ≡ ns x) ks)
    → (get_many clock fetch maximum ttl keys c).0 ≡ inr records
    → All (λ k. lookup k records ≡ ns k) keys
      × IsCoherentIf ns (get_many clock fetch maximum ttl keys c).1
unfolding get_many lookup
get_many-reads ns clock fetch maximum ttl keys c records h f q =
    let g₀ : Gathered = record { records = []; misses = []; cache = c } in
    let p = gather-IsPassed ns clock 0 keys g₀ (record { right = λ k r e. cc; coherent = h }) in
    let g = gather clock 0 keys g₀ in
    answered ns clock (length keys) maximum ttl (fetch_misses fetch g.misses) g keys records
      (fetched_right ns fetch g.misses f) p.0 p.1 q

answer-returns :
    (clock : ℕ → ℕ) (n ttl : ℕ) (o : Option (List (Bytes × Record))) (m : List (Bytes × Record))
    (g : Gathered)
    → o ≡ some m
    → (answer clock n 0 ttl o g).0 ≡ inr (keep clock n ttl m g.misses g).records
unfolding answer
answer-returns clock n ttl none m g h = cc
answer-returns clock n ttl (some x) m g h =
    ap (λ y. inr (keep clock n ttl y g.misses g).records) (ground arith)

fetched_misses :
    (fetch : List Bytes → Option (List (Bytes × Record))) (misses : List Bytes)
    → ((ks : List Bytes) → (m : List (Bytes × Record)) × (fetch ks ≡ some m))
    → (m : List (Bytes × Record)) × (fetch_misses fetch misses ≡ some m)
fetched_misses fetch [] f = ([], refl)
fetched_misses fetch (k ∷ misses) f = f (k ∷ misses)

-- If the fetch always succeeds and there is no maximum for the response, a bulk read returns records.
pub get_many-returns :
    (clock : ℕ → ℕ) (fetch : List Bytes → Option (List (Bytes × Record)))
    → (ttl : ℕ) (keys : List Bytes) (c : Option LruCache)
    → ((ks : List Bytes) → (m : List (Bytes × Record)) × (fetch ks ≡ some m))
    → (records : List (Bytes × Record)) × ((get_many clock fetch 0 ttl keys c).0 ≡ inr records)
unfolding get_many
get_many-returns clock fetch ttl keys c f =
    let g = gather clock 0 keys (record { records = []; misses = []; cache = c }) in
    let (m, q) = fetched_misses fetch g.misses f in
    (
      (keep clock (length keys) ttl m g.misses g).records,
      answer-returns clock (length keys) ttl (fetch_misses fetch g.misses) m g q,
    )
