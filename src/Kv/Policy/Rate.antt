-- ===== src/Kv/Policy/Rate.antt =====
-- The write rate: two accepted writes to a key are at least the interval apart.
use goja_ext.Prelude.{
  ℕ, ◌+◌, ◌<◌, List, [], ◌∷◌, Option, none, some, ◌≡◌, ltb, if◌then◌else◌, length, Bytes, equal,
  equal_iff, equal_self, lookup, delete_key, lookup-delete_key, All, arith, ◌∙◌, if_split,
}
use goja_ext.Kv.Policy.{begin_write, record_write, forget}

forget-keeps :
    (interval now t : ℕ) (key : Bytes) (last : List (Bytes × ℕ))
    → now < t + interval
    → 0 < interval
    → lookup key last ≡ some t
    → lookup key (forget interval now last) ≡ some t
unfolding forget lookup
forget-keeps interval now t key [] h z q = cc
forget-keeps interval now t key (p ∷ last) h z q =
    ground (arith, forget-keeps interval now t key last h z)

-- The map after a write that is accepted or not.
abbrev pub after : Option (List (Bytes × ℕ)) → List (Bytes × ℕ) → List (Bytes × ℕ)
after none last = last
after (some last') last = last'

-- Writes at their times, one after the other.
abbrev pub writes : ℕ → List (ℕ × Bytes) → List (Bytes × ℕ) → List (Bytes × ℕ)
writes interval [] last = last
writes interval (w ∷ rest) last =
    writes interval rest (after (begin_write interval w.0 w.1 last) last)

rejected :
    (interval now t : ℕ) (key : Bytes) (last : List (Bytes × ℕ))
    → now < t + interval
    → 0 < interval
    → lookup key last ≡ some t
    → begin_write interval now key last ≡ none
unfolding begin_write
rejected interval now t key last h z q = ground arith

-- What the accepted write puts into the map.
stored :
    (interval now : ℕ) (key k : Bytes) (last : List (Bytes × ℕ))
    → lookup k ((key, now) ∷ delete_key key last)
      ≡ (if equal k key then some now else lookup k last)
unfolding lookup
stored interval now key k last = ground (arith, lookup-delete_key k key last)

recorded :
    (interval now t : ℕ) (key k : Bytes) (last : List (Bytes × ℕ))
    → now < t + interval
    → 0 < interval
    → (if equal k key then some now else lookup k last) ≡ some t
    → lookup k (record_write interval now key last) ≡ some t
unfolding record_write
recorded interval now t key k last h z q =
    let m = (key, now) ∷ delete_key key last in
    let p : lookup k m ≡ some t = stored interval now key k last ∙ q in
    if_split (λ x. lookup k x ≡ some t) (ltb 4096 (length m)) (forget interval now m) m
      (λ _. forget-keeps interval now t k m h z p) (λ _. p)

step-keeps :
    (interval now t : ℕ) (key k : Bytes) (last : List (Bytes × ℕ))
    → now < t + interval
    → 0 < interval
    → lookup k last ≡ some t
    → lookup k (after (begin_write interval now key last) last) ≡ some t
unfolding begin_write
step-keeps interval now t key k last h z q =
    ground (arith, recorded interval now t key k last h z, equal_iff k key)

accepted :
    (interval now : ℕ) (key : Bytes) (last last' : List (Bytes × ℕ))
    → 0 < interval
    → begin_write interval now key last ≡ some last'
    → lookup key last' ≡ some now
unfolding begin_write
accepted interval now key last last' z q =
    ground (arith, recorded interval now now key key last (omega arith) z, equal_self key)

writes-keep :
    (interval t : ℕ) (k : Bytes) (rest : List (ℕ × Bytes)) (last : List (Bytes × ℕ))
    → All (λ w. w.0 < t + interval) rest
    → 0 < interval
    → lookup k last ≡ some t
    → lookup k (writes interval rest last) ≡ some t
writes-keep interval t k [] last a z q = q
writes-keep interval t k (w ∷ rest) last a z q =
    writes-keep interval t k rest (after (begin_write interval w.0 w.1 last) last) a.1 z
      (step-keeps interval w.0 t w.1 k last a.0 z q)

-- With an interval above 0: after an accepted write to a key, and any writes to any keys within the
-- interval, a further write to the key within the interval is rejected.
pub begin_write_spaced :
    (interval t now : ℕ) (key : Bytes) (rest : List (ℕ × Bytes)) (last last' : List (Bytes × ℕ))
    → 0 < interval
    → begin_write interval t key last ≡ some last'
    → All (λ w. w.0 < t + interval) rest
    → now < t + interval
    → begin_write interval now key (writes interval rest last') ≡ none
begin_write_spaced interval t now key rest last last' z q a h =
    rejected interval now t key (writes interval rest last') h z
      (writes-keep interval t key rest last' a z (accepted interval t key last last' z q))
