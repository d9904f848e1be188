-- ===== src/Kv/Cache/Agree.antt =====
-- The list of elements: what a key finds in it, and how the map and the size agree with it.
use goja_ext.Prelude.{
  ℕ, ◌+◌, ◌≤◌, ◌<◌, List, [], ◌∷◌, Option, none, some, ◌≡◌, ◌≢◌, refl, sym, ◌==◌, if◌then◌else◌,
  length, Bytes, equal, equal_iff, equal_self, All, arith, Bool-cases, inl, inr, subst,
}
use goja_ext.Kv.Cache.{Element, remove_id, back}

-- The first element with a key.
unfoldable pub find_key : Bytes → List Element → Option Element
find_key key [] = none
find_key key (e ∷ order) = if equal key e.key then some e else find_key key order

unfoldable pub total : List Element → ℕ
total [] = 0
total (e ∷ order) = e.size + total order

-- No two elements of the list have a key or an identity in common.
unfoldable pub IsDistinct : List Element → Type 0
unfolding find_key
IsDistinct [] = Unit
IsDistinct (e ∷ order) =
    (find_key e.key order ≡ none) × (All (λ f. f.id ≢ e.id) order × IsDistinct order)

pub find_key-All {κ} :
    (P : Element → Type κ) (key : Bytes) (order : List Element) (e : Element)
    → All P order
    → find_key key order ≡ some e
    → P e × (e.key ≡ key)
unfolding find_key
find_key-All P key [] e a h = cc
find_key-All P key (f ∷ order) e a h = elim (Bool-cases (equal key f.key)) [
  | inl q ↦
      let p : f ≡ e = ground arith in
      subst (λ x. P x × (x.key ≡ key)) p (a.0, sym ((equal_iff key f.key).0 q))
  | inr q ↦ find_key-All P key order e a.1 (ground arith)
]

pub remove_id-All {κ} :
    (P : Element → Type κ) (id : ℕ) (order : List Element)
    → All P order
    → All P (remove_id id order)
unfolding remove_id
remove_id-All P id [] a = tt
remove_id-All P id (e ∷ order) a = elim (Bool-cases (e.id == id)) [
  | inl q ↦ let p : order ≡ remove_id id (e ∷ order) = ground arith in subst (All P) p a.1
  | inr q ↦
      let p : e ∷ remove_id id order ≡ remove_id id (e ∷ order) = ground arith in
      subst (All P) p (a.0, remove_id-All P id order a.1)
]

pub find_key-remove_id :
    (order : List Element) (e : Element) (k : Bytes)
    → IsDistinct order
    → find_key e.key order ≡ some e
    → find_key k (remove_id e.id order) ≡ (if equal k e.key then none else find_key k order)
unfolding remove_id find_key IsDistinct
find_key-remove_id [] e k d h = cc
find_key-remove_id (f ∷ order) e k d h = ground (
  arith,
  find_key-remove_id order e k d.1.1,
  find_key-All (λ x. x.id ≢ f.id) e.key order e d.1.0,
  equal_iff e.key f.key,
  equal_iff k e.key,
  equal_iff k f.key,
)

find_none-remove_id :
    (id : ℕ) (k : Bytes) (order : List Element)
    → find_key k order ≡ none
    → find_key k (remove_id id order) ≡ none
unfolding remove_id find_key
find_none-remove_id id k [] h = refl
find_none-remove_id id k (f ∷ order) h = ground (arith, find_none-remove_id id k order)

pub remove_id-IsDistinct :
    (id : ℕ) (order : List Element) → IsDistinct order → IsDistinct (remove_id id order)
unfolding remove_id IsDistinct
remove_id-IsDistinct id [] d = tt
remove_id-IsDistinct id (e ∷ order) d = elim (Bool-cases (e.id == id)) [
  | inl q ↦ let p : order ≡ remove_id id (e ∷ order) = ground arith in subst IsDistinct p d.1.1
  | inr q ↦
      let p : e ∷ remove_id id order ≡ remove_id id (e ∷ order) = ground arith in
      subst IsDistinct p (
        find_none-remove_id id e.key order d.0,
        (remove_id-All (λ f. f.id ≢ e.id) id order d.1.0, remove_id-IsDistinct id order d.1.1),
      )
]

pub total-remove_id :
    (order : List Element) (k : Bytes) (e : Element)
    → IsDistinct order
    → find_key k order ≡ some e
    → e.size + total (remove_id e.id order) ≡ total order
unfolding remove_id find_key IsDistinct total
total-remove_id [] k e d h = cc
total-remove_id (f ∷ order) k e d h =
    ground (arith, total-remove_id order k e d.1.1, find_key-All (λ x. x.id ≢ f.id) k order e d.1.0)

-- The key of the last element finds that element.
pub find_key-back :
    (order : List Element) (e : Element)
    → IsDistinct order
    → back order ≡ some e
    → find_key e.key order ≡ some e
unfolding back find_key IsDistinct
find_key-back [] e d h = cc
find_key-back (f ∷ []) e d h = ground (arith, equal_self f.key)
find_key-back (f ∷ g ∷ order) e d h =
    ground (arith, find_key-back (g ∷ order) e d.1.1 h, equal_iff e.key f.key)

pub length-remove_id :
    (order : List Element) (k : Bytes) (e : Element)
    → find_key k order ≡ some e
    → length (remove_id e.id order) < length order
unfolding remove_id find_key
length-remove_id [] k e h = cc
length-remove_id (f ∷ order) k e h = ground (arith, length-remove_id order k e)

pub remove_id-gone :
    (order : List Element) (k : Bytes) (e : Element)
    → IsDistinct order
    → find_key k order ≡ some e
    → All (λ f. f.id ≢ e.id) (remove_id e.id order)
unfolding remove_id find_key IsDistinct
remove_id-gone [] k e d h = cc
remove_id-gone (f ∷ order) k e d h = elim (Bool-cases (equal k f.key)) [
  | inl q ↦
      let p : f ≡ e = ground arith in
      let r : order ≡ remove_id e.id (f ∷ order) = ground arith in
      subst (λ xs. All (λ x. x.id ≢ e.id) xs) r (subst (λ x. All (λ g. g.id ≢ x.id) order) p d.1.0)
  | inr q ↦
      let i : find_key k order ≡ some e = ground arith in
      let n : e.id ≢ f.id = (find_key-All (λ x. x.id ≢ f.id) k order e d.1.0 i).0 in
      let r : f ∷ remove_id e.id order ≡ remove_id e.id (f ∷ order) = ground arith in
      subst (λ xs. All (λ x. x.id ≢ e.id) xs) r (ground arith, remove_id-gone order k e d.1.1 i)
]

pub key-find_key :
    (k : Bytes) (order : List Element) (e : Element) → find_key k order ≡ some e → e.key ≡ k
unfolding find_key
key-find_key k [] e h = cc
key-find_key k (f ∷ order) e h = ground (arith, key-find_key k order e, equal_iff k f.key)

pub total_empty : (order : List Element) → length order ≤ 0 → total order ≡ 0
unfolding total
total_empty [] h = refl
total_empty (e ∷ order) h = omega arith

pub length-back : (order : List Element) → back order ≡ none → length order ≤ 0
unfolding back
length-back [] h = omega arith
length-back (e ∷ []) h = cc
length-back (e ∷ f ∷ order) h = omega (arith, length-back (f ∷ order) h)
