-- ===== src/Url/Params/Sort.antt =====
-- `sort` orders the parameters by name and keeps the order of equal names.
use goja_ext.Prelude.{true, false, List, [], ◌∷◌, Bytes, equal_iff, ◌≡◌, refl, arith}
use goja_ext.Url.Params.{
  SearchParam, NodeUrl, get_values, bytes_lt, less, insert_sorted, sort_params, sort, mark_updated,
}

bytes_lt_irrefl : (a : Bytes) → bytes_lt a a ≡ false
unfolding bytes_lt
bytes_lt_irrefl [] = refl
bytes_lt_irrefl (x ∷ a) = ground (arith, bytes_lt_irrefl a)

bytes_lt_asym : (a b : Bytes) → bytes_lt a b ≡ true → bytes_lt b a ≡ false
unfolding bytes_lt
bytes_lt_asym [] [] h = refl
bytes_lt_asym (x ∷ a) [] h = cc
bytes_lt_asym [] (y ∷ b) h = refl
bytes_lt_asym (x ∷ a) (y ∷ b) h = ground (arith, bytes_lt_asym a b)

-- No parameter is less than the one before it.
abbrev pub IsSorted : List SearchParam → Type 0
IsSorted [] = Unit {0}
IsSorted (p ∷ []) = Unit {0}
IsSorted (p ∷ q ∷ ps) = (less q p ≡ false) × IsSorted (q ∷ ps)

insert_sorted-IsSorted :
    (p : SearchParam) (ps : List SearchParam) → IsSorted ps → IsSorted (insert_sorted p ps)
unfolding insert_sorted
insert_sorted-IsSorted p [] h = tt
insert_sorted-IsSorted p (q ∷ []) h = ground (arith, bytes_lt_asym q.name p.name)
insert_sorted-IsSorted p (q ∷ r ∷ ps) h =
    ground (arith, bytes_lt_asym q.name p.name, insert_sorted-IsSorted p (r ∷ ps) h.1)

sort_params-IsSorted : (ps : List SearchParam) → IsSorted (sort_params ps)
unfolding sort_params
sort_params-IsSorted [] = tt
sort_params-IsSorted (p ∷ ps) = insert_sorted-IsSorted p (sort_params ps) (sort_params-IsSorted ps)

get_values-insert_sorted :
    (n : Bytes) (p : SearchParam) (ps : List SearchParam)
    → get_values n (insert_sorted p ps) ≡ get_values n (p ∷ ps)
unfolding get_values insert_sorted
get_values-insert_sorted n p [] = refl
get_values-insert_sorted n p (q ∷ ps) = ground (
  arith,
  get_values-insert_sorted n p ps,
  equal_iff p.name n,
  equal_iff q.name n,
  bytes_lt_irrefl n,
)

get_values-sort_params :
    (n : Bytes) (ps : List SearchParam) → get_values n (sort_params ps) ≡ get_values n ps
unfolding sort_params get_values
get_values-sort_params n [] = refl
get_values-sort_params n (p ∷ ps) =
    ground (arith, get_values-insert_sorted n p (sort_params ps), get_values-sort_params n ps)

-- `sort` leaves the parameters ordered by name, and each name has the values that it had, in the
-- order in which it had them.
pub sort_stable :
    (u : NodeUrl)
    → IsSorted (sort u).params
      × ((n : Bytes) → get_values n (sort u).params ≡ get_values n u.params)
unfolding sort mark_updated
sort_stable u = (sort_params-IsSorted u.params, λ n. get_values-sort_params n u.params)
