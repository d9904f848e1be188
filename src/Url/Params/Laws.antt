-- ===== src/Url/Params/Laws.antt =====
-- What the methods of URLSearchParams do to the values of each name, and how a change reaches the
-- URL's query.
use goja_ext.Prelude.{
  Bool, true, false, not, List, [], ◌∷◌, ◌++◌, Option, none, some, if◌then◌else◌, Bytes, equal,
  equal_iff, equal_self, append-nil, ◌≡◌, refl, arith,
}
use goja_ext.Url.Params.{
  SearchParam, NodeUrl, ValueArg, omitted, undefined, given, encode, params_string, has_name,
  get_values, get_first_value, append, delete, delete_params, keeps, has, set, set_loop, sort,
  sync_search_params, mark_updated, cleared, synced,
}

abbrev head? : List Bytes → Option Bytes
head? [] = none
head? (v ∷ vs) = some v

abbrev is_nil : List Bytes → Bool
is_nil [] = true
is_nil (v ∷ vs) = false

-- `get` gives the first of the values of a name, and `has` whether there is one.
pub get_values_reads :
    (n : Bytes) (ps : List SearchParam)
    → (get_first_value n ps ≡ head? (get_values n ps))
      × (has_name n ps ≡ not (is_nil (get_values n ps)))
unfolding get_values get_first_value has_name
get_values_reads n [] = (refl, refl)
get_values_reads n (p ∷ ps) = ground (arith, get_values_reads n ps)

get_values-append_list :
    (n : Bytes) (ps qs : List SearchParam)
    → get_values n (ps ++ qs) ≡ get_values n ps ++ get_values n qs
unfolding get_values
get_values-append_list n [] qs = refl
get_values-append_list n (p ∷ ps) qs = ground (arith, get_values-append_list n ps qs)

set_loop_found : (n v : Bytes) (ps : List SearchParam) → (set_loop n v true ps).1 ≡ true
unfolding set_loop
set_loop_found n v [] = refl
set_loop_found n v (p ∷ ps) = ground (arith, set_loop_found n v ps)

set_loop-has_name :
    (n v : Bytes) (ps : List SearchParam) → (set_loop n v false ps).1 ≡ has_name n ps
unfolding set_loop has_name
set_loop-has_name n v [] = refl
set_loop-has_name n v (p ∷ ps) = ground (arith, set_loop-has_name n v ps, set_loop_found n v ps)

get_values-set_loop_found :
    (n v m : Bytes) (ps : List SearchParam)
    → get_values m (set_loop n v true ps).0 ≡ (if equal n m then [] else get_values m ps)
unfolding set_loop get_values
get_values-set_loop_found n v m [] = ground arith
get_values-set_loop_found n v m (p ∷ ps) = ground (
  arith,
  get_values-set_loop_found n v m ps,
  equal_iff n m,
  equal_iff p.name n,
  equal_iff p.name m,
)

get_values-set_loop :
    (n v m : Bytes) (ps : List SearchParam)
    → get_values m (set_loop n v false ps).0
      ≡ (if equal n m then (if has_name n ps then v ∷ [] else []) else get_values m ps)
unfolding set_loop get_values has_name
get_values-set_loop n v m [] = ground arith
get_values-set_loop n v m (p ∷ ps) = ground (
  arith,
  get_values-set_loop n v m ps,
  get_values-set_loop_found n v m ps,
  equal_iff n m,
  equal_iff p.name n,
  equal_iff p.name m,
)

get_values_absent :
    (n : Bytes) (ps : List SearchParam) → has_name n ps ≡ false → get_values n ps ≡ []
unfolding get_values has_name
get_values_absent n [] h = refl
get_values_absent n (p ∷ ps) h = ground (arith, get_values_absent n ps)

get_values_single :
    (n m v : Bytes)
    → get_values m (record { name = n; value = v } ∷ []) ≡ (if equal n m then v ∷ [] else [])
unfolding get_values
get_values_single n m v = refl

-- After `append` the values of the name end with the new one, and other names keep theirs.
pub get_values-append :
    (n v m : Bytes) (u : NodeUrl)
    → get_values m (append n v u).params
      ≡ get_values m u.params ++ (if equal n m then v ∷ [] else [])
unfolding append
get_values-append n v m u = rw (
  get_values-append_list m u.params (record { name = n; value = v } ∷ []),
  get_values_single n m v,
)

-- After `set` the name has that one value, whatever it had before, and other names keep theirs.
pub get_values-set :
    (n v m : Bytes) (u : NodeUrl)
    → get_values m (set n v u).params ≡ (if equal n m then v ∷ [] else get_values m u.params)
unfolding set
get_values-set n v m u = ground (
  arith,
  set_loop-has_name n v u.params,
  get_values-set_loop n v m u.params,
  get_values-append_list m u.params (record { name = n; value = v } ∷ []),
  get_values_single n m v,
  get_values_absent n u.params,
  equal_iff n m,
  append-nil (get_values m u.params),
)

abbrev without : Bytes → List Bytes → List Bytes
without v [] = []
without v (w ∷ vs) = if equal w v then without v vs else w ∷ without v vs

-- What `delete` leaves of a name's values.
abbrev pub values_left : ValueArg → List Bytes → List Bytes
values_left omitted vs = []
values_left undefined vs = vs
values_left (given v) vs = without v vs

get_values-delete_params :
    (n : Bytes) (v : ValueArg) (m : Bytes) (ps : List SearchParam)
    → get_values m (delete_params n v ps)
      ≡ (if equal n m then values_left v (get_values m ps) else get_values m ps)
unfolding delete_params get_values keeps
get_values-delete_params n omitted m [] = ground arith
get_values-delete_params n undefined m [] = ground arith
get_values-delete_params n (given v) m [] = ground arith
get_values-delete_params n omitted m (p ∷ ps) = ground (
  arith,
  get_values-delete_params n omitted m ps,
  equal_iff n m,
  equal_iff p.name n,
  equal_iff p.name m,
)
get_values-delete_params n undefined m (p ∷ ps) =
    ground (arith, get_values-delete_params n undefined m ps)
get_values-delete_params n (given v) m (p ∷ ps) = ground (
  arith,
  get_values-delete_params n (given v) m ps,
  equal_iff n m,
  equal_iff p.name n,
  equal_iff p.name m,
)

-- `delete` takes away all values of the name, or those equal to its second argument; given an
-- undefined second argument it takes away none. Other names keep their values.
pub get_values-delete :
    (n : Bytes) (v : ValueArg) (m : Bytes) (u : NodeUrl)
    → get_values m (delete n v u).params
      ≡ (if equal n m then values_left v (get_values m u.params) else get_values m u.params)
unfolding delete
get_values-delete n v m u = get_values-delete_params n v m u.params

-- `has` and `delete` read an undefined second argument differently: what `has` finds is still there
-- after `delete` with the same arguments.
pub has-delete_undefined :
    (n : Bytes) (u : NodeUrl) → has n undefined (delete n undefined u) ≡ has n undefined u
unfolding has
has-delete_undefined n u = ground (
  arith,
  get_values_reads n u.params,
  get_values_reads n (delete n undefined u).params,
  get_values-delete n undefined n u,
  equal_self n,
)

-- A method that changes the parameters.
pub data Update : Type 0 where
  append_one : Bytes → Bytes → Update
  delete_all : Bytes → ValueArg → Update
  set_one : Bytes → Bytes → Update
  sort_all : Update

abbrev pub apply : Update → NodeUrl → NodeUrl
apply (append_one n v) u = append n v u
apply (delete_all n v) u = delete n v u
apply (set_one n v) u = set n v u
apply sort_all u = sort u

abbrev pub encoded_for : Option Bytes → List SearchParam → Option Bytes
encoded_for none ps = none
encoded_for (some raw) ps = some (encode ps)

sync_search_params-mark_updated :
    (u : NodeUrl)
    → (sync_search_params (mark_updated u)).raw_query ≡ encoded_for u.raw_query u.params
unfolding sync_search_params mark_updated encode params_string
sync_search_params-mark_updated u = at u.raw_query u.params
  where
    at : (raw : Option Bytes) (ps : List SearchParam) → synced ps (cleared raw) ≡ encoded_for raw ps
    at none ps = refl
    at (some raw) [] = refl
    at (some raw) (p ∷ ps) = ground arith

-- After any change, synchronising gives the URL exactly the text of the parameters as its query, also
-- when no parameter is left; an object that belongs to no URL gets none.
pub sync_search_params-apply :
    (up : Update) (u : NodeUrl)
    → (sync_search_params (apply up u)).raw_query ≡ encoded_for u.raw_query (apply up u).params
unfolding append delete set sort mark_updated
sync_search_params-apply (append_one n v) u =
    sync_search_params-mark_updated (record u { params = _ })
sync_search_params-apply (delete_all n v) u =
    sync_search_params-mark_updated (record u { params = _ })
sync_search_params-apply (set_one n v) u = sync_search_params-mark_updated (record u { params = _ })
sync_search_params-apply sort_all u = sync_search_params-mark_updated (record u { params = _ })
