-- ===== src/Url/Params.antt =====
-- url/nodeurl.go and url/urlsearchparams.go: the list of search parameters, its text form and the
-- methods of URLSearchParams. A method takes its JavaScript arguments as strings; `append`, `set`
-- and the others are modelled behind the check of the number of arguments.
pub mod RoundTrip
pub mod Laws
pub mod Sort
pub mod Multimap
use goja_ext.Prelude.{
  ℕ, ◌<◌, Bool, true, false, ◌&&◌, ◌||◌, not, List, [], ◌∷◌, ◌++◌, Option, none, some, ◌==◌, ltb,
  if◌then◌else◌, length, Bytes, equal, split, split_first,
}
use goja_ext.Url.Escape.{tbl_escape_url_query_param, escape, unescape_search_param}

pub record SearchParam : Type 0 where
  pub name : Bytes
  pub value : Bytes

abbrev pub escape_search_param : Bytes → Bytes
escape_search_param s = escape s tbl_escape_url_query_param true

-- `searchParam.string`
unfoldable pub param_string : Bool → SearchParam → Bytes
param_string encode p =
    if encode
    then escape_search_param p.name ++ (b'=' ∷ escape_search_param p.value)
    else p.name ++ (b'=' ∷ p.value)

-- The loops of `searchParams.Encode` and `searchParams.String`; the flag is `i > 0`.
unfoldable pub params_string : Bool → Bool → List SearchParam → Bytes
params_string encode later [] = []
params_string encode later (p ∷ ps) =
    let text = param_string encode p ++ params_string encode true ps in
    if later then b'&' ∷ text else text

unfoldable pub encode : List SearchParam → Bytes
encode = params_string true false

-- `strings.TrimPrefix(query, "?")`
unfoldable pub trim_question : Bytes → Bytes
trim_question [] = []
trim_question (c ∷ s) = if c == b'?' then s else c ∷ s

-- `v == ""`
abbrev pub is_empty : Bytes → Bool
is_empty [] = true
is_empty (c ∷ s) = false

-- The two cases of the switch on `len(pair)`.
unfoldable pub parse_pair : Bytes × Option Bytes → SearchParam
parse_pair (n, none) = record { name = unescape_search_param n; value = [] }
parse_pair (n, some v) = record { name = unescape_search_param n; value = unescape_search_param v }

unfoldable pub parse_pieces : List Bytes → List SearchParam
unfolding parse_pair
parse_pieces [] = []
parse_pieces (v ∷ vs) =
    if is_empty v then parse_pieces vs else parse_pair (split_first b'=' v) ∷ parse_pieces vs

unfoldable pub parse_search_query : Bytes → List SearchParam
unfolding parse_pieces trim_question
parse_search_query query =
    if is_empty query then [] else parse_pieces (split b'&' (trim_question query))

unfoldable pub has_name : Bytes → List SearchParam → Bool
has_name n [] = false
has_name n (p ∷ ps) = if equal p.name n then true else has_name n ps

unfoldable pub has_value : Bytes → Bytes → List SearchParam → Bool
has_value n v [] = false
has_value n v (p ∷ ps) = if equal p.name n && equal p.value v then true else has_value n v ps

unfoldable pub get_values : Bytes → List SearchParam → List Bytes
get_values n [] = []
get_values n (p ∷ ps) = if equal p.name n then p.value ∷ get_values n ps else get_values n ps

unfoldable pub get_first_value : Bytes → List SearchParam → Option Bytes
get_first_value n [] = none
get_first_value n (p ∷ ps) = if equal p.name n then some p.value else get_first_value n ps

-- `nodeURL`: the parameters and, if the object belongs to a URL, that URL's `RawQuery`.
pub record NodeUrl : Type 0 where
  pub raw_query : Option Bytes
  pub params : List SearchParam

abbrev pub cleared : Option Bytes → Option Bytes
cleared none = none
cleared (some raw) = some []

-- `markUpdated`: a query that is already empty stays as it is.
unfoldable pub mark_updated : NodeUrl → NodeUrl
mark_updated u = record u { raw_query = cleared u.raw_query }

-- `rawQueryUpdateNeeded` and `syncSearchParams`, for a query that is there.
unfoldable pub sync_query : Bytes → List SearchParam → Bytes
sync_query raw ps = if ltb 0 (length ps) && is_empty raw then encode ps else raw

abbrev pub synced : List SearchParam → Option Bytes → Option Bytes
synced ps none = none
synced ps (some raw) = some (sync_query raw ps)

unfoldable pub sync_search_params : NodeUrl → NodeUrl
unfolding sync_query
sync_search_params u = record u { raw_query = synced u.params u.raw_query }

unfoldable pub append : Bytes → Bytes → NodeUrl → NodeUrl
unfolding mark_updated
append n v u =
    mark_updated (record u { params = u.params ++ (record { name = n; value = v } ∷ []) })

-- The optional second argument of `delete`: not given, given as `undefined`, or a string.
pub data ValueArg : Type 0 where
  omitted : ValueArg
  undefined : ValueArg
  given : Bytes → ValueArg

-- `isValid`: whether `delete` keeps a parameter.
unfoldable pub keeps : Bytes → ValueArg → SearchParam → Bool
keeps n omitted p = not (equal p.name n)
keeps n undefined p = true
keeps n (given v) p = not (equal p.name n && equal p.value v)

unfoldable pub delete_params : Bytes → ValueArg → List SearchParam → List SearchParam
unfolding keeps
delete_params n v [] = []
delete_params n v (p ∷ ps) = if keeps n v p then p ∷ delete_params n v ps else delete_params n v ps

unfoldable pub delete : Bytes → ValueArg → NodeUrl → NodeUrl
unfolding mark_updated delete_params
delete n v u = mark_updated (record u { params = delete_params n v u.params })

-- `has`: the second argument counts unless it is undefined.
unfoldable pub has : Bytes → ValueArg → NodeUrl → Bool
has n omitted u = has_name n u.params
has n undefined u = has_name n u.params
has n (given v) u = has_value n v u.params

-- The loop of `set`: the parameters that it keeps, and whether the name was found.
unfoldable pub set_loop : Bytes → Bytes → Bool → List SearchParam → List SearchParam × Bool
set_loop n v found [] = ([], found)
set_loop n v found (p ∷ ps) =
    let same = equal p.name n in
    let (rest, found') = set_loop n v (found || same) ps in
    if same
    then (if found then (rest, found') else (record p { value = v } ∷ rest, found'))
    else (p ∷ rest, found')

unfoldable pub set_params : Bytes → Bytes → List SearchParam → List SearchParam
unfolding set_loop
set_params n v ps =
    let (kept, found) = set_loop n v false ps in
    if not found then ps ++ (record { name = n; value = v } ∷ []) else kept

unfoldable pub set : Bytes → Bytes → NodeUrl → NodeUrl
unfolding mark_updated set_params
set n v u = mark_updated (record u { params = set_params n v u.params })

-- `strings.Compare(a, b) < 0`
unfoldable pub bytes_lt : Bytes → Bytes → Bool
bytes_lt a [] = false
bytes_lt [] (y ∷ b) = true
bytes_lt (x ∷ a) (y ∷ b) = if ltb x y then true else x == y && bytes_lt a b

-- `Less`
abbrev pub less : SearchParam → SearchParam → Bool
less p q = bytes_lt p.name q.name

-- `sort.Stable`, by insertion: a parameter goes in front of the first that is not less than it.
unfoldable pub insert_sorted : SearchParam → List SearchParam → List SearchParam
insert_sorted p [] = p ∷ []
insert_sorted p (q ∷ qs) = if less q p then q ∷ insert_sorted p qs else p ∷ q ∷ qs

unfoldable pub sort_params : List SearchParam → List SearchParam
unfolding insert_sorted
sort_params [] = []
sort_params (p ∷ ps) = insert_sorted p (sort_params ps)

unfoldable pub sort : NodeUrl → NodeUrl
unfolding mark_updated sort_params
sort u = mark_updated (record u { params = sort_params u.params })
