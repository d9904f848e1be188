-- ===== src/Tests/Url.antt =====
-- url/: runs and instances.
use goja_ext.Prelude.{
  true, false, List, [], ◌∷◌, some, ◌≡◌, refl, ◌↔◌, map, All, Bytes, codes, arith, split,
  split_first,
}
use goja_ext.Url.Escape.{
  tbl_escape_url_query, tbl_escape_url_query_param, escape, unescape_search_param, hex_high,
  hex_low, ishex, unhex, hex_pair, unhex_pair,
}
use goja_ext.Url.Escape.RoundTrip.{read_back, unescape_search_param-escape}
use goja_ext.Url.Params.{
  SearchParam, NodeUrl, undefined, given, encode, parse_search_query, param_string, params_string,
  get_values, delete, has,
}
use goja_ext.Url.Params.RoundTrip.{
  IsParam, NoPlus, blank_pluses, parse_search_query-encode, parse_search_query-encode_iff,
}
use goja_ext.Url.Params.Multimap.{values_after, get_values-apply}
use goja_ext.Url.Params.Laws.{apply, delete_all, has-delete_undefined}

abbrev param : Bytes → Bytes → SearchParam
param n v = record { name = n; value = v }

abbrev two : List SearchParam
two = param (codes "a b") (codes "1&2") ∷ param (codes "c") (codes "x+y") ∷ []

abbrev page : NodeUrl
page = record {
  raw_query = some (codes "z=1&a=2&z=3");
  params =
      param (codes "z") (codes "1")
      ∷ param (codes "a") (codes "2")
      ∷ param (codes "z") (codes "3")
      ∷ [];
}

encode-two : encode two ≡ codes "a+b=1%262&c=x+y"
unfolding encode params_string param_string escape hex_high hex_low
encode-two = refl

parse_two :
    parse_search_query (codes "?a+b=1%262&&c")
    ≡ param (codes "a b") (codes "1&2") ∷ param (codes "c") [] ∷ []
unfolding parse_search_query split split_first unescape_search_param hex_pair unhex_pair ishex unhex
parse_two = refl

escape-query : escape (codes "q=<é>") tbl_escape_url_query false ≡ codes "q=%3C%E9%3E"
unfolding escape hex_high hex_low
escape-query = refl

two-IsParam : All IsParam two
two-IsParam = (
  record { name = omega arith; value = omega arith },
  (record { name = omega arith; value = omega arith }, tt),
)

unescape_search_param-escape_example :
    unescape_search_param (escape (codes "1+1 %") tbl_escape_url_query_param true)
    ≡ map (read_back tbl_escape_url_query_param) (codes "1+1 %")
unescape_search_param-escape_example =
    unescape_search_param-escape (codes "1+1 %") tbl_escape_url_query_param true refl (omega arith)

parse_search_query-encode_example : parse_search_query (encode two) ≡ map blank_pluses two
parse_search_query-encode_example = parse_search_query-encode two two-IsParam

parse_search_query-encode_iff_example : (parse_search_query (encode two) ≡ two) ↔ All NoPlus two
parse_search_query-encode_iff_example = parse_search_query-encode_iff two two-IsParam

get_values-apply_example :
    get_values (codes "z") (apply (delete_all (codes "z") (given (codes "3"))) page).params
    ≡ values_after
        (delete_all (codes "z") (given (codes "3")))
        (codes "z")
        (get_values (codes "z") page.params)
get_values-apply_example =
    get_values-apply (delete_all (codes "z") (given (codes "3"))) (codes "z") page

has-delete_undefined_example :
    has (codes "z") undefined (delete (codes "z") undefined page) ≡ has (codes "z") undefined page
has-delete_undefined_example = has-delete_undefined (codes "z") page
