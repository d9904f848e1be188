-- ===== src/Url/Params/Multimap.antt =====
-- url/urlsearchparams.go: the search parameters as a map from names to the lists of their values.
use goja_ext.Prelude.{List, [], ◌∷◌, ◌++◌, if◌then◌else◌, Bytes, equal, ◌≡◌}
use goja_ext.Url.Params.{NodeUrl, get_values}
use goja_ext.Url.Params.Laws.{
  Update, append_one, delete_all, set_one, sort_all, apply, values_left, get_values-append,
  get_values-set, get_values-delete,
}
use goja_ext.Url.Params.Sort.{sort_stable}

-- What a change does to the values of a name.
abbrev pub values_after : Update → Bytes → List Bytes → List Bytes
values_after (append_one n v) m vs = vs ++ (if equal n m then v ∷ [] else [])
values_after (delete_all n v) m vs = if equal n m then values_left v vs else vs
values_after (set_one n v) m vs = if equal n m then v ∷ [] else vs
values_after sort_all m vs = vs

-- append adds a value behind the others of its name; delete takes away all values of its name, or those
-- equal to its second argument, and none for an undefined one; set leaves exactly the new value; sort
-- keeps the values of every name in order. The values of other names stay.
pub get_values-apply :
    (up : Update) (m : Bytes) (u : NodeUrl)
    → get_values m (apply up u).params ≡ values_after up m (get_values m u.params)
get_values-apply (append_one n v) m u = get_values-append n v m u
get_values-apply (delete_all n v) m u = get_values-delete n v m u
get_values-apply (set_one n v) m u = get_values-set n v m u
get_values-apply sort_all m u = (sort_stable u).1 m
