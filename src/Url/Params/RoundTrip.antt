-- ===== src/Url/Params/RoundTrip.antt =====
-- `parseSearchQuery` reads back what `Encode` writes.
use goja_ext.Prelude.{
  ℕ, true, false, List, [], ◌∷◌, ◌++◌, ◌==◌, append_assoc, append-nil, map, if◌then◌else◌, Bytes,
  IsByte, All, All-append, Avoids, split, split-Avoids, split-append, split_first,
  split_first-append, ◌≡◌, refl, sym, ap, ◌∙◌, arith, ◌↔◌,
}
use goja_ext.Url.Escape.{tbl_escape_url_query_param, unescape_search_param}
use goja_ext.Url.Escape.Output.{
  is_written, escape-is_written, is_structural, is_written-is_structural,
}
use goja_ext.Url.Escape.RoundTrip.{read_back, unescape_search_param-escape}
use goja_ext.Url.Params.{
  SearchParam, escape_search_param, param_string, params_string, encode, trim_question, is_empty,
  parse_pair, parse_pieces, parse_search_query,
}

-- Names and values are byte strings.
pub record IsParam (p : SearchParam) : Type 0 where
  pub name : All IsByte p.name
  pub value : All IsByte p.value

structural_free :
    (s : Bytes)
    → All (λ c. is_written tbl_escape_url_query_param c ≡ true) s
    → All (λ c. is_structural c ≡ false) s
structural_free [] h = tt
structural_free (c ∷ s) h = (is_written-is_structural c h.0, structural_free s h.1)

escaped_free :
    (s : Bytes) → All IsByte s → All (λ c. is_structural c ≡ false) (escape_search_param s)
escaped_free s h =
    structural_free (escape_search_param s) (escape-is_written s tbl_escape_url_query_param true h)

free_amp : (s : Bytes) → All (λ c. is_structural c ≡ false) s → Avoids b'&' s
free_amp [] h = tt
free_amp (c ∷ s) h = (ground arith, free_amp s h.1)

free_eq : (s : Bytes) → All (λ c. is_structural c ≡ false) s → Avoids b'=' s
free_eq [] h = tt
free_eq (c ∷ s) h = (ground arith, free_eq s h.1)

-- The parameter table passes plus signs, so they are read back as spaces.
abbrev pub blank_plus : ℕ → ℕ
blank_plus c = if c == b'+' then b' ' else c

abbrev pub blank_pluses : SearchParam → SearchParam
blank_pluses p = record { name = map blank_plus p.name; value = map blank_plus p.value }

read_back-blank_plus : (s : Bytes) → map (read_back tbl_escape_url_query_param) s ≡ map blank_plus s
read_back-blank_plus [] = refl
read_back-blank_plus (c ∷ s) = ground (arith, read_back-blank_plus s)

unescape-escape :
    (s : Bytes) → All IsByte s → unescape_search_param (escape_search_param s) ≡ map blank_plus s
unescape-escape s h =
    unescape_search_param-escape s tbl_escape_url_query_param true refl h ∙ read_back-blank_plus s

param_string_amp : (p : SearchParam) → IsParam p → Avoids b'&' (param_string true p)
unfolding param_string
param_string_amp p h =
    All-append _ (escape_search_param p.name) _ (free_amp _ (escaped_free p.name h.name))
      (refl, free_amp _ (escaped_free p.value h.value))

is_empty-append : (s : Bytes) (c : ℕ) (t : Bytes) → is_empty (s ++ (c ∷ t)) ≡ false
is_empty-append [] c t = refl
is_empty-append (x ∷ s) c t = refl

parse_pair-param_string :
    (p : SearchParam)
    → IsParam p
    → parse_pair (split_first b'=' (param_string true p)) ≡ blank_pluses p
unfolding param_string
parse_pair-param_string p h =
    rw
      (split_first-append b'=' (escape_search_param p.name) (escape_search_param p.value)
        (free_eq _ (escaped_free p.name h.name)))
      (unfold parse_pair in rw (unescape-escape p.name h.name, unescape-escape p.value h.value))

is_empty-param_string : (p : SearchParam) → is_empty (param_string true p) ≡ false
unfolding param_string
is_empty-param_string p =
    is_empty-append (escape_search_param p.name) b'=' (escape_search_param p.value)

parse_pieces-cons :
    (p : SearchParam) (vs : List Bytes)
    → IsParam p
    → parse_pieces (param_string true p ∷ vs) ≡ blank_pluses p ∷ parse_pieces vs
unfolding parse_pieces
parse_pieces-cons p vs h = rw (is_empty-param_string p, parse_pair-param_string p h)

-- The pieces of the text are the parameters' own texts.
parse_pieces-params_string :
    (p : SearchParam) (ps : List SearchParam)
    → All IsParam (p ∷ ps)
    → parse_pieces (split b'&' (params_string true false (p ∷ ps))) ≡ map blank_pluses (p ∷ ps)
unfolding params_string
parse_pieces-params_string p [] h =
    rw (append-nil, split-Avoids b'&' (param_string true p) (param_string_amp p h.0))
      (parse_pieces-cons p [] h.0 ∙ (unfold parse_pieces in refl))
parse_pieces-params_string p (q ∷ ps) h =
    rw
      (split-append b'&' (param_string true p) (params_string true false (q ∷ ps))
        (param_string_amp p h.0))
      (parse_pieces-cons p _ h.0 ∙ ap (◌∷◌ (blank_pluses p)) (parse_pieces-params_string q ps h.1))

trim_question-free :
    (s t : Bytes)
    → All (λ c. is_structural c ≡ false) s
    → trim_question (s ++ (b'=' ∷ t)) ≡ s ++ (b'=' ∷ t)
unfolding trim_question
trim_question-free [] t h = refl
trim_question-free (c ∷ s) t h = ground arith

encode_shape :
    (p : SearchParam) (ps : List SearchParam)
    → (t : Bytes) × (encode (p ∷ ps) ≡ escape_search_param p.name ++ (b'=' ∷ t))
unfolding encode params_string param_string
encode_shape p ps = (
  escape_search_param p.value ++ params_string true true ps,
  append_assoc (escape_search_param p.name) (b'=' ∷ escape_search_param p.value)
      (params_string true true ps),
)

parse_search_query_pieces :
    (query : Bytes)
    → is_empty query ≡ false
    → trim_question query ≡ query
    → parse_search_query query ≡ parse_pieces (split b'&' query)
unfolding parse_search_query
parse_search_query_pieces query e t = rw (e, t)

trim_question-encode :
    (p : SearchParam) (ps : List SearchParam)
    → IsParam p
    → trim_question (encode (p ∷ ps)) ≡ encode (p ∷ ps)
trim_question-encode p ps h =
    let (t, e) = encode_shape p ps in
    rw e (trim_question-free (escape_search_param p.name) t (escaped_free p.name h.name))

is_empty-encode : (p : SearchParam) (ps : List SearchParam) → is_empty (encode (p ∷ ps)) ≡ false
is_empty-encode p ps =
    let (t, e) = encode_shape p ps in rw e (is_empty-append (escape_search_param p.name) b'=' t)

-- Parsing the text that `Encode` writes gives the parameters back, in order, with every plus sign
-- in a name or a value turned into a space.
pub parse_search_query-encode :
    (ps : List SearchParam) → All IsParam ps → parse_search_query (encode ps) ≡ map blank_pluses ps
unfolding parse_search_query encode params_string
parse_search_query-encode [] h = refl
parse_search_query-encode (p ∷ ps) h =
    parse_search_query_pieces (encode (p ∷ ps)) (is_empty-encode p ps)
      (trim_question-encode p ps h.0)
    ∙ parse_pieces-params_string p ps h

abbrev pub NoPlus : SearchParam → Type 0
NoPlus p = Avoids b'+' p.name × Avoids b'+' p.value

blank_plus-Avoids : (s : Bytes) → Avoids b'+' s → map blank_plus s ≡ s
blank_plus-Avoids [] h = refl
blank_plus-Avoids (c ∷ s) h = ground (arith, blank_plus-Avoids s h.1)

Avoids-blank_plus : (s : Bytes) → map blank_plus s ≡ s → Avoids b'+' s
Avoids-blank_plus [] h = tt
Avoids-blank_plus (c ∷ s) h = ground (arith, Avoids-blank_plus s)

blank_pluses-NoPlus : (ps : List SearchParam) → All NoPlus ps → map blank_pluses ps ≡ ps
blank_pluses-NoPlus [] h = refl
blank_pluses-NoPlus (p ∷ ps) h = ground (
  arith,
  blank_pluses-NoPlus ps h.1,
  blank_plus-Avoids p.name h.0.0,
  blank_plus-Avoids p.value h.0.1,
)

NoPlus-blank_pluses : (ps : List SearchParam) → map blank_pluses ps ≡ ps → All NoPlus ps
NoPlus-blank_pluses [] h = tt
NoPlus-blank_pluses (p ∷ ps) h =
    let e : blank_pluses p ≡ p = cc in
    (
      (
        Avoids-blank_plus p.name (ap (λ q. q.name) e),
        Avoids-blank_plus p.value (ap (λ q. q.value) e),
      ),
      NoPlus-blank_pluses ps (cc),
    )

-- The parameters survive a trip through their text exactly when no name and no value holds a plus
-- sign.
pub parse_search_query-encode_iff :
    (ps : List SearchParam) → All IsParam ps → (parse_search_query (encode ps) ≡ ps) ↔ All NoPlus ps
parse_search_query-encode_iff ps h = (
  (λ e. NoPlus-blank_pluses ps (sym (parse_search_query-encode ps h) ∙ e)),
  (λ k. parse_search_query-encode ps h ∙ blank_pluses-NoPlus ps k),
)
