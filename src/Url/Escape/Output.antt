-- ===== src/Url/Escape/Output.antt =====
-- The bytes that `escape` writes.
use goja_ext.Prelude.{
  ℕ, ◌<◌, Bool, true, false, ◌&&◌, ◌||◌, not, List, [], ◌∷◌, ◌==◌, Bytes, IsByte, All, ◌≡◌, refl,
  arith, inl, inr, Bool-cases, passes_under, passes_under-at, leb,
}
use goja_ext.Url.Escape.{
  needs_escape, hex_high, hex_low, write_escaped, count_escapes, escape, tbl_escape_url_query_param,
}
use goja_ext.Url.Escape.RoundTrip.{count_escapes_mono}

-- An upper-case hexadecimal digit.
abbrev is_upperhex : ℕ → Bool
is_upperhex c = leb b'0' c && leb c b'9' || leb b'A' c && leb c b'F'

-- A byte that the table passes, a plus sign, a percent sign or an upper-case hexadecimal digit.
abbrev pub is_written : List ℕ → ℕ → Bool
is_written table c = not (needs_escape table c) || (c == b'+' || (c == b'%' || is_upperhex c))

abbrev digits_upper : ℕ → Bool
digits_upper c = is_upperhex (hex_high c) && is_upperhex (hex_low c)

digits_table : passes_under digits_upper 256 ≡ true
unfolding passes_under hex_high hex_low
digits_table = refl

digits_written :
    (table : List ℕ) (c : ℕ)
    → c < 256
    → (is_written table (hex_high c) ≡ true) × (is_written table (hex_low c) ≡ true)
digits_written table c h = ground (arith, passes_under-at digits_upper 256 c h digits_table)

write_escaped-is_written :
    (table : List ℕ) (sp : Bool) (s : Bytes)
    → All IsByte s
    → All (λ c. is_written table c ≡ true) (write_escaped table sp s)
unfolding write_escaped
write_escaped-is_written table sp [] h = tt
write_escaped-is_written table sp (c ∷ s) h =
    ground (arith, write_escaped-is_written table sp s h.1, digits_written table c h.0)

plain-is_written :
    (table : List ℕ) (sp : Bool) (s : Bytes)
    → (count_escapes table sp 0 0 s).0 ≡ 0
    → (count_escapes table sp 0 0 s).1 ≡ 0
    → All (λ c. is_written table c ≡ true) s
unfolding count_escapes
plain-is_written table sp [] p q = tt
plain-is_written table sp (c ∷ s) p q = ground (
  arith,
  plain-is_written table sp s,
  count_escapes_mono table sp 1 0 s,
  count_escapes_mono table sp 0 1 s,
)

-- An escaped string holds only bytes that the table passes, plus signs, percent signs and
-- upper-case hexadecimal digits.
pub escape-is_written :
    (s : Bytes) (table : List ℕ) (space_to_plus : Bool)
    → All IsByte s
    → All (λ c. is_written table c ≡ true) (escape s table space_to_plus)
unfolding escape
escape-is_written s table sp h =
    ground (arith, plain-is_written table sp s, write_escaped-is_written table sp s h)

-- None of the bytes that structure a query.
abbrev pub is_structural : ℕ → Bool
is_structural c = c == b'&' || (c == b'=' || (c == b'?' || c == b'#'))

abbrev not_both : ℕ → Bool
not_both c = not (is_written tbl_escape_url_query_param c && is_structural c)

structural_table : passes_under not_both 128 ≡ true
unfolding passes_under
structural_table = refl

pub is_written-is_structural :
    (c : ℕ) → is_written tbl_escape_url_query_param c ≡ true → is_structural c ≡ false
is_written-is_structural c h = elim (Bool-cases (is_structural c)) [
  | inr e ↦ e
  | inl e ↦ ground (arith, λ (lt : c < 128). passes_under-at not_both 128 c lt structural_table)
]
