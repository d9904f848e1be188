-- ===== src/Url/Escape/RoundTrip.antt =====
-- `unescapeSearchParam` undoes `escape`, and both fast paths agree with the loops they skip.
use Prim.Native.Nat.{bit_or}
use goja_ext.Prelude.{
  ℕ, zero, suc, ◌+◌, ◌*◌, ◌%◌, ◌^◌, ◌<◌, ◌≤◌, Bool, true, false, ◌&&◌, ◌||◌, not, List, [], ◌∷◌,
  ◌==◌, if◌then◌else◌, get_or, map, not, Bytes, IsByte, All, ◌≡◌, refl, arith, passes_under,
  passes_under-at, ◌⊎◌, ◌≢◌,
}
use goja_ext.Url.Escape.{
  needs_escape, hex_high, hex_low, ishex, unhex, hex_pair, unhex_pair, write_escaped,
  write_unescaped, count_escapes, count_escaped, escape, unescape_search_param,
}

-- What `unescapeSearchParam` makes of a byte that went through `escape`: a plus sign that the table
-- passes is written as it stands, and read as a space.
abbrev pub read_back : List ℕ → ℕ → ℕ
read_back table c = if c == b'+' && not (get_or table b'+' 0 == 0) then b' ' else c

-- Each byte is written as two digits that stand for it.
digits_ok : ℕ → Bool
digits_ok c =
    ishex (hex_high c)
    && ishex (hex_low c)
    && bit_or (unhex (hex_high c) * 2 ^ 4 % 256) (unhex (hex_low c)) == c

digits_table : passes_under digits_ok 256 ≡ true
unfolding passes_under digits_ok ishex unhex hex_high hex_low
digits_table = refl

digits_ok_lem : (c : ℕ) → c < 256 → digits_ok c ≡ true
digits_ok_lem c h = passes_under-at digits_ok 256 c h digits_table

unhex_pair-digits :
    (c : ℕ) (s : Bytes)
    → c < 256
    → (hex_pair (hex_high c ∷ hex_low c ∷ s) ≡ true) × (unhex_pair (hex_high c ∷ hex_low c ∷ s) ≡ c)
unfolding hex_pair unhex_pair digits_ok
unhex_pair-digits c s h = ground (arith, digits_ok_lem c h)

write_unescaped_plus : (s : Bytes) → write_unescaped 0 (b'+' ∷ s) ≡ b' ' ∷ write_unescaped 0 s
unfolding write_unescaped
write_unescaped_plus s = refl

write_unescaped_pair :
    (h l : ℕ) (s : Bytes)
    → hex_pair (h ∷ l ∷ s) ≡ true
    → write_unescaped 0 (b'%' ∷ h ∷ l ∷ s) ≡ unhex_pair (h ∷ l ∷ s) ∷ write_unescaped 0 s
unfolding write_unescaped
write_unescaped_pair h l s e = rw (e, write_unescaped)

write_unescaped_other :
    (c : ℕ) (s : Bytes) → c ≢ b'%' → c ≢ b'+' → write_unescaped 0 (c ∷ s) ≡ c ∷ write_unescaped 0 s
unfolding write_unescaped
write_unescaped_other c s p q = ground arith

-- The loops alone.
write_unescaped-write_escaped :
    (table : List ℕ) (space_to_plus : Bool) (s : Bytes)
    → get_or table b'%' 0 ≡ 0
    → All IsByte s
    → write_unescaped 0 (write_escaped table space_to_plus s) ≡ map (read_back table) s
unfolding write_escaped
write_unescaped-write_escaped table sp [] t h = unfold write_unescaped in refl
write_unescaped-write_escaped table sp (c ∷ s) t h =
    let rest = write_escaped table sp s in
    ground (
      arith,
      write_unescaped-write_escaped table sp s t h.1,
      unhex_pair-digits c rest h.0,
      write_unescaped_pair (hex_high c) (hex_low c) rest,
      write_unescaped_plus rest,
      write_unescaped_other c rest,
    )

count_escaped_mono :
    (skip n : ℕ) (plus : Bool) (s : Bytes)
    → (n ≤ (count_escaped skip n plus s).0)
      × ((plus ≡ false) ⊎ ((count_escaped skip n plus s).1 ≡ true))
unfolding count_escaped
count_escaped_mono skip n plus [] = ground arith
count_escaped_mono (suc skip) n plus (c ∷ s) = count_escaped_mono skip n plus s
count_escaped_mono zero n plus (c ∷ s) =
    let percent = c == b'%' && hex_pair s in
    ground (
      arith,
      count_escaped_mono (if percent then 2 else 0) (if percent then n + 1 else n)
          (plus || c == b'+') s,
    )

write_unescaped_plain :
    (s : Bytes)
    → (count_escaped 0 0 false s).0 ≡ 0
    → (count_escaped 0 0 false s).1 ≡ false
    → write_unescaped 0 s ≡ s
unfolding count_escaped write_unescaped
write_unescaped_plain [] h k = refl
write_unescaped_plain (c ∷ s) h k = ground (
  arith,
  write_unescaped_plain s,
  count_escaped_mono 2 1 (c == b'+') s,
  count_escaped_mono 0 0 true s,
)

-- `unescapeSearchParam` is its second loop: the test that skips it changes nothing.
pub unescape_search_param-loop : (s : Bytes) → unescape_search_param s ≡ write_unescaped 0 s
unfolding unescape_search_param
unescape_search_param-loop s = ground (arith, write_unescaped_plain s)

pub count_escapes_mono :
    (table : List ℕ) (sp : Bool) (a b : ℕ) (s : Bytes)
    → (a ≤ (count_escapes table sp a b s).0) × (b ≤ (count_escapes table sp a b s).1)
unfolding count_escapes
count_escapes_mono table sp a b [] = ground arith
count_escapes_mono table sp a b (c ∷ s) =
    let escaped = needs_escape table c in
    let space = c == b' ' && sp in
    ground (
      arith,
      count_escapes_mono table sp (if escaped && space then a + 1 else a)
          (if escaped && not space then b + 1 else b) s,
    )

-- Where `escape` returns its argument, there is nothing for `unescapeSearchParam` to read.
count_escapes_plain :
    (table : List ℕ) (sp : Bool) (s : Bytes)
    → get_or table b'%' 0 ≡ 0
    → (count_escapes table sp 0 0 s).0 ≡ 0
    → (count_escapes table sp 0 0 s).1 ≡ 0
    → write_unescaped 0 s ≡ map (read_back table) s
unfolding count_escapes
count_escapes_plain table sp [] t p q = unfold write_unescaped in refl
count_escapes_plain table sp (c ∷ s) t p q = ground (
  arith,
  count_escapes_plain table sp s t,
  count_escapes_mono table sp 1 0 s,
  count_escapes_mono table sp 0 1 s,
  write_unescaped_other c s,
  write_unescaped_plus s,
)

-- Reading back an escaped byte string gives the string, for every table that escapes the percent
-- sign and with spaces written as plus signs or not, but for one byte: a plus sign comes back as a
-- space if the table passes plus signs.
pub unescape_search_param-escape :
    (s : Bytes) (table : List ℕ) (space_to_plus : Bool)
    → get_or table b'%' 0 ≡ 0
    → All IsByte s
    → unescape_search_param (escape s table space_to_plus) ≡ map (read_back table) s
unfolding escape
unescape_search_param-escape s table sp t h = ground (
  arith,
  unescape_search_param-loop (escape s table sp),
  count_escapes_plain table sp s t,
  write_unescaped-write_escaped table sp s t h,
)
