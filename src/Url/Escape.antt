-- ===== src/Url/Escape.antt =====
-- url/escape.go: the two escape tables, `ishex`, `unhex`, `escape` and `unescapeSearchParam`.
-- A byte is a number below 256, and a string is the list of its bytes.
pub mod RoundTrip
pub mod Output
use Prim.Native.Nat.{bit_and, bit_or}
use goja_ext.Prelude.{
  ℕ, zero, suc, ◌+◌, ◌-◌, ◌*◌, ◌/◌, ◌%◌, ◌^◌, Bool, true, false, ◌&&◌, ◌||◌, List, [], ◌∷◌, ◌==◌,
  ltb, leb, if◌then◌else◌, get_or, Bytes, codes, not,
}

abbrev pub tbl_escape_url_query : List ℕ
tbl_escape_url_query =
    0 ∷ 0 ∷ 0 ∷ 0 ∷ 0 ∷ 0 ∷ 0 ∷ 0 ∷ 0 ∷ 0 ∷ 0 ∷ 0 ∷ 0 ∷ 0 ∷ 0 ∷ 0 ∷ 0 ∷ 0 ∷ 0 ∷ 0 ∷ 0 ∷ 0 ∷ 0 ∷ 0
    ∷ 0 ∷ 0 ∷ 0 ∷ 0 ∷ 0 ∷ 0 ∷ 0 ∷ 0 ∷ 0 ∷ 1 ∷ 0 ∷ 0 ∷ 1 ∷ 1 ∷ 1 ∷ 0 ∷ 1 ∷ 1 ∷ 1 ∷ 1 ∷ 1 ∷ 1 ∷ 1 ∷ 1
    ∷ 1 ∷ 1 ∷ 1 ∷ 1 ∷ 1 ∷ 1 ∷ 1 ∷ 1 ∷ 1 ∷ 1 ∷ 1 ∷ 1 ∷ 0 ∷ 1 ∷ 0 ∷ 1 ∷ 1 ∷ 1 ∷ 1 ∷ 1 ∷ 1 ∷ 1 ∷ 1 ∷ 1
    ∷ 1 ∷ 1 ∷ 1 ∷ 1 ∷ 1 ∷ 1 ∷ 1 ∷ 1 ∷ 1 ∷ 1 ∷ 1 ∷ 1 ∷ 1 ∷ 1 ∷ 1 ∷ 1 ∷ 1 ∷ 1 ∷ 1 ∷ 1 ∷ 1 ∷ 1 ∷ 1 ∷ 1
    ∷ 1 ∷ 1 ∷ 1 ∷ 1 ∷ 1 ∷ 1 ∷ 1 ∷ 1 ∷ 1 ∷ 1 ∷ 1 ∷ 1 ∷ 1 ∷ 1 ∷ 1 ∷ 1 ∷ 1 ∷ 1 ∷ 1 ∷ 1 ∷ 1 ∷ 1 ∷ 1 ∷ 1
    ∷ 1 ∷ 1 ∷ 1 ∷ 1 ∷ 1 ∷ 1 ∷ 1 ∷ 0 ∷ []

abbrev pub tbl_escape_url_query_param : List ℕ
tbl_escape_url_query_param =
    0 ∷ 0 ∷ 0 ∷ 0 ∷ 0 ∷ 0 ∷ 0 ∷ 0 ∷ 0 ∷ 0 ∷ 0 ∷ 0 ∷ 0 ∷ 0 ∷ 0 ∷ 0 ∷ 0 ∷ 0 ∷ 0 ∷ 0 ∷ 0 ∷ 0 ∷ 0 ∷ 0
    ∷ 0 ∷ 0 ∷ 0 ∷ 0 ∷ 0 ∷ 0 ∷ 0 ∷ 0 ∷ 0 ∷ 0 ∷ 0 ∷ 0 ∷ 0 ∷ 0 ∷ 0 ∷ 0 ∷ 0 ∷ 0 ∷ 1 ∷ 1 ∷ 0 ∷ 1 ∷ 1 ∷ 0
    ∷ 1 ∷ 1 ∷ 1 ∷ 1 ∷ 1 ∷ 1 ∷ 1 ∷ 1 ∷ 1 ∷ 1 ∷ 0 ∷ 0 ∷ 0 ∷ 0 ∷ 0 ∷ 0 ∷ 0 ∷ 1 ∷ 1 ∷ 1 ∷ 1 ∷ 1 ∷ 1 ∷ 1
    ∷ 1 ∷ 1 ∷ 1 ∷ 1 ∷ 1 ∷ 1 ∷ 1 ∷ 1 ∷ 1 ∷ 1 ∷ 1 ∷ 1 ∷ 1 ∷ 1 ∷ 1 ∷ 1 ∷ 1 ∷ 1 ∷ 1 ∷ 0 ∷ 0 ∷ 0 ∷ 0 ∷ 1
    ∷ 0 ∷ 1 ∷ 1 ∷ 1 ∷ 1 ∷ 1 ∷ 1 ∷ 1 ∷ 1 ∷ 1 ∷ 1 ∷ 1 ∷ 1 ∷ 1 ∷ 1 ∷ 1 ∷ 1 ∷ 1 ∷ 1 ∷ 1 ∷ 1 ∷ 1 ∷ 1 ∷ 1
    ∷ 1 ∷ 1 ∷ 1 ∷ 0 ∷ 0 ∷ 0 ∷ 0 ∷ 0 ∷ []

abbrev pub upperhex : Bytes
upperhex = codes "0123456789ABCDEF"

unfoldable pub ishex : ℕ → Bool
ishex c =
    if leb b'0' c && leb c b'9'
    then true
    else if leb b'a' c && leb c b'f'
    then true
    else if leb b'A' c && leb c b'F'
    then true
    else false

-- Byte arithmetic: no case leaves the range of a byte.
unfoldable pub unhex : ℕ → ℕ
unhex c =
    if leb b'0' c && leb c b'9'
    then c - b'0'
    else if leb b'a' c && leb c b'f'
    then c - b'a' + 10
    else if leb b'A' c && leb c b'F'
    then c - b'A' + 10
    else 0

-- `c > 127 || table[c] == 0`
abbrev pub needs_escape : List ℕ → ℕ → Bool
needs_escape table c = ltb 127 c || get_or table c 0 == 0

-- The first loop of `escape`: `spaceCount` and `hexCount`.
unfoldable pub count_escapes : List ℕ → Bool → ℕ → ℕ → Bytes → ℕ × ℕ
count_escapes table space_to_plus space_count hex_count [] = (space_count, hex_count)
count_escapes table space_to_plus space_count hex_count (c ∷ s) =
    let escaped = needs_escape table c in
    let space = c == b' ' && space_to_plus in
    count_escapes table space_to_plus (if escaped && space then space_count + 1 else space_count)
      (if escaped && not space then hex_count + 1 else hex_count) s

-- `hexBuf[1]` and `hexBuf[2]`
unfoldable pub hex_high : ℕ → ℕ
hex_high c = get_or upperhex (c / 2 ^ 4) 0

unfoldable pub hex_low : ℕ → ℕ
hex_low c = get_or upperhex (bit_and c 15) 0

-- The second loop of `escape`.
unfoldable pub write_escaped : List ℕ → Bool → Bytes → Bytes
write_escaped table space_to_plus [] = []
write_escaped table space_to_plus (c ∷ s) =
    let rest = write_escaped table space_to_plus s in
    if c == b' ' && space_to_plus
    then b'+' ∷ rest
    else if needs_escape table c
    then b'%' ∷ hex_high c ∷ hex_low c ∷ rest
    else c ∷ rest

unfoldable pub escape : Bytes → List ℕ → Bool → Bytes
unfolding count_escapes write_escaped
escape s table space_to_plus =
    let (space_count, hex_count) = count_escapes table space_to_plus 0 0 s in
    if space_count == 0 && hex_count == 0 then s else write_escaped table space_to_plus s

-- The test at a percent sign whose later bytes are `s`: `i+2 >= len(s) || !ishex .. || !ishex ..`,
-- negated.
unfoldable pub hex_pair : Bytes → Bool
hex_pair (h ∷ l ∷ s) = ishex h && ishex l
hex_pair _ = false

-- `unhex(s[i+1])<<4 | unhex(s[i+2])`, in bytes
unfoldable pub unhex_pair : Bytes → ℕ
unhex_pair (h ∷ l ∷ s) = bit_or (unhex h * 2 ^ 4 % 256) (unhex l)
unhex_pair _ = 0

-- The first loop of `unescapeSearchParam`: `n` and `hasPlus`. `skip` bytes are still to be passed
-- over, since `i += 3` jumps behind the two digits.
unfoldable pub count_escaped : ℕ → ℕ → Bool → Bytes → ℕ × Bool
count_escaped skip n has_plus [] = (n, has_plus)
count_escaped (suc skip) n has_plus (c ∷ s) = count_escaped skip n has_plus s
count_escaped zero n has_plus (c ∷ s) =
    let percent = c == b'%' && hex_pair s in
    count_escaped (if percent then 2 else 0) (if percent then n + 1 else n) (has_plus || c == b'+')
      s

-- The second loop.
unfoldable pub write_unescaped : ℕ → Bytes → Bytes
write_unescaped skip [] = []
write_unescaped (suc skip) (c ∷ s) = write_unescaped skip s
write_unescaped zero (c ∷ s) =
    let percent = c == b'%' && hex_pair s in
    let rest = write_unescaped (if percent then 2 else 0) s in
    if c == b'%'
    then (if hex_pair s then unhex_pair s else b'%') ∷ rest
    else if c == b'+'
    then b' ' ∷ rest
    else c ∷ rest

unfoldable pub unescape_search_param : Bytes → Bytes
unfolding count_escaped write_unescaped
unescape_search_param s =
    let (n, has_plus) = count_escaped 0 0 false s in
    if n == 0 && not has_plus then s else write_unescaped 0 s
