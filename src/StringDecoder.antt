-- ===== src/StringDecoder.antt =====
-- string_decoder/module.go. What a call returns is a list of code units: runes for utf8, UTF-16
-- units for ucs2, bytes or runes below 256 otherwise. A missing argument is none.
pub mod Chunks
use goja_ext.Prelude.{
  ℕ, zero, suc, ◌+◌, ◌-◌, ◌*◌, ◌%◌, Bool, true, false, not, ◌||◌, ◌&&◌, List, [], ◌∷◌, ◌++◌, Option,
  none, some, map, if◌then◌else◌, length, take, drop, get_or, ltb, leb, ◌==◌, Bytes,
}

pub data Encoding : Type 0 where
  utf8 ascii latin1 base64 hex ucs2 : Encoding

pub record Decoder : Type 0 where
  pub encoding : Encoding
  pub pending : Bytes

abbrev pub is_stateful : Encoding → Bool
is_stateful utf8 = true
is_stateful ucs2 = true
is_stateful base64 = true
is_stateful ascii = false
is_stateful latin1 = false
is_stateful hex = false

-- `uint16(lo) | uint16(hi)<<8` of two bytes.
abbrev pub unit16 : ℕ → ℕ → ℕ
unit16 lo hi = lo + hi * 256

-- The loop over `units`.
unfoldable pub units : Bytes → List ℕ
units [] = []
units (lo ∷ []) = []
units (lo ∷ hi ∷ s) = unit16 lo hi ∷ units s

abbrev pub is_high_surrogate : ℕ → Bool
is_high_surrogate u = leb 55296 u && leb u 56319

-- How many bytes `decodePendingUTF16LE` takes.
unfoldable pub usable_utf16 : Bool → Bytes → ℕ
usable_utf16 flush pending =
    let n = length pending - length pending % 2 in
    if not flush
      && (leb 2 n
          && is_high_surrogate (unit16 (get_or pending (n - 2) 0) (get_or pending (n - 1) 0)))
    then n - 2
    else n

unfoldable pub decode_pending_utf16 : Bool → Bytes → List ℕ × Bytes
unfolding units usable_utf16
decode_pending_utf16 flush pending =
    let n = usable_utf16 flush pending in
    (units (take n pending), if flush then [] else drop n pending)

unfoldable pub usable_base64 : Bool → Bytes → ℕ
usable_base64 flush pending = if flush then length pending else length pending - length pending % 3

-- What the code calls of Go's libraries.
pub record Library : Type 0 where
  -- `utf8.FullRune`
  pub full_rune : Bytes → Bool
  -- `utf8.DecodeRune`
  pub decode_rune : Bytes → ℕ × ℕ
  -- `base64.StdEncoding.EncodeToString`
  pub encode_base64 : Bytes → Bytes
  -- `hex.EncodeToString`
  pub encode_hex : Bytes → Bytes

module _ (lib : Library) where
  unfoldable pub decode_pending_base64 : Bool → Bytes → List ℕ × Bytes
  unfolding usable_base64
  decode_pending_base64 flush pending =
      let n = usable_base64 flush pending in
      (lib.encode_base64 (take n pending), if flush then [] else drop n pending)

  -- The loop of `decodePendingUTF8`, with as much fuel as there are bytes: every round takes at least one.
  -- Its two branches behind `DecodeRune` both write the rune and drop its size.
  unfoldable pub decode_utf8_from : ℕ → Bool → Bytes → List ℕ × Bytes
  decode_utf8_from fuel flush [] = ([], [])
  decode_utf8_from zero flush (c ∷ s) = ([], c ∷ s)
  decode_utf8_from (suc fuel) flush (c ∷ s) =
      let (r, size) = lib.decode_rune (c ∷ s) in
      let (out, rest) = decode_utf8_from fuel flush (drop size (c ∷ s)) in
      if not (lib.full_rune (c ∷ s))
      then (if flush then (65533 ∷ [], []) else ([], c ∷ s))
      else (r ∷ out, rest)

  unfoldable pub decode_pending : Encoding → Bool → Bytes → Option (List ℕ × Bytes)
  unfolding decode_pending_utf16 decode_pending_base64 decode_utf8_from
  decode_pending utf8 flush pending = some (decode_utf8_from (length pending) flush pending)
  decode_pending ucs2 flush pending = some (decode_pending_utf16 flush pending)
  decode_pending base64 flush pending = some (decode_pending_base64 flush pending)
  decode_pending ascii flush pending = none
  decode_pending latin1 flush pending = none
  decode_pending hex flush pending = none

  unfoldable pub encode : Encoding → Bytes → Option (List ℕ)
  encode ascii data' = some (map (λ c. c % 128) data')
  encode latin1 data' = some data'
  encode hex data' = some (lib.encode_hex data')
  encode utf8 data' = none
  encode base64 data' = none
  encode ucs2 data' = none

  -- The decoder and the text of a decoded stretch; a flush leaves nothing pending.
  abbrev pub decoded : Encoding → Option (List ℕ × Bytes) → Option (List ℕ × Decoder)
  decoded e none = none
  decoded e (some (out, rest)) = some (out, record { encoding = e; pending = rest })

  abbrev pub flushed : Encoding → Option (List ℕ × Bytes) → Option (List ℕ × Decoder)
  flushed e none = none
  flushed e (some (out, rest)) = some (out, record { encoding = e; pending = [] })

  abbrev pub encoded : Decoder → Option (List ℕ) → Option (List ℕ × Decoder)
  encoded d none = none
  encoded d (some out) = some (out, d)

  -- `write`; none where the code panics.
  unfoldable pub write : Bytes → Decoder → Option (List ℕ × Decoder)
  unfolding decode_pending encode
  write data' d =
      if is_stateful d.encoding
      then decoded d.encoding (decode_pending d.encoding false (d.pending ++ data'))
      else encoded d (encode d.encoding data')

  -- `text`
  unfoldable pub text : Bytes → Decoder → Option (List ℕ × Decoder)
  unfolding decode_pending encode
  text data' d =
      if is_stateful d.encoding
      then flushed d.encoding (decode_pending d.encoding true (d.pending ++ data'))
      else encoded d (encode d.encoding data')

  -- `end`
  unfoldable pub end : Option Bytes → Decoder → Option (List ℕ × Decoder)
  unfolding decode_pending encode
  end none d =
      if is_stateful d.encoding
      then flushed d.encoding (decode_pending d.encoding true d.pending)
      else some ([], d)
  end (some data') d =
      if is_stateful d.encoding
      then flushed d.encoding (decode_pending d.encoding true (d.pending ++ data'))
      else encoded d (encode d.encoding data')

  abbrev pub given_bytes : Option Bytes → Bytes
  given_bytes none = []
  given_bytes (some data') = data'

  -- `fillLast`
  unfoldable pub fill_last : Option Bytes → Decoder → Option (List ℕ × Decoder)
  unfolding decode_pending encode
  fill_last arg d =
      let pending' = d.pending ++ given_bytes arg in
      if is_stateful d.encoding
      then flushed d.encoding (decode_pending d.encoding true pending')
      else encoded (record d { pending = [] }) (encode d.encoding pending')

  abbrev pub behind_text : List ℕ → Option (List ℕ) → Option (List ℕ)
  behind_text out none = none
  behind_text out (some out') = some (out ++ out')

  -- A `write` of each chunk, then `end`: the text of all the calls.
  unfoldable pub chunked : List Bytes → Decoder → Option (List ℕ)
  unfolding write end
  chunked [] d = elim (end none d) [ none ↦ none | some r ↦ some r.0 ]
  chunked (c ∷ chunks) d = elim (write c d) [
    | none ↦ none
    | some r ↦ behind_text r.0 (chunked chunks r.1)
  ]
