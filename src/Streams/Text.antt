-- ===== src/Streams/Text.antt =====
-- streams/text.go: decoding UTF-8 in chunks. Whether a sequence is valid is told by the package
-- unicode/utf8 of the Go library, which is a parameter.
pub mod Chunked
use goja_ext.Prelude.{
  ℕ, zero, suc, ◌+◌, Bool, true, false, not, ◌&&◌, ◌||◌, List, [], ◌∷◌, ◌++◌, Option, none, some,
  ltb, leb, ◌==◌, if◌then◌else◌, length, take, drop, Bytes,
}

-- The text and the bytes that wait for the next chunk, or an error.
pub data Decoded : Type 0 where
  malformed : Decoded
  decoded : Bytes → Bytes → Decoded

-- utf8.RuneError, as it is written.
abbrev pub rune_error : Bytes
rune_error = 239 ∷ 191 ∷ 189 ∷ []

abbrev pub utf8_sequence_length : ℕ → ℕ
utf8_sequence_length first =
    if ltb first 128
    then 1
    else if leb 194 first && leb first 223
    then 2
    else if leb 224 first && leb first 239
    then 3
    else if leb 240 first && leb first 244
    then 4
    else 0

abbrev pub prefixed : Bytes → Option Decoded → Option Decoded
prefixed text none = none
prefixed text (some malformed) = some malformed
prefixed text (some (decoded more pending)) = some (decoded (text ++ more) pending)

-- A byte that begins no valid sequence.
abbrev pub replaced_byte : Bool → Option Decoded → Option Decoded
replaced_byte fatal rest = if fatal then some malformed else prefixed rune_error rest

-- A sequence that is cut off.
abbrev pub cut_off : Bool → Bool → Bytes → Option Decoded
cut_off final fatal bytes =
    if not final
    then some (decoded [] bytes)
    else if fatal
    then some malformed
    else some (decoded rune_error [])

module _ (valid : Bytes → Bool) (final fatal : Bool) where
  -- The loop over the bytes, with fuel; none if that is used up.
  unfoldable pub decode_loop : ℕ → Bytes → Option Decoded
  decode_loop fuel [] = some (decoded [] [])
  decode_loop zero (b ∷ bytes) = none
  decode_loop (suc fuel) (b ∷ bytes) =
      let n = utf8_sequence_length b in
      let skipped = replaced_byte fatal (decode_loop fuel bytes) in
      let behind = prefixed (take n (b ∷ bytes)) (decode_loop fuel (drop n (b ∷ bytes))) in
      if n == 0
      then skipped
      else if ltb (length (b ∷ bytes)) n
      then cut_off final fatal (b ∷ bytes)
      else if valid (take n (b ∷ bytes))
      then behind
      else skipped

  unfoldable pub decode_utf8_chunk : Bytes → Option Decoded
  unfolding decode_loop
  decode_utf8_chunk bytes = decode_loop (length bytes) bytes

unfoldable pub is_utf8_bom_prefix : Bytes → Bool
is_utf8_bom_prefix [] = false
is_utf8_bom_prefix (a ∷ []) = a == 239
is_utf8_bom_prefix (a ∷ b ∷ []) = (a == 239) && (b == 187)
is_utf8_bom_prefix (a ∷ b ∷ c ∷ bytes) = false

-- The bytes behind the mark, and whether it may still come.
unfoldable pub strip_utf8_bom : Bool → Bytes → Bytes × Bool
unfolding is_utf8_bom_prefix
strip_utf8_bom final (a ∷ b ∷ c ∷ bytes) =
    if (a == 239) && (b == 187) && (c == 191) then (bytes, false) else (a ∷ b ∷ c ∷ bytes, false)
strip_utf8_bom final bytes =
    if not final && is_utf8_bom_prefix bytes then (bytes, true) else (bytes, false)

abbrev after_bom : (Bytes → Bool) → Bool → Bool → Bytes × Bool → Option (Decoded × Bool)
after_bom valid final fatal (bytes, true) = some (decoded [] bytes, true)
after_bom valid final fatal (bytes, false) = elim (decode_utf8_chunk valid final fatal bytes) [
  | none ↦ none
  | some r ↦ some (r, false)
]

-- The result, and its `bomPending`.
unfoldable pub decode_utf8 :
    (Bytes → Bool) → Bool → Bool → Bool → Bytes → Bytes → Option (Decoded × Bool)
unfolding decode_utf8_chunk strip_utf8_bom
decode_utf8 valid final fatal strip_bom pending chunk =
    after_bom valid final fatal
      (if strip_bom then strip_utf8_bom final (pending ++ chunk) else (pending ++ chunk, false))
