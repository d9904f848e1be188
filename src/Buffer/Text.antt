-- ===== src/Buffer/Text.antt =====
-- buffer/buffer.go: the methods on texts and whole buffers. The codecs are those of the Go library and of
-- other packages, so they are parameters; so is the conversion of a JavaScript value to a string or number.
pub mod Repeat
pub mod Ranges
use goja_ext.Prelude.{
  ℕ, zero, suc, ◌+◌, ◌-◌, ◌*◌, ◌/◌, ◌%◌, ◌^◌, Bool, true, false, List, [], ◌∷◌, Option, none, some,
  ℤ, pos, negsuc, ltb, leb, ◌==◌, if◌then◌else◌, min, length, take, drop, Bytes, codes, equal,
}
use goja_ext.Args.{
  Outcome, ok, fail, ◌>>=◌, ◌>>◌, invalid_arg_type, out_of_range, unknown_encoding, go_fault,
  refuse_if, Arg, undefined, other, number, big_int, string, required_strict_integer_argument,
  required_string_argument, coerced_integer_argument, optional_integer_argument,
}
use goja_ext.Buffer.Words.{signed}
use goja_ext.Buffer.Access.{get_offset_argument, copy_at}

-- A `StringCodec`: `Encode`, `Decode`, and what `DecodeAppend` decodes, with the length that it asks of
-- `expandSlice` first.
pub record StringCodec : Type 0 where
  pub encode : Bytes → Bytes
  pub decode : Bytes → Bytes
  pub space : Bytes → ℕ
  pub decoded : Bytes → Bytes

pub record Codecs : Type 0 where
  pub hex : StringCodec
  pub utf8 : StringCodec
  pub base64 : StringCodec
  pub base64_url : StringCodec

-- `stringCodecs[name]`
unfoldable pub string_codec_by_name : Codecs → Bytes → Option StringCodec
unfolding equal
string_codec_by_name codecs name =
    if equal name (codes "hex")
    then some codecs.hex
    else if equal name (codes "utf8")
    then some codecs.utf8
    else if equal name (codes "utf-8")
    then some codecs.utf8
    else if equal name (codes "base64")
    then some codecs.base64
    else if equal name (codes "base64Url")
    then some codecs.base64_url
    else none

abbrev known : Option StringCodec → Outcome StringCodec
known none = fail unknown_encoding
known (some codec) = ok codec

unfoldable pub get_string_codec : Codecs → (Arg → Bytes) → Arg → Outcome StringCodec
unfolding string_codec_by_name
get_string_codec codecs shown undefined = ok codecs.utf8
get_string_codec codecs shown other = known (string_codec_by_name codecs (shown other))
get_string_codec codecs shown (number n) = known (string_codec_by_name codecs (shown (number n)))
get_string_codec codecs shown (big_int i) = known (string_codec_by_name codecs (shown (big_int i)))
get_string_codec codecs shown (string s) = known (string_codec_by_name codecs (shown (string s)))

abbrev pub zeros : ℕ → Bytes
zeros zero = []
zeros (suc n) = 0 ∷ zeros n

-- `for i := len(b1); i < len(buf); { i += copy(buf[i:], buf[:i]) }`, with fuel; none if that is used up.
unfoldable pub repeat : ℕ → ℕ → Bytes → Option Bytes
repeat zero i buf = if ltb i (length buf) then none else some buf
repeat (suc fuel) i buf =
    let rest = repeat fuel (i + min (length buf - i) i) (copy_at i (take i buf) buf) in
    if ltb i (length buf) then rest else some buf

-- `fill` of a new buffer: what is decoded goes into the buffer itself, or into a slice of its own if the
-- codec asks for more space than the buffer has.
unfoldable pub fill_with : ℕ → StringCodec → Bytes → Bytes → Option Bytes
unfolding repeat
fill_with fuel codec text buf =
    let b1 = codec.decoded text in
    if ltb (length buf) (length b1)
    then some (take (length buf) b1)
    else repeat fuel (length b1)
        (if ltb (length buf) (codec.space text) then buf else copy_at 0 b1 buf)

-- `byte(v)`
abbrev pub low_byte : ℤ → ℕ
low_byte (pos v) = v % 256
low_byte (negsuc v) = 255 - v % 256

abbrev pub set_all : ℕ → Bytes → Bytes
set_all b [] = []
set_all b (x ∷ buf) = b ∷ set_all b buf

-- A fill that is a number: nothing for one that is not finite, and for 0.
abbrev pub fill_byte : Option ℤ → Bytes → Bytes
fill_byte none buf = buf
fill_byte (some v) buf = if low_byte v == 0 then buf else set_all (low_byte v) buf

-- The size, a number that is not negative.
abbrev pub natural_size : ℤ → Outcome ℕ
natural_size (pos n) = ok n
natural_size (negsuc n) = fail invalid_arg_type

abbrev pub size_argument : Arg → Outcome ℕ
size_argument (number n) = natural_size n.integer
size_argument undefined = fail invalid_arg_type
size_argument other = fail invalid_arg_type
size_argument (big_int i) = fail invalid_arg_type
size_argument (string s) = fail invalid_arg_type

-- The third argument of `alloc` counts only if it is a string.
abbrev pub encoding_argument : Arg → Arg
encoding_argument (string s) = string s
encoding_argument undefined = undefined
encoding_argument other = undefined
encoding_argument (number n) = undefined
encoding_argument (big_int i) = undefined

-- `proto_toString`'s end: a negative one, and one that is not behind the start, give the empty text.
abbrev pub encode_to : (Bytes → Bytes) → ℕ → ℤ → Bytes → Bytes
encode_to encode start (negsuc e) bb = []
encode_to encode start (pos e) bb =
    if leb e start
    then []
    else if ltb (length bb) e
    then encode (take (length bb - start) (drop start bb))
    else encode (take (e - start) (drop start bb))

abbrev pub encode_from : (Bytes → Bytes) → ℤ → ℤ → Bytes → Bytes
encode_from encode (negsuc s) e bb = encode_to encode 0 e bb
encode_from encode (pos s) e bb = if leb (length bb) s then [] else encode_to encode s e bb

-- `if int64(len(raw)) < length { length = int64(len(raw)) }`, and the slice `raw[:length]`.
abbrev pub prefix_to : ℤ → Bytes → Outcome Bytes
prefix_to (negsuc l) raw = fail go_fault
prefix_to (pos l) raw = if ltb (length raw) l then ok raw else ok (take l raw)

-- The loop over the buffers of `concat`: `copy(res[offset:], buf)`, until one does not fit.
unfoldable pub copy_all : ℕ → List Bytes → Bytes → Bytes
copy_all offset [] res = res
copy_all offset (buf ∷ bufs) res =
    let res' = copy_at offset buf res in
    let rest = copy_all (offset + length buf) bufs res' in
    if ltb (length res - offset) (length buf) then res' else rest

unfoldable pub total_length : List Bytes → ℕ
total_length [] = 0
total_length (buf ∷ bufs) = length buf + total_length bufs

-- The elements of the list, each with its bytes if it is a Uint8Array.
unfoldable pub all_bytes : List (Option Bytes) → Outcome (List Bytes)
all_bytes [] = ok []
all_bytes (none ∷ bufs) = fail invalid_arg_type
all_bytes (some buf ∷ bufs) = do rest ← all_bytes bufs; ok (buf ∷ rest)

-- The second argument, if there is one.
abbrev pub refuse_negative : ℤ → Outcome (Option ℕ)
refuse_negative (pos n) = ok (some n)
refuse_negative (negsuc n) = fail out_of_range

abbrev pub total_argument : Option Arg → Outcome (Option ℕ)
total_argument none = ok none
total_argument (some arg) = required_strict_integer_argument arg >>= refuse_negative

-- `int64` sums wrap around.
abbrev pub wrap_int64 : ℕ → ℤ
wrap_int64 n = signed (2 ^ 63) (n % 2 ^ 64)

abbrev pub chosen_length : Option ℕ → List Bytes → ℤ
chosen_length none bufs = wrap_int64 (total_length bufs)
chosen_length (some total) bufs = pos total

-- `make([]byte, n)`, where the Go runtime makes slices of `max` bytes at most, and faults beyond.
abbrev pub make_bytes : ℕ → ℤ → Outcome Bytes
make_bytes max (negsuc n) = fail go_fault
make_bytes max (pos n) = if ltb max n then fail go_fault else ok (zeros n)

module _ (max : ℕ) where
  unfoldable pub concat : List (Option Bytes) → Option Arg → Outcome Bytes
  unfolding all_bytes copy_all total_length
  concat [] total = ok []
  concat (buf ∷ bufs) total = do
    given ← total_argument total
    byte_bufs ← all_bytes (buf ∷ bufs)
    res ← make_bytes max (chosen_length given byte_bufs)
    ok (copy_all 0 byte_bufs res)

module _ (max : ℕ) (codecs : Codecs) (shown : Arg → Bytes) (to_number : Arg → Option ℤ) where
  -- The new buffer; none if the loop of `fill` needs more than the fuel.
  unfoldable pub alloc : ℕ → Arg → Arg → Arg → Outcome (Option Bytes)
  unfolding get_string_codec fill_with
  alloc fuel size_arg undefined enc = do
    size ← size_argument size_arg
    buf ← make_bytes max (pos size)
    ok (some buf)
  alloc fuel size_arg (string text) enc = do
    size ← size_argument size_arg
    buf ← make_bytes max (pos size)
    codec ← get_string_codec codecs shown (encoding_argument enc)
    ok (fill_with fuel codec text buf)
  alloc fuel size_arg fill_arg enc = do
    size ← size_argument size_arg
    buf ← make_bytes max (pos size)
    ok (some (fill_byte (to_number fill_arg) buf))

module _ (codecs : Codecs) (shown : Arg → Bytes) (to_number : Arg → Option ℤ) where
  unfoldable pub to_string : Arg → Arg → Arg → Bytes → Outcome Bytes
  unfolding get_string_codec
  to_string enc start_arg end_arg bb = do
    codec ← get_string_codec codecs shown enc
    ok (
        encode_from codec.encode (coerced_integer_argument start_arg (pos 0) (pos 0))
          (coerced_integer_argument end_arg (pos (length bb)) (pos 0)) bb)

  -- The new bytes, and how many were written.
  unfoldable pub write_string : Arg → Arg → Arg → Arg → Bytes → Outcome (Bytes × ℕ)
  unfolding get_string_codec get_offset_argument
  write_string text_arg offset_arg length_arg enc bb = do
    text ← required_string_argument text_arg
    offset ← get_offset_argument offset_arg bb 0
    l ← optional_integer_argument length_arg (pos (length bb - offset))
    codec ← get_string_codec codecs shown enc
    src ← prefix_to l (codec.decode text)
    ok (copy_at offset src bb, min (length bb - offset) (length src))
