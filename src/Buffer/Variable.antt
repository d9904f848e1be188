-- ===== src/Buffer/Variable.antt =====
-- buffer/buffer.go: the methods that read and write numbers of one to six bytes.
pub mod Digits
pub mod Restored
pub mod Values
use mathlib.Core.List.{reverse}
use goja_ext.Prelude.{
  ℕ, zero, suc, ◌+◌, ◌-◌, ◌*◌, ◌/◌, ◌%◌, ◌^◌, Bool, List, [], ◌∷◌, ℤ, pos, negsuc, ltb,
  if◌then◌else◌, Bytes,
}
use goja_ext.Args.{
  Outcome, ok, fail, ◌>>=◌, ◌>>◌, out_of_range, refuse_if, Arg, required_integer_argument,
}
use goja_ext.Buffer.Words.{beyond_signed, beyond_unsigned}
use goja_ext.Buffer.Access.{get_variable_length_arguments, slice, put_at}

-- `for i := …  { value = (value << 8) | uint64(bb[offset+i]) }`, over the bytes in the order of the loop.
unfoldable pub shift_in : ℕ → Bytes → ℕ
shift_in value [] = value
shift_in value (b ∷ bs) = shift_in ((value * 256) % 2 ^ 64 + b) bs

-- `byte(value >> shift)` of an `int64`.
abbrev pub byte_at : ℤ → ℕ → ℕ
byte_at (pos v) shift = (v / 2 ^ shift) % 256
byte_at (negsuc v) shift = 255 - (v / 2 ^ shift) % 256

-- The bytes that the loop of a big-endian writer gives, with `n` bytes to go.
unfoldable pub be_digits : ℕ → ℤ → Bytes
be_digits zero v = []
be_digits (suc n) v = byte_at v (8 * n) ∷ be_digits n v

-- Those of a little-endian writer, from the byte `i` on.
unfoldable pub le_digits : ℕ → ℕ → ℤ → Bytes
le_digits i zero v = []
le_digits i (suc n) v = byte_at v (8 * i) ∷ le_digits (suc i) n v

-- `value >> shift` of the `int64` with these bits.
abbrev pub shift_right : ℕ → ℕ → ℤ
shift_right bits shift =
    if ltb bits (2 ^ 63) then pos (bits / 2 ^ shift) else negsuc ((2 ^ 64 - 1 - bits) / 2 ^ shift)

-- `signExtend`
unfoldable pub sign_extend : ℕ → ℕ → ℤ
sign_extend value n = shift_right ((value * 2 ^ (64 - 8 * n)) % 2 ^ 64) (64 - 8 * n)

-- The bytes that the readers go through.
unfoldable pub read_digits : Arg → Arg → Bytes → Outcome (ℕ × Bytes)
unfolding get_variable_length_arguments slice
read_digits offset_arg length_arg bb = do
  (offset, n) ← get_variable_length_arguments offset_arg length_arg bb
  place ← slice offset n bb
  ok (n, place)

unfoldable pub read_int_be : Arg → Arg → Bytes → Outcome ℤ
unfolding read_digits shift_in sign_extend
read_int_be offset_arg length_arg bb = do
  (n, place) ← read_digits offset_arg length_arg bb
  ok (sign_extend (shift_in 0 place) n)

unfoldable pub read_int_le : Arg → Arg → Bytes → Outcome ℤ
unfolding read_digits shift_in sign_extend
read_int_le offset_arg length_arg bb = do
  (n, place) ← read_digits offset_arg length_arg bb
  ok (sign_extend (shift_in 0 (reverse place)) n)

unfoldable pub read_uint_be : Arg → Arg → Bytes → Outcome ℕ
unfolding read_digits shift_in
read_uint_be offset_arg length_arg bb = do
  (n, place) ← read_digits offset_arg length_arg bb
  ok (shift_in 0 place)

unfoldable pub read_uint_le : Arg → Arg → Bytes → Outcome ℕ
unfolding read_digits shift_in
read_uint_le offset_arg length_arg bb = do
  (n, place) ← read_digits offset_arg length_arg bb
  ok (shift_in 0 (reverse place))

-- The writers: the value, the offset and the count, the range, and the bytes.
unfoldable pub write_digits :
    (ℕ → ℤ → Bool) → (ℕ → ℤ → Bytes) → Arg → Arg → Arg → Bytes → Outcome (Bytes × ℕ)
unfolding get_variable_length_arguments put_at
write_digits beyond digits value offset_arg length_arg bb = do
  v ← required_integer_argument value
  (offset, n) ← get_variable_length_arguments offset_arg length_arg bb
  refuse_if (beyond n v) out_of_range
  put_at offset n (digits n v) bb

-- `ensureWithinIntRange` and `ensureWithinUIntRange`
abbrev pub beyond_int : ℕ → ℤ → Bool
beyond_int n v = beyond_signed (2 ^ (n * 8 - 1)) v

abbrev pub beyond_uint : ℕ → ℤ → Bool
beyond_uint n v = beyond_unsigned (2 ^ (8 * n)) v

unfoldable pub write_int_be : Arg → Arg → Arg → Bytes → Outcome (Bytes × ℕ)
unfolding write_digits be_digits
write_int_be = write_digits beyond_int be_digits

unfoldable pub write_int_le : Arg → Arg → Arg → Bytes → Outcome (Bytes × ℕ)
unfolding write_digits le_digits
write_int_le = write_digits beyond_int (le_digits 0)

unfoldable pub write_uint_be : Arg → Arg → Arg → Bytes → Outcome (Bytes × ℕ)
unfolding write_digits be_digits
write_uint_be = write_digits beyond_uint be_digits

unfoldable pub write_uint_le : Arg → Arg → Arg → Bytes → Outcome (Bytes × ℕ)
unfolding write_digits le_digits
write_uint_le = write_digits beyond_uint (le_digits 0)

-- The four kinds of numbers, and their methods.
pub data Layout : Type 0 where
  int_be int_le uint_be uint_le : Layout

unfoldable pub read_variable : Layout → Arg → Arg → Bytes → Outcome ℤ
unfolding read_int_be read_int_le read_uint_be read_uint_le
read_variable int_be offset_arg length_arg bb = read_int_be offset_arg length_arg bb
read_variable int_le offset_arg length_arg bb = read_int_le offset_arg length_arg bb
read_variable uint_be offset_arg length_arg bb =
    read_uint_be offset_arg length_arg bb >>= λ v. ok (pos v)
read_variable uint_le offset_arg length_arg bb =
    read_uint_le offset_arg length_arg bb >>= λ v. ok (pos v)

unfoldable pub write_variable : Layout → Arg → Arg → Arg → Bytes → Outcome (Bytes × ℕ)
unfolding write_int_be write_int_le write_uint_be write_uint_le
write_variable int_be value offset_arg length_arg bb = write_int_be value offset_arg length_arg bb
write_variable int_le value offset_arg length_arg bb = write_int_le value offset_arg length_arg bb
write_variable uint_be value offset_arg length_arg bb = write_uint_be value offset_arg length_arg bb
write_variable uint_le value offset_arg length_arg bb = write_uint_le value offset_arg length_arg bb
