-- ===== src/Buffer/Fixed.antt =====
-- buffer/buffer.go: the methods that read and write numbers of a fixed width. What a method reads and
-- writes of a double or a float is its bits.
pub mod RoundTrip
use goja_ext.Prelude.{
  ℕ, ◌+◌, ◌-◌, ◌*◌, ◌%◌, ◌^◌, Bool, true, false, List, ℤ, pos, negsuc, if◌then◌else◌, length, Bytes,
}
use goja_ext.Args.{
  Outcome, ok, fail, ◌>>=◌, ◌>>◌, out_of_range, refuse_if, Arg, Number, required_integer_argument,
  required_big_int_argument, required_float_argument,
}
use goja_ext.Buffer.Words.{
  le_value, le_bytes, be_value, be_bytes, signed, unsigned, beyond_signed, beyond_unsigned,
}
use goja_ext.Buffer.Access.{get_offset_argument, slice, put_at}

-- The shape of the readers: the offset, the slice of `n` bytes, and what they stand for.
unfoldable pub read_with {ℓ} : {A : Type ℓ} → ℕ → (Bytes → A) → Arg → Bytes → Outcome A
unfolding get_offset_argument slice
read_with n decode arg bb = do
  offset ← get_offset_argument arg bb n
  place ← slice offset n bb
  ok (decode place)

-- The shape of the writers: the value, the offset, the range, and the bytes; the new bytes of the buffer
-- and the offset behind them.
unfoldable pub write_with {ℓ} :
    {V : Type ℓ} → Outcome V → ℕ → (V → Bool) → (V → Bytes) → Arg → Bytes → Outcome (Bytes × ℕ)
unfolding get_offset_argument put_at
write_with value n refuse encode arg bb = do
  v ← value
  offset ← get_offset_argument arg bb n
  refuse_if (refuse v) out_of_range
  put_at offset n (encode v) bb

-- `value.Uint64()` of a big integer: the low bits of its magnitude.
abbrev pub magnitude64 : ℤ → ℕ
magnitude64 (pos v) = v % 2 ^ 64
magnitude64 (negsuc v) = (v + 1) % 2 ^ 64

abbrev pub unchecked {ℓ} : {V : Type ℓ} → V → Bool
unchecked v = false

unfoldable pub read_big_int64_be : Arg → Bytes → Outcome ℤ
unfolding read_with
read_big_int64_be = read_with 8 (λ place. signed (2 ^ 63) (be_value place))

unfoldable pub read_big_int64_le : Arg → Bytes → Outcome ℤ
unfolding read_with
read_big_int64_le = read_with 8 (λ place. signed (2 ^ 63) (le_value place))

unfoldable pub read_big_uint64_be : Arg → Bytes → Outcome ℕ
unfolding read_with
read_big_uint64_be = read_with 8 (λ place. be_value place)

unfoldable pub read_big_uint64_le : Arg → Bytes → Outcome ℕ
unfolding read_with
read_big_uint64_le = read_with 8 (λ place. le_value place)

unfoldable pub read_double_be : Arg → Bytes → Outcome ℕ
unfolding read_with
read_double_be = read_with 8 (λ place. be_value place)

unfoldable pub read_double_le : Arg → Bytes → Outcome ℕ
unfolding read_with
read_double_le = read_with 8 (λ place. le_value place)

unfoldable pub read_float_be : Arg → Bytes → Outcome ℕ
unfolding read_with
read_float_be = read_with 4 (λ place. be_value place)

unfoldable pub read_float_le : Arg → Bytes → Outcome ℕ
unfolding read_with
read_float_le = read_with 4 (λ place. le_value place)

unfoldable pub read_int8 : Arg → Bytes → Outcome ℤ
unfolding read_with
read_int8 = read_with 1 (λ place. signed (2 ^ 7) (le_value place))

unfoldable pub read_int16_be : Arg → Bytes → Outcome ℤ
unfolding read_with
read_int16_be = read_with 2 (λ place. signed (2 ^ 15) (be_value place))

unfoldable pub read_int16_le : Arg → Bytes → Outcome ℤ
unfolding read_with
read_int16_le = read_with 2 (λ place. signed (2 ^ 15) (le_value place))

unfoldable pub read_int32_be : Arg → Bytes → Outcome ℤ
unfolding read_with
read_int32_be = read_with 4 (λ place. signed (2 ^ 31) (be_value place))

unfoldable pub read_int32_le : Arg → Bytes → Outcome ℤ
unfolding read_with
read_int32_le = read_with 4 (λ place. signed (2 ^ 31) (le_value place))

unfoldable pub read_uint8 : Arg → Bytes → Outcome ℕ
unfolding read_with
read_uint8 = read_with 1 (λ place. le_value place)

unfoldable pub read_uint16_be : Arg → Bytes → Outcome ℕ
unfolding read_with
read_uint16_be = read_with 2 (λ place. be_value place)

unfoldable pub read_uint16_le : Arg → Bytes → Outcome ℕ
unfolding read_with
read_uint16_le = read_with 2 (λ place. le_value place)

unfoldable pub read_uint32_be : Arg → Bytes → Outcome ℕ
unfolding read_with
read_uint32_be = read_with 4 (λ place. be_value place)

unfoldable pub read_uint32_le : Arg → Bytes → Outcome ℕ
unfolding read_with
read_uint32_le = read_with 4 (λ place. le_value place)

unfoldable pub write_big_int64_be : Arg → Arg → Bytes → Outcome (Bytes × ℕ)
unfolding write_with
write_big_int64_be value =
    write_with (required_big_int_argument value) 8 unchecked (λ v. be_bytes 8 (unsigned (2 ^ 64) v))

unfoldable pub write_big_int64_le : Arg → Arg → Bytes → Outcome (Bytes × ℕ)
unfolding write_with
write_big_int64_le value =
    write_with (required_big_int_argument value) 8 unchecked (λ v. le_bytes 8 (unsigned (2 ^ 64) v))

unfoldable pub write_big_uint64_be : Arg → Arg → Bytes → Outcome (Bytes × ℕ)
unfolding write_with
write_big_uint64_be value =
    write_with (required_big_int_argument value) 8 unchecked (λ v. be_bytes 8 (magnitude64 v))

unfoldable pub write_big_uint64_le : Arg → Arg → Bytes → Outcome (Bytes × ℕ)
unfolding write_with
write_big_uint64_le value =
    write_with (required_big_int_argument value) 8 unchecked (λ v. le_bytes 8 (magnitude64 v))

unfoldable pub write_double_be : Arg → Arg → Bytes → Outcome (Bytes × ℕ)
unfolding write_with
write_double_be value =
    write_with (required_float_argument value) 8 unchecked (λ v. be_bytes 8 (Number.bits64 v))

unfoldable pub write_double_le : Arg → Arg → Bytes → Outcome (Bytes × ℕ)
unfolding write_with
write_double_le value =
    write_with (required_float_argument value) 8 unchecked (λ v. le_bytes 8 (Number.bits64 v))

unfoldable pub write_float_be : Arg → Arg → Bytes → Outcome (Bytes × ℕ)
unfolding write_with
write_float_be value =
    write_with (required_float_argument value) 4 Number.beyond_float32
      (λ v. be_bytes 4 (Number.bits32 v))

unfoldable pub write_float_le : Arg → Arg → Bytes → Outcome (Bytes × ℕ)
unfolding write_with
write_float_le value =
    write_with (required_float_argument value) 4 Number.beyond_float32
      (λ v. le_bytes 4 (Number.bits32 v))

unfoldable pub write_int8 : Arg → Arg → Bytes → Outcome (Bytes × ℕ)
unfolding write_with
write_int8 value =
    write_with (required_integer_argument value) 1 (beyond_signed (2 ^ 7))
      (λ v. le_bytes 1 (unsigned (2 ^ 8) v))

unfoldable pub write_int16_be : Arg → Arg → Bytes → Outcome (Bytes × ℕ)
unfolding write_with
write_int16_be value =
    write_with (required_integer_argument value) 2 (beyond_signed (2 ^ 15))
      (λ v. be_bytes 2 (unsigned (2 ^ 16) v))

unfoldable pub write_int16_le : Arg → Arg → Bytes → Outcome (Bytes × ℕ)
unfolding write_with
write_int16_le value =
    write_with (required_integer_argument value) 2 (beyond_signed (2 ^ 15))
      (λ v. le_bytes 2 (unsigned (2 ^ 16) v))

unfoldable pub write_int32_be : Arg → Arg → Bytes → Outcome (Bytes × ℕ)
unfolding write_with
write_int32_be value =
    write_with (required_integer_argument value) 4 (beyond_signed (2 ^ 31))
      (λ v. be_bytes 4 (unsigned (2 ^ 32) v))

unfoldable pub write_int32_le : Arg → Arg → Bytes → Outcome (Bytes × ℕ)
unfolding write_with
write_int32_le value =
    write_with (required_integer_argument value) 4 (beyond_signed (2 ^ 31))
      (λ v. le_bytes 4 (unsigned (2 ^ 32) v))

unfoldable pub write_uint8 : Arg → Arg → Bytes → Outcome (Bytes × ℕ)
unfolding write_with
write_uint8 value =
    write_with (required_integer_argument value) 1 (beyond_unsigned (2 ^ 8))
      (λ v. le_bytes 1 (unsigned (2 ^ 8) v))

unfoldable pub write_uint16_be : Arg → Arg → Bytes → Outcome (Bytes × ℕ)
unfolding write_with
write_uint16_be value =
    write_with (required_integer_argument value) 2 (beyond_unsigned (2 ^ 16))
      (λ v. be_bytes 2 (unsigned (2 ^ 16) v))

unfoldable pub write_uint16_le : Arg → Arg → Bytes → Outcome (Bytes × ℕ)
unfolding write_with
write_uint16_le value =
    write_with (required_integer_argument value) 2 (beyond_unsigned (2 ^ 16))
      (λ v. le_bytes 2 (unsigned (2 ^ 16) v))

unfoldable pub write_uint32_be : Arg → Arg → Bytes → Outcome (Bytes × ℕ)
unfolding write_with
write_uint32_be value =
    write_with (required_integer_argument value) 4 (beyond_unsigned (2 ^ 32))
      (λ v. be_bytes 4 (unsigned (2 ^ 32) v))

unfoldable pub write_uint32_le : Arg → Arg → Bytes → Outcome (Bytes × ℕ)
unfolding write_with
write_uint32_le value =
    write_with (required_integer_argument value) 4 (beyond_unsigned (2 ^ 32))
      (λ v. le_bytes 4 (unsigned (2 ^ 32) v))
