-- ===== src/Buffer/Table.antt =====
-- buffer/buffer.go: the table of the methods of a fixed width, as `initializeExports` fills it.
pub mod Laws
pub mod Offsets
use goja_ext.Prelude.{ℕ, ◌^◌, Bool, true, false, ℤ, pos, negsuc, ltb, Bytes}
use goja_ext.Args.{
  Outcome, ok, fail, ◌>>=◌, Arg, Number, required_integer_argument, required_big_int_argument,
  required_float_argument,
}
use goja_ext.Buffer.Fixed.{
  read_int8, read_int16_be, read_int16_le, read_int32_be, read_int32_le, read_uint8, read_uint16_be,
  read_uint16_le, read_uint32_be, read_uint32_le, read_big_int64_be, read_big_int64_le,
  read_big_uint64_be, read_big_uint64_le, read_double_be, read_double_le, read_float_be,
  read_float_le, write_int8, write_int16_be, write_int16_le, write_int32_be, write_int32_le,
  write_uint8, write_uint16_be, write_uint16_le, write_uint32_be, write_uint32_le,
  write_big_int64_be, write_big_int64_le, write_big_uint64_be, write_big_uint64_le, write_double_be,
  write_double_le, write_float_be, write_float_le,
}

-- What a method gives to JavaScript: a number, a big integer, or the bits of a double or a float.
pub data Value : Type 0 where
  integer big : ℤ → Value
  double_bits float_bits : ℕ → Value

pub data Method : Type 0 where
  int8 int16_be int16_le int32_be int32_le uint8 uint16_be uint16_le uint32_be uint32_le
        big_int64_be big_int64_le big_uint64_be big_uint64_le double_be double_le float_be
        float_le :
      Method

abbrev pub natural : Outcome ℕ → Outcome Value
natural m = m >>= λ v. ok (integer (pos v))

abbrev pub signed_value : Outcome ℤ → Outcome Value
signed_value m = m >>= λ v. ok (integer v)

unfoldable pub read_method : Method → Arg → Bytes → Outcome Value
unfolding read_int8 read_int16_be read_int16_le read_int32_be read_int32_le read_uint8
    read_uint16_be read_uint16_le read_uint32_be read_uint32_le read_big_int64_be read_big_int64_le
    read_big_uint64_be read_big_uint64_le read_double_be read_double_le read_float_be read_float_le
read_method int8 arg bb = signed_value (read_int8 arg bb)
read_method int16_be arg bb = signed_value (read_int16_be arg bb)
read_method int16_le arg bb = signed_value (read_int16_le arg bb)
read_method int32_be arg bb = signed_value (read_int32_be arg bb)
read_method int32_le arg bb = signed_value (read_int32_le arg bb)
read_method uint8 arg bb = natural (read_uint8 arg bb)
read_method uint16_be arg bb = natural (read_uint16_be arg bb)
read_method uint16_le arg bb = natural (read_uint16_le arg bb)
read_method uint32_be arg bb = natural (read_uint32_be arg bb)
read_method uint32_le arg bb = natural (read_uint32_le arg bb)
read_method big_int64_be arg bb = read_big_int64_be arg bb >>= λ v. ok (big v)
read_method big_int64_le arg bb = read_big_int64_le arg bb >>= λ v. ok (big v)
read_method big_uint64_be arg bb = read_big_uint64_be arg bb >>= λ v. ok (big (pos v))
read_method big_uint64_le arg bb = read_big_uint64_le arg bb >>= λ v. ok (big (pos v))
read_method double_be arg bb = read_double_be arg bb >>= λ v. ok (double_bits v)
read_method double_le arg bb = read_double_le arg bb >>= λ v. ok (double_bits v)
read_method float_be arg bb = read_float_be arg bb >>= λ v. ok (float_bits v)
read_method float_le arg bb = read_float_le arg bb >>= λ v. ok (float_bits v)

unfoldable pub write_method : Method → Arg → Arg → Bytes → Outcome (Bytes × ℕ)
unfolding write_int8 write_int16_be write_int16_le write_int32_be write_int32_le write_uint8
    write_uint16_be write_uint16_le write_uint32_be write_uint32_le write_big_int64_be
    write_big_int64_le write_big_uint64_be write_big_uint64_le write_double_be write_double_le
    write_float_be write_float_le
write_method int8 value arg bb = write_int8 value arg bb
write_method int16_be value arg bb = write_int16_be value arg bb
write_method int16_le value arg bb = write_int16_le value arg bb
write_method int32_be value arg bb = write_int32_be value arg bb
write_method int32_le value arg bb = write_int32_le value arg bb
write_method uint8 value arg bb = write_uint8 value arg bb
write_method uint16_be value arg bb = write_uint16_be value arg bb
write_method uint16_le value arg bb = write_uint16_le value arg bb
write_method uint32_be value arg bb = write_uint32_be value arg bb
write_method uint32_le value arg bb = write_uint32_le value arg bb
write_method big_int64_be value arg bb = write_big_int64_be value arg bb
write_method big_int64_le value arg bb = write_big_int64_le value arg bb
write_method big_uint64_be value arg bb = write_big_uint64_be value arg bb
write_method big_uint64_le value arg bb = write_big_uint64_le value arg bb
write_method double_be value arg bb = write_double_be value arg bb
write_method double_le value arg bb = write_double_le value arg bb
write_method float_be value arg bb = write_float_be value arg bb
write_method float_le value arg bb = write_float_le value arg bb

-- How many bytes a method reads or writes.
abbrev pub width : Method → ℕ
width int8 = 1
width int16_be = 2
width int16_le = 2
width int32_be = 4
width int32_le = 4
width uint8 = 1
width uint16_be = 2
width uint16_le = 2
width uint32_be = 4
width uint32_le = 4
width big_int64_be = 8
width big_int64_le = 8
width big_uint64_be = 8
width big_uint64_le = 8
width double_be = 8
width double_le = 8
width float_be = 4
width float_le = 4
