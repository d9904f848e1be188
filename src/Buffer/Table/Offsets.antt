-- ===== src/Buffer/Table/Offsets.antt =====
-- At which offsets the readers succeed, and how they fail.
use goja_ext.Prelude.{
  ℕ, ◌+◌, ◌<◌, ◌^◌, Option, none, some, ℤ, pos, negsuc, ltb, leb, if◌then◌else◌, length, Bytes, ◌≡◌,
  refl, ◌∙◌, arith,
}
use goja_ext.Args.{
  Outcome, ok, fail, Failure, out_of_range, go_fault, ◌>>=◌, Arg, optional_integer_argument,
}
use goja_ext.Buffer.Access.{get_offset_argument, check_offset, slice}
use goja_ext.Buffer.Fixed.{
  read_with, read_int8, read_int16_be, read_int16_le, read_int32_be, read_int32_le, read_uint8,
  read_uint16_be, read_uint16_le, read_uint32_be, read_uint32_le, read_big_int64_be,
  read_big_int64_le, read_big_uint64_be, read_big_uint64_le, read_double_be, read_double_le,
  read_float_be, read_float_le,
}
use goja_ext.Buffer.Table.{
  Method, int8, int16_be, int16_le, int32_be, int32_le, uint8, uint16_be, uint16_le, uint32_be,
  uint32_le, big_int64_be, big_int64_le, big_uint64_be, big_uint64_le, double_be, double_le,
  float_be, float_le, read_method, width,
}

-- How a call ends: none if it returns.
abbrev pub status {ℓ} : {A : Type ℓ} → Outcome A → Option Failure
status (ok a) = none
status (fail e) = some e

-- What is to be expected of an offset, with `n` bytes to read of `len`: the `int64` sum of an offset near
-- 2^63 wraps around, so that the check lets it through and the slice expression faults.
abbrev pub offset_status : ℕ → ℕ → Outcome ℤ → Option Failure
offset_status n len (fail e) = some e
offset_status n len (ok (negsuc o)) = some out_of_range
offset_status n len (ok (pos o)) =
    if leb (o + n) len
    then none
    else if ltb (o + n) (2 ^ 63)
    then some out_of_range
    else some go_fault

status-read_with {ℓ} :
    {A : Type ℓ} (n : ℕ) (decode : Bytes → A) (arg : Arg) (bb : Bytes)
    → length bb < 2 ^ 63
    → status (read_with n decode arg bb)
      ≡ offset_status n (length bb) (optional_integer_argument arg (pos 0))
unfolding read_with get_offset_argument slice
status-read_with n decode arg bb h = by_argument (optional_integer_argument arg (pos 0))
  where
    at_offset :
        (v : ℤ)
        → status (check_offset v n (length bb) >>= λ o. slice o n bb >>= λ place. ok (decode place))
          ≡ offset_status n (length bb) (ok v)
    at_offset (negsuc v) = refl
    at_offset (pos v) = ground arith

    by_argument :
        (m : Outcome ℤ)
        → status (
            (m >>= λ v. check_offset v n (length bb)) >>= λ o.
            slice o n bb >>= λ place. ok (decode place))
          ≡ offset_status n (length bb) m
    by_argument (fail e) = refl
    by_argument (ok v) = at_offset v

status-wrap {ℓ κ} :
    {A : Type ℓ} {B : Type κ} (m : Outcome A) (f : A → B) → status (m >>= λ a. ok (f a)) ≡ status m
status-wrap (ok a) f = refl
status-wrap (fail e) f = refl

-- A reader returns exactly if the offset is not negative and its bytes are there. Any other number is out
-- of range, but for one whose sum with the width is 2^63 or more: there the Go runtime faults.
pub status-read_method :
    (m : Method) (arg : Arg) (bb : Bytes)
    → length bb < 2 ^ 63
    → status (read_method m arg bb)
      ≡ offset_status (width m) (length bb) (optional_integer_argument arg (pos 0))
unfolding read_method read_int8 read_int16_be read_int16_le read_int32_be read_int32_le read_uint8
    read_uint16_be read_uint16_le read_uint32_be read_uint32_le read_big_int64_be read_big_int64_le
    read_big_uint64_be read_big_uint64_le read_double_be read_double_le read_float_be read_float_le
status-read_method int8 arg bb h = status-wrap (read_int8 arg bb) _ ∙ status-read_with 1 _ arg bb h
status-read_method int16_be arg bb h =
    status-wrap (read_int16_be arg bb) _ ∙ status-read_with 2 _ arg bb h
status-read_method int16_le arg bb h =
    status-wrap (read_int16_le arg bb) _ ∙ status-read_with 2 _ arg bb h
status-read_method int32_be arg bb h =
    status-wrap (read_int32_be arg bb) _ ∙ status-read_with 4 _ arg bb h
status-read_method int32_le arg bb h =
    status-wrap (read_int32_le arg bb) _ ∙ status-read_with 4 _ arg bb h
status-read_method uint8 arg bb h =
    status-wrap (read_uint8 arg bb) _ ∙ status-read_with 1 _ arg bb h
status-read_method uint16_be arg bb h =
    status-wrap (read_uint16_be arg bb) _ ∙ status-read_with 2 _ arg bb h
status-read_method uint16_le arg bb h =
    status-wrap (read_uint16_le arg bb) _ ∙ status-read_with 2 _ arg bb h
status-read_method uint32_be arg bb h =
    status-wrap (read_uint32_be arg bb) _ ∙ status-read_with 4 _ arg bb h
status-read_method uint32_le arg bb h =
    status-wrap (read_uint32_le arg bb) _ ∙ status-read_with 4 _ arg bb h
status-read_method big_int64_be arg bb h =
    status-wrap (read_big_int64_be arg bb) _ ∙ status-read_with 8 _ arg bb h
status-read_method big_int64_le arg bb h =
    status-wrap (read_big_int64_le arg bb) _ ∙ status-read_with 8 _ arg bb h
status-read_method big_uint64_be arg bb h =
    status-wrap (read_big_uint64_be arg bb) _ ∙ status-read_with 8 _ arg bb h
status-read_method big_uint64_le arg bb h =
    status-wrap (read_big_uint64_le arg bb) _ ∙ status-read_with 8 _ arg bb h
status-read_method double_be arg bb h =
    status-wrap (read_double_be arg bb) _ ∙ status-read_with 8 _ arg bb h
status-read_method double_le arg bb h =
    status-wrap (read_double_le arg bb) _ ∙ status-read_with 8 _ arg bb h
status-read_method float_be arg bb h =
    status-wrap (read_float_be arg bb) _ ∙ status-read_with 4 _ arg bb h
status-read_method float_le arg bb h =
    status-wrap (read_float_le arg bb) _ ∙ status-read_with 4 _ arg bb h
