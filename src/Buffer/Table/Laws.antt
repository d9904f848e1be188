-- ===== src/Buffer/Table/Laws.antt =====
-- Every reader gives back what the writer of its name wrote.
use goja_ext.Prelude.{
  ℕ, ◌+◌, ◌<◌, ◌≤◌, ◌^◌, Bool, false, ℤ, pos, negsuc, length, get_elem?, Bytes, ◌≡◌, refl, ap, ◌∙◌,
  sym, subst, arith, ◌⊎◌,
}
use goja_ext.Args.{
  Outcome, ok, ◌>>=◌, Arg, Number, required_integer_argument, required_big_int_argument,
  required_float_argument,
}
use goja_ext.Buffer.Words.{
  be_value, be_bytes, le_value, le_bytes, span_of, signed, unsigned, beyond_signed, beyond_unsigned,
  le_value-le_bytes, be_value-be_bytes, length-le_bytes, length-be_bytes, be_signed, le_signed,
  be_unsigned, le_unsigned,
}
use goja_ext.Buffer.Access.{length-copy_at, get_elem?-copy_at}
use goja_ext.Buffer.Fixed.{
  read_with, write_with, unchecked, magnitude64, read_int8, read_int16_be, read_int16_le,
  read_int32_be, read_int32_le, read_uint8, read_uint16_be, read_uint16_le, read_uint32_be,
  read_uint32_le, read_big_int64_be, read_big_int64_le, read_big_uint64_be, read_big_uint64_le,
  read_double_be, read_double_le, read_float_be, read_float_le, write_int8, write_int16_be,
  write_int16_le, write_int32_be, write_int32_le, write_uint8, write_uint16_be, write_uint16_le,
  write_uint32_be, write_uint32_le, write_big_int64_be, write_big_int64_le, write_big_uint64_be,
  write_big_uint64_le, write_double_be, write_double_le, write_float_be, write_float_le,
}
use goja_ext.Buffer.Fixed.RoundTrip.{IsOffset, Written, write_with-Written, read_with-Written}
use goja_ext.Buffer.Table.{
  Value, integer, big, double_bits, float_bits, Method, int8, int16_be, int16_le, int32_be,
  int32_le, uint8, uint16_be, uint16_le, uint32_be, uint32_le, big_int64_be, big_int64_le,
  big_uint64_be, big_uint64_le, double_be, double_le, float_be, float_le, read_method, write_method,
  width,
}

-- The value that a method is given to write, as its reader gives it.
abbrev pub stored : Method → Arg → Outcome Value
stored int8 value = required_integer_argument value >>= λ v. ok (integer v)
stored int16_be value = required_integer_argument value >>= λ v. ok (integer v)
stored int16_le value = required_integer_argument value >>= λ v. ok (integer v)
stored int32_be value = required_integer_argument value >>= λ v. ok (integer v)
stored int32_le value = required_integer_argument value >>= λ v. ok (integer v)
stored uint8 value = required_integer_argument value >>= λ v. ok (integer v)
stored uint16_be value = required_integer_argument value >>= λ v. ok (integer v)
stored uint16_le value = required_integer_argument value >>= λ v. ok (integer v)
stored uint32_be value = required_integer_argument value >>= λ v. ok (integer v)
stored uint32_le value = required_integer_argument value >>= λ v. ok (integer v)
stored big_int64_be value = required_big_int_argument value >>= λ v. ok (big v)
stored big_int64_le value = required_big_int_argument value >>= λ v. ok (big v)
stored big_uint64_be value = required_big_int_argument value >>= λ v. ok (big v)
stored big_uint64_le value = required_big_int_argument value >>= λ v. ok (big v)
stored double_be value = required_float_argument value >>= λ v. ok (double_bits (Number.bits64 v))
stored double_le value = required_float_argument value >>= λ v. ok (double_bits (Number.bits64 v))
stored float_be value = required_float_argument value >>= λ v. ok (float_bits (Number.bits32 v))
stored float_le value = required_float_argument value >>= λ v. ok (float_bits (Number.bits32 v))

-- The integer is in a range.
abbrev pub BigFits : (ℤ → Bool) → Arg → Type 0
BigFits beyond arg = (v : ℤ) → required_big_int_argument arg ≡ ok v → beyond v ≡ false

abbrev pub BitsFit : (Number → ℕ) → ℕ → Arg → Type 0
BitsFit bits size arg = (v : Number) → required_float_argument arg ≡ ok v → bits v < size

-- What a method does not check itself: that a big integer has 64 bits. The bits of a double are below
-- 2^64, and those of a float below 2^32.
abbrev pub IsFit : Method → Arg → Type 0
IsFit int8 value = Unit
IsFit int16_be value = Unit
IsFit int16_le value = Unit
IsFit int32_be value = Unit
IsFit int32_le value = Unit
IsFit uint8 value = Unit
IsFit uint16_be value = Unit
IsFit uint16_le value = Unit
IsFit uint32_be value = Unit
IsFit uint32_le value = Unit
IsFit big_int64_be value = BigFits (beyond_signed (2 ^ 63)) value
IsFit big_int64_le value = BigFits (beyond_signed (2 ^ 63)) value
IsFit big_uint64_be value = BigFits (beyond_unsigned (2 ^ 64)) value
IsFit big_uint64_le value = BigFits (beyond_unsigned (2 ^ 64)) value
IsFit double_be value = BitsFit Number.bits64 (2 ^ 64) value
IsFit double_le value = BitsFit Number.bits64 (2 ^ 64) value
IsFit float_be value = BitsFit Number.bits32 (2 ^ 32) value
IsFit float_le value = BitsFit Number.bits32 (2 ^ 32) value

-- Outside `n` bytes behind an offset, nothing changes.
abbrev pub SameOutside : ℕ → ℕ → Bytes → Bytes → Type 0
SameOutside o n bb bb' = (i : ℕ) → (i < o) ⊎ (o + n ≤ i) → get_elem? bb' i ≡ get_elem? bb i

pub record Restores (m : Method) (value arg : Arg) (bb bb' : Bytes) (r : ℕ) : Type 0 where
  pub reads : read_method m arg bb' ≡ stored m value
  pub same_length : length bb' ≡ length bb
  pub offset : ℕ
  pub at : IsOffset arg bb (width m) offset
  pub behind : r ≡ offset + width m
  pub outside : SameOutside offset (width m) bb bb'

module _ {ℓ κ} {V : Type ℓ} {A : Type κ} (value : Outcome V) (n : ℕ) (refuse : V → Bool)
    (encode : V → Bytes) (decode : Bytes → A) (out : V → Value) (wrap : A → Value)
    (sized : (v : V) → length (encode v) ≡ n)
    (back : (v : V) → value ≡ ok v → refuse v ≡ false → wrap (decode (encode v)) ≡ out v)
    (arg : Arg) (bb bb' : Bytes) (r : ℕ) (small : length bb < 2 ^ 63)
    (done : write_with value n refuse encode arg bb ≡ ok (bb', r)) where
  written : Written value n refuse encode arg bb bb' r
  written = write_with-Written value n refuse encode arg bb bb' r done

  reads_back : (read_with n decode arg bb' >>= λ a. ok (wrap a)) ≡ (value >>= λ v. ok (out v))
  unfolding written
  reads_back =
      let w = written in
      rw (read_with-Written value n refuse encode decode arg bb bb' r w (sized w.v) small)
        (rw w.given (ap ok (back w.v w.given w.kept_range)))

  keeps_length : length bb' ≡ length bb
  keeps_length = ap length (written).bytes ∙ length-copy_at (written).offset (encode (written).v) bb

  keeps_outside : SameOutside (written).offset n bb bb'
  keeps_outside i h =
      ap (λ b. get_elem? b i) (written).bytes
      ∙ get_elem?-copy_at (written).offset (encode (written).v) bb i (
          subst (λ m. (i < (written).offset) ⊎ ((written).offset + m ≤ i)) (sym (sized (written).v))
            h)

  restores :
      (m : Method) (given : Arg)
      → width m ≡ n
      → read_method m arg bb' ≡ (read_with n decode arg bb' >>= λ a. ok (wrap a))
      → stored m given ≡ (value >>= λ v. ok (out v))
      → Restores m given arg bb bb' r
  restores m given w p q = record {
    reads = p ∙ reads_back ∙ sym q;
    same_length = keeps_length;
    offset = (written).offset;
    at = subst (λ k. IsOffset arg bb k (written).offset) (sym w) (written).at;
    behind = (written).behind ∙ ap (λ k. (written).offset + k) (sym w);
    outside = subst (λ k. SameOutside (written).offset k bb bb') (sym w) keeps_outside;
  }

magnitude_unsigned :
    (v : ℤ) → beyond_unsigned (2 ^ 64) v ≡ false → magnitude64 v ≡ unsigned (2 ^ 64) v
magnitude_unsigned (pos v) h = refl
magnitude_unsigned (negsuc v) h = cc

-- Whatever method writes a value that fits to the bytes: the reader of its name reads that value at the
-- same offset, the length and all other bytes stay, and the result is the offset behind the value.
pub write_method-Restores :
    (m : Method) (value arg : Arg) (bb bb' : Bytes) (r : ℕ)
    → IsFit m value
    → length bb < 2 ^ 63
    → write_method m value arg bb ≡ ok (bb', r)
    → Restores m value arg bb bb' r
unfolding read_method write_method span_of read_int8 write_int8 read_int16_be write_int16_be
    read_int16_le write_int16_le read_int32_be write_int32_be read_int32_le write_int32_le
    read_uint8 write_uint8 read_uint16_be write_uint16_be read_uint16_le write_uint16_le
    read_uint32_be write_uint32_be read_uint32_le write_uint32_le read_big_int64_be
    write_big_int64_be read_big_int64_le write_big_int64_le read_big_uint64_be write_big_uint64_be
    read_big_uint64_le write_big_uint64_le read_double_be write_double_be read_double_le
    write_double_le read_float_be write_float_be read_float_le write_float_le
write_method-Restores int8 value arg bb bb' r f s h =
    restores (required_integer_argument value) 1 (beyond_signed (2 ^ 7))
      (λ v. le_bytes 1 (unsigned (2 ^ 8) v)) (λ p. signed (2 ^ 7) (le_value p)) integer integer
      (λ v. length-le_bytes 1 (unsigned (2 ^ 8) v))
      (λ v _ q. ap integer (le_signed 1 (2 ^ 7) refl (omega arith) v q)) arg bb bb' r s h int8 value
      refl refl refl
write_method-Restores int16_be value arg bb bb' r f s h =
    restores (required_integer_argument value) 2 (beyond_signed (2 ^ 15))
      (λ v. be_bytes 2 (unsigned (2 ^ 16) v)) (λ p. signed (2 ^ 15) (be_value p)) integer integer
      (λ v. length-be_bytes 2 (unsigned (2 ^ 16) v))
      (λ v _ q. ap integer (be_signed 2 (2 ^ 15) refl (omega arith) v q)) arg bb bb' r s h int16_be
      value refl refl refl
write_method-Restores int16_le value arg bb bb' r f s h =
    restores (required_integer_argument value) 2 (beyond_signed (2 ^ 15))
      (λ v. le_bytes 2 (unsigned (2 ^ 16) v)) (λ p. signed (2 ^ 15) (le_value p)) integer integer
      (λ v. length-le_bytes 2 (unsigned (2 ^ 16) v))
      (λ v _ q. ap integer (le_signed 2 (2 ^ 15) refl (omega arith) v q)) arg bb bb' r s h int16_le
      value refl refl refl
write_method-Restores int32_be value arg bb bb' r f s h =
    restores (required_integer_argument value) 4 (beyond_signed (2 ^ 31))
      (λ v. be_bytes 4 (unsigned (2 ^ 32) v)) (λ p. signed (2 ^ 31) (be_value p)) integer integer
      (λ v. length-be_bytes 4 (unsigned (2 ^ 32) v))
      (λ v _ q. ap integer (be_signed 4 (2 ^ 31) refl (omega arith) v q)) arg bb bb' r s h int32_be
      value refl refl refl
write_method-Restores int32_le value arg bb bb' r f s h =
    restores (required_integer_argument value) 4 (beyond_signed (2 ^ 31))
      (λ v. le_bytes 4 (unsigned (2 ^ 32) v)) (λ p. signed (2 ^ 31) (le_value p)) integer integer
      (λ v. length-le_bytes 4 (unsigned (2 ^ 32) v))
      (λ v _ q. ap integer (le_signed 4 (2 ^ 31) refl (omega arith) v q)) arg bb bb' r s h int32_le
      value refl refl refl
write_method-Restores uint8 value arg bb bb' r f s h =
    restores (required_integer_argument value) 1 (beyond_unsigned (2 ^ 8))
      (λ v. le_bytes 1 (unsigned (2 ^ 8) v)) le_value integer (λ u. integer (pos u))
      (λ v. length-le_bytes 1 (unsigned (2 ^ 8) v))
      (λ v _ q. ap integer (le_unsigned 1 (2 ^ 7) refl (omega arith) v q)) arg bb bb' r s h uint8
      value refl refl refl
write_method-Restores uint16_be value arg bb bb' r f s h =
    restores (required_integer_argument value) 2 (beyond_unsigned (2 ^ 16))
      (λ v. be_bytes 2 (unsigned (2 ^ 16) v)) be_value integer (λ u. integer (pos u))
      (λ v. length-be_bytes 2 (unsigned (2 ^ 16) v))
      (λ v _ q. ap integer (be_unsigned 2 (2 ^ 15) refl (omega arith) v q)) arg bb bb' r s h
      uint16_be value refl refl refl
write_method-Restores uint16_le value arg bb bb' r f s h =
    restores (required_integer_argument value) 2 (beyond_unsigned (2 ^ 16))
      (λ v. le_bytes 2 (unsigned (2 ^ 16) v)) le_value integer (λ u. integer (pos u))
      (λ v. length-le_bytes 2 (unsigned (2 ^ 16) v))
      (λ v _ q. ap integer (le_unsigned 2 (2 ^ 15) refl (omega arith) v q)) arg bb bb' r s h
      uint16_le value refl refl refl
write_method-Restores uint32_be value arg bb bb' r f s h =
    restores (required_integer_argument value) 4 (beyond_unsigned (2 ^ 32))
      (λ v. be_bytes 4 (unsigned (2 ^ 32) v)) be_value integer (λ u. integer (pos u))
      (λ v. length-be_bytes 4 (unsigned (2 ^ 32) v))
      (λ v _ q. ap integer (be_unsigned 4 (2 ^ 31) refl (omega arith) v q)) arg bb bb' r s h
      uint32_be value refl refl refl
write_method-Restores uint32_le value arg bb bb' r f s h =
    restores (required_integer_argument value) 4 (beyond_unsigned (2 ^ 32))
      (λ v. le_bytes 4 (unsigned (2 ^ 32) v)) le_value integer (λ u. integer (pos u))
      (λ v. length-le_bytes 4 (unsigned (2 ^ 32) v))
      (λ v _ q. ap integer (le_unsigned 4 (2 ^ 31) refl (omega arith) v q)) arg bb bb' r s h
      uint32_le value refl refl refl
write_method-Restores big_int64_be value arg bb bb' r f s h =
    restores (required_big_int_argument value) 8 unchecked (λ v. be_bytes 8 (unsigned (2 ^ 64) v))
      (λ p. signed (2 ^ 63) (be_value p)) big big (λ v. length-be_bytes 8 (unsigned (2 ^ 64) v))
      (λ v g _. ap big (be_signed 8 (2 ^ 63) refl (omega arith) v (f v g))) arg bb bb' r s h
      big_int64_be value refl refl refl
write_method-Restores big_int64_le value arg bb bb' r f s h =
    restores (required_big_int_argument value) 8 unchecked (λ v. le_bytes 8 (unsigned (2 ^ 64) v))
      (λ p. signed (2 ^ 63) (le_value p)) big big (λ v. length-le_bytes 8 (unsigned (2 ^ 64) v))
      (λ v g _. ap big (le_signed 8 (2 ^ 63) refl (omega arith) v (f v g))) arg bb bb' r s h
      big_int64_le value refl refl refl
write_method-Restores big_uint64_be value arg bb bb' r f s h =
    restores (required_big_int_argument value) 8 unchecked (λ v. be_bytes 8 (magnitude64 v))
      be_value big (λ u. big (pos u)) (λ v. length-be_bytes 8 (magnitude64 v))
      (λ v g _.
        ap (λ u. big (pos (be_value (be_bytes 8 u)))) (magnitude_unsigned v (f v g))
        ∙ ap big (be_unsigned 8 (2 ^ 63) refl (omega arith) v (f v g)))
      arg bb bb' r s h big_uint64_be value refl refl refl
write_method-Restores big_uint64_le value arg bb bb' r f s h =
    restores (required_big_int_argument value) 8 unchecked (λ v. le_bytes 8 (magnitude64 v))
      le_value big (λ u. big (pos u)) (λ v. length-le_bytes 8 (magnitude64 v))
      (λ v g _.
        ap (λ u. big (pos (le_value (le_bytes 8 u)))) (magnitude_unsigned v (f v g))
        ∙ ap big (le_unsigned 8 (2 ^ 63) refl (omega arith) v (f v g)))
      arg bb bb' r s h big_uint64_le value refl refl refl
write_method-Restores double_be value arg bb bb' r f s h =
    restores (required_float_argument value) 8 unchecked (λ v. be_bytes 8 (Number.bits64 v))
      be_value (λ v. double_bits (Number.bits64 v)) double_bits
      (λ v. length-be_bytes 8 (Number.bits64 v))
      (λ v g _. ap double_bits (be_value-be_bytes 8 (Number.bits64 v) (f v g))) arg bb bb' r s h
      double_be value refl refl refl
write_method-Restores double_le value arg bb bb' r f s h =
    restores (required_float_argument value) 8 unchecked (λ v. le_bytes 8 (Number.bits64 v))
      le_value (λ v. double_bits (Number.bits64 v)) double_bits
      (λ v. length-le_bytes 8 (Number.bits64 v))
      (λ v g _. ap double_bits (le_value-le_bytes 8 (Number.bits64 v) (f v g))) arg bb bb' r s h
      double_le value refl refl refl
write_method-Restores float_be value arg bb bb' r f s h =
    restores (required_float_argument value) 4 Number.beyond_float32
      (λ v. be_bytes 4 (Number.bits32 v)) be_value (λ v. float_bits (Number.bits32 v)) float_bits
      (λ v. length-be_bytes 4 (Number.bits32 v))
      (λ v g _. ap float_bits (be_value-be_bytes 4 (Number.bits32 v) (f v g))) arg bb bb' r s h
      float_be value refl refl refl
write_method-Restores float_le value arg bb bb' r f s h =
    restores (required_float_argument value) 4 Number.beyond_float32
      (λ v. le_bytes 4 (Number.bits32 v)) le_value (λ v. float_bits (Number.bits32 v)) float_bits
      (λ v. length-le_bytes 4 (Number.bits32 v))
      (λ v g _. ap float_bits (le_value-le_bytes 4 (Number.bits32 v) (f v g))) arg bb bb' r s h
      float_le value refl refl refl
