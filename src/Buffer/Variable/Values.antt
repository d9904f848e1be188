-- ===== src/Buffer/Variable/Values.antt =====
-- Every reader of one to six bytes gives back what the writer of its name wrote.
use goja_ext.Prelude.{
  ℕ, ◌+◌, ◌<◌, ◌≤◌, ◌^◌, Bool, false, ℤ, pos, negsuc, length, Bytes, ◌≡◌, ap, ◌∙◌, sym, subst,
  arith, ◌⊎◌, get_elem?,
}
use goja_ext.Args.{ok, Arg, required_integer_argument}
use goja_ext.Buffer.Access.{get_variable_length_arguments, length-copy_at, get_elem?-copy_at}
use goja_ext.Buffer.Table.Laws.{SameOutside}
use goja_ext.Buffer.Variable.{
  be_digits, le_digits, shift_in, sign_extend, beyond_int, beyond_uint, Layout, int_be, int_le,
  uint_be, uint_le, read_variable, write_variable,
}
use goja_ext.Buffer.Variable.Digits.{Count, unsigned_value, signed_value, reverse-le_digits}
use goja_ext.Buffer.Variable.Restored.{
  Placed, write_digits-Placed, length-be_digits, length-le_digits,
}

-- What a write leaves behind: the reader of the same name gives the value, at the same offset and count,
-- the method returned the offset behind the bytes, and all other bytes are as they were.
pub record Returns (m : Layout) (value offset_arg length_arg : Arg) (bb bb' : Bytes) (r : ℕ)
    : Type 0 where
  pub reads : read_variable m offset_arg length_arg bb' ≡ required_integer_argument value
  pub same_length : length bb' ≡ length bb
  pub offset : ℕ
  pub n : ℕ
  pub accepted : get_variable_length_arguments offset_arg length_arg bb ≡ ok (offset, n)
  pub behind : r ≡ offset + n
  pub outside : SameOutside offset n bb bb'

module _ (beyond : ℕ → ℤ → Bool) (digits : ℕ → ℤ → Bytes)
    (size : (n : ℕ) (v : ℤ) → length (digits n v) ≡ n) (m : Layout)
    (value offset_arg length_arg : Arg) (bb bb' : Bytes) (r : ℕ) where
  returns :
      (p : Placed beyond digits value offset_arg length_arg bb bb' r)
      → read_variable m offset_arg length_arg bb' ≡ ok p.v
      → Returns m value offset_arg length_arg bb bb' r
  returns p e = record {
    reads = e ∙ sym p.given;
    same_length = ap length p.bytes ∙ length-copy_at p.offset (digits p.n p.v) bb;
    offset = p.offset;
    n = p.n;
    accepted = p.accepted;
    behind = p.behind;
    outside = λ i h.
        ap (λ b. get_elem? b i) p.bytes
        ∙ get_elem?-copy_at p.offset (digits p.n p.v) bb i
            (subst (λ k. (i < p.offset) ⊎ (p.offset + k ≤ i)) (sym (size p.n p.v)) h);
  }

natural_value :
    {n : ℕ} (c : Count n) (v : ℤ) → beyond_uint n v ≡ false → pos (shift_in 0 (be_digits n v)) ≡ v
natural_value {n} c (pos v) h = ap pos (unsigned_value c v (ground arith))
natural_value c (negsuc v) h = cc

-- In a buffer shorter than 2^63, what writeIntBE, writeIntLE, writeUIntBE or writeUIntLE wrote, the reader
-- of the same name gives at the same offset and count; the result is the offset behind the bytes written,
-- and no other byte changes.
pub write_variable-Returns :
    (m : Layout) (value offset_arg length_arg : Arg) (bb bb' : Bytes) (r : ℕ)
    → write_variable m value offset_arg length_arg bb ≡ ok (bb', r)
    → length bb < 2 ^ 63
    → Returns m value offset_arg length_arg bb bb' r
unfolding write_variable read_variable
write_variable-Returns int_be value offset_arg length_arg bb bb' r h small =
    let p =
      write_digits-Placed beyond_int be_digits length-be_digits value offset_arg length_arg bb bb' r
        h small in
    returns beyond_int be_digits length-be_digits int_be value offset_arg length_arg bb bb' r p
      (rw p.digits_read (ap ok (signed_value p.count p.v p.kept_range)))
write_variable-Returns int_le value offset_arg length_arg bb bb' r h small =
    let p =
      write_digits-Placed beyond_int (le_digits 0) (length-le_digits 0) value offset_arg length_arg
        bb bb' r h small in
    returns beyond_int (le_digits 0) (length-le_digits 0) int_le value offset_arg length_arg bb bb'
      r p
      (rw p.digits_read (
        ap (λ d. ok (sign_extend (shift_in 0 d) p.n)) (reverse-le_digits p.count p.v)
        ∙ ap ok (signed_value p.count p.v p.kept_range)))
write_variable-Returns uint_be value offset_arg length_arg bb bb' r h small =
    let p =
      write_digits-Placed beyond_uint be_digits length-be_digits value offset_arg length_arg bb bb'
        r h small in
    returns beyond_uint be_digits length-be_digits uint_be value offset_arg length_arg bb bb' r p
      (rw p.digits_read (ap ok (natural_value p.count p.v p.kept_range)))
write_variable-Returns uint_le value offset_arg length_arg bb bb' r h small =
    let p =
      write_digits-Placed beyond_uint (le_digits 0) (length-le_digits 0) value offset_arg length_arg
        bb bb' r h small in
    returns beyond_uint (le_digits 0) (length-le_digits 0) uint_le value offset_arg length_arg bb
      bb' r p
      (rw p.digits_read (
        ap (λ d. ok (pos (shift_in 0 d))) (reverse-le_digits p.count p.v)
        ∙ ap ok (natural_value p.count p.v p.kept_range)))
