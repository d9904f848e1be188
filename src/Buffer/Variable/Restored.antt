-- ===== src/Buffer/Variable/Restored.antt =====
-- What the writers of one to six bytes leave in the buffer, and what the readers take from it.
use goja_ext.Prelude.{
  ℕ, zero, suc, ◌+◌, ◌^◌, ◌<◌, ◌≤◌, Bool, false, ℤ, pos, negsuc, Bytes, length, take, drop, ◌≡◌,
  refl, ap, ◌∙◌, sym, subst, arith,
}
use goja_ext.Args.{ok, ◌>>=◌, out_of_range, bind_ok, refuse_if_ok, Arg, required_integer_argument}
use goja_ext.Buffer.Access.{
  get_variable_length_arguments, check_byte_length, check_offset, slice, put_at, copy_at,
  length-copy_at, take-drop-copy_at,
}
use goja_ext.Buffer.Fixed.RoundTrip.{slice_within, slice_ok}
use goja_ext.Buffer.Variable.Digits.{Count, one, two, three, four, five, six}
use goja_ext.Buffer.Variable.{be_digits, le_digits, read_digits, write_digits}

-- A count that is accepted is one to six.
check_byte_length-Count : (l : ℤ) (n : ℕ) → check_byte_length l ≡ ok n → Count n
check_byte_length-Count (negsuc l) n h = cc
check_byte_length-Count (pos zero) n h = cc
check_byte_length-Count (pos (suc zero)) n h = subst Count (ground arith) one
check_byte_length-Count (pos (suc (suc zero))) n h = subst Count (ground arith) two
check_byte_length-Count (pos (suc (suc (suc zero)))) n h = subst Count (ground arith) three
check_byte_length-Count (pos (suc (suc (suc (suc zero))))) n h = subst Count (ground arith) four
check_byte_length-Count (pos (suc (suc (suc (suc (suc zero)))))) n h =
    subst Count (ground arith) five
check_byte_length-Count (pos (suc (suc (suc (suc (suc (suc zero))))))) n h =
    subst Count (ground arith) six
check_byte_length-Count (pos (suc (suc (suc (suc (suc (suc (suc l)))))))) n h =
    absurd (ground arith)

pub length-be_digits : (n : ℕ) (v : ℤ) → length (be_digits n v) ≡ n
unfolding be_digits
length-be_digits zero v = refl
length-be_digits (suc n) v = ap suc (length-be_digits n v)

pub length-le_digits : (i n : ℕ) (v : ℤ) → length (le_digits i n v) ≡ n
unfolding le_digits
length-le_digits i zero v = refl
length-le_digits i (suc n) v = ap suc (length-le_digits (suc i) n v)

-- The accepted offset and count depend only on the length of the bytes.
arguments-length :
    (offset_arg length_arg : Arg) (bb bb' : Bytes)
    → length bb ≡ length bb'
    → get_variable_length_arguments offset_arg length_arg bb
      ≡ get_variable_length_arguments offset_arg length_arg bb'
unfolding get_variable_length_arguments
arguments-length offset_arg length_arg bb bb' e =
    ap
      (λ len. required_integer_argument offset_arg >>= λ offset.
        required_integer_argument length_arg >>= λ l.
        check_byte_length l >>= λ n. check_offset offset n len >>= λ o. ok (o, n))
      e

-- A count that the arguments are accepted with is one to six.
arguments-Count :
    (offset_arg length_arg : Arg) (bb : Bytes) (o n : ℕ)
    → get_variable_length_arguments offset_arg length_arg bb ≡ ok (o, n)
    → Count n
unfolding get_variable_length_arguments
arguments-Count offset_arg length_arg bb o n h =
    let (offset, h₀, h₁) = bind_ok (required_integer_argument offset_arg) _ h in
    let (l, h₂, h₃) = bind_ok (required_integer_argument length_arg) _ h₁ in
    let (m, h₄, h₅) = bind_ok (check_byte_length l) _ h₃ in
    let (o', h₆, h₇) = bind_ok (check_offset offset m (length bb)) _ h₅ in
    subst Count (ground arith) (check_byte_length-Count l m h₄)

-- A write that succeeds had a value in range, an offset and a count; it leaves the bytes of the value
-- there, and reading with the same arguments finds them.
pub record Placed (beyond : ℕ → ℤ → Bool) (digits : ℕ → ℤ → Bytes)
    (value offset_arg length_arg : Arg) (bb bb' : Bytes) (r : ℕ) : Type 0 where
  pub v : ℤ
  pub given : required_integer_argument value ≡ ok v
  pub n : ℕ
  pub count : Count n
  pub kept_range : beyond n v ≡ false
  pub offset : ℕ
  pub accepted : get_variable_length_arguments offset_arg length_arg bb ≡ ok (offset, n)
  pub bytes : bb' ≡ copy_at offset (digits n v) bb
  pub behind : r ≡ offset + n
  pub digits_read : read_digits offset_arg length_arg bb' ≡ ok (n, digits n v)

module _ (beyond : ℕ → ℤ → Bool) (digits : ℕ → ℤ → Bytes)
    (size : (n : ℕ) (v : ℤ) → length (digits n v) ≡ n) where
  -- In a buffer shorter than 2^63, a write of one to six bytes that returns had a value in range, and the
  -- readers, given the same offset and count, go through exactly the bytes that it wrote.
  pub write_digits-Placed :
      (value offset_arg length_arg : Arg) (bb bb' : Bytes) (r : ℕ)
      → write_digits beyond digits value offset_arg length_arg bb ≡ ok (bb', r)
      → length bb < 2 ^ 63
      → Placed beyond digits value offset_arg length_arg bb bb' r
  unfolding write_digits put_at read_digits
  write_digits-Placed value offset_arg length_arg bb bb' r h small =
      let (v, hv, h₁) = bind_ok (required_integer_argument value) _ h in
      let ((o, n), ho, h₂) =
        bind_ok (get_variable_length_arguments offset_arg length_arg bb) _ h₁ in
      let (hr, h₃) = refuse_if_ok (beyond n v) out_of_range (put_at o n (digits n v) bb) h₂ in
      let (place, hs, h₄) = bind_ok (slice o n bb) _ h₃ in
      let within : o + n ≤ length bb = slice_ok o n bb place hs in
      let at : bb' ≡ copy_at o (digits n v) bb = ground arith in
      let same : length bb' ≡ length bb = ap length at ∙ length-copy_at o (digits n v) bb in
      let q : get_variable_length_arguments offset_arg length_arg bb' ≡ ok (o, n) =
        arguments-length offset_arg length_arg bb' bb same ∙ ho in
      let t : take n (drop o bb') ≡ digits n v =
        ap (λ b. take n (drop o b)) at
        ∙ ap (λ m. take m (drop o (copy_at o (digits n v) bb))) (sym (size n v))
        ∙ take-drop-copy_at o (digits n v) bb (omega (arith, within, size n v)) in
      let s : slice o n bb' ≡ ok (take n (drop o bb')) =
        slice_within o n bb' (omega (arith, within, same)) (omega (arith, same, small)) in
      record {
        v = v;
        given = hv;
        n = n;
        count = arguments-Count offset_arg length_arg bb o n ho;
        kept_range = hr;
        offset = o;
        accepted = ho;
        bytes = at;
        behind = ground arith;
        digits_read = rw q (rw s (ap (λ b. ok (n, b)) t));
      }
