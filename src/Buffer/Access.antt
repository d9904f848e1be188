-- ===== src/Buffer/Access.antt =====
-- buffer/buffer.go: the offset arguments, and reading and writing a stretch of the bytes. The length of a
-- Go slice is an `int`, so it is below 2^63; sums of offsets wrap around as `int64` does.
use goja_ext.Prelude.{
  ℕ, zero, suc, ◌+◌, ◌-◌, ◌<◌, ◌≤◌, ◌^◌, Bool, false, [], ◌∷◌, ℤ, pos, negsuc, ltb, leb, ◌||◌,
  if◌then◌else◌, length, take, drop, get_elem?, Bytes, ◌≡◌, refl, ap, arith, inl, inr, ◌⊎◌,
}
use goja_ext.Args.{
  Outcome, ok, fail, ◌>>=◌, go_fault, out_of_range, Arg, optional_integer_argument,
  required_integer_argument,
}

-- `a + b` of two numbers below 2^63, as an `int64`.
abbrev pub add_int64 : ℕ → ℕ → ℤ
add_int64 a b = if ltb (a + b) (2 ^ 63) then pos (a + b) else negsuc (2 ^ 64 - (a + b) - 1)

-- `i > int64(n)`
abbrev pub above : ℤ → ℕ → Bool
above (pos i) n = ltb n i
above (negsuc i) n = false

-- `offset < 0 || offset+numBytes > int64(len(bb))`
abbrev pub check_offset : ℤ → ℕ → ℕ → Outcome ℕ
check_offset (negsuc o) n len = fail out_of_range
check_offset (pos o) n len = if above (add_int64 o n) len then fail out_of_range else ok o

unfoldable pub get_offset_argument : Arg → Bytes → ℕ → Outcome ℕ
get_offset_argument arg bb n = do
  offset ← optional_integer_argument arg (pos 0)
  check_offset offset n (length bb)

-- `byteLength < 1 || byteLength > 6`
abbrev pub check_byte_length : ℤ → Outcome ℕ
check_byte_length (negsuc n) = fail out_of_range
check_byte_length (pos n) = if ltb n 1 || ltb 6 n then fail out_of_range else ok n

-- `getVariableLengthArguments`: the offset and the count of bytes.
unfoldable pub get_variable_length_arguments : Arg → Arg → Bytes → Outcome (ℕ × ℕ)
get_variable_length_arguments offset_arg length_arg bb = do
  offset ← required_integer_argument offset_arg
  byte_length ← required_integer_argument length_arg
  n ← check_byte_length byte_length
  o ← check_offset offset n (length bb)
  ok (o, n)

-- `bb[lo:lo+n]`
abbrev pub slice_to : ℕ → ℕ → ℤ → Bytes → Outcome Bytes
slice_to lo n (negsuc hi) bb = fail go_fault
slice_to lo n (pos hi) bb = if leb hi (length bb) then ok (take n (drop lo bb)) else fail go_fault

unfoldable pub slice : ℕ → ℕ → Bytes → Outcome Bytes
slice lo n bb = slice_to lo n (add_int64 lo n) bb

-- `copy(dst, src)`
abbrev pub copy_into : Bytes → Bytes → Bytes
copy_into [] dst = dst
copy_into (s ∷ src) [] = []
copy_into (s ∷ src) (d ∷ dst) = s ∷ copy_into src dst

-- The bytes with `src` copied to the place `lo`.
abbrev pub copy_at : ℕ → Bytes → Bytes → Bytes
copy_at zero src dst = copy_into src dst
copy_at (suc lo) src [] = []
copy_at (suc lo) src (d ∷ dst) = d ∷ copy_at lo src dst

-- Writing the bytes `src` to `bb[lo:lo+n]`, and the offset behind it, which the methods return.
unfoldable pub put_at : ℕ → ℕ → Bytes → Bytes → Outcome (Bytes × ℕ)
unfolding slice
put_at lo n src bb = do place ← slice lo n bb; ok (copy_at lo src bb, lo + n)

pub length-copy_into : (src dst : Bytes) → length (copy_into src dst) ≡ length dst
length-copy_into [] dst = refl
length-copy_into (s ∷ src) [] = refl
length-copy_into (s ∷ src) (d ∷ dst) = ap suc (length-copy_into src dst)

pub length-copy_at : (lo : ℕ) (src dst : Bytes) → length (copy_at lo src dst) ≡ length dst
length-copy_at zero src dst = length-copy_into src dst
length-copy_at (suc lo) src [] = refl
length-copy_at (suc lo) src (d ∷ dst) = ap suc (length-copy_at lo src dst)

take-copy_into :
    (src dst : Bytes) → length src ≤ length dst → take (length src) (copy_into src dst) ≡ src
take-copy_into [] dst h = refl
take-copy_into (s ∷ src) [] h = absurd (omega (arith, h))
take-copy_into (s ∷ src) (d ∷ dst) h = ap (λ t. s ∷ t) (take-copy_into src dst (omega (arith, h)))

pub take-drop-copy_at :
    (lo : ℕ) (src dst : Bytes)
    → lo + length src ≤ length dst
    → take (length src) (drop lo (copy_at lo src dst)) ≡ src
take-drop-copy_at zero src dst h = take-copy_into src dst (omega (arith, h))
take-drop-copy_at (suc lo) src [] h = absurd (omega (arith, h))
take-drop-copy_at (suc lo) src (d ∷ dst) h = take-drop-copy_at lo src dst (omega (arith, h))

get_elem?-copy_into :
    (src dst : Bytes) (i : ℕ) → length src ≤ i → get_elem? (copy_into src dst) i ≡ get_elem? dst i
get_elem?-copy_into [] dst i h = refl
get_elem?-copy_into (s ∷ src) [] i h = refl
get_elem?-copy_into (s ∷ src) (d ∷ dst) zero h = absurd (omega (arith, h))
get_elem?-copy_into (s ∷ src) (d ∷ dst) (suc i) h = get_elem?-copy_into src dst i (omega (arith, h))

-- Bytes outside the place written to stay as they are.
pub get_elem?-copy_at :
    (lo : ℕ) (src dst : Bytes) (i : ℕ)
    → (i < lo) ⊎ (lo + length src ≤ i)
    → get_elem? (copy_at lo src dst) i ≡ get_elem? dst i
get_elem?-copy_at zero src dst i (inl h) = absurd (omega (arith, h))
get_elem?-copy_at zero src dst i (inr h) = get_elem?-copy_into src dst i (omega (arith, h))
get_elem?-copy_at (suc lo) src [] i h = refl
get_elem?-copy_at (suc lo) src (d ∷ dst) zero h = refl
get_elem?-copy_at (suc lo) src (d ∷ dst) (suc i) (inl h) =
    get_elem?-copy_at lo src dst i (inl (omega (arith, h)))
get_elem?-copy_at (suc lo) src (d ∷ dst) (suc i) (inr h) =
    get_elem?-copy_at lo src dst i (inr (omega (arith, h)))
