-- ===== src/Buffer/Words.antt =====
-- Numbers as bytes: package encoding/binary, for any count of bytes, and the signed readings.
use mathlib.Core.List.{reverse, reverse-reverse}
use native.Mathlib.Nat.{mod-eq_of_lt}
use goja_ext.Prelude.{
  ℕ, zero, suc, ◌+◌, ◌-◌, ◌*◌, ◌/◌, ◌%◌, ◌<◌, [], ◌∷◌, ℤ, pos, negsuc, ltb, leb, Bool, true, false,
  if◌then◌else◌, length, length-reverse, Bytes, ◌≡◌, refl, ap, ◌∙◌, arith,
}

-- 256 to the power of `n`: how many numbers `n` bytes hold.
unfoldable pub span_of : ℕ → ℕ
span_of zero = 1
span_of (suc n) = 256 * span_of n

abbrev pub le_value : Bytes → ℕ
le_value [] = 0
le_value (b ∷ bs) = b + 256 * le_value bs

-- The `n` low bytes, the lowest first.
abbrev pub le_bytes : ℕ → ℕ → Bytes
le_bytes zero v = []
le_bytes (suc n) v = v % 256 ∷ le_bytes n (v / 256)

abbrev pub be_value : Bytes → ℕ
be_value bs = le_value (reverse bs)

abbrev pub be_bytes : ℕ → ℕ → Bytes
be_bytes n v = reverse (le_bytes n v)

-- `intN(u)` of an unsigned number of which there are `2 * half`.
abbrev pub signed : ℕ → ℕ → ℤ
signed half u = if ltb u half then pos u else negsuc (2 * half - u - 1)

-- `uintN(v)`: the low bits of an integer, where there are `size` numbers.
abbrev pub unsigned : ℕ → ℤ → ℕ
unsigned size (pos v) = v % size
unsigned size (negsuc v) = size - 1 - v % size

-- `value < lo || value > hi`, for the two ranges of `n` bytes.
abbrev pub beyond_signed : ℕ → ℤ → Bool
beyond_signed half (pos v) = leb half v
beyond_signed half (negsuc v) = leb half v

abbrev pub beyond_unsigned : ℕ → ℤ → Bool
beyond_unsigned size (pos v) = leb size v
beyond_unsigned size (negsuc v) = true

pub le_value-le_bytes : (n v : ℕ) → v < span_of n → le_value (le_bytes n v) ≡ v
unfolding span_of
le_value-le_bytes zero v h = omega arith
le_value-le_bytes (suc n) v h = omega (arith, le_value-le_bytes n (v / 256) (omega arith))

pub be_value-be_bytes : (n v : ℕ) → v < span_of n → be_value (be_bytes n v) ≡ v
be_value-be_bytes n v h = ap le_value (reverse-reverse (le_bytes n v)) ∙ le_value-le_bytes n v h

pub length-le_bytes : (n v : ℕ) → length (le_bytes n v) ≡ n
length-le_bytes zero v = refl
length-le_bytes (suc n) v = ap suc (length-le_bytes n (v / 256))

-- A signed number in range is read back from its low bits.
pub signed-unsigned :
    (half : ℕ) (v : ℤ) → beyond_signed half v ≡ false → signed half (unsigned (2 * half) v) ≡ v
signed-unsigned half (pos v) h =
    let small : v < half = ground arith in
    let q : v % (2 * half) ≡ v = mod-eq_of_lt (omega arith) in ground (arith, q)
signed-unsigned half (negsuc v) h =
    let small : v < half = ground arith in
    let q : v % (2 * half) ≡ v = mod-eq_of_lt (omega arith) in ground (arith, q)

pub unsigned-lt : (size : ℕ) (v : ℤ) → 0 < size → unsigned size v < size
unsigned-lt size (pos v) h = omega arith
unsigned-lt size (negsuc v) h = omega arith

pub length-be_bytes : (n v : ℕ) → length (be_bytes n v) ≡ n
length-be_bytes n v = length-reverse (le_bytes n v) ∙ length-le_bytes n v

pub pos-unsigned : (size : ℕ) (v : ℤ) → beyond_unsigned size v ≡ false → pos (unsigned size v) ≡ v
pos-unsigned size (pos v) h = let small : v < size = ground arith in ap pos (mod-eq_of_lt small)
pos-unsigned size (negsuc v) h = cc

module _ (n half : ℕ) (size : span_of n ≡ 2 * half) (room : 0 < half) where
  -- A signed number in range is read back from the bytes written for it.
  pub be_signed :
      (v : ℤ)
      → beyond_signed half v ≡ false
      → signed half (be_value (be_bytes n (unsigned (2 * half) v))) ≡ v
  be_signed v h =
      ap (signed half) (
        be_value-be_bytes n (unsigned (2 * half) v)
          (omega (arith, size, unsigned-lt (2 * half) v (omega arith))))
      ∙ signed-unsigned half v h

  -- So is an unsigned one.
  pub be_unsigned :
      (v : ℤ)
      → beyond_unsigned (2 * half) v ≡ false
      → pos (be_value (be_bytes n (unsigned (2 * half) v))) ≡ v
  be_unsigned v h =
      ap pos (
        be_value-be_bytes n (unsigned (2 * half) v)
          (omega (arith, size, unsigned-lt (2 * half) v (omega arith))))
      ∙ pos-unsigned (2 * half) v h

module _ (n half : ℕ) (size : span_of n ≡ 2 * half) (room : 0 < half) where
  -- A signed number in range is read back from the bytes written for it.
  pub le_signed :
      (v : ℤ)
      → beyond_signed half v ≡ false
      → signed half (le_value (le_bytes n (unsigned (2 * half) v))) ≡ v
  le_signed v h =
      ap (signed half) (
        le_value-le_bytes n (unsigned (2 * half) v)
          (omega (arith, size, unsigned-lt (2 * half) v (omega arith))))
      ∙ signed-unsigned half v h

  -- So is an unsigned one.
  pub le_unsigned :
      (v : ℤ)
      → beyond_unsigned (2 * half) v ≡ false
      → pos (le_value (le_bytes n (unsigned (2 * half) v))) ≡ v
  le_unsigned v h =
      ap pos (
        le_value-le_bytes n (unsigned (2 * half) v)
          (omega (arith, size, unsigned-lt (2 * half) v (omega arith))))
      ∙ pos-unsigned (2 * half) v h
