-- ===== src/Crypto/KeyWrap/Xor.antt =====
-- crypto/legacy_cipher_helpers.go, xorT: a second turn with the same counter undoes the first.
use Prim.Native.Nat.{bit_xor, bit_xor-bitwise, digits, differ}
use mathlib.Core.List.{reverse, reverse-reverse}
use goja_ext.Prelude.{
  ℕ, zero, suc, ◌+◌, ◌*◌, ◌/◌, ◌%◌, ◌≤◌, ◌<◌, [], ◌∷◌, Bytes, length, length-reverse, ◌≡◌, refl, ap,
  ◌∙◌, arith,
}
use goja_ext.Crypto.KeyWrap.{xor_back, xor_t}

-- The law for the lowest digit, from what the native operation stands for.
abbrev xor_digits : ℕ → ℕ → ℕ → ℕ
xor_digits n a b = digits (λ b. b) differ n a b

xor_digits-enough : (n m a b : ℕ) → a ≤ n → a ≤ m → xor_digits n a b ≡ xor_digits m a b
xor_digits-enough zero zero a b p q = refl
xor_digits-enough zero (suc m) zero b p q = refl
xor_digits-enough zero (suc m) (suc a) b p q = absurd (omega arith)
xor_digits-enough (suc n) zero zero b p q = refl
xor_digits-enough (suc n) zero (suc a) b p q = absurd (omega arith)
xor_digits-enough (suc n) (suc m) zero b p q = refl
xor_digits-enough (suc n) (suc m) (suc a) b p q =
    omega (arith, xor_digits-enough n m (suc a / 2) (b / 2) (omega arith) (omega arith))

zero-bit_xor : (b : ℕ) → bit_xor 0 b ≡ b
zero-bit_xor b = bit_xor-bitwise 0 b

differ-zero_left : (y : ℕ) → differ 0 y ≡ y
differ-zero_left y = refl

bit_xor-step : (a b : ℕ) → bit_xor a b ≡ bit_xor (a / 2) (b / 2) * 2 + differ (a % 2) (b % 2)
bit_xor-step zero b = omega (arith, zero-bit_xor b, zero-bit_xor (b / 2), differ-zero_left (b % 2))
bit_xor-step (suc a) b = omega (
  arith,
  bit_xor-bitwise (suc a) b,
  bit_xor-bitwise (suc a / 2) (b / 2),
  xor_digits-enough a (suc a / 2) (suc a / 2) (b / 2) (omega arith) (omega arith),
)

differ_bits : (x y : ℕ) → x < 2 → y < 2 → (differ x y < 2) × (differ (differ x y) y ≡ x)
differ_bits zero zero p q = (omega arith, refl)
differ_bits zero (suc zero) p q = (omega arith, refl)
differ_bits (suc zero) zero p q = (omega arith, refl)
differ_bits (suc zero) (suc zero) p q = (omega arith, refl)
differ_bits (suc (suc x)) y p q = absurd (omega arith)
differ_bits x (suc (suc y)) p q = absurd (omega arith)

-- By the number of halvings that empty both.
twice : (n a k : ℕ) → a ≤ n → k ≤ n → bit_xor (bit_xor a k) k ≡ a
twice zero zero zero p q = refl
twice zero zero (suc k) p q = absurd (omega arith)
twice zero (suc a) k p q = absurd (omega arith)
twice (suc n) a k p q =
    let x = bit_xor a k in
    let (small, back) = differ_bits (a % 2) (k % 2) (omega arith) (omega arith) in
    let low : x % 2 ≡ differ (a % 2) (k % 2) = omega (arith, bit_xor-step a k, small) in
    let high : x / 2 ≡ bit_xor (a / 2) (k / 2) = omega (arith, bit_xor-step a k, small) in
    omega (
      arith,
      bit_xor-step x k,
      ap (λ y. bit_xor y (k / 2)) high,
      ap (λ y. differ y (k % 2)) low,
      back,
      twice n (a / 2) (k / 2) (omega arith) (omega arith),
    )

bit_xor_twice : (a k : ℕ) → bit_xor (bit_xor a k) k ≡ a
bit_xor_twice a k = twice (a + k) a k (omega arith) (omega arith)

xor_back_twice : (xs : Bytes) (t : ℕ) → xor_back (xor_back xs t) t ≡ xs
unfolding xor_back
xor_back_twice [] t = refl
xor_back_twice (x ∷ xs) t =
    ap (λ y. y ∷ xor_back (xor_back xs (t / 256)) (t / 256)) (bit_xor_twice x (t % 256))
    ∙ ap (λ ys. x ∷ ys) (xor_back_twice xs (t / 256))

pub xor_t_twice : (a : Bytes) (t : ℕ) → xor_t (xor_t a t) t ≡ a
unfolding xor_t
xor_t_twice a t =
    ap (λ b. reverse (xor_back b t)) (reverse-reverse (xor_back (reverse a) t))
    ∙ ap reverse (xor_back_twice (reverse a) t)
    ∙ reverse-reverse a

length-xor_back : (xs : Bytes) (t : ℕ) → length (xor_back xs t) ≡ length xs
unfolding xor_back
length-xor_back [] t = refl
length-xor_back (x ∷ xs) t = omega (arith, length-xor_back xs (t / 256))

pub length-xor_t : (a : Bytes) (t : ℕ) → length (xor_t a t) ≡ length a
unfolding xor_t
length-xor_t a t =
    length-reverse (xor_back (reverse a) t) ∙ length-xor_back (reverse a) t ∙ length-reverse a
