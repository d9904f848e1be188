-- ===== src/Buffer/Variable/Digits.antt =====
-- The value of the bytes that the writers of one to six bytes give.
use mathlib.Core.List.{reverse}
use native.Mathlib.Nat.{div-div-eq-div-mul, div-le_self, div-lt_iff_lt-mul, one-le-pow}
use native.Mathlib.Numerals.{towards_suc}
use goja_ext.Prelude.{
  ℕ, zero, suc, ◌+◌, ◌-◌, ◌*◌, ◌/◌, ◌%◌, ◌^◌, ◌<◌, ◌≤◌, false, ℤ, pos, negsuc, ◌≡◌, refl, ap, ◌∙◌,
  sym, arith,
}
use goja_ext.Buffer.Variable.{shift_in, be_digits, le_digits, sign_extend, beyond_int}

-- At every count of bytes that the methods accept, by cases.
pub data Count : ℕ → Type 0 where
  one : Count 1
  two : Count 2
  three : Count 3
  four : Count 4
  five : Count 5
  six : Count 6

eight_suc : (n : ℕ) → 8 * suc n ≡ 8 * n + 8
eight_suc n = omega arith

pow_step : (n : ℕ) → 2 ^ (8 * suc n) ≡ 2 ^ (8 * n) * 256
pow_step n = ap (λ k. 2 ^ k) (eight_suc n) ∙ simp towards_suc (omega arith)

div_step : (v n : ℕ) → v / 2 ^ (8 * suc n) ≡ v / 2 ^ (8 * n) / 256
div_step v n = ap (λ m. v / m) (pow_step n) ∙ sym (div-div-eq-div-mul v (2 ^ (8 * n)) 256)

digit : (w : ℕ) → w < 2 ^ 56 → ((w / 256) * 256) % 2 ^ 64 + w % 256 ≡ w
digit w h = omega arith

div-le : (v m : ℕ) → v / m ≤ v
div-le v m = div-le_self v m

-- The loop of a big-endian reader over the bytes of a number, begun with what stands above them.
be_pos : (n v : ℕ) → v < 2 ^ 56 → shift_in (v / 2 ^ (8 * n)) (be_digits n (pos v)) ≡ v
unfolding shift_in be_digits
be_pos zero v h = omega arith
be_pos (suc n) v h =
    ap (λ a. shift_in ((a * 256) % 2 ^ 64 + v / 2 ^ (8 * n) % 256) (be_digits n (pos v)))
      (div_step v n)
    ∙ ap (λ a. shift_in a (be_digits n (pos v)))
        (digit (v / 2 ^ (8 * n)) (omega (arith, div-le v (2 ^ (8 * n)))))
    ∙ be_pos n v h

-- The loop over the bytes of a negative number, below as many ones.
neg_digit :
    (w p : ℕ)
    → w < p * 256
    → p * 256 ≤ 2 ^ 56
    → ((p - 1 - w / 256) * 256) % 2 ^ 64 + (255 - w % 256) ≡ p * 256 - 1 - w
neg_digit w p h l = omega arith

le-mul : (a m : ℕ) → 0 < m → a ≤ a * m
le-mul a zero h = absurd (omega (arith, h))
le-mul a (suc m) h = omega arith

product : (p n : ℕ) → p * 2 ^ (8 * suc n) ≡ p * 256 * 2 ^ (8 * n)
product p n = ap (λ m. p * m) (pow_step n) ∙ omega arith

be_neg :
    (n v p : ℕ)
    → v < p * 2 ^ (8 * n)
    → p * 2 ^ (8 * n) ≤ 2 ^ 56
    → shift_in (p - 1 - v / 2 ^ (8 * n)) (be_digits n (negsuc v)) ≡ p * 2 ^ (8 * n) - 1 - v
unfolding shift_in be_digits
be_neg zero v p h l = omega arith
be_neg (suc n) v p h l =
    let e = product p n in
    let room : 0 < 2 ^ (8 * n) = one-le-pow (8 * n) 2 (omega arith) in
    ap
      (λ a.
        shift_in (((p - 1 - a) * 256) % 2 ^ 64 + (255 - v / 2 ^ (8 * n) % 256))
          (be_digits n (negsuc v)))
      (div_step v n)
    ∙ ap (λ a. shift_in a (be_digits n (negsuc v)))
        (neg_digit (v / 2 ^ (8 * n)) p ((div-lt_iff_lt-mul room).1 (omega (arith, h, e)))
          (omega (arith, l, e, le-mul (p * 256) (2 ^ (8 * n)) room)))
    ∙ be_neg n v (p * 256) (omega (arith, h, e)) (omega (arith, l, e))
    ∙ ap (λ m. m - 1 - v) (sym e)

-- At a count of one to six, the bytes of a number in range give it back.
pub unsigned_value :
    {n : ℕ} (c : Count n) (v : ℕ) → v < 2 ^ (8 * n) → shift_in 0 (be_digits n (pos v)) ≡ v
unsigned_value one v h =
    ap (λ a. shift_in a (be_digits 1 (pos v))) (omega arith) ∙ be_pos 1 v (omega arith)
unsigned_value two v h =
    ap (λ a. shift_in a (be_digits 2 (pos v))) (omega arith) ∙ be_pos 2 v (omega arith)
unsigned_value three v h =
    ap (λ a. shift_in a (be_digits 3 (pos v))) (omega arith) ∙ be_pos 3 v (omega arith)
unsigned_value four v h =
    ap (λ a. shift_in a (be_digits 4 (pos v))) (omega arith) ∙ be_pos 4 v (omega arith)
unsigned_value five v h =
    ap (λ a. shift_in a (be_digits 5 (pos v))) (omega arith) ∙ be_pos 5 v (omega arith)
unsigned_value six v h =
    ap (λ a. shift_in a (be_digits 6 (pos v))) (omega arith) ∙ be_pos 6 v (omega arith)

pub signed_value :
    {n : ℕ} (c : Count n) (v : ℤ)
    → beyond_int n v ≡ false
    → sign_extend (shift_in 0 (be_digits n v)) n ≡ v
unfolding sign_extend
signed_value one (pos v) h =
    let small : v < 2 ^ 7 = ground arith in
    ap (λ u. sign_extend u 1) (unsigned_value one v (omega arith)) ∙ ground arith
signed_value one (negsuc v) h =
    let small : v < 2 ^ 7 = ground arith in
    ap (λ u. sign_extend u 1)
      (ap (λ a. shift_in a (be_digits 1 (negsuc v))) (omega arith)
        ∙ be_neg 1 v 1 (omega arith) (omega arith))
    ∙ ground arith
signed_value two (pos v) h =
    let small : v < 2 ^ 15 = ground arith in
    ap (λ u. sign_extend u 2) (unsigned_value two v (omega arith)) ∙ ground arith
signed_value two (negsuc v) h =
    let small : v < 2 ^ 15 = ground arith in
    ap (λ u. sign_extend u 2)
      (ap (λ a. shift_in a (be_digits 2 (negsuc v))) (omega arith)
        ∙ be_neg 2 v 1 (omega arith) (omega arith))
    ∙ ground arith
signed_value three (pos v) h =
    let small : v < 2 ^ 23 = ground arith in
    ap (λ u. sign_extend u 3) (unsigned_value three v (omega arith)) ∙ ground arith
signed_value three (negsuc v) h =
    let small : v < 2 ^ 23 = ground arith in
    ap (λ u. sign_extend u 3)
      (ap (λ a. shift_in a (be_digits 3 (negsuc v))) (omega arith)
        ∙ be_neg 3 v 1 (omega arith) (omega arith))
    ∙ ground arith
signed_value four (pos v) h =
    let small : v < 2 ^ 31 = ground arith in
    ap (λ u. sign_extend u 4) (unsigned_value four v (omega arith)) ∙ ground arith
signed_value four (negsuc v) h =
    let small : v < 2 ^ 31 = ground arith in
    ap (λ u. sign_extend u 4)
      (ap (λ a. shift_in a (be_digits 4 (negsuc v))) (omega arith)
        ∙ be_neg 4 v 1 (omega arith) (omega arith))
    ∙ ground arith
signed_value five (pos v) h =
    let small : v < 2 ^ 39 = ground arith in
    ap (λ u. sign_extend u 5) (unsigned_value five v (omega arith)) ∙ ground arith
signed_value five (negsuc v) h =
    let small : v < 2 ^ 39 = ground arith in
    ap (λ u. sign_extend u 5)
      (ap (λ a. shift_in a (be_digits 5 (negsuc v))) (omega arith)
        ∙ be_neg 5 v 1 (omega arith) (omega arith))
    ∙ ground arith
signed_value six (pos v) h =
    let small : v < 2 ^ 47 = ground arith in
    ap (λ u. sign_extend u 6) (unsigned_value six v (omega arith)) ∙ ground arith
signed_value six (negsuc v) h =
    let small : v < 2 ^ 47 = ground arith in
    ap (λ u. sign_extend u 6)
      (ap (λ a. shift_in a (be_digits 6 (negsuc v))) (omega arith)
        ∙ be_neg 6 v 1 (omega arith) (omega arith))
    ∙ ground arith

-- The loop over the bytes from the last to the first: `readIntLE` and `readUIntLE`.
pub reverse-le_digits : {n : ℕ} (c : Count n) (v : ℤ) → reverse (le_digits 0 n v) ≡ be_digits n v
unfolding le_digits be_digits
reverse-le_digits one v = refl
reverse-le_digits two v = refl
reverse-le_digits three v = refl
reverse-le_digits four v = refl
reverse-le_digits five v = refl
reverse-le_digits six v = refl
