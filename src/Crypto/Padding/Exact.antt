-- ===== src/Crypto/Padding/Exact.antt =====
-- crypto/legacy_cipher_helpers.go: padding and taking it off are inverse to each other.
use native.Mathlib.Nat.{mod-add-mod, mod_self, mod-lt, mod-eq_of_lt, mod-eq-sub-mod}
use goja_ext.Prelude.{
  ℕ, zero, suc, ◌+◌, ◌-◌, ◌%◌, ◌≤◌, ◌<◌, true, not, ◌||◌, [], ◌∷◌, ◌++◌, none, some, Bytes, ◌==◌,
  ==_self, if◌then◌else◌, if_split, length, take, drop, get_or, length-append, length-drop,
  take-append, drop-append, take-append-drop, ◌≡◌, refl, sym, ap, ◌∙◌, subst, ◌⊎◌, inl, inr, ◌↔◌,
  arith,
}
use goja_ext.Crypto.Padding.{copies, pad_len, pkcs7_pad, all_are, unpad_by, pkcs7_unpad}

length-copies : (n b : ℕ) → length (copies n b) ≡ n
length-copies zero b = refl
length-copies (suc n) b = omega (arith, length-copies n b)

all_are-copies : (n b : ℕ) → all_are b (copies n b) ≡ true
all_are-copies zero b = refl
all_are-copies (suc n) b = ground (arith, all_are-copies n b, ==_self b)

head_is : (b x : ℕ) (xs : Bytes) → all_are b (x ∷ xs) ≡ true → x ≡ b
head_is b x xs h = ground arith

tail_are : (b x : ℕ) (xs : Bytes) → all_are b (x ∷ xs) ≡ true → all_are b xs ≡ true
tail_are b x xs h = ground arith

copies-all_are : (b : ℕ) (xs : Bytes) → all_are b xs ≡ true → xs ≡ copies (length xs) b
copies-all_are b [] h = refl
copies-all_are b (x ∷ xs) h =
    ap (λ y. y ∷ xs) (head_is b x xs h)
    ∙ ap (λ ys. b ∷ ys) (copies-all_are b xs (tail_are b x xs h))

pad_len-rest : (size n : ℕ) → 0 < size → pad_len size n ≡ size - n % size
pad_len-rest size n h = ground (arith, mod-lt n h)

-- The padding fills the last block.
pad_len-fills :
    (size n : ℕ)
    → 0 < size
    → (0 < pad_len size n) × (pad_len size n ≤ size) × ((n + pad_len size n) % size ≡ 0)
pad_len-fills size n h =
    let e : pad_len size n ≡ size - n % size = pad_len-rest size n h in
    let lt : n % size < size = mod-lt n h in
    (
      omega (arith, e, lt),
      omega (arith, e, lt),
      ap (λ p. (n + p) % size) e
          ∙ sym (mod-add-mod n size (size - n % size))
          ∙ ap (λ s. s % size) (omega (arith, lt))
          ∙ mod_self size,
    )

below_or : (a b : ℕ) → (a < b) ⊎ (b ≤ a)
below_or a b = ground arith

pad_len_unique : (size n p : ℕ) → 0 < p → p ≤ size → (n + p) % size ≡ 0 → pad_len size n ≡ p
pad_len_unique size n p h l e =
    let lt : n % size < size = mod-lt n (omega arith) in
    let zero_mod : (n % size + p) % size ≡ 0 = mod-add-mod n size p ∙ e in
    pad_len-rest size n (omega arith) ∙ elim (below_or (n % size + p) size) [
      | inl small ↦ absurd (omega (arith, zero_mod, mod-eq_of_lt small))
      | inr large ↦ omega (
        arith,
        lt,
        zero_mod,
        large,
        mod-eq-sub-mod large,
        mod-eq_of_lt {n = n % size + p - size} {m = size} (omega (arith, lt)),
      )
    ]

last_of_copies :
    (xs : Bytes) (n b : ℕ) → 0 < n → get_or (xs ++ copies n b) (length (xs ++ copies n b) - 1) 0 ≡ b
last_of_copies [] (suc zero) b h = refl
last_of_copies [] (suc (suc n)) b h = ground (arith, last_of_copies [] (suc n) b (omega arith))
last_of_copies [] zero b h = absurd (omega arith)
last_of_copies (x ∷ xs) n b h =
    let ys = xs ++ copies n b in
    let e : suc (length ys) - 1 ≡ suc (length ys - 1) =
      omega (arith, length-append xs (copies n b), length-copies n b) in
    ap (λ i. get_or (x ∷ ys) i 0) e ∙ last_of_copies xs n b h

unpad_by-pad :
    (xs : Bytes) (size n : ℕ) → 0 < n → n ≤ size → unpad_by n (xs ++ copies n n) size ≡ some xs
unpad_by-pad xs size n h l =
    let len : length (xs ++ copies n n) - n ≡ length xs =
      omega (arith, length-append xs (copies n n), length-copies n n) in
    ground (
      arith,
      length-append xs (copies n n),
      length-copies n n,
      ap (λ k. all_are n (drop k (xs ++ copies n n))) len,
      ap (all_are n) (drop-append (length xs) xs (copies n n) refl),
      all_are-copies n n,
      ap (λ k. take k (xs ++ copies n n)) len,
      take-append (length xs) xs (copies n n) refl,
    )

checked :
    {A : Type 0} (ys : Bytes) (size : ℕ) (x y : A)
    → 0 < length ys
    → length ys % size ≡ 0
    → (if length ys == 0 || not (length ys % size == 0) then x else y) ≡ y
checked ys size x y h e = ground arith

unpad-copies :
    (xs : Bytes) (size n : ℕ)
    → 0 < n
    → n ≤ size
    → (length xs + n) % size ≡ 0
    → pkcs7_unpad (xs ++ copies n n) size ≡ some xs
unfolding pkcs7_unpad
unpad-copies xs size n h l fills =
    let ys = xs ++ copies n n in
    let len : length ys ≡ length xs + n =
      omega (arith, length-append xs (copies n n), length-copies n n) in
    checked ys size _ _ (omega (arith, len)) (ap (λ k. k % size) len ∙ fills)
    ∙ ap (λ b. unpad_by b ys size) (last_of_copies xs n n h)
    ∙ unpad_by-pad xs size n h l

unpad-pad :
    (xs : Bytes) (size : ℕ) → 0 < size → size < 256 → pkcs7_unpad (pkcs7_pad xs size) size ≡ some xs
unfolding pkcs7_pad
unpad-pad xs size h small =
    let n = pad_len size (length xs) in
    let (pos_n, le, fills) = pad_len-fills size (length xs) h in
    subst (λ b. pkcs7_unpad (xs ++ copies n b) size ≡ some xs)
      (sym (mod-eq_of_lt (omega (arith, le)))) (unpad-copies xs size n pos_n le fills)

unpad_by-is_padded :
    (xs ys : Bytes) (size n : ℕ)
    → unpad_by n ys size ≡ some xs
    → (0 < n) × (n ≤ size) × (n ≤ length ys) × (ys ≡ xs ++ copies n n)
unpad_by-is_padded xs ys size n e =
    let all : all_are n (drop (length ys - n) ys) ≡ true = ground arith in
    let le : n ≤ length ys = ground arith in
    let prefix : take (length ys - n) ys ≡ xs = ground arith in
    (
      ground arith,
      ground arith,
      le,
      sym (take-append-drop (length ys - n) ys)
          ∙ ap (λ p. p ++ drop (length ys - n) ys) prefix
          ∙ ap (λ p. xs ++ p)
              (copies-all_are n (drop (length ys - n) ys) all
                ∙ ap (λ k. copies k n) (omega (arith, length-drop (length ys - n) ys, le))),
    )

whole_blocks :
    (ys : Bytes) (size : ℕ) (xs : Bytes)
    → pkcs7_unpad ys size ≡ some xs
    → (length ys % size ≡ 0) × (unpad_by (get_or ys (length ys - 1) 0) ys size ≡ some xs)
unfolding pkcs7_unpad
whole_blocks ys size xs e =
    if_split
      (λ o.
        o ≡ some xs
        → (length ys % size ≡ 0) × (unpad_by (get_or ys (length ys - 1) 0) ys size ≡ some xs))
      (length ys == 0 || not (length ys % size == 0)) none _ (λ p q. absurd (ground arith))
      (λ p q. (ground arith, q)) e

pad-unpad :
    (xs ys : Bytes) (size : ℕ)
    → 0 < size
    → size < 256
    → pkcs7_unpad ys size ≡ some xs
    → pkcs7_pad xs size ≡ ys
unfolding pkcs7_pad
pad-unpad xs ys size h small e =
    let (whole, by_last) = whole_blocks ys size xs e in
    let n = get_or ys (length ys - 1) 0 in
    let (pos_n, le, le_length, padded) = unpad_by-is_padded xs ys size n by_last in
    let len : length ys ≡ length xs + n =
      ap length padded ∙ omega (arith, length-append xs (copies n n), length-copies n n) in
    let same : pad_len size (length xs) ≡ n =
      pad_len_unique size (length xs) n pos_n le (sym (ap (λ k. k % size) len) ∙ whole) in
    ap (λ p. xs ++ copies p (p % 256)) same
    ∙ ap (λ b. xs ++ copies n b) (mod-eq_of_lt (omega (arith, le)))
    ∙ sym padded

-- For a block size from 1 to 255: taking the padding off some bytes gives others exactly when they are
-- those padded. So padding is undone, and what is not a padded text is refused.
pub pkcs7_unpad-pkcs7_pad :
    (xs ys : Bytes) (size : ℕ)
    → 0 < size
    → size < 256
    → (pkcs7_unpad ys size ≡ some xs) ↔ (pkcs7_pad xs size ≡ ys)
pkcs7_unpad-pkcs7_pad xs ys size h small = (
  pad-unpad xs ys size h small,
  λ e. ap (λ y. pkcs7_unpad y size) (sym e) ∙ unpad-pad xs size h small,
)
