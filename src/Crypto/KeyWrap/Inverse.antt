-- ===== src/Crypto/KeyWrap/Inverse.antt =====
-- crypto/legacy_cipher_helpers.go: what was wrapped is unwrapped.
use goja_ext.Prelude.{
  ℕ, zero, suc, ◌+◌, ◌-◌, ◌*◌, ◌/◌, ◌%◌, ◌≤◌, not, ◌||◌, List, [], ◌∷◌, ◌++◌, Option, some, Bytes,
  ltb, ◌==◌, equal, equal_iff, if◌then◌else◌, length, take, drop, All, length-append, length-take,
  length-drop, take-append, drop-append, take-append-drop, ◌≡◌, refl, sym, ap, ◌∙◌, arith,
}
use goja_ext.Crypto.KeyWrap.{
  Cipher, Wrapped, wrapped, xor_t, initial_value, key_pieces, join_pieces, wrap_row, unwrap_row,
  wrap_rounds, unwrap_rounds, wrap_with, unwrap_with, aes_key_wrap, aes_key_unwrap,
}
use goja_ext.Crypto.KeyWrap.Xor.{xor_t_twice, length-xor_t}

abbrev pub IsPiece : Bytes → Type 0
IsPiece x = length x ≡ 8

-- What a block cipher of 16 bytes promises.
pub record IsBlockCipher (c : Cipher) : Type 0 where
  pub back : (b : Bytes) → length b ≡ 16 → c.decrypt (c.encrypt b) ≡ b
  pub keeps_length : (b : Bytes) → length b ≡ 16 → length (c.encrypt b) ≡ 16

key_pieces-IsPiece : (n : ℕ) (d : Bytes) → n * 8 ≤ length d → All IsPiece (key_pieces n d)
unfolding key_pieces
key_pieces-IsPiece zero d h = tt
key_pieces-IsPiece (suc n) d h = (
  omega (arith, length-take 8 d),
  key_pieces-IsPiece n (drop 8 d) (omega (arith, length-drop 8 d)),
)

nothing : (d : Bytes) → length d ≡ 0 → d ≡ []
nothing [] h = refl
nothing (x ∷ d) h = absurd (omega (arith, h))

join_pieces-key_pieces : (n : ℕ) (d : Bytes) → n * 8 ≡ length d → join_pieces (key_pieces n d) ≡ d
unfolding key_pieces join_pieces
join_pieces-key_pieces zero d h = sym (nothing d (omega (arith, h)))
join_pieces-key_pieces (suc n) d h =
    ap (λ r. take 8 d ++ r)
      (join_pieces-key_pieces n (drop 8 d) (omega (arith, h, length-drop 8 d)))
    ∙ take-append-drop 8 d

length-key_pieces : (n : ℕ) (d : Bytes) → length (key_pieces n d) ≡ n
unfolding key_pieces
length-key_pieces zero d = refl
length-key_pieces (suc n) d = omega (arith, length-key_pieces n (drop 8 d))

key_pieces-join_pieces :
    (xs : List Bytes) → All IsPiece xs → key_pieces (length xs) (join_pieces xs) ≡ xs
unfolding key_pieces join_pieces
key_pieces-join_pieces [] h = refl
key_pieces-join_pieces (x ∷ xs) (h, hs) =
    ap (λ p. p ∷ key_pieces (length xs) (drop 8 (x ++ join_pieces xs)))
      (take-append 8 x (join_pieces xs) (sym h))
    ∙ ap (λ d. x ∷ key_pieces (length xs) d) (drop-append 8 x (join_pieces xs) (sym h))
    ∙ ap (λ ps. x ∷ ps) (key_pieces-join_pieces xs hs)

length-join_pieces : (xs : List Bytes) → All IsPiece xs → length (join_pieces xs) ≡ length xs * 8
unfolding join_pieces
length-join_pieces [] h = refl
length-join_pieces (x ∷ xs) (h, hs) =
    omega (arith, length-append x (join_pieces xs), h, length-join_pieces xs hs)

-- A register and its pieces, eight bytes each.
abbrev IsState : Bytes × List Bytes → Type 0
IsState s = IsPiece s.0 × All IsPiece s.1

module _ (c : Cipher) (w : IsBlockCipher c) where
  block_length : (a x : Bytes) → IsPiece a → IsPiece x → length (c.encrypt (a ++ x)) ≡ 16
  block_length a x h k = w.keeps_length (a ++ x) (omega (arith, length-append a x, h, k))

  next_register :
      (t : ℕ) (a x : Bytes)
      → IsPiece a
      → IsPiece x
      → IsPiece (xor_t (take 8 (c.encrypt (a ++ x))) t)
  next_register t a x h k =
      length-xor_t (take 8 (c.encrypt (a ++ x))) t
      ∙ omega (arith, length-take 8 (c.encrypt (a ++ x)), block_length a x h k)

  wrap_row-IsState :
      (t : ℕ) (a : Bytes) (xs : List Bytes)
      → IsPiece a
      → All IsPiece xs
      → IsState (wrap_row c t a xs) × (length (wrap_row c t a xs).1 ≡ length xs)
  unfolding wrap_row
  wrap_row-IsState t a [] h hs = ((h, tt), refl)
  wrap_row-IsState t a (x ∷ xs) h (k, ks) =
      let buf = c.encrypt (a ++ x) in
      let ((i, is), len) =
        wrap_row-IsState (suc t) (xor_t (take 8 buf) t) xs (next_register t a x h k) ks in
      ((i, (omega (arith, length-drop 8 buf, block_length a x h k), is)), omega (arith, len))

  unwrap_row-wrap_row :
      (t : ℕ) (a : Bytes) (xs : List Bytes)
      → IsPiece a
      → All IsPiece xs
      → unwrap_row c t (wrap_row c t a xs).0 (wrap_row c t a xs).1 ≡ (a, xs)
  unfolding wrap_row unwrap_row
  unwrap_row-wrap_row t a [] h hs = refl
  unwrap_row-wrap_row t a (x ∷ xs) h (k, ks) =
      let buf = c.encrypt (a ++ x) in
      let a' = xor_t (take 8 buf) t in
      let opens : c.decrypt (xor_t a' t ++ drop 8 buf) ≡ a ++ x =
        ap (λ r. c.decrypt (r ++ drop 8 buf)) (xor_t_twice (take 8 buf) t)
        ∙ ap c.decrypt (take-append-drop 8 buf)
        ∙ w.back (a ++ x) (omega (arith, length-append a x, h, k)) in
      ap
        (λ r. (
          take 8 (c.decrypt (xor_t r.0 t ++ drop 8 buf)),
          drop 8 (c.decrypt (xor_t r.0 t ++ drop 8 buf)) ∷ r.1,
        ))
        (unwrap_row-wrap_row (suc t) a' xs (next_register t a x h k) ks)
      ∙ ap (λ b. (take 8 b, drop 8 b ∷ xs)) opens
      ∙ ap (λ b. (b, drop 8 (a ++ x) ∷ xs)) (take-append 8 a x (sym h))
      ∙ ap (λ b. (a, b ∷ xs)) (drop-append 8 a x (sym h))

  -- The two rows of a round leave pieces, as many as before.
  rounds-IsState :
      (n k : ℕ) (s : Bytes × List Bytes)
      → IsState s
      → IsState (wrap_rounds c n k s) × (length (wrap_rounds c n k s).1 ≡ length s.1)
  unfolding wrap_rounds
  rounds-IsState n zero s h = (h, refl)
  rounds-IsState n (suc k) s h =
      let ((i, is), len) = rounds-IsState n k s h in
      let (after, len_after) = wrap_row-IsState (n * k + 1) _ _ i is in (after, len_after ∙ len)

  unwrap_rounds-wrap_rounds :
      (n k : ℕ) (s : Bytes × List Bytes) → IsState s → unwrap_rounds c n k (wrap_rounds c n k s) ≡ s
  unfolding wrap_rounds unwrap_rounds
  unwrap_rounds-wrap_rounds n zero s h = refl
  unwrap_rounds-wrap_rounds n (suc k) s h =
      let ((i, is), len) = rounds-IsState n k s h in
      ap (unwrap_rounds c n k) (unwrap_row-wrap_row (n * k + 1) _ _ i is)
      ∙ unwrap_rounds-wrap_rounds n k s h

  -- What wrapping makes of a text of n pieces.
  sealed : ℕ → Bytes → Bytes × List Bytes
  sealed n d = wrap_rounds c n 6 (initial_value, key_pieces n d)

  unwrap_with-sealed :
      (n : ℕ) (d : Bytes)
      → n * 8 ≡ length d
      → (length ((sealed n d).0 ++ join_pieces (sealed n d).1) ≡ length d + 8)
        × (unwrap_with (some c) ((sealed n d).0 ++ join_pieces (sealed n d).1) ≡ wrapped d)
  unfolding sealed
  unwrap_with-sealed n d e =
      let ((i, is), len) =
        rounds-IsState n 6 (initial_value, key_pieces n d)
          (refl, key_pieces-IsPiece n d (omega (arith, e))) in
      let s = sealed n d in
      let out = s.0 ++ join_pieces s.1 in
      let count : length s.1 ≡ n = len ∙ length-key_pieces n d in
      let long : length out ≡ length d + 8 =
        omega
          (arith, length-append s.0 (join_pieces s.1), length-join_pieces s.1 is, i, count, e) in
      let same_count : length out / 8 - 1 ≡ n = omega (arith, long, e) in
      let same_pieces : key_pieces (length out / 8 - 1) (drop 8 out) ≡ s.1 =
        ap (λ k. key_pieces k (drop 8 out)) (same_count ∙ sym count)
        ∙ ap (key_pieces (length s.1)) (drop-append 8 s.0 (join_pieces s.1) (sym i))
        ∙ key_pieces-join_pieces s.1 is in
      let opens : unwrap_rounds c (length out / 8 - 1) 6
            (take 8 out, key_pieces (length out / 8 - 1) (drop 8 out))
          ≡ (initial_value, key_pieces n d) =
        ap (λ ps. unwrap_rounds c (length out / 8 - 1) 6 (take 8 out, ps)) same_pieces
        ∙ ap (λ a. unwrap_rounds c (length out / 8 - 1) 6 (a, s.1))
            (take-append 8 s.0 (join_pieces s.1) (sym i))
        ∙ ap (λ k. unwrap_rounds c k 6 s) same_count
        ∙ unwrap_rounds-wrap_rounds n 6 (initial_value, key_pieces n d)
            (refl, key_pieces-IsPiece n d (omega (arith, e))) in
      (
        long,
        ap
              (λ r.
                if equal r.0 initial_value
                then wrapped (join_pieces r.1)
                else goja_ext.Crypto.KeyWrap.bad_integrity)
              opens
            ∙ ap
                (λ b.
                  if b
                  then wrapped (join_pieces (key_pieces n d))
                  else goja_ext.Crypto.KeyWrap.bad_integrity)
                ((equal_iff initial_value initial_value).1 refl)
            ∙ ap wrapped (join_pieces-key_pieces n d e),
      )

-- With a block cipher whose decryption undoes its encryption on blocks of 16 bytes, and a key that it
-- takes: a text of at least 16 bytes, in pieces of 8, is wrapped, into 8 bytes more, and unwrapping with
-- the same key gives it back, past the integrity check.
pub aes_key_unwrap-aes_key_wrap :
    (new_cipher : Bytes → Option Cipher) (kek : Bytes) (c : Cipher) (plaintext : Bytes)
    → new_cipher kek ≡ some c
    → IsBlockCipher c
    → 16 ≤ length plaintext
    → length plaintext % 8 ≡ 0
    → (w : Bytes) × (aes_key_wrap new_cipher kek plaintext ≡ wrapped w)
      × (length w ≡ length plaintext + 8)
      × (aes_key_unwrap new_cipher kek w ≡ wrapped plaintext)
unfolding aes_key_wrap aes_key_unwrap sealed
aes_key_unwrap-aes_key_wrap new_cipher kek c plaintext key good long whole =
    let n = length plaintext / 8 in
    let s = sealed c good n plaintext in
    let (len, opens) = unwrap_with-sealed c good n plaintext (omega (arith, whole)) in
    (
      s.0 ++ join_pieces s.1,
      passes plaintext 16 _ _ long whole ∙ ap (λ k. wrap_with k plaintext) key,
      len,
      passes (s.0 ++ join_pieces s.1) 24 _ _ (omega (arith, len, long)) (omega (arith, len, whole))
          ∙ ap (λ k. unwrap_with k (s.0 ++ join_pieces s.1)) key
          ∙ opens,
    )
  where
    passes :
        (d : Bytes) (least : ℕ) (x y : Wrapped)
        → least ≤ length d
        → length d % 8 ≡ 0
        → (if ltb (length d) least || not (length d % 8 == 0) then x else y) ≡ y
    passes d least x y h e = ground arith
