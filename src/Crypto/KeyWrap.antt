-- ===== src/Crypto/KeyWrap.antt =====
-- crypto/legacy_cipher_helpers.go: the AES key wrap, and the keys of triple DES. The block cipher is the Go
-- library's.
pub mod Xor
pub mod Inverse
use Prim.Native.Nat.{bit_xor}
use mathlib.Core.List.{reverse}
use goja_ext.Prelude.{
  ℕ, zero, suc, ◌+◌, ◌-◌, ◌*◌, ◌/◌, ◌%◌, Bool, not, ◌||◌, List, [], ◌∷◌, ◌++◌, Option, none, some,
  Bytes, ltb, ◌==◌, equal, if◌then◌else◌, length, take, drop,
}
use goja_ext.Crypto.Padding.{copies}

pub record Cipher : Type 0 where
  pub encrypt : Bytes → Bytes
  pub decrypt : Bytes → Bytes

pub data Wrapped : Type 0 where
  wrapped : Bytes → Wrapped
  bad_length bad_key bad_integrity : Wrapped

-- From the last byte to the first, with the low byte of the counter and the counter shifted.
unfoldable pub xor_back : Bytes → ℕ → Bytes
xor_back [] t = []
xor_back (x ∷ xs) t = bit_xor x (t % 256) ∷ xor_back xs (t / 256)

unfoldable pub xor_t : Bytes → ℕ → Bytes
xor_t a t = reverse (xor_back (reverse a) t)

abbrev pub initial_value : Bytes
initial_value = copies 8 0xA6

-- `r`, that many pieces of eight bytes.
unfoldable pub key_pieces : ℕ → Bytes → List Bytes
key_pieces zero d = []
key_pieces (suc n) d = take 8 d ∷ key_pieces n (drop 8 d)

unfoldable pub join_pieces : List Bytes → Bytes
join_pieces [] = []
join_pieces (x ∷ xs) = x ++ join_pieces xs

-- A round goes over the pieces from the first to the last, and back from the last to the first.
unfoldable pub wrap_row : Cipher → ℕ → Bytes → List Bytes → Bytes × List Bytes
wrap_row c t a [] = (a, [])
wrap_row c t a (x ∷ xs) =
    let buf = c.encrypt (a ++ x) in
    let rest = wrap_row c (suc t) (xor_t (take 8 buf) t) xs in (rest.0, drop 8 buf ∷ rest.1)

unfoldable pub unwrap_row : Cipher → ℕ → Bytes → List Bytes → Bytes × List Bytes
unwrap_row c t a [] = (a, [])
unwrap_row c t a (x ∷ xs) =
    let rest = unwrap_row c (suc t) a xs in
    let buf = c.decrypt (xor_t rest.0 t ++ x) in (take 8 buf, drop 8 buf ∷ rest.1)

-- The rounds 0 to j - 1, and back.
unfoldable pub wrap_rounds : Cipher → ℕ → ℕ → Bytes × List Bytes → Bytes × List Bytes
wrap_rounds c n zero s = s
wrap_rounds c n (suc j) s =
    let before = wrap_rounds c n j s in wrap_row c (n * j + 1) before.0 before.1

unfoldable pub unwrap_rounds : Cipher → ℕ → ℕ → Bytes × List Bytes → Bytes × List Bytes
unwrap_rounds c n zero s = s
unwrap_rounds c n (suc j) s = unwrap_rounds c n j (unwrap_row c (n * j + 1) s.0 s.1)

abbrev pub wrap_with : Option Cipher → Bytes → Wrapped
wrap_with none plaintext = bad_key
wrap_with (some c) plaintext =
    let n = length plaintext / 8 in
    let s = wrap_rounds c n 6 (initial_value, key_pieces n plaintext) in
    wrapped (s.0 ++ join_pieces s.1)

abbrev pub unwrap_with : Option Cipher → Bytes → Wrapped
unwrap_with none ciphertext = bad_key
unwrap_with (some c) ciphertext =
    let n = length ciphertext / 8 - 1 in
    let s = unwrap_rounds c n 6 (take 8 ciphertext, key_pieces n (drop 8 ciphertext)) in
    if equal s.0 initial_value then wrapped (join_pieces s.1) else bad_integrity

-- `aes.NewCipher`
module _ (new_cipher : Bytes → Option Cipher) where
  unfoldable pub aes_key_wrap : Bytes → Bytes → Wrapped
  aes_key_wrap kek plaintext =
      if ltb (length plaintext) 16 || not (length plaintext % 8 == 0)
      then bad_length
      else wrap_with (new_cipher kek) plaintext

  unfoldable pub aes_key_unwrap : Bytes → Bytes → Wrapped
  aes_key_unwrap kek ciphertext =
      if ltb (length ciphertext) 24 || not (length ciphertext % 8 == 0)
      then bad_length
      else unwrap_with (new_cipher kek) ciphertext

-- Two keys of eight bytes stand for three.
unfoldable pub triple_des_key : Bytes → Option Bytes
triple_des_key raw =
    if length raw == 24
    then some raw
    else if length raw == 16
    then some (raw ++ take 8 raw)
    else none
