-- ===== src/Tests/Crypto.antt =====
-- Runs of crypto/.
use mathlib.Core.List.{reverse, reverse-reverse}
use goja_ext.Prelude.{
  ℕ, suc, ◌+◌, Bool, false, List, [], ◌∷◌, ◌++◌, some, none, Option, Bytes, codes, length,
  length-reverse, ◌≡◌, refl, sym, ◌∙◌, ◌↔◌, inl, inr, arith,
}
use goja_ext.Crypto.Padding.{pkcs7_pad, pkcs7_unpad}
use goja_ext.Crypto.Padding.Exact.{pkcs7_unpad-pkcs7_pad}
use goja_ext.Crypto.KeyWrap.{Cipher, wrapped, aes_key_wrap, aes_key_unwrap, triple_des_key}
use goja_ext.Crypto.KeyWrap.Inverse.{IsBlockCipher, aes_key_unwrap-aes_key_wrap}

pad_run : pkcs7_pad (codes "abcdef") 8 ≡ codes "abcdef" ++ 2 ∷ 2 ∷ []
unfolding pkcs7_pad
pad_run = refl

unpad_run : pkcs7_unpad (codes "abcdef" ++ 3 ∷ 2 ∷ []) 8 ≡ none
unfolding pkcs7_unpad
unpad_run = refl

pkcs7_unpad-pkcs7_pad_example :
    (pkcs7_unpad (codes "abcdef" ++ 2 ∷ 2 ∷ []) 8 ≡ some (codes "abcdef"))
    ↔ (pkcs7_pad (codes "abcdef") 8 ≡ codes "abcdef" ++ 2 ∷ 2 ∷ [])
pkcs7_unpad-pkcs7_pad_example =
    pkcs7_unpad-pkcs7_pad (codes "abcdef") (codes "abcdef" ++ 2 ∷ 2 ∷ []) 8 (omega arith)
      (omega arith)

-- A cipher for runs: the block from its end.
abbrev backwards : Cipher
backwards = record { encrypt = reverse; decrypt = reverse }

abbrev any_key : Bytes → Option Cipher
any_key kek = some backwards

backwards-IsBlockCipher : IsBlockCipher backwards
backwards-IsBlockCipher = record {
  back = λ b h. reverse-reverse b;
  keeps_length = λ b h. length-reverse b ∙ h;
}

abbrev secret : Bytes
secret = codes "sixteen byte key"

aes_key_unwrap-aes_key_wrap_example :
    (w : Bytes) × (aes_key_wrap any_key (codes "kek") secret ≡ wrapped w)
    × (length w ≡ length secret + 8)
    × (aes_key_unwrap any_key (codes "kek") w ≡ wrapped secret)
aes_key_unwrap-aes_key_wrap_example =
    aes_key_unwrap-aes_key_wrap any_key (codes "kek") backwards secret refl backwards-IsBlockCipher
      (omega arith) refl

triple_des_run : triple_des_key secret ≡ some (secret ++ codes "sixteen ")
unfolding triple_des_key
triple_des_run = refl
