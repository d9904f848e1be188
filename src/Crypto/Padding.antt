-- ===== src/Crypto/Padding.antt =====
-- crypto/legacy_cipher_helpers.go: the padding of PKCS #7. The callers give block sizes above 0; at 0 the
-- source would divide by it.
pub mod Exact
use goja_ext.Prelude.{
  ℕ, zero, suc, ◌+◌, ◌-◌, ◌%◌, ◌≤◌, ◌<◌, Bool, true, false, not, ◌&&◌, ◌||◌, List, [], ◌∷◌, ◌++◌,
  Option, none, some, Bytes, ltb, leb, ◌==◌, if◌then◌else◌, length, take, drop, get_or, map,
}

-- `bytes.Repeat([]byte{b}, n)`
abbrev pub copies : ℕ → ℕ → Bytes
copies zero b = []
copies (suc n) b = b ∷ copies n b

-- The length of the padding. A remainder is less than the block size, so the source's test for 0 is
-- never met with a block size above 0.
abbrev pub pad_len : ℕ → ℕ → ℕ
pad_len size n = let rest = size - n % size in if rest == 0 then size else rest

unfoldable pub pkcs7_pad : Bytes → ℕ → Bytes
pkcs7_pad data_bytes size =
    let n = pad_len size (length data_bytes) in data_bytes ++ copies n (n % 256)

abbrev pub all_are : ℕ → Bytes → Bool
all_are b [] = true
all_are b (x ∷ xs) = x == b && all_are b xs

-- The checks of pkcs7Unpad's length byte and of the bytes from there on.
abbrev pub unpad_by : ℕ → Bytes → ℕ → Option Bytes
unpad_by n data_bytes size =
    if leb n 0 || ltb size n || ltb (length data_bytes) n
    then none
    else if all_are n (drop (length data_bytes - n) data_bytes)
    then some (take (length data_bytes - n) data_bytes)
    else none

unfoldable pub pkcs7_unpad : Bytes → ℕ → Option Bytes
pkcs7_unpad data_bytes size =
    if length data_bytes == 0 || not (length data_bytes % size == 0)
    then none
    else unpad_by (get_or data_bytes (length data_bytes - 1) 0) data_bytes size
