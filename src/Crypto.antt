-- ===== src/Crypto.antt =====
-- crypto/: the parts that are the repository's own: padding, key wrapping and usages of keys. The block
-- ciphers and the key formats are the Go library's.
pub mod Padding
pub mod KeyWrap
pub mod Usages
