-- ===== src/Buffer.antt =====
-- buffer/buffer.go: the typed array's bytes are a list; a method that writes gives the new bytes with its
-- result.
pub mod Text
pub mod Words
pub mod Access
pub mod Fixed
pub mod Table
pub mod Variable
use goja_ext.Prelude.{ℕ, Bytes}
