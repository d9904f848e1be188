-- ===== src/Kv.antt =====
-- cloudflarekv/: what a binding keeps between calls.
pub mod Cache
pub mod Policy
pub mod Bulk
pub mod Reader
pub mod Binding
