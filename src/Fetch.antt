-- ===== src/Fetch.antt =====
-- fetch/: the body of a request that a script's stream gives.
pub mod Upload
