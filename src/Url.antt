-- ===== src/Url.antt =====
-- url/: escaping of query components, and the search parameters.
pub mod Escape
pub mod Params
