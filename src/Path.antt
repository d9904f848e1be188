-- ===== src/Path.antt =====
-- path/: the posix and the win32 flavour of the path functions.
pub mod Segments
pub mod Win32
