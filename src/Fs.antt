-- ===== src/Fs.antt =====
-- fs/: what is modelled of it is the state of an open file.
pub mod Handle
