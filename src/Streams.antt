-- ===== src/Streams.antt =====
-- streams/: the Go side of the streams. The ReadableStream itself is another project's, so what the code
-- calls on its controller is an event.
pub mod Reader
pub mod Chunks
pub mod Writer
pub mod Text
