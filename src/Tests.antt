-- ===== src/Tests.antt =====
-- Runs of the model on concrete inputs, and the theorems at inputs that meet their hypotheses.
mod Url
mod Path
mod StringDecoder
mod Kv
mod KvReader
mod EventLoop
mod Buffer
mod Streams
mod Fs
mod Abort
mod WebSocket
mod Crypto
mod Fetch
mod Require
