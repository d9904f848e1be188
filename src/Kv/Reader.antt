-- ===== src/Kv/Reader.antt =====
-- cloudflarekv/cache.go: cachingReadCloser, which fills the cache while a body is read. What the body's
-- `Read` gives, its bytes and whether it ends there, is an argument.
pub mod Filled
use goja_ext.Prelude.{
  ℕ, ◌+◌, Bool, true, false, not, ◌&&◌, List, [], ◌∷◌, ◌++◌, Option, some, leb, ltb, if◌then◌else◌,
  length, Bytes,
}
use goja_ext.Kv.Cache.{Record, LruCache, put}

-- `done` is the state of `once`.
pub record CachingReader : Type 0 where
  pub key : Bytes
  pub metadata : Bytes
  pub expiration : Option ℕ
  pub ttl : ℕ
  pub buffer : Bytes
  pub maximum : ℕ
  pub cacheable : Bool
  pub done : Bool

-- The bytes that `Read` adds to the buffer.
unfoldable pub fill : Bytes → CachingReader → CachingReader
fill chunk r =
    if ltb 0 (length chunk) && r.cacheable
    then (if leb (length r.buffer + length chunk + length r.key + length r.metadata) r.maximum
        then record r { buffer = r.buffer ++ chunk }
        else record r { cacheable = false; buffer = [] })
    else r

abbrev pub read_record : CachingReader → Record
read_record r = record {
  key = r.key;
  value = r.buffer;
  metadata = r.metadata;
  expiration = r.expiration;
}

-- The end of `Read`; the flag is `err == io.EOF`.
abbrev pub finish : ℕ → Bool → CachingReader → Option LruCache → CachingReader × Option LruCache
finish now eof r c =
    if eof && (r.cacheable && not r.done)
    then (record r { done = true }, put now r.key (read_record r) true r.ttl c)
    else (r, c)

-- `Read`
unfoldable pub read :
    ℕ → Bytes → Bool → CachingReader → Option LruCache → CachingReader × Option LruCache
unfolding fill put
read now chunk eof r c = finish now eof (fill chunk r) c

-- Reads of a whole body: chunks without an end, then one with it.
unfoldable pub read_body :
    ℕ → List Bytes → Bytes → CachingReader → Option LruCache → CachingReader × Option LruCache
unfolding read
read_body now [] last r c = read now last true r c
read_body now (chunk ∷ chunks) last r c =
    let (r', c') = read now chunk false r c in read_body now chunks last r' c'
