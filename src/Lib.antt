-- ===== src/Lib.antt =====
-- The goja_ext library: Node.js and Web Platform modules for the Goja runtime, in Go.
--
-- Parts and files.
-- - EventLoop (eventloop/eventloop.go): the timers, intervals and immediates of a loop, the queue of
--   auxiliary jobs, Terminate, and the loop that Run starts. A pointer to a job is a position in
--   `store`; `jobs` is the slice of the source and `job_count` its counter. `step` is one call from
--   JavaScript or Go, one firing of a timer or ticker, or the next queued task; `run` reads a list of
--   what its select meets. A callback does what the operations that follow it in the list do.
-- - Url.Escape (url/escape.go): the two escape tables, escape and unescapeSearchParam over bytes.
-- - Url.Params (url/nodeurl.go, url/urlsearchparams.go): the search parameters, their text form, and
--   the methods of URLSearchParams that change them; `NodeUrl` holds the query of the URL that they
--   belong to.
-- - Path.Win32 (path/win32.go): every function of the win32 flavour over bytes; Path.Segments holds
--   what does not depend on the separator.
-- - Kv.Cache (cloudflarekv/cache.go): the LRU cache, its map and its list, and getRecordCached; an
--   answer of the store is an argument.
-- - Kv.Policy (cloudflarekv/policy.go): the limits on keys, values and options, and the write rate of
--   beginWrite; the length of what json.Marshal gives is a parameter.
-- - Kv.Bulk (cloudflarekv/bulk.go): the loops of getManyPromise; what the store is asked for is answered
--   by a function that is a parameter.
-- - StringDecoder (string_decoder/module.go): the decoder's pending bytes and each of its calls; the record
--   `Library` stands for the functions of Go's libraries that it calls.
-- - Kv.Reader (cloudflarekv/cache.go): cachingReadCloser; what the body gives is an argument.
-- - Kv.Binding (cloudflarekv/policy.go): the state of a new binding, and validateListOptions.
-- - Args (goutil/argtypes.go): the checks of JavaScript arguments; a number is a record of what the code
--   reads of it, and an error is a value.
-- - Buffer (buffer/buffer.go): the bytes of a buffer are a list. Access has the offsets, with the wrap of
--   int64 sums, and the slices; Words the package encoding/binary; Fixed and Variable the methods that
--   read and write numbers, the first of which Table names; Text has alloc, concat, toString and
--   write. The codecs, and the conversion of JavaScript values, are parameters. The loop of fill runs on
--   fuel, for which the length of the buffer is enough.
-- - Streams (streams/reader.go, streams/writer.go): Reader is the stream over an io.ReadCloser, whose
--   functions are steps on its state with a log of what they do to the world; Chunks is the stream over
--   bytes, and Writer the loop of writeAll, with fuel for the bytes. The ReadableStream, which is another
--   project's, is assumed to pull only when its last pull is resolved.
-- - Streams.Text (streams/text.go): decodeUTF8 with its byte order mark; utf8.Valid is a parameter, and the
--   loop has fuel for the bytes.
-- - Fs.Handle (fs/core.go): the state of a FileHandle that goroutines share; a step is what one of them
--   does between taking and giving back the lock of the state, or one call on the file.
-- - Abort (abort/abort.go): the signal of an AbortController with its listeners.
-- - WebSocket (websocket/websocket.go): a connection's shared state and its critical sections; Steps puts
--   them in the order of connect, readPump, closeInternal and Send, in every interleaving; Manager and
--   Listeners are the module's connections and a connection's handlers. The dialer and the transport
--   answer from outside.
-- - Crypto (crypto/legacy_cipher_helpers.go, crypto/usage_policy.go): the padding of PKCS #7, the AES key
--   wrap over a block cipher that is a parameter, and the usages of key pairs, where the order in which
--   Go goes over a map is a parameter.
-- - Fetch.Upload (fetch/upload.go): the body that a script's stream gives. Its state is that of the
--   source and where each of its goroutines stands; a step is one critical section.
-- - Require (require/resolve.go, require/module.go): Load is the search for a module and the caches, for a
--   function that runs a file; Run ties the knot, for scripts that are lists of requires, on a bound for
--   nested calls that is any number, as the engine's stack is. The loop over the parents of a folder has
--   a bound too, for which a number above the depth of the folder is enough.
-- - Prelude: names passed on, Boolean tests, lists and byte strings over the native numbers, with
--   Go's functions of package strings.
-- - Tests: runs on concrete inputs, and instances of the theorems.
--
-- The most bytes that Go's make gives, beyond which it faults, are a parameter of concat and alloc.
-- Strings are lists of bytes, numbers below 256. Numbers without a bound in the model (lengths, the
-- number of jobs) stay far below the width that the source gives them. The loops on
-- fuel are that of Terminate, where more than the number of jobs in the slice is enough; that of the
-- cache's put, where the number of elements is; those of the decoders, of writeAll and of the pulls of a
-- stream over bytes, where each round takes a byte or more; and that of fill, where each round fills one.
--
-- Not modelled: JavaScript values and objects and their conversion, panics of callbacks and logging,
-- the loaders of modules in Go (which are taken not to require others and not to panic), network and
-- file access, ciphers and hashes, and embedded JavaScript. Stop and Start of the event loop are left
-- out; what goroutines do to a loop, a stream or a file handle is one of its operations, at any time.
pub mod Prelude
pub mod Url
pub mod Args
pub mod Buffer
pub mod Streams
pub mod Fs
pub mod Abort
pub mod EventLoop
pub mod Kv
pub mod Path
pub mod StringDecoder
mod Tests
pub mod WebSocket
pub mod Crypto
pub mod Fetch
pub mod Require
