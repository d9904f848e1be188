-- ===== src/Streams/Reader.antt =====
-- streams/reader.go: a ReadableStream over an io.ReadCloser. What a call does to the world is an entry of
-- the log, the newest first; a JavaScript value and an error of the reader are numbers that stand for them.
-- Each function is one step, since the loop runs one at a time and the mutex guards the rest; a read is
-- two, the Read on its goroutine and the delivery on the loop.
pub mod Invariant
pub mod Steps
pub mod Sound
pub mod Kept
pub mod Once
use goja_ext.Prelude.{
  ℕ, zero, suc, ◌+◌, Bool, true, false, List, [], ◌∷◌, ◌++◌, Option, none, some, if◌then◌else◌,
  Bytes,
}

-- An `error`: `io.EOF` or another one.
pub data ReadError : Type 0 where
  eof : ReadError
  failure : ℕ → ReadError

pub data StreamEvent : Type 0 where
  reader_read : Bytes → StreamEvent
  reader_closed : StreamEvent
  promise_resolved : ℕ → StreamEvent
  settled_hook : Option ReadError → StreamEvent
  settled_off_hook : Option ReadError → StreamEvent
  cancel_hook : ℕ → StreamEvent
  stream_enqueue : Bytes → StreamEvent
  stream_close : StreamEvent
  stream_error : ℕ → StreamEvent

-- The hooks of `readerConfig`: which are set.
pub record ReaderConfig : Type 0 where
  pub on_settled : Bool
  pub on_settled_off : Bool
  pub on_cancel : Bool
  pub map_error : ReadError → ℕ

-- The stream, the promises made so far, the goroutines inside `Read`, and the results on their way to the
-- loop.
pub record ReaderStream : Type 0 where
  pub settled : Bool
  pub settle : Option ℕ
  pub controller : Bool
  pub closed : Bool
  pub promises : ℕ
  pub reading : ℕ
  pub results : List (Bytes × Option ReadError)
  pub log : List StreamEvent

unfoldable pub new_reader_stream : ReaderStream
new_reader_stream = record {
  settled = false;
  settle = none;
  controller = true;
  closed = false;
  promises = 0;
  reading = 0;
  results = [];
  log = [];
}

abbrev pub emit : StreamEvent → ReaderStream → ReaderStream
emit e s = record s { log = e ∷ s.log }

-- A call that is made only if something is set.
abbrev pub emit_if : Bool → StreamEvent → ReaderStream → ReaderStream
emit_if true e s = emit e s
emit_if false e s = s

abbrev pub resolve_settle : Option ℕ → ReaderStream → ReaderStream
resolve_settle none s = s
resolve_settle (some promise) s = emit (promise_resolved promise) s

abbrev pub close_reader_at : Bool → ReaderStream → ReaderStream
close_reader_at true s = s
close_reader_at false s = record s { closed = true; log = reader_closed ∷ s.log }

unfoldable pub close_reader : ReaderStream → ReaderStream
close_reader s = close_reader_at s.closed s

-- The error of `Close`, if this call is the one that closes.
abbrev pub close_error : Bool → Option ReadError → Option ReadError
close_error true err = none
close_error false err = err

-- `s.settled = true; settle := s.settle; s.settle = nil`
abbrev pub mark_settled : ReaderStream → ReaderStream
mark_settled s = record s { settled = true; settle = none }

abbrev pub error_at : ReaderConfig → ℕ → Bool → ReaderStream → ReaderStream
error_at config reason true s = s
error_at config reason false s = emit_if s.controller (stream_error reason) (
    emit_if config.on_settled (settled_hook none)
      (close_reader (resolve_settle s.settle (mark_settled s))))

unfoldable pub error : ReaderConfig → ℕ → ReaderStream → ReaderStream
unfolding close_reader
error config reason s = error_at config reason s.settled s

abbrev pub pull_at : Bool → ReaderStream → ReaderStream
pull_at true s = record s { promises = suc s.promises; log = promise_resolved s.promises ∷ s.log }
pull_at false s = record s {
  promises = suc s.promises;
  settle = some s.promises;
  reading = suc s.reading;
}

unfoldable pub pull : ReaderStream → ReaderStream
pull s = pull_at s.settled s

-- The hook of a cancellation owns closing the reader.
abbrev pub cancel_reader : Bool → ℕ → ReaderStream → ReaderStream
cancel_reader false reason s = close_reader s
cancel_reader true reason s = emit (cancel_hook reason) s

abbrev pub cancel_at : ReaderConfig → ℕ → Bool → ReaderStream → ReaderStream
cancel_at config reason true s = s
cancel_at config reason false s =
    emit_if config.on_settled (settled_hook none)
      (cancel_reader config.on_cancel reason (resolve_settle s.settle (mark_settled s)))

unfoldable pub cancel_stream : ReaderConfig → ℕ → ReaderStream → ReaderStream
unfolding close_reader
cancel_stream config reason s = cancel_at config reason s.settled s

-- The error of a read, in place of which an error of `Close` comes at the end of the input.
abbrev pub replaced : Option ReadError → Option ReadError → Option ReadError
replaced none close_err = none
replaced (some (failure e)) close_err = some (failure e)
replaced (some eof) none = some eof
replaced (some eof) (some err) = some err

abbrev pub close_after_read : Option ReadError → ReaderStream → ReaderStream
close_after_read none s = s
close_after_read (some err) s = close_reader s

-- `readOnce` up to the call of `RunOnLoop`, of one of the goroutines: what `Read` gave, and what `Close`
-- gives.
unfoldable pub read_once :
    Bytes → Option ReadError → Option ReadError → ℕ → ReaderStream → ReaderStream
unfolding close_reader
read_once data_read err close_err rest s =
    let s' = close_after_read err (emit (reader_read data_read) s) in
    record s' {
      reading = rest;
      results = s.results ++ (data_read, replaced err (close_error s.closed close_err)) ∷ [];
    }

abbrev enqueue : Bytes → ReaderStream → ReaderStream
enqueue [] s = s
enqueue (b ∷ bs) s = emit (stream_enqueue (b ∷ bs)) s

abbrev finish_stream : ReaderConfig → Option ReadError → ReaderStream → ReaderStream
finish_stream config none s = s
finish_stream config (some eof) s = emit stream_close s
finish_stream config (some (failure e)) s = emit (stream_error (config.map_error (failure e))) s

abbrev tell_settled : ReaderConfig → Option ReadError → ReaderStream → ReaderStream
tell_settled config none s = s
tell_settled config (some err) s = emit_if config.on_settled (settled_hook (some err)) s

-- `if terminal { s.settled = true }; settle := s.settle; s.settle = nil`
abbrev pub take_settle : Option ReadError → ReaderStream → ReaderStream
take_settle none s = record s { settle = none }
take_settle (some err) s = mark_settled s

abbrev pub deliver_to :
    ReaderConfig → Bool → Bytes → Option ReadError → Option ℕ → ReaderStream → ReaderStream
deliver_to config false bytes err settle s = resolve_settle settle s
deliver_to config true bytes err settle s =
    resolve_settle settle (finish_stream config err (enqueue bytes (tell_settled config err s)))

abbrev pub deliver_at : ReaderConfig → Bytes → Option ReadError → Bool → ReaderStream → ReaderStream
deliver_at config bytes err true s = s
deliver_at config bytes err false s =
    deliver_to config s.controller bytes err s.settle (take_settle err s)

-- The delivery of one result, with those that remain on their way.
unfoldable pub deliver :
    ReaderConfig
    → Bytes
    → Option ReadError
    → List (Bytes × Option ReadError)
    → ReaderStream
    → ReaderStream
deliver config bytes err rest s =
    deliver_at config bytes err s.settled (record s { results = rest })

abbrev pub abandon_at : ReaderConfig → Option ReadError → Bool → ReaderStream → ReaderStream
abandon_at config err true s = s
abandon_at config err false s =
    emit_if config.on_settled_off (settled_off_hook err) (close_reader (mark_settled s))

-- The same of a result that the loop does not take any more.
unfoldable pub abandon :
    ReaderConfig → Option ReadError → List (Bytes × Option ReadError) → ReaderStream → ReaderStream
unfolding close_reader
abandon config err rest s = abandon_at config err s.settled (record s { results = rest })
