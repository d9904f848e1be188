-- ===== src/Streams/Reader/Invariant.antt =====
-- What is true of a stream however pulls, reads, deliveries, cancellations and errors follow each other.
use goja_ext.Prelude.{
  ℕ, ◌+◌, ◌≤◌, Bool, true, false, List, [], ◌∷◌, ◌++◌, Option, none, some, Bytes, length, ◌≡◌, refl,
  arith,
}
use goja_ext.Streams.Reader.{
  ReadError, StreamEvent, reader_read, reader_closed, settled_hook, settled_off_hook,
  stream_enqueue, stream_close, stream_error, ReaderStream, new_reader_stream,
}

-- How often the log has an event of a kind.
abbrev pub is_closing : StreamEvent → ℕ
is_closing reader_closed = 1
is_closing e = 0

abbrev pub is_settling : StreamEvent → ℕ
is_settling (settled_hook err) = 1
is_settling (settled_off_hook err) = 1
is_settling e = 0

abbrev pub is_end : StreamEvent → ℕ
is_end stream_close = 1
is_end (stream_error reason) = 1
is_end e = 0

abbrev pub is_stream_close : StreamEvent → ℕ
is_stream_close stream_close = 1
is_stream_close e = 0

abbrev pub times : (StreamEvent → ℕ) → List StreamEvent → ℕ
times kind [] = 0
times kind (e ∷ log) = kind e + times kind log

-- The bytes that the reader gave, and those that the stream was given, in the order of time.
abbrev pub read_bytes : List StreamEvent → Bytes
read_bytes [] = []
read_bytes (reader_read given ∷ log) = read_bytes log ++ given
read_bytes (e ∷ log) = read_bytes log

abbrev pub enqueued : List StreamEvent → Bytes
enqueued [] = []
enqueued (stream_enqueue chunk ∷ log) = enqueued log ++ chunk
enqueued (e ∷ log) = enqueued log

abbrev pub bit : Bool → ℕ
bit true = 1
bit false = 0

abbrev pub pending : Option ℕ → ℕ
pending none = 0
pending (some promise) = 1

abbrev pub on_the_way : List (Bytes × Option ReadError) → Bytes
on_the_way [] = []
on_the_way ((bytes, err) ∷ rest) = bytes ++ on_the_way rest

pub record IsSound (s : ReaderStream) : Type 0 where
  pub has_controller : s.controller ≡ true
  pub closings : times is_closing s.log ≡ bit s.closed
  pub settlings : times is_settling s.log ≡ bit s.settled
  pub ends : times is_end s.log ≤ bit s.settled
  pub no_promise : s.settled ≡ true → s.settle ≡ none
  pub one_read : s.reading + length s.results ≤ 1
  pub awaited : s.settled ≡ false → s.reading + length s.results ≡ pending s.settle
  pub in_order : s.settled ≡ false → enqueued s.log ++ on_the_way s.results ≡ read_bytes s.log
  pub whole :
      1 ≤ times is_stream_close s.log
      → (s.settled ≡ true)
        × (s.reading + length s.results ≡ 0)
        × (enqueued s.log ≡ read_bytes s.log)

pub new-IsSound : IsSound new_reader_stream
unfolding new_reader_stream
new-IsSound = record {
  has_controller = refl;
  closings = refl;
  settlings = refl;
  ends = omega arith;
  no_promise = λ h. refl;
  one_read = omega arith;
  awaited = λ h. refl;
  in_order = λ h. refl;
  whole = λ h. absurd (omega (arith, h));
}
