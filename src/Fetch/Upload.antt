-- ===== src/Fetch/Upload.antt =====
-- fetch/upload.go: what an uploadBody keeps, and its functions cut at their critical sections. The
-- functions named OnLoop run on the event loop, Read and Close on goroutines of the HTTP client.
pub mod Steps
pub mod Balance
pub mod Sound
pub mod Whole
pub mod Delivered
use goja_ext.Prelude.{
  ℕ, zero, suc, Bool, true, false, List, [], ◌∷◌, ◌++◌, Option, none, some, Bytes, take, drop,
  if◌then◌else◌,
}

-- `uploadItem`: a chunk, an error, or the end.
pub data UploadItem : Type 0 where
  chunk : Bytes → UploadItem
  failed : Bytes → UploadItem
  end_of_stream : UploadItem

-- Where the loop stands within finishOnLoop, failChunkOnLoop, enqueue and cancelReaderOnLoop.
pub data LoopAt : Type 0 where
  free : LoopAt
  finishing releasing : UploadItem → LoopAt
  failing : Bytes → LoopAt
  enqueuing : UploadItem → (cancels_then : Bool) → LoopAt
  cancelling : LoopAt

-- Whether Read, having cleared the current item, has still to ask for the next one.
pub data ReadAt : Type 0 where
  reading_items scheduling : ReadAt

-- Who runs the body of `abortOnce`.
pub data Aborter : Type 0 where
  by_reader by_signal by_close : Aborter

pub data AbortAt : Type 0 where
  unstarted : AbortAt
  marked closed_by : Aborter → AbortAt
  ended : (closed_aborted : Bool) → AbortAt

pub record Upload : Type 0 where
  pub finished : Bool
  pub abort_at : AbortAt
  -- The channel `aborted`, and how often it was closed.
  pub aborted : Bool
  pub aborted_closes : ℕ
  -- `release`, and how often releaseLock was called.
  pub released : Bool
  pub releases : ℕ
  pub items : List UploadItem
  pub current : Option UploadItem
  pub loop_at : LoopAt
  pub read_at : ReadAt
  -- Functions that wait on the loop, and promises that are not settled.
  pub queued_reads : ℕ
  pub queued_cancels : ℕ
  pub reads : ℕ
  pub cancels : ℕ
  -- What the chunks had that were taken, what Read gave out, and whether it gave io.EOF.
  pub taken : Bytes
  pub given : Bytes
  pub gave_eof : Bool

-- newUploadBody: the first readNextOnLoop is due.
unfoldable pub new_upload_body : Upload
new_upload_body = record {
  finished = false;
  abort_at = unstarted;
  aborted = false;
  aborted_closes = 0;
  released = false;
  releases = 0;
  items = [];
  current = none;
  loop_at = free;
  read_at = reading_items;
  queued_reads = 1;
  queued_cancels = 0;
  reads = 0;
  cancels = 0;
  taken = [];
  given = [];
  gave_eof = false;
}

-- What calling the reader's read and observing its promise comes to.
pub data ReadCall : Type 0 where
  promised : ReadCall
  broken : Bytes → ReadCall

-- readNextOnLoop, one waiting call less.
unfoldable pub read_next_on_loop : ReadCall → Bool → ℕ → Upload → Upload
read_next_on_loop call true k u = record u { queued_reads = k }
read_next_on_loop promised false k u = record u { queued_reads = k; reads = suc u.reads }
read_next_on_loop (broken err) false k u = record u {
  queued_reads = k;
  loop_at = finishing (failed err);
}

-- What the promise of a read is settled with, the chunk converted to bytes.
pub data Settled : Type 0 where
  done_value : Settled
  chunk_value : Bytes → Settled
  bad_chunk rejected : Bytes → Settled

-- The functions that readNextOnLoop gives to `then`, one promise less.
unfoldable pub on_settled : Settled → Bool → ℕ → Upload → Upload
on_settled result true k u = record u { reads = k }
on_settled done_value false k u = record u { reads = k; loop_at = finishing end_of_stream }
on_settled (chunk_value b) false k u = record u {
  reads = k;
  loop_at = enqueuing (chunk b) false;
  taken = u.taken ++ b;
}
on_settled (bad_chunk err) false k u = record u { reads = k; loop_at = failing err }
on_settled (rejected reason) false k u = record u { reads = k; loop_at = finishing (failed reason) }

-- The critical sections of finishOnLoop and failChunkOnLoop.
unfoldable pub finish_on_loop : UploadItem → Bool → Upload → Upload
finish_on_loop item true u = record u { loop_at = free }
finish_on_loop item false u = record u { finished = true; loop_at = releasing item }

unfoldable pub fail_chunk_on_loop : Bytes → Bool → Upload → Upload
fail_chunk_on_loop err true u = record u { loop_at = free }
fail_chunk_on_loop err false u = record u { finished = true; loop_at = enqueuing (failed err) true }

unfoldable pub release_reader_on_loop : Bool → Upload → Upload
release_reader_on_loop true u = u
release_reader_on_loop false u = record u { released = true; releases = suc u.releases }

abbrev pub after_enqueue : Bool → LoopAt
after_enqueue true = cancelling
after_enqueue false = free

-- cancelReaderOnLoop: the call fails, or its promise is awaited.
unfoldable pub cancel_reader_on_loop : (promised_cancel : Bool) → Upload → Upload
cancel_reader_on_loop true u = record u { cancels = suc u.cancels }
cancel_reader_on_loop false u = release_reader_on_loop u.released u

-- The section of clearCurrentAndReadNext.
unfoldable pub clear_current : Bool → Upload → Upload
clear_current true u = record u { current = none }
clear_current false u = record u { current = none; read_at = scheduling }

-- What Read does with the current item, for a target of `suc k` bytes.
abbrev pub serve_rest : Bytes → Upload → Upload
serve_rest [] u = clear_current u.finished u
serve_rest (b ∷ rest) u = record u { current = some (chunk (b ∷ rest)) }

unfoldable pub serve : ℕ → UploadItem → Upload → Upload
serve k (failed err) u = u
serve k end_of_stream u = record u { gave_eof = true }
serve k (chunk []) u = clear_current u.finished u
serve k (chunk (b ∷ bytes)) u =
    serve_rest (drop (suc k) (b ∷ bytes)) (record u { given = u.given ++ take (suc k) (b ∷ bytes) })

-- The first section of the body of `abortOnce`: abortOnLoop leaves a finished body alone.
unfoldable pub begin_abort : Aborter → Bool → Upload → Upload
begin_abort by_signal true u = record u { abort_at = ended false }
begin_abort by_signal false u = record u { finished = true; abort_at = marked by_signal }
begin_abort by_reader finished_before u = record u { finished = true; abort_at = marked by_reader }
begin_abort by_close finished_before u = record u { finished = true; abort_at = marked by_close }

unfoldable pub close_aborted : Aborter → Upload → Upload
close_aborted who u = record u {
  aborted = true;
  aborted_closes = suc u.aborted_closes;
  abort_at = closed_by who;
}

-- The last: the reader is cancelled, at once or by a function on the loop, if the loop takes it.
unfoldable pub end_abort : Aborter → Bool → Upload → Upload
end_abort by_reader works u = record u { abort_at = ended true }
end_abort by_signal works u = cancel_reader_on_loop works (record u { abort_at = ended true })
end_abort by_close true u = record u {
  abort_at = ended true;
  queued_cancels = suc u.queued_cancels;
}
end_abort by_close false u = record u { abort_at = ended true }
