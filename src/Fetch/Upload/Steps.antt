-- ===== src/Fetch/Upload/Steps.antt =====
-- fetch/upload.go: the critical sections in every order that the locks, the channels and the loop allow,
-- and in some more: the aborting of a signal may go on while the loop does, and Close may have looked at
-- `finished` a while before.
use goja_ext.Prelude.{ℕ, suc, Bool, true, false, List, [], ◌∷◌, none, some, Bytes, ◌≡◌}
use goja_ext.Fetch.Upload.{
  UploadItem, free, finishing, releasing, failing, enqueuing, cancelling, reading_items, scheduling,
  Aborter, by_reader, by_signal, by_close, unstarted, marked, closed_by, ended, Upload,
  new_upload_body, ReadCall, read_next_on_loop, Settled, on_settled, finish_on_loop,
  fail_chunk_on_loop, release_reader_on_loop, after_enqueue, cancel_reader_on_loop, serve,
  begin_abort, close_aborted, end_abort,
}

pub data Step (u : Upload) : Upload → Type 0 where
  -- The loop.
  reads_next :
      (call : ReadCall) {k : ℕ}
      → u.loop_at ≡ free
      → u.queued_reads ≡ suc k
      → Step u (read_next_on_loop call u.finished k u)
  settles :
      (result : Settled) {k : ℕ}
      → u.loop_at ≡ free
      → u.reads ≡ suc k
      → Step u (on_settled result u.finished k u)
  finishes :
      (item : UploadItem) → u.loop_at ≡ finishing item → Step u (finish_on_loop item u.finished u)
  releases :
      (item : UploadItem)
      → u.loop_at ≡ releasing item
      → Step u (release_reader_on_loop u.released (record u { loop_at = enqueuing item false }))
  fails : (err : Bytes) → u.loop_at ≡ failing err → Step u (fail_chunk_on_loop err u.finished u)
  enqueues :
      (item : UploadItem) (then_cancels : Bool)
      → u.loop_at ≡ enqueuing item then_cancels
      → u.items ≡ []
      → Step u (record u { items = item ∷ []; loop_at = after_enqueue then_cancels })
  gives_up :
      (item : UploadItem) (then_cancels : Bool)
      → u.loop_at ≡ enqueuing item then_cancels
      → u.aborted ≡ true
      → Step u (record u { loop_at = after_enqueue then_cancels })
  cancels :
      (works : Bool)
      → u.loop_at ≡ cancelling
      → Step u (cancel_reader_on_loop works (record u { loop_at = free }))
  starts_cancel :
      {k : ℕ}
      → u.loop_at ≡ free
      → u.queued_cancels ≡ suc k
      → Step u (record u { loop_at = cancelling; queued_cancels = k })
  cancelled :
      {k : ℕ}
      → u.loop_at ≡ free
      → u.cancels ≡ suc k
      → Step u (release_reader_on_loop u.released (record u { cancels = k }))
  -- Read.
  takes :
      (item : UploadItem) (rest : List UploadItem)
      → u.read_at ≡ reading_items
      → u.current ≡ none
      → u.items ≡ item ∷ rest
      → Step u (record u { items = rest; current = some item })
  serves :
      (k : ℕ) (item : UploadItem)
      → u.read_at ≡ reading_items
      → u.current ≡ some item
      → Step u (serve k item u)
  schedules :
      u.read_at ≡ scheduling
      → Step u (record u { read_at = reading_items; queued_reads = suc u.queued_reads })
  cannot_schedule :
      u.read_at ≡ scheduling
      → u.abort_at ≡ unstarted
      → Step u (begin_abort by_reader u.finished (record u { read_at = reading_items }))
  need_not_schedule :
      (closed : Bool)
      → u.read_at ≡ scheduling
      → u.abort_at ≡ ended closed
      → Step u (record u { read_at = reading_items })
  -- The body of `abortOnce`.
  signalled : u.abort_at ≡ unstarted → Step u (begin_abort by_signal u.finished u)
  closes : u.abort_at ≡ unstarted → Step u (begin_abort by_close u.finished u)
  closes_aborted : (who : Aborter) → u.abort_at ≡ marked who → Step u (close_aborted who u)
  ends_abort :
      (who : Aborter) (works : Bool) → u.abort_at ≡ closed_by who → Step u (end_abort who works u)

pub data Reached : Upload → Type 0 where
  fresh : Reached new_upload_body
  step : {u v : Upload} → Reached u → Step u v → Reached v
