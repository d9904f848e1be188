-- ===== src/Tests/Streams.antt =====
-- streams/: runs and instances.
use goja_ext.Prelude.{
  ℕ, ◌≤◌, true, false, [], ◌∷◌, ◌++◌, append-nil, Option, none, some, ℤ, pos, length, take, Bytes,
  codes, ◌≡◌, ◌≢◌, refl, ap, sym, ◌∙◌, arith,
}
use goja_ext.Streams.Chunks.{chunks}
use goja_ext.Streams.Text.{decoded, decode_utf8_chunk, decode_utf8}
use goja_ext.Streams.Text.Chunked.{and_then, decode_utf8_chunk-append}
use goja_ext.Streams.Writer.{Writer, write_all, written, IsWriter, Ended, write_all-Ended}
use goja_ext.Streams.Reader.{
  ReaderConfig, ReaderStream, eof, new_reader_stream, pull, read_once, deliver, stream_close,
  stream_enqueue, settled_hook, reader_closed, reader_read, promise_resolved,
}
use goja_ext.Streams.Reader.Steps.{Reached, fresh, step, pulls, reads, delivers}
use goja_ext.Streams.Reader.Invariant.{IsSound}
use goja_ext.Streams.Reader.Once.{Reached-IsSound}

abbrev config : ReaderConfig
config = record { on_settled = true; on_settled_off = true; on_cancel = false; map_error = λ e. 0 }

-- One pull, whose read gives two bytes and the end of the input.
abbrev ended : ReaderStream
ended =
    deliver config (codes "ab") (some eof) []
      (read_once (codes "ab") (some eof) none 0 (pull new_reader_stream))

ended_log :
    ended.log
    ≡ promise_resolved 0
      ∷ stream_close
      ∷ stream_enqueue (codes "ab")
      ∷ settled_hook (some eof)
      ∷ reader_closed
      ∷ reader_read (codes "ab")
      ∷ []
unfolding deliver read_once pull new_reader_stream
ended_log = refl

ended_reached : Reached config ended
unfolding read_once pull new_reader_stream
ended_reached =
    step (step (step fresh (pulls refl)) (reads (codes "ab") (some eof) none refl))
      (delivers (codes "ab") (some eof) refl)

Reached-IsSound_example : IsSound ended
Reached-IsSound_example =
    Reached-IsSound config (record { on_loop = refl; off_loop = refl }) ended ended_reached

in_chunks : chunks 4 2 (codes "abc") 0 ≡ some (codes "ab" ∷ codes "c" ∷ [])
unfolding chunks
in_chunks = refl

-- A writer that takes one byte at a time.
abbrev slow : Writer Bytes
slow sink [] = (sink, pos 0, none)
slow sink (b ∷ bytes) = (sink ++ b ∷ [], pos 1, none)

slow-IsWriter : IsWriter slow (λ w. w)
slow-IsWriter = record { counts = counts_of }
  where
    counts_of :
        (w : Bytes) (bytes : Bytes) (w' : Bytes) (n : ℤ) (err : Option ℕ)
        → slow w bytes ≡ (w', n, err)
        → (k : ℕ) × (n ≡ pos k) × (k ≤ length bytes) × (w' ≡ w ++ take k bytes)
    counts_of w [] w' n err h =
        (0, sym (ap (λ t. t.1) h), omega arith, sym (ap (λ t. t.0) h) ∙ sym (append-nil w))
    counts_of w (b ∷ bytes) w' n err h =
        (1, sym (ap (λ t. t.1) h), omega arith, sym (ap (λ t. t.0) h))

wrote : write_all slow 3 [] (codes "abc") ≡ some (codes "abc", written)
unfolding write_all
wrote = refl

write_all-Ended_example : Ended slow (λ w. w) 3 [] (codes "abc")
write_all-Ended_example =
    write_all-Ended slow (λ w. w) slow-IsWriter 3 [] (codes "abc") (omega arith)

-- The euro sign, cut behind its first byte, for a `Valid` that accepts every sequence.
cut_text :
    decode_utf8_chunk (λ s. true) false false (65 ∷ 226 ∷ []) ≡ some (decoded (65 ∷ []) (226 ∷ []))
unfolding decode_utf8_chunk
cut_text = refl

marked :
    decode_utf8 (λ s. true) true false true (239 ∷ []) (187 ∷ 191 ∷ 65 ∷ [])
    ≡ some (decoded (65 ∷ []) [], false)
unfolding decode_utf8
marked = refl

decode_utf8_chunk-append_example :
    (decode_utf8_chunk (λ s. true) true false ((65 ∷ 226 ∷ []) ++ (130 ∷ 172 ∷ []))
      ≡ and_then
          (decode_utf8_chunk (λ s. true) false false (65 ∷ 226 ∷ []))
          (λ pending. decode_utf8_chunk (λ s. true) true false (pending ++ (130 ∷ 172 ∷ []))))
    × (decode_utf8_chunk (λ s. true) true false ((65 ∷ 226 ∷ []) ++ (130 ∷ 172 ∷ [])) ≢ none)
decode_utf8_chunk-append_example =
    decode_utf8_chunk-append (λ s. true) false true (65 ∷ 226 ∷ []) (130 ∷ 172 ∷ [])
