-- ===== src/Streams/Reader/Steps.antt =====
-- streams/reader.go: what can happen to a stream, in which order ever. The ReadableStream pulls only if the
-- promise of its last pull is resolved.
use goja_ext.Prelude.{ℕ, suc, List, ◌∷◌, Option, none, Bytes, ◌≡◌}
use goja_ext.Streams.Reader.{
  ReadError, ReaderConfig, ReaderStream, new_reader_stream, pull, cancel_stream, error, read_once,
  deliver, abandon,
}

pub data Step (config : ReaderConfig) : ReaderStream → ReaderStream → Type 0 where
  pulls : {s : ReaderStream} → s.settle ≡ none → Step config s (pull s)
  cancels : {s : ReaderStream} (reason : ℕ) → Step config s (cancel_stream config reason s)
  errors : {s : ReaderStream} (reason : ℕ) → Step config s (error config reason s)
  reads :
      {s : ReaderStream} (given : Bytes) (err close_err : Option ReadError) {k : ℕ}
      → s.reading ≡ suc k
      → Step config s (read_once given err close_err k s)
  delivers :
      {s : ReaderStream} (given : Bytes) (err : Option ReadError)
      {rest : List (Bytes × Option ReadError)}
      → s.results ≡ (given, err) ∷ rest
      → Step config s (deliver config given err rest s)
  abandons :
      {s : ReaderStream} (given : Bytes) (err : Option ReadError)
      {rest : List (Bytes × Option ReadError)}
      → s.results ≡ (given, err) ∷ rest
      → Step config s (abandon config err rest s)

-- The streams that come about from a new one.
pub data Reached (config : ReaderConfig) : ReaderStream → Type 0 where
  fresh : Reached config new_reader_stream
  step : {s t : ReaderStream} → Reached config s → Step config s t → Reached config t
