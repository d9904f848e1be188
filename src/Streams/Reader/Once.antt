-- ===== src/Streams/Reader/Once.antt =====
-- Every stream that comes about is sound.
use goja_ext.Prelude.{
  ℕ, suc, ◌+◌, Bool, true, false, [], ◌∷◌, ◌++◌, append-nil, Option, none, some, Bytes, length, ◌≡◌,
  refl, ap, ◌∙◌, sym, arith,
}
use goja_ext.Streams.Reader.{
  ReadError, reader_read, ReaderConfig, ReaderStream, close_reader, close_reader_at, close_error,
  replaced, pull, cancel_stream, error, read_once, deliver, abandon, emit, close_after_read,
}
use goja_ext.Streams.Reader.Steps.{
  Step, pulls, cancels, errors, reads, delivers, abandons, Reached, fresh, step,
}
use goja_ext.Streams.Reader.Invariant.{IsSound, bit, pending, on_the_way, enqueued, new-IsSound}
use goja_ext.Streams.Reader.Sound.{Quiet, Quiet-self, close_reader-Quiet, pull_at-IsSound}
use goja_ext.Streams.Reader.Kept.{
  IsWatched, error_at-IsSound, cancel_at-IsSound, abandon_at-IsSound, deliver_at-IsSound, nil_of,
}

close_after_read-Quiet :
    (err : Option ReadError) (s : ReaderStream) → Quiet s (close_after_read err s)
unfolding close_reader
close_after_read-Quiet none s = Quiet-self
close_after_read-Quiet (some err) s = close_reader-Quiet s.closed s refl

close_after_read-enqueued :
    (err : Option ReadError) (s : ReaderStream)
    → enqueued (ReaderStream.log (close_after_read err s)) ≡ enqueued s.log
unfolding close_reader
close_after_read-enqueued none s = refl
close_after_read-enqueued (some err) s = by_closed s.closed
  where
    by_closed : (b : Bool) → enqueued (ReaderStream.log (close_reader_at b s)) ≡ enqueued s.log
    by_closed true = refl
    by_closed false = refl

read_once-IsSound :
    (given : Bytes) (err close_err : Option ReadError) (k : ℕ) (s : ReaderStream)
    → s.reading ≡ suc k
    → IsSound s
    → IsSound (read_once given err close_err k s)
unfolding read_once
read_once-IsSound given err close_err k s e i =
    let t₀ : ReaderStream = emit (reader_read given) s in
    let q : Quiet t₀ (close_after_read err t₀) = close_after_read-Quiet err t₀ in
    let empty : s.results ≡ [] = nil_of s.results (omega (arith, i.one_read, e)) in
    let one : k + length (s.results ++ (given, replaced err (close_error s.closed close_err)) ∷ [])
        ≡ 1 =
      omega (
        arith,
        i.one_read,
        e,
        ap (λ r. length (r ++ (given, replaced err (close_error s.closed close_err)) ∷ [])) empty,
      ) in
    record {
      has_controller = q.same_controller ∙ i.has_controller;
      closings = q.closings (omega (arith, i.closings));
      settlings = omega (arith, q.same_settlings, i.settlings, ap bit q.same_settled);
      ends = omega (arith, q.same_ends, i.ends, ap bit q.same_settled);
      no_promise = λ h. q.same_settle ∙ i.no_promise (sym q.same_settled ∙ h);
      one_read = omega (arith, one);
      awaited = λ h.
          omega (
            arith,
            one,
            e,
            i.one_read,
            i.awaited (sym q.same_settled ∙ h),
            ap pending q.same_settle,
          );
      in_order = λ h.
          ap
            (λ x.
              x
              ++ on_the_way
                  (s.results ++ (given, replaced err (close_error s.closed close_err)) ∷ []))
            (close_after_read-enqueued err t₀)
          ∙ ap
              (λ r.
                enqueued s.log
                ++ on_the_way (r ++ (given, replaced err (close_error s.closed close_err)) ∷ []))
              empty
          ∙ ap (λ x. enqueued s.log ++ x) (append-nil given)
          ∙ ap (λ x. x ++ given)
              (sym (append-nil (enqueued s.log))
                ∙ ap (λ r. enqueued s.log ++ on_the_way r) (sym empty)
                ∙ i.in_order (sym q.same_settled ∙ h))
          ∙ sym q.same_read;
      whole = λ w.
          let (_, idle, _) = i.whole (omega (arith, w, q.same_closes)) in
          absurd (omega (arith, idle, e));
    }

module _ (config : ReaderConfig) (w : IsWatched config) where
  -- One step.
  step-IsSound : {s t : ReaderStream} → Step config s t → IsSound s → IsSound t
  unfolding pull cancel_stream error deliver abandon
  step-IsSound {s} (pulls n) i = pull_at-IsSound s.settled s refl n i
  step-IsSound {s} (cancels reason) i = cancel_at-IsSound config w reason s.settled s refl i
  step-IsSound {s} (errors reason) i = error_at-IsSound config w reason s.settled s refl i
  step-IsSound {s} (reads given err close_err {k} e) i =
      read_once-IsSound given err close_err k s e i
  step-IsSound {s} (delivers given err {rest} e) i =
      deliver_at-IsSound config w given err rest s e i s.settled refl
  step-IsSound {s} (abandons given err {rest} e) i =
      abandon_at-IsSound config w given err rest s e i s.settled refl

-- With both hooks set, and pulls only when the last one's promise is resolved: in whatever order pulls,
-- reads, deliveries, cancellations, errors and failed deliveries follow each other, the reader is closed at
-- most once, exactly one hook is called when the stream settles and none before, the controller is closed
-- or errored at most once, a settled stream keeps no promise, the bytes go to the stream in the order of
-- the reads, and a stream that was closed has been given every byte read.
pub Reached-IsSound :
    (config : ReaderConfig) → IsWatched config → (s : ReaderStream) → Reached config s → IsSound s
Reached-IsSound config w s fresh = new-IsSound
Reached-IsSound config w s (step r st) = step-IsSound config w st (Reached-IsSound config w _ r)
