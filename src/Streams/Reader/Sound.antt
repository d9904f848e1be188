-- ===== src/Streams/Reader/Sound.antt =====
-- Every step keeps a stream sound.
use goja_ext.Prelude.{
  ℕ, ◌+◌, ◌≤◌, Bool, true, false, List, [], ◌∷◌, ◌++◌, append-nil, Option, none, some, Bytes, leb,
  Bool-cases, inl, inr, length, ◌≡◌, ◌≢◌, refl, ap, ◌∙◌, sym, arith,
}
use goja_ext.Streams.Reader.{
  ReadError, StreamEvent, cancel_hook, stream_error, ReaderStream, close_reader, close_reader_at,
  emit, resolve_settle, mark_settled, enqueue, pull_at, cancel_reader,
}
use goja_ext.Streams.Reader.Invariant.{
  IsSound, bit, pending, on_the_way, times, is_closing, is_settling, is_end, is_stream_close,
  enqueued, read_bytes,
}

pub true_not_false : true ≢ false
true_not_false h = cc

-- The stream of a reader that goes on is not closed.
pub still_open :
    {s : ReaderStream} → IsSound s → s.settled ≡ false → times is_stream_close s.log ≡ 0
still_open {s} i h = elim (Bool-cases (leb 1 (times is_stream_close s.log))) [
  | inl some_close ↦
      let (settled, _, _) = i.whole (ground (arith, some_close)) in
      absurd (true_not_false (sym settled ∙ h))
  | inr no_close ↦ ground (arith, no_close)
]

pub pull_at-IsSound :
    (b : Bool) (s : ReaderStream)
    → s.settled ≡ b
    → s.settle ≡ none
    → IsSound s
    → IsSound (pull_at b s)
pull_at-IsSound true s h n i = record {
  has_controller = i.has_controller;
  closings = omega (arith, i.closings);
  settlings = omega (arith, i.settlings);
  ends = omega (arith, i.ends);
  no_promise = i.no_promise;
  one_read = i.one_read;
  awaited = i.awaited;
  in_order = i.in_order;
  whole = λ w. i.whole (omega (arith, w));
}
pull_at-IsSound false s h n i =
    let idle : s.reading + length s.results ≡ 0 = i.awaited h ∙ ap pending n in
    record {
      has_controller = i.has_controller;
      closings = i.closings;
      settlings = i.settlings;
      ends = i.ends;
      no_promise = λ t. cc;
      one_read = omega (arith, idle);
      awaited = λ t. omega (arith, idle);
      in_order = i.in_order;
      whole = λ w. let (settled, _, _) = i.whole w in absurd (true_not_false (sym settled ∙ h));
    }

-- A change that no count but that of the closings sees, and that one keeps.
pub record Quiet (s t : ReaderStream) : Type 0 where
  pub closings : times is_closing s.log ≡ bit s.closed → times is_closing t.log ≡ bit t.closed
  pub same_settled : t.settled ≡ s.settled
  pub same_settle : t.settle ≡ s.settle
  pub same_controller : t.controller ≡ s.controller
  pub same_reading : t.reading ≡ s.reading
  pub same_results : t.results ≡ s.results
  pub same_settlings : times is_settling t.log ≡ times is_settling s.log
  pub same_ends : times is_end t.log ≡ times is_end s.log
  pub same_closes : times is_stream_close t.log ≡ times is_stream_close s.log
  pub same_read : read_bytes t.log ≡ read_bytes s.log

pub Quiet-self : {s : ReaderStream} → Quiet s s
Quiet-self = record {
  closings = λ i. i;
  same_settled = refl;
  same_settle = refl;
  same_controller = refl;
  same_reading = refl;
  same_results = refl;
  same_settlings = refl;
  same_ends = refl;
  same_closes = refl;
  same_read = refl;
}

pub Quiet-trans : {s t u : ReaderStream} → Quiet s t → Quiet t u → Quiet s u
Quiet-trans q r = record {
  closings = λ i. r.closings (q.closings i);
  same_settled = r.same_settled ∙ q.same_settled;
  same_settle = r.same_settle ∙ q.same_settle;
  same_controller = r.same_controller ∙ q.same_controller;
  same_reading = r.same_reading ∙ q.same_reading;
  same_results = r.same_results ∙ q.same_results;
  same_settlings = r.same_settlings ∙ q.same_settlings;
  same_ends = r.same_ends ∙ q.same_ends;
  same_closes = r.same_closes ∙ q.same_closes;
  same_read = r.same_read ∙ q.same_read;
}

pub close_reader-Quiet :
    (b : Bool) (s : ReaderStream) → s.closed ≡ b → Quiet s (close_reader_at b s)
close_reader-Quiet true s h = Quiet-self
close_reader-Quiet false s h = record {
  closings = λ i. omega (arith, i, ap bit h);
  same_settled = refl;
  same_settle = refl;
  same_controller = refl;
  same_reading = refl;
  same_results = refl;
  same_settlings = omega arith;
  same_ends = omega arith;
  same_closes = omega arith;
  same_read = refl;
}

-- An event that no count sees.
emit_cancel-Quiet : (reason : ℕ) (s : ReaderStream) → Quiet s (emit (cancel_hook reason) s)
emit_cancel-Quiet reason s = record {
  closings = λ i. omega (arith, i);
  same_settled = refl;
  same_settle = refl;
  same_controller = refl;
  same_reading = refl;
  same_results = refl;
  same_settlings = omega arith;
  same_ends = omega arith;
  same_closes = omega arith;
  same_read = refl;
}

pub resolve_settle-Quiet : (o : Option ℕ) (s : ReaderStream) → Quiet s (resolve_settle o s)
resolve_settle-Quiet none s = Quiet-self
resolve_settle-Quiet (some p) s = record {
  closings = λ i. omega (arith, i);
  same_settled = refl;
  same_settle = refl;
  same_controller = refl;
  same_reading = refl;
  same_results = refl;
  same_settlings = omega arith;
  same_ends = omega arith;
  same_closes = omega arith;
  same_read = refl;
}

pub cancel_reader-Quiet :
    (b : Bool) (reason : ℕ) (s : ReaderStream) → Quiet s (cancel_reader b reason s)
unfolding close_reader
cancel_reader-Quiet true reason s = emit_cancel-Quiet reason s
cancel_reader-Quiet false reason s = close_reader-Quiet s.closed s refl

pub enqueue-Quiet : (bytes : Bytes) (s : ReaderStream) → Quiet s (enqueue bytes s)
enqueue-Quiet [] s = Quiet-self
enqueue-Quiet (b ∷ bytes) s = record {
  closings = λ i. omega (arith, i);
  same_settled = refl;
  same_settle = refl;
  same_controller = refl;
  same_reading = refl;
  same_results = refl;
  same_settlings = omega arith;
  same_ends = omega arith;
  same_closes = omega arith;
  same_read = refl;
}

pub enqueue-enqueued :
    (bytes : Bytes) (s : ReaderStream)
    → enqueued (ReaderStream.log (enqueue bytes s)) ≡ enqueued s.log ++ bytes
enqueue-enqueued [] s = sym (append-nil (enqueued s.log))
enqueue-enqueued (b ∷ bytes) s = refl

pub resolve_settle-enqueued :
    (o : Option ℕ) (s : ReaderStream)
    → enqueued (ReaderStream.log (resolve_settle o s)) ≡ enqueued s.log
resolve_settle-enqueued none s = refl
resolve_settle-enqueued (some p) s = refl

pub Quiet-IsSound :
    {s t : ReaderStream} → Quiet s t → enqueued t.log ≡ enqueued s.log → IsSound s → IsSound t
Quiet-IsSound {s} {t} q e i =
    let same : t.reading + length t.results ≡ s.reading + length s.results =
      omega (arith, q.same_reading, ap length q.same_results) in
    record {
      has_controller = q.same_controller ∙ i.has_controller;
      closings = q.closings i.closings;
      settlings = q.same_settlings ∙ i.settlings ∙ ap bit (sym q.same_settled);
      ends = omega (arith, q.same_ends, i.ends, ap bit q.same_settled);
      no_promise = λ h. q.same_settle ∙ i.no_promise (sym q.same_settled ∙ h);
      one_read = omega (arith, same, i.one_read);
      awaited = λ h. same ∙ i.awaited (sym q.same_settled ∙ h) ∙ ap pending (sym q.same_settle);
      in_order = λ h.
          ap (λ x. x ++ on_the_way t.results) e
          ∙ ap (λ r. enqueued s.log ++ on_the_way r) q.same_results
          ∙ i.in_order (sym q.same_settled ∙ h)
          ∙ sym q.same_read;
      whole = λ w.
          let (settled, idle, all_bytes) = i.whole (omega (arith, w, q.same_closes)) in
          (q.same_settled ∙ settled, same ∙ idle, e ∙ all_bytes ∙ sym q.same_read);
    }

-- A stream that has just been settled, with its hook told.
pub told-IsSound :
    (e : StreamEvent) (s t : ReaderStream) (rest : List (Bytes × Option ReadError))
    → is_settling e ≡ 1
    → is_closing e ≡ 0
    → is_end e ≡ 0
    → is_stream_close e ≡ 0
    → IsSound s
    → s.settled ≡ false
    → length rest ≤ length s.results
    → Quiet (mark_settled (record s { results = rest })) t
    → IsSound (emit e t) × (times is_end (e ∷ t.log) ≡ 0) × (times is_stream_close (e ∷ t.log) ≡ 0)
told-IsSound e s t rest one no_closing no_end no_close i h room q =
    let open_ends : times is_end s.log ≤ 0 = omega (arith, i.ends, ap bit h) in
    let none_closed : times is_stream_close (e ∷ t.log) ≡ 0 =
      omega (arith, no_close, q.same_closes, still_open i h) in
    (
      record {
        has_controller = q.same_controller ∙ i.has_controller;
        closings = omega (arith, no_closing, q.closings i.closings);
        settlings =
            omega (arith, one, q.same_settlings, i.settlings, ap bit h, ap bit q.same_settled);
        ends = omega (arith, no_end, q.same_ends, open_ends);
        no_promise = λ _. q.same_settle;
        one_read = omega (arith, i.one_read, room, q.same_reading, ap length q.same_results);
        awaited = λ f. absurd (true_not_false (sym q.same_settled ∙ f));
        in_order = λ f. absurd (true_not_false (sym q.same_settled ∙ f));
        whole = λ w. absurd (omega (arith, w, none_closed));
      },
      omega (arith, no_end, q.same_ends, open_ends),
      none_closed,
    )

-- An end of the stream that is not its close.
pub ended-IsSound :
    (reason : ℕ) (t : ReaderStream)
    → IsSound t
    → t.settled ≡ true
    → times is_end t.log ≡ 0
    → times is_stream_close t.log ≡ 0
    → IsSound (emit (stream_error reason) t)
ended-IsSound reason t i h no_end no_close = record {
  has_controller = i.has_controller;
  closings = omega (arith, i.closings);
  settlings = omega (arith, i.settlings);
  ends = omega (arith, no_end, ap bit h);
  no_promise = i.no_promise;
  one_read = i.one_read;
  awaited = i.awaited;
  in_order = i.in_order;
  whole = λ w. absurd (omega (arith, w, no_close));
}
