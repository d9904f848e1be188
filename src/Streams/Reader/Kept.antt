-- ===== src/Streams/Reader/Kept.antt =====
-- The operations on a stream that settle it, and the deliveries, keep it sound.
use goja_ext.Prelude.{
  ℕ, ◌+◌, Bool, true, false, List, [], ◌∷◌, ◌++◌, append-nil, Option, none, some, Bytes, length,
  ◌≡◌, refl, ap, ◌∙◌, sym, subst, arith,
}
use goja_ext.Streams.Reader.{
  ReadError, eof, failure, StreamEvent, settled_hook, settled_off_hook, stream_close, stream_error,
  ReaderConfig, ReaderStream, close_reader, emit, emit_if, resolve_settle, mark_settled, enqueue,
  finish_stream, tell_settled, error_at, cancel_at, cancel_reader, deliver_at, deliver_to,
  take_settle, abandon_at,
}
use goja_ext.Streams.Reader.Invariant.{
  IsSound, bit, pending, on_the_way, times, is_end, is_stream_close, enqueued, read_bytes,
}
use goja_ext.Streams.Reader.Sound.{
  Quiet, Quiet-self, Quiet-trans, Quiet-IsSound, close_reader-Quiet, resolve_settle-Quiet,
  resolve_settle-enqueued, cancel_reader-Quiet, enqueue-Quiet, enqueue-enqueued, told-IsSound,
  ended-IsSound, still_open, true_not_false,
}

-- Both hooks are set.
pub record IsWatched (config : ReaderConfig) : Type 0 where
  pub on_loop : config.on_settled ≡ true
  pub off_loop : config.on_settled_off ≡ true

emit_if-true : (b : Bool) (e : StreamEvent) (s : ReaderStream) → b ≡ true → emit_if b e s ≡ emit e s
emit_if-true true e s h = refl
emit_if-true false e s h = cc

-- A change of a settled stream that is not closed need not keep the bytes.
settled_more-IsSound :
    {s t : ReaderStream}
    → Quiet s t
    → IsSound s
    → s.settled ≡ true
    → times is_stream_close s.log ≡ 0
    → IsSound t
settled_more-IsSound {s} {t} q i h no_close = record {
  has_controller = q.same_controller ∙ i.has_controller;
  closings = q.closings i.closings;
  settlings = q.same_settlings ∙ i.settlings ∙ ap bit (sym q.same_settled);
  ends = omega (arith, q.same_ends, i.ends, ap bit q.same_settled);
  no_promise = λ _. q.same_settle ∙ i.no_promise h;
  one_read = omega (arith, i.one_read, q.same_reading, ap length q.same_results);
  awaited = λ f. absurd (true_not_false (sym (q.same_settled ∙ h) ∙ f));
  in_order = λ f. absurd (true_not_false (sym (q.same_settled ∙ h) ∙ f));
  whole = λ k. absurd (omega (arith, k, q.same_closes, no_close));
}

-- The close of a stream that has all bytes.
closed-IsSound :
    (t : ReaderStream)
    → IsSound t
    → t.settled ≡ true
    → times is_end t.log ≡ 0
    → t.reading + length t.results ≡ 0
    → enqueued t.log ≡ read_bytes t.log
    → IsSound (emit stream_close t)
closed-IsSound t i h no_end idle all_bytes = record {
  has_controller = i.has_controller;
  closings = omega (arith, i.closings);
  settlings = omega (arith, i.settlings);
  ends = omega (arith, no_end, ap bit h);
  no_promise = i.no_promise;
  one_read = i.one_read;
  awaited = i.awaited;
  in_order = λ f. absurd (true_not_false (sym h ∙ f));
  whole = λ k. (h, idle, all_bytes);
}

pub nil_of {ℓ} : {A : Type ℓ} (r : List A) → length r ≡ 0 → r ≡ []
nil_of [] h = refl
nil_of (x ∷ r) h = absurd (omega (arith, h))

resolved : (o : Option ℕ) {s : ReaderStream} → IsSound s → IsSound (resolve_settle o s)
resolved o {s} i = Quiet-IsSound (resolve_settle-Quiet o s) (resolve_settle-enqueued o s) i

module _ (config : ReaderConfig) (w : IsWatched config) where
  pub error_at-IsSound :
      (reason : ℕ) (b : Bool) (s : ReaderStream)
      → s.settled ≡ b
      → IsSound s
      → IsSound (error_at config reason b s)
  unfolding close_reader
  error_at-IsSound reason true s h i = i
  error_at-IsSound reason false s h i =
      let t : ReaderStream = close_reader (resolve_settle s.settle (mark_settled s)) in
      let q : Quiet (mark_settled s) t =
        Quiet-trans (resolve_settle-Quiet s.settle (mark_settled s))
          (close_reader-Quiet _ (resolve_settle s.settle (mark_settled s)) refl) in
      let (told, no_end, no_close) =
        told-IsSound (settled_hook none) s t s.results refl refl refl refl i h (omega arith) q in
      subst IsSound
        (sym (
          emit_if-true s.controller (stream_error reason)
            (emit_if config.on_settled (settled_hook none) t) i.has_controller
          ∙ ap (emit (stream_error reason))
              (emit_if-true config.on_settled (settled_hook none) t w.on_loop)))
        (ended-IsSound reason (emit (settled_hook none) t) told q.same_settled no_end no_close)

  pub cancel_at-IsSound :
      (reason : ℕ) (b : Bool) (s : ReaderStream)
      → s.settled ≡ b
      → IsSound s
      → IsSound (cancel_at config reason b s)
  cancel_at-IsSound reason true s h i = i
  cancel_at-IsSound reason false s h i =
      let s' : ReaderStream = resolve_settle s.settle (mark_settled s) in
      let t : ReaderStream = cancel_reader config.on_cancel reason s' in
      let q : Quiet (mark_settled s) t =
        Quiet-trans (resolve_settle-Quiet s.settle (mark_settled s))
          (cancel_reader-Quiet config.on_cancel reason s') in
      let (told, _, _) =
        told-IsSound (settled_hook none) s t s.results refl refl refl refl i h (omega arith) q in
      subst IsSound (sym (emit_if-true config.on_settled (settled_hook none) t w.on_loop)) told

  -- Of a settled stream, the results that come in late do not count.
  drop-IsSound :
      (s : ReaderStream) (r : Bytes × Option ReadError) (rest : List (Bytes × Option ReadError))
      → s.results ≡ r ∷ rest
      → s.settled ≡ true
      → IsSound s
      → IsSound (record s { results = rest })
  drop-IsSound s r rest e h i = record {
    has_controller = i.has_controller;
    closings = i.closings;
    settlings = i.settlings;
    ends = i.ends;
    no_promise = i.no_promise;
    one_read = omega (arith, i.one_read, ap length e);
    awaited = λ f. absurd (true_not_false (sym h ∙ f));
    in_order = λ f. absurd (true_not_false (sym h ∙ f));
    whole = λ k.
        let (settled, idle, all_bytes) = i.whole k in
        (settled, omega (arith, idle, ap length e), all_bytes);
  }

  pub abandon_at-IsSound :
      (bytes : Bytes) (err : Option ReadError) (rest : List (Bytes × Option ReadError))
      (s : ReaderStream)
      → s.results ≡ (bytes, err) ∷ rest
      → IsSound s
      → (b : Bool) → s.settled ≡ b
      → IsSound (abandon_at config err b (record s { results = rest }))
  unfolding close_reader
  abandon_at-IsSound bytes err rest s e i true h = drop-IsSound s (bytes, err) rest e h i
  abandon_at-IsSound bytes err rest s e i false h =
      let s' : ReaderStream = mark_settled (record s { results = rest }) in
      let q : Quiet s' (close_reader s') = close_reader-Quiet s.closed s' refl in
      let (told, _, _) =
        told-IsSound (settled_off_hook err) s (close_reader s') rest refl refl refl refl i h
          (omega (arith, ap length e)) q in
      subst IsSound
        (sym
          (emit_if-true config.on_settled_off (settled_off_hook err) (close_reader s') w.off_loop))
        told

  -- The one result on its way has the bytes that are missing.
  delivered :
      {bytes : Bytes} {err : Option ReadError} {rest : List (Bytes × Option ReadError)}
      {s : ReaderStream}
      → s.results ≡ (bytes, err) ∷ rest
      → rest ≡ []
      → s.settled ≡ false
      → IsSound s
      → read_bytes s.log ≡ enqueued s.log ++ bytes
  delivered {bytes} {err} {rest} {s} e empty h i =
      sym (i.in_order h)
      ∙ ap (λ r. enqueued s.log ++ on_the_way r) (e ∙ ap (λ r. (bytes, err) ∷ r) empty)
      ∙ ap (λ x. enqueued s.log ++ x) (append-nil bytes)

  -- A delivery that the reader goes on after.
  deliver_more-IsSound :
      (bytes : Bytes) (rest : List (Bytes × Option ReadError)) (s : ReaderStream)
      → s.results ≡ (bytes, none) ∷ rest
      → IsSound s
      → s.settled ≡ false
      → IsSound (enqueue bytes (record s { results = rest; settle = none }))
  deliver_more-IsSound bytes rest s e i h =
      let s' : ReaderStream = record s { results = rest; settle = none } in
      let q : Quiet s' (enqueue bytes s') = enqueue-Quiet bytes s' in
      let idle : s.reading + length rest ≡ 0 = omega (arith, i.one_read, ap length e) in
      let empty : rest ≡ [] = nil_of rest (omega (arith, idle)) in
      record {
        has_controller = q.same_controller ∙ i.has_controller;
        closings = q.closings i.closings;
        settlings = q.same_settlings ∙ i.settlings ∙ ap bit (sym q.same_settled);
        ends = omega (arith, q.same_ends, i.ends, ap bit q.same_settled);
        no_promise = λ t. q.same_settle;
        one_read = omega (arith, idle, q.same_reading, ap length q.same_results);
        awaited = λ t.
            omega (arith, idle, q.same_reading, ap length q.same_results, ap pending q.same_settle);
        in_order = λ t.
            ap (λ x. x ++ on_the_way (ReaderStream.results (enqueue bytes s')))
              (enqueue-enqueued bytes s')
            ∙ ap (λ r. (enqueued s.log ++ bytes) ++ on_the_way r) (q.same_results ∙ empty)
            ∙ append-nil (enqueued s.log ++ bytes)
            ∙ sym (delivered e empty h i)
            ∙ sym q.same_read;
        whole = λ k. absurd (omega (arith, k, q.same_closes, still_open i h));
      }

  by_error :
      (err : ReadError) {u : ReaderStream}
      → IsSound u
      → u.settled ≡ true
      → times is_end u.log ≡ 0
      → times is_stream_close u.log ≡ 0
      → u.reading + length u.results ≡ 0
      → enqueued u.log ≡ read_bytes u.log
      → IsSound (finish_stream config (some err) u)
  by_error eof {u} i h no_end no_close idle all_bytes = closed-IsSound u i h no_end idle all_bytes
  by_error (failure e) {u} i h no_end no_close idle all_bytes =
      ended-IsSound (config.map_error (failure e)) u i h no_end no_close

  -- The last delivery: the hook, the bytes, and the end of the stream.
  deliver_end-IsSound :
      (bytes : Bytes) (err : ReadError) (rest : List (Bytes × Option ReadError)) (s : ReaderStream)
      → s.results ≡ (bytes, some err) ∷ rest
      → IsSound s
      → s.settled ≡ false
      → IsSound (
          finish_stream config (some err) (
            enqueue bytes
              (tell_settled config (some err) (mark_settled (record s { results = rest })))))
  deliver_end-IsSound bytes err rest s e i h =
      let t : ReaderStream = mark_settled (record s { results = rest }) in
      let t₁ : ReaderStream = emit (settled_hook (some err)) t in
      let (told, no_end, no_close) =
        told-IsSound (settled_hook (some err)) s t rest refl refl refl refl i h
          (omega (arith, ap length e)) Quiet-self in
      let q : Quiet t₁ (enqueue bytes t₁) = enqueue-Quiet bytes t₁ in
      let more : IsSound (enqueue bytes t₁) = settled_more-IsSound q told refl no_close in
      let idle : s.reading + length rest ≡ 0 = omega (arith, i.one_read, ap length e) in
      let empty : rest ≡ [] = nil_of rest (omega (arith, idle)) in
      subst (λ u. IsSound (finish_stream config (some err) (enqueue bytes u)))
        (sym (emit_if-true config.on_settled (settled_hook (some err)) t w.on_loop))
        (by_error err more q.same_settled (omega (arith, q.same_ends, no_end))
          (omega (arith, q.same_closes, no_close))
          (omega (arith, idle, q.same_reading, ap length q.same_results))
          (enqueue-enqueued bytes t₁ ∙ sym (delivered e empty h i) ∙ sym q.same_read))

  pub deliver_at-IsSound :
      (bytes : Bytes) (err : Option ReadError) (rest : List (Bytes × Option ReadError))
      (s : ReaderStream)
      → s.results ≡ (bytes, err) ∷ rest
      → IsSound s
      → (b : Bool) → s.settled ≡ b
      → IsSound (deliver_at config bytes err b (record s { results = rest }))
  deliver_at-IsSound bytes err rest s e i true h = drop-IsSound s (bytes, err) rest e h i
  deliver_at-IsSound bytes none rest s e i false h =
      subst
        (λ c. IsSound (
          deliver_to config c bytes none s.settle (take_settle none (record s { results = rest }))))
        (sym i.has_controller) (resolved s.settle (deliver_more-IsSound bytes rest s e i h))
  deliver_at-IsSound bytes (some err) rest s e i false h =
      subst
        (λ c. IsSound (
          deliver_to config c bytes (some err) s.settle
            (take_settle (some err) (record s { results = rest }))))
        (sym i.has_controller) (resolved s.settle (deliver_end-IsSound bytes err rest s e i h))
