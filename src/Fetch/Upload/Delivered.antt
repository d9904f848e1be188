-- ===== src/Fetch/Upload/Delivered.antt =====
-- fetch/upload.go: every body that comes about.
use goja_ext.Prelude.{
  ◌≤◌, Bool, true, false, [], ◌++◌, append-nil, none, Bytes, ◌≡◌, refl, sym, ap, ◌∙◌, subst, arith,
}
use goja_ext.Fetch.Upload.{
  UploadItem, chunk, failed, end_of_stream, LoopAt, free, finishing, releasing, failing, enqueuing,
  cancelling, reading_items, scheduling, by_reader, by_signal, by_close, AbortAt, unstarted, marked,
  closed_by, ended, Upload, new_upload_body, release_reader_on_loop, begin_abort,
}
use goja_ext.Fetch.Upload.Balance.{
  Balanced, under_way, over, Balance, moves, loses, all_given, has_room, loop_tokens, in_flight,
}
use goja_ext.Fetch.Upload.Sound.{
  bit, closes_of, IsSound, rebalanced, loop_is, read_next-IsSound, settled-IsSound, finish-IsSound,
  fail-IsSound, release-IsSound, cancel-IsSound,
}
use goja_ext.Fetch.Upload.Whole.{
  not_yet, enqueue_moves, give_up_loses, take_moves, serve-IsSound, begin-IsSound, close-IsSound,
  end-IsSound,
}
use goja_ext.Fetch.Upload.Steps.{
  Step, reads_next, settles, finishes, releases, fails, enqueues, gives_up, cancels, starts_cancel,
  cancelled, takes, serves, schedules, cannot_schedule, need_not_schedule, signalled, closes,
  closes_aborted, ends_abort, Reached, fresh, step,
}

-- The loop goes on where it stands, with the same.
loop_moves :
    (u : Upload) {l l' : LoopAt}
    → u.loop_at ≡ l
    → loop_tokens l' ≡ loop_tokens l
    → in_flight u.current u.items l' ≡ in_flight u.current u.items l
    → IsSound u
    → IsSound (record u { loop_at = l' })
loop_moves u e same bytes i =
    rebalanced i (moves (loop_is u e i.balance) (omega (arith, same)) bytes) refl refl refl refl
      i.at_eof

stops_scheduling :
    (u : Upload)
    → u.read_at ≡ scheduling
    → IsSound u
    → IsSound (record u { read_at = reading_items })
stops_scheduling u e i =
    rebalanced i (loses (read_is u e i.balance) (omega arith)) refl refl refl refl i.at_eof
  where
    read_is :
        (u : Upload)
        → u.read_at ≡ scheduling
        → Balance u
        → Balanced u.current u.items u.loop_at scheduling u.queued_reads u.reads u.given u.taken
    read_is u e b =
        subst (λ r. Balanced u.current u.items u.loop_at r u.queued_reads u.reads u.given u.taken) e
          b

step-IsSound : {u v : Upload} → Step u v → IsSound u → IsSound v
step-IsSound {u} (reads_next call {k} e q) i = read_next-IsSound call u.finished k u e q i
step-IsSound {u} (settles result {k} e q) i = settled-IsSound result u.finished k u e q i
step-IsSound {u} (finishes item e) i = finish-IsSound item u.finished u e i
step-IsSound {u} (releases item e) i =
    release-IsSound u.released _ refl (loop_moves u e refl refl i)
step-IsSound {u} (fails err e) i = fail-IsSound err u.finished u e i
step-IsSound {u} (enqueues item b e empty) i =
    rebalanced i
      (enqueue_moves u.current item b (
        subst
          (λ is.
            Balanced u.current is (enqueuing item b) u.read_at u.queued_reads u.reads u.given
              u.taken)
          empty (loop_is u e i.balance)))
      refl refl refl refl i.at_eof
step-IsSound {u} (gives_up item b e a) i =
    rebalanced i (give_up_loses u.current item b (loop_is u e i.balance)) refl refl refl refl
      i.at_eof
step-IsSound {u} (cancels works e) i = cancel-IsSound works _ (loop_moves u e refl refl i)
step-IsSound {u} (starts_cancel {k} e q) i =
    rebalanced i (moves (loop_is u e i.balance) refl refl) refl refl refl refl i.at_eof
step-IsSound {u} (cancelled {k} e q) i =
    release-IsSound u.released (record u { cancels = k }) refl
      (rebalanced i i.balance refl refl refl refl i.at_eof)
step-IsSound {u} (takes item rest e c is) i =
    rebalanced i
      (take_moves item rest u.loop_at (
        subst (λ x. Balanced none x u.loop_at u.read_at u.queued_reads u.reads u.given u.taken) is
          (subst
            (λ x. Balanced x u.items u.loop_at u.read_at u.queued_reads u.reads u.given u.taken) c
            i.balance)))
      refl refl refl refl (not_yet u c refl i)
step-IsSound {u} (serves k item e c) i = serve-IsSound k item u e c i
step-IsSound {u} (schedules e) i =
    rebalanced i
      (moves i.balance (omega (arith, ap goja_ext.Fetch.Upload.Balance.read_tokens e)) refl) refl
      refl refl refl i.at_eof
step-IsSound {u} (cannot_schedule e a) i =
    begin-IsSound by_reader u.finished _ a (stops_scheduling u e i)
step-IsSound {u} (need_not_schedule closed e a) i = stops_scheduling u e i
step-IsSound {u} (signalled a) i = begin-IsSound by_signal u.finished u a i
step-IsSound {u} (closes a) i = begin-IsSound by_close u.finished u a i
step-IsSound {u} (closes_aborted who a) i = close-IsSound who u a i
step-IsSound {u} (ends_abort who works a) i = end-IsSound who works u a i

body-IsSound : (u : Upload) → Reached u → IsSound u
unfolding new_upload_body
body-IsSound u fresh = record {
  balance = under_way refl refl;
  closings = refl;
  releasings = refl;
  at_eof = λ h. absurd (omega (arith, ap bit h));
}
body-IsSound u (step r st) = step-IsSound st (body-IsSound _ r)

at_most_once : (b : Bool) → bit b ≤ 1
at_most_once true = omega arith
at_most_once false = omega arith

closed_once : (a : AbortAt) → closes_of a ≤ 1
closed_once unstarted = omega arith
closed_once (marked who) = omega arith
closed_once (closed_by who) = omega arith
closed_once (ended b) = at_most_once b

-- What the invariant comes to.
pub record IsDelivered (u : Upload) : Type 0 where
  pub in_order : (rest : Bytes) × (u.given ++ rest ≡ u.taken)
  pub whole_at_eof : u.gave_eof ≡ true → u.given ≡ u.taken
  pub room : (item : UploadItem) (b : Bool) → u.loop_at ≡ enqueuing item b → u.items ≡ []
  pub one_close : u.aborted_closes ≤ 1
  pub one_release : u.releases ≤ 1

first_part : (u : Upload) → Balance u → (rest : Bytes) × (u.given ++ rest ≡ u.taken)
first_part u (under_way one e) = (_, e)
first_part u (over nil lost e) = (lost, e)

-- However readNextOnLoop, the promises of its reads, finishOnLoop, failChunkOnLoop, Read, Close, the abort
-- signal and the cancelling of the reader interleave on a new body: what Read has given are the first of
-- the bytes of the chunks that were taken, in order, and all of them once it gave io.EOF; what the loop
-- puts into the channel finds it empty, so the loop never waits there; and `aborted` is closed, and the
-- reader's lock released, at most once.
pub Reached-IsDelivered : (u : Upload) → Reached u → IsDelivered u
Reached-IsDelivered u r =
    let i : IsSound u = body-IsSound u r in
    record {
      in_order = first_part u i.balance;
      whole_at_eof = λ h.
          sym (append-nil u.given)
          ∙ (all_given end_of_stream (
              subst
                (λ c. Balanced c u.items u.loop_at u.read_at u.queued_reads u.reads u.given u.taken)
                (i.at_eof h) i.balance)).0;
      room = λ item b e. has_room u.items u.loop_at i.balance (ap loop_tokens e);
      one_close = omega (arith, i.closings, closed_once u.abort_at);
      one_release = omega (arith, i.releasings, at_most_once u.released);
    }
