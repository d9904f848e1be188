-- ===== src/Fetch/Upload/Sound.antt =====
-- fetch/upload.go: what holds of a body in every state that comes about.
use goja_ext.Prelude.{ℕ, suc, Bool, true, false, some, Bytes, ◌≡◌, refl, sym, ap, ◌∙◌, subst, arith}
use goja_ext.Fetch.Upload.{
  UploadItem, end_of_stream, LoopAt, free, finishing, failing, AbortAt, unstarted, marked,
  closed_by, ended, Upload, ReadCall, promised, broken, read_next_on_loop, Settled, done_value,
  chunk_value, bad_chunk, rejected, on_settled, finish_on_loop, fail_chunk_on_loop,
  release_reader_on_loop, cancel_reader_on_loop,
}
use goja_ext.Fetch.Upload.Balance.{Balanced, Balance, moves, loses, takes_chunk}

abbrev pub bit : Bool → ℕ
bit true = 1
bit false = 0

abbrev pub closes_of : AbortAt → ℕ
closes_of unstarted = 0
closes_of (marked who) = 0
closes_of (closed_by who) = 1
closes_of (ended b) = bit b

pub record IsSound (u : Upload) : Type 0 where
  pub balance : Balance u
  pub closings : u.aborted_closes ≡ closes_of u.abort_at
  pub releasings : u.releases ≡ bit u.released
  pub at_eof : u.gave_eof ≡ true → u.current ≡ some end_of_stream

-- A step that leaves the closing and the releasing alone.
pub rebalanced :
    {u v : Upload}
    → IsSound u
    → Balance v
    → v.abort_at ≡ u.abort_at
    → v.aborted_closes ≡ u.aborted_closes
    → v.released ≡ u.released
    → v.releases ≡ u.releases
    → (v.gave_eof ≡ true → v.current ≡ some end_of_stream)
    → IsSound v
rebalanced i b abort closes rel rels eof = record {
  balance = b;
  closings = closes ∙ i.closings ∙ ap closes_of (sym abort);
  releasings = rels ∙ i.releasings ∙ ap bit (sym rel);
  at_eof = eof;
}

-- The invariant, where the loop stands at a known place.
pub loop_is :
    (u : Upload) {l : LoopAt}
    → u.loop_at ≡ l
    → Balance u
    → Balanced u.current u.items l u.read_at u.queued_reads u.reads u.given u.taken
loop_is u e b =
    subst (λ l. Balanced u.current u.items l u.read_at u.queued_reads u.reads u.given u.taken) e b

pub read_next-IsSound :
    (call : ReadCall) (f : Bool) (k : ℕ) (u : Upload)
    → u.loop_at ≡ free
    → u.queued_reads ≡ suc k
    → IsSound u
    → IsSound (read_next_on_loop call f k u)
unfolding read_next_on_loop
read_next-IsSound call true k u e q i =
    rebalanced i (loses i.balance (omega (arith, q))) refl refl refl refl i.at_eof
read_next-IsSound promised false k u e q i =
    rebalanced i (moves i.balance (omega (arith, q)) refl) refl refl refl refl i.at_eof
read_next-IsSound (broken err) false k u e q i =
    rebalanced i (moves (loop_is u e i.balance) (omega (arith, q)) refl) refl refl refl refl
      i.at_eof

pub settled-IsSound :
    (result : Settled) (f : Bool) (k : ℕ) (u : Upload)
    → u.loop_at ≡ free
    → u.reads ≡ suc k
    → IsSound u
    → IsSound (on_settled result f k u)
unfolding on_settled
settled-IsSound result true k u e q i =
    rebalanced i (loses i.balance (omega (arith, q))) refl refl refl refl i.at_eof
settled-IsSound done_value false k u e q i =
    rebalanced i (moves (loop_is u e i.balance) (omega (arith, q)) refl) refl refl refl refl
      i.at_eof
settled-IsSound (chunk_value b) false k u e q i =
    rebalanced i
      (takes_chunk u.current b (
        subst (λ p. Balanced u.current u.items free u.read_at u.queued_reads p u.given u.taken) q
          (loop_is u e i.balance)))
      refl refl refl refl i.at_eof
settled-IsSound (bad_chunk err) false k u e q i =
    rebalanced i (moves (loop_is u e i.balance) (omega (arith, q)) refl) refl refl refl refl
      i.at_eof
settled-IsSound (rejected reason) false k u e q i =
    rebalanced i (moves (loop_is u e i.balance) (omega (arith, q)) refl) refl refl refl refl
      i.at_eof

pub finish-IsSound :
    (item : UploadItem) (f : Bool) (u : Upload)
    → u.loop_at ≡ finishing item
    → IsSound u
    → IsSound (finish_on_loop item f u)
unfolding finish_on_loop
finish-IsSound item true u e i =
    rebalanced i (loses (loop_is u e i.balance) (omega arith)) refl refl refl refl i.at_eof
finish-IsSound item false u e i =
    rebalanced i (moves (loop_is u e i.balance) refl refl) refl refl refl refl i.at_eof

pub fail-IsSound :
    (err : Bytes) (f : Bool) (u : Upload)
    → u.loop_at ≡ failing err
    → IsSound u
    → IsSound (fail_chunk_on_loop err f u)
unfolding fail_chunk_on_loop
fail-IsSound err true u e i =
    rebalanced i (loses (loop_is u e i.balance) (omega arith)) refl refl refl refl i.at_eof
fail-IsSound err false u e i =
    rebalanced i (moves (loop_is u e i.balance) refl refl) refl refl refl refl i.at_eof

pub release-IsSound :
    (b : Bool) (u : Upload) → u.released ≡ b → IsSound u → IsSound (release_reader_on_loop b u)
unfolding release_reader_on_loop
release-IsSound true u e i = i
release-IsSound false u e i = record {
  balance = i.balance;
  closings = i.closings;
  releasings = omega (arith, i.releasings, ap bit e);
  at_eof = i.at_eof;
}

pub cancel-IsSound :
    (works : Bool) (u : Upload) → IsSound u → IsSound (cancel_reader_on_loop works u)
unfolding cancel_reader_on_loop
cancel-IsSound true u i = rebalanced i i.balance refl refl refl refl i.at_eof
cancel-IsSound false u i = release-IsSound u.released u refl i
