-- ===== src/Fetch/Upload/Whole.antt =====
-- fetch/upload.go: Read and the body of `abortOnce`, and every body that comes about.
use goja_ext.Prelude.{
  ℕ, suc, Bool, true, false, List, [], ◌∷◌, ◌++◌, append-nil, append_assoc, Option, none, some,
  Bytes, take, drop, take-append-drop, ◌≡◌, refl, sym, ap, ◌∙◌, subst, arith,
}
use goja_ext.Fetch.Upload.{
  UploadItem, chunk, failed, end_of_stream, LoopAt, enqueuing, ReadAt, reading_items, Aborter,
  by_reader, by_signal, by_close, unstarted, marked, closed_by, ended, Upload, after_enqueue,
  clear_current, serve, serve_rest, begin_abort, close_aborted, end_abort,
}
use goja_ext.Fetch.Upload.Balance.{
  item_bytes, items_bytes, current_bytes, Balanced, Balance, moves, loses, loop_bytes, gives_part,
}
use goja_ext.Fetch.Upload.Sound.{closes_of, IsSound, rebalanced, cancel-IsSound}

abbrev pub ending : Option UploadItem → ℕ
ending none = 0
ending (some (chunk b)) = 0
ending (some (failed err)) = 0
ending (some end_of_stream) = 1

-- Where the current item is not the end, Read has not given it.
pub not_yet :
    (u : Upload) {c : Option UploadItem} {A : Type 0}
    → u.current ≡ c
    → ending c ≡ 0
    → IsSound u
    → u.gave_eof ≡ true
    → A
not_yet u e other i h = absurd (omega (arith, ap ending (sym e ∙ i.at_eof h), other))

-- The item that is current, and Read that is at it.
module _ (u : Upload) (at_items : u.read_at ≡ reading_items) where
  current_is :
      {i : UploadItem}
      → u.current ≡ some i
      → Balance u
      → Balanced (some i) u.items u.loop_at reading_items u.queued_reads u.reads u.given u.taken
  current_is {i} e b =
      subst (λ r. Balanced (some i) u.items u.loop_at r u.queued_reads u.reads u.given u.taken)
        at_items
        (subst (λ c. Balanced c u.items u.loop_at u.read_at u.queued_reads u.reads u.given u.taken)
          e b)

pub enqueue_moves :
    (c : Option UploadItem) (item : UploadItem) (b : Bool) {r : ReadAt} {q p : ℕ} {g t : Bytes}
    → Balanced c [] (enqueuing item b) r q p g t
    → Balanced c (item ∷ []) (after_enqueue b) r q p g t
enqueue_moves c item true h = moves h (omega arith) (
    ap (λ x. current_bytes c ++ x)
      (append-nil (item_bytes item ++ []) ∙ append-nil (item_bytes item)))
enqueue_moves c item false h = moves h (omega arith) (
    ap (λ x. current_bytes c ++ x)
      (append-nil (item_bytes item ++ []) ∙ append-nil (item_bytes item)))

pub give_up_loses :
    (c : Option UploadItem) (item : UploadItem) (b : Bool) {is : List UploadItem} {r : ReadAt}
    {q p : ℕ} {g t : Bytes}
    → Balanced c is (enqueuing item b) r q p g t
    → Balanced c is (after_enqueue b) r q p g t
give_up_loses c item true h = loses h (omega arith)
give_up_loses c item false h = loses h (omega arith)

pub take_moves :
    (item : UploadItem) (rest : List UploadItem) (l : LoopAt) {r : ReadAt} {q p : ℕ} {g t : Bytes}
    → Balanced none (item ∷ rest) l r q p g t
    → Balanced (some item) rest l r q p g t
take_moves item rest l h =
    moves h (omega arith) (sym (append_assoc (item_bytes item) (items_bytes rest) (loop_bytes l)))

-- An empty chunk goes, and Read asks for the next one.
clear-IsSound :
    (f : Bool) (u : Upload) (given : Bytes)
    → u.read_at ≡ reading_items
    → ending u.current ≡ 0
    → IsSound u
    → Balanced
        (some (chunk []))
        u.items
        u.loop_at
        reading_items
        u.queued_reads
        u.reads
        given
        u.taken
    → IsSound (clear_current f (record u { given = given }))
unfolding clear_current
clear-IsSound true u given e other i b =
    rebalanced i
      (loses
        (subst
          (λ r. Balanced (some (chunk [])) u.items u.loop_at r u.queued_reads u.reads given u.taken)
          (sym e) b)
        (omega arith))
      refl refl refl refl (not_yet u refl other i)
clear-IsSound false u given e other i b =
    rebalanced i (moves b (omega arith) refl) refl refl refl refl (not_yet u refl other i)

serve_rest-IsSound :
    (rest : Bytes) (u : Upload) (given : Bytes)
    → u.read_at ≡ reading_items
    → ending u.current ≡ 0
    → IsSound u
    → Balanced
        (some (chunk rest))
        u.items
        u.loop_at
        reading_items
        u.queued_reads
        u.reads
        given
        u.taken
    → IsSound (serve_rest rest (record u { given = given }))
serve_rest-IsSound [] u given e other i b = clear-IsSound u.finished u given e other i b
serve_rest-IsSound (x ∷ rest) u given e other i b =
    rebalanced i
      (subst
        (λ r.
          Balanced (some (chunk (x ∷ rest))) u.items u.loop_at r u.queued_reads u.reads given
            u.taken)
        (sym e) b)
      refl refl refl refl (not_yet u refl other i)

pub serve-IsSound :
    (k : ℕ) (item : UploadItem) (u : Upload)
    → u.read_at ≡ reading_items
    → u.current ≡ some item
    → IsSound u
    → IsSound (serve k item u)
unfolding serve
serve-IsSound k (failed err) u e c i = i
serve-IsSound k end_of_stream u e c i = rebalanced i i.balance refl refl refl refl (λ h. c)
serve-IsSound k (chunk []) u e c i =
    clear-IsSound u.finished u u.given e (ap ending c) i (current_is u e c i.balance)
serve-IsSound k (chunk (x ∷ bytes)) u e c i =
    serve_rest-IsSound (drop (suc k) (x ∷ bytes)) u (u.given ++ take (suc k) (x ∷ bytes)) e
      (ap ending c) i
      (gives_part u.loop_at (x ∷ bytes) (take (suc k) (x ∷ bytes)) (drop (suc k) (x ∷ bytes))
        (take-append-drop (suc k) (x ∷ bytes)) (current_is u e c i.balance))

pub begin-IsSound :
    (who : Aborter) (f : Bool) (u : Upload)
    → u.abort_at ≡ unstarted
    → IsSound u
    → IsSound (begin_abort who f u)
unfolding begin_abort
begin-IsSound by_signal true u e i = record {
  balance = i.balance;
  closings = i.closings ∙ ap closes_of e;
  releasings = i.releasings;
  at_eof = i.at_eof;
}
begin-IsSound by_signal false u e i = record {
  balance = i.balance;
  closings = i.closings ∙ ap closes_of e;
  releasings = i.releasings;
  at_eof = i.at_eof;
}
begin-IsSound by_reader f u e i = record {
  balance = i.balance;
  closings = i.closings ∙ ap closes_of e;
  releasings = i.releasings;
  at_eof = i.at_eof;
}
begin-IsSound by_close f u e i = record {
  balance = i.balance;
  closings = i.closings ∙ ap closes_of e;
  releasings = i.releasings;
  at_eof = i.at_eof;
}

pub close-IsSound :
    (who : Aborter) (u : Upload)
    → u.abort_at ≡ marked who
    → IsSound u
    → IsSound (close_aborted who u)
unfolding close_aborted
close-IsSound who u e i = record {
  balance = i.balance;
  closings = omega (arith, i.closings, ap closes_of e);
  releasings = i.releasings;
  at_eof = i.at_eof;
}

-- The body of `abortOnce` at its end.
ended-IsSound :
    (who : Aborter) (u : Upload)
    → u.abort_at ≡ closed_by who
    → IsSound u
    → IsSound (record u { abort_at = ended true })
ended-IsSound who u e i = record {
  balance = i.balance;
  closings = i.closings ∙ ap closes_of e;
  releasings = i.releasings;
  at_eof = i.at_eof;
}

pub end-IsSound :
    (who : Aborter) (works : Bool) (u : Upload)
    → u.abort_at ≡ closed_by who
    → IsSound u
    → IsSound (end_abort who works u)
unfolding end_abort
end-IsSound by_reader works u e i = ended-IsSound by_reader u e i
end-IsSound by_signal works u e i = cancel-IsSound works _ (ended-IsSound by_signal u e i)
end-IsSound by_close true u e i =
    let j = ended-IsSound by_close u e i in
    record {
      balance = j.balance;
      closings = j.closings;
      releasings = j.releasings;
      at_eof = j.at_eof;
    }
end-IsSound by_close false u e i = ended-IsSound by_close u e i
