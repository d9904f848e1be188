-- ===== src/Fs/Handle/Sound.antt =====
-- What is true of a file handle however operations and calls of Close on it interleave.
use goja_ext.Prelude.{
  ℕ, ◌+◌, Bool, true, false, not, ◌&&◌, List, [], ◌∷◌, Option, ◌≡◌, refl, ap, ◌∙◌, sym, arith, inl,
  inr, ◌⊎◌, if_split,
}
use goja_ext.Fs.Handle.{
  FileEvent, use_began, use_ended, file_closed, done_closed, Closing, open_file, closing_file,
  completing, completed, FileHandle, new_file_handle, begin_operation, finish_operation, close,
  close_file, complete_close, start_closing,
}
use goja_ext.Fs.Handle.Steps.{begins, finishes, closes, closes_file, completes, Opened, fresh, next}

abbrev pub closings : List FileEvent → ℕ
closings [] = 0
closings (file_closed ∷ log) = 1 + closings log
closings (e ∷ log) = closings log

abbrev pub completions : List FileEvent → ℕ
completions [] = 0
completions (done_closed ∷ log) = 1 + completions log
completions (e ∷ log) = completions log

-- Whether an operation is at work on the file.
abbrev pub in_use : List FileEvent → Bool
in_use [] = false
in_use (use_began ∷ log) = true
in_use (use_ended ∷ log) = false
in_use (e ∷ log) = in_use log

-- One operation after the other; the file is closed when none is at work, after all of them and at most
-- once; and closeDone is closed after the file and at most once.
abbrev pub IsProper : List FileEvent → Type 0
IsProper [] = Unit
IsProper (use_began ∷ log) = (in_use log ≡ false) × (closings log ≡ 0) × IsProper log
IsProper (use_ended ∷ log) = (in_use log ≡ true) × (closings log ≡ 0) × IsProper log
IsProper (file_closed ∷ log) = (in_use log ≡ false) × (closings log ≡ 0) × IsProper log
IsProper (done_closed ∷ log) = (closings log ≡ 1) × (completions log ≡ 0) × IsProper log

abbrev started : Closing → Bool
started open_file = false
started closing_file = true
started completing = true
started completed = true

abbrev pub file_is_closed : Closing → ℕ
file_is_closed open_file = 0
file_is_closed closing_file = 0
file_is_closed completing = 1
file_is_closed completed = 1

abbrev pub is_completed : Closing → ℕ
is_completed open_file = 0
is_completed closing_file = 0
is_completed completing = 0
is_completed completed = 1

pub record IsSafe (f : FileHandle) : Type 0 where
  pub locked : f.active ≡ true → f.operating ≡ true
  pub phase : f.close_started ≡ started f.closing
  pub asked : f.close_started ≡ true → f.close_requested ≡ true
  pub taken_up : f.close_requested ≡ true → (f.active ≡ true) ⊎ (f.close_started ≡ true)
  pub exclusive : f.active ≡ true → f.close_started ≡ false
  pub in_turn : in_use f.log ≡ f.active
  pub closed : closings f.log ≡ file_is_closed f.closing
  pub done : completions f.log ≡ is_completed f.closing
  pub proper : IsProper f.log

new-IsSafe : IsSafe new_file_handle
unfolding new_file_handle
new-IsSafe = record {
  locked = λ h. cc;
  phase = refl;
  asked = λ h. cc;
  taken_up = λ h. cc;
  exclusive = λ h. cc;
  in_turn = refl;
  closed = refl;
  done = refl;
  proper = tt;
}

-- A handle whose file is not being closed.
not_closed :
    {f : FileHandle}
    → IsSafe f
    → f.close_started ≡ false
    → (closings f.log ≡ 0) × (completions f.log ≡ 0) × (f.closing ≡ open_file)
not_closed {f} i h = by_phase f.closing (sym i.phase ∙ h) i.closed i.done
  where
    by_phase :
        (c : Closing)
        → started c ≡ false
        → closings f.log ≡ file_is_closed c
        → completions f.log ≡ is_completed c
        → (closings f.log ≡ 0) × (completions f.log ≡ 0) × (c ≡ open_file)
    by_phase open_file s k d = (k, d, refl)
    by_phase closing_file s k d = cc
    by_phase completing s k d = cc
    by_phase completed s k d = cc

begin_operation-IsSafe :
    (f : FileHandle) → f.operating ≡ false → IsSafe f → IsSafe (begin_operation f)
unfolding begin_operation
begin_operation-IsSafe f free i = if_split IsSafe f.close_requested _ _ (λ _. i) fresh_use
  where
    idle : (b : Bool) → f.active ≡ b → f.active ≡ false
    idle true h = absurd (ground (arith, i.locked h, free))
    idle false h = h

    fresh_use :
        f.close_requested ≡ false
        → IsSafe (record f { operating = true; active = true; log = use_began ∷ f.log })
    fresh_use unasked =
        let unstarted : f.close_started ≡ false = ground (arith, i.asked, unasked) in
        let (k, d, c) = not_closed i unstarted in
        record {
          locked = λ _. refl;
          phase = i.phase;
          asked = i.asked;
          taken_up = λ _. inl refl;
          exclusive = λ _. unstarted;
          in_turn = refl;
          closed = i.closed;
          done = i.done;
          proper = (i.in_turn ∙ idle f.active refl, k, i.proper);
        }

finish_operation-IsSafe :
    (f : FileHandle) → f.active ≡ true → IsSafe f → IsSafe (finish_operation f)
unfolding finish_operation
finish_operation-IsSafe f busy i =
    if_split IsSafe (f.close_requested && not f.close_started) _ _ closing_case open_case
  where
    unstarted : f.close_started ≡ false
    unstarted = i.exclusive busy

    facts : (closings f.log ≡ 0) × (completions f.log ≡ 0) × (f.closing ≡ open_file)
    facts = not_closed i unstarted

    closing_case :
        (f.close_requested && not f.close_started) ≡ true
        → IsSafe (start_closing true (record f { active = false; log = use_ended ∷ f.log }))
    closing_case asked = record {
      locked = λ h. cc;
      phase = refl;
      asked = λ _. ground (arith, asked);
      taken_up = λ _. inr refl;
      exclusive = λ h. cc;
      in_turn = refl;
      closed = facts.0;
      done = facts.1;
      proper = (i.in_turn ∙ busy, facts.0, i.proper);
    }

    open_case :
        (f.close_requested && not f.close_started) ≡ false
        → IsSafe (record f { active = false; log = use_ended ∷ f.log; operating = false })
    open_case h = record {
      locked = λ k. cc;
      phase = i.phase;
      asked = i.asked;
      taken_up = λ r. ground (arith, h, r, unstarted);
      exclusive = λ k. cc;
      in_turn = refl;
      closed = i.closed;
      done = i.done;
      proper = (i.in_turn ∙ busy, facts.0, i.proper);
    }

close-IsSafe : (f : FileHandle) → IsSafe f → IsSafe (close f)
unfolding close
close-IsSafe f i =
    if_split IsSafe f.close_requested _ _ (λ _. i)
      (λ unasked. if_split IsSafe f.active _ _ busy_case (idle_case unasked))
  where
    busy_case : f.active ≡ true → IsSafe (record f { close_requested = true })
    busy_case busy = record {
      locked = i.locked;
      phase = i.phase;
      asked = λ _. refl;
      taken_up = λ _. inl busy;
      exclusive = i.exclusive;
      in_turn = i.in_turn;
      closed = i.closed;
      done = i.done;
      proper = i.proper;
    }

    idle_case :
        f.close_requested ≡ false
        → f.active ≡ false
        → IsSafe (start_closing false (record f { close_requested = true }))
    idle_case unasked idle =
        let unstarted : f.close_started ≡ false = ground (arith, i.asked, unasked) in
        let (k, d, c) = not_closed i unstarted in
        record {
          locked = i.locked;
          phase = refl;
          asked = λ _. refl;
          taken_up = λ _. inr refl;
          exclusive = λ busy. ground (arith, busy, idle);
          in_turn = i.in_turn;
          closed = k;
          done = d;
          proper = i.proper;
        }

-- While the file is being closed, no operation is at work.
idle_of :
    {f : FileHandle} (c : Closing) → IsSafe f → f.closing ≡ c → started c ≡ true → f.active ≡ false
idle_of {f} c i e s = ground (arith, i.exclusive, i.phase ∙ ap started e ∙ s)

close_file-IsSafe : (f : FileHandle) → f.closing ≡ closing_file → IsSafe f → IsSafe (close_file f)
unfolding close_file
close_file-IsSafe f e i =
    let idle : f.active ≡ false = idle_of closing_file i e refl in
    let k : closings f.log ≡ 0 = i.closed ∙ ap file_is_closed e in
    record {
      locked = i.locked;
      phase = i.phase ∙ ap started e;
      asked = i.asked;
      taken_up = i.taken_up;
      exclusive = i.exclusive;
      in_turn = i.in_turn;
      closed = omega (arith, k);
      done = i.done ∙ ap is_completed e;
      proper = (i.in_turn ∙ idle, k, i.proper);
    }

complete_close-IsSafe :
    (err : Option ℕ) (f : FileHandle)
    → f.closing ≡ completing
    → IsSafe f
    → IsSafe (complete_close err f)
unfolding complete_close
complete_close-IsSafe err f e i =
    let idle : f.active ≡ false = idle_of completing i e refl in
    let d : completions f.log ≡ 0 = i.done ∙ ap is_completed e in
    record {
      locked = λ busy. ground (arith, busy, idle);
      phase = i.phase ∙ ap started e;
      asked = i.asked;
      taken_up = i.taken_up;
      exclusive = i.exclusive;
      in_turn = i.in_turn;
      closed = i.closed ∙ ap file_is_closed e;
      done = omega (arith, d);
      proper = (i.closed ∙ ap file_is_closed e, d, i.proper);
    }

-- However operations and calls of Close interleave on an opened handle: operations on the file exclude each
-- other, the file is closed at most once, when no operation is at work and with none after it; closeDone is
-- closed at most once and after the file; and once Close was called, an operation that is at work will
-- close the file when it ends, or the closing has started.
pub Opened-IsSafe : (f : FileHandle) → Opened f → IsSafe f
Opened-IsSafe f fresh = new-IsSafe
Opened-IsSafe f (next o (begins {f = g} free)) = begin_operation-IsSafe g free (Opened-IsSafe g o)
Opened-IsSafe f (next o (finishes {f = g} busy)) =
    finish_operation-IsSafe g busy (Opened-IsSafe g o)
Opened-IsSafe f (next o (closes {f = g})) = close-IsSafe g (Opened-IsSafe g o)
Opened-IsSafe f (next o (closes_file {f = g} e)) = close_file-IsSafe g e (Opened-IsSafe g o)
Opened-IsSafe f (next o (completes {f = g} err e)) =
    complete_close-IsSafe err g e (Opened-IsSafe g o)
