-- ===== src/Abort/Once.antt =====
-- abort/abort.go: whom a signal calls, over any sequence of calls.
use goja_ext.Prelude.{ℕ, true, List, [], ◌∷◌, ◌++◌, Option, none, some}
use goja_ext.Abort.{
  Reason, reason_of, AbortSignal, call_all, do_abort, add_event_listener, kept,
  remove_event_listener,
}

pub data SignalCall : Type 0 where
  abort : Option ℕ → SignalCall
  add : ℕ → SignalCall
  remove : ℕ → SignalCall

abbrev pub after_call : SignalCall → AbortSignal → AbortSignal
after_call (abort value) s = (do_abort value s).0
after_call (add l) s = add_event_listener l s
after_call (remove l) s = remove_event_listener l s

abbrev pub after_calls : List SignalCall → AbortSignal → AbortSignal
after_calls [] s = s
after_calls (c ∷ cs) s = after_calls cs (after_call c s)

-- Whom the first abort calls: those who listen then, each once, in the order in which they came, with its
-- reason.
abbrev pub called : List ℕ → List SignalCall → List (ℕ × Reason)
called ls [] = []
called ls (abort value ∷ cs) = call_all (reason_of value) ls
called ls (add l ∷ cs) = called (ls ++ l ∷ []) cs
called ls (remove l ∷ cs) = called (kept l ls) cs

-- The reason of the first abort.
abbrev pub first_reason : List SignalCall → Option Reason
first_reason [] = none
first_reason (abort value ∷ cs) = some (reason_of value)
first_reason (add l ∷ cs) = first_reason cs
first_reason (remove l ∷ cs) = first_reason cs

-- Of an aborted signal nothing changes any more.
abbrev done : Reason → List (ℕ × Reason) → AbortSignal
done reason calls = record { aborted = true; reason = some reason; listeners = []; calls = calls }
