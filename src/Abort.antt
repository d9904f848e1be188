-- ===== src/Abort.antt =====
-- abort/abort.go: the signal of an AbortController. Listeners and reasons are numbers that stand for
-- JavaScript values; the calls of listeners are kept in order. The mutex makes each function one step.
pub mod Once
use goja_ext.Prelude.{
  ℕ, Bool, true, false, List, [], ◌∷◌, ◌++◌, Option, none, some, ◌==◌, if◌then◌else◌, map,
}

-- What a listener gets: the value given, or the text "Aborted" for undefined and null.
pub data Reason : Type 0 where
  given : ℕ → Reason
  aborted_text : Reason

abbrev pub reason_of : Option ℕ → Reason
reason_of none = aborted_text
reason_of (some value) = given value

pub record AbortSignal : Type 0 where
  pub aborted : Bool
  pub reason : Option Reason
  pub listeners : List ℕ
  pub calls : List (ℕ × Reason)

unfoldable pub new_signal : AbortSignal
new_signal = record { aborted = false; reason = none; listeners = []; calls = [] }

abbrev pub call_all : Reason → List ℕ → List (ℕ × Reason)
call_all reason [] = []
call_all reason (l ∷ ls) = (l, reason) ∷ call_all reason ls

-- The new signal, and whether this call aborted it.
unfoldable pub do_abort : Option ℕ → AbortSignal → AbortSignal × Bool
do_abort value s = if s.aborted then (s, false) else (
  record {
    aborted = true;
    reason = some (reason_of value);
    listeners = [];
    calls = s.calls ++ call_all (reason_of value) s.listeners;
  },
  true,
)

unfoldable pub add_event_listener : ℕ → AbortSignal → AbortSignal
add_event_listener l s = if s.aborted then s else record s { listeners = s.listeners ++ l ∷ [] }

abbrev pub kept : ℕ → List ℕ → List ℕ
kept target [] = []
kept target (l ∷ ls) = if l == target then kept target ls else l ∷ kept target ls

unfoldable pub remove_event_listener : ℕ → AbortSignal → AbortSignal
remove_event_listener target s = record s { listeners = kept target s.listeners }

-- What throwIfAborted throws, if it does.
unfoldable pub throw_if_aborted : AbortSignal → Option Reason
throw_if_aborted s = if s.aborted then s.reason else none
