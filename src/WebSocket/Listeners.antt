-- ===== src/WebSocket/Listeners.antt =====
-- websocket/websocket.go: the handlers and the listeners of a connection, and one event's calls. A
-- JavaScript value that is a function is known by its number.
pub mod Distinct
use goja_ext.Prelude.{
  ℕ, zero, suc, ◌+◌, Bool, true, false, not, List, [], ◌∷◌, ◌++◌, Option, none, some, Bytes, codes,
  equal, equal_iff, lookup, delete_key, lookup-delete_key, ◌==◌, ==_iff, ==_self, if◌then◌else◌,
  if_split, All, ◌≡◌, refl, sym, ap, ◌∙◌, subst, arith,
}
use goja_ext.WebSocket.Manager.{unregister}

pub data JsValue : Type 0 where
  nullish : JsValue
  plain callback : ℕ → JsValue

pub record EventTarget : Type 0 where
  pub onopen : JsValue
  pub onmessage : JsValue
  pub onclose : JsValue
  pub onerror : JsValue
  pub event_listeners : List (Bytes × List ℕ)

abbrev or_nil : Option (List ℕ) → List ℕ
or_nil none = []
or_nil (some ls) = ls

-- `conn.eventListeners[eventType]`
unfoldable pub snapshot_listeners : Bytes → EventTarget → List ℕ
snapshot_listeners event_type t = or_nil (lookup event_type t.event_listeners)

unfoldable pub put_listeners : Bytes → List ℕ → EventTarget → EventTarget
put_listeners event_type ls t = record t {
  event_listeners = (event_type, ls) ∷ delete_key event_type t.event_listeners;
}

abbrev pub listed : ℕ → List ℕ → Bool
listed l [] = false
listed l (x ∷ xs) = if x == l then true else listed l xs

unfoldable pub add_socket_listener : Bytes → JsValue → EventTarget → EventTarget
add_socket_listener event_type nullish t = t
add_socket_listener event_type (plain v) t = t
add_socket_listener event_type (callback l) t =
    let ls = snapshot_listeners event_type t in
    if listed l ls then t else put_listeners event_type (ls ++ l ∷ []) t

-- A value that is no function is never among the listeners.
unfoldable pub remove_socket_listener : Bytes → JsValue → EventTarget → EventTarget
remove_socket_listener event_type nullish t = t
remove_socket_listener event_type (plain v) t = t
remove_socket_listener event_type (callback l) t =
    let ls = snapshot_listeners event_type t in
    if listed l ls then put_listeners event_type (unregister l ls) t else t

abbrev pub handler_of : Bytes → EventTarget → JsValue
handler_of event_type t =
    if equal event_type (codes "open")
    then t.onopen
    else if equal event_type (codes "message")
    then t.onmessage
    else if equal event_type (codes "close")
    then t.onclose
    else if equal event_type (codes "error")
    then t.onerror
    else nullish

abbrev pub as_call : JsValue → List ℕ
as_call nullish = []
as_call (plain v) = []
as_call (callback f) = f ∷ []

-- What calling a function does to the connection's handlers and listeners is the script's business.
module _ (effect : ℕ → EventTarget → EventTarget) where
  -- The calls in order, and what they leave. A call's error is logged and the next call is made.
  unfoldable pub call_each : List ℕ → EventTarget → List ℕ × EventTarget
  call_each [] t = ([], t)
  call_each (l ∷ ls) t = let rest = call_each ls (effect l t) in (l ∷ rest.0, rest.1)

  -- dispatchEvent's function on the loop.
  unfoldable pub dispatch : Bytes → EventTarget → List ℕ × EventTarget
  dispatch event_type t =
      let handled = call_each (as_call (handler_of event_type t)) t in
      let rest = call_each (snapshot_listeners event_type handled.1) handled.1 in
      (handled.0 ++ rest.0, rest.1)

  call_each-calls : (ls : List ℕ) (t : EventTarget) → (call_each ls t).0 ≡ ls
  unfolding call_each
  call_each-calls [] t = refl
  call_each-calls (l ∷ ls) t = ap (λ r. l ∷ r) (call_each-calls ls (effect l t))

  -- Whatever the functions do to the handlers and the listeners while they run, an event calls the
  -- handler that was set when it was dispatched, if that is a function, and then, in order, the listeners
  -- that the handler left: one that a listener adds is not called for this event, and one that a listener
  -- removes still is.
  pub dispatch-calls :
      (event_type : Bytes) (t : EventTarget)
      → (dispatch event_type t).0
        ≡ as_call (handler_of event_type t)
          ++ snapshot_listeners event_type (call_each (as_call (handler_of event_type t)) t).1
  unfolding dispatch
  dispatch-calls event_type t =
      let h = call_each (as_call (handler_of event_type t)) t in
      ap (λ r. r ++ (call_each (snapshot_listeners event_type h.1) h.1).0)
        (call_each-calls (as_call (handler_of event_type t)) t)
      ∙ ap (λ r. as_call (handler_of event_type t) ++ r)
          (call_each-calls (snapshot_listeners event_type h.1) h.1)

-- What a script does to a connection.
pub data Use : Type 0 where
  adds removes : Bytes → JsValue → Use
  handles : (onopen onmessage onclose onerror : JsValue) → Use

unfoldable pub apply_use : Use → EventTarget → EventTarget
apply_use (adds event_type v) t = add_socket_listener event_type v t
apply_use (removes event_type v) t = remove_socket_listener event_type v t
apply_use (handles a b c d) t = record t { onopen = a; onmessage = b; onclose = c; onerror = d }

unfoldable pub apply_uses : List Use → EventTarget → EventTarget
apply_uses [] t = t
apply_uses (u ∷ us) t = apply_uses us (apply_use u t)

unfoldable pub new_target : EventTarget
new_target = record {
  onopen = nullish;
  onmessage = nullish;
  onclose = nullish;
  onerror = nullish;
  event_listeners = [];
}
