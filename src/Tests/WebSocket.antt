-- ===== src/Tests/WebSocket.antt =====
-- Runs of websocket/websocket.go.
use goja_ext.Prelude.{ℕ, true, false, List, [], ◌∷◌, some, codes, ◌≡◌, refl}
use goja_ext.WebSocket.{
  Connection, SocketEvent, text_payload, open_event, close_event, closed, opened, new_connection,
  connecting, try_open, set_conn, start_closing_socket, say_goodbye, trigger_close, trigger_open,
  web_socket_close_connection, go_int, go_string,
}
use goja_ext.WebSocket.Steps.{
  System, Steps, done, next, connects, calls, begins_close, Outside, refused, accepted, got_message,
  got_other, connector_step, caller_step, close_call, start, finished, closes, returned,
}
use goja_ext.WebSocket.Once.{Advances}
use goja_ext.WebSocket.History.{steps-Advances, new-IsOnce}
use goja_ext.WebSocket.Reached.{steps-IsLinked}
use goja_ext.WebSocket.Listeners.{
  plain, callback, EventTarget, snapshot_listeners, put_listeners, adds, removes, Use, apply_uses,
  apply_use, new_target, dispatch, add_socket_listener, remove_socket_listener, call_each,
}
use goja_ext.Prelude.{lookup, delete_key, equal}
use goja_ext.WebSocket.Close.{run_caller-closes, run_caller, closed_down, IsActive}
use goja_ext.WebSocket.Listeners.Distinct.{times, listens, once_if, apply_uses-listens}
use goja_ext.WebSocket.{ReadyState, closing}
use goja_ext.Prelude.{◌⊎◌}
use goja_ext.WebSocket.Manager.{unregister}

abbrev answers : Outside
answers = record { dialled = accepted 5 []; received = got_message (text_payload (codes "hi")) }

abbrev tick : System → System
tick s = record {
  connection = (connector_step answers s.connector s.connection).1;
  connector = (connector_step answers s.connector s.connection).0;
  callers = s.callers;
}

abbrev ask_to_close : System → System
ask_to_close s = record {
  connection = s.connection;
  connector = s.connector;
  callers = close_call (go_int 4000 ∷ go_string (codes "bye") ∷ []) ∷ s.callers;
}

abbrev first_call : System → System
first_call s = with_callers s.callers
  where
    with_callers : List goja_ext.WebSocket.Steps.Caller → System
    with_callers [] = s
    with_callers (q ∷ qs) = record {
      connection = (caller_step q s.connection).1;
      connector = s.connector;
      callers = (caller_step q s.connection).0 ∷ qs;
    }

-- Dialled, linked and open, and closed by the script before the open event is handed on.
abbrev open_socket : System
open_socket = tick (tick (tick (start 7 (3 ∷ []))))

abbrev closed_socket : System
closed_socket = first_call (first_call (first_call (first_call (ask_to_close open_socket))))

open_run : Steps (start 7 (3 ∷ [])) open_socket
unfolding connector_step
open_run = next (next (next done (connects answers)) (connects answers)) (connects answers)

closed_run : Steps open_socket closed_socket
unfolding caller_step connector_step start
closed_run =
    next
      (next
        (next
          (next (next done (begins_close (go_int 4000 ∷ go_string (codes "bye") ∷ [])))
            (calls [] _ []))
          (calls [] _ []))
        (calls [] _ []))
      (calls [] _ [])

steps-IsLinked_example :
    (closed_socket.connection.faults ≡ 0)
    × (closed_socket.connection.ready_state ≡ opened
        → (t : ℕ) × (closed_socket.connection.conn ≡ some t))
steps-IsLinked_example = steps-IsLinked 7 (3 ∷ []) closed_socket (whole_run open_run closed_run)
  where
    whole_run : {s t u : System} → Steps s t → Steps t u → Steps s u
    whole_run r done = r
    whole_run r (next q st) = next (whole_run r q) st

steps-Advances_example : Advances open_socket.connection closed_socket.connection
unfolding connector_step
steps-Advances_example =
    steps-Advances closed_run (Advances.once (steps-Advances open_run (new-IsOnce 7 (3 ∷ []))))

run_caller-closes_example :
    (IsActive open_socket.connection.ready_state
      → run_caller 4 (closes true 1000 (codes "bye")) open_socket.connection
        ≡ (returned false, closed_down true 1000 (codes "bye") open_socket.connection))
    × ((open_socket.connection.ready_state ≡ closing)
          ⊎ (open_socket.connection.ready_state ≡ closed)
        → run_caller 4 (closes true 1000 (codes "bye")) open_socket.connection
          ≡ (returned true, open_socket.connection))
unfolding connector_step start try_open set_conn new_connection
run_caller-closes_example =
    run_caller-closes 1000 (codes "bye") open_socket.connection true refl refl

abbrev uses : List Use
uses =
    adds (codes "close") (callback 4)
    ∷ adds (codes "close") (callback 4)
    ∷ adds (codes "close") (callback 6)
    ∷ adds (codes "close") (plain 6)
    ∷ removes (codes "close") (callback 4)
    ∷ []

apply_uses-listens_example :
    times 6 (snapshot_listeners (codes "close") (apply_uses uses new_target))
    ≡ once_if (listens (codes "close") 6 uses false)
apply_uses-listens_example = apply_uses-listens (codes "close") 6 uses

-- Function 6 removes itself and adds another when it is called.
abbrev meddles : ℕ → EventTarget → EventTarget
meddles l t =
    apply_uses (removes (codes "close") (callback 6) ∷ adds (codes "close") (callback 9) ∷ []) t

-- The script closes the socket between `tryOpen` and `triggerOpen`: the open event comes after the close
-- event.
open_after_close :
    (tick closed_socket).connection.events ≡ close_event 4000 (codes "bye") ∷ open_event ∷ []
unfolding connector_step caller_step start new_connection try_open set_conn start_closing_socket
    say_goodbye trigger_close trigger_open web_socket_close_connection unregister
open_after_close = refl

-- The listener that a listener adds is not called for the same event.
dispatch_run : (dispatch meddles (codes "close") (apply_uses uses new_target)).0 ≡ 6 ∷ []
unfolding dispatch call_each apply_uses apply_use new_target add_socket_listener
    remove_socket_listener snapshot_listeners put_listeners unregister lookup delete_key equal
dispatch_run = refl
