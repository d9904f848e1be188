-- ===== src/WebSocket/History.antt =====
-- websocket/websocket.go: what holds of a connection at every point of every interleaving.
use goja_ext.Prelude.{
  ℕ, zero, suc, Bool, true, false, List, Option, none, some, Bytes, refl, ap, arith,
}
use goja_ext.WebSocket.{
  Connection, ReadyState, connecting, opened, closing, closed, open_event, message_event,
  error_event, start_closing_socket, try_open, set_conn, trigger_close, trigger_open,
  trigger_message, trigger_error, shut_down_quietly, web_socket_close_connection, say_goodbye,
  new_connection,
}
use goja_ext.WebSocket.Once.{
  as_count, IsOnce, Advances, stays, same_marks, dispatched, set_closed, closing_started,
  opening_tried, close_triggered, told, said_goodbye, shut_once, released_once,
}
use goja_ext.WebSocket.Steps.{
  Writing, written, no_deadline, write_failed, complains, write_at, System, Step, connects, calls,
  begins_close, begins_close_all, begins_send, manages, Steps, done, next, Outside, Connector,
  connector_step, Caller, caller_step, dialing, refusing, reporting, linking, opening, abandoning,
  dropping, announcing, starting, checking, losing, releasing, finished, pumping, receiving,
  complaining, closes, says_goodbye, fires, shuts, sends, writes, returned, refused, accepted,
  got_message, got_other, read_error, after_dial, after_try, start_at, select_at, after_read,
  check_at, after_start, Dialled, Received, start,
}

module _ (c : Connection) (i : IsOnce c) where
  dial_Advances : (d : Dialled) → Advances c (after_dial d c).1
  dial_Advances (refused err) = stays i
  dial_Advances (accepted t protocol) = same_marks i refl refl refl refl refl

  try_Advances : (t : ℕ) (r : Connection × Bool) → Advances c r.0 → Advances c (after_try t r).1
  try_Advances t (d, true) a = a
  try_Advances t (d, false) a = a

  start_Advances : (o : Option ℕ) → Advances c (start_at o c).1
  start_Advances none = same_marks i refl refl refl refl refl
  start_Advances (some t) = stays i

  select_Advances : (n t : ℕ) → Advances c (select_at n t c).1
  select_Advances zero t = stays i
  select_Advances (suc n) t = stays i

  read_Advances : (t : ℕ) (r : Received) → Advances c (after_read t r c).1
  unfolding trigger_message
  read_Advances t (got_message p) = dispatched c (message_event p) refl i
  read_Advances t got_other = stays i
  read_Advances t (read_error true err) = stays i
  read_Advances t (read_error false err) = stays i

  check_Advances : (r : ReadyState) → Advances c (check_at r c).1
  check_Advances connecting = stays i
  check_Advances opened = stays i
  check_Advances closing = stays i
  check_Advances closed = stays i

  connector_Advances : (o : Outside) (p : Connector) → Advances c (connector_step o p c).1
  unfolding connector_step trigger_error try_open set_conn trigger_open trigger_close
      web_socket_close_connection
  connector_Advances o dialing = dial_Advances o.dialled
  connector_Advances o (refusing err) = set_closed c i
  connector_Advances o (reporting err) = dispatched c (error_event err) refl i
  connector_Advances o (linking t) = same_marks i refl refl refl refl refl
  connector_Advances o (opening t) = try_Advances t _ (opening_tried c c.ready_state refl i)
  connector_Advances o (abandoning t) = same_marks i refl refl refl refl refl
  connector_Advances o (dropping t) = same_marks i refl refl refl refl refl
  connector_Advances o announcing = dispatched c open_event refl i
  connector_Advances o starting = start_Advances c.conn
  connector_Advances o (pumping t) = select_Advances c.done_closes t
  connector_Advances o (receiving t) = read_Advances t o.received
  connector_Advances o (complaining err) = dispatched c (error_event err) refl i
  connector_Advances o checking = check_Advances c.ready_state
  connector_Advances o losing = close_triggered c c.close_fired _ _ refl i
  connector_Advances o releasing = released_once c c.shut_down refl i
  connector_Advances o finished = stays i

  begun_Advances :
      (b : Bool) (code : ℕ) (reason : Bytes) (r : Connection × Bool)
      → Advances c r.0
      → Advances c (after_start b code reason r).1
  begun_Advances b code reason (d, true) a = a
  begun_Advances b code reason (d, false) a = a

  write_Advances :
      (w : Writing) (o : Option ℕ) (message : Bytes) → Advances c (write_at w o message c)
  write_Advances written o message = told o _ c i
  write_Advances (no_deadline err) none message = same_marks i refl refl refl refl refl
  write_Advances (no_deadline err) (some t) message = stays i
  write_Advances (write_failed err) o message = told o _ c i

  caller_Advances : (q : Caller) → Advances c (caller_step q c).1
  unfolding caller_step start_closing_socket say_goodbye trigger_close web_socket_close_connection
      trigger_error shut_down_quietly
  caller_Advances (closes b code reason) =
      begun_Advances b code reason _ (closing_started c c.ready_state refl i)
  caller_Advances (says_goodbye b code reason) = said_goodbye c.conn code reason c i
  caller_Advances (fires b code reason) = close_triggered c c.close_fired code reason refl i
  caller_Advances (shuts true) = released_once c c.shut_down refl i
  caller_Advances (shuts false) = shut_once c c.shut_down refl i
  caller_Advances (sends message w) = stays i
  caller_Advances (writes message w) = write_Advances w c.conn message
  caller_Advances (complains err) = dispatched c (error_event err) refl i
  caller_Advances (returned declined) = stays i

step_Advances : {s t : System} → Step s t → IsOnce s.connection → Advances s.connection t.connection
step_Advances (connects {c} {p} o) i = connector_Advances c i o p
step_Advances (calls {c} before q after) i = caller_Advances c i q
step_Advances (begins_close args) i = stays i
step_Advances begins_close_all i = stays i
step_Advances (begins_send message w) i = stays i
step_Advances (manages connections) i = same_marks i refl refl refl refl refl

-- From any point at which it holds, and however the goroutine and any calls of Close, CloseAll and Send
-- interleave: exactly one close event has been handed to the loop when `closeFired` is set and none
-- otherwise, with it the state is CLOSED, `done` is closed once when `shutdownOnce` has run and not
-- before, and `readyState` never goes back.
pub steps-Advances :
    {s t : System} → Steps s t → IsOnce s.connection → Advances s.connection t.connection
steps-Advances done i = stays i
steps-Advances (next before st) i =
    let a = steps-Advances before i in
    let b = step_Advances st a.once in
    record { once = b.once; onward = omega (arith, a.onward, b.onward) }

pub new-IsOnce : (self : ℕ) (others : List ℕ) → IsOnce (System.connection (start self others))
unfolding start new_connection
new-IsOnce self others = record {
  fired = refl;
  fired_closed = λ h. absurd (omega (arith, ap as_count h));
  dones = refl;
}
