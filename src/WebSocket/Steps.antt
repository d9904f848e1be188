-- ===== src/WebSocket/Steps.antt =====
-- websocket/websocket.go: the goroutine that connects and then reads, and the calls of other goroutines,
-- cut at their critical sections, in every interleaving.
use goja_ext.Prelude.{
  ℕ, zero, suc, Bool, true, false, List, [], ◌∷◌, ◌++◌, Option, none, some, Bytes, codes,
}
use goja_ext.WebSocket.{
  Connection, ReadyState, connecting, opened, closing, closed, Payload, text_frame, hang_up,
  abnormal, set_ready_state, start_closing_socket, try_open, set_conn, trigger_close, trigger_open,
  trigger_message, trigger_error, on_transport, shut_down_quietly, web_socket_close_connection,
  say_goodbye, CloseArg, close_code, close_reason, new_connection,
}

-- What the dialer gives: a transport, or the text of an error.
pub data Dialled : Type 0 where
  refused : Bytes → Dialled
  accepted : (transport : ℕ) → (protocol : Bytes) → Dialled

-- What a read gives. Whether an error is unexpected is the transport library's word.
pub data Received : Type 0 where
  got_message : Payload → Received
  got_other : Received
  read_error : (unexpected : Bool) → Bytes → Received

-- Where the goroutine of `connect`, then `readPump`, stands.
pub data Connector : Type 0 where
  dialing : Connector
  refusing reporting : Bytes → Connector
  linking opening abandoning dropping : ℕ → Connector
  announcing starting checking losing releasing finished : Connector
  pumping receiving : ℕ → Connector
  complaining : Bytes → Connector

-- What the transport makes of a write.
pub data Writing : Type 0 where
  written : Writing
  no_deadline write_failed : Bytes → Writing

-- Where a call of `closeInternal` or of the script's `send` stands.
pub data Caller : Type 0 where
  closes says_goodbye fires : (unregisters : Bool) → ℕ → Bytes → Caller
  shuts : (unregisters : Bool) → Caller
  sends writes : Bytes → Writing → Caller
  complains : Bytes → Caller
  returned : (declined : Bool) → Caller

-- What the outside decides when the connector goes on.
pub record Outside : Type 0 where
  pub dialled : Dialled
  pub received : Received

abbrev pub after_dial : Dialled → Connection → Connector × Connection
after_dial (refused err) c = (refusing err, c)
after_dial (accepted t protocol) c = (linking t, record c { protocol = protocol })

abbrev pub after_try : ℕ → Connection × Bool → Connector × Connection
after_try t (c, true) = (announcing, c)
after_try t (c, false) = (abandoning t, c)

-- `c := conn.getConn()` in readPump. A nil one faults at its first read.
abbrev pub start_at : Option ℕ → Connection → Connector × Connection
start_at none c = (releasing, record c { faults = suc c.faults })
start_at (some t) c = (pumping t, c)

-- `select { case <-conn.done`
abbrev pub select_at : ℕ → ℕ → Connection → Connector × Connection
select_at zero t c = (receiving t, c)
select_at (suc n) t c = (releasing, c)

abbrev pub after_read : ℕ → Received → Connection → Connector × Connection
after_read t (got_message p) c = (pumping t, trigger_message p c)
after_read t got_other c = (pumping t, c)
after_read t (read_error true err) c = (complaining err, c)
after_read t (read_error false err) c = (checking, c)

abbrev pub check_at : ReadyState → Connection → Connector × Connection
check_at connecting c = (losing, c)
check_at opened c = (losing, c)
check_at closing c = (releasing, c)
check_at closed c = (releasing, c)

-- `connect`, then `readPump`
unfoldable pub connector_step : Outside → Connector → Connection → Connector × Connection
connector_step o dialing c = after_dial o.dialled c
connector_step o (refusing err) c = (reporting err, set_ready_state closed c)
connector_step o (reporting err) c = (releasing, trigger_error err c)
connector_step o (linking t) c = (opening t, set_conn (some t) c)
connector_step o (opening t) c = after_try t (try_open c)
connector_step o (abandoning t) c = (dropping t, on_transport (some t) hang_up c)
connector_step o (dropping t) c = (finished, set_conn none c)
connector_step o announcing c = (starting, trigger_open c)
connector_step o starting c = start_at c.conn c
connector_step o (pumping t) c = select_at c.done_closes t c
connector_step o (receiving t) c = after_read t o.received c
connector_step o (complaining err) c = (checking, trigger_error err c)
connector_step o checking c = check_at c.ready_state c
connector_step o losing c = (releasing, trigger_close abnormal (codes "connection lost") c)
connector_step o releasing c = (finished, web_socket_close_connection c)
connector_step o finished c = (finished, c)

abbrev pub after_start : Bool → ℕ → Bytes → Connection × Bool → Caller × Connection
after_start b code reason (c, true) = (says_goodbye b code reason, c)
after_start b code reason (c, false) = (returned true, c)

abbrev pub send_at : ReadyState → Bytes → Writing → Caller
send_at connecting message w = complains (codes "connection is not open")
send_at opened message w = writes message w
send_at closing message w = complains (codes "connection is not open")
send_at closed message w = complains (codes "connection is not open")

abbrev pub after_write : Writing → Caller
after_write written = returned false
after_write (no_deadline err) = complains err
after_write (write_failed err) = complains err

-- A method of a transport that leaves the wire alone: on none, a fault.
abbrev pub set_deadline : Option ℕ → Connection → Connection
set_deadline none c = record c { faults = suc c.faults }
set_deadline (some t) c = c

abbrev pub write_at : Writing → Option ℕ → Bytes → Connection → Connection
write_at written o message c = on_transport o (text_frame message) c
write_at (no_deadline err) o message c = set_deadline o c
write_at (write_failed err) o message c = on_transport o (text_frame message) c

-- `closeInternal` and `Send`
unfoldable pub caller_step : Caller → Connection → Caller × Connection
caller_step (closes b code reason) c = after_start b code reason (start_closing_socket c)
caller_step (says_goodbye b code reason) c = (fires b code reason, say_goodbye code reason c)
caller_step (fires b code reason) c = (shuts b, trigger_close code reason c)
caller_step (shuts true) c = (returned false, web_socket_close_connection c)
caller_step (shuts false) c = (returned false, shut_down_quietly c)
caller_step (sends message w) c = (send_at c.ready_state message w, c)
caller_step (complains err) c = (returned true, trigger_error err c)
caller_step (writes message w) c = (after_write w, write_at w c.conn message c)
caller_step (returned declined) c = (returned declined, c)

-- `Close`, and what CloseAll calls.
abbrev pub close_call : List CloseArg → Caller
close_call args = closes true (close_code args) (close_reason args)

abbrev pub close_without_unregister : List CloseArg → Caller
close_without_unregister args = closes false (close_code args) (close_reason args)

pub record System : Type 0 where
  pub connection : Connection
  pub connector : Connector
  pub callers : List Caller

pub data Step : System → System → Type 0 where
  connects :
      {c : Connection} {p : Connector} {others : List Caller} (o : Outside)
      → Step
          (record { connection = c; connector = p; callers = others })
          (record {
            connection = (connector_step o p c).1;
            connector = (connector_step o p c).0;
            callers = others;
          })
  calls :
      {c : Connection} {p : Connector} (before : List Caller) (q : Caller) (after : List Caller)
      → Step
          (record { connection = c; connector = p; callers = before ++ q ∷ after })
          (record {
            connection = (caller_step q c).1;
            connector = p;
            callers = before ++ (caller_step q c).0 ∷ after;
          })
  begins_close :
      {c : Connection} {p : Connector} {others : List Caller} (args : List CloseArg)
      → Step
          (record { connection = c; connector = p; callers = others })
          (record { connection = c; connector = p; callers = close_call args ∷ others })
  begins_close_all :
      {c : Connection} {p : Connector} {others : List Caller}
      → Step
          (record { connection = c; connector = p; callers = others })
          (record { connection = c; connector = p; callers = close_without_unregister [] ∷ others })
  begins_send :
      {c : Connection} {p : Connector} {others : List Caller} (message : Bytes) (w : Writing)
      → Step
          (record { connection = c; connector = p; callers = others })
          (record { connection = c; connector = p; callers = sends message w ∷ others })
  -- Other connections come to and go from the manager.
  manages :
      {c : Connection} {p : Connector} {others : List Caller} (connections : List ℕ)
      → Step
          (record { connection = c; connector = p; callers = others })
          (record {
            connection = record c { manager = connections };
            connector = p;
            callers = others;
          })

pub data Steps : System → System → Type 0 where
  done : {s : System} → Steps s s
  next : {s t u : System} → Steps s t → Step t u → Steps s u

unfoldable pub start : ℕ → List ℕ → System
start self others = record {
  connection = new_connection self others;
  connector = dialing;
  callers = [];
}
