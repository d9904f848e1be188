-- ===== src/WebSocket.antt =====
-- websocket/websocket.go: one connection, what its goroutines share. Connections, transports and
-- JavaScript values are numbers. Each function here is one critical section; WebSocket/Steps.antt puts
-- them in the order the code runs them.
pub mod Manager
pub mod Listeners
pub mod Steps
pub mod Once
pub mod History
pub mod Linked
pub mod Safe
pub mod Reached
pub mod Close
use goja_ext.Prelude.{ℕ, suc, Bool, true, false, List, [], ◌∷◌, ◌++◌, Option, none, some, Bytes}
use goja_ext.WebSocket.Manager.{unregister}

pub data ReadyState : Type 0 where
  connecting opened closing closed : ReadyState

-- What scripts read.
abbrev pub rank : ReadyState → ℕ
rank connecting = 0
rank opened = 1
rank closing = 2
rank closed = 3

pub data Payload : Type 0 where
  text_payload binary_payload : Bytes → Payload

-- An event, as it is handed to the loop.
pub data SocketEvent : Type 0 where
  open_event : SocketEvent
  message_event : Payload → SocketEvent
  close_event : ℕ → Bytes → SocketEvent
  error_event : Bytes → SocketEvent

-- What is done to the transport.
pub data WireAction : Type 0 where
  close_frame : ℕ → Bytes → WireAction
  text_frame : Bytes → WireAction
  hang_up : WireAction

pub record Connection : Type 0 where
  pub self : ℕ
  pub manager : List ℕ
  pub ready_state : ReadyState
  pub conn : Option ℕ
  pub protocol : Bytes
  pub close_fired : Bool
  -- Whether `shutdownOnce` has run, and how often `done` was closed.
  pub shut_down : Bool
  pub done_closes : ℕ
  -- The events handed to the loop, and what each transport was told, in order.
  pub events : List SocketEvent
  pub wire : List (ℕ × WireAction)
  -- Calls of a method on a connection that is nil.
  pub faults : ℕ

-- CloseNormalClosure, CloseAbnormalClosure
abbrev pub normal_closure : ℕ
normal_closure = 1000

abbrev pub abnormal : ℕ
abnormal = 1006

-- What dispatchEvent hands to the scheduler, without which no connection is made.
abbrev pub dispatch_event : SocketEvent → Connection → Connection
dispatch_event e c = record c { events = c.events ++ e ∷ [] }

unfoldable pub set_ready_state : ReadyState → Connection → Connection
set_ready_state r c = record c { ready_state = r }

-- The connection after, and whether this call started the closing.
abbrev pub start_closing_at : ReadyState → Connection → Connection × Bool
start_closing_at connecting c = (record c { ready_state = closing }, true)
start_closing_at opened c = (record c { ready_state = closing }, true)
start_closing_at closing c = (c, false)
start_closing_at closed c = (c, false)

unfoldable pub start_closing_socket : Connection → Connection × Bool
start_closing_socket c = start_closing_at c.ready_state c

abbrev pub try_open_at : ReadyState → Connection → Connection × Bool
try_open_at connecting c = (record c { ready_state = opened }, true)
try_open_at opened c = (c, false)
try_open_at closing c = (c, false)
try_open_at closed c = (c, false)

unfoldable pub try_open : Connection → Connection × Bool
try_open c = try_open_at c.ready_state c

unfoldable pub set_conn : Option ℕ → Connection → Connection
set_conn t c = record c { conn = t }

abbrev pub trigger_close_at : Bool → ℕ → Bytes → Connection → Connection
trigger_close_at true code reason c = c
trigger_close_at false code reason c =
    dispatch_event (close_event code reason) (record c { close_fired = true; ready_state = closed })

unfoldable pub trigger_close : ℕ → Bytes → Connection → Connection
trigger_close code reason c = trigger_close_at c.close_fired code reason c

unfoldable pub trigger_open : Connection → Connection
trigger_open c = dispatch_event open_event c

unfoldable pub trigger_message : Payload → Connection → Connection
trigger_message p c = dispatch_event (message_event p) c

unfoldable pub trigger_error : Bytes → Connection → Connection
trigger_error err c = dispatch_event (error_event err) c

-- An action on a transport: on none, a fault.
abbrev pub on_transport : Option ℕ → WireAction → Connection → Connection
on_transport none a c = record c { faults = suc c.faults }
on_transport (some t) a c = record c { wire = c.wire ++ (t, a) ∷ [] }

-- `if c := conn.getConn(); c != nil { c.Close() }`
abbrev pub hang_up_if : Option ℕ → Connection → Connection
hang_up_if none c = c
hang_up_if (some t) c = on_transport (some t) hang_up c

abbrev pub shut_down_at : Bool → Connection → Connection
shut_down_at true c = c
shut_down_at false c =
    hang_up_if c.conn (record c { shut_down = true; done_closes = suc c.done_closes })

-- `shutdownOnce.Do`, as CloseAll's calls have it.
unfoldable pub shut_down_quietly : Connection → Connection
shut_down_quietly c = shut_down_at c.shut_down c

abbrev pub web_socket_close_connection_at : Bool → Connection → Connection
web_socket_close_connection_at true c = c
web_socket_close_connection_at false c =
    shut_down_at false (record c { manager = unregister c.self c.manager })

unfoldable pub web_socket_close_connection : Connection → Connection
web_socket_close_connection c = web_socket_close_connection_at c.shut_down c

-- The closing frame, and the transport closed.
abbrev pub say_goodbye_to : Option ℕ → ℕ → Bytes → Connection → Connection
say_goodbye_to none code reason c = c
say_goodbye_to (some t) code reason c =
    on_transport (some t) hang_up (on_transport (some t) (close_frame code reason) c)

unfoldable pub say_goodbye : ℕ → Bytes → Connection → Connection
say_goodbye code reason c = say_goodbye_to c.conn code reason c

-- The arguments of `close`, as exported Go values.
pub data CloseArg : Type 0 where
  go_int : ℕ → CloseArg
  go_string : Bytes → CloseArg
  other_value : CloseArg

abbrev pub close_code : List CloseArg → ℕ
close_code [] = normal_closure
close_code (go_int code ∷ args) = code
close_code (go_string s ∷ args) = normal_closure
close_code (other_value ∷ args) = normal_closure

abbrev pub close_reason : List CloseArg → Bytes
close_reason [] = []
close_reason (a ∷ []) = []
close_reason (a ∷ go_string s ∷ args) = s
close_reason (a ∷ go_int n ∷ args) = []
close_reason (a ∷ other_value ∷ args) = []

-- NewWebSocketConnection, before the goroutine starts.
unfoldable pub new_connection : ℕ → List ℕ → Connection
new_connection self others = record {
  self = self;
  manager = others ++ self ∷ [];
  ready_state = connecting;
  conn = none;
  protocol = [];
  close_fired = false;
  shut_down = false;
  done_closes = 0;
  events = [];
  wire = [];
  faults = 0;
}
