-- ===== src/WebSocket/Once.antt =====
-- websocket/websocket.go: closeFired, shutdownOnce and readyState in every interleaving.
use goja_ext.Prelude.{
  ℕ, suc, ◌+◌, ◌≤◌, Bool, true, false, List, [], ◌∷◌, ◌++◌, Option, none, some, Bytes, ◌≡◌, refl,
  sym, ap, ◌∙◌, arith,
}
use goja_ext.WebSocket.{
  Connection, ReadyState, connecting, opened, closing, closed, rank, SocketEvent, open_event,
  message_event, close_event, error_event, Payload, set_ready_state, start_closing_socket,
  start_closing_at, try_open, try_open_at, set_conn, trigger_close, trigger_close_at, trigger_open,
  trigger_message, trigger_error, on_transport, hang_up_if, shut_down_at, shut_down_quietly,
  web_socket_close_connection, web_socket_close_connection_at, say_goodbye, say_goodbye_to,
  dispatch_event, WireAction, hang_up,
}

abbrev pub as_count : Bool → ℕ
as_count true = 1
as_count false = 0

abbrev pub close_events : List SocketEvent → ℕ
close_events [] = 0
close_events (open_event ∷ es) = close_events es
close_events (message_event p ∷ es) = close_events es
close_events (close_event code reason ∷ es) = suc (close_events es)
close_events (error_event err ∷ es) = close_events es

close_events-append :
    (es fs : List SocketEvent) → close_events (es ++ fs) ≡ close_events es + close_events fs
close_events-append [] fs = omega arith
close_events-append (open_event ∷ es) fs = close_events-append es fs
close_events-append (message_event p ∷ es) fs = close_events-append es fs
close_events-append (close_event code reason ∷ es) fs = omega (arith, close_events-append es fs)
close_events-append (error_event err ∷ es) fs = close_events-append es fs

-- One close event when `closeFired` is set and none before, the state CLOSED from then on, and `done`
-- closed once when `shutdownOnce` has run and not before.
pub record IsOnce (c : Connection) : Type 0 where
  pub fired : close_events c.events ≡ as_count c.close_fired
  pub fired_closed : c.close_fired ≡ true → c.ready_state ≡ closed
  pub dones : c.done_closes ≡ as_count c.shut_down

-- The invariant, and a state that did not go back.
pub record Advances (c d : Connection) : Type 0 where
  pub once : IsOnce d
  pub onward : rank c.ready_state ≤ rank d.ready_state

pub stays : {c : Connection} → IsOnce c → Advances c c
stays i = record { once = i; onward = omega arith }

-- A change that leaves the three marks, the events and the state alone.
pub same_marks :
    {c d : Connection}
    → IsOnce c
    → d.events ≡ c.events
    → d.close_fired ≡ c.close_fired
    → d.ready_state ≡ c.ready_state
    → d.done_closes ≡ c.done_closes
    → d.shut_down ≡ c.shut_down
    → Advances c d
same_marks i events fired ready dones shut = record {
  once = record {
    fired = ap close_events events ∙ i.fired ∙ ap as_count (sym fired);
    fired_closed = λ h. ready ∙ i.fired_closed (sym fired ∙ h);
    dones = dones ∙ i.dones ∙ ap as_count (sym shut);
  };
  onward = omega (arith, ap rank ready);
}

pub dispatched :
    (c : Connection) (e : SocketEvent)
    → close_events (e ∷ []) ≡ 0
    → IsOnce c
    → Advances c (dispatch_event e c)
dispatched c e none_closes i = record {
  once = record {
    fired = omega (arith, close_events-append c.events (e ∷ []), i.fired, none_closes);
    fired_closed = i.fired_closed;
    dones = i.dones;
  };
  onward = omega arith;
}

pub set_closed : (c : Connection) → IsOnce c → Advances c (set_ready_state closed c)
unfolding set_ready_state
set_closed c i = record {
  once = record { fired = i.fired; fired_closed = λ h. refl; dones = i.dones };
  onward = below c.ready_state;
}
  where
    below : (r : ReadyState) → rank r ≤ 3
    below connecting = omega arith
    below opened = omega arith
    below closing = omega arith
    below closed = omega arith

-- From a state other than CLOSED, to a later one.
moved :
    (c : Connection) (r : ReadyState)
    → (c.ready_state ≡ closed → r ≡ closed)
    → rank c.ready_state ≤ rank r
    → IsOnce c
    → Advances c (record c { ready_state = r })
moved c r last up i = record {
  once = record { fired = i.fired; fired_closed = λ h. last (i.fired_closed h); dones = i.dones };
  onward = up;
}

pub closing_started :
    (c : Connection) (r : ReadyState)
    → c.ready_state ≡ r
    → IsOnce c
    → Advances c (start_closing_at r c).0
closing_started c connecting e i =
    moved c closing (λ h. absurd (omega (arith, ap rank (sym e ∙ h)))) (omega (arith, ap rank e)) i
closing_started c opened e i =
    moved c closing (λ h. absurd (omega (arith, ap rank (sym e ∙ h)))) (omega (arith, ap rank e)) i
closing_started c closing e i = stays i
closing_started c closed e i = stays i

pub opening_tried :
    (c : Connection) (r : ReadyState)
    → c.ready_state ≡ r
    → IsOnce c
    → Advances c (try_open_at r c).0
opening_tried c connecting e i =
    moved c opened (λ h. absurd (omega (arith, ap rank (sym e ∙ h)))) (omega (arith, ap rank e)) i
opening_tried c opened e i = stays i
opening_tried c closing e i = stays i
opening_tried c closed e i = stays i

pub close_triggered :
    (c : Connection) (b : Bool) (code : ℕ) (reason : Bytes)
    → c.close_fired ≡ b
    → IsOnce c
    → Advances c (trigger_close_at b code reason c)
unfolding set_ready_state
close_triggered c true code reason e i = stays i
close_triggered c false code reason e i = record {
  once = record {
    fired = omega (
      arith,
      close_events-append c.events (close_event code reason ∷ []),
      i.fired,
      ap as_count e,
    );
    fired_closed = λ h. refl;
    dones = i.dones;
  };
  onward = Advances.onward (set_closed c i);
}

hung_up : (o : Option ℕ) (c : Connection) → IsOnce c → Advances c (hang_up_if o c)
hung_up none c i = stays i
hung_up (some t) c i = same_marks i refl refl refl refl refl

pub told :
    (o : Option ℕ) (a : WireAction) (c : Connection) → IsOnce c → Advances c (on_transport o a c)
told none a c i = same_marks i refl refl refl refl refl
told (some t) a c i = same_marks i refl refl refl refl refl

pub said_goodbye :
    (o : Option ℕ) (code : ℕ) (reason : Bytes) (c : Connection)
    → IsOnce c
    → Advances c (say_goodbye_to o code reason c)
said_goodbye none code reason c i = stays i
said_goodbye (some t) code reason c i = same_marks i refl refl refl refl refl

pub shut_once :
    (c : Connection) (b : Bool) → c.shut_down ≡ b → IsOnce c → Advances c (shut_down_at b c)
shut_once c true e i = stays i
shut_once c false e i = by_transport c.conn
  where
    closed_once : Connection
    closed_once = record c { shut_down = true; done_closes = suc c.done_closes }

    kept : IsOnce closed_once
    kept = record {
      fired = i.fired;
      fired_closed = i.fired_closed;
      dones = omega (arith, i.dones, ap as_count e);
    }

    by_transport : (o : Option ℕ) → Advances c (hang_up_if o closed_once)
    by_transport none = record { once = kept; onward = omega arith }
    by_transport (some t) = record {
      once = Advances.once (hung_up (some t) closed_once kept);
      onward = omega arith;
    }

pub released_once :
    (c : Connection) (b : Bool)
    → c.shut_down ≡ b
    → IsOnce c
    → Advances c (web_socket_close_connection_at b c)
released_once c true e i = stays i
released_once c false e i =
    let a =
      shut_once (record c { manager = goja_ext.WebSocket.Manager.unregister c.self c.manager })
        false e (record { fired = i.fired; fired_closed = i.fired_closed; dones = i.dones }) in
    record { once = a.once; onward = a.onward }
