-- ===== src/WebSocket/Close.antt =====
-- websocket/websocket.go: a call of Close or of CloseAll from its start to its end.
use goja_ext.Prelude.{
  ℕ, zero, suc, Bool, true, false, List, [], ◌∷◌, ◌++◌, Option, none, some, Bytes, ◌≡◌, refl, sym,
  ap, ◌∙◌, subst, append_assoc, append-nil, arith, ◌⊎◌,
}
use goja_ext.WebSocket.{
  Connection, ReadyState, connecting, opened, closing, closed, close_event, WireAction, close_frame,
  hang_up, start_closing_socket, start_closing_at, trigger_close, shut_down_quietly,
  web_socket_close_connection, say_goodbye,
}
use goja_ext.WebSocket.Manager.{unregister}
use goja_ext.WebSocket.Steps.{Caller, caller_step, after_start, closes, returned}

-- That many sections of one call, with nothing in between.
unfoldable pub run_caller : ℕ → Caller → Connection → Caller × Connection
run_caller zero q c = (q, c)
run_caller (suc n) q c = run_caller n (caller_step q c).0 (caller_step q c).1

-- What the transport is told: the closing frame, and twice to hang up.
abbrev pub farewell : Option ℕ → ℕ → Bytes → List (ℕ × WireAction)
farewell none code reason = []
farewell (some t) code reason = (t, close_frame code reason) ∷ (t, hang_up) ∷ (t, hang_up) ∷ []

abbrev pub manager_after : Bool → ℕ → List ℕ → List ℕ
manager_after true self connections = unregister self connections
manager_after false self connections = connections

-- The connection that a whole call leaves.
abbrev pub closed_down : Bool → ℕ → Bytes → Connection → Connection
closed_down b code reason c = record c {
  manager = manager_after b c.self c.manager;
  ready_state = closed;
  close_fired = true;
  shut_down = true;
  done_closes = suc c.done_closes;
  events = c.events ++ close_event code reason ∷ [];
  wire = c.wire ++ farewell c.conn code reason;
}

abbrev pub IsActive : ReadyState → Type 0
IsActive r = (r ≡ connecting) ⊎ (r ≡ opened)

-- The same connection, its marks and its transport written out.
abbrev marked : ReadyState → Option ℕ → Connection → Connection
marked r o c = record c { ready_state = r; conn = o; close_fired = false; shut_down = false }

-- The wire's three entries, one by one.
one_by_one :
    (w : List (ℕ × WireAction)) (x y z : ℕ × WireAction)
    → ((w ++ x ∷ []) ++ y ∷ []) ++ z ∷ [] ≡ w ++ x ∷ y ∷ z ∷ []
one_by_one w x y z =
    append_assoc (w ++ x ∷ []) (y ∷ []) (z ∷ []) ∙ append_assoc w (x ∷ []) (y ∷ z ∷ [])

-- The same with the wire given.
with_wire : Bool → ℕ → Bytes → Connection → List (ℕ × WireAction) → Caller × Connection
with_wire b code reason c w = (returned false, record (closed_down b code reason c) { wire = w })

module _ (code : ℕ) (reason : Bytes) (c : Connection) where
  runs_whole :
      (b : Bool) (r : ReadyState) (o : Option ℕ)
      → IsActive r
      → run_caller 4 (closes b code reason) (marked r o c)
        ≡ (returned false, closed_down b code reason (marked r o c))
  unfolding run_caller caller_step start_closing_socket trigger_close shut_down_quietly
      web_socket_close_connection say_goodbye with_wire
  runs_whole true connecting none h =
      ap (with_wire true code reason (marked connecting none c)) (sym (append-nil c.wire))
  runs_whole false connecting none h =
      ap (with_wire false code reason (marked connecting none c)) (sym (append-nil c.wire))
  runs_whole true opened none h =
      ap (with_wire true code reason (marked opened none c)) (sym (append-nil c.wire))
  runs_whole false opened none h =
      ap (with_wire false code reason (marked opened none c)) (sym (append-nil c.wire))
  runs_whole true connecting (some t) h =
      ap (with_wire true code reason (marked connecting (some t) c)) (one_by_one c.wire _ _ _)
  runs_whole false connecting (some t) h =
      ap (with_wire false code reason (marked connecting (some t) c)) (one_by_one c.wire _ _ _)
  runs_whole true opened (some t) h =
      ap (with_wire true code reason (marked opened (some t) c)) (one_by_one c.wire _ _ _)
  runs_whole false opened (some t) h =
      ap (with_wire false code reason (marked opened (some t) c)) (one_by_one c.wire _ _ _)
  runs_whole b closing o h = absurd (ground arith)
  runs_whole b closed o h = absurd (ground arith)

  declined_at :
      (b : Bool) (r : ReadyState)
      → (r ≡ closing) ⊎ (r ≡ closed)
      → run_caller 3
          (after_start b code reason (start_closing_at r c)).0
          (after_start b code reason (start_closing_at r c)).1
        ≡ (returned true, c)
  unfolding run_caller caller_step
  declined_at b closing h = refl
  declined_at b closed h = refl
  declined_at b connecting h = absurd (ground arith)
  declined_at b opened h = absurd (ground arith)

  marked_self : c.close_fired ≡ false → c.shut_down ≡ false → marked c.ready_state c.conn c ≡ c
  marked_self fired shut =
      ap (λ f. record c { close_fired = f; shut_down = false }) (sym fired)
      ∙ ap (λ s. record c { shut_down = s }) (sym shut)

  -- On a connection whose close event is not fired and which is not shut down, a call that runs without
  -- another in between: from CONNECTING and OPEN it hands one close event with its code and its reason to
  -- the loop, sends the closing frame where there is a transport and hangs it up, closes `done`, leaves
  -- the state CLOSED, and takes the connection from the manager exactly when it came from Close. In
  -- CLOSING and CLOSED it changes nothing.
  pub run_caller-closes :
      (b : Bool)
      → c.close_fired ≡ false
      → c.shut_down ≡ false
      → (IsActive c.ready_state
          → run_caller 4 (closes b code reason) c ≡ (returned false, closed_down b code reason c))
        × ((c.ready_state ≡ closing) ⊎ (c.ready_state ≡ closed)
            → run_caller 4 (closes b code reason) c ≡ (returned true, c))
  unfolding run_caller caller_step start_closing_socket
  run_caller-closes b fired shut = (
    λ h.
        subst
          (λ d.
            run_caller 4 (closes b code reason) d ≡ (returned false, closed_down b code reason d))
          (marked_self fired shut) (runs_whole b c.ready_state c.conn h),
    λ h. declined_at b c.ready_state h,
  )
