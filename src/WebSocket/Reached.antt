-- ===== src/WebSocket/Reached.antt =====
-- websocket/websocket.go: the calls, and every state that comes about.
use goja_ext.Prelude.{
  ℕ, Bool, true, false, List, [], ◌∷◌, ◌++◌, Option, none, some, Bytes, ◌≡◌, refl, sym, ◌∙◌, subst,
  All, ◌⊎◌, inl, inr, arith,
}
use goja_ext.WebSocket.{
  trigger_error, Connection, ReadyState, connecting, opened, closing, closed, start_closing_socket,
  trigger_close, on_transport, shut_down_quietly, web_socket_close_connection, say_goodbye,
  new_connection, WireAction, text_frame,
}
use goja_ext.WebSocket.Linked.{
  NotOpened, IsEarly, IsSilent, Linkage, unlinked, linked, Holds, Keeps, kept, goes_on,
  release-Keeps, shut-Keeps, goodbye-Keeps, trigger-Keeps, closing-Keeps,
}
use goja_ext.WebSocket.Safe.{plain, connector_Holds}
use goja_ext.WebSocket.Steps.{
  Writing, written, no_deadline, write_failed, complains, write_at, System, Step, connects, calls,
  begins_close, begins_close_all, begins_send, manages, Steps, done, next, Connector, Caller,
  caller_step, closes, says_goodbye, fires, shuts, sends, writes, returned, after_start, send_at,
  start,
}

module _ {ℓ κ} {A : Type ℓ} (P : A → Type κ) where
  All-at : (xs : List A) {x : A} (ys : List A) → All P (xs ++ x ∷ ys) → P x
  All-at [] ys (h, hs) = h
  All-at (y ∷ xs) ys (h, hs) = All-at xs ys hs

  All-replaced :
      (xs : List A) (x : A) {y : A} (ys : List A)
      → All P (xs ++ x ∷ ys)
      → P y
      → All P (xs ++ y ∷ ys)
  All-replaced [] x ys (h, hs) n = (n, hs)
  All-replaced (y ∷ xs) x ys (h, hs) n = (h, All-replaced xs x ys hs n)

write_Keeps :
    (o : Option ℕ) (c : Connection) (a : WireAction) {t : ℕ}
    → o ≡ some t
    → Keeps c (on_transport o a c)
write_Keeps none c a {t} e = absurd (grind (arith, e))
write_Keeps (some t) c a e = plain refl refl refl

write_at_Keeps :
    (w : Writing) (o : Option ℕ) (message : Bytes) (c : Connection) {t : ℕ}
    → o ≡ some t
    → Keeps c (write_at w o message c)
write_at_Keeps written o message c e = write_Keeps o c (text_frame message) e
write_at_Keeps (no_deadline err) none message c {t} e = absurd (grind (arith, e))
write_at_Keeps (no_deadline err) (some t) message c e = kept
write_at_Keeps (write_failed err) o message c e = write_Keeps o c (text_frame message) e

begun_Keeps :
    (b : Bool) (code : ℕ) (reason : Bytes) (r : Connection × Bool) (c : Connection)
    → Keeps c r.0
    → Keeps c (after_start b code reason r).1
begun_Keeps b code reason (d, true) c k = k
begun_Keeps b code reason (d, false) c k = k

-- A call writes only once the state was OPEN.
caller_Keeps :
    (q : Caller) (c : Connection)
    → IsSilent q ⊎ ((t : ℕ) × (c.conn ≡ some t))
    → Keeps c (caller_step q c).1
unfolding caller_step trigger_error start_closing_socket say_goodbye trigger_close
    web_socket_close_connection shut_down_quietly
caller_Keeps (closes b code reason) c h =
    begun_Keeps b code reason _ c (closing-Keeps c.ready_state c)
caller_Keeps (says_goodbye b code reason) c h = goodbye-Keeps c.conn code reason c
caller_Keeps (fires b code reason) c h = trigger-Keeps c.close_fired code reason c
caller_Keeps (shuts true) c h = release-Keeps c.shut_down c
caller_Keeps (shuts false) c h = shut-Keeps c.shut_down c
caller_Keeps (sends message w) c h = kept
caller_Keeps (complains err) c h = plain refl refl refl
caller_Keeps (writes message w) c (inl none_writes) = elim none_writes [ ]
caller_Keeps (writes message w) c (inr (t, e)) = write_at_Keeps w c.conn message c e
caller_Keeps (returned declined) c h = kept

begun_IsSilent :
    (b : Bool) (code : ℕ) (reason : Bytes) (r : Connection × Bool)
    → IsSilent (after_start b code reason r).0
begun_IsSilent b code reason (d, true) = tt
begun_IsSilent b code reason (d, false) = tt

send_IsSilent :
    (r : ReadyState) (message : Bytes) (w : Writing) → NotOpened r → IsSilent (send_at r message w)
send_IsSilent connecting message w n = tt
send_IsSilent opened message w n = elim n [ ]
send_IsSilent closing message w n = tt
send_IsSilent closed message w n = tt

caller_IsSilent :
    (q : Caller) (c : Connection)
    → NotOpened c.ready_state
    → IsSilent q
    → IsSilent (caller_step q c).0
unfolding caller_step
caller_IsSilent (closes b code reason) c n h = begun_IsSilent b code reason (start_closing_socket c)
caller_IsSilent (says_goodbye b code reason) c n h = tt
caller_IsSilent (fires b code reason) c n h = tt
caller_IsSilent (shuts true) c n h = tt
caller_IsSilent (shuts false) c n h = tt
caller_IsSilent (sends message w) c n h = send_IsSilent c.ready_state message w n
caller_IsSilent (complains err) c n h = tt
caller_IsSilent (writes message w) c n h = elim h [ ]
caller_IsSilent (returned declined) c n h = tt

IsEarly-kept : {o o' : Option ℕ} (p : Connector) → o' ≡ o → IsEarly o p → IsEarly o' p
IsEarly-kept p e h = subst (λ o. IsEarly o p) (sym e) h

call_Holds :
    (c : Connection) (p : Connector) (before : List Caller) (q : Caller) (after : List Caller)
    → Holds c p (before ++ q ∷ after)
    → Holds (caller_step q c).1 p (before ++ (caller_step q c).0 ∷ after)
call_Holds c p before q after h = by_half h.linkage
  where
    by_half :
        Linkage c p (before ++ q ∷ after)
        → Holds (caller_step q c).1 p (before ++ (caller_step q c).0 ∷ after)
    by_half (unlinked n silent e) =
        let quiet : IsSilent q = All-at IsSilent before after silent in
        let k : Keeps c (caller_step q c).1 = caller_Keeps q c (inl quiet) in
        record {
          no_fault = k.same_faults ∙ h.no_fault;
          linkage =
              unlinked (k.not_opened n)
                (All-replaced IsSilent before q after silent (caller_IsSilent q c n quiet))
                (IsEarly-kept p k.same_conn e);
        }
    by_half (linked t e l) =
        let k : Keeps c (caller_step q c).1 = caller_Keeps q c (inr (t, e)) in
        record { no_fault = k.same_faults ∙ h.no_fault; linkage = linked t (k.same_conn ∙ e) l }

joins :
    {c : Connection} {p : Connector} {qs : List Caller} (q : Caller)
    → IsSilent q
    → Linkage c p qs
    → Linkage c p (q ∷ qs)
joins q quiet (unlinked n silent e) = unlinked n (quiet, silent) e
joins q quiet (linked t e l) = linked t e l

step_Holds :
    {s t : System}
    → Step s t
    → Holds s.connection s.connector s.callers
    → Holds t.connection t.connector t.callers
step_Holds (connects {c} {p} {others} o) h = connector_Holds c others o p h
step_Holds (calls {c} {p} before q after) h = call_Holds c p before q after h
step_Holds (begins_close args) h = record { no_fault = h.no_fault; linkage = joins _ tt h.linkage }
step_Holds begins_close_all h = record { no_fault = h.no_fault; linkage = joins _ tt h.linkage }
step_Holds (begins_send message w) h = record {
  no_fault = h.no_fault;
  linkage = joins _ tt h.linkage;
}
step_Holds (manages connections) h = goes_on (plain refl refl refl) (λ e. e) (λ l. l) h

runs_Holds :
    {s t : System}
    → Steps s t
    → Holds s.connection s.connector s.callers
    → Holds t.connection t.connector t.callers
runs_Holds done h = h
runs_Holds (next before st) h = step_Holds st (runs_Holds before h)

transport_of :
    (s : System)
    → Linkage s.connection s.connector s.callers
    → s.connection.ready_state ≡ opened
    → (t : ℕ) × (s.connection.conn ≡ some t)
transport_of s (unlinked n silent e) o = elim (subst NotOpened o n) [ ]
transport_of s (linked t e l) o = (t, e)

-- From a new connection on, however the goroutine of the connection and any calls of Close, CloseAll and
-- Send interleave: no method is called on a nil transport, neither by Send, which looks at the state
-- before it fetches the transport, nor by the read loop, and while the state is OPEN the transport is set.
pub steps-IsLinked :
    (self : ℕ) (others : List ℕ) (s : System)
    → Steps (start self others) s
    → (s.connection.faults ≡ 0)
      × (s.connection.ready_state ≡ opened → (t : ℕ) × (s.connection.conn ≡ some t))
unfolding start new_connection
steps-IsLinked self others s r =
    let h : Holds s.connection s.connector s.callers =
      runs_Holds r (record { no_fault = refl; linkage = unlinked tt tt tt }) in
    (h.no_fault, transport_of s h.linkage)
