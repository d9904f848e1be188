-- ===== src/WebSocket/Linked.antt =====
-- websocket/websocket.go: the transport is there whenever it is used. `Send` reads the state first and the
-- transport afterwards, and the goroutine of `connect` forgets a transport that it cannot open.
use goja_ext.Prelude.{ℕ, Bool, true, false, List, Option, none, some, Bytes, ◌≡◌, refl, ◌∙◌, All}
use goja_ext.WebSocket.{
  Connection, ReadyState, connecting, opened, closing, closed, start_closing_at, trigger_close_at,
  hang_up_if, shut_down_at, web_socket_close_connection_at, say_goodbye_to,
}
use goja_ext.WebSocket.Manager.{unregister}
use goja_ext.WebSocket.Steps.{
  Connector, Caller, dialing, refusing, reporting, linking, opening, abandoning, dropping,
  announcing, starting, checking, losing, pumping, receiving, complaining, writes,
}

abbrev pub NotOpened : ReadyState → Type 0
NotOpened connecting = Unit
NotOpened opened = ⊥
NotOpened closing = Unit
NotOpened closed = Unit

-- Before the state is OPEN, and where the connection did not open.
abbrev pub IsEarly : Option ℕ → Connector → Type 0
IsEarly o (opening t) = o ≡ some t
IsEarly o announcing = ⊥
IsEarly o starting = ⊥
IsEarly o (pumping t) = ⊥
IsEarly o (receiving t) = ⊥
IsEarly o (complaining err) = ⊥
IsEarly o checking = ⊥
IsEarly o losing = ⊥
IsEarly o _ = Unit

-- Once it was OPEN.
abbrev pub IsLate : Connector → Type 0
IsLate dialing = ⊥
IsLate (refusing err) = ⊥
IsLate (reporting err) = ⊥
IsLate (linking t) = ⊥
IsLate (opening t) = ⊥
IsLate (abandoning t) = ⊥
IsLate (dropping t) = ⊥
IsLate _ = Unit

abbrev pub IsSilent : Caller → Type 0
IsSilent (writes message w) = ⊥
IsSilent _ = Unit

pub data Linkage (c : Connection) (p : Connector) (qs : List Caller) : Type 0 where
  unlinked : NotOpened c.ready_state → All IsSilent qs → IsEarly c.conn p → Linkage c p qs
  linked : (t : ℕ) → c.conn ≡ some t → IsLate p → Linkage c p qs

pub record Holds (c : Connection) (p : Connector) (qs : List Caller) : Type 0 where
  pub no_fault : c.faults ≡ 0
  pub linkage : Linkage c p qs

-- What most sections leave alone.
pub record Keeps (c d : Connection) : Type 0 where
  pub same_conn : d.conn ≡ c.conn
  pub same_faults : d.faults ≡ c.faults
  pub not_opened : NotOpened c.ready_state → NotOpened d.ready_state

pub kept : {c : Connection} → Keeps c c
kept = record { same_conn = refl; same_faults = refl; not_opened = λ n. n }

kept_through : {c d e : Connection} → Keeps c d → Keeps d e → Keeps c e
kept_through k l = record {
  same_conn = l.same_conn ∙ k.same_conn;
  same_faults = l.same_faults ∙ k.same_faults;
  not_opened = λ n. l.not_opened (k.not_opened n);
}

-- A connector that goes on within its half, and a caller that does not come to write.
pub goes_on :
    {c d : Connection} {p p' : Connector} {qs : List Caller}
    → Keeps c d
    → (IsEarly c.conn p → IsEarly d.conn p')
    → (IsLate p → IsLate p')
    → Holds c p qs
    → Holds d p' qs
goes_on {c} {d} {p} {p'} {qs} k early late h = record {
  no_fault = k.same_faults ∙ h.no_fault;
  linkage = by_half h.linkage;
}
  where
    by_half : Linkage c p qs → Linkage d p' qs
    by_half (unlinked n silent e) = unlinked (k.not_opened n) silent (early e)
    by_half (linked t e l) = linked t (k.same_conn ∙ e) (late l)

pub hang_up-Keeps : (o : Option ℕ) (c : Connection) → Keeps c (hang_up_if o c)
hang_up-Keeps none c = kept
hang_up-Keeps (some t) c = record { same_conn = refl; same_faults = refl; not_opened = λ n. n }

pub shut-Keeps : (b : Bool) (c : Connection) → Keeps c (shut_down_at b c)
shut-Keeps true c = kept
shut-Keeps false c =
    kept_through (record { same_conn = refl; same_faults = refl; not_opened = λ n. n })
      (hang_up-Keeps c.conn _)

pub release-Keeps : (b : Bool) (c : Connection) → Keeps c (web_socket_close_connection_at b c)
release-Keeps true c = kept
release-Keeps false c =
    kept_through (record { same_conn = refl; same_faults = refl; not_opened = λ n. n })
      (shut-Keeps false (record c { manager = unregister c.self c.manager }))

pub goodbye-Keeps :
    (o : Option ℕ) (code : ℕ) (reason : Bytes) (c : Connection)
    → Keeps c (say_goodbye_to o code reason c)
goodbye-Keeps none code reason c = kept
goodbye-Keeps (some t) code reason c = record {
  same_conn = refl;
  same_faults = refl;
  not_opened = λ n. n;
}

pub trigger-Keeps :
    (b : Bool) (code : ℕ) (reason : Bytes) (c : Connection)
    → Keeps c (trigger_close_at b code reason c)
trigger-Keeps true code reason c = kept
trigger-Keeps false code reason c = record {
  same_conn = refl;
  same_faults = refl;
  not_opened = λ n. tt;
}

pub closing-Keeps : (r : ReadyState) (c : Connection) → Keeps c (start_closing_at r c).0
closing-Keeps connecting c = record { same_conn = refl; same_faults = refl; not_opened = λ n. tt }
closing-Keeps opened c = record { same_conn = refl; same_faults = refl; not_opened = λ n. tt }
closing-Keeps closing c = kept
closing-Keeps closed c = kept
