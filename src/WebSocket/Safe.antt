-- ===== src/WebSocket/Safe.antt =====
-- websocket/websocket.go: no call of a method on a nil transport, in any interleaving.
use goja_ext.Prelude.{
  ℕ, zero, suc, true, false, List, Option, none, some, ◌≡◌, refl, sym, ◌∙◌, subst, arith,
}
use goja_ext.WebSocket.{
  Connection, ReadyState, connecting, opened, closing, closed, set_ready_state, try_open,
  try_open_at, set_conn, trigger_close, trigger_open, trigger_message, trigger_error,
  web_socket_close_connection,
}
use goja_ext.WebSocket.Linked.{
  NotOpened, Linkage, unlinked, linked, Holds, Keeps, kept, goes_on, release-Keeps, trigger-Keeps,
}
use goja_ext.WebSocket.Steps.{
  Outside, Connector, connector_step, Caller, dialing, refusing, reporting, linking, opening,
  abandoning, dropping, announcing, starting, checking, losing, releasing, finished, pumping,
  receiving, complaining, refused, accepted, got_message, got_other, read_error, after_dial,
  after_try, start_at, select_at, after_read, check_at, Dialled, Received,
}

pub plain :
    {c d : Connection}
    → d.conn ≡ c.conn
    → d.faults ≡ c.faults
    → d.ready_state ≡ c.ready_state
    → Keeps c d
plain a b r = record { same_conn = a; same_faults = b; not_opened = λ n. subst NotOpened (sym r) n }

module _ (c : Connection) (qs : List Caller) where
  dial_Holds : (d : Dialled) → Holds c dialing qs → Holds (after_dial d c).1 (after_dial d c).0 qs
  dial_Holds (refused err) h = goes_on kept (λ e. tt) (λ l. l) h
  dial_Holds (accepted t protocol) h = goes_on (plain refl refl refl) (λ e. tt) (λ l. l) h

  link_Holds : (t : ℕ) → Linkage c (linking t) qs → Linkage (set_conn (some t) c) (opening t) qs
  unfolding set_conn
  link_Holds t (unlinked n silent e) = unlinked n silent refl
  link_Holds t (linked u e l) = elim l [ ]

  try_Holds :
      (t : ℕ) (r : ReadyState)
      → c.ready_state ≡ r
      → Linkage c (opening t) qs
      → Linkage (after_try t (try_open_at r c)).1 (after_try t (try_open_at r c)).0 qs
  try_Holds t connecting e (unlinked n silent f) = linked t f tt
  try_Holds t opened e (unlinked n silent f) = elim (subst NotOpened e n) [ ]
  try_Holds t closing e (unlinked n silent f) = unlinked n silent tt
  try_Holds t closed e (unlinked n silent f) = unlinked n silent tt
  try_Holds t r e (linked u f l) = elim l [ ]

  try_faults :
      (t : ℕ) (r : ReadyState) → Connection.faults (after_try t (try_open_at r c)).1 ≡ c.faults
  try_faults t connecting = refl
  try_faults t opened = refl
  try_faults t closing = refl
  try_faults t closed = refl

  drop_Holds : (t : ℕ) → Linkage c (dropping t) qs → Linkage (set_conn none c) finished qs
  unfolding set_conn
  drop_Holds t (unlinked n silent e) = unlinked n silent tt
  drop_Holds t (linked u e l) = elim l [ ]

  start_Holds :
      (o : Option ℕ) → c.conn ≡ o → Holds c starting qs → Holds (start_at o c).1 (start_at o c).0 qs
  start_Holds (some t) e h = goes_on kept (λ e. e) (λ l. l) h
  start_Holds none e h = elim (impossible h.linkage) [ ]
    where
      impossible : Linkage c starting qs → ⊥
      impossible (unlinked n silent f) = f
      impossible (linked t f l) = absurd (grind (arith, e, f))

  select_Holds :
      (n t : ℕ) → Holds c (pumping t) qs → Holds (select_at n t c).1 (select_at n t c).0 qs
  select_Holds zero t h = goes_on kept (λ e. e) (λ l. l) h
  select_Holds (suc n) t h = goes_on kept (λ e. tt) (λ l. tt) h

  read_Holds :
      (t : ℕ) (r : Received)
      → Holds c (receiving t) qs
      → Holds (after_read t r c).1 (after_read t r c).0 qs
  unfolding trigger_message
  read_Holds t (got_message p) h = goes_on (plain refl refl refl) (λ e. e) (λ l. l) h
  read_Holds t got_other h = goes_on kept (λ e. e) (λ l. l) h
  read_Holds t (read_error true err) h = goes_on kept (λ e. e) (λ l. l) h
  read_Holds t (read_error false err) h = goes_on kept (λ e. e) (λ l. l) h

  check_Holds : (r : ReadyState) → Holds c checking qs → Holds (check_at r c).1 (check_at r c).0 qs
  check_Holds connecting h = goes_on kept (λ e. e) (λ l. l) h
  check_Holds opened h = goes_on kept (λ e. e) (λ l. l) h
  check_Holds closing h = goes_on kept (λ e. tt) (λ l. tt) h
  check_Holds closed h = goes_on kept (λ e. tt) (λ l. tt) h

  pub connector_Holds :
      (o : Outside) (p : Connector)
      → Holds c p qs
      → Holds (connector_step o p c).1 (connector_step o p c).0 qs
  unfolding connector_step set_ready_state trigger_error try_open set_conn trigger_open
      trigger_close web_socket_close_connection
  connector_Holds o dialing h = dial_Holds o.dialled h
  connector_Holds o (refusing err) h =
      goes_on (record { same_conn = refl; same_faults = refl; not_opened = λ n. tt }) (λ e. tt)
        (λ l. l) h
  connector_Holds o (reporting err) h = goes_on (plain refl refl refl) (λ e. tt) (λ l. tt) h
  connector_Holds o (linking t) h = record {
    no_fault = h.no_fault;
    linkage = link_Holds t h.linkage;
  }
  connector_Holds o (opening t) h = record {
    no_fault = try_faults t c.ready_state ∙ h.no_fault;
    linkage = try_Holds t c.ready_state refl h.linkage;
  }
  connector_Holds o (abandoning t) h = goes_on (plain refl refl refl) (λ e. tt) (λ l. l) h
  connector_Holds o (dropping t) h = record {
    no_fault = h.no_fault;
    linkage = drop_Holds t h.linkage;
  }
  connector_Holds o announcing h = goes_on (plain refl refl refl) (λ e. e) (λ l. l) h
  connector_Holds o starting h = start_Holds c.conn refl h
  connector_Holds o (pumping t) h = select_Holds c.done_closes t h
  connector_Holds o (receiving t) h = read_Holds t o.received h
  connector_Holds o (complaining err) h = goes_on (plain refl refl refl) (λ e. e) (λ l. l) h
  connector_Holds o checking h = check_Holds c.ready_state h
  connector_Holds o losing h = goes_on (trigger-Keeps c.close_fired _ _ c) (λ e. tt) (λ l. tt) h
  connector_Holds o releasing h = goes_on (release-Keeps c.shut_down c) (λ e. tt) (λ l. tt) h
  connector_Holds o finished h = h
