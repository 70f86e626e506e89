-- ===== src/Session/Lifecycle/Transactions.antt =====
-- The transaction flag over a reset of the session.
use obconnector_go.Common.{
  ◌≡◌, refl, ◌∙◌, ◌⊎◌, inl, inr, Bool, true, false, ◌||◌, Bool-cases, Option, none, some, List, [],
  if◌then◌else◌, Error, message, Outcome, ok, err, panic, stuck,
}
use obconnector_go.Common.State.{Method, return, lift, modify, after, ◌>>=◌, ◌>>◌}
use obconnector_go.Common.Int.{ℤ}
use obconnector_go.Common.Bytes.{Bytes, codes, beq_bytes}
use obconnector_go.Protocol.Packet.Conn.{Zlib}
use obconnector_go.Sql.Params.{NamedValue}
use obconnector_go.Sql.TimeZone.{Location, utc, resolve_session_time_zone, session_time_zone_sql}
use obconnector_go.Sql.Assignment.{
  session_time_zone_assignment_from_query, is_session_time_zone_mutation,
}
use obconnector_go.Session.Conn.{
  Conn, Context, conn_read, conn_write, check_usable_locked, mark_session_reset_error, protocol,
  end_of_request, marked_by, with_deadline,
}
use obconnector_go.Session.Conn.Untouched.{
  Untouched, bind-Untouched, choice-Untouched, if-Untouched,
}
use obconnector_go.Session.Results.{read_result_from_first_packet}
use obconnector_go.Session.Results.Untouched.{read-Untouched, read_result-Untouched}
use obconnector_go.Session.Lifecycle.{
  session_time_zone_sync_error, assigned_text, location_of, set_time_zone,
  update_session_time_zone_from_query, set_location, write_query, exec_locked,
  configure_session_time_zone, rollback_active, reset_session,
}

set_time_zone-Untouched : (text : Outcome Bytes) → Untouched (set_time_zone text)
unfolding set_time_zone session_time_zone_sync_error
set_time_zone-Untouched text b c h = located (location_of text)
  where
    located :
        (r : Outcome (Location × Bytes))
        → (elim r as (λ _. Outcome (Unit {0}) × Conn) [
          | ok (location, canonical) ↦ (ok tt, record c { session_location = some location })
          | err e ↦ session_time_zone_sync_error e c
          | panic ↦ (panic, c)
          | stuck ↦ (stuck, c)
        ]).1.in_tx
          ≡ b
    located (ok (location, canonical)) = h
    located (err e) = h
    located panic = h
    located stuck = h

update-Untouched :
    (query : Bytes) (args : List NamedValue)
    → Untouched (update_session_time_zone_from_query query args)
unfolding update_session_time_zone_from_query session_time_zone_sync_error
update-Untouched query args b c h =
    if-Untouched (beq_bytes c.tenant_mode (codes "mysql")) _ _ b h
      (assigned (session_time_zone_assignment_from_query query))
  where
    assigned :
        (o : Option (Bytes × Bool))
        → (elim o as (λ _. Outcome (Unit {0}) × Conn) [
          | none ↦
              if is_session_time_zone_mutation query
              then session_time_zone_sync_error
                  (message "unsupported session time zone mutation syntax")
                  c
              else (ok tt, c)
          | some (value, parameter) ↦ set_time_zone (assigned_text value parameter args) c
        ]).1.in_tx
          ≡ b
    assigned none = if-Untouched (is_session_time_zone_mutation query) _ _ b h h
    assigned (some (value, parameter)) =
        set_time_zone-Untouched (assigned_text value parameter args) b c h

module _ {A : Type 0} where
  end-Untouched :
      (o : Option Error) (r : Outcome A) (c : Conn) → (end_of_request o (r, c)).1.in_tx ≡ c.in_tx
  end-Untouched (some x) (err e) c = refl
  end-Untouched (some x) (ok a) c = refl
  end-Untouched (some x) panic c = refl
  end-Untouched (some x) stuck c = refl
  end-Untouched none r c = refl

  with_deadline-Untouched :
      (ctx : Context) (fn : Method Conn A) → Untouched fn → Untouched (with_deadline ctx fn)
  unfolding with_deadline
  with_deadline-Untouched ctx fn k b c h = started ctx.deadline_error
    where
      started :
          (o : Option Error)
          → (elim o as (λ _. Outcome A × Conn) [
            | some e ↦ (err e, c)
            | none ↦ end_of_request ctx.ended (fn c)
          ]).1.in_tx
            ≡ b
      started (some e) = h
      started none = end-Untouched ctx.ended (fn c).0 (fn c).1 ∙ k b c h

-- Behind a value the transaction flag is off, and Q holds.
abbrev pub Clears : {A : Type 0} → Type 0 → Outcome A × Conn → Type 0
Clears Q (ok a, c) = (c.in_tx ≡ false) × Q
Clears Q (err e, c) = Unit
Clears Q (panic, c) = Unit
Clears Q (stuck, c) = Unit

module _ {A B : Type 0} (Q : Type 0) where
  Clears-bind :
      (m : Outcome A × Conn) (f : A → Method Conn B)
      → Clears Q m
      → ((a : A) (c : Conn) → c.in_tx ≡ false → Q → Clears Q (f a c))
      → Clears Q (after m.0 f m.1)
  Clears-bind (ok a, c) f (h, q) k = k a c h q
  Clears-bind (err e, c) f h k = tt
  Clears-bind (panic, c) f h k = tt
  Clears-bind (stuck, c) f h k = tt

module _ {A : Type 0} (Q : Type 0) where
  marked-Clears :
      (r : Outcome A × Conn)
      → r.1.in_tx ≡ false
      → Q
      → Clears Q (marked_by mark_session_reset_error r)
  marked-Clears (ok a, c) h q = (h, q)
  marked-Clears (err e, c) h q = tt
  marked-Clears (panic, c) h q = tt
  marked-Clears (stuck, c) h q = tt

  -- The flag that is cleared behind an answer.
  answered-Clears :
      (r : Outcome A × Conn)
      → ((a : A) (c : Conn) → r ≡ (ok a, c) → Q)
      → Clears Q (
          let marked = marked_by mark_session_reset_error r in
          after marked.0 (λ _. modify (λ (d : Conn). record d { in_tx = false })) marked.1)
  answered-Clears (ok a, c) k = (refl, k a c refl)
  answered-Clears (err e, c) k = tt
  answered-Clears (panic, c) k = tt
  answered-Clears (stuck, c) k = tt

  if-Clears :
      (t : Bool) (r s : Outcome A × Conn)
      → Clears Q r
      → (t ≡ false → Clears Q s)
      → Clears Q (if t then r else s)
  if-Clears true r s h k = h
  if-Clears false r s h k = k refl

module _ (z : Zlib) (time_zone : Option Bytes) where
  exec-Untouched : (ctx : Context) (query : Bytes) → Untouched (exec_locked z time_zone ctx query)
  unfolding exec_locked write_query conn_write
  exec-Untouched ctx query = with_deadline-Untouched ctx (write_query z time_zone query >> _) (
      bind-Untouched (write_query z time_zone query) _ (λ b c h. h)
        λ _. bind-Untouched (protocol (conn_read z)) _ (read-Untouched z) λ first.
          bind-Untouched (read_result_from_first_packet z first) _ (read_result-Untouched z first)
            λ res.
              bind-Untouched (update_session_time_zone_from_query query []) (λ _. return res)
                (update-Untouched query []) λ _ b c h. h)

  enabled-Untouched :
      (ctx : Context) (r : Location × Bytes × Bool)
      → Untouched (
          if r.2
          then (do
            _ ← exec_locked z time_zone ctx (session_time_zone_sql r.1)
            set_location z time_zone (r.0))
          else set_location z time_zone utc)
  enabled-Untouched ctx r =
      choice-Untouched (r.2) _ _
        (bind-Untouched (exec_locked z time_zone ctx (session_time_zone_sql r.1))
          (λ _. set_location z time_zone (r.0)) (exec-Untouched ctx (session_time_zone_sql r.1))
          λ _ b c h. h)
        λ b c h. h

  -- Before the reset: no transaction, or one whose rollback the server has answered.
  abbrev pub EndedBy : Context → Conn → Type 0
  EndedBy ctx c =
      (c.in_tx ≡ false)
      ⊎ ((res : ℤ × ℤ) × (d : Conn) × (exec_locked z time_zone ctx (codes "rollback") c
            ≡ (ok res, d)))

  rollback_active-Clears :
      (ctx : Context) (c : Conn) → Clears (EndedBy ctx c) (rollback_active z time_zone ctx c)
  unfolding rollback_active
  rollback_active-Clears ctx c =
      if-Clears (EndedBy ctx c) c.in_tx _ _
        (answered-Clears (EndedBy ctx c) (exec_locked z time_zone ctx (codes "rollback") c)
          λ res d e. inr (res, d, e))
        λ idle. (idle, inl idle)

module _ (z : Zlib) where
  configure-Untouched :
      (time_zone : Option Bytes) (ctx : Context)
      → Untouched (configure_session_time_zone z time_zone ctx)
  unfolding configure_session_time_zone
  configure-Untouched none ctx b c h = h
  configure-Untouched (some value) ctx b c h =
      bind-Untouched (lift (resolve_session_time_zone c.tenant_mode value)) _ (λ b c h. h)
        (enabled-Untouched z (some value) ctx) b c h

  -- A session that ResetSession has reset is in no transaction: where it answers without an error,
  -- whatever the server sent, the transaction flag is off afterwards, and either it was off before or
  -- the connection has executed a rollback, from the state in which it was, that the server answered
  -- with a result and not with an error.
  pub reset_session-Clears :
      (time_zone : Option Bytes) (ctx : Context) (c : Conn)
      → Clears (EndedBy z time_zone ctx c) (reset_session z time_zone ctx c)
  unfolding reset_session check_usable_locked
  reset_session-Clears time_zone ctx c = elim (Bool-cases (c.closed || c.bad)) [
    | inl unusable ↦ rw unusable tt
    | inr usable ↦ rw usable (
        Clears-bind (EndedBy z time_zone ctx c) (rollback_active z time_zone ctx c) _
          (rollback_active-Clears z time_zone ctx c)
          λ _ d h q.
            marked-Clears (EndedBy z time_zone ctx c)
              (configure_session_time_zone z time_zone ctx d)
              (configure-Untouched time_zone ctx false d h) q)
  ]
