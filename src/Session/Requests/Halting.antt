-- ===== src/Session/Requests/Halting.antt =====
-- A query comes to an end on every stream.
use obconnector_go.Common.{
  ℕ, Yields, inl, inr, Bool, true, false, ◌||◌, Option, none, some, Option-cases, List, [], ◌∷◌,
  Error, Outcome, message, ok, err, panic, stuck, if◌then◌else◌,
}
use obconnector_go.Common.State.{Method, after, return, lift, ◌>>=◌, ◌>>◌}
use obconnector_go.Common.Bytes.{Bytes, codes, beq_bytes}
use obconnector_go.Protocol.Packet.Conn.{Zlib}
use obconnector_go.Protocol.Packet.Read.Total.{left, ZlibAnswers}
use obconnector_go.Sql.Params.{
  NamedValue, Value, nil, int64, float64, bool, byte_slice, string, time, other,
}
use obconnector_go.Session.Conn.{
  Conn, conn_write, Context, check_usable_locked, marked_by, with_deadline, end_of_request,
}
use obconnector_go.Session.Results.{read_query_result}
use obconnector_go.Sql.TimeZone.{Location, parse_session_time_zone}
use obconnector_go.Session.Results.Ends.{Ends, read_query_result-Ends}
use obconnector_go.Session.Lifecycle.{
  write_query, query_locked, update_session_time_zone_from_query,
}
use obconnector_go.Sql.Assignment.{
  session_time_zone_assignment_from_query, is_session_time_zone_mutation,
  session_time_zone_value_from_args,
}
use obconnector_go.Sql.TimeZone.Halting.{parse_session_time_zone-Yields}
use obconnector_go.Protocol.Packet.Conn.{PacketConn}
use obconnector_go.Protocol.Packet.Write.{write_packet}
use obconnector_go.Protocol.Packet.Write.Total.{write_packet-Leaves, Leaves}
use obconnector_go.Session.Lifecycle.{
  session_time_zone_sync_error, assigned_text, location_of, set_time_zone,
}

-- The method comes to an end: with an answer, an error, or a panic.
abbrev pub Halts : {A : Type 0} → Outcome A × Conn → Type 0
Halts (ok a, c) = Unit
Halts (err e, c) = Unit
Halts (panic, c) = Unit
Halts (stuck, c) = ⊥

module _ {A B : Type 0} where
  Halts-bind :
      (m : Outcome A × Conn) (f : A → Method Conn B)
      → Halts m
      → ((a : A) (c : Conn) → Halts (f a c))
      → Halts (after m.0 f m.1)
  Halts-bind (ok a, c) f h k = k a c
  Halts-bind (err e, c) f h k = tt
  Halts-bind (panic, c) f h k = tt
  Halts-bind (stuck, c) f h k = h

module _ {A : Type 0} where
  Halts-choice :
      (t : Bool) (r k : Outcome A × Conn) → Halts r → Halts k → Halts (if t then r else k)
  Halts-choice true r k h g = h
  Halts-choice false r k h g = g

  Halts-of_Ends : (n : ℕ) (r : Outcome A × Conn) → Ends n r → Halts r
  Halts-of_Ends n (ok a, c) h = tt
  Halts-of_Ends n (err e, c) h = tt
  Halts-of_Ends n (panic, c) h = tt
  Halts-of_Ends n (stuck, c) h = h

  lift-Halts : (r : Outcome A) (c : Conn) → Yields (λ _. Unit) r → Halts (lift r c)
  lift-Halts (ok a) c h = tt
  lift-Halts (err e) c h = tt
  lift-Halts panic c h = tt
  lift-Halts stuck c h = h

  marked-Halts :
      (f : Error → Conn → Error × Conn) (r : Outcome A × Conn) → Halts r → Halts (marked_by f r)
  marked-Halts f (ok a, c) h = tt
  marked-Halts f (err e, c) h = tt
  marked-Halts f (panic, c) h = tt
  marked-Halts f (stuck, c) h = h

  ended-Halts : (e : Option Error) (r : Outcome A × Conn) → Halts r → Halts (end_of_request e r)
  ended-Halts none r h = h
  ended-Halts (some x) (ok a, c) h = tt
  ended-Halts (some x) (err e, c) h = tt
  ended-Halts (some x) (panic, c) h = tt
  ended-Halts (some x) (stuck, c) h = h

  with_deadline-Halts :
      (ctx : Context) (m : Method Conn A) (c : Conn) → Halts (m c) → Halts (with_deadline ctx m c)
  unfolding with_deadline
  with_deadline-Halts ctx m c h = elim (Option-cases ctx.deadline_error) [
    | inl d ↦ rw d (ended-Halts ctx.ended (m c) h)
    | inr (e, d) ↦ rw d tt
  ]

module _ (z : Zlib) (za : ZlibAnswers z) where
  conn_write-Halts : (payload : Bytes) (c : Conn) → Halts (conn_write z payload c)
  unfolding conn_write
  conn_write-Halts payload c =
      go (write_packet z payload c.packets) (write_packet-Leaves z payload c.packets)
    where
      go :
          (r : Outcome (Unit {0}) × PacketConn)
          → Leaves (left c.packets) r
          → Halts {A = Unit {0}} (r.0, record c { packets = r.1 })
      go (ok a, p) h = tt
      go (err e, p) h = tt
      go (panic, p) h = tt
      go (stuck, p) h = h

value-Yields :
    (args : List NamedValue) → Yields (λ _. Unit) (session_time_zone_value_from_args args)
unfolding session_time_zone_value_from_args
value-Yields [] = tt
value-Yields (arg ∷ []) = of arg.value
  where
    of :
        (v : Value)
        → Yields
            (λ _. Unit)
            (elim v [
              | string s ↦ ok s
              | byte_slice s ↦ ok s
              | _ ↦ err (message "session time zone argument has unsupported type %T")
            ])
    of nil = tt
    of (int64 v) = tt
    of (float64 v) = tt
    of (bool v) = tt
    of (byte_slice v) = tt
    of (string v) = tt
    of (time v) = tt
    of other = tt
value-Yields (arg ∷ more ∷ args) = tt

set_time_zone-Halts :
    (text : Outcome Bytes) (c : Conn) → Yields (λ _. Unit) text → Halts (set_time_zone text c)
unfolding set_time_zone location_of session_time_zone_sync_error
set_time_zone-Halts (ok text) c h =
    go (parse_session_time_zone text) (parse_session_time_zone-Yields text)
  where
    go :
        (r : Outcome (Location × Bytes))
        → Yields (λ _. Unit) r
        → Halts {A = Unit {0}} (elim r [
          | ok (location, canonical) ↦ (ok tt, record c { session_location = some location })
          | err e ↦ session_time_zone_sync_error e c
          | panic ↦ (panic, c)
          | stuck ↦ (stuck, c)
        ])
    go (ok r) k = tt
    go (err e) k = tt
    go panic k = tt
    go stuck k = k
set_time_zone-Halts (err e) c h = tt
set_time_zone-Halts panic c h = tt
set_time_zone-Halts stuck c h = h

update-Halts :
    (query : Bytes) (args : List NamedValue) (c : Conn)
    → Halts (update_session_time_zone_from_query query args c)
unfolding update_session_time_zone_from_query session_time_zone_sync_error assigned_text
update-Halts query args c =
    Halts-choice (beq_bytes c.tenant_mode (codes "mysql")) _ _ tt
      (go (session_time_zone_assignment_from_query query))
  where
    assigned :
        (value : Bytes) (parameter : Bool) → Yields (λ _. Unit) (assigned_text value parameter args)
    assigned value true = value-Yields args
    assigned value false = tt

    go :
        (r : Option (Bytes × Bool))
        → Halts {A = Unit {0}} (elim r [
          | none ↦
              if is_session_time_zone_mutation query
              then session_time_zone_sync_error
                  (message "unsupported session time zone mutation syntax")
                  c
              else (ok tt, c)
          | some (value, parameter) ↦ set_time_zone (assigned_text value parameter args) c
        ])
    go none = Halts-choice (is_session_time_zone_mutation query) _ _ tt tt
    go (some (value, parameter)) =
        set_time_zone-Halts (assigned_text value parameter args) c (assigned value parameter)

pub usable-Halts : (c : Conn) → Halts (check_usable_locked c)
unfolding check_usable_locked
usable-Halts c = Halts-choice (c.closed || c.bad) _ _ tt tt

module _ (z : Zlib) (za : ZlibAnswers z) (time_zone : Option Bytes) where
  -- queryLocked comes to an end.
  pub query_locked-Halts :
      (ctx : Context) (query : Bytes) (c : Conn) → Halts (query_locked z time_zone ctx query c)
  unfolding query_locked write_query
  query_locked-Halts ctx query c =
      let update = update_session_time_zone_from_query query [] in
      let request =
        write_query z time_zone query >> (read_query_result z >>= λ rows. update >> return rows) in
      with_deadline-Halts ctx request c (
        Halts-bind (write_query z time_zone query c) _ (conn_write-Halts z za (0x03 ∷ query) _)
          λ _ c1.
            Halts-bind (read_query_result z c1) _
              (Halts-of_Ends (left c1.packets) _ (read_query_result-Ends z za c1))
              λ rows c2. Halts-bind (update c2) _ (update-Halts query [] c2) λ _ _. tt)
