-- ===== src/Session/Conn.antt =====
-- conn.go: the state of a connection, how errors retire it, and the OK packet. The mutex is not a
-- part of the state: a method stands for what it does while it holds the lock.
pub mod Ok
pub mod Runs
pub mod Untouched
use obconnector_go.Common.{
  ℕ, zero, suc, ◌+◌, ◌-◌, ◌*◌, ◌/◌, ◌%◌, ◌^◌, ◌≤◌, ◌<◌, min, max, bit_and, bit_or, bit_xor, String,
  ◌≡◌, refl, sym, ap, ap₂, ◌∙◌, subst, ◌≢◌, ◌↔◌, ◌⊎◌, inl, inr, Bool, true, false, not, ◌&&◌, ◌||◌,
  Option, none, some, List, [], ◌∷◌, ◌++◌, map, reverse, append-nil, append_assoc, arith, ltb, leb,
  ◌==◌, if◌then◌else◌, ltb→lt, lt→ltb, ltb-false, ltb-false→le, leb→le, ==_refl, ==_iff, tests,
  Bool-cases, Option-cases, length, get_or, take, drop, replicate, All, slice, length-append,
  length-take, length-drop, take-append-drop, take_all, drop_all, take-append, drop-append,
  All-append, Error, eof, unexpected_eof, bad_conn, net_error, malformed_length_encoded_integer,
  seq_error, server_error, message, wrap, wrap_two, Outcome, ok, err, panic, stuck, guard, Answers,
  >>=-eq-ok, Answers-bind, Answers-cases,
}
use obconnector_go.Common.State.{
  Method, return, fail, lift, gets, modify, check, after, ◌>>=◌, ◌>>◌, Ensures, Ensures-bind,
  Ensures-lift, Answers-of_Ensures,
}
use obconnector_go.Common.Bytes.{Bytes, codes}
use obconnector_go.Protocol.Packet.Conn.{PacketConn, Zlib, reset_sequence, next_request}
use obconnector_go.Protocol.Packet.Read.{read_packet}
use obconnector_go.Protocol.Packet.Write.{write_packet}
use obconnector_go.Sql.TimeZone.{Location}
use obconnector_go.Session.Errors.{is_server_error, is_bad_conn, is_bad_conn_error}

-- `net_open` is `c.netConn != nil`; a nil sessionLocation is none.
pub record Conn : Type 0 where
  pub packets : PacketConn
  pub net_open : Bool
  pub db : Bytes
  pub ob20_confirmed : Bool
  pub ob20_declined : Bool
  pub deprecate_eof : Bool
  pub session_track : Bool
  pub tenant_mode : Bytes
  pub session_location : Option Location
  pub closed : Bool
  pub bad : Bool
  pub in_tx : Bool

abbrev pub with_packets : {A : Type 0} → Method PacketConn A → Method Conn A
with_packets m c = let (r, p) = m c.packets in (r, record c { packets = p })

-- `c.packets.ReadPacket()`, `c.packets.WritePacket(payload)` and
-- `c.packets.ResetSequence(); c.packets.NextRequest()`.
unfoldable pub conn_read : Zlib → Method Conn Bytes
conn_read z = with_packets (read_packet z)

unfoldable pub conn_write : Zlib → Bytes → Method Conn (Unit {0})
conn_write z payload = with_packets (write_packet z payload)

abbrev pub new_request : Method Conn (Unit {0})
new_request = modify (λ (c : Conn). record c { packets = next_request (reset_sequence c.packets) })

abbrev pub retire : Conn → Conn
retire c = record c { bad = true }

unfoldable pub check_usable_locked : Method Conn (Unit {0})
check_usable_locked c = if c.closed || c.bad then (err bad_conn, c) else (ok tt, c)

unfoldable pub mark_bad_if_conn_err : Error → Conn → Error × Conn
unfolding is_bad_conn_error
mark_bad_if_conn_err e c = if is_bad_conn_error e then (bad_conn, retire c) else (e, c)

unfoldable pub mark_protocol_error : Error → Conn → Error × Conn
unfolding is_server_error is_bad_conn
mark_protocol_error e c =
    if is_server_error e
    then (e, c)
    else if is_bad_conn e
    then (e, retire c)
    else (wrap "oceanbase: protocol error: %v: %w" bad_conn, retire c)

unfoldable pub mark_session_reset_error : Error → Conn → Error × Conn
unfolding is_bad_conn
mark_session_reset_error e c =
    if is_bad_conn e
    then (e, retire c)
    else (wrap_two "oceanbase: session reset failed: %w: %w" e bad_conn, retire c)

-- `if err != nil { return mark(err) }` behind a step.
module _ {A : Type 0} where
  abbrev pub marked_by : (Error → Conn → Error × Conn) → Outcome A × Conn → Outcome A × Conn
  marked_by mark (ok a, c) = (ok a, c)
  marked_by mark (err e, c) = let (e', c') = mark e c in (err e', c')
  marked_by mark (panic, c) = (panic, c)
  marked_by mark (stuck, c) = (stuck, c)

  abbrev pub protocol : Method Conn A → Method Conn A
  protocol m c = marked_by mark_protocol_error (m c)

  abbrev pub conn_errors : Method Conn A → Method Conn A
  conn_errors m c = marked_by mark_bad_if_conn_err (m c)

  abbrev pub reset_errors : Method Conn A → Method Conn A
  reset_errors m c = marked_by mark_session_reset_error (m c)

-- What a context and the configured timeout make of a request: the error of SetDeadline, if there
-- is a deadline and the call fails, and `ctx.Err()` when the request is over.
pub record Context : Type 0 where
  pub deadline_error : Option Error
  pub ended : Option Error

module _ {A : Type 0} where
  abbrev pub end_of_request : Option Error → Outcome A × Conn → Outcome A × Conn
  end_of_request (some x) (err e, c) = (err x, retire c)
  end_of_request _ r = r

  unfoldable pub with_deadline : Context → Method Conn A → Method Conn A
  with_deadline ctx fn c = elim (ctx.deadline_error) [
    | some e ↦ (err e, c)
    | none ↦ end_of_request ctx.ended (fn c)
  ]
