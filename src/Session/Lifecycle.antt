-- ===== src/Session/Lifecycle.antt =====
-- conn.go, tx.go: requests on a connection, transactions, the reset between two users of a pooled
-- connection, and its end; session_timezone.go and conn_handshake.go: the session time zone.
pub mod Guards
pub mod Transactions
use obconnector_go.Common.{
  ℕ, zero, suc, ◌+◌, ◌-◌, ◌*◌, ◌/◌, ◌%◌, ◌^◌, ◌≤◌, ◌<◌, min, max, bit_and, bit_or, bit_xor, String,
  ◌≡◌, refl, sym, ap, ap₂, ◌∙◌, subst, ◌≢◌, ◌↔◌, ◌⊎◌, inl, inr, Bool, true, false, not, ◌&&◌, ◌||◌,
  Option, none, some, List, [], ◌∷◌, ◌++◌, map, reverse, append-nil, append_assoc, arith, ltb, leb,
  ◌==◌, if◌then◌else◌, ltb→lt, lt→ltb, ltb-false, ltb-false→le, leb→le, ==_refl, ==_iff, tests,
  Bool-cases, Option-cases, length, get_or, take, drop, replicate, All, slice, length-append,
  length-take, length-drop, take-append-drop, take_all, drop_all, take-append, drop-append,
  All-append, Error, eof, unexpected_eof, bad_conn, net_error, malformed_length_encoded_integer,
  seq_error, server_error, message, wrap, wrap_two, Outcome, ok, err, panic, stuck, guard, Answers,
  >>=-eq-ok, Answers-bind, Answers-cases,
}
use obconnector_go.Common.State.{
  Method, return, fail, lift, gets, modify, check, after, ◌>>=◌, ◌>>◌, Ensures, Ensures-bind,
  Ensures-lift, Answers-of_Ensures,
}
use obconnector_go.Common.Bytes.{Bytes, codes, le_bytes, beq_bytes}
use obconnector_go.Common.Int.{ℤ}
use obconnector_go.Protocol.Packet.Conn.{Zlib}
use obconnector_go.Sql.Params.{NamedValue}
use obconnector_go.Sql.TimeZone.{
  Location, utc, parse_session_time_zone, resolve_session_time_zone, session_time_zone_sql,
}
use obconnector_go.Sql.Assignment.{
  session_time_zone_assignment_from_query, is_session_time_zone_mutation,
  session_time_zone_value_from_args,
}
use obconnector_go.Session.Errors.{parse_server_error}
use obconnector_go.Session.Packets.{first_is}
use obconnector_go.Session.Conn.{
  Conn, Context, conn_read, conn_write, new_request, retire, check_usable_locked,
  mark_protocol_error, mark_bad_if_conn_err, mark_session_reset_error, protocol, conn_errors,
  reset_errors, with_deadline,
}
use obconnector_go.Session.Results.{
  RowsState, fail_protocol, read_query_result, read_result_from_first_packet,
}

unfoldable pub session_time_zone_sync_error : Error → Method Conn (Unit {0})
session_time_zone_sync_error e c = (
  err (wrap "oceanbase: cannot synchronize session time zone for %q: %v: %w" bad_conn),
  retire (record c { session_location = none }),
)

-- The value that the statement assigns: the text, or the only argument for a placeholder.
unfoldable pub assigned_text : Bytes → Bool → List NamedValue → Outcome Bytes
unfolding session_time_zone_value_from_args
assigned_text value parameter args =
    if parameter then session_time_zone_value_from_args args else ok value

unfoldable pub location_of : Outcome Bytes → Outcome (Location × Bytes)
unfolding parse_session_time_zone
location_of (ok text) = parse_session_time_zone text
location_of (err e) = err e
location_of panic = panic
location_of stuck = stuck

unfoldable pub set_time_zone : Outcome Bytes → Method Conn (Unit {0})
unfolding location_of session_time_zone_sync_error
set_time_zone text c = elim (location_of text) [
  | ok (location, canonical) ↦ (ok tt, record c { session_location = some location })
  | err e ↦ session_time_zone_sync_error e c
  | panic ↦ (panic, c)
  | stuck ↦ (stuck, c)
]

unfoldable pub update_session_time_zone_from_query :
    Bytes → List NamedValue → Method Conn (Unit {0})
unfolding session_time_zone_assignment_from_query is_session_time_zone_mutation set_time_zone
    assigned_text beq_bytes
update_session_time_zone_from_query query args c =
    if beq_bytes c.tenant_mode (codes "mysql")
    then (ok tt, c)
    else elim (session_time_zone_assignment_from_query query) [
      | none ↦
          if is_session_time_zone_mutation query
          then session_time_zone_sync_error
              (message "unsupported session time zone mutation syntax") c
          else (ok tt, c)
      | some (value, parameter) ↦ set_time_zone (assigned_text value parameter args) c
    ]

unfoldable pub is_valid : Conn → Bool
is_valid c = not c.closed && not c.bad

-- The configured session time zone; none without a configuration.
module _ (z : Zlib) (time_zone : Option Bytes) where
  unfoldable pub write_query : Bytes → Method Conn (Unit {0})
  unfolding conn_write
  write_query query = new_request >> conn_write z (0x03 ∷ query)

  unfoldable pub query_locked : Context → Bytes → Method Conn RowsState
  unfolding with_deadline write_query read_query_result update_session_time_zone_from_query
  query_locked ctx query = with_deadline ctx (
      write_query query
      >> (do rows ← read_query_result z; update_session_time_zone_from_query query []; return rows))

  unfoldable pub exec_locked : Context → Bytes → Method Conn (ℤ × ℤ)
  unfolding with_deadline write_query conn_read mark_protocol_error read_result_from_first_packet
      update_session_time_zone_from_query
  exec_locked ctx query = with_deadline ctx (
      write_query query >> (do
        first ← protocol (conn_read z)
        res ← read_result_from_first_packet z first
        update_session_time_zone_from_query query []
        return res))

  -- The answer to a request that only an OK packet completes.
  unfoldable pub expect_ok : Error → Bytes → Method Conn (Unit {0})
  unfolding mark_protocol_error parse_server_error
  expect_ok unexpected packet =
      if length packet == 0
      then fail_protocol unexpected_eof
      else if first_is 0xff packet
      then fail_protocol (parse_server_error packet)
      else if not (first_is 0x00 packet)
      then fail_protocol unexpected
      else return tt

  unfoldable pub ping : Context → Method Conn (Unit {0})
  unfolding check_usable_locked mark_bad_if_conn_err with_deadline conn_write conn_read
      mark_protocol_error expect_ok
  ping ctx =
      check_usable_locked
      >> conn_errors (
          with_deadline ctx (
            new_request
            >> (conn_write z (0x0e ∷ []) >> (do
              packet ← protocol (conn_read z)
              expect_ok (message "oceanbase: unexpected ping response packet 0x%02x") packet))))

  abbrev pub set_location : Location → Method Conn (Unit {0})
  set_location location = modify (λ (c : Conn). record c { session_location = some location })

  unfoldable pub configure_session_time_zone : Context → Method Conn (Unit {0})
  unfolding resolve_session_time_zone session_time_zone_sql exec_locked
  configure_session_time_zone ctx c = elim time_zone [
    | none ↦ set_location utc c
    | some value ↦
        (do
          (location, canonical, enabled) ← lift (resolve_session_time_zone c.tenant_mode value)
          if enabled
              then (do _ ← exec_locked ctx (session_time_zone_sql canonical); set_location location)
              else set_location utc)
          c
  ]

  unfoldable pub rollback_active : Context → Method Conn (Unit {0})
  unfolding exec_locked mark_session_reset_error
  rollback_active ctx c =
      if c.in_tx
      then (do
        _ ← reset_errors (exec_locked ctx (codes "rollback"))
        modify (λ (d : Conn). record d { in_tx = false }))
          c
      else (ok tt, c)

  unfoldable pub reset_session : Context → Method Conn (Unit {0})
  unfolding check_usable_locked rollback_active mark_session_reset_error configure_session_time_zone
  reset_session ctx =
      check_usable_locked >> (rollback_active ctx >> reset_errors (configure_session_time_zone ctx))

  -- BeginTx: whether an isolation level or a read-only transaction is asked for.
  unfoldable pub begin_tx : Bool → Bool → Method Conn (Unit {0})
  begin_tx isolation read_only c =
      if isolation
      then (err (message "oceanbase: custom transaction isolation is not implemented"), c)
      else if read_only
      then (err (message "oceanbase: read-only transactions are not implemented"), c)
      else if c.in_tx
      then (err (message "oceanbase: transaction already active"), c)
      else (ok tt, record c { in_tx = true })

  -- Close: the error of the network connection's Close is the parameter.
  unfoldable pub close : Option Error → Method Conn (Unit {0})
  unfolding conn_write
  close net_close c =
      if c.closed
      then (ok tt, c)
      else if not c.net_open
      then (ok tt, record c { closed = true })
      else let (_, d) = (new_request >> conn_write z (0x01 ∷ [])) (record c { closed = true }) in
        let c' = record d { net_open = false } in
        elim net_close [ none ↦ (ok tt, c') | some e ↦ (err e, c') ]

  -- A request about the statement `id`: the command byte and the id.
  unfoldable pub send_stmt : ℕ → ℕ → Method Conn (Unit {0})
  unfolding conn_write le_bytes
  send_stmt command id = new_request >> conn_write z (command ∷ le_bytes 4 id)

  unfoldable pub close_stmt : ℕ → Method Conn (Unit {0})
  unfolding send_stmt
  close_stmt id c = if c.closed || c.bad then (ok tt, c) else send_stmt 0x19 id c

  -- conn_stmt.go
  unfoldable pub reset_stmt : ℕ → Method Conn (Unit {0})
  unfolding check_usable_locked send_stmt conn_read mark_protocol_error expect_ok
  reset_stmt id =
      check_usable_locked
      >> (send_stmt 0x1a id >> (do
        packet ← protocol (conn_read z)
        expect_ok (message "oceanbase: unexpected statement reset response 0x%02x") packet))

  -- Tx.finish behind the test of `done`: what becomes of `done` and of the connection.
  abbrev pub finished : Bool → Outcome (Unit {0}) × Conn → Outcome (Unit {0}) × (Bool × Conn)
  finished done (ok _, c) = (ok tt, (true, record c { in_tx = false }))
  finished done (err e, c) = (err e, (done, c))
  finished done (panic, c) = (panic, (done, c))
  finished done (stuck, c) = (stuck, (done, c))

  unfoldable pub finish_request : Context → Bytes → Method Conn (Unit {0})
  unfolding check_usable_locked exec_locked mark_bad_if_conn_err
  finish_request ctx query =
      check_usable_locked >> conn_errors (exec_locked ctx query >>= λ _. return tt)

  unfoldable pub finish : Context → Bytes → Method (Bool × Conn) (Unit {0})
  unfolding finish_request
  finish ctx query (done, c) =
      if done then (ok tt, (done, c)) else finished done (finish_request ctx query c)
