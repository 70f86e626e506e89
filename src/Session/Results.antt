-- ===== src/Session/Results.antt =====
-- rows.go: reading result sets, and draining those that nobody reads.
pub mod Retires
pub mod Ends
pub mod Untouched
use obconnector_go.Common.{
  ℕ, zero, suc, ◌+◌, ◌-◌, ◌*◌, ◌/◌, ◌%◌, ◌^◌, ◌≤◌, ◌<◌, min, max, bit_and, bit_or, bit_xor, String,
  ◌≡◌, refl, sym, ap, ap₂, ◌∙◌, subst, ◌≢◌, ◌↔◌, ◌⊎◌, inl, inr, Bool, true, false, not, ◌&&◌, ◌||◌,
  Option, none, some, List, [], ◌∷◌, ◌++◌, map, reverse, append-nil, append_assoc, arith, ltb, leb,
  ◌==◌, if◌then◌else◌, ltb→lt, lt→ltb, ltb-false, ltb-false→le, leb→le, ==_refl, ==_iff, tests,
  Bool-cases, Option-cases, length, get_or, take, drop, replicate, All, slice, length-append,
  length-take, length-drop, take-append-drop, take_all, drop_all, take-append, drop-append,
  All-append, Error, eof, unexpected_eof, bad_conn, net_error, malformed_length_encoded_integer,
  seq_error, server_error, message, wrap, wrap_two, Outcome, ok, err, panic, stuck, guard, Answers,
  >>=-eq-ok, Answers-bind, Answers-cases,
}
use obconnector_go.Common.State.{
  Method, return, fail, lift, gets, modify, check, after, ◌>>=◌, ◌>>◌, Ensures, Ensures-bind,
  Ensures-lift, Answers-of_Ensures,
}
use obconnector_go.Common.Bytes.{Bytes}
use obconnector_go.Common.Int.{ℤ, pos}
use obconnector_go.Protocol.Lenenc.{read_length_encoded_int}
use obconnector_go.Protocol.Packet.Conn.{Zlib}
use obconnector_go.Sql.TimeZone.{Location}
use obconnector_go.Session.Errors.{parse_server_error}
use obconnector_go.Session.Packets.{
  ColumnDef, parse_column_definition, has_flag, server_more_results_exists, first_is, is_err_packet,
  is_eof_packet, is_eof_or_ok, is_result_set_ok_packet, is_result_set_terminator_packet,
  is_result_set_terminator_for_mode, result_set_terminator_has_more_results,
}
use obconnector_go.Session.Conn.{Conn, conn_read, retire, mark_protocol_error, protocol}
use obconnector_go.Session.Conn.Ok.{handle_ok}

abbrev pub max_drain_rows : ℕ
max_drain_rows = 10000

abbrev pub max_result_columns : ℕ
max_result_columns = 10000

-- `return c.markProtocolError(e)`
abbrev pub fail_protocol : {A : Type 0} → Error → Method Conn A
fail_protocol e = protocol (fail e)

-- `return e` behind `c.bad.Store(true)`.
abbrev pub fail_bad : {A : Type 0} → Error → Method Conn A
fail_bad e c = (err e, retire c)

-- What Rows keeps of a result set; `done` is set for a result without rows.
pub record RowsState : Type 0 where
  pub col_defs : List ColumnDef
  pub streaming : Bool
  pub result_set_ok : Bool
  pub rows_session_track : Bool
  pub rows_location : Option Location
  pub done : Bool

abbrev pub no_rows : Bool → RowsState
no_rows done = record {
  col_defs = [];
  streaming = false;
  result_set_ok = false;
  rows_session_track = false;
  rows_location = none;
  done = done;
}

-- Enough rounds for the loop over result sets: each takes at least one packet of the stream.
abbrev pub rounds : Conn → ℕ
rounds c = suc (length c.packets.incoming + length c.packets.mysql_buf)

module _ (z : Zlib) where
  -- The packets of the loop over the column definitions.
  unfoldable pub skip_packets : ℕ → Method Conn (Unit {0})
  unfolding conn_read mark_protocol_error
  skip_packets zero = return tt
  skip_packets (suc n) = do packet ← protocol (conn_read z); skip_packets n

  unfoldable pub read_columns : ℕ → Method Conn (List ColumnDef)
  unfolding conn_read mark_protocol_error parse_column_definition
  read_columns zero = return []
  read_columns (suc n) = do
    packet ← protocol (conn_read z)
    cd ← protocol (lift (parse_column_definition packet))
    rest ← read_columns n
    return (cd ∷ rest)

  -- What readEOFOrOKPacket and readResultSetTerminatorPacket make of a packet.
  abbrev pub expect : (Bytes → Bool → Bool) → Error → Bytes → Method Conn Bytes
  expect test unexpected packet c =
      if is_err_packet packet
      then fail_protocol (parse_server_error packet) c
      else if not (test packet c.session_track)
      then (if length packet == 0
          then fail_protocol unexpected_eof c
          else fail_protocol unexpected c)
      else (ok packet, c)

  unfoldable pub read_eof_or_ok_packet : Method Conn Bytes
  unfolding conn_read mark_protocol_error is_eof_or_ok parse_server_error
  read_eof_or_ok_packet = do
    packet ← protocol (conn_read z)
    expect is_eof_or_ok (message "expected EOF/OK packet, got 0x%02x") packet

  unfoldable pub read_result_set_terminator_packet : Method Conn Bytes
  unfolding conn_read mark_protocol_error is_result_set_terminator_packet parse_server_error
  read_result_set_terminator_packet = do
    packet ← protocol (conn_read z)
    expect is_result_set_terminator_packet (message "expected result-set EOF/OK packet, got 0x%02x")
        packet

  -- The mode of the terminator of the rows: `resultSetOK`.
  unfoldable pub terminator_mode : Method Conn Bool
  unfolding read_result_set_terminator_packet is_result_set_ok_packet
  terminator_mode c =
      if c.deprecate_eof
      then (ok true, c)
      else (do
        terminator ← read_result_set_terminator_packet
        session_track ← gets (λ (d : Conn). d.session_track)
        return (is_result_set_ok_packet terminator session_track))
          c

  -- The loop over the rows that nobody reads.
  unfoldable pub drain_rows : ℕ → Bool → Method Conn Bool
  unfolding conn_read mark_protocol_error parse_server_error is_result_set_terminator_for_mode
      result_set_terminator_has_more_results
  drain_rows zero result_set_ok =
      fail_bad (message "oceanbase: result-set drain exceeded %d rows, possible protocol desync")
  drain_rows (suc n) result_set_ok = do
    packet ← protocol (conn_read z)
    session_track ← gets (λ (c : Conn). c.session_track)
    if is_err_packet packet
        then fail_protocol (parse_server_error packet)
        else if is_result_set_terminator_for_mode packet result_set_ok session_track
        then return (result_set_terminator_has_more_results packet session_track)
        else drain_rows n result_set_ok

  unfoldable pub column_count_of : Bytes → Method Conn ℕ
  unfolding read_length_encoded_int mark_protocol_error
  column_count_of first = do
    (column_count, _, _) ← protocol (lift (read_length_encoded_int first))
    protocol (
        check (leb column_count max_result_columns)
          (message "oceanbase: result set column count %d exceeds maximum %d"))
    return column_count

  unfoldable pub drain_result_set_after_column_count : Bytes → Method Conn Bool
  unfolding column_count_of skip_packets terminator_mode drain_rows
  drain_result_set_after_column_count first = do
    column_count ← column_count_of first
    skip_packets column_count
    result_set_ok ← terminator_mode
    drain_rows max_drain_rows result_set_ok

  -- Whether another result follows the one whose first packet this is.
  unfoldable pub drain_result_from_first_packet : Bytes → Method Conn Bool
  unfolding handle_ok mark_protocol_error parse_server_error drain_result_set_after_column_count
  drain_result_from_first_packet first =
      if length first == 0
      then fail_protocol unexpected_eof
      else if first_is 0x00 first
      then (do
        (_, status) ← protocol (handle_ok first)
        return (has_flag status server_more_results_exists))
      else if first_is 0xff first
      then fail_protocol (parse_server_error first)
      else drain_result_set_after_column_count first

  unfoldable pub drain_result_sets : ℕ → Bytes → Method Conn (Unit {0})
  unfolding drain_result_from_first_packet conn_read mark_protocol_error
  drain_result_sets zero first = λ c. (stuck, c)
  drain_result_sets (suc fuel) first = do
    more ← protocol (drain_result_from_first_packet first)
    if more then (do next ← protocol (conn_read z); drain_result_sets fuel next) else return tt

  unfoldable pub drain_result_sets_from_first_packet : Bytes → Method Conn (Unit {0})
  unfolding drain_result_sets
  drain_result_sets_from_first_packet first c = drain_result_sets (rounds c) first c

  -- conn_stmt.go
  unfoldable pub drain_remaining_results : Method Conn (Unit {0})
  unfolding conn_read mark_protocol_error drain_result_sets_from_first_packet
  drain_remaining_results = do
    first ← protocol (conn_read z)
    drain_result_sets_from_first_packet first

  -- `if status&ServerMoreResultsExists != 0 { drain }`
  abbrev pub drain_if : Bool → Method Conn (Unit {0})
  drain_if more = if more then drain_remaining_results else return tt

  unfoldable pub read_query_result : Method Conn RowsState
  unfolding conn_read mark_protocol_error parse_server_error handle_ok drain_remaining_results
      column_count_of read_columns terminator_mode
  read_query_result = do
    first ← protocol (conn_read z)
    if length first == 0
        then fail_protocol unexpected_eof
        else if first_is 0xff first
        then fail_protocol (parse_server_error first)
        else if first_is 0x00 first
        then (do
          (_, status) ← protocol (handle_ok first)
          drain_if (has_flag status server_more_results_exists)
          return (no_rows true))
        else do
          column_count ← column_count_of first
          defs ← read_columns column_count
          ok_mode ← protocol terminator_mode
          (session_track, location) ← gets (λ (c : Conn). (c.session_track, c.session_location))
          return record {
            col_defs = defs;
            streaming = true;
            result_set_ok = ok_mode;
            rows_session_track = session_track;
            rows_location = location;
            done = false;
          }

  -- The two row counts of the result.
  unfoldable pub read_result_from_first_packet : Bytes → Method Conn (ℤ × ℤ)
  unfolding handle_ok mark_protocol_error parse_server_error drain_remaining_results
      drain_result_sets_from_first_packet
  read_result_from_first_packet packet =
      if length packet == 0
      then fail_protocol unexpected_eof
      else if first_is 0x00 packet
      then (do
        (res, status) ← protocol (handle_ok packet)
        drain_if (has_flag status server_more_results_exists)
        return res)
      else if first_is 0xff packet
      then fail_protocol (parse_server_error packet)
      else (drain_result_sets_from_first_packet packet >> return (pos 0, pos 0))
