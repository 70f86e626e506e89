-- ===== src/Session/Rows.antt =====
-- rows.go: the Rows of an answer that is read packet by packet. They hold the connection's lock
-- until their end.
pub mod Parses
pub mod Locking
use obconnector_go.Common.{
  ℕ, zero, suc, ◌+◌, ◌-◌, ◌*◌, ◌/◌, ◌%◌, ◌^◌, ◌≤◌, ◌<◌, min, max, bit_and, bit_or, bit_xor, String,
  ◌≡◌, refl, sym, ap, ap₂, ◌∙◌, subst, ◌≢◌, ◌↔◌, ◌⊎◌, inl, inr, Bool, true, false, not, ◌&&◌, ◌||◌,
  Option, none, some, List, [], ◌∷◌, ◌++◌, map, reverse, append-nil, append_assoc, arith, ltb, leb,
  ◌==◌, if◌then◌else◌, ltb→lt, lt→ltb, ltb-false, ltb-false→le, leb→le, le→leb, leb-false,
  leb-false→lt, ==_refl, ==_iff, tests, Bool-cases, Option-cases, length, get_or, take, drop,
  replicate, All, slice, length-append, length-take, length-drop, take-append-drop, take_all,
  drop_all, take-append, drop-append, All-append, Error, eof, unexpected_eof, bad_conn, net_error,
  malformed_length_encoded_integer, seq_error, server_error, message, wrap, wrap_two, Outcome, ok,
  err, panic, stuck, guard, guard-ok, >>-ok, Answers, >>=-eq-ok, Answers-bind, Answers-cases,
  Yields, Yields-bind, if-Yields,
}
use obconnector_go.Common.State.{
  Method, return, fail, lift, gets, modify, check, after, ◌>>=◌, ◌>>◌, Ensures, Ensures-bind,
  Ensures-lift, Answers-of_Ensures,
}
use obconnector_go.Common.Bytes.{Bytes}
use obconnector_go.Protocol.Packet.Conn.{Zlib}
use mathlib.Core.Option as Option
use obconnector_go.Protocol.Zone.{Zone, zone_at}
use obconnector_go.Protocol.Calendar.{Time}
use obconnector_go.Protocol.Binary.Values.{parse_binary_row_in_location, type_var_string}
use obconnector_go.Sql.Params.{Value}
use obconnector_go.Session.Errors.{parse_server_error}
use obconnector_go.Session.Packets.{
  ColumnDef, has_flag, is_err_packet, is_eof_packet, is_result_set_ok_packet,
  result_set_terminator_has_more_results,
}
use obconnector_go.Session.Conn.{Conn, conn_read, retire, mark_protocol_error, marked_by, protocol}
use obconnector_go.Session.Results.{
  RowsState, fail_protocol, fail_bad, max_drain_rows, drain_remaining_results,
}
use obconnector_go.Session.TextRow.{
  ScanType, string_type, parse_text_row_in_location, database_type_name, scan_type,
}

-- A Rows object with its connection. `locked` is the state of the connection's mutex, and
-- `release` is whether r.release is set, which is the mutex's Unlock.
pub record Reading : Type 0 where
  pub rows : RowsState
  pub binary : Bool
  pub values : List (List Value)
  pub index : ℕ
  pub rows_closed : Bool
  pub release : Bool
  pub conn : Conn
  pub locked : Bool

abbrev pub set_done : Reading → Reading
set_done s = record s { rows = record (s.rows) { done = true } }

-- Unlocking a mutex that is not locked is a fatal error.
unfoldable pub finish_rows : Method Reading (Unit {0})
finish_rows s =
    if s.release
    then (
      if s.locked then ok tt else panic,
      record (set_done s) { release = false; locked = false },
    )
    else (ok tt, set_done s)

-- A step on the connection alone.
abbrev pub on_conn : {A : Type 0} → Method Conn A → Method Reading A
on_conn m s = let (r, c) = m s.conn in (r, record s { conn = c })

-- finish, and then the answer.
abbrev pub finishing : {A : Type 0} → Outcome A → Method Reading A
finishing r = finish_rows >> lift r

unfoldable pub is_result_set_terminator : RowsState → Bytes → Bool
unfolding is_result_set_ok_packet is_eof_packet
is_result_set_terminator r packet =
    if r.result_set_ok
    then is_result_set_ok_packet packet r.rows_session_track
    else is_eof_packet packet

abbrev pub types_of : RowsState → List ℕ
types_of r = map (λ (d : ColumnDef). d.typ) r.col_defs

-- `copy(dest, row)`
abbrev pub copy : List Value → List Value → List Value
copy dest row = take (length dest) row ++ drop (length row) dest

-- Close: finish runs behind an error of drain, too.
abbrev pub then_finish : Outcome (Unit {0}) × Reading → Outcome (Unit {0}) × Reading
then_finish (ok _, s) = finishing (ok tt) s
then_finish (err e, s) = finishing (err e) s
then_finish (panic, s) = (panic, s)
then_finish (stuck, s) = (stuck, s)

-- A row is copied; an error of the row marks the connection bad and ends the rows.
abbrev pub deliver : List Value → Outcome (List Value) → Method Reading (List Value)
deliver dest (ok row) s = (ok (copy dest row), s)
deliver dest (err e) s = finishing (err e) (record s { conn = retire s.conn })
deliver dest panic s = (panic, s)
deliver dest stuck s = (stuck, s)

-- The end of the rows, or the error of draining what follows them.
abbrev pub at_end : {A : Type 0} → Outcome (Unit {0}) × Reading → Outcome A × Reading
at_end (ok _, s) = finishing (err eof) s
at_end (err e, s) = finishing (err e) s
at_end (panic, s) = (panic, s)
at_end (stuck, s) = (stuck, s)

-- `return r.conn.markProtocolError(e)` behind r.finish().
abbrev pub finish_then_mark : {A : Type 0} → Error → Method Reading A
finish_then_mark e = finish_rows >> on_conn (fail_protocol e)

module _ (z : Zlib) where
  -- The loop of drain.
  unfoldable pub drain_loop : ℕ → RowsState → Method Conn (Unit {0})
  unfolding conn_read mark_protocol_error parse_server_error is_result_set_terminator
      result_set_terminator_has_more_results drain_remaining_results
  drain_loop zero r =
      fail_bad (message "oceanbase: drain() exceeded %d rows, possible protocol desync")
  drain_loop (suc n) r = do
    packet ← protocol (conn_read z)
    if is_result_set_terminator r packet
        then (if result_set_terminator_has_more_results packet r.rows_session_track
            then drain_remaining_results z
            else return tt)
        else if is_err_packet packet
        then fail_protocol (parse_server_error packet)
        else drain_loop n r

  unfoldable pub drain : RowsState → Method Conn (Unit {0})
  unfolding drain_loop
  drain = drain_loop max_drain_rows

  unfoldable pub close_rows : Method Reading (Unit {0})
  unfolding drain finish_rows
  close_rows s =
      if s.rows_closed
      then (ok tt, s)
      else let s' = record s { rows_closed = true; values = [] } in
        if s.rows.streaming && not s.rows.done
        then then_finish (on_conn (drain s.rows) s')
        else finishing (ok tt) s'

  -- The parameters of the text protocol: see TextRow.
  module _ (parse_float : Bytes → Option ℕ) (parse_in_location : String → Bytes → Option Time) where
    unfoldable pub parse_row : Reading → Bytes → Outcome (List Value)
    unfolding parse_binary_row_in_location parse_text_row_in_location
    parse_row s packet =
        let columns = length s.rows.col_defs in
        if s.binary
        then parse_binary_row_in_location packet columns (types_of s.rows)
            (Option.map zone_at s.rows.rows_location)
        else parse_text_row_in_location parse_float parse_in_location packet columns
            (types_of s.rows) (Option.map zone_at s.rows.rows_location)

    abbrev pub handle_packet : List Value → Bytes → Method Reading (List Value)
    handle_packet dest packet s =
        if is_result_set_terminator s.rows packet
        then at_end (
            if result_set_terminator_has_more_results packet s.rows.rows_session_track
            then on_conn (drain_remaining_results z) s
            else (ok tt, s))
        else if is_err_packet packet
        then finish_then_mark (parse_server_error packet) s
        else deliver dest (parse_row s packet) s

    -- What ReadPacket answers, its error marked.
    abbrev pub handle_read : List Value → Outcome Bytes × Reading → Outcome (List Value) × Reading
    handle_read dest (ok packet, s) = handle_packet dest packet s
    handle_read dest (err e, s) = finishing (err e) s
    handle_read dest (panic, s) = (panic, s)
    handle_read dest (stuck, s) = (stuck, s)

    -- The answer is what `dest` holds afterwards.
    unfoldable pub next_streaming : List Value → Method Reading (List Value)
    unfolding conn_read mark_protocol_error finish_rows is_result_set_terminator parse_server_error
        result_set_terminator_has_more_results drain_remaining_results parse_row
    next_streaming dest s =
        if s.rows.done then (err eof, s) else handle_read dest (on_conn (protocol (conn_read z)) s)

    abbrev pub value_at : List (List Value) → ℕ → List Value
    value_at values i = get_or values i []

    unfoldable pub next_row : List Value → Method Reading (List Value)
    unfolding next_streaming
    next_row dest s =
        if s.rows.streaming
        then next_streaming dest s
        else if leb (length s.values) s.index
        then (err eof, s)
        else (ok (copy dest (value_at s.values s.index)), record s { index = suc s.index })

-- What Rows says of its columns; a column that does not exist has a default.
abbrev pub not_null_flag : ℕ
not_null_flag = 0x0001

abbrev pub column_at : List ColumnDef → ℕ → Option ColumnDef
column_at [] i = none
column_at (d ∷ ds) zero = some d
column_at (d ∷ ds) (suc i) = column_at ds i

unfoldable pub column_type_database_type_name : RowsState → ℕ → Bytes
unfolding database_type_name
column_type_database_type_name r i = elim (column_at r.col_defs i) [
  | none ↦ []
  | some d ↦ database_type_name d.typ
]

unfoldable pub column_type_scan_type : RowsState → ℕ → ScanType
unfolding scan_type
column_type_scan_type r i = elim (column_at r.col_defs i) [
  | none ↦ string_type
  | some d ↦ scan_type d.typ
]

unfoldable pub column_type_nullable : RowsState → ℕ → Bool × Bool
column_type_nullable r i = elim (column_at r.col_defs i) [
  | none ↦ (true, true)
  | some d ↦ (not (has_flag d.flags not_null_flag), true)
]

unfoldable pub column_type_length : RowsState → ℕ → ℕ × Bool
column_type_length r i = elim (column_at r.col_defs i) [
  | none ↦ (0, false)
  | some d ↦ (d.column_length, true)
]

unfoldable pub column_type_precision_scale : RowsState → ℕ → ℕ × ℕ × Bool
column_type_precision_scale r i = elim (column_at r.col_defs i) [
  | none ↦ (0, 0, false)
  | some d ↦ (d.column_length, d.decimals, true)
]
