-- ===== src/Session/Statements.antt =====
-- conn_stmt.go and stmt.go: prepared statements; context.go, and conn.go: the extra information of a
-- request.
use obconnector_go.Common.{
  ℕ, suc, String, Bool, true, false, not, ◌||◌, Option, none, some, List, [], ◌∷◌, map, reverse,
  ltb, ◌==◌, if◌then◌else◌, length, replicate, slice, Error, unexpected_eof, message, Outcome, ok,
  err, panic, stuck,
}
use obconnector_go.Common.State.{Method, return, fail, lift, modify, ◌>>=◌, ◌>>◌}
use obconnector_go.Common.Bytes.{Bytes, le_bytes, le_value}
use obconnector_go.Common.Int.{ℤ, pos, word}
use obconnector_go.Protocol.Packet.Conn.{Zlib, PacketConn, add_extra_info, clear_extra_info}
use obconnector_go.Protocol.Ob20.ExtraInfo.{build_flt_extra_info}
use obconnector_go.Protocol.Calendar.{Time}
use obconnector_go.Sql.Params.{Value, nil, non_empty}
use obconnector_go.Session.Payloads.{
  Argument, in_param, out_param, unwrap_out_param, execute_payload, bulk_payload,
}
use obconnector_go.Session.Rows.{Reading, close_rows, next_row}
use obconnector_go.Session.Errors.{parse_server_error}
use obconnector_go.Session.Packets.{first_is, has_flag, server_more_results_exists}
use obconnector_go.Session.Conn.{
  Conn, Context, conn_read, conn_write, new_request, mark_protocol_error, mark_bad_if_conn_err,
  protocol, conn_errors, with_deadline,
}
use obconnector_go.Session.Conn.Ok.{handle_ok}
use obconnector_go.Session.Results.{
  RowsState, fail_protocol, skip_packets, read_eof_or_ok_packet, read_query_result,
  read_result_from_first_packet, drain_if,
}

-- What a context carries for the extra information: the values of WithPartitionID, WithTraceID and
-- WithSpanID.
pub record RequestInfo : Type 0 where
  pub partition_id : Option ℤ
  pub trace_id : Option Bytes
  pub span_id : Option Bytes

abbrev pub text_or_empty : Option Bytes → Bytes
text_or_empty none = []
text_or_empty (some s) = s

abbrev pub is_some : Option Bytes → Bool
is_some none = false
is_some (some s) = true

-- `binary.BigEndian.PutUint64`
abbrev pub with_partition : Option ℤ → PacketConn → PacketConn
with_partition none p = p
with_partition (some id) p = add_extra_info 2005 (reverse (le_bytes 8 (word 64 id))) p

unfoldable pub setup_extra_info : RequestInfo → Conn → Conn
unfolding build_flt_extra_info le_bytes
setup_extra_info info c =
    let p = with_partition info.partition_id (clear_extra_info c.packets) in
    record c {
      packets =
          if is_some info.trace_id || is_some info.span_id
          then add_extra_info 2003
              (build_flt_extra_info (text_or_empty info.trace_id) (text_or_empty info.span_id)) p
          else p;
    }

-- What PrepareContext answers; the connection is that of the methods, and `stmt_closed` is `closed`.
pub record Stmt : Type 0 where
  pub query : Bytes
  pub stmt_id : ℕ
  pub param_count : ℕ
  pub column_count : ℕ
  pub stmt_closed : Bool

abbrev pub server_ps_out_params : ℕ
server_ps_out_params = 0x1000

-- The number of values and the assignment of the ones of OUT parameters: argument and value in order, while there are
-- values. `assign i v` is the error of the assignment of v to the destination of the argument i.
unfoldable pub assign_out_params :
    (ℕ → Value → Option Error) → ℕ → List Argument → List Value → Outcome (Unit {0})
assign_out_params assign i [] dest = ok tt
assign_out_params assign i (in_param v ∷ args) dest = assign_out_params assign (suc i) args dest
assign_out_params assign i (out_param v ∷ args) [] = assign_out_params assign (suc i) args []
assign_out_params assign i (out_param v ∷ args) (w ∷ dest) =
    let rest = assign_out_params assign (suc i) args dest in
    elim (assign i w) [ none ↦ rest | some e ↦ err e ]

abbrev pub and_assign :
    (List Value → Outcome (Unit {0})) → Outcome (List Value) → Outcome (Unit {0})
and_assign f (ok dest) = f dest
and_assign f (err e) = err e
and_assign f panic = panic
and_assign f stuck = stuck

-- A deferred Close: its error is dropped.
abbrev pub deferred : Outcome (Unit {0}) → Outcome (Unit {0}) → Outcome (Unit {0})
deferred answer (ok _) = answer
deferred answer (err e) = answer
deferred answer panic = panic
deferred answer stuck = stuck

-- Rows on which nothing has been read, without a hold on the lock, which the caller has.
abbrev pub borrowed : RowsState → Conn → Reading
borrowed rows c = record {
  rows = rows;
  binary = true;
  values = [];
  index = 0;
  rows_closed = false;
  release = false;
  conn = c;
  locked = true;
}

-- The parameters: zlib; the configured session time zone; strconv.ParseFloat and
-- time.ParseInLocation; and assignOutParam, which goes through reflection and sql.Scanner.
module _ (z : Zlib) (time_zone : Option Bytes) (parse_float : Bytes → Option ℕ)
    (parse_in_location : String → Bytes → Option Time) (assign : ℕ → Value → Option Error) where
  unfoldable pub read_out_params : List Argument → Method Conn (Unit {0})
  unfolding read_query_result next_row close_rows assign_out_params
  read_out_params args = do
    rows ← read_query_result z
    λ c.
        let (r, s) =
          next_row z parse_float parse_in_location (replicate (length rows.col_defs) nil)
            (borrowed rows c) in
        let (closing, s') = close_rows z s in
        (deferred (and_assign (assign_out_params assign 0 args) r) closing, s'.conn)

  -- The packets of the parameters or of the columns of a statement.
  unfoldable pub skip_definitions : ℕ → Method Conn (Unit {0})
  unfolding skip_packets read_eof_or_ok_packet
  skip_definitions n c =
      if ltb 0 n
      then (skip_packets z n >> λ d.
            if d.deprecate_eof then (ok tt, d) else (read_eof_or_ok_packet z >>= λ _. return tt) d)
          c
      else (ok tt, c)

  -- `packet[1:5]`, `packet[5:7]` and `packet[7:9]` of an answer of at least twelve bytes.
  abbrev pub stmt_of : Bytes → Bytes → Stmt
  stmt_of query packet = record {
    query = query;
    stmt_id = le_value (slice 1 5 packet);
    column_count = le_value (slice 5 7 packet);
    param_count = le_value (slice 7 9 packet);
    stmt_closed = false;
  }

  abbrev pub read_prepared : Bytes → Bytes → Method Conn Stmt
  read_prepared query packet =
      if length packet == 0
      then fail_protocol unexpected_eof
      else if first_is 0xff packet
      then fail_protocol (parse_server_error packet)
      else if not (first_is 0x00 packet)
      then fail_protocol (message "oceanbase: unexpected prepare response 0x%02x")
      else if ltb (length packet) 12
      then fail_protocol unexpected_eof
      else let stmt = stmt_of query packet in
        skip_definitions stmt.param_count >> (skip_definitions stmt.column_count >> return stmt)

  unfoldable pub prepare_context : Context → Bytes → Method Conn Stmt
  unfolding with_deadline conn_write conn_read mark_protocol_error mark_bad_if_conn_err
      parse_server_error skip_definitions le_value
  prepare_context ctx query =
      if not (non_empty query)
      then fail (message "oceanbase: empty statement")
      else conn_errors (
          with_deadline ctx (
            new_request
            >> (conn_write z (0x16 ∷ query)
                >> (do packet ← protocol (conn_read z); read_prepared query packet))))

  unfoldable pub write_execute : ℕ → List Argument → Method Conn (Unit {0})
  unfolding execute_payload conn_write
  write_execute stmt_id args = new_request >> (do
    payload ← lift (execute_payload stmt_id (map unwrap_out_param args))
    conn_write z payload)

  abbrev pub setup : RequestInfo → Method Conn (Unit {0})
  setup info = modify (setup_extra_info info)

  unfoldable pub stmt_query_locked :
      Context → RequestInfo → ℕ → List Argument → Method Conn RowsState
  unfolding with_deadline setup_extra_info write_execute read_query_result
  stmt_query_locked ctx info stmt_id args =
      with_deadline ctx (setup info >> (write_execute stmt_id args >> read_query_result z))

  -- The answer to COM_STMT_EXECUTE.
  abbrev pub read_executed : List Argument → Bytes → Method Conn (ℤ × ℤ)
  read_executed args first =
      if length first == 0
      then fail_protocol unexpected_eof
      else if first_is 0x00 first
      then (do
        (res, status) ← protocol (handle_ok first)
        if has_flag status server_ps_out_params then read_out_params args else return tt
        drain_if z (has_flag status server_more_results_exists)
        return res)
      else if first_is 0xff first
      then fail_protocol (parse_server_error first)
      else read_result_from_first_packet z first

  unfoldable pub stmt_exec_locked : Context → RequestInfo → ℕ → List Argument → Method Conn (ℤ × ℤ)
  unfolding with_deadline setup_extra_info write_execute conn_read mark_protocol_error handle_ok
      parse_server_error read_result_from_first_packet read_out_params
  stmt_exec_locked ctx info stmt_id args = with_deadline ctx (
      setup info
      >> (write_execute stmt_id args
          >> (do first ← protocol (conn_read z); read_executed args first)))

  abbrev pub read_bulk_executed : Bytes → Method Conn (ℤ × ℤ)
  read_bulk_executed first =
      if length first == 0
      then fail_protocol unexpected_eof
      else if first_is 0xff first
      then fail_protocol (parse_server_error first)
      else if not (first_is 0x00 first)
      then fail_protocol (message "oceanbase: unexpected bulk execute response 0x%02x")
      else (do (res, _) ← protocol (handle_ok first); return res)

  unfoldable pub stmt_bulk_exec_locked :
      Context → RequestInfo → ℕ → List (List Argument) → Method Conn (ℤ × ℤ)
  unfolding with_deadline setup_extra_info bulk_payload conn_write conn_read mark_protocol_error
      handle_ok parse_server_error
  stmt_bulk_exec_locked ctx info stmt_id [] = return (pos 0, pos 0)
  stmt_bulk_exec_locked ctx info stmt_id (row ∷ rows) = with_deadline ctx (
      setup info
      >> (new_request >> (do
        payload ← lift (bulk_payload stmt_id (map (map unwrap_out_param) (row ∷ rows)))
        conn_write z payload
        first ← protocol (conn_read z)
        read_bulk_executed first)))
