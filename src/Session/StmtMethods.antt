-- ===== src/Session/StmtMethods.antt =====
-- stmt.go: the methods of a prepared statement.
use obconnector_go.Common.{
  ℕ, String, true, Option, List, [], ◌∷◌, if◌then◌else◌, Error, message, ok,
}
use obconnector_go.Common.State.{Method, return, fail, ◌>>=◌, ◌>>◌}
use obconnector_go.Common.Bytes.{Bytes}
use obconnector_go.Common.Int.{ℤ}
use obconnector_go.Protocol.Packet.Conn.{Zlib}
use obconnector_go.Protocol.Calendar.{Time}
use obconnector_go.Sql.Params.{Value, NamedValue}
use obconnector_go.Session.Payloads.{Argument, named_from}
use obconnector_go.Session.Rows.{Reading}
use obconnector_go.Session.Conn.{
  Conn, Context, check_usable_locked, mark_bad_if_conn_err, conn_errors,
}
use obconnector_go.Session.Lifecycle.{update_session_time_zone_from_query, close_stmt, reset_stmt}
use obconnector_go.Session.Statements.{
  RequestInfo, Stmt, stmt_query_locked, stmt_exec_locked, stmt_bulk_exec_locked,
}
use obconnector_go.Session.Requests.{
  Shared, lock, unlock_error, unlock_conn_error, on_shared, on_error, give_rows,
}

-- The parameters: zlib; the configured session time zone; strconv.ParseFloat and
-- time.ParseInLocation; and assignOutParam, which goes through reflection and sql.Scanner.
module _ (z : Zlib) (time_zone : Option Bytes) (parse_float : Bytes → Option ℕ)
    (parse_in_location : String → Bytes → Option Time) (assign : ℕ → Value → Option Error) where
  -- stmt.go: Stmt.ExecContext and BulkExecContext hold the lock from the check to the end.
  abbrev pub if_open : {A : Type 0} → Stmt → Method Conn A → Method Conn A
  if_open s m = if s.stmt_closed then fail (message "oceanbase: statement is closed") else m

  -- The statement, and then what it makes of the session time zone.
  abbrev pub synchronized : {A : Type 0} → Bytes → List NamedValue → Method Conn A → Method Conn A
  synchronized query args m = check_usable_locked >> (do
    res ← conn_errors m
    conn_errors (update_session_time_zone_from_query query args)
    return res)

  unfoldable pub stmt_exec_context :
      Context → RequestInfo → Stmt → List Argument → Method Conn (ℤ × ℤ)
  unfolding check_usable_locked mark_bad_if_conn_err stmt_exec_locked
      update_session_time_zone_from_query
  stmt_exec_context ctx info s args = if_open s (
      synchronized s.query (named_from 0 args)
        (stmt_exec_locked z time_zone parse_float parse_in_location assign ctx info s.stmt_id args))

  -- Stmt.QueryContext, whose rows are binary.
  unfoldable pub stmt_query_context :
      Context → RequestInfo → Stmt → List Argument → Method Shared Reading
  unfolding check_usable_locked stmt_query_locked update_session_time_zone_from_query lock
      unlock_error unlock_conn_error give_rows
  stmt_query_context ctx info s args =
      if s.stmt_closed then fail (message "oceanbase: statement is closed") else (do
        lock
        on_error unlock_error (on_shared check_usable_locked)
        rows ← on_error unlock_conn_error (
            on_shared (
              stmt_query_locked z time_zone parse_float parse_in_location assign ctx info s.stmt_id
                args))
        on_error unlock_conn_error
            (on_shared (update_session_time_zone_from_query s.query (named_from 0 args)))
        give_rows true rows)

  abbrev pub only_row : List (List Argument) → List NamedValue
  only_row (row ∷ []) = named_from 0 row
  only_row rows = []

  unfoldable pub stmt_bulk_exec_context :
      Context → RequestInfo → Stmt → List (List Argument) → Method Conn (ℤ × ℤ)
  unfolding check_usable_locked mark_bad_if_conn_err stmt_bulk_exec_locked
      update_session_time_zone_from_query
  stmt_bulk_exec_context ctx info s rows = if_open s (
      synchronized s.query (only_row rows) (
        stmt_bulk_exec_locked z time_zone parse_float parse_in_location assign ctx info s.stmt_id
          rows))

  unfoldable pub stmt_reset : Stmt → Method Conn (Unit {0})
  unfolding reset_stmt
  stmt_reset s = if_open s (reset_stmt z time_zone s.stmt_id)

  -- Stmt.Close: the statement is closed afterwards, whatever the connection answers.
  unfoldable pub stmt_close : Method (Stmt × Conn) (Unit {0})
  unfolding close_stmt
  stmt_close (s, c) =
      if s.stmt_closed
      then (ok tt, (s, c))
      else let (r, c') = close_stmt z time_zone s.stmt_id c in
        (r, (record s { stmt_closed = true }, c'))
