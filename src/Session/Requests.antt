-- ===== src/Session/Requests.antt =====
-- conn.go: the requests that database/sql makes on a connection, with the lock that they take and that
-- the rows of a query keep.
pub mod Halting
pub mod Handing
use obconnector_go.Common.{
  ℕ, String, Bool, true, false, not, ◌&&◌, if◌then◌else◌, Option, List, [], ◌∷◌, Outcome, ok, err,
  panic, stuck, Error,
}
use obconnector_go.Common.State.{Method, lift, fail, modify, ◌>>=◌, ◌>>◌}
use obconnector_go.Common.Bytes.{Bytes}
use obconnector_go.Common.Int.{ℤ}
use obconnector_go.Protocol.Packet.Conn.{Zlib}
use obconnector_go.Protocol.Calendar.{Time, Moment}
use obconnector_go.Sql.Params.{NamedValue, Value, interpolate_params}
use obconnector_go.Session.Conn.{
  Conn, Context, check_usable_locked, mark_bad_if_conn_err, conn_errors,
}
use obconnector_go.Session.Results.{RowsState}
use obconnector_go.Session.Payloads.{Argument, named_from}
use obconnector_go.Session.Rows.{Reading}
use obconnector_go.Session.Lifecycle.{
  query_locked, exec_locked, update_session_time_zone_from_query,
}
use obconnector_go.Session.Statements.{RequestInfo, setup_extra_info}

-- A connection with its mutex.
pub record Shared : Type 0 where
  pub conn : Conn
  pub locked : Bool

-- Lock waits for as long as the mutex is held.
unfoldable pub lock : Method Shared (Unit {0})
lock s = if s.locked then (stuck, s) else (ok tt, record s { locked = true })

-- Unlocking a mutex that is not locked is a fatal error.
unfoldable pub unlock : Method Shared (Unit {0})
unlock s = if s.locked then (ok tt, record s { locked = false }) else (panic, s)

-- A step on the connection alone.
abbrev pub on_shared : {A : Type 0} → Method Conn A → Method Shared A
on_shared m s = let (r, c) = m s.conn in (r, record s { conn = c })

-- `if err != nil { ... }` behind a call.
abbrev pub if_failed :
    {A : Type 0} → (Error → Method Shared A) → Outcome A × Shared → Outcome A × Shared
if_failed handler (ok a, s) = (ok a, s)
if_failed handler (err e, s) = handler e s
if_failed handler (panic, s) = (panic, s)
if_failed handler (stuck, s) = (stuck, s)

abbrev pub on_error : {A : Type 0} → (Error → Method Shared A) → Method Shared A → Method Shared A
on_error handler m s = if_failed handler (m s)

-- `c.mu.Unlock(); return nil, err`, and the same with `c.markBadIfConnErr(err)`.
unfoldable pub unlock_error : {A : Type 0} → Error → Method Shared A
unfolding unlock
unlock_error e = unlock >> fail e

unfoldable pub unlock_conn_error : {A : Type 0} → Error → Method Shared A
unfolding unlock mark_bad_if_conn_err
unlock_conn_error e = unlock >> on_shared (conn_errors (fail e))

-- The rows as the caller gets them. `release` is whether r.release is set, to the mutex's Unlock.
abbrev pub reading_of : Bool → RowsState → Bool → Method Shared Reading
reading_of binary rows release s = (
  ok (record {
    rows = rows;
    binary = binary;
    values = [];
    index = 0;
    rows_closed = false;
    release = release;
    conn = s.conn;
    locked = s.locked;
  }),
  s,
)

-- The end of both QueryContext methods: rows that are still on the stream get the Unlock.
unfoldable pub give_rows : Bool → RowsState → Method Shared Reading
unfolding unlock
give_rows binary rows =
    if rows.streaming then reading_of binary rows true else (unlock >> reading_of binary rows false)

-- `defer c.mu.Unlock()`, which runs behind a panic, too.
abbrev pub deferred_unlock : {A : Type 0} → Outcome A × Shared → Outcome A × Shared
deferred_unlock (r, s) = (if s.locked then r else panic, record s { locked = false })

abbrev pub with_lock : {A : Type 0} → Method Conn A → Method Shared A
with_lock m = lock >> λ s. deferred_unlock (on_shared m s)

-- The parameters: zlib, the configured time zone, and the renderings of literals.
module _ (z : Zlib) (time_zone : Option Bytes) (format_float : ℕ → Bytes)
    (format_time : Moment → Bytes) where
  -- Interpolation takes place before the lock is taken.
  unfoldable pub query_context :
      Context → RequestInfo → Bytes → List NamedValue → Method Shared Reading
  unfolding interpolate_params check_usable_locked setup_extra_info query_locked lock unlock_error
      unlock_conn_error give_rows
  query_context ctx info query args = do
    text ← lift (interpolate_params format_float format_time query args)
    lock
    on_error unlock_error (on_shared check_usable_locked)
    on_shared (modify (setup_extra_info info))
    rows ← on_error unlock_conn_error (on_shared (query_locked z time_zone ctx text))
    give_rows false rows

  unfoldable pub exec_context :
      Context → RequestInfo → Bytes → List NamedValue → Method Shared (ℤ × ℤ)
  unfolding interpolate_params check_usable_locked setup_extra_info exec_locked mark_bad_if_conn_err
      lock
  exec_context ctx info query args = do
    text ← lift (interpolate_params format_float format_time query args)
    with_lock (
        check_usable_locked
        >> (modify (setup_extra_info info) >> conn_errors (exec_locked z time_zone ctx text)))
