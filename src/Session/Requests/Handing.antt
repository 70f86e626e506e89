-- ===== src/Session/Requests/Handing.antt =====
-- The lock goes to the rows that are still on the stream, and to nobody else.
use obconnector_go.Common.{
  ℕ, length, ◌==◌, Bool-cases, arith, ◌≡◌, refl, ◌⊎◌, inl, inr, Bool, true, false, ◌&&◌, ◌||◌,
  Yields, Option, none, some, Option-cases, List, [], Error, Outcome, ok, err, panic, stuck,
  if◌then◌else◌,
}
use obconnector_go.Common.State.{Method, after, return, ◌>>=◌, ◌>>◌}
use obconnector_go.Common.Bytes.{Bytes}
use obconnector_go.Protocol.Packet.Conn.{Zlib}
use obconnector_go.Protocol.Calendar.{Moment}
use obconnector_go.Sql.Params.{NamedValue, interpolate_params}
use obconnector_go.Session.Conn.{
  Conn, Context, conn_read, check_usable_locked, with_deadline, end_of_request, protocol,
}
use obconnector_go.Session.Conn.Ok.{handle_ok}
use obconnector_go.Session.Packets.{first_is, has_flag, server_more_results_exists}
use obconnector_go.Session.Results.{
  RowsState, drain_if, column_count_of, read_columns, terminator_mode, read_query_result,
}
use obconnector_go.Session.Rows.{Reading}
use obconnector_go.Session.Rows.Locking.{Open}
use obconnector_go.Session.Lifecycle.{
  write_query, query_locked, update_session_time_zone_from_query,
}
use obconnector_go.Session.Statements.{RequestInfo, setup_extra_info}
use obconnector_go.Session.Requests.Halting.{Halts, usable-Halts, query_locked-Halts}
use obconnector_go.Protocol.Packet.Read.Total.{ZlibAnswers}
use obconnector_go.Session.Requests.{
  Shared, lock, unlock, unlock_error, unlock_conn_error, if_failed, give_rows, query_context,
}
use obconnector_go.Sql.Params.Halting.{interpolate_params-Yields}

-- Where the method answers, P holds of the answer.
abbrev pub Gives : {A : Type 0} → (A → Type 0) → Outcome A × Conn → Type 0
Gives P (ok a, c) = P a
Gives P (err e, c) = Unit
Gives P (panic, c) = Unit
Gives P (stuck, c) = Unit

module _ {A B : Type 0} (P : B → Type 0) where
  Gives-bind :
      (m : Outcome A × Conn) (f : A → Method Conn B)
      → ((a : A) (c : Conn) → Gives P (f a c))
      → Gives P (after m.0 f m.1)
  Gives-bind (ok a, c) f k = k a c
  Gives-bind (err e, c) f k = tt
  Gives-bind (panic, c) f k = tt
  Gives-bind (stuck, c) f k = tt

  -- The answer of the first of two steps, which the second hands on.
  Gives-kept :
      (r : Outcome B × Conn) (f : Method Conn A)
      → Gives P r
      → Gives P (after r.0 (λ b. f >>= λ _. return b) r.1)
  Gives-kept (ok b, c) f h = Gives-bind (f c) (λ _. return b) λ _ _. h
  Gives-kept (err e, c) f h = tt
  Gives-kept (panic, c) f h = tt
  Gives-kept (stuck, c) f h = tt

module _ {A : Type 0} (P : A → Type 0) where
  Gives-choice :
      (t : Bool) (m k : Method Conn A) (c : Conn)
      → Gives P (m c)
      → Gives P (k c)
      → Gives P ((if t then m else k) c)
  Gives-choice true m k c h g = h
  Gives-choice false m k c h g = g

  ended-Gives : (e : Option Error) (r : Outcome A × Conn) → Gives P r → Gives P (end_of_request e r)
  ended-Gives none r h = h
  ended-Gives (some x) (ok a, c) h = h
  ended-Gives (some x) (err e, c) h = tt
  ended-Gives (some x) (panic, c) h = tt
  ended-Gives (some x) (stuck, c) h = tt

  with_deadline-Gives :
      (ctx : Context) (m : Method Conn A) (c : Conn)
      → Gives P (m c)
      → Gives P (with_deadline ctx m c)
  unfolding with_deadline
  with_deadline-Gives ctx m c h = elim (Option-cases ctx.deadline_error) [
    | inl d ↦ rw d (ended-Gives ctx.ended (m c) h)
    | inr (e, d) ↦ rw d tt
  ]

-- Rows that are on the stream are not done.
abbrev pub Fresh : RowsState → Type 0
Fresh rows = (rows.streaming && rows.done) ≡ false

module _ (z : Zlib) (time_zone : Option Bytes) where
  read_query_result-Fresh : (c : Conn) → Gives Fresh (read_query_result z c)
  unfolding read_query_result
  read_query_result-Fresh c = Gives-bind Fresh (protocol (conn_read z) c) _ λ first c1.
      Gives-choice Fresh (length first == 0) _ _ c1 tt (
        Gives-choice Fresh (first_is 0xff first) _ _ c1 tt (
          Gives-choice Fresh (first_is 0x00 first) _ _ c1
            (Gives-bind Fresh (protocol (handle_ok first) c1) _ λ r c2.
              Gives-bind Fresh (drain_if z (has_flag r.1 server_more_results_exists) c2) _
                λ _ _. refl)
            (Gives-bind Fresh (column_count_of z first c1) _ λ count c2.
              Gives-bind Fresh (read_columns z count c2) _
                λ defs c3. Gives-bind Fresh (protocol (terminator_mode z) c3) _ λ _ _. refl)))

  query_locked-Fresh :
      (ctx : Context) (query : Bytes) (c : Conn)
      → Gives Fresh (query_locked z time_zone ctx query c)
  unfolding query_locked
  query_locked-Fresh ctx query c =
      let update = update_session_time_zone_from_query query [] in
      let request =
        write_query z time_zone query >> (read_query_result z >>= λ rows. update >> return rows) in
      with_deadline-Gives Fresh ctx request c (
        Gives-bind Fresh (write_query z time_zone query c) _
          λ _ c1. Gives-kept Fresh (read_query_result z c1) update (read_query_result-Fresh c1))

-- Rows on the stream are open and have the lock; behind other rows and behind an error it is free.
abbrev pub HandsOver : Outcome Reading × Shared → Type 0
HandsOver (ok r, s) =
    (Open r × (s.locked ≡ true))
    ⊎ ((r.rows.streaming ≡ false) × (r.release ≡ false) × (r.locked ≡ false) × (s.locked ≡ false))
HandsOver (err e, s) = s.locked ≡ false
HandsOver (panic, s) = Unit
HandsOver (stuck, s) = ⊥

-- A step under the lock: it holds behind an answer, and is free behind an error.
abbrev pub Keeps : {A : Type 0} → (A → Type 0) → Outcome A × Shared → Type 0
Keeps P (ok a, s) = P a × (s.locked ≡ true)
Keeps P (err e, s) = s.locked ≡ false
Keeps P (panic, s) = Unit
Keeps P (stuck, s) = ⊥

module _ {A : Type 0} (P : A → Type 0) where
  unlock_error-Keeps : (e : Error) (s : Shared) → s.locked ≡ true → Keeps P (unlock_error e s)
  unfolding unlock_error unlock
  unlock_error-Keeps e s h = rw h refl

  unlock_conn_error-Keeps :
      (e : Error) (s : Shared) → s.locked ≡ true → Keeps P (unlock_conn_error e s)
  unfolding unlock_conn_error unlock
  unlock_conn_error-Keeps e s h = rw h refl

  -- A step on the connection, with a handler that unlocks.
  on_error-Keeps :
      (handler : Error → Method Shared A) (r : Outcome A × Conn) (locked : Bool)
      → locked ≡ true
      → ((e : Error) (s : Shared) → s.locked ≡ true → Keeps P (handler e s))
      → Halts r
      → Gives P r
      → Keeps P (if_failed handler (r.0, record { conn = r.1; locked = locked }))
  on_error-Keeps handler (ok a, c) locked h k halts gives = (gives, h)
  on_error-Keeps handler (err e, c) locked h k halts gives =
      k e (record { conn = c; locked = locked }) h
  on_error-Keeps handler (panic, c) locked h k halts gives = tt
  on_error-Keeps handler (stuck, c) locked h k halts gives = halts

  Keeps-HandsOver :
      (m : Outcome A × Shared) (f : A → Method Shared Reading)
      → Keeps P m
      → ((a : A) (s : Shared) → P a → s.locked ≡ true → HandsOver (f a s))
      → HandsOver (after m.0 f m.1)
  Keeps-HandsOver (ok a, s) f (h, l) k = k a s h l
  Keeps-HandsOver (err e, s) f h k = h
  Keeps-HandsOver (panic, s) f h k = tt
  Keeps-HandsOver (stuck, s) f h k = h

lift-HandsOver :
    (r : Outcome Bytes) (f : Bytes → Method Shared Reading) (s : Shared)
    → s.locked ≡ false
    → Yields (λ _. Unit) r
    → ((text : Bytes) → HandsOver (f text s))
    → HandsOver (after r f s)
lift-HandsOver (ok text) f s h y k = k text
lift-HandsOver (err e) f s h y k = h
lift-HandsOver panic f s h y k = tt
lift-HandsOver stuck f s h y k = y

give_rows-HandsOver :
    (binary : Bool) (rows : RowsState) (s : Shared)
    → Fresh rows
    → s.locked ≡ true
    → HandsOver (give_rows binary rows s)
unfolding give_rows unlock
give_rows-HandsOver binary rows s h l = elim (Bool-cases rows.streaming) [
  | inl e ↦
      rw e
        (inl (record { streams = refl; not_done = ground arith; holds = refl; is_locked = l }, l))
  | inr e ↦ rw (e, l) (inr (refl, refl, refl, refl))
]

check_usable_locked-Gives : (c : Conn) → Gives (λ _. Unit) (check_usable_locked c)
unfolding check_usable_locked
check_usable_locked-Gives c = elim (Bool-cases (c.closed || c.bad)) [
  | inl e ↦ rw e tt
  | inr e ↦ rw e tt
]

module _ (z : Zlib) (za : ZlibAnswers z) (time_zone : Option Bytes) where
  -- QueryContext hands over the lock with the rows. Called with the mutex free it comes to an end on
  -- every stream, as long as zlib answers. When it answers with rows that are still on the stream,
  -- these are open, hold the lock and have its Unlock as their release; behind other rows, and behind
  -- every error, be it of the arguments, of a connection that is not usable or of the query, the
  -- mutex is free again. A panic is an end, too.
  pub query_context-HandsOver :
      (format_float : ℕ → Bytes) (format_time : Moment → Bytes) (ctx : Context) (info : RequestInfo)
      (query : Bytes) (args : List NamedValue) (c : Conn)
      → HandsOver (
          query_context z time_zone format_float format_time ctx info query args
            (record { conn = c; locked = false }))
  unfolding query_context lock
  query_context-HandsOver format_float format_time ctx info query args c =
      let start : Shared = record { conn = c; locked = false } in
      lift-HandsOver (interpolate_params format_float format_time query args) _ start refl
        (interpolate_params-Yields format_float format_time query args)
        λ text.
          Keeps-HandsOver (λ _. Unit) _ _
            (on_error-Keeps (λ _. Unit) unlock_error (check_usable_locked c) true refl
              (unlock_error-Keeps λ _. Unit) (usable-Halts c) (check_usable_locked-Gives c))
            λ _ s _ l.
              let d = setup_extra_info info s.conn in
              Keeps-HandsOver Fresh _ _
                (on_error-Keeps Fresh unlock_conn_error (query_locked z time_zone ctx text d)
                  s.locked l (unlock_conn_error-Keeps Fresh)
                  (query_locked-Halts z za time_zone ctx text d)
                  (query_locked-Fresh z time_zone ctx text d))
                λ rows s1 fresh l1. give_rows-HandsOver false rows s1 fresh l1
