-- ===== src/Session/Rows/Locking.antt =====
-- Rows keep the connection's lock until their end, and no longer.
use obconnector_go.Common.{
  ℕ, zero, suc, ◌≤◌, ◌<◌, String, ◌≡◌, refl, sym, ap₂, ◌∙◌, subst, Bool, true, false, not, ◌&&◌,
  Option, List, [], arith, if◌then◌else◌, Error, eof, Outcome, ok, err, panic, stuck, Answers,
  Yields,
}
use obconnector_go.Common.State.{Ensures}
use obconnector_go.Common.Bytes.{Bytes}
use obconnector_go.Protocol.Packet.Conn.{Zlib, PacketConn}
use obconnector_go.Protocol.Packet.Read.{read_packet}
use obconnector_go.Protocol.Packet.Read.Total.{left, Consumes, ZlibAnswers, read_packet-Consumes}
use obconnector_go.Protocol.Calendar.{Time}
use obconnector_go.Sql.Params.{Value}
use obconnector_go.Session.Errors.{parse_server_error}
use obconnector_go.Session.Packets.{is_err_packet, result_set_terminator_has_more_results}
use obconnector_go.Session.Conn.{Conn, retire, conn_read, mark_protocol_error, marked_by, protocol}
use obconnector_go.Session.Results.{RowsState, max_drain_rows, drain_remaining_results}
use obconnector_go.Session.Results.Ends.{
  Ends, Ends-bind, choice-Ends, conn_read-Ends, drain_if-Ends, drain_remaining_results-Ends,
}
use obconnector_go.Session.Rows.Parses.{parse_row-Parses}
use obconnector_go.Session.Rows.{
  Reading, finish_rows, on_conn, finishing, is_result_set_terminator, drain_loop, drain,
  then_finish, close_rows, parse_row, deliver, at_end, finish_then_mark, handle_packet, handle_read,
  next_streaming, next_row,
}

-- Rows that are read, with the lock, and rows at their end, without.
pub record Open (s : Reading) : Type 0 where
  pub streams : s.rows.streaming ≡ true
  pub not_done : s.rows.done ≡ false
  pub holds : s.release ≡ true
  pub is_locked : s.locked ≡ true

pub record Ended (s : Reading) : Type 0 where
  pub streamed : s.rows.streaming ≡ true
  pub is_done : s.rows.done ≡ true
  pub let_go : s.release ≡ false
  pub unlocked : s.locked ≡ false

-- After a row the rows are read on, with less than n left to read; an error is their end.
abbrev pub Goes : {A : Type 0} → ℕ → Outcome A × Reading → Type 0
Goes n (ok a, s) = Open s × (left s.conn.packets < n)
Goes n (err e, s) = Ended s
Goes n (panic, s) = Unit
Goes n (stuck, s) = ⊥

-- The same rows over another connection.
over : (s : Reading) (c : Conn) → Open s → Open (record s { conn = c })
over s c h = record {
  streams = h.streams;
  not_done = h.not_done;
  holds = h.holds;
  is_locked = h.is_locked;
}

module _ (A : Type 0) where
  finishing-Goes : (n : ℕ) (e : Error) (s : Reading) → Open s → Goes {A = A} n (finishing (err e) s)
  unfolding finish_rows
  finishing-Goes n e s h =
      rw (h.holds, h.is_locked)
        (record { streamed = h.streams; is_done = refl; let_go = refl; unlocked = refl })

  finish_then_mark-Goes :
      (n : ℕ) (e : Error) (s : Reading) → Open s → Goes {A = A} n (finish_then_mark e s)
  unfolding finish_rows
  finish_then_mark-Goes n e s h =
      rw (h.holds, h.is_locked)
        (record { streamed = h.streams; is_done = refl; let_go = refl; unlocked = refl })

  at_end-Goes :
      (n k : ℕ) (r : Outcome (Unit {0}) × Conn) (s : Reading)
      → Open s
      → Ends k r
      → Goes {A = A} n (at_end (r.0, record s { conn = r.1 }))
  at_end-Goes n k (ok a, c) s h e = finishing-Goes n eof (record s { conn = c }) (over s c h)
  at_end-Goes n k (err x, c) s h e = finishing-Goes n x (record s { conn = c }) (over s c h)
  at_end-Goes n k (panic, c) s h e = tt
  at_end-Goes n k (stuck, c) s h e = e

  choice-Goes :
      (n : ℕ) (t : Bool) (r q : Outcome A × Reading)
      → Goes n r
      → Goes n q
      → Goes n (if t then r else q)
  choice-Goes n true r q h k = h
  choice-Goes n false r q h k = k

deliver-Goes :
    (n : ℕ) (dest : List Value) (r : Outcome (List Value)) (s : Reading)
    → Open s
    → left s.conn.packets < n
    → Yields (λ _. Unit) r
    → Goes n (deliver dest r s)
deliver-Goes n dest (ok row) s h l y = (h, l)
deliver-Goes n dest (err e) s h l y =
    finishing-Goes (List Value) n e (record s { conn = retire s.conn }) (over s (retire s.conn) h)
deliver-Goes n dest panic s h l y = tt
deliver-Goes n dest stuck s h l y = y

if-true : {A : Type 0} (t : Bool) (x y : A) → t ≡ true → (if t then x else y) ≡ x
if-true t x y h = rw h refl

if-false : {A : Type 0} (t : Bool) (x y : A) → t ≡ false → (if t then x else y) ≡ y
if-false t x y h = rw h refl

-- The next round of the loop over the rows, when there was a row.
abbrev pub go_on :
    (Reading → Outcome Error × Reading) → Outcome (List Value) × Reading → Outcome Error × Reading
go_on more (ok row, s) = more s
go_on more (err e, s) = (ok e, s)
go_on more (panic, s) = (panic, s)
go_on more (stuck, s) = (stuck, s)

module _ (z : Zlib) (za : ZlibAnswers z) (parse_float : Bytes → Option ℕ)
    (parse_in_location : String → Bytes → Option Time) where
  handle_packet-Goes :
      (n : ℕ) (dest : List Value) (packet : Bytes) (s : Reading)
      → Open s
      → left s.conn.packets < n
      → Goes n (handle_packet z parse_float parse_in_location dest packet s)
  handle_packet-Goes n dest packet s h l =
      choice-Goes (List Value) n (is_result_set_terminator s.rows packet) _ _
        (more (result_set_terminator_has_more_results packet s.rows.rows_session_track))
        (choice-Goes (List Value) n (is_err_packet packet) _ _
          (finish_then_mark-Goes (List Value) n (parse_server_error packet) s h)
          (deliver-Goes n dest (parse_row z parse_float parse_in_location s packet) s h l
            (parse_row-Parses z parse_float parse_in_location s packet)))
    where
      more :
          (t : Bool)
          → Goes {A = List Value} n
              (at_end (if t then on_conn (drain_remaining_results z) s else (ok tt, s)))
      more true =
          at_end-Goes (List Value) n (left s.conn.packets) (drain_remaining_results z s.conn) s h
            (drain_remaining_results-Ends z za s.conn)
      more false = finishing-Goes (List Value) n eof s h

  handle_read-Goes :
      (dest : List Value) (s : Reading) (r : Outcome Bytes × PacketConn)
      → Open s
      → Ensures (Consumes s.conn.packets) r
      → Goes (left s.conn.packets) (
          handle_read z parse_float parse_in_location dest (
            let (q, c) = marked_by mark_protocol_error (r.0, record (s.conn) { packets = r.1 }) in
            (q, record s { conn = c })))
  handle_read-Goes dest s (ok packet, p) h (l, e) =
      handle_packet-Goes (left s.conn.packets) dest packet _
        (over s (record (s.conn) { packets = p }) h) l
  handle_read-Goes dest s (err e, p) h k =
      let (e', c) = mark_protocol_error e (record (s.conn) { packets = p }) in
      finishing-Goes (List Value) (left s.conn.packets) e' (record s { conn = c }) (over s c h)
  handle_read-Goes dest s (panic, p) h k = tt
  handle_read-Goes dest s (stuck, p) h k = k

  -- One call of Next on Rows that are open and hold the connection's lock, on every stream, as long as zlib
  -- answers: after a row the Rows are open, still hold the lock, and less is left to read; an error,
  -- io.EOF included, is their end, with the lock released. Neither runs out of rounds; a panic is not excluded.
  pub next_row-Goes :
      (dest : List Value) (s : Reading)
      → Open s
      → Goes (left s.conn.packets) (next_row z parse_float parse_in_location dest s)
  unfolding next_row next_streaming conn_read
  next_row-Goes dest s h =
      subst (Goes (left s.conn.packets))
        (sym (if-true s.rows.streaming _ _ h.streams ∙ if-false s.rows.done _ _ h.not_done))
        (handle_read-Goes dest s (read_packet z s.conn.packets) h
          (read_packet-Consumes z s.conn.packets za))

  -- Rows at their end answer io.EOF and read nothing.
  next_row-Ended :
      (dest : List Value) (s : Reading)
      → Ended s
      → next_row z parse_float parse_in_location dest s ≡ (err eof, s)
  unfolding next_row next_streaming
  next_row-Ended dest s h =
      if-true s.rows.streaming _ _ h.streamed ∙ if-true s.rows.done _ _ h.is_done

  -- `for rows.Next(dest) == nil {}`: the error that ends the loop.
  unfoldable pub read_all : ℕ → List Value → Reading → Outcome Error × Reading
  unfolding next_row
  read_all zero dest s = (stuck, s)
  read_all (suc n) dest s =
      go_on (read_all n dest) (next_row z parse_float parse_in_location dest s)

  -- What is to be shown of the loop.
  abbrev pub Finishes : Outcome Error × Reading → Type 0
  Finishes (ok e, s) = Ended s
  Finishes (err e, s) = ⊥
  Finishes (panic, s) = Unit
  Finishes (stuck, s) = ⊥

  go_on-Finishes :
      (n : ℕ) (more : Reading → Outcome Error × Reading) (r : Outcome (List Value) × Reading)
      → ((s : Reading) → Open s → left s.conn.packets < n → Finishes (more s))
      → Goes n r
      → Finishes (go_on more r)
  go_on-Finishes n more (ok row, s) k (h, l) = k s h l
  go_on-Finishes n more (err e, s) k h = h
  go_on-Finishes n more (panic, s) k h = tt
  go_on-Finishes n more (stuck, s) k h = h

  -- Reading all rows comes to an end and gives the lock back: on every stream, as long as zlib answers, the loop
  -- that calls Next until it fails ends within one call for each byte and each buffered packet that is
  -- left and one more, with an error, io.EOF included, after which the Rows are done and the lock is
  -- free. A panic ends it, too.
  pub read_all-Finishes :
      (n : ℕ) (dest : List Value) (s : Reading)
      → Open s
      → left s.conn.packets < n
      → Finishes (read_all n dest s)
  unfolding read_all
  read_all-Finishes zero dest s h l = absurd (omega arith)
  read_all-Finishes (suc n) dest s h l =
      go_on-Finishes (left s.conn.packets) (read_all n dest)
        (next_row z parse_float parse_in_location dest s)
        (λ s' h' l'. read_all-Finishes n dest s' h' (omega arith)) (next_row-Goes dest s h)

-- The state after Close: at the end and closed.
abbrev pub Closed : Outcome (Unit {0}) × Reading → Type 0
Closed (ok a, s) = Ended s × (s.rows_closed ≡ true)
Closed (err e, s) = Ended s × (s.rows_closed ≡ true)
Closed (panic, s) = Unit
Closed (stuck, s) = ⊥

finishing-Closed :
    (r : Outcome (Unit {0})) (s : Reading)
    → Answers r
    → Open s
    → s.rows_closed ≡ true
    → Closed (finishing r s)
unfolding finish_rows
finishing-Closed (ok a) s y h c =
    rw (h.holds, h.is_locked)
      (record { streamed = h.streams; is_done = refl; let_go = refl; unlocked = refl }, c)
finishing-Closed (err e) s y h c =
    rw (h.holds, h.is_locked)
      (record { streamed = h.streams; is_done = refl; let_go = refl; unlocked = refl }, c)
finishing-Closed panic s y h c = absurd y
finishing-Closed stuck s y h c = absurd y

then_finish-Closed :
    (k : ℕ) (r : Outcome (Unit {0}) × Conn) (s : Reading)
    → Open s
    → s.rows_closed ≡ true
    → Ends k r
    → Closed (then_finish (r.0, record s { conn = r.1 }))
then_finish-Closed k (ok a, c) s h e d =
    finishing-Closed (ok tt) (record s { conn = c }) tt (over s c h) e
then_finish-Closed k (err x, c) s h e d =
    finishing-Closed (err x) (record s { conn = c }) tt (over s c h) e
then_finish-Closed k (panic, c) s h e d = tt
then_finish-Closed k (stuck, c) s h e d = d

module _ (z : Zlib) (za : ZlibAnswers z) where
  drain_loop-Ends :
      (n : ℕ) (k : ℕ) (r : RowsState) (c : Conn) → left c.packets ≤ k → Ends k (drain_loop z n r c)
  unfolding drain_loop
  drain_loop-Ends zero k r c h = tt
  drain_loop-Ends (suc n) k r c h =
      Ends-bind k k (protocol (conn_read z) c) _ (conn_read-Ends z za k c (omega arith))
        λ packet c1 h1.
          choice-Ends k (is_result_set_terminator r packet) _ _ c1
            (drain_if-Ends z za k
              (result_set_terminator_has_more_results packet r.rows_session_track) c1 h1)
            (choice-Ends k (is_err_packet packet) _ _ c1 tt (drain_loop-Ends n k r c1 h1))

  -- Close always gives the lock back: on Rows that are open and hold the connection's lock, on every stream, as long as
  -- zlib answers, Close runs out of no rounds, and whether it answers or fails, the Rows are closed and
  -- done and the lock is free. A panic is not excluded.
  pub close_rows-Closed : (s : Reading) → Open s → s.rows_closed ≡ false → Closed (close_rows z s)
  unfolding close_rows drain
  close_rows-Closed s h c =
      let reads = ap₂ (λ a b. a && not b) h.streams h.not_done in
      subst Closed
        (sym
          (if-false s.rows_closed _ _ c ∙ if-true (s.rows.streaming && not s.rows.done) _ _ reads))
        (then_finish-Closed (left s.conn.packets) (drain_loop z max_drain_rows s.rows s.conn)
          (record s { rows_closed = true; values = [] })
          (record {
            streams = h.streams;
            not_done = h.not_done;
            holds = h.holds;
            is_locked = h.is_locked;
          })
          refl (drain_loop-Ends max_drain_rows (left s.conn.packets) s.rows s.conn (omega arith)))

  -- Close twice is Close once.
  close_rows-twice : (s : Reading) → s.rows_closed ≡ true → close_rows z s ≡ (ok tt, s)
  unfolding close_rows
  close_rows-twice s h = if-true s.rows_closed _ _ h
