-- ===== src/Session/Results/Ends.antt =====
-- The loops over packets come to an end: every packet takes something of the stream.
use obconnector_go.Common.{
  ℕ, zero, suc, ◌≤◌, ◌<◌, refl, Bool, true, false, not, arith, leb, ◌==◌, if◌then◌else◌, length,
  Error, message, Outcome, ok, err, panic, stuck, Yields,
}
use obconnector_go.Common.State.{Method, return, lift, check, after, ◌>>=◌, ◌>>◌, Ensures}
use obconnector_go.Common.Bytes.{Bytes}
use obconnector_go.Protocol.Lenenc.{read_length_encoded_int}
use obconnector_go.Protocol.Packet.Conn.{PacketConn, Zlib}
use obconnector_go.Protocol.Packet.Read.{read_packet}
use obconnector_go.Protocol.Packet.Read.Total.{ZlibAnswers, left, Consumes, read_packet-Consumes}
use obconnector_go.Session.Packets.{
  parse_column_definition, has_flag, server_more_results_exists, first_is, is_err_packet,
  is_result_set_terminator_packet, is_result_set_terminator_for_mode,
}
use obconnector_go.Session.Packets.Yields.{int-Yields, column-Yields}
use obconnector_go.Session.Conn.{Conn, conn_read, mark_protocol_error, marked_by, protocol}
use obconnector_go.Session.Conn.Ok.{handle_ok}
use obconnector_go.Session.Conn.Runs.{Keeps, handle_ok-Keeps}
use obconnector_go.Session.Results.{
  no_rows, max_drain_rows, max_result_columns, rounds, skip_packets, read_columns, expect,
  read_result_set_terminator_packet, terminator_mode, drain_rows, column_count_of,
  drain_result_set_after_column_count, drain_result_from_first_packet, drain_result_sets,
  drain_result_sets_from_first_packet, drain_remaining_results, drain_if, read_query_result,
  read_result_from_first_packet,
}

-- Fuel does not run out, and behind a value at most n is left to read.
abbrev pub Ends : {A : Type 0} → ℕ → Outcome A × Conn → Type 0
Ends n (ok a, c) = left c.packets ≤ n
Ends n (err e, c) = Unit
Ends n (panic, c) = Unit
Ends n (stuck, c) = ⊥

module _ {A B : Type 0} where
  pub Ends-bind :
      (n k : ℕ) (m : Outcome A × Conn) (f : A → Method Conn B)
      → Ends n m
      → ((a : A) (c : Conn) → left c.packets ≤ n → Ends k (f a c))
      → Ends k (after m.0 f m.1)
  Ends-bind n k (ok a, c) f h g = g a c h
  Ends-bind n k (err e, c) f h g = tt
  Ends-bind n k (panic, c) f h g = tt
  Ends-bind n k (stuck, c) f h g = h

module _ {A : Type 0} where
  marked-Ends : (n : ℕ) (r : Outcome A × Conn) → Ends n r → Ends n (marked_by mark_protocol_error r)
  marked-Ends n (ok a, c) h = h
  marked-Ends n (err e, c) h = tt
  marked-Ends n (panic, c) h = tt
  marked-Ends n (stuck, c) h = h

  pub choice-Ends :
      (n : ℕ) (t : Bool) (m k : Method Conn A) (c : Conn)
      → Ends n (m c)
      → Ends n (k c)
      → Ends n ((if t then m else k) c)
  choice-Ends n true m k c h g = h
  choice-Ends n false m k c h g = g

  if-Ends :
      (n : ℕ) (t : Bool) (r s : Outcome A × Conn)
      → Ends n r
      → Ends n s
      → Ends n (if t then r else s)
  if-Ends n true r s h k = h
  if-Ends n false r s h k = k

  lift-Ends :
      (n : ℕ) (P : A → Type 0) (r : Outcome A) (c : Conn)
      → Yields P r
      → left c.packets ≤ n
      → Ends n (lift r c)
  lift-Ends n P (ok a) c y h = h
  lift-Ends n P (err e) c y h = tt
  lift-Ends n P panic c y h = tt
  lift-Ends n P stuck c y h = y

  Ends-of_Keeps :
      (n : ℕ) (p : PacketConn) (r : Outcome A × Conn) → Keeps p r → left p ≤ n → Ends n r
  Ends-of_Keeps n p (ok a, c) h l = rw h l
  Ends-of_Keeps n p (err e, c) h l = tt
  Ends-of_Keeps n p (panic, c) h l = tt
  Ends-of_Keeps n p (stuck, c) h l = h

module _ (z : Zlib) (za : ZlibAnswers z) where
  -- A packet takes something, or the read fails.
  pub conn_read-Ends :
      (n : ℕ) (c : Conn) → left c.packets ≤ suc n → Ends n (protocol (conn_read z) c)
  unfolding conn_read
  conn_read-Ends n c h =
      marked-Ends n _ (taken (read_packet z c.packets) (read_packet-Consumes z c.packets za))
    where
      taken :
          (r : Outcome Bytes × PacketConn)
          → Ensures (Consumes c.packets) r
          → Ends {A = Bytes} n (r.0, record c { packets = r.1 })
      taken (ok p, d) k = omega arith
      taken (err e, d) k = tt
      taken (panic, d) k = tt
      taken (stuck, d) k = k

  skip_packets-Ends : (n k : ℕ) (c : Conn) → left c.packets ≤ n → Ends n (skip_packets z k c)
  unfolding skip_packets
  skip_packets-Ends n zero c h = h
  skip_packets-Ends n (suc k) c h =
      Ends-bind n n (protocol (conn_read z) c) _ (conn_read-Ends n c (omega arith))
        λ _ c1 h1. skip_packets-Ends n k c1 h1

  expect-Ends :
      (n : ℕ) (test : Bytes → Bool → Bool) (e : Error) (packet : Bytes) (c : Conn)
      → left c.packets ≤ n
      → Ends n (expect z test e packet c)
  expect-Ends n test e packet c h = if-Ends n (is_err_packet packet) _ _ tt (
      if-Ends n (not (test packet c.session_track)) _ _ (if-Ends n (length packet == 0) _ _ tt tt)
        h)

  terminator_mode-Ends : (n : ℕ) (c : Conn) → left c.packets ≤ n → Ends n (terminator_mode z c)
  unfolding terminator_mode read_result_set_terminator_packet
  terminator_mode-Ends n c h = if-Ends n c.deprecate_eof _ _ h (
      Ends-bind n n (read_result_set_terminator_packet z c) _
        (Ends-bind n n (protocol (conn_read z) c) _ (conn_read-Ends n c (omega arith))
          λ packet c1 h1.
            expect-Ends n is_result_set_terminator_packet
              (message "expected result-set EOF/OK packet, got 0x%02x") packet c1 h1)
        λ _ _ h2. h2)

  drain_rows-Ends :
      (n k : ℕ) (mode : Bool) (c : Conn) → left c.packets ≤ n → Ends n (drain_rows z k mode c)
  unfolding drain_rows
  drain_rows-Ends n zero mode c h = tt
  drain_rows-Ends n (suc k) mode c h =
      Ends-bind n n (protocol (conn_read z) c) _ (conn_read-Ends n c (omega arith)) λ packet c1 h1.
        choice-Ends n (is_err_packet packet) _ _ c1 tt (
          choice-Ends n (is_result_set_terminator_for_mode packet mode c1.session_track) _ _ c1 h1
            (drain_rows-Ends n k mode c1 h1))

  column_count_of-Ends :
      (n : ℕ) (first : Bytes) (c : Conn) → left c.packets ≤ n → Ends n (column_count_of z first c)
  unfolding column_count_of
  column_count_of-Ends n first c h =
      Ends-bind n n (protocol (lift (read_length_encoded_int first)) c) _
        (marked-Ends n _
          (lift-Ends n (λ _. Unit) (read_length_encoded_int first) c (int-Yields first) h))
        λ r c1 h1. bounded (leb r.0 max_result_columns) r.0 c1 h1
    where
      bounded :
          (t : Bool) (count : ℕ) (c1 : Conn)
          → left c1.packets ≤ n
          → Ends n (
              (protocol
                    (check t (message "oceanbase: result set column count %d exceeds maximum %d"))
                  >> return count)
                c1)
      bounded true count c1 h1 = h1
      bounded false count c1 h1 = tt

  drain_result_set-Ends :
      (n : ℕ) (first : Bytes) (c : Conn)
      → left c.packets ≤ n
      → Ends n (drain_result_set_after_column_count z first c)
  unfolding drain_result_set_after_column_count
  drain_result_set-Ends n first c h =
      Ends-bind n n (column_count_of z first c) _ (column_count_of-Ends n first c h) λ count c1 h1.
        Ends-bind n n (skip_packets z count c1) _ (skip_packets-Ends n count c1 h1) λ _ c2 h2.
          Ends-bind n n (terminator_mode z c2) _ (terminator_mode-Ends n c2 h2)
            λ mode c3 h3. drain_rows-Ends n max_drain_rows mode c3 h3

  handle_ok-Ends :
      (n : ℕ) (packet : Bytes) (c : Conn)
      → left c.packets ≤ n
      → Ends n (protocol (handle_ok packet) c)
  handle_ok-Ends n packet c h =
      marked-Ends n _
        (Ends-of_Keeps n c.packets (handle_ok packet c) (handle_ok-Keeps c.packets packet c refl) h)

  drain_result-Ends :
      (n : ℕ) (first : Bytes) (c : Conn)
      → left c.packets ≤ n
      → Ends n (drain_result_from_first_packet z first c)
  unfolding drain_result_from_first_packet
  drain_result-Ends n first c h = choice-Ends n (length first == 0) _ _ c tt (
      choice-Ends n (first_is 0x00 first) _ _ c
        (Ends-bind n n (protocol (handle_ok first) c) _ (handle_ok-Ends n first c h) λ _ _ h1. h1)
        (choice-Ends n (first_is 0xff first) _ _ c tt (drain_result_set-Ends n first c h)))

  conn_read-then :
      {B : Type 0} (k : ℕ) (c : Conn) (f : Bytes → Method Conn B)
      → ((p : Bytes) (d : Conn) → left d.packets < left c.packets → Ends k (f p d))
      → Ends k ((protocol (conn_read z) >>= f) c)
  unfolding conn_read
  conn_read-then k c f g = read (read_packet z c.packets) (read_packet-Consumes z c.packets za)
    where
      read :
          (r : Outcome Bytes × PacketConn)
          → Ensures (Consumes c.packets) r
          → Ends k ((protocol (λ _. (r.0, record c { packets = r.1 })) >>= f) c)
      read (ok p, d) e = g p _ e.0
      read (err e, d) _ = tt
      read (panic, d) _ = tt
      read (stuck, d) e = e

  drain_result_sets-Ends :
      (fuel n : ℕ) (first : Bytes) (c : Conn)
      → left c.packets < fuel
      → left c.packets ≤ n
      → Ends n (drain_result_sets z fuel first c)
  unfolding drain_result_sets
  drain_result_sets-Ends zero n first c l h = absurd (omega arith)
  drain_result_sets-Ends (suc fuel) n first c l h =
      let m = left c.packets in
      Ends-bind m n (protocol (drain_result_from_first_packet z first) c) _
        (marked-Ends m _ (drain_result-Ends m first c (omega arith)))
        λ more c1 h1.
          choice-Ends n more _ _ c1
            (conn_read-then n c1 _
              λ next c2 h2. drain_result_sets-Ends fuel n next c2 (omega arith) (omega arith))
            (omega arith)

  drain_from-Ends :
      (n : ℕ) (first : Bytes) (c : Conn)
      → left c.packets ≤ n
      → Ends n (drain_result_sets_from_first_packet z first c)
  unfolding drain_result_sets_from_first_packet
  drain_from-Ends n first c h = drain_result_sets-Ends (rounds c) n first c (ground arith) h

  -- Draining what is left of an answer comes to an end on every stream, as long as zlib answers: the
  -- loop over the result sets never runs out of the rounds that the model gives it. It ends with
  -- nothing more left to read than before, with an error, or with a panic.
  pub drain_remaining_results-Ends :
      (c : Conn) → Ends (left c.packets) (drain_remaining_results z c)
  unfolding drain_remaining_results
  drain_remaining_results-Ends c =
      Ends-bind (left c.packets) (left c.packets) (protocol (conn_read z) c) _
        (conn_read-Ends (left c.packets) c (omega arith))
        λ first c1 h1. drain_from-Ends (left c.packets) first c1 h1

  pub drain_if-Ends :
      (n : ℕ) (more : Bool) (c : Conn) → left c.packets ≤ n → Ends n (drain_if z more c)
  drain_if-Ends n more c h =
      choice-Ends n more _ _ c
        (drained (drain_remaining_results z c) (drain_remaining_results-Ends c)) h
    where
      drained : (r : Outcome (Unit {0}) × Conn) → Ends (left c.packets) r → Ends n r
      drained (ok a, d) k = omega arith
      drained (err e, d) k = tt
      drained (panic, d) k = tt
      drained (stuck, d) k = k

  read_columns-Ends : (n k : ℕ) (c : Conn) → left c.packets ≤ n → Ends n (read_columns z k c)
  unfolding read_columns
  read_columns-Ends n zero c h = h
  read_columns-Ends n (suc k) c h =
      Ends-bind n n (protocol (conn_read z) c) _ (conn_read-Ends n c (omega arith)) λ packet c1 h1.
        Ends-bind n n (protocol (lift (parse_column_definition packet)) c1) _
          (marked-Ends n _
            (lift-Ends n (λ _. Unit) (parse_column_definition packet) c1 (column-Yields packet) h1))
          λ cd c2 h2.
            Ends-bind n n (read_columns z k c2) _ (read_columns-Ends n k c2 h2) λ _ _ h3. h3

  finished-Ends :
      {A : Type 0} (n : ℕ) (more : Bool) (a : A) (c : Conn)
      → left c.packets ≤ n
      → Ends n ((drain_if z more >> return a) c)
  finished-Ends n more a c h =
      Ends-bind n n (drain_if z more c) (λ _. return a) (drain_if-Ends n more c h) λ _ _ h1. h1

  -- readQueryResult comes to an end on every stream, as long as zlib answers: neither the loop over
  -- the columns nor the loop over the result sets behind an OK packet runs out of rounds, and behind
  -- a result no more is left to read than before. An error or a panic is an end, too.
  pub read_query_result-Ends : (c : Conn) → Ends (left c.packets) (read_query_result z c)
  unfolding read_query_result
  read_query_result-Ends c =
      let n = left c.packets in
      Ends-bind n n (protocol (conn_read z) c) _ (conn_read-Ends n c (omega arith)) λ first c1 h1.
        choice-Ends n (length first == 0) _ _ c1 tt (
          choice-Ends n (first_is 0xff first) _ _ c1 tt (
            choice-Ends n (first_is 0x00 first) _ _ c1
              (Ends-bind n n (protocol (handle_ok first) c1) _ (handle_ok-Ends n first c1 h1)
                λ r c2 h2.
                  finished-Ends n (has_flag r.1 server_more_results_exists) (no_rows true) c2 h2)
              (Ends-bind n n (column_count_of z first c1) _ (column_count_of-Ends n first c1 h1)
                λ count c2 h2.
                  Ends-bind n n (read_columns z count c2) _ (read_columns-Ends n count c2 h2)
                    λ defs c3 h3.
                      Ends-bind n n (protocol (terminator_mode z) c3) _
                        (marked-Ends n _ (terminator_mode-Ends n c3 h3)) λ _ _ h4. h4)))

  -- readResultFromFirstPacket comes to an end for every first packet and on every stream, as long as
  -- zlib answers, and behind a result no more is left to read than before. An error or a panic is an
  -- end, too.
  pub read_result-Ends :
      (packet : Bytes) (c : Conn) → Ends (left c.packets) (read_result_from_first_packet z packet c)
  unfolding read_result_from_first_packet
  read_result-Ends packet c =
      let n = left c.packets in
      choice-Ends n (length packet == 0) _ _ c tt (
        choice-Ends n (first_is 0x00 packet) _ _ c
          (Ends-bind n n (protocol (handle_ok packet) c) _ (handle_ok-Ends n packet c (omega arith))
            λ r c1 h1. finished-Ends n (has_flag r.1 server_more_results_exists) (r.0) c1 h1)
          (choice-Ends n (first_is 0xff packet) _ _ c tt (
            Ends-bind n n (drain_result_sets_from_first_packet z packet c) _
              (drain_from-Ends n packet c (omega arith)) λ _ _ h1. h1)))
