-- ===== src/Session/Results/Retires.antt =====
-- An error that is not the server's own retires the connection.
use obconnector_go.Common.{
  ℕ, zero, suc, ◌≡◌, refl, ◌⊎◌, inl, inr, Bool, true, false, not, leb, ◌==◌, if◌then◌else◌,
  Bool-cases, length, Error, unexpected_eof, message, Outcome, ok, err, panic, stuck,
}
use obconnector_go.Common.State.{Method, return, lift, check, after, ◌>>=◌, ◌>>◌}
use obconnector_go.Common.Bytes.{Bytes}
use obconnector_go.Common.Int.{ℤ}
use obconnector_go.Protocol.Packet.Conn.{Zlib}
use obconnector_go.Protocol.Lenenc.{read_length_encoded_int}
use obconnector_go.Session.Errors.{parse_server_error, is_server_error, is_bad_conn}
use obconnector_go.Session.Packets.{
  parse_column_definition, has_flag, server_more_results_exists, first_is, is_err_packet,
  is_result_set_terminator_packet, is_result_set_terminator_for_mode,
}
use obconnector_go.Session.Conn.{Conn, conn_read, mark_protocol_error, marked_by, protocol}
use obconnector_go.Session.Conn.Ok.{handle_ok}
use obconnector_go.Session.Results.{
  RowsState, no_rows, max_drain_rows, max_result_columns, fail_protocol, rounds, skip_packets,
  read_columns, expect, read_result_set_terminator_packet, terminator_mode, drain_rows,
  column_count_of, drain_result_set_after_column_count, drain_result_from_first_packet,
  drain_result_sets, drain_result_sets_from_first_packet, drain_remaining_results, drain_if,
  read_query_result, read_result_from_first_packet,
}

-- Where the answer is an error, it is the server's or the connection is marked bad.
abbrev pub Retires : {A : Type 0} → Outcome A × Conn → Type 0
Retires (err e, c) = (is_server_error e ≡ true) ⊎ (c.bad ≡ true)
Retires (ok a, c) = Unit
Retires (panic, c) = Unit
Retires (stuck, c) = Unit

module _ {A B : Type 0} where
  Retires-bind :
      (m : Outcome A × Conn) (f : A → Method Conn B)
      → Retires m
      → ((a : A) (c : Conn) → Retires (f a c))
      → Retires (after m.0 f m.1)
  Retires-bind (ok a, c) f h k = k a c
  Retires-bind (err e, c) f h k = h
  Retires-bind (panic, c) f h k = tt
  Retires-bind (stuck, c) f h k = tt

mark_protocol_error-Retires :
    (A : Type 0) (e : Error) (c : Conn) → Retires {A = A} (marked_by mark_protocol_error (err e, c))
unfolding mark_protocol_error
mark_protocol_error-Retires A e c = elim (Bool-cases (is_server_error e)) [
  | inl s ↦ rw s (inl s)
  | inr s ↦ elim (Bool-cases (is_bad_conn e)) [
    | inl b ↦ rw (s, b) (inr refl)
    | inr b ↦ rw (s, b) (inr refl)
  ]
]

module _ {A : Type 0} where
  marked-Retires : (r : Outcome A × Conn) → Retires (marked_by mark_protocol_error r)
  marked-Retires (ok a, c) = tt
  marked-Retires (err e, c) = mark_protocol_error-Retires A e c
  marked-Retires (panic, c) = tt
  marked-Retires (stuck, c) = tt

  protocol-Retires : (m : Method Conn A) (c : Conn) → Retires (protocol m c)
  protocol-Retires m c = marked-Retires (m c)

  if-Retires :
      (t : Bool) (r s : Outcome A × Conn) → Retires r → Retires s → Retires (if t then r else s)
  if-Retires true r s h k = h
  if-Retires false r s h k = k

  choice-Retires :
      (t : Bool) (m n : Method Conn A) (c : Conn)
      → Retires (m c)
      → Retires (n c)
      → Retires ((if t then m else n) c)
  choice-Retires true m n c h k = h
  choice-Retires false m n c h k = k

  -- The rule for a step whose errors are marked.
  protocol-then :
      {B : Type 0} (m : Method Conn A) (f : A → Method Conn B) (c : Conn)
      → ((a : A) (c : Conn) → Retires (f a c))
      → Retires ((protocol m >>= f) c)
  protocol-then m f c k = Retires-bind (protocol m c) f (protocol-Retires m c) k

fails : (A : Type 0) (e : Error) (c : Conn) → Retires (fail_protocol {A = A} e c)
fails A e c = mark_protocol_error-Retires A e c

module _ (z : Zlib) where
  skip_packets-Retires : (n : ℕ) (c : Conn) → Retires (skip_packets z n c)
  unfolding skip_packets
  skip_packets-Retires zero c = tt
  skip_packets-Retires (suc n) c = protocol-then (conn_read z) _ c λ _ c'. skip_packets-Retires n c'

  read_columns-Retires : (n : ℕ) (c : Conn) → Retires (read_columns z n c)
  unfolding read_columns
  read_columns-Retires zero c = tt
  read_columns-Retires (suc n) c = protocol-then (conn_read z) _ c λ packet c1.
      protocol-then (lift (parse_column_definition packet)) _ c1
        λ cd c2. Retires-bind (read_columns z n c2) _ (read_columns-Retires n c2) λ _ _. tt

  expect-Retires :
      (test : Bytes → Bool → Bool) (e : Error) (packet : Bytes) (c : Conn)
      → Retires (expect z test e packet c)
  expect-Retires test e packet c =
      if-Retires (is_err_packet packet) _ _ (fails Bytes (parse_server_error packet) c) (
        if-Retires (not (test packet c.session_track)) _ _
          (if-Retires (length packet == 0) _ _ (fails Bytes unexpected_eof c) (fails Bytes e c)) tt)

  terminator_mode-Retires : (c : Conn) → Retires (terminator_mode z c)
  unfolding terminator_mode read_result_set_terminator_packet
  terminator_mode-Retires c = if-Retires c.deprecate_eof _ _ tt (
      Retires-bind (read_result_set_terminator_packet z c) _
        (protocol-then (conn_read z) _ c λ packet c1.
          expect-Retires is_result_set_terminator_packet
            (message "expected result-set EOF/OK packet, got 0x%02x") packet c1)
        λ _ _. tt)

  drain_rows-Retires : (n : ℕ) (mode : Bool) (c : Conn) → Retires (drain_rows z n mode c)
  unfolding drain_rows
  drain_rows-Retires zero mode c = inr refl
  drain_rows-Retires (suc n) mode c = protocol-then (conn_read z) _ c λ packet c1.
      choice-Retires (is_err_packet packet) _ _ c1 (fails Bool (parse_server_error packet) c1) (
        choice-Retires (is_result_set_terminator_for_mode packet mode c1.session_track) _ _ c1 tt
          (drain_rows-Retires n mode c1))

  column_count_of-Retires : (first : Bytes) (c : Conn) → Retires (column_count_of z first c)
  unfolding column_count_of
  column_count_of-Retires first c = protocol-then (lift (read_length_encoded_int first)) _ c λ r c1.
      protocol-then
        (check (leb r.0 max_result_columns)
          (message "oceanbase: result set column count %d exceeds maximum %d"))
        _ c1 λ _ _. tt

  drain_result_set-Retires :
      (first : Bytes) (c : Conn) → Retires (drain_result_set_after_column_count z first c)
  unfolding drain_result_set_after_column_count
  drain_result_set-Retires first c =
      Retires-bind (column_count_of z first c) _ (column_count_of-Retires first c) λ count c1.
        Retires-bind (skip_packets z count c1) _ (skip_packets-Retires count c1) λ _ c2.
          Retires-bind (terminator_mode z c2) _ (terminator_mode-Retires c2)
            λ mode c3. drain_rows-Retires max_drain_rows mode c3

  drain_result_sets-Retires :
      (fuel : ℕ) (first : Bytes) (c : Conn) → Retires (drain_result_sets z fuel first c)
  unfolding drain_result_sets
  drain_result_sets-Retires zero first c = tt
  drain_result_sets-Retires (suc fuel) first c =
      protocol-then (drain_result_from_first_packet z first) _ c λ more c1.
        choice-Retires more _ _ c1
          (protocol-then (conn_read z) _ c1 λ next c2. drain_result_sets-Retires fuel next c2) tt

  -- Draining what is left of an answer, whatever the server sends: where the loop over the result
  -- sets ends with an error, either the error carries the server's own error, or the connection is
  -- marked bad, so that no later request reads the rest of this answer.
  pub drain_remaining_results-Retires : (c : Conn) → Retires (drain_remaining_results z c)
  unfolding drain_remaining_results drain_result_sets_from_first_packet
  drain_remaining_results-Retires c =
      protocol-then (conn_read z) _ c λ first c1. drain_result_sets-Retires (rounds c1) first c1

  drain_if-Retires : (more : Bool) (c : Conn) → Retires (drain_if z more c)
  drain_if-Retires more c = choice-Retires more _ _ c (drain_remaining_results-Retires c) tt

  drain_if-then :
      (A : Type 0) (more : Bool) (a : A) (c : Conn) → Retires ((drain_if z more >> return a) c)
  drain_if-then A more a c =
      Retires-bind (drain_if z more c) (λ _. return a) (drain_if-Retires more c) λ _ _. tt

  -- Reading the head of an answer to a query, whatever the server sends: where readQueryResult
  -- answers with an error, the error carries the server's own error or the connection is marked bad.
  pub read_query_result-Retires : (c : Conn) → Retires (read_query_result z c)
  unfolding read_query_result
  read_query_result-Retires c = protocol-then (conn_read z) _ c λ first c1.
      choice-Retires (length first == 0) _ _ c1 (fails RowsState unexpected_eof c1) (
        choice-Retires (first_is 0xff first) _ _ c1 (fails RowsState (parse_server_error first) c1)
          (choice-Retires (first_is 0x00 first) _ _ c1
            (protocol-then (handle_ok first) _ c1 λ r c2.
              drain_if-then RowsState (has_flag r.1 server_more_results_exists) (no_rows true) c2)
            (Retires-bind (column_count_of z first c1) _ (column_count_of-Retires first c1)
              λ count c2.
                Retires-bind (read_columns z count c2) _ (read_columns-Retires count c2)
                  λ defs c3. protocol-then (terminator_mode z) _ c3 λ _ _. tt)))

  -- The same of the answer to a statement that is executed, from its first packet on.
  pub read_result-Retires :
      (packet : Bytes) (c : Conn) → Retires (read_result_from_first_packet z packet c)
  unfolding read_result_from_first_packet drain_result_sets_from_first_packet
  read_result-Retires packet c =
      choice-Retires (length packet == 0) _ _ c (fails (ℤ × ℤ) unexpected_eof c) (
        choice-Retires (first_is 0x00 packet) _ _ c
          (protocol-then (handle_ok packet) _ c
            λ r c1. drain_if-then (ℤ × ℤ) (has_flag r.1 server_more_results_exists) (r.0) c1)
          (choice-Retires (first_is 0xff packet) _ _ c (fails (ℤ × ℤ) (parse_server_error packet) c)
            (Retires-bind (drain_result_sets_from_first_packet z packet c) _
              (drain_result_sets-Retires (rounds c) packet c) λ _ _. tt)))
