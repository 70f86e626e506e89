-- ===== src/Session/Results/Untouched.antt =====
-- Reading answers leaves the transaction flag of the connection alone.
use obconnector_go.Common.{
  ℕ, zero, suc, ◌∙◌, Bool, not, leb, ◌==◌, length, Error, unexpected_eof, message,
}
use obconnector_go.Common.State.{return, lift, check}
use obconnector_go.Common.Bytes.{Bytes}
use obconnector_go.Common.Int.{ℤ, pos}
use obconnector_go.Protocol.Lenenc.{read_length_encoded_int}
use obconnector_go.Protocol.Packet.Conn.{Zlib}
use obconnector_go.Session.Errors.{parse_server_error}
use obconnector_go.Session.Packets.{
  has_flag, server_more_results_exists, first_is, is_err_packet, is_result_set_terminator_packet,
  is_result_set_terminator_for_mode,
}
use obconnector_go.Session.Conn.{conn_read, protocol}
use obconnector_go.Session.Conn.Ok.{handle_ok}
use obconnector_go.Session.Conn.Untouched.{
  Untouched, bind-Untouched, mark-Untouched, protocol-Untouched, choice-Untouched, if-Untouched,
  check-Untouched, handle_ok-Untouched,
}
use obconnector_go.Session.Results.{
  max_drain_rows, max_result_columns, fail_protocol, rounds, skip_packets, expect,
  read_result_set_terminator_packet, terminator_mode, drain_rows, column_count_of,
  drain_result_set_after_column_count, drain_result_from_first_packet, drain_result_sets,
  drain_result_sets_from_first_packet, drain_remaining_results, drain_if,
  read_result_from_first_packet,
}

pub fails-Untouched : (A : Type 0) (e : Error) → Untouched (fail_protocol {A = A} e)
fails-Untouched A e b c h = mark-Untouched e c ∙ h

same-Untouched : (A : Type 0) (a : A) → Untouched {A = A} (return a)
same-Untouched A a b c h = h

module _ (z : Zlib) where
  pub read-Untouched : Untouched (protocol (conn_read z))
  unfolding conn_read
  read-Untouched = protocol-Untouched (conn_read z) λ b c h. h

  skip_packets-Untouched : (n : ℕ) → Untouched (skip_packets z n)
  unfolding skip_packets
  skip_packets-Untouched zero = λ b c h. h
  skip_packets-Untouched (suc n) =
      bind-Untouched (protocol (conn_read z)) _ read-Untouched λ _. skip_packets-Untouched n

  expect-Untouched :
      (test : Bytes → Bool → Bool) (e : Error) (packet : Bytes) → Untouched (expect z test e packet)
  expect-Untouched test e packet b c h =
      if-Untouched (is_err_packet packet) _ _ b
        (fails-Untouched Bytes (parse_server_error packet) b c h)
        (if-Untouched (not (test packet c.session_track)) _ _ b
          (if-Untouched (length packet == 0) _ _ b (fails-Untouched Bytes unexpected_eof b c h)
            (fails-Untouched Bytes e b c h))
          h)

  terminator_mode-Untouched : Untouched (terminator_mode z)
  unfolding terminator_mode read_result_set_terminator_packet
  terminator_mode-Untouched b c h = if-Untouched c.deprecate_eof _ _ b h (
      bind-Untouched (read_result_set_terminator_packet z) _
        (bind-Untouched (protocol (conn_read z)) _ read-Untouched λ packet.
          expect-Untouched is_result_set_terminator_packet
            (message "expected result-set EOF/OK packet, got 0x%02x") packet)
        (λ _ b c h. h) b c h)

  drain_rows-Untouched : (n : ℕ) (mode : Bool) → Untouched (drain_rows z n mode)
  unfolding drain_rows
  drain_rows-Untouched zero mode = λ b c h. h
  drain_rows-Untouched (suc n) mode =
      bind-Untouched (protocol (conn_read z)) _ read-Untouched λ packet b c h.
        choice-Untouched (is_err_packet packet) _ _
          (fails-Untouched Bool (parse_server_error packet))
          (choice-Untouched (is_result_set_terminator_for_mode packet mode c.session_track) _ _
            (λ b c h. h) (drain_rows-Untouched n mode))
          b c h

  column_count_of-Untouched : (first : Bytes) → Untouched (column_count_of z first)
  unfolding column_count_of
  column_count_of-Untouched first =
      bind-Untouched (protocol (lift (read_length_encoded_int first))) _
        (protocol-Untouched (lift (read_length_encoded_int first)) λ b c h. h)
        λ r.
          bind-Untouched
            (protocol (
              check (leb r.0 max_result_columns)
                (message "oceanbase: result set column count %d exceeds maximum %d")))
            _
            (protocol-Untouched
              (check (leb r.0 max_result_columns)
                (message "oceanbase: result set column count %d exceeds maximum %d"))
              (check-Untouched (leb r.0 max_result_columns)
                (message "oceanbase: result set column count %d exceeds maximum %d")))
            λ _ b c h. h

  drain_result_set-Untouched :
      (first : Bytes) → Untouched (drain_result_set_after_column_count z first)
  unfolding drain_result_set_after_column_count
  drain_result_set-Untouched first =
      bind-Untouched (column_count_of z first) _ (column_count_of-Untouched first) λ count.
        bind-Untouched (skip_packets z count) _ (skip_packets-Untouched count) λ _.
          bind-Untouched (terminator_mode z) _ terminator_mode-Untouched
            λ mode. drain_rows-Untouched max_drain_rows mode

  drain_result-Untouched : (first : Bytes) → Untouched (drain_result_from_first_packet z first)
  unfolding drain_result_from_first_packet
  drain_result-Untouched first =
      choice-Untouched (length first == 0) _ _ (fails-Untouched Bool unexpected_eof) (
        choice-Untouched (first_is 0x00 first) _ _
          (bind-Untouched (protocol (handle_ok first)) _
            (protocol-Untouched (handle_ok first) (handle_ok-Untouched first)) λ _ b c h. h)
          (choice-Untouched (first_is 0xff first) _ _
            (fails-Untouched Bool (parse_server_error first)) (drain_result_set-Untouched first)))

  drain_result_sets-Untouched :
      (fuel : ℕ) (first : Bytes) → Untouched (drain_result_sets z fuel first)
  unfolding drain_result_sets
  drain_result_sets-Untouched zero first = λ b c h. h
  drain_result_sets-Untouched (suc fuel) first =
      bind-Untouched (protocol (drain_result_from_first_packet z first)) _
        (protocol-Untouched (drain_result_from_first_packet z first) (drain_result-Untouched first))
        λ more.
          choice-Untouched more _ _
            (bind-Untouched (protocol (conn_read z)) _ read-Untouched
              λ next. drain_result_sets-Untouched fuel next)
            λ b c h. h

  drain_from-Untouched : (first : Bytes) → Untouched (drain_result_sets_from_first_packet z first)
  unfolding drain_result_sets_from_first_packet
  drain_from-Untouched first b c h = drain_result_sets-Untouched (rounds c) first b c h

  drain_if-Untouched : (more : Bool) → Untouched (drain_if z more)
  unfolding drain_remaining_results
  drain_if-Untouched more =
      choice-Untouched more _ _
        (bind-Untouched (protocol (conn_read z)) _ read-Untouched drain_from-Untouched) λ b c h. h

  pub read_result-Untouched : (packet : Bytes) → Untouched (read_result_from_first_packet z packet)
  unfolding read_result_from_first_packet
  read_result-Untouched packet =
      choice-Untouched (length packet == 0) _ _ (fails-Untouched (ℤ × ℤ) unexpected_eof) (
        choice-Untouched (first_is 0x00 packet) _ _
          (bind-Untouched (protocol (handle_ok packet)) _
            (protocol-Untouched (handle_ok packet) (handle_ok-Untouched packet))
            λ r.
              bind-Untouched (drain_if z (has_flag r.1 server_more_results_exists))
                (λ _. return (r.0)) (drain_if-Untouched (has_flag r.1 server_more_results_exists))
                λ _ b c h. h)
          (choice-Untouched (first_is 0xff packet) _ _
            (fails-Untouched (ℤ × ℤ) (parse_server_error packet))
            (bind-Untouched (drain_result_sets_from_first_packet z packet)
              (λ _. return (pos 0, pos 0)) (drain_from-Untouched packet) λ _ b c h. h)))
