-- ===== src/Session/Errors.antt =====
-- errors.go: server errors and the errors that mean a broken connection; conn.go: the negotiation of
-- compression.
use obconnector_go.Common.{
  ℕ, bit_and, Bool, true, false, not, ◌&&◌, ◌||◌, [], map, ltb, leb, ◌==◌, if◌then◌else◌, length,
  get_or, drop, slice, Error, eof, unexpected_eof, bad_conn, net_error, seq_error, server_error,
  message, wrap, wrap_two,
}
use obconnector_go.Common.Bytes.{Bytes, codes, beq_bytes, le_value}
use obconnector_go.Sql.Params.{non_empty}
use obconnector_go.Sql.TimeZone.{lower}

-- The error of an error packet, or the error that the packet is malformed.
unfoldable pub parse_server_error : Bytes → Error
unfolding le_value
parse_server_error packet =
    if ltb (length packet) 3 || not (get_or packet 0 0 == 0xff)
    then message "malformed error packet"
    else let number = le_value (slice 1 3 packet) in
      if (ltb 3 (length packet) && get_or packet 3 0 == 35) && leb 9 (length packet)
      then server_error number (slice 4 9 packet) (drop 9 packet)
      else server_error number [] (drop 3 packet)

-- `errors.As(err, &serverErr)`
unfoldable pub is_server_error : Error → Bool
is_server_error (server_error number sql_state text) = true
is_server_error (wrap format e) = is_server_error e
is_server_error (wrap_two format e f) = is_server_error e || is_server_error f
is_server_error _ = false

-- `errors.Is(err, driver.ErrBadConn)`
unfoldable pub is_bad_conn : Error → Bool
is_bad_conn bad_conn = true
is_bad_conn (wrap format e) = is_bad_conn e
is_bad_conn (wrap_two format e f) = is_bad_conn e || is_bad_conn f
is_bad_conn _ = false

-- A SeqError is a net.Error, as the errors of the network are.
unfoldable pub is_bad_conn_error : Error → Bool
is_bad_conn_error bad_conn = true
is_bad_conn_error eof = true
is_bad_conn_error unexpected_eof = true
is_bad_conn_error net_error = true
is_bad_conn_error (seq_error got want) = true
is_bad_conn_error (wrap format e) = is_bad_conn_error e
is_bad_conn_error (wrap_two format e f) = is_bad_conn_error e || is_bad_conn_error f
is_bad_conn_error _ = false

-- isEnvClosed, and the same test in NegotiateCompression.
unfoldable pub is_env_closed : Bytes → Bool
unfolding beq_bytes
is_env_closed env =
    let e = map lower env in
    non_empty env
    && (beq_bytes e (codes "0")
        || (beq_bytes e (codes "false") || (beq_bytes e (codes "off") || beq_bytes e (codes "no"))))

abbrev pub client_compress : ℕ
client_compress = 0x20

unfoldable pub negotiate_compression : Bool → ℕ → Bytes → Bool
unfolding is_env_closed
negotiate_compression option_use_compression server_capability_flags env_override =
    let client_wants = option_use_compression && not (is_env_closed env_override) in
    let server_supports = not (bit_and server_capability_flags client_compress == 0) in
    client_wants && server_supports

abbrev pub negotiation_result_label : Bool → Bool → Bool → Bytes
negotiation_result_label negotiated client server =
    if negotiated
    then codes "ENABLED"
    else if client && not server
    then codes "downgraded to uncompressed"
    else if not client && server
    then codes "uncompressed (client opted out)"
    else codes "uncompressed"
