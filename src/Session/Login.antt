-- ===== src/Session/Login.antt =====
-- conn_handshake.go: what the client answers to the server's first packet, and the rounds of the
-- authentication.
use obconnector_go.Common.{
  ℕ, zero, suc, ◌+◌, ◌^◌, bit_or, Bool, true, false, not, ◌&&◌, some, [], ◌∷◌, ◌++◌, map, ltb, ◌==◌,
  if◌then◌else◌, length, get_or, drop, replicate, unexpected_eof, message, Outcome, ok, err,
}
use obconnector_go.Common.State.{Method, return, fail, lift, modify, check, ◌>>=◌, ◌>>◌}
use obconnector_go.Common.Bytes.{Bytes, codes, le_bytes, beq_bytes}
use obconnector_go.Protocol.Lenenc.{put_length_encoded_int, put_length_encoded_string}
use obconnector_go.Protocol.Auth.{native_password_auth, caching_sha2_password_auth}
use obconnector_go.Protocol.Packet.Conn.{
  Zlib, PacketConn, reset_sequence, enable_ob20, enable_compression,
}
use obconnector_go.Sql.Params.{non_empty}
use obconnector_go.Sql.TimeZone.{upper}
use obconnector_go.Session.Errors.{parse_server_error, negotiate_compression}
use obconnector_go.Session.Packets.{first_is, is_err_packet, has_flag}
use obconnector_go.Session.Conn.{Conn, conn_read, conn_write}
use obconnector_go.Session.Conn.Ok.{handle_ok}
use obconnector_go.Session.Config.{Config, has_tls}
use obconnector_go.Session.Greeting.{
  Handshake, read_null_terminated, client_plugin_auth, parse_handshake, tenant_mode_from_handshake,
}
use obconnector_go.Session.Attributes.{
  and_not, preset_capabilities, Host, connection_attributes, attribute_payload,
}

-- The constants of the capabilities that the code tells apart.
abbrev pub client_connect_with_db : ℕ
client_connect_with_db = 2 ^ 3

abbrev pub client_protocol41 : ℕ
client_protocol41 = 2 ^ 9

abbrev pub client_ssl : ℕ
client_ssl = 2 ^ 11

abbrev pub client_connect_attrs : ℕ
client_connect_attrs = 2 ^ 20

abbrev pub client_session_track : ℕ
client_session_track = 2 ^ 23

abbrev pub client_deprecate_eof : ℕ
client_deprecate_eof = 2 ^ 24

abbrev pub client_compress_flag : ℕ
client_compress_flag = 2 ^ 5

-- The bits 0, 2, 9, 13, 15, 17, 19, 21, 20, 23, 24, 27 and 22 that each client sends.
abbrev pub common_capabilities : ℕ
common_capabilities =
    2 ^ 0
    + 2 ^ 2
    + 2 ^ 9
    + 2 ^ 13
    + 2 ^ 15
    + 2 ^ 17
    + 2 ^ 19
    + 2 ^ 21
    + 2 ^ 20
    + 2 ^ 23
    + 2 ^ 24
    + 2 ^ 27
    + 2 ^ 22

unfoldable pub build_auth_response : Host → Bytes → Bytes → Bytes → Outcome Bytes
unfolding native_password_auth caching_sha2_password_auth beq_bytes
build_auth_response host plugin password seed =
    if beq_bytes plugin (codes "mysql_native_password")
    then ok (native_password_auth host.sha1 host.sha256 password seed)
    else if beq_bytes plugin (codes "caching_sha2_password")
    then ok (caching_sha2_password_auth host.sha1 host.sha256 password seed)
    else err (message "oceanbase: auth plugin %q is not implemented")

abbrev pub drop_unless : Bool → ℕ → ℕ → ℕ
drop_unless keep flag caps = if keep then caps else and_not caps flag

abbrev pub add_if : Bool → ℕ → ℕ → ℕ
add_if add flag caps = if add then bit_or caps flag else caps

-- The capabilities of the answer.
unfoldable pub client_capabilities : Host → Config → Handshake → ℕ
unfolding preset_capabilities negotiate_compression
client_capabilities host cfg hs =
    let base =
      bit_or (add_if (has_tls cfg) client_ssl common_capabilities)
        (preset_capabilities cfg.preset) in
    let spoken = drop_unless (has_flag hs.capabilities client_protocol41) client_protocol41 base in
    let named = add_if (non_empty cfg.database) client_connect_with_db spoken in
    let chosen = and_not (bit_or named cfg.capability_add) cfg.capability_drop in
    let caps =
      drop_unless (has_flag hs.capabilities client_deprecate_eof) client_deprecate_eof chosen in
    add_if (negotiate_compression cfg.use_compression hs.capabilities host.ob_use_compression)
      client_compress_flag caps

-- The bits 14, 15 and 18, and 8 for the protocol 2.0.
abbrev pub proxy_capabilities : Config → ℕ
proxy_capabilities cfg = 2 ^ 14 + 2 ^ 15 + 2 ^ 18 + (if cfg.protocol_v2 then 2 ^ 8 else 0)

abbrev pub when : Bool → Bytes → Bytes
when test bytes = if test then bytes else []

unfoldable pub build_handshake_response : Host → Config → Bytes → Handshake → Bytes → Bytes
unfolding client_capabilities le_bytes put_length_encoded_string put_length_encoded_int
    connection_attributes attribute_payload beq_bytes
build_handshake_response host cfg tenant_mode hs auth_resp =
    let caps = client_capabilities host cfg hs in
    let db_name =
      if beq_bytes tenant_mode (codes "oracle") then map upper cfg.database else cfg.database in
    let attrs = attribute_payload (connection_attributes host cfg hs) in
    let head = le_bytes 4 caps ++ le_bytes 4 (2 ^ 24) ++ cfg.collation ∷ replicate 19 0 in
    put_length_encoded_string (head ++ le_bytes 4 (proxy_capabilities cfg) ++ cfg.user ++ 0 ∷ [])
      auth_resp
    ++ when (has_flag caps client_connect_with_db) (db_name ++ 0 ∷ [])
    ++ when (has_flag caps client_plugin_auth) (hs.auth_plugin ++ 0 ∷ [])
    ++ when (has_flag caps client_connect_attrs) (put_length_encoded_int [] (length attrs) ++ attrs)

-- The capabilities of sendSSLRequest.
unfoldable pub ssl_request : Config → ℕ → Bytes
unfolding le_bytes
ssl_request cfg server_capabilities =
    let caps =
      drop_unless
        (has_flag server_capabilities client_deprecate_eof
          && not (has_flag cfg.capability_drop client_deprecate_eof))
        client_deprecate_eof (common_capabilities + client_ssl) in
    le_bytes 4 caps ++ le_bytes 4 (2 ^ 24) ++ cfg.collation ∷ replicate 23 0

-- The parameters: zlib, and what the program runs on.
module _ (z : Zlib) (host : Host) (cfg : Config) where
  -- The name of the plugin and the challenge in the packet behind a switch of the authentication.
  unfoldable pub read_auth_switch_data : Method Conn (Bytes × Bytes)
  unfolding conn_read read_null_terminated
  read_auth_switch_data = do
    packet ← conn_read z
    (plugin, used) ← lift (read_null_terminated packet)
    return (plugin, drop used packet)

  abbrev pub switch_auth : Method Conn (Unit {0})
  switch_auth = do
    (plugin, seed) ← read_auth_switch_data
    auth_resp ← lift (build_auth_response host plugin cfg.password seed)
    conn_write z auth_resp

  -- `OB20MagicNum`, or the one of the configuration.
  abbrev pub magic_number : ℕ
  magic_number = if cfg.ob20_magic_override == 0 then 0x20ab else cfg.ob20_magic_override

  -- What an OK packet enables.
  unfoldable pub enable_protocols : Handshake → Conn → Conn
  unfolding enable_ob20 negotiate_compression
  enable_protocols hs c =
      let framed =
        if cfg.protocol_v2 && c.ob20_confirmed
        then enable_ob20 hs.connection_id magic_number true cfg.disable_ob20_checksum c.packets
        else c.packets in
      record c {
        packets =
            if negotiate_compression cfg.use_compression hs.capabilities host.ob_use_compression
            then enable_compression framed
            else framed;
      }

  -- Whether another round follows a packet, which is not empty.
  unfoldable pub auth_round : Handshake → Bytes → Method Conn Bool
  unfolding handle_ok enable_protocols parse_server_error read_auth_switch_data build_auth_response
      conn_write
  auth_round hs auth_result =
      if first_is 0x00 auth_result
      then (do _ ← handle_ok auth_result; modify (enable_protocols hs); return false)
      else if first_is 0xff auth_result
      then fail (parse_server_error auth_result)
      else if first_is 0x01 auth_result
      then (if ltb (length auth_result) 2
          then fail (message "oceanbase: unexpected auth response 0x01 (too short)")
          else if get_or auth_result 1 0 == 0x03
          then (switch_auth >> return true)
          else if get_or auth_result 1 0 == 0x04
          then (if (has_tls cfg)
              then (conn_write z cfg.password >> return true)
              else fail (message "oceanbase: caching_sha2_password full-auth requires TLS"))
          else fail (message "oceanbase: unexpected auth sub-response 0x01 0x%02x"))
      else if first_is 0xfe auth_result
      then (switch_auth >> return true)
      else fail (message "oceanbase: unexpected auth response 0x%02x")

  unfoldable pub auth_rounds : ℕ → Handshake → Method Conn (Unit {0})
  unfolding conn_read auth_round
  auth_rounds zero hs = fail (message "oceanbase: exceeded maximum authentication rounds (%d)")
  auth_rounds (suc n) hs = do
    auth_result ← conn_read z
    check (not (length auth_result == 0)) unexpected_eof
    more ← auth_round hs auth_result
    if more then auth_rounds n hs else return tt

  unfoldable pub handle_auth_result : Handshake → Method Conn (Unit {0})
  unfolding auth_rounds
  handle_auth_result = auth_rounds 10

  -- The answer to the greeting, and what the connection takes over from it.
  abbrev pub respond : Handshake → Bytes → Method Conn (Unit {0})
  respond hs auth_resp c =
      let response = build_handshake_response host cfg c.tenant_mode hs auth_resp in
      let client_caps = client_capabilities host cfg hs in
      (conn_write z response >> handle_auth_result hs) (record c {
        deprecate_eof = has_flag client_caps client_deprecate_eof;
        session_track =
            has_flag client_caps client_session_track
            && has_flag hs.capabilities client_session_track;
      })

  abbrev pub default_plugin : Handshake → Handshake
  default_plugin hs =
      if non_empty hs.auth_plugin
      then hs
      else record hs { auth_plugin = codes "mysql_native_password" }

  -- `tls` is the packet connection over the TLS connection, once its own handshake is done.
  abbrev pub start_tls : Outcome PacketConn → Handshake → Method Conn (Unit {0})
  start_tls tls hs =
      if not (has_tls cfg)
      then return tt
      else if not (has_flag hs.capabilities client_ssl)
      then fail (message "oceanbase: server does not support SSL")
      else modify (λ (c : Conn). record c { packets = reset_sequence c.packets })
        >> (conn_write z (ssl_request cfg hs.capabilities)
            >> (do packets ← lift tls; modify (λ (c : Conn). record c { packets = packets })))

  -- `beyond` is what stands behind the first packet in its array.
  unfoldable pub handshake : Outcome PacketConn → Bytes → Method Conn (Unit {0})
  unfolding conn_read parse_server_error parse_handshake tenant_mode_from_handshake ssl_request
      conn_write build_auth_response build_handshake_response client_capabilities handle_auth_result
  handshake tls beyond = do
    modify (λ (c : Conn). record c { packets = reset_sequence c.packets })
    packet ← conn_read z
    check (not (is_err_packet packet)) (parse_server_error packet)
    hs ← lift (parse_handshake packet beyond)
    modify
        (λ (c : Conn). record c { tenant_mode = tenant_mode_from_handshake hs.status (some cfg) })
    start_tls tls hs
    let hs' = default_plugin hs
    auth_resp ← lift (build_auth_response host hs'.auth_plugin cfg.password hs'.auth_seed)
    respond hs' auth_resp
