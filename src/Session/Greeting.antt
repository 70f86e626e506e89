-- ===== src/Session/Greeting.antt =====
-- conn_handshake.go: the server's first packet, and the mode of the tenant.
use obconnector_go.Common.{
  ℕ, suc, ◌+◌, ◌-◌, ◌*◌, ◌^◌, max, bit_or, ◌&&◌, ◌||◌, Option, none, some, [], ◌∷◌, ◌++◌, map,
  reverse, ltb, leb, ◌==◌, if◌then◌else◌, length, get_or, drop, slice, unexpected_eof, message,
  Outcome, ok, err, panic, ◌>>=◌, ◌>>◌, guard,
}
use obconnector_go.Common.Bytes.{Bytes, codes, le_value, beq_bytes}
use obconnector_go.Sql.TimeZone.{trim_space, lower, equal_fold}
use obconnector_go.Session.Packets.{has_flag}
use obconnector_go.Session.Config.{Config}

pub record Handshake : Type 0 where
  pub server_version : Bytes
  pub connection_id : ℕ
  pub capabilities : ℕ
  pub auth_plugin : Bytes
  pub auth_seed : Bytes
  pub status : ℕ

-- The bytes before the first zero, and their number with it.
unfoldable pub read_null_terminated : Bytes → Outcome (Bytes × ℕ)
read_null_terminated [] = err unexpected_eof
read_null_terminated (b ∷ bs) =
    let rest = read_null_terminated bs in
    if b == 0 then ok ([], 1) else rest >>= λ r. ok (b ∷ r.0, suc r.1)

-- `packet[a:b]`: an expression of a slice may reach behind the slice's length into its array, whose
-- further bytes are `beyond`; it panics behind the capacity.
abbrev pub sub : Bytes → Bytes → ℕ → ℕ → Outcome Bytes
sub packet beyond a b =
    if leb b (length packet + length beyond) then ok (slice a b (packet ++ beyond)) else panic

-- `packet[i]`
abbrev pub at_index : Bytes → ℕ → Outcome ℕ
at_index packet i = if ltb i (length packet) then ok (get_or packet i 0) else panic

unfoldable pub trim_zeros_left : Bytes → Bytes
trim_zeros_left [] = []
trim_zeros_left (b ∷ bs) = if b == 0 then trim_zeros_left bs else b ∷ bs

-- `bytes.TrimRight(bs, "\x00")`
unfoldable pub trim_zeros : Bytes → Bytes
unfolding trim_zeros_left
trim_zeros bs = reverse (trim_zeros_left (reverse bs))

abbrev pub client_plugin_auth : ℕ
client_plugin_auth = 2 ^ 19

-- The length of the second part of the challenge, from that of the whole.
abbrev pub seed2_length : ℕ → ℕ
seed2_length auth_plugin_data_len =
    if ltb 0 auth_plugin_data_len then max 12 (auth_plugin_data_len - 8) else 12

abbrev pub plugin_in : Bytes → Bytes
plugin_in bytes = elim (read_null_terminated bytes) [ ok (plugin, used) ↦ plugin | _ ↦ [] ]

-- What follows the low half of the capabilities, which ends at `p`.
unfoldable pub parse_extended : Bytes → Bytes → ℕ → Handshake → Outcome Handshake
unfolding le_value trim_zeros read_null_terminated
parse_extended packet beyond p hs = do
  status ← sub packet beyond (p + 1) (p + 3)
  high ← sub packet beyond (p + 3) (p + 5)
  let capabilities = bit_or hs.capabilities (le_value high * 2 ^ 16)
  auth_plugin_data_len ←
      if has_flag capabilities client_plugin_auth then at_index packet (p + 5) else ok 0
  let q = p + 16
  let seed2_len =
      if ltb (length packet) (q + seed2_length auth_plugin_data_len)
      then length packet - q
      else seed2_length auth_plugin_data_len
  let seed2 = trim_zeros (slice q (q + seed2_len) packet)
  let plugin =
      if has_flag capabilities client_plugin_auth && ltb (q + seed2_len) (length packet)
      then plugin_in (drop (q + seed2_len) packet)
      else []
  ok (record hs {
    status = le_value status;
    capabilities = capabilities;
    auth_seed = hs.auth_seed ++ seed2;
    auth_plugin = plugin;
  })

-- The fixed fields behind the version, which ends at `p`.
unfoldable pub parse_fixed : Bytes → Bytes → Bytes → ℕ → Outcome Handshake
unfolding le_value parse_extended
parse_fixed packet beyond version p = guard (leb (p + 13) (length packet)) unexpected_eof >> (do
  low ← sub packet beyond (p + 13) (p + 15)
  let hs : Handshake = record {
    server_version = version;
    connection_id = le_value (slice p (p + 4) packet);
    capabilities = le_value low;
    auth_plugin = [];
    auth_seed = slice (p + 4) (p + 12) packet;
    status = 0;
  }
  if leb (length packet) (p + 15) then ok hs else parse_extended packet beyond (p + 15) hs)

unfoldable pub parse_handshake : Bytes → Bytes → Outcome Handshake
unfolding read_null_terminated parse_fixed
parse_handshake packet beyond =
    guard (leb 34 (length packet)) unexpected_eof
    >> (guard (get_or packet 0 0 == 10) (message "unsupported protocol version %d") >> (do
      (version, used) ← read_null_terminated (drop 1 packet)
      parse_fixed packet beyond version (1 + used)))

abbrev pub server_oracle_mode : ℕ
server_oracle_mode = 0x0004

-- The configuration is none where it is nil.
unfoldable pub tenant_mode_from_handshake : ℕ → Option Config → Bytes
unfolding trim_space beq_bytes
tenant_mode_from_handshake status cfg =
    let by_status = if has_flag status server_oracle_mode then codes "oracle" else codes "mysql" in
    elim cfg [
      | none ↦ by_status
      | some c ↦
          let mode = map lower (trim_space c.oracle_mode) in
          if beq_bytes mode (codes "true") || beq_bytes mode (codes "oracle")
          then codes "oracle"
          else if beq_bytes mode (codes "false") || beq_bytes mode (codes "mysql")
          then codes "mysql"
          else if equal_fold c.preset (codes "oboracle")
          then codes "oracle"
          else by_status
    ]
