-- ===== src/Session/Attributes.antt =====
-- preset.go, and the connection attributes of conn_handshake.go: what the client says of itself.
use obconnector_go.Common.{
  ℕ, ◌+◌, ◌-◌, ◌%◌, ◌^◌, bit_and, String, Bool, true, false, ◌&&◌, ◌||◌, List, [], ◌∷◌, ◌++◌, ltb,
  ◌==◌, if◌then◌else◌, length,
}
use obconnector_go.Common.Bytes.{Bytes, codes, beq_bytes}
use obconnector_go.Common.Int.{pos}
use obconnector_go.Protocol.Lenenc.{put_length_encoded_string}
use obconnector_go.Sql.Params.{format_int}
use obconnector_go.Session.Config.{Config}
use obconnector_go.Session.Greeting.{Handshake}

-- `a &^ b`
abbrev pub and_not : ℕ → ℕ → ℕ
and_not a b = a - bit_and a b

abbrev pub is_any_of : Bytes → List String → Bool
is_any_of s [] = false
is_any_of s (t ∷ ts) = beq_bytes s (codes t) || is_any_of s ts

unfoldable pub preset_capabilities : Bytes → ℕ
unfolding beq_bytes
preset_capabilities preset =
    if is_any_of preset ("oboracle" ∷ "obclient" ∷ "libobclient" ∷ "connector-c" ∷ [])
    then 2 ^ 16 + 2 ^ 18 + 2 ^ 7 + 2 ^ 10 + 2 ^ 23 + 2 ^ 27
    else 2 ^ 27

-- A map from texts to texts, sorted by its keys.
abbrev pub Attributes : Type 0
Attributes = List (Bytes × Bytes)

-- `a < b` of two texts.
unfoldable pub text_lt : Bytes → Bytes → Bool
text_lt [] [] = false
text_lt [] (b ∷ bs) = true
text_lt (a ∷ xs) [] = false
text_lt (a ∷ xs) (b ∷ bs) = ltb a b || (a == b && text_lt xs bs)

-- `m[k] = v`
unfoldable pub put : Bytes → Bytes → Attributes → Attributes
unfolding beq_bytes text_lt
put k v [] = (k, v) ∷ []
put k v ((k', v') ∷ m) =
    let rest = put k v m in
    if beq_bytes k k'
    then (k, v) ∷ m
    else if text_lt k k'
    then (k, v) ∷ (k', v') ∷ m
    else (k', v') ∷ rest

-- `for k, v := range other { m[k] = v }`: the keys of a map are different.
abbrev pub put_all : Attributes → Attributes → Attributes
put_all [] m = m
put_all ((k, v) ∷ other) m = put_all other (put k v m)

abbrev pub texts : List (String × String) → Attributes
texts [] = []
texts ((k, v) ∷ m) = (codes k, codes v) ∷ texts m

-- obConnectorCAttributes: the capability flags are the bits 8, 14, 15 and 18, and the bits 0 and 2.
unfoldable pub ob_connector_c_attributes : Attributes
unfolding format_int
ob_connector_c_attributes =
    let proxy_caps = format_int (pos (2 ^ 8 + 2 ^ 14 + 2 ^ 15 + 2 ^ 18)) in
    texts (
      ("_client_name", "OceanBase Connector/Go")
      ∷ ("_client_version", "0.4.2")
      ∷ ("__mysql_client_type", "__ob_go_client")
      ∷ ("__ob_client_name", "OceanBase Connector/Go")
      ∷ ("__ob_client_version", "0.4.2")
      ∷ [])
    ++ (codes "ob_capability_flag", proxy_caps)
      ∷ (codes "__proxy_capability_flag", proxy_caps)
      ∷ (codes "__ob_client_attribute_capability_flag", format_int (pos (2 ^ 0 + 2 ^ 2)))
      ∷ []

unfoldable pub preset_attributes : Bytes → Attributes
unfolding ob_connector_c_attributes beq_bytes put
preset_attributes preset =
    if is_any_of preset ("oboracle" ∷ "libobclient" ∷ "connector-c" ∷ [])
    then ob_connector_c_attributes
    else if is_any_of preset ("obclient" ∷ [])
    then put (codes "program_name") (codes "obclient") ob_connector_c_attributes
    else if is_any_of preset ("connector-j" ∷ [])
    then texts (
        ("_client_name", "OceanBase Connector/J")
        ∷ ("_client_version", "2.4.14")
        ∷ ("__ob_client_name", "OceanBase Connector/J")
        ∷ ("__ob_client_version", "2.4.14")
        ∷ ("__mysql_client_type", "__ob_jdbc_client")
        ∷ ("_runtime_vendor", "Go")
        ∷ ("program_name", "obconnector-go")
        ∷ [])
    else ob_connector_c_attributes

-- The flags of a map without the bit of the protocol 2.0; `parse_uint` is strconv.ParseUint with its
-- value where it fails.
abbrev pub without_ob20 : (Bytes → ℕ) → Bytes → Attributes → Attributes
without_ob20 parse_uint key [] = []
without_ob20 parse_uint key ((k, v) ∷ m) =
    (k, if beq_bytes k key then format_int (pos (and_not (parse_uint v) (2 ^ 8))) else v)
    ∷ without_ob20 parse_uint key m

-- runtime.GOOS and runtime.GOARCH; strconv.ParseUint; the environment's OB_USE_COMPRESSION; sha1 and sha256.
pub record Host : Type 0 where
  pub goos : Bytes
  pub goarch : Bytes
  pub parse_uint : Bytes → ℕ
  pub ob_use_compression : Bytes
  pub sha1 : Bytes → Bytes
  pub sha256 : Bytes → Bytes

unfoldable pub connection_attributes : Host → Config → Handshake → Attributes
unfolding put preset_attributes format_int
connection_attributes host cfg hs =
    let base =
      put_all
        (texts (
            ("_client_name", "OceanBase Connector/Go")
            ∷ ("_client_version", "2.2.10")
            ∷ ("program_name", "obclient")
            ∷ [])
          ++ (codes "_os", host.goos)
            ∷ (codes "_platform", host.goarch)
            ∷ (codes "ob_server_version", hs.server_version)
            ∷ [])
        [] in
    let attrs = put_all cfg.attributes (put_all (preset_attributes cfg.preset) base) in
    if cfg.protocol_v2
    then attrs
    else without_ob20 host.parse_uint (codes "__proxy_capability_flag")
        (without_ob20 host.parse_uint (codes "ob_capability_flag") attrs)

unfoldable pub attribute_payload : Attributes → Bytes
unfolding put_length_encoded_string
attribute_payload [] = []
attribute_payload ((k, v) ∷ m) =
    put_length_encoded_string ((length k % 256) ∷ k) v ++ attribute_payload m
