-- ===== src/Session/Dsn.antt =====
-- config.go: the settings of a query, and the helpers of the three forms of a DSN.
use obconnector_go.Common.{
  ℕ, String, Bool, true, false, not, Option, none, some, List, [], ◌∷◌, ◌++◌, ◌==◌, if◌then◌else◌,
  length, drop, Outcome, ok, err, panic, stuck, message, ◌>>=◌,
}
use obconnector_go.Common.Bytes.{Bytes, codes, beq_bytes}
use obconnector_go.Common.Int.{ℤ, pos}
use obconnector_go.Sql.Params.{non_empty}
use obconnector_go.Sql.TimeZone.{equal_fold, normalize_oracle_mode}
use obconnector_go.Sql.Assignment.{has_prefix}
use obconnector_go.Session.Attributes.{put}
use obconnector_go.Session.Config.{Config, Tls, Net, parse_timeout, has_byte}

-- url.Values in the order in which `range` gives the keys.
abbrev pub Values : Type 0
Values = List (Bytes × List Bytes)

-- What url.Parse answers: the user with the password, or "" where there is none.
pub record Url : Type 0 where
  pub scheme : Bytes
  pub host : Bytes
  pub escaped_path : Bytes
  pub user_info : Option (Bytes × Bytes)
  pub query_values : Values

-- net/url: QueryUnescape, PathUnescape, ParseQuery and Parse; strconv.ParseBool, and ParseUint of base 0 with a number of
-- bits; the pool of a file of certificates, and LoadX509KeyPair.
pub record Loader : Type 0 where
  pub query_unescape : Bytes → Option Bytes
  pub path_unescape : Bytes → Option Bytes
  pub parse_query : Bytes → Option Values
  pub parse_url : Bytes → Option Url
  pub parse_bool : Bytes → Option Bool
  pub parse_uint : ℕ → Bytes → Option ℕ
  pub load_pool : Bytes → Outcome Bytes
  pub load_key_pair : Bytes → Bytes → Option Bytes

-- `vals[len(vals)-1]`, where there is one.
abbrev pub last_of : List Bytes → Option Bytes
last_of [] = none
last_of (v ∷ []) = some v
last_of (v ∷ w ∷ vals) = last_of (w ∷ vals)

abbrev pub or_else : Option Bytes → Option Bytes → Option Bytes
or_else none o = o
or_else (some v) o = some v

-- `values[key]`
unfoldable pub values_of : Bytes → Values → List Bytes
unfolding beq_bytes
values_of key [] = []
values_of key ((k, vals) ∷ values) =
    let rest = values_of key values in if beq_bytes k key then vals else rest

-- The first key that differs from the name in case at most.
unfoldable pub folded : Bytes → Values → Option Bytes
unfolding beq_bytes
folded name [] = none
folded name ((k, vals) ∷ values) =
    let rest = folded name values in if equal_fold k name then or_else (last_of vals) rest else rest

abbrev pub or_empty : Option Bytes → Bytes
or_empty none = []
or_empty (some v) = v

abbrev pub value_under : Values → List String → Option Bytes
value_under values [] = none
value_under values (name ∷ names) =
    or_else (last_of (values_of (codes name) values))
      (or_else (folded (codes name) values) (value_under values names))

unfoldable pub get_query_value : Values → List String → Bytes
unfolding values_of folded
get_query_value values names = or_empty (value_under values names)

-- A setting: its names, and what a value that is not empty does.
abbrev pub Setting : Type 0
Setting = List String × (Bytes → Config → Outcome Config)

abbrev pub parsed : {A : Type 0} → String → Option A → (A → Config) → Outcome Config
parsed text none f = err (message text)
parsed text (some a) f = ok (f a)

abbrev pub timeout_of : Outcome ℤ → Config → Outcome Config
timeout_of (ok d) c = ok (record c { timeout = d })
timeout_of (err e) c = err (message "invalid timeout: %w")
timeout_of panic c = panic
timeout_of stuck c = stuck

abbrev pub tls_of : Config → Tls
tls_of c = elim (c.tls) [
  | some t ↦ t
  | none ↦ record { skip_verify = false; root_cas = none; certificates = [] }
]

unfoldable pub set_tls : Bytes → Config → Outcome Config
unfolding beq_bytes
set_tls v c =
    if beq_bytes v (codes "true")
    then ok (record c {
      tls = some (record { skip_verify = false; root_cas = none; certificates = [] });
    })
    else if beq_bytes v (codes "skip-verify")
    then ok (record c {
      tls = some (record { skip_verify = true; root_cas = none; certificates = [] });
    })
    else if beq_bytes v (codes "false")
    then ok (record c { tls = none })
    else err (message "unsupported tls value %q")

unfoldable pub set_ca : Loader → Bytes → Config → Outcome Config
set_ca l file c = do
  pool ← l.load_pool file
  ok (record c { tls = some (record (tls_of c) { root_cas = some pool }) })

unfoldable pub set_certificate : Loader → Values → Bytes → Config → Outcome Config
unfolding get_query_value
set_certificate l values cert c =
    let key = get_query_value values ("tls.key" ∷ "tls_key" ∷ []) in
    if not (non_empty key)
    then err (message "tls.cert requires tls.key")
    else parsed "invalid tls.cert/tls.key: %w" (l.load_key_pair cert key) (λ pair. record c {
      tls = some (record (tls_of c) { certificates = (tls_of c).certificates ++ pair ∷ [] });
    })

abbrev pub number_settings : Loader → List Setting
number_settings l =
    (
      "cap.add" ∷ [],
      λ v c.
          parsed "invalid cap.add: %w" (l.parse_uint 32 v) (λ n. record c { capability_add = n }),
    )
    ∷ (
      "cap.drop" ∷ [],
      λ v c.
          parsed "invalid cap.drop: %w" (l.parse_uint 32 v) (λ n. record c { capability_drop = n }),
    )
    ∷ (
      "collation" ∷ [],
      λ v c. parsed "invalid collation: %w" (l.parse_uint 8 v) (λ n. record c { collation = n }),
    )
    ∷ []

abbrev pub mode_settings : List Setting
mode_settings =
    ("preset" ∷ [], λ v c. ok (record c { preset = v }))
    ∷ (
      "oracleMode" ∷ "oracle_mode" ∷ [],
      λ v c. normalize_oracle_mode v >>= λ mode. ok (record c { oracle_mode = mode }),
    )
    ∷ ("sessionTimeZone" ∷ "session_timezone" ∷ [], λ v c. ok (record c { time_zone = v }))
    ∷ []

abbrev pub protocol_settings : Loader → List Setting
protocol_settings l =
    (
      "ob20" ∷ "protocol.v2" ∷ [],
      λ v c. parsed "invalid ob20: %w" (l.parse_bool v) (λ b. record c { protocol_v2 = b }),
    )
    ∷ (
      "ob20.magic" ∷ [],
      λ v c.
          parsed "invalid ob20.magic: %w" (l.parse_uint 16 v)
            (λ n. record c { ob20_magic_override = n }),
    )
    ∷ (
      "ob20.disableChecksum" ∷ [],
      λ v c.
          parsed "invalid ob20.disableChecksum: %w" (l.parse_bool v)
            (λ b. record c { disable_ob20_checksum = b }),
    )
    ∷ (
      "useCompression" ∷ "compress" ∷ "use_compression" ∷ [],
      λ v c. parsed "invalid compress: %w" (l.parse_bool v) (λ b. record c { use_compression = b }),
    )
    ∷ []

-- The settings in the order of the code.
abbrev pub settings : Net → Loader → Values → List Setting
settings net l values =
    (
      "timeout" ∷ "TIMEOUT" ∷ "CONNECT TIMEOUT" ∷ "connect timeout" ∷ [],
      λ v c. timeout_of (parse_timeout net v) c,
    )
      ∷ (
        "trace" ∷ [],
        λ v c. parsed "invalid trace: %w" (l.parse_bool v) (λ b. record c { trace = b }),
      )
      ∷ number_settings l
    ++ mode_settings
    ++ protocol_settings l
    ++ ("tls" ∷ [], set_tls)
      ∷ ("tls.ca" ∷ "tls_ca" ∷ [], set_ca l)
      ∷ ("tls.cert" ∷ "tls_cert" ∷ [], set_certificate l values)
      ∷ []

unfoldable pub apply_settings : Values → List Setting → Config → Outcome Config
unfolding get_query_value
apply_settings values [] c = ok c
apply_settings values ((names, set) ∷ more) c =
    let v = get_query_value values names in
    (if non_empty v then set v c else ok c) >>= λ c'. apply_settings values more c'

-- The keys with the prefix `attr.`.
unfoldable pub apply_attributes : Values → List (Bytes × Bytes) → List (Bytes × Bytes)
unfolding put
apply_attributes [] attributes = attributes
apply_attributes ((key, vals) ∷ values) attributes = apply_attributes values (elim (last_of vals) [
  | none ↦ attributes
  | some v ↦ if has_prefix key (codes "attr.") then put (drop 5 key) v attributes else attributes
])

unfoldable pub apply_query : Net → Loader → Values → Config → Outcome Config
unfolding parse_timeout normalize_oracle_mode set_tls set_ca set_certificate apply_settings
    values_of apply_attributes
apply_query net l values c = do
  c' ← apply_settings values (settings net l values) c
  ok (record c' {
    init_sql = c'.init_sql ++ values_of (codes "init") values;
    attributes = apply_attributes values c'.attributes;
  })

-- `&Config{Addr: addr, ...}`
abbrev pub new_config : Bytes → Config
new_config addr = record {
  addrs = [];
  addr = addr;
  user = [];
  password = [];
  database = [];
  timeout = pos 0;
  attributes = [];
  capability_add = 0;
  capability_drop = 0;
  collation = 0;
  init_sql = [];
  oracle_mode = [];
  time_zone = [];
  preset = [];
  trace = false;
  protocol_v2 = false;
  ob20_magic_override = 0;
  disable_ob20_checksum = false;
  tls = none;
  use_compression = false;
}

-- `strings.Cut(s, sep)`, where sep is found; sep is not empty.
unfoldable pub cut : Bytes → Bytes → Option (Bytes × Bytes)
unfolding beq_bytes
cut sep [] = none
cut sep (c ∷ cs) =
    let rest = cut sep cs in
    if has_prefix (c ∷ cs) sep
    then some ([], drop (length sep) (c ∷ cs))
    else elim rest [ none ↦ none | some (before, after) ↦ some (c ∷ before, after) ]

abbrev pub cut_or_all : Bytes → Bytes → Bytes × Bytes
cut_or_all sep s = elim (cut sep s) [ none ↦ (s, []) | some parts ↦ parts ]

-- `strings.Split(s, ",")`
unfoldable pub split_commas : Bytes → List Bytes
split_commas [] = [] ∷ []
split_commas (c ∷ cs) =
    let rest = split_commas cs in
    if c == 44 then [] ∷ rest else elim rest [ [] ↦ (c ∷ []) ∷ [] | s ∷ more ↦ (c ∷ s) ∷ more ]

unfoldable pub with_addrs : Bytes → Config → Config
unfolding split_commas
with_addrs host c = if has_byte 44 host then record c { addrs = split_commas host } else c

abbrev pub oboracle_if : Bool → Config → Config
oboracle_if b c = if b then record c { preset = codes "oboracle" } else c

abbrev pub need : {A : Type 0} → String → Option A → Outcome A
need text none = err (message text)
need text (some a) = ok a

abbrev pub or_raw : Bytes → Option Bytes → Bytes
or_raw raw none = raw
or_raw raw (some s) = s
