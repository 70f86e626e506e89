-- ===== src/Session/Config.antt =====
-- config.go: the Config of a connection, and what normalize makes of it.
pub mod Normal
use obconnector_go.Common.{
  ℕ, ◌*◌, ◌^◌, Bool, true, false, not, Option, none, some, List, [], ◌∷◌, ◌++◌, ◌==◌, if◌then◌else◌,
  Outcome, ok, err, panic, stuck, Error, message, guard, ◌>>=◌, ◌>>◌,
}
use obconnector_go.Common.Bytes.{Bytes, codes}
use obconnector_go.Common.Int.{ℤ, pos, nat_abs}
use obconnector_go.Sql.Params.{non_empty}
use obconnector_go.Sql.TimeZone.{normalize_oracle_mode, parse_session_time_zone, Location}

-- A tls.Config as far as the DSN sets it: the pool and the certificates are those that crypto/tls loads.
pub record Tls : Type 0 where
  pub skip_verify : Bool
  pub root_cas : Option Bytes
  pub certificates : List Bytes

-- `tls` is none where TLSConfig is nil. Attributes is a map with its keys in some order.
pub record Config : Type 0 where
  pub addrs : List Bytes
  pub addr : Bytes
  pub user : Bytes
  pub password : Bytes
  pub database : Bytes
  pub timeout : ℤ
  pub attributes : List (Bytes × Bytes)
  pub capability_add : ℕ
  pub capability_drop : ℕ
  pub collation : ℕ
  pub init_sql : List Bytes
  pub oracle_mode : Bytes
  pub time_zone : Bytes
  pub preset : Bytes
  pub trace : Bool
  pub protocol_v2 : Bool
  pub ob20_magic_override : ℕ
  pub disable_ob20_checksum : Bool
  pub tls : Option Tls
  pub use_compression : Bool

-- `c.cfg.TLSConfig != nil`
abbrev pub has_tls : Config → Bool
has_tls c = elim (c.tls) [ none ↦ false | some t ↦ true ]

-- net.SplitHostPort and JoinHostPort; whether strconv.Atoi accepts a text; time.ParseDuration; strconv.ParseFloat
-- times a second; the environment's OB_TIMEOUT.
pub record Net : Type 0 where
  pub split_host_port : Bytes → Option (Bytes × Bytes)
  pub join_host_port : Bytes → Bytes → Bytes
  pub is_number : Bytes → Bool
  pub parse_duration : Bytes → Option ℤ
  pub parse_seconds : Bytes → Option ℤ
  pub ob_timeout : Bytes

abbrev pub has_byte : ℕ → Bytes → Bool
has_byte b [] = false
has_byte b (c ∷ cs) = if c == b then true else has_byte b cs

abbrev pub or_default : Bytes → Bytes → Bytes
or_default [] d = d
or_default (c ∷ cs) d = c ∷ cs

abbrev pub default_addr : Bytes
default_addr = codes "127.0.0.1:2881"

-- The list that the first three tests of normalize leave in c.Addrs.
unfoldable pub all_addrs : List Bytes → Bytes → List Bytes
all_addrs [] addr = or_default addr default_addr ∷ []
all_addrs (a ∷ addrs) addr = a ∷ addrs

abbrev pub joined : Net → Bytes → Bytes → Outcome Bytes
joined net host port =
    if not (net.is_number port)
    then err (message "invalid port %q: %w")
    else ok (net.join_host_port (or_default host (codes "127.0.0.1")) port)

unfoldable pub normalize_addr : Net → Bytes → Outcome Bytes
normalize_addr net addr = elim (net.split_host_port addr) [
  | some (host, port) ↦ joined net host port
  | none ↦
      if has_byte 58 addr
      then err (message "invalid address %q: %w")
      else joined net addr (codes "2881")
]

unfoldable pub normalize_addrs : Net → List Bytes → Outcome (List Bytes)
unfolding normalize_addr
normalize_addrs net [] = ok []
normalize_addrs net (addr ∷ addrs) = do
  a ← normalize_addr net addr
  rest ← normalize_addrs net addrs
  ok (a ∷ rest)

unfoldable pub parse_timeout : Net → Bytes → Outcome ℤ
parse_timeout net s = elim (net.parse_duration s) [
  | some d ↦ ok d
  | none ↦ elim (net.parse_seconds s) [
    | some d ↦ ok d
    | none ↦ err (message "strconv.ParseFloat: parsing %q")
  ]
]

abbrev pub is_zero_time : ℤ → Bool
is_zero_time d = nat_abs d == 0

abbrev pub ten_seconds : ℤ
ten_seconds = pos (10 * 10 ^ 9)

abbrev pub or_zero : Outcome ℤ → ℤ
or_zero (ok d) = d
or_zero (err e) = pos 0
or_zero panic = pos 0
or_zero stuck = pos 0

-- The timeout, or the one of the environment, or ten seconds.
unfoldable pub normalize_timeout : Net → ℤ → ℤ
unfolding parse_timeout
normalize_timeout net d =
    let first =
      if is_zero_time d
      then (if non_empty net.ob_timeout then or_zero (parse_timeout net net.ob_timeout) else d)
      else d in
    if is_zero_time first then ten_seconds else first

abbrev pub zone_error : Outcome (Location × Bytes) → Outcome (Unit {0})
zone_error (ok zone) = ok tt
zone_error (err e) = err (message "invalid session time zone: %w")
zone_error panic = panic
zone_error stuck = stuck

unfoldable pub check_time_zone : Bytes → Outcome (Unit {0})
unfolding parse_session_time_zone
check_time_zone zone = if non_empty zone then zone_error (parse_session_time_zone zone) else ok tt

abbrev pub first_of : List Bytes → Bytes
first_of [] = []
first_of (a ∷ addrs) = a

-- The configuration that normalize leaves where it succeeds.
unfoldable pub normalize : Net → Config → Outcome Config
unfolding all_addrs normalize_addrs normalize_timeout normalize_oracle_mode check_time_zone
normalize net c = normalize_addrs net (all_addrs c.addrs c.addr) >>= λ addrs.
    guard (non_empty c.user) (message "missing user")
    >> (normalize_oracle_mode c.oracle_mode >>= λ mode.
        check_time_zone c.time_zone
        >> ok (record c {
          addrs = addrs;
          addr = first_of addrs;
          timeout = normalize_timeout net c.timeout;
          collation = if c.collation == 0 then 45 else c.collation;
          preset = or_default c.preset (codes "default");
          oracle_mode = mode;
        }))
