-- ===== src/Session/DsnTests.antt =====
-- Runs of the parser of a DSN.
use obconnector_go.Common.{◌≡◌, refl, true, false, none, some, [], ◌∷◌, ◌++◌, ok, err, message}
use obconnector_go.Common.Bytes.{codes}
use obconnector_go.Common.Int.{pos}
use obconnector_go.Session.Config.{Config, Net, ten_seconds, normalize}
use obconnector_go.Session.Config.Normal.{IsReady, normalize-IsReady}
use obconnector_go.Session.Dsn.{Loader}
use obconnector_go.Session.DataSource.{parse_dsn}

-- Stand-ins that find no port, accept every number and unescape nothing.
abbrev plain_net : Net
plain_net = record {
  split_host_port = λ s. none;
  join_host_port = λ h p. h ++ 58 ∷ p;
  is_number = λ s. true;
  parse_duration = λ s. none;
  parse_seconds = λ s. none;
  ob_timeout = [];
}

abbrev plain_loader : Loader
plain_loader = record {
  query_unescape = λ s. some s;
  path_unescape = λ s. some s;
  parse_query = λ s. some (
      (codes "INIT", codes "a" ∷ [])
      ∷ (codes "Preset", codes "obclient" ∷ [])
      ∷ (codes "attr.k", codes "v" ∷ [])
      ∷ []);
  parse_url = λ s. none;
  parse_bool = λ s. none;
  parse_uint = λ bits s. none;
  load_pool = λ s. err (message "no file");
  load_key_pair = λ a b. none;
}

-- An address, a user and a time zone, and nothing else.
abbrev bare : Config
bare = record {
  addrs = [];
  addr = codes "db";
  user = codes "me";
  password = codes "pw";
  database = [];
  timeout = pos 0;
  attributes = [];
  capability_add = 0;
  capability_drop = 0;
  collation = 0;
  init_sql = [];
  oracle_mode = [];
  time_zone = codes "+08:00";
  preset = [];
  trace = false;
  protocol_v2 = false;
  ob20_magic_override = 0;
  disable_ob20_checksum = false;
  tls = none;
  use_compression = false;
}

abbrev filled : Config
filled = record bare {
  addrs = codes "db:2881" ∷ [];
  addr = codes "db:2881";
  timeout = ten_seconds;
  collation = 45;
  oracle_mode = codes "auto";
  preset = codes "default";
}

bare_normal : normalize plain_net bare ≡ ok filled
unfolding normalize
bare_normal = refl

normalize-IsReady_example : IsReady filled
normalize-IsReady_example = normalize-IsReady plain_net bare filled bare_normal

legacy_dsn :
    parse_dsn plain_net plain_loader (codes "me:pw@tcp(db)/test?x")
    ≡ ok (record {
      addrs = codes "db:2881" ∷ [];
      addr = codes "db:2881";
      user = codes "me";
      password = codes "pw";
      database = codes "test";
      timeout = ten_seconds;
      attributes = (codes "k", codes "v") ∷ [];
      capability_add = 0;
      capability_drop = 0;
      collation = 45;
      init_sql = [];
      oracle_mode = codes "auto";
      time_zone = [];
      preset = codes "obclient";
      trace = false;
      protocol_v2 = false;
      ob20_magic_override = 0;
      disable_ob20_checksum = false;
      tls = none;
      use_compression = false;
    })
unfolding parse_dsn
legacy_dsn = refl

opaque_preset :
    parse_dsn plain_net plain_loader (codes "oboracle:me:pw@db")
    ≡ ok (record {
      addrs = codes "db:2881" ∷ [];
      addr = codes "db:2881";
      user = codes "me";
      password = codes "pw";
      database = [];
      timeout = ten_seconds;
      attributes = [];
      capability_add = 0;
      capability_drop = 0;
      collation = 45;
      init_sql = [];
      oracle_mode = codes "auto";
      time_zone = [];
      preset = codes "oboracle";
      trace = false;
      protocol_v2 = false;
      ob20_magic_override = 0;
      disable_ob20_checksum = false;
      tls = none;
      use_compression = false;
    })
unfolding parse_dsn
opaque_preset = refl

no_user : parse_dsn plain_net plain_loader (codes "@tcp(db)/") ≡ err (message "missing user")
unfolding parse_dsn
no_user = refl
