-- ===== src/Session/Config/Normal.antt =====
-- What a configuration has once normalize has accepted it.
use obconnector_go.Common.{
  ℕ, ◌≡◌, refl, sym, subst, ◌⊎◌, Bool, ◌||◌, map, err, message, true, false, inl, inr, Bool-cases,
  List, [], ◌∷◌, ◌==◌, if◌then◌else◌, ok, guard-ok, >>-ok, >>=-eq-ok,
}
use obconnector_go.Common.Bytes.{Bytes, codes, beq_bytes}
use obconnector_go.Common.Int.{ℤ}
use obconnector_go.Sql.Params.{non_empty}
use obconnector_go.Sql.TimeZone.{normalize_oracle_mode, trim_space, lower}
use obconnector_go.Session.Config.{
  Config, Net, all_addrs, or_default, normalize_addr, normalize_addrs, normalize_timeout,
  is_zero_time, ten_seconds, or_zero, parse_timeout, check_time_zone, first_of, normalize,
}

-- The spellings that normalizeOracleMode answers.
abbrev pub IsMode : Bytes → Type 0
IsMode m = (m ≡ codes "auto") ⊎ ((m ≡ codes "true") ⊎ (m ≡ codes "false"))

ok-inj : {A : Type 0} {a b : A} → ok a ≡ ok b → a ≡ b
ok-inj e = cc

normalize_oracle_mode-IsMode :
    (value mode : Bytes) → normalize_oracle_mode value ≡ ok mode → IsMode mode
unfolding normalize_oracle_mode
normalize_oracle_mode-IsMode value mode h =
    let v = map lower (trim_space value) in
    by_test (beq_bytes v [] || beq_bytes v (codes "auto"))
      (beq_bytes v (codes "true") || beq_bytes v (codes "oracle"))
      (beq_bytes v (codes "false") || beq_bytes v (codes "mysql")) h
  where
    by_test :
        (a b c : Bool)
        → (if a
            then ok (codes "auto")
            else if b
            then ok (codes "true")
            else if c
            then ok (codes "false")
            else err (message "invalid oracle mode %q: want true, false, or auto"))
          ≡ ok mode
        → IsMode mode
    by_test true b c e = inl (sym (ok-inj e))
    by_test false true c e = inr (inl (sym (ok-inj e)))
    by_test false false true e = inr (inr (sym (ok-inj e)))
    by_test false false false e = absurd cc

-- An address, which the first of the list is; a user; values for what was left out; a mode; and a session
-- time zone that is empty or accepted.
pub record IsReady (c : Config) : Type 0 where
  pub some_addr : (a : Bytes) × (more : List Bytes) × (c.addrs ≡ a ∷ more)
  pub first_addr : c.addr ≡ first_of c.addrs
  pub some_user : non_empty c.user ≡ true
  pub some_timeout : is_zero_time c.timeout ≡ false
  pub some_collation : (c.collation == 0) ≡ false
  pub some_preset : non_empty c.preset ≡ true
  pub known_mode : IsMode c.oracle_mode
  pub known_zone : check_time_zone c.time_zone ≡ ok tt

timeout-known : (net : Net) (d : ℤ) → is_zero_time (normalize_timeout net d) ≡ false
unfolding normalize_timeout
timeout-known net d = or_ten (
    if is_zero_time d
    then (if non_empty net.ob_timeout then or_zero (parse_timeout net net.ob_timeout) else d)
    else d)
  where
    or_ten : (e : ℤ) → is_zero_time (if is_zero_time e then ten_seconds else e) ≡ false
    or_ten e = elim (Bool-cases (is_zero_time e)) [ inl h ↦ rw h refl | inr h ↦ rw h h ]

collation-known : (n : ℕ) → ((if n == 0 then 45 else n) == 0) ≡ false
collation-known n = elim (Bool-cases (n == 0)) [ inl h ↦ rw h refl | inr h ↦ rw h h ]

preset-known : (p : Bytes) → non_empty (or_default p (codes "default")) ≡ true
preset-known [] = refl
preset-known (c ∷ cs) = refl

addrs-kept :
    (net : Net) (a : Bytes) (more out : List Bytes)
    → normalize_addrs net (a ∷ more) ≡ ok out
    → (b : Bytes) × (rest : List Bytes) × (out ≡ b ∷ rest)
unfolding normalize_addrs
addrs-kept net a more out h =
    let (b, e1, h1) = >>=-eq-ok (normalize_addr net a) _ h in
    let (rest, e2, h2) = >>=-eq-ok (normalize_addrs net more) _ h1 in (b, rest, cc)

some_addrs :
    (net : Net) (addrs : List Bytes) (addr : Bytes) (out : List Bytes)
    → normalize_addrs net (all_addrs addrs addr) ≡ ok out
    → (b : Bytes) × (rest : List Bytes) × (out ≡ b ∷ rest)
unfolding all_addrs
some_addrs net [] addr out h = addrs-kept net _ [] out h
some_addrs net (a ∷ more) addr out h = addrs-kept net a more out h

-- A configuration that normalize accepts is ready: it has an address, the first of its list, and a user; timeout,
-- collation and preset are set, its mode is one of the three that normalizeOracleMode answers, and its
-- session time zone is empty or accepted by parseSessionTimeZone.
pub normalize-IsReady : (net : Net) (c c' : Config) → normalize net c ≡ ok c' → IsReady c'
unfolding normalize
normalize-IsReady net c c' h =
    let (addrs, e1, h1) = >>=-eq-ok (normalize_addrs net (all_addrs c.addrs c.addr)) _ h in
    let (e2, h2) = guard-ok (non_empty c.user) _ _ h1 in
    let (mode, e3, h3) = >>=-eq-ok (normalize_oracle_mode c.oracle_mode) _ h2 in
    let (e4, h4) = >>-ok (check_time_zone c.time_zone) _ h3 in
    subst IsReady (ok-inj h4) (record {
      some_addr = some_addrs net c.addrs c.addr addrs e1;
      first_addr = refl;
      some_user = e2;
      some_timeout = timeout-known net c.timeout;
      some_collation = collation-known c.collation;
      some_preset = preset-known c.preset;
      known_mode = normalize_oracle_mode-IsMode c.oracle_mode mode e3;
      known_zone = e4;
    })
