-- ===== src/Protocol/OracleTime/Matches.antt =====
-- The search for the instants at which a clock shows given fields.
use obconnector_go.Common.{
  ◌≡◌, refl, sym, ap, subst, inl, inr, true, All, All-append, List, [], ◌∷◌, ◌++◌, ◌⊎◌, arith,
  ==_refl, Bool-cases, ok, guard-ok,
}
use obconnector_go.Common.Int.{ℤ}
use obconnector_go.Protocol.Zone.{Zone, shown}
use obconnector_go.Protocol.Calendar.{Time}
use obconnector_go.Protocol.Binary.Times.{same_time}
use obconnector_go.Protocol.Calendar.{instant_of}
use obconnector_go.Protocol.OracleTime.{
  same_oracle_wall, is_duplicate, add_match, all_matches, only_match, zone_offsets,
  oracle_time_in_location,
}

pub same_oracle_wall_refl : (t : Time) → same_oracle_wall t t ≡ true
unfolding same_oracle_wall
same_oracle_wall_refl t =
    rw
      (
        ==_refl t.year,
        ==_refl t.month,
        ==_refl t.day,
        ==_refl t.hour,
        ==_refl t.minute,
        ==_refl t.sec,
        ==_refl t.nsec,
      )
      refl

ok-inj : {A : Type 0} {a b : A} → ok a ≡ ok b → a ≡ b
ok-inj h = cc

-- One of a list.
abbrev pub Among : {A : Type 0} → A → List A → Type 0
Among x [] = ⊥
Among x (y ∷ ys) = (x ≡ y) ⊎ Among x ys

module _ {A : Type 0} where
  Among-left : (x : A) (xs ys : List A) → Among x xs → Among x (xs ++ ys)
  Among-left x [] ys h = absurd h
  Among-left x (y ∷ xs) ys (inl e) = inl e
  Among-left x (y ∷ xs) ys (inr h) = inr (Among-left x xs ys h)

  Among-last : (x : A) (xs : List A) → Among x (xs ++ x ∷ [])
  Among-last x [] = inl refl
  Among-last x (y ∷ xs) = inr (Among-last x xs)

same_oracle_wall-same : (t u : Time) → same_oracle_wall t u ≡ true → t ≡ u
unfolding same_oracle_wall
same_oracle_wall-same t u h = same_time t u (ground arith)

duplicate-Among : (t : Time) (ts : List Time) → is_duplicate t ts ≡ true → Among t ts
duplicate-Among t [] h = absurd cc
duplicate-Among t (u ∷ ts) h = elim (Bool-cases (same_oracle_wall u t)) [
  | inl e ↦ inl (sym (same_oracle_wall-same u t e))
  | inr e ↦ inr (duplicate-Among t ts (rw e at h))
]

module _ (location : Zone) (wall : Time) where
  -- The instant shows the wall.
  abbrev pub Showing : Time → Type 0
  Showing t = shown location t ≡ wall

  add_match-Showing :
      (o : ℤ) (ms : List Time) → All Showing ms → All Showing (add_match location wall o ms)
  unfolding add_match
  add_match-Showing o ms h =
      elim (Bool-cases (same_oracle_wall (shown location (instant_of o wall)) wall)) [
        | inr e ↦ rw e h
        | inl e ↦ elim (Bool-cases (is_duplicate (instant_of o wall) ms)) [
          | inl d ↦ rw (e, d) h
          | inr d ↦ rw (e, d) (All-append Showing ms _ h (same_oracle_wall-same _ wall e, tt))
        ]
      ]

  add_match-keeps :
      (o : ℤ) (ms : List Time) (t : Time) → Among t ms → Among t (add_match location wall o ms)
  unfolding add_match
  add_match-keeps o ms t h =
      elim (Bool-cases (same_oracle_wall (shown location (instant_of o wall)) wall)) [
        | inr e ↦ rw e h
        | inl e ↦ elim (Bool-cases (is_duplicate (instant_of o wall) ms)) [
          | inl d ↦ rw (e, d) h
          | inr d ↦ rw (e, d) (Among-left t ms _ h)
        ]
      ]

  add_match-finds :
      (o : ℤ) (ms : List Time)
      → Showing (instant_of o wall)
      → Among (instant_of o wall) (add_match location wall o ms)
  unfolding add_match
  add_match-finds o ms h =
      let e : same_oracle_wall (shown location (instant_of o wall)) wall ≡ true =
        subst (λ w. same_oracle_wall w wall ≡ true) (sym h) (same_oracle_wall_refl wall) in
      elim (Bool-cases (is_duplicate (instant_of o wall) ms)) [
        | inl d ↦ rw (e, d) (duplicate-Among (instant_of o wall) ms d)
        | inr d ↦ rw (e, d) (Among-last (instant_of o wall) ms)
      ]

  all_matches-Showing :
      (os : List ℤ) (ms : List Time)
      → All Showing ms
      → All Showing (all_matches location wall os ms)
  all_matches-Showing [] ms h = h
  all_matches-Showing (o ∷ os) ms h =
      all_matches-Showing os (add_match location wall o ms) (add_match-Showing o ms h)

  all_matches-keeps :
      (os : List ℤ) (ms : List Time) (t : Time)
      → Among t ms
      → Among t (all_matches location wall os ms)
  all_matches-keeps [] ms t h = h
  all_matches-keeps (o ∷ os) ms t h =
      all_matches-keeps os (add_match location wall o ms) t (add_match-keeps o ms t h)

  all_matches-finds :
      (os : List ℤ) (ms : List Time) (o : ℤ)
      → Among o os
      → Showing (instant_of o wall)
      → Among (instant_of o wall) (all_matches location wall os ms)
  all_matches-finds [] ms o h s = absurd h
  all_matches-finds (p ∷ os) ms o (inl e) s =
      all_matches-keeps os (add_match location wall p ms) (instant_of o wall) (
        subst (λ q. Among (instant_of o wall) (add_match location wall q ms)) e
          (add_match-finds o ms s))
  all_matches-finds (p ∷ os) ms o (inr h) s =
      all_matches-finds os (add_match location wall p ms) o h s

only_match-ok : (ts : List Time) (t : Time) → only_match ts ≡ ok t → ts ≡ t ∷ []
only_match-ok [] t h = absurd cc
only_match-ok (u ∷ []) t h = ap (λ x. x ∷ []) (ok-inj h)
only_match-ok (u ∷ v ∷ ts) t h = absurd cc

-- The only instant that shows the wall, among those that the offsets around it give.
pub record IsResolved (location : Zone) (wall t : Time) : Type 0 where
  pub shows : shown location t ≡ wall
  pub only :
      (o : ℤ)
      → Among o (zone_offsets location (location.date wall))
      → shown location (instant_of o wall) ≡ wall
      → instant_of o wall ≡ t

pub in_location-IsResolved :
    (location : Zone) (wall t : Time)
    → oracle_time_in_location wall location ≡ ok t
    → IsResolved location wall t
unfolding oracle_time_in_location
in_location-IsResolved location wall t h =
    let offsets = zone_offsets location (location.date wall) in
    let (e, found) = guard-ok (same_oracle_wall (shown location (location.date wall)) wall) _ _ h in
    let one = only_match-ok (all_matches location wall offsets []) t found in
    record {
      shows =
          (subst (All (Showing location wall)) one
            (all_matches-Showing location wall offsets [] tt)).0;
      only = λ o a s.
          elim (subst (Among (instant_of o wall)) one
            (all_matches-finds location wall offsets [] o a s)) [
              | inl same ↦ same
              | inr none_left ↦ absurd none_left
            ];
    }
