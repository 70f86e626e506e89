-- ===== src/Sql/TimeZone/Offsets.antt =====
-- The range of the offsets, and the canonical spelling.
use obconnector_go.Common.{
  ℕ, ◌≤◌, ◌≡◌, refl, sym, ap, ap₂, ◌∙◌, subst, ◌⊎◌, inl, inr, true, false, not, [], ◌∷◌, ◌++◌,
  arith, leb, leb→le, Bool-cases, ok, guard-ok,
}
use obconnector_go.Common.Bytes.{Bytes, codes, beq_bytes}
use obconnector_go.Common.Int.{pos, nat_abs}
use obconnector_go.Sql.TimeZone.{
  trim_left, trim_space, is_two_digits, two_digits, pad_two, Location, utc, fixed_zone, names_utc,
  looks_like_offset, parse_trimmed, offset_of, outside_range, zone_of, parse_offset,
  parse_session_time_zone,
}

-- pad_two undoes two_digits.
pad_two-two_digits :
    (a b : ℕ) → 48 ≤ a → a ≤ 57 → 48 ≤ b → b ≤ 57 → pad_two (two_digits (a ∷ b ∷ [])) ≡ a ∷ b ∷ []
pad_two-two_digits a b h1 h2 h3 h4 = ground arith

is_two_digits-range :
    (a b : ℕ) → is_two_digits (a ∷ b ∷ []) ≡ true → ((48 ≤ a) × (a ≤ 57)) × ((48 ≤ b) × (b ≤ 57))
unfolding is_two_digits
is_two_digits-range a b h = ground arith

abbrev spelled : ℕ → ℕ → ℕ → ℕ → ℕ → Bytes
spelled s a b c d = s ∷ a ∷ b ∷ 58 ∷ c ∷ d ∷ []

-- What an accepted offset looks like.
record IsOffset (s a b c d : ℕ) (location : Location) (canonical : Bytes) : Type 0 where
  hours : ((48 ≤ a) × (a ≤ 57)) × ((48 ≤ b) × (b ≤ 57))
  minutes : ((48 ≤ c) × (c ≤ 57)) × ((48 ≤ d) × (d ≤ 57))
  same : canonical ≡ spelled s a b c d
  in_range : nat_abs (offset_of location) ≤ 46800

zone_of-range :
    (s hour minute : ℕ)
    → minute ≤ 59
    → not (outside_range s hour minute) ≡ true
    → nat_abs (offset_of (zone_of s hour minute).0) ≤ 46800
unfolding zone_of outside_range
zone_of-range s hour minute le r = ground arith

zone_of-canonical :
    (s a b c d : ℕ)
    → ((48 ≤ a) × (a ≤ 57)) × ((48 ≤ b) × (b ≤ 57))
    → ((48 ≤ c) × (c ≤ 57)) × ((48 ≤ d) × (d ≤ 57))
    → (zone_of s (two_digits (a ∷ b ∷ [])) (two_digits (c ∷ d ∷ []))).1 ≡ spelled s a b c d
unfolding zone_of
zone_of-canonical s a b c d h m =
    ap₂ (λ (x y : Bytes). (s ∷ x) ++ 58 ∷ y) (pad_two-two_digits a b h.0.0 h.0.1 h.1.0 h.1.1)
      (pad_two-two_digits c d m.0.0 m.0.1 m.1.0 m.1.1)

parse_offset-IsOffset :
    (s a b c d : ℕ) (location : Location) (canonical : Bytes)
    → parse_offset (spelled s a b c d) ≡ ok (location, canonical)
    → IsOffset s a b c d location canonical
unfolding parse_offset
parse_offset-IsOffset s a b c d location canonical h =
    let hour = two_digits (a ∷ b ∷ []) in
    let minute = two_digits (c ∷ d ∷ []) in
    let (e1, h1) = guard-ok (is_two_digits (a ∷ b ∷ [])) _ _ h in
    let (e2, h2) = guard-ok (is_two_digits (c ∷ d ∷ [])) _ _ h1 in
    let (e3, h3) = guard-ok (leb minute 59) _ _ h2 in
    let (e4, h4) = guard-ok (not (outside_range s hour minute)) _ _ h3 in
    let e : zone_of s hour minute ≡ (location, canonical) = cc in
    record {
      hours = is_two_digits-range a b e1;
      minutes = is_two_digits-range c d e2;
      same =
          sym (ap (λ p. p.1) e)
          ∙ zone_of-canonical s a b c d (is_two_digits-range a b e1) (is_two_digits-range c d e2);
      in_range =
          subst (λ z. nat_abs (offset_of z) ≤ 46800) (ap (λ p. p.0) e)
            (zone_of-range s hour minute (leb→le _ _ e3) e4);
    }

-- A text that has no white space around it is what strings.TrimSpace makes of it.
trim_space-spelled :
    (s a b c d : ℕ)
    → (s ≡ 43) ⊎ (s ≡ 45)
    → ((48 ≤ c) × (c ≤ 57)) × ((48 ≤ d) × (d ≤ 57))
    → trim_space (spelled s a b c d) ≡ spelled s a b c d
unfolding trim_space trim_left
trim_space-spelled s a b c d h m = ground arith

parse_trimmed-spelled :
    (s a b c d : ℕ)
    → (s ≡ 43) ⊎ (s ≡ 45)
    → parse_trimmed (spelled s a b c d) ≡ parse_offset (spelled s a b c d)
unfolding parse_trimmed beq_bytes
parse_trimmed-spelled s a b c d (inl e) = rw e refl
parse_trimmed-spelled s a b c d (inr e) = rw e refl

abbrev Spelled : Bytes → Type 0
Spelled value =
    (s : ℕ) × ((a : ℕ) × ((b : ℕ) × ((c : ℕ) × ((d : ℕ) × (((s ≡ 43) ⊎ (s ≡ 45))
              × (value ≡ spelled s a b c d))))))

looks_like_offset-Spelled : (value : Bytes) → looks_like_offset value ≡ true → Spelled value
looks_like_offset-Spelled (s ∷ a ∷ b ∷ x ∷ c ∷ d ∷ []) h =
    (s, (a, (b, (c, (d, (ground arith, ground arith))))))
looks_like_offset-Spelled [] h = cc
looks_like_offset-Spelled (_ ∷ []) h = cc
looks_like_offset-Spelled (_ ∷ _ ∷ []) h = cc
looks_like_offset-Spelled (_ ∷ _ ∷ _ ∷ []) h = cc
looks_like_offset-Spelled (_ ∷ _ ∷ _ ∷ _ ∷ []) h = cc
looks_like_offset-Spelled (_ ∷ _ ∷ _ ∷ _ ∷ _ ∷ []) h = cc
looks_like_offset-Spelled (_ ∷ _ ∷ _ ∷ _ ∷ _ ∷ _ ∷ y ∷ r) h = ground arith

-- The answer that a spelling gets when it is read again.
abbrev pub Reads : Location → Bytes → Type 0
Reads location canonical =
    (again : Location) × (parse_session_time_zone canonical ≡ ok (again, canonical))
    × (offset_of again ≡ offset_of location)
    × (nat_abs (offset_of location) ≤ 46800)

spelled-Reads :
    (s a b c d : ℕ) (location : Location) (canonical : Bytes)
    → (s ≡ 43) ⊎ (s ≡ 45)
    → parse_offset (spelled s a b c d) ≡ ok (location, canonical)
    → Reads location canonical
unfolding parse_session_time_zone
spelled-Reads s a b c d location canonical sign h =
    let o = parse_offset-IsOffset s a b c d location canonical h in
    let read : parse_session_time_zone canonical ≡ ok (location, canonical) =
      ap parse_session_time_zone o.same
      ∙ (ap parse_trimmed (trim_space-spelled s a b c d sign o.minutes)
          ∙ (parse_trimmed-spelled s a b c d sign ∙ h)) in
    (location, read, refl, o.in_range)

utc-Reads : Reads utc (codes "+00:00")
unfolding parse_session_time_zone parse_trimmed beq_bytes trim_space trim_left
utc-Reads = (fixed_zone (codes "UTC+00:00") (pos 0), refl, refl, omega arith)

parse_trimmed-utc : (v : Bytes) → names_utc v ≡ true → parse_trimmed v ≡ ok (utc, codes "+00:00")
unfolding parse_trimmed
parse_trimmed-utc v e = rw e refl

parse_trimmed-rejects :
    (v : Bytes) {r : Location × Bytes}
    → names_utc v ≡ false
    → looks_like_offset v ≡ false
    → parse_trimmed v ≡ ok r
    → ⊥
unfolding parse_trimmed
parse_trimmed-rejects v e f h = ground arith

trimmed-Reads :
    (v : Bytes) (location : Location) (canonical : Bytes)
    → parse_trimmed v ≡ ok (location, canonical)
    → Reads location canonical
trimmed-Reads v location canonical h = elim (Bool-cases (names_utc v)) [
  | inl e ↦
      let u = parse_trimmed-utc v e in
      let p : (utc, codes "+00:00") ≡ (location, canonical) = cc in
      subst (λ (z : Location × Bytes). Reads z.0 z.1) p utc-Reads
  | inr e ↦ elim (Bool-cases (looks_like_offset v)) [
    | inl f ↦
        let (s, (a, (b, (c, (d, (sign, same)))))) = looks_like_offset-Spelled v f in
        spelled-Reads s a b c d location canonical sign
          (sym (parse_trimmed-spelled s a b c d sign) ∙ (ap parse_trimmed (sym same) ∙ h))
    | inr f ↦ absurd (parse_trimmed-rejects v e f h)
  ]
]

-- The canonical spelling of an accepted time zone is a fixed point: when parseSessionTimeZone
-- accepts a value, it accepts the canonical offset that it answers with, as the same canonical
-- offset and the same distance from UTC, which is at most thirteen hours either way.
pub parse-canonical :
    (value : Bytes) (location : Location) (canonical : Bytes)
    → parse_session_time_zone value ≡ ok (location, canonical)
    → Reads location canonical
unfolding parse_session_time_zone
parse-canonical value location canonical h = trimmed-Reads (trim_space value) location canonical h
