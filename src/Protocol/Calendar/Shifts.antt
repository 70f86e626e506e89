-- ===== src/Protocol/Calendar/Shifts.antt =====
-- Moving a time of the calendar by less than a day and back.
use obconnector_go.Common.{
  ℕ, suc, ◌+◌, ◌-◌, ◌≤◌, ◌<◌, ◌≡◌, refl, ap, ◌∙◌, inl, inr, arith, ltb, leb, ltb→lt, lt→ltb,
  ltb-false, ltb-false→le, leb→le, le→leb, leb-false, leb-false→lt, Bool-cases,
}
use obconnector_go.Common.Int.{ℤ, pos, negsuc, nat_abs}
use obconnector_go.Protocol.Calendar.{Time}
use obconnector_go.Protocol.Binary.Times.{same_time}
use obconnector_go.Protocol.Calendar.{
  days_in_month, IsDay, IsWall, previous_day, next_day, clock, set_clock, day_seconds, later,
  earlier, shown_at, instant_of,
}

days-range : (y m : ℕ) → (28 ≤ days_in_month y m) × (days_in_month y m ≤ 31)
unfolding days_in_month
days-range y m = ground arith

days-december : (y : ℕ) → days_in_month y 12 ≡ 31
unfolding days_in_month
days-december y = refl

-- The day after the last one of a month, and of a year.
next-month :
    (t : Time)
    → IsDay t
    → t.day ≡ 1
    → 1 < t.month
    → next_day (record t { month = t.month - 1; day = days_in_month t.year (t.month - 1) }) ≡ t
unfolding next_day
next-month t h first m = same_time _ t (ground arith)

next-year :
    (t : Time)
    → IsDay t
    → t.day ≡ 1
    → t.month ≡ 1
    → next_day (record t { year = t.year - 1; month = 12; day = 31 }) ≡ t
unfolding next_day
next-year t h first m = let december = days-december (t.year - 1) in same_time _ t (ground arith)

next-day : (t : Time) → IsDay t → 1 < t.day → next_day (record t { day = t.day - 1 }) ≡ t
unfolding next_day
next-day t h d = same_time _ t (ground arith)

next-previous : (t : Time) → IsDay t → next_day (previous_day t) ≡ t
unfolding previous_day
next-previous t h = elim (Bool-cases (ltb 1 t.day)) [
  | inl e ↦ rw e (next-day t h (ground arith))
  | inr e ↦ elim (Bool-cases (ltb 1 t.month)) [
    | inl f ↦ rw (e, f) (next-month t h (ground arith) (ground arith))
    | inr f ↦ rw (e, f) (next-year t h (ground arith) (ground arith))
  ]
]

-- The last day of a month comes before the first of the next one.
previous-month :
    (t : Time)
    → IsDay t
    → t.day ≡ days_in_month t.year t.month
    → t.month < 12
    → previous_day (record t { month = t.month + 1; day = 1 }) ≡ t
unfolding previous_day
previous-month t h last m =
    let back : t.month + 1 - 1 ≡ t.month = omega arith in
    let same = ap (days_in_month t.year) back in same_time _ t (ground arith)

previous-year :
    (t : Time)
    → IsDay t
    → t.day ≡ days_in_month t.year t.month
    → 12 ≤ t.month
    → previous_day (record t { year = t.year + 1; month = 1; day = 1 }) ≡ t
unfolding previous_day
previous-year t h last m =
    let twelve : t.month ≡ 12 = ground arith in
    let december = ap (days_in_month t.year) twelve ∙ days-december t.year in
    same_time _ t (ground arith)

previous-day : (t : Time) → IsDay t → previous_day (record t { day = t.day + 1 }) ≡ t
unfolding previous_day
previous-day t h = same_time _ t (ground arith)

previous-next : (t : Time) → IsDay t → previous_day (next_day t) ≡ t
unfolding next_day
previous-next t h = elim (Bool-cases (ltb t.day (days_in_month t.year t.month))) [
  | inl e ↦ rw e (previous-day t h)
  | inr e ↦ elim (Bool-cases (ltb t.month 12)) [
    | inl f ↦ rw (e, f) (previous-month t h (ground arith) (ground arith))
    | inr f ↦ rw (e, f) (previous-year t h (ground arith) (ground arith))
  ]
]

-- The other days of the calendar.
previous_day-fields :
    (t : Time) → (clock (previous_day t) ≡ clock t) × ((previous_day t).nsec ≡ t.nsec)
unfolding previous_day
previous_day-fields t = ground arith

next_day-fields : (t : Time) → (clock (next_day t) ≡ clock t) × ((next_day t).nsec ≡ t.nsec)
unfolding next_day
next_day-fields t = ground arith

-- The clock set twice, and set to what it shows.
set-set : (s r : ℕ) (t : Time) → set_clock s (set_clock r t) ≡ set_clock s t
set-set s r t = refl

set-own : (t : Time) → IsWall t → set_clock (clock t) t ≡ t
set-own t h = same_time _ t (ground arith)

clock-set : (s : ℕ) (t : Time) → clock (set_clock s t) ≡ s
clock-set s t = omega arith

clock-lt : (t : Time) → IsWall t → clock t < day_seconds
clock-lt t h = ground arith

next-set : (s : ℕ) (t : Time) → next_day (set_clock s t) ≡ set_clock s (next_day t)
unfolding next_day
next-set s t = same_time _ _ (ground arith)

previous-set : (s : ℕ) (t : Time) → previous_day (set_clock s t) ≡ set_clock s (previous_day t)
unfolding previous_day
previous-set s t = same_time _ _ (ground arith)

-- Where the move stays on the day, and where it does not.
later-same : (n : ℕ) (t : Time) → clock t + n < day_seconds → later n t ≡ set_clock (clock t + n) t
unfolding later
later-same n t h = rw (lt→ltb _ _ h) refl

later-next :
    (n : ℕ) (t : Time)
    → day_seconds ≤ clock t + n
    → later n t ≡ set_clock (clock t + n - day_seconds) (next_day t)
unfolding later
later-next n t h = rw (ltb-false _ _ h) refl

earlier-same : (n : ℕ) (t : Time) → n ≤ clock t → earlier n t ≡ set_clock (clock t - n) t
unfolding earlier
earlier-same n t h = rw (le→leb _ _ h) refl

earlier-previous :
    (n : ℕ) (t : Time)
    → clock t < n
    → earlier n t ≡ set_clock (clock t + day_seconds - n) (previous_day t)
unfolding earlier
earlier-previous n t h = rw (leb-false _ _ h) refl

-- The clock moved on and back.
set-back : (s : ℕ) (t u : Time) → IsWall t → s ≡ clock t → u ≡ t → set_clock s u ≡ t
set-back s t u h e f = rw (e, f) (set-own t h)

pub later-earlier : (n : ℕ) (t : Time) → n < day_seconds → IsWall t → later n (earlier n t) ≡ t
later-earlier n t d h = elim (Bool-cases (leb n (clock t))) [
  | inl e ↦
      rw (earlier-same n t (leb→le _ _ e), later-same n (set_clock (clock t - n) t) (ground arith))
        (set-back (clock (set_clock (clock t - n) t) + n) t t h (ground arith) refl)
  | inr e ↦
      rw
        (
          earlier-previous n t (leb-false→lt _ _ e),
          later-next n (set_clock (clock t + day_seconds - n) (previous_day t)) (ground arith),
          next-set (clock t + day_seconds - n) (previous_day t),
        )
        (set-back (clock (set_clock (clock t + day_seconds - n) t) + n - day_seconds) t
          (next_day (previous_day t)) h (ground arith) (next-previous t h.on_day))
]

pub earlier-later : (n : ℕ) (t : Time) → n < day_seconds → IsWall t → earlier n (later n t) ≡ t
earlier-later n t d h = elim (Bool-cases (ltb (clock t + n) day_seconds)) [
  | inl e ↦
      rw (later-same n t (ltb→lt _ _ e), earlier-same n (set_clock (clock t + n) t) (ground arith))
        (set-back (clock (set_clock (clock t + n) t) - n) t t h (ground arith) refl)
  | inr e ↦
      rw
        (
          later-next n t (ltb-false→le _ _ e),
          earlier-previous n (set_clock (clock t + n - day_seconds) (next_day t)) (ground arith),
          previous-set (clock t + n - day_seconds) (next_day t),
        )
        (set-back (clock (set_clock (clock t + n - day_seconds) t) + day_seconds - n) t
          (previous_day (next_day t)) h (ground arith) (previous-next t h.on_day))
]

-- A clock within a day of UTC shows the fields at the instant that was computed from them.
pub shown_at-instant_of :
    (offset : ℤ) (t : Time)
    → nat_abs offset < day_seconds
    → IsWall t
    → shown_at offset (instant_of offset t) ≡ t
unfolding shown_at instant_of
shown_at-instant_of (pos n) t d h = later-earlier n t d h
shown_at-instant_of (negsuc n) t d h = earlier-later (suc n) t d h
