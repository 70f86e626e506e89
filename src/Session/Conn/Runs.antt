-- ===== src/Session/Conn/Runs.antt =====
-- An OK packet leaves the packets alone, and the loops over its tracking data come to an end.
use obconnector_go.Common.{
  ℕ, zero, suc, ◌+◌, ◌-◌, ◌<◌, ◌≡◌, ◌∙◌, inl, inr, Bool, true, false, ◌||◌, Option, none, some,
  arith, ltb, leb, ◌==◌, if◌then◌else◌, ltb→lt, Bool-cases, length, slice, Error, unexpected_eof,
  message, Outcome, ok, err, panic, stuck, Yields,
}
use obconnector_go.Common.State.{Method, check, after}
use obconnector_go.Common.Bytes.{Bytes, le_value}
use obconnector_go.Protocol.Packet.Conn.{PacketConn}
use obconnector_go.Session.Packets.{has_flag, server_session_state_changed, first_is}
use obconnector_go.Session.Variables.{next_variable, next_change, ok_counts, skip_info, track_data}
use obconnector_go.Session.Variables.Moves.{
  next_variable-moves, next_change-moves, ok_counts-Yields,
}
use obconnector_go.Session.Conn.{Conn}
use obconnector_go.Session.Conn.Ok.{
  track_variable, track_variables, apply_change, state_changes, handle_state_change, drop_error,
  track_changes, status_of, handle_ok,
}

-- Fuel does not run out, and the packets are the given ones.
abbrev pub Keeps : {A : Type 0} → PacketConn → Outcome A × Conn → Type 0
Keeps p (ok a, c) = c.packets ≡ p
Keeps p (err e, c) = c.packets ≡ p
Keeps p (panic, c) = Unit
Keeps p (stuck, c) = ⊥

module _ {A B : Type 0} where
  Keeps-bind :
      (p : PacketConn) (m : Outcome A × Conn) (f : A → Method Conn B)
      → Keeps p m
      → ((a : A) (c : Conn) → c.packets ≡ p → Keeps p (f a c))
      → Keeps p (after m.0 f m.1)
  Keeps-bind p (ok a, c) f h k = k a c h
  Keeps-bind p (err e, c) f h k = h
  Keeps-bind p (panic, c) f h k = tt
  Keeps-bind p (stuck, c) f h k = h

  -- The rule for a computation that the code runs on bytes alone.
  Keeps-lift :
      (P : A → Type 0) (p : PacketConn) (r : Outcome A) (c : Conn) (f : A → Method Conn B)
      → Yields P r
      → c.packets ≡ p
      → ((a : A) → P a → Keeps p (f a c))
      → Keeps p (after r f c)
  Keeps-lift P p (ok a) c f y h k = k a y
  Keeps-lift P p (err e) c f y h k = h
  Keeps-lift P p panic c f y h k = tt
  Keeps-lift P p stuck c f y h k = y

module _ {A : Type 0} where
  if-Keeps :
      (p : PacketConn) (t : Bool) (r s : Outcome A × Conn)
      → Keeps p r
      → Keeps p s
      → Keeps p (if t then r else s)
  if-Keeps p true r s h k = h
  if-Keeps p false r s h k = k

track_variable-packets : (k v : Bytes) (c : Conn) → (track_variable k v c).packets ≡ c.packets
unfolding track_variable
track_variable-packets k v c = ground arith

-- Where the loop over `val` goes on.
variable-Keeps :
    (p : PacketConn) (fuel i : ℕ) (val : Bytes) (c : Conn) (r : Outcome (Bytes × Bytes × ℕ))
    → Yields (λ r. i < r.2) r
    → c.packets ≡ p
    → ((k v : Bytes) (j : ℕ) → i < j → Keeps p (track_variables fuel val j (track_variable k v c)))
    → Keeps p (elim r as (λ _. Outcome (Unit {0}) × Conn) [
      | ok (k, v, j) ↦ track_variables fuel val j (track_variable k v c)
      | err e ↦ (ok tt, c)
      | panic ↦ (panic, c)
      | stuck ↦ (stuck, c)
    ])
variable-Keeps p fuel i val c (ok (k, v, j)) y h ih = ih k v j y
variable-Keeps p fuel i val c (err e) y h ih = h
variable-Keeps p fuel i val c panic y h ih = tt
variable-Keeps p fuel i val c stuck y h ih = y

track_variables-Keeps :
    (p : PacketConn) (fuel : ℕ) (val : Bytes) (i : ℕ) (c : Conn)
    → length val - i < fuel
    → c.packets ≡ p
    → Keeps p (track_variables fuel val i c)
unfolding track_variables
track_variables-Keeps p zero val i c l h = absurd (omega arith)
track_variables-Keeps p (suc fuel) val i c l h = elim (Bool-cases (ltb i (length val))) [
  | inl e ↦ rw e (
      variable-Keeps p fuel i val c (next_variable val i) (next_variable-moves val i) h λ k v j m.
        track_variables-Keeps p fuel val j (track_variable k v c)
          (omega (arith, ltb→lt i (length val) e)) (track_variable-packets k v c ∙ h))
  | inr e ↦ rw e h
]

apply_change-Keeps :
    (p : PacketConn) (typ : ℕ) (val : Bytes) (c : Conn)
    → c.packets ≡ p
    → Keeps p (apply_change typ val c)
unfolding apply_change
apply_change-Keeps p typ val c h =
    if-Keeps p (typ == 0x00 || typ == 0x26) _ _
      (track_variables-Keeps p (suc (length val)) val 0 c (omega arith) h)
      (if-Keeps p (typ == 0x01) _ _ h h)

state_changes-Keeps :
    (p : PacketConn) (fuel : ℕ) (bytes : Bytes) (i : ℕ) (c : Conn)
    → length bytes - i < fuel
    → c.packets ≡ p
    → Keeps p (state_changes fuel bytes i c)
unfolding state_changes
state_changes-Keeps p zero bytes i c l h = absurd (omega arith)
state_changes-Keeps p (suc fuel) bytes i c l h = elim (Bool-cases (ltb i (length bytes))) [
  | inl e ↦ rw e (
      Keeps-lift (λ r. i < r.2) p (next_change bytes i) c _ (next_change-moves bytes i) h
        λ r m. Keeps-bind p (apply_change r.0 r.1 c) _ (apply_change-Keeps p r.0 r.1 c h) λ _ c' h'.
          state_changes-Keeps p fuel bytes r.2 c' (omega (arith, ltb→lt i (length bytes) e)) h')
  | inr e ↦ rw e h
]

drop_error-Keeps :
    (p : PacketConn) (r : Outcome (Unit {0}) × Conn) → Keeps p r → Keeps p (drop_error r)
drop_error-Keeps p (ok a, c) h = h
drop_error-Keeps p (err e, c) h = h
drop_error-Keeps p (panic, c) h = h
drop_error-Keeps p (stuck, c) h = h

track_changes-Keeps :
    (p : PacketConn) (packet : Bytes) (i : ℕ) (c : Conn)
    → c.packets ≡ p
    → Keeps p (track_changes packet i c)
unfolding track_changes handle_state_change
track_changes-Keeps p packet i c h = with_data (track_data packet (skip_info packet i))
  where
    with_data :
        (o : Option Bytes)
        → Keeps {A = Unit {0}} p
            (elim o [ none ↦ (ok tt, c) | some bytes ↦ drop_error (handle_state_change bytes c) ])
    with_data none = h
    with_data (some bytes) =
        drop_error-Keeps p _ (state_changes-Keeps p (suc (length bytes)) bytes 0 c (omega arith) h)

module _ {A : Type 0} where
  choice-Keeps :
      (p : PacketConn) (t : Bool) (m n : Method Conn A) (c : Conn)
      → Keeps p (m c)
      → Keeps p (n c)
      → Keeps p ((if t then m else n) c)
  choice-Keeps p true m n c h k = h
  choice-Keeps p false m n c h k = k

check-Keeps :
    (p : PacketConn) (t : Bool) (e : Error) (c : Conn) → c.packets ≡ p → Keeps p (check t e c)
check-Keeps p true e c h = h
check-Keeps p false e c h = h

status_of-Keeps :
    (p : PacketConn) (packet : Bytes) (i : ℕ) (c : Conn)
    → c.packets ≡ p
    → Keeps p (status_of packet i c)
unfolding status_of
status_of-Keeps p packet i c h =
    choice-Keeps p (ltb i (length packet)) _ _ c
      (Keeps-bind p (check (leb (i + 4) (length packet)) unexpected_eof c) _
        (check-Keeps p (leb (i + 4) (length packet)) unexpected_eof c h)
        λ _ c1 h1.
          choice-Keeps p (has_flag (le_value (slice i (i + 2) packet)) server_session_state_changed)
            _ _ c1
            (Keeps-bind p (track_changes packet (i + 4) c1) _
              (track_changes-Keeps p packet (i + 4) c1 h1) λ _ _ h2. h2)
            h1)
      h

pub handle_ok-Keeps :
    (p : PacketConn) (packet : Bytes) (c : Conn) → c.packets ≡ p → Keeps p (handle_ok packet c)
unfolding handle_ok
handle_ok-Keeps p packet c h =
    Keeps-bind p (check (first_is 0x00 packet) (message "not an OK packet") c) _
      (check-Keeps p (first_is 0x00 packet) (message "not an OK packet") c h)
      λ _ c1 h1.
        Keeps-lift (λ r. Unit) p (ok_counts packet) c1 _ (ok_counts-Yields packet) h1
          λ r _.
            Keeps-bind p (status_of packet r.2 c1) _ (status_of-Keeps p packet r.2 c1 h1)
              λ _ _ h2. h2
