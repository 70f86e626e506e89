-- ===== src/Session/Conn/Untouched.antt =====
-- The OK packet and its tracking data leave the transaction flag of the connection alone.
use obconnector_go.Common.{
  ℕ, zero, suc, ◌+◌, ◌≡◌, refl, ◌∙◌, Bool, true, false, ◌||◌, Option, none, some, arith, ltb, leb,
  ◌==◌, if◌then◌else◌, length, slice, Error, unexpected_eof, message, Outcome, ok, err, panic,
  stuck,
}
use obconnector_go.Common.State.{Method, check, after, ◌>>=◌}
use obconnector_go.Common.Bytes.{Bytes, le_value}
use obconnector_go.Session.Variables.{next_variable, next_change, ok_counts, skip_info, track_data}
use obconnector_go.Session.Packets.{has_flag, server_session_state_changed, first_is}
use obconnector_go.Session.Conn.{Conn, mark_protocol_error, marked_by, protocol}
use obconnector_go.Session.Conn.Ok.{
  track_variable, track_variables, apply_change, state_changes, handle_state_change, drop_error,
  track_changes, status_of, handle_ok,
}

-- Whatever the method answers, the transaction flag is b afterwards if it was before.
abbrev pub Untouched : {A : Type 0} → Method Conn A → Type 0
Untouched m = (b : Bool) (c : Conn) → c.in_tx ≡ b → (m c).1.in_tx ≡ b

module _ {A B : Type 0} where
  after-Untouched :
      (r : Outcome A) (f : A → Method Conn B) → ((a : A) → Untouched (f a)) → Untouched (after r f)
  after-Untouched (ok a) f k b c h = k a b c h
  after-Untouched (err e) f k b c h = h
  after-Untouched panic f k b c h = h
  after-Untouched stuck f k b c h = h

  pub bind-Untouched :
      (m : Method Conn A) (f : A → Method Conn B)
      → Untouched m
      → ((a : A) → Untouched (f a))
      → Untouched (m >>= f)
  bind-Untouched m f h k b c e = after-Untouched (m c).0 f k b (m c).1 (h b c e)

pub mark-Untouched : (e : Error) (c : Conn) → (mark_protocol_error e c).1.in_tx ≡ c.in_tx
unfolding mark_protocol_error
mark-Untouched e c = ground arith

module _ {A : Type 0} where
  marked-Untouched :
      (r : Outcome A) (c : Conn) → (marked_by mark_protocol_error (r, c)).1.in_tx ≡ c.in_tx
  marked-Untouched (ok a) c = refl
  marked-Untouched (err e) c = mark-Untouched e c
  marked-Untouched panic c = refl
  marked-Untouched stuck c = refl

  pub protocol-Untouched : (m : Method Conn A) → Untouched m → Untouched (protocol m)
  protocol-Untouched m h b c e = marked-Untouched (m c).0 (m c).1 ∙ h b c e

  pub choice-Untouched :
      (t : Bool) (m n : Method Conn A) → Untouched m → Untouched n → Untouched (if t then m else n)
  choice-Untouched true m n h k = h
  choice-Untouched false m n h k = k

  pub if-Untouched :
      (t : Bool) (r s : Outcome A × Conn) (b : Bool)
      → r.1.in_tx ≡ b
      → s.1.in_tx ≡ b
      → (if t then r else s).1.in_tx ≡ b
  if-Untouched true r s b h k = h
  if-Untouched false r s b h k = k

pub check-Untouched : (t : Bool) (e : Error) → Untouched (check t e)
check-Untouched true e b c h = h
check-Untouched false e b c h = h

track_variable-Untouched : (k v : Bytes) (c : Conn) → (track_variable k v c).in_tx ≡ c.in_tx
unfolding track_variable
track_variable-Untouched k v c = ground arith

variable-Untouched :
    (fuel : ℕ) (val : Bytes) (b : Bool) (c : Conn) (r : Outcome (Bytes × Bytes × ℕ))
    → c.in_tx ≡ b
    → ((j : ℕ) → Untouched (track_variables fuel val j))
    → (elim r as (λ _. Outcome (Unit {0}) × Conn) [
      | ok (k, v, j) ↦ track_variables fuel val j (track_variable k v c)
      | err e ↦ (ok tt, c)
      | panic ↦ (panic, c)
      | stuck ↦ (stuck, c)
    ]).1.in_tx
      ≡ b
variable-Untouched fuel val b c (ok (k, v, j)) h ih =
    ih j b (track_variable k v c) (track_variable-Untouched k v c ∙ h)
variable-Untouched fuel val b c (err e) h ih = h
variable-Untouched fuel val b c panic h ih = h
variable-Untouched fuel val b c stuck h ih = h

track_variables-Untouched :
    (fuel : ℕ) (val : Bytes) (i : ℕ) → Untouched (track_variables fuel val i)
unfolding track_variables
track_variables-Untouched zero val i b c h = h
track_variables-Untouched (suc fuel) val i b c h =
    if-Untouched (ltb i (length val)) _ _ b
      (variable-Untouched fuel val b c (next_variable val i) h (track_variables-Untouched fuel val))
      h

apply_change-Untouched : (typ : ℕ) (val : Bytes) → Untouched (apply_change typ val)
unfolding apply_change
apply_change-Untouched typ val b c h =
    if-Untouched (typ == 0x00 || typ == 0x26) _ _ b
      (track_variables-Untouched (suc (length val)) val 0 b c h)
      (if-Untouched (typ == 0x01) _ _ b h h)

state_changes-Untouched :
    (fuel : ℕ) (bytes : Bytes) (i : ℕ) → Untouched (state_changes fuel bytes i)
unfolding state_changes
state_changes-Untouched zero bytes i b c h = h
state_changes-Untouched (suc fuel) bytes i b c h =
    if-Untouched (ltb i (length bytes)) _ _ b
      (after-Untouched (next_change bytes i) _
        (λ r.
          bind-Untouched (apply_change r.0 r.1) (λ _. state_changes fuel bytes r.2)
            (apply_change-Untouched r.0 r.1) λ _. state_changes-Untouched fuel bytes r.2)
        b c h)
      h

drop_error-Untouched : (r : Outcome (Unit {0})) (c : Conn) → (drop_error (r, c)).1.in_tx ≡ c.in_tx
drop_error-Untouched (ok a) c = refl
drop_error-Untouched (err e) c = refl
drop_error-Untouched panic c = refl
drop_error-Untouched stuck c = refl

track_changes-Untouched : (packet : Bytes) (i : ℕ) → Untouched (track_changes packet i)
unfolding track_changes handle_state_change
track_changes-Untouched packet i b c h = with_data (track_data packet (skip_info packet i))
  where
    with_data :
        (o : Option Bytes)
        → (elim o as (λ _. Outcome (Unit {0}) × Conn) [
          | none ↦ (ok tt, c)
          | some bytes ↦ drop_error (handle_state_change bytes c)
        ]).1.in_tx
          ≡ b
    with_data none = h
    with_data (some bytes) =
        drop_error-Untouched _ _ ∙ state_changes-Untouched (suc (length bytes)) bytes 0 b c h

status_of-Untouched : (packet : Bytes) (i : ℕ) → Untouched (status_of packet i)
unfolding status_of
status_of-Untouched packet i =
    choice-Untouched (ltb i (length packet)) _ _
      (bind-Untouched (check (leb (i + 4) (length packet)) unexpected_eof) _
        (check-Untouched (leb (i + 4) (length packet)) unexpected_eof)
        λ _.
          choice-Untouched
            (has_flag (le_value (slice i (i + 2) packet)) server_session_state_changed) _ _
            (bind-Untouched (track_changes packet (i + 4)) _
              (track_changes-Untouched packet (i + 4)) λ _ b c h. h)
            λ b c h. h)
      λ b c h. h

pub handle_ok-Untouched : (packet : Bytes) → Untouched (handle_ok packet)
unfolding handle_ok
handle_ok-Untouched packet =
    bind-Untouched (check (first_is 0x00 packet) (message "not an OK packet")) _
      (check-Untouched (first_is 0x00 packet) (message "not an OK packet"))
      λ _ b c h.
        after-Untouched (ok_counts packet) _
          (λ r.
            bind-Untouched (status_of packet r.2) _ (status_of-Untouched packet r.2) λ _ b c h. h)
          b c h
