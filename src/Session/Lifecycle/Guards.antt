-- ===== src/Session/Lifecycle/Guards.antt =====
-- What a failed reset leaves.
use obconnector_go.Common.{
  ◌≡◌, refl, inl, inr, Bool, true, false, ◌||◌, Option, arith, if◌then◌else◌, Bool-cases, Error,
  Outcome, ok, err, panic, stuck,
}
use obconnector_go.Common.State.{Method, after}
use obconnector_go.Common.Bytes.{Bytes, codes}
use obconnector_go.Protocol.Packet.Conn.{Zlib}
use obconnector_go.Session.Conn.{
  Conn, Context, check_usable_locked, mark_session_reset_error, reset_errors, marked_by,
}
use obconnector_go.Session.Errors.{is_bad_conn}
use obconnector_go.Session.Lifecycle.{
  exec_locked, configure_session_time_zone, rollback_active, reset_session,
}

-- Neither open nor trusted: closed, or marked bad.
abbrev pub unusable : Conn → Bool
unusable c = c.closed || c.bad

-- An error leaves the connection unusable.
abbrev pub Discards : {A : Type 0} → Outcome A × Conn → Type 0
Discards (err e, c) = unusable c ≡ true
Discards (ok a, c) = Unit
Discards (panic, c) = Unit
Discards (stuck, c) = Unit

module _ {A B : Type 0} where
  Discards-bind :
      (m : Outcome A × Conn) (f : A → Method Conn B)
      → Discards m
      → ((a : A) (c : Conn) → Discards (f a c))
      → Discards (after m.0 f m.1)
  Discards-bind (ok a, c) f h k = k a c
  Discards-bind (err e, c) f h k = h
  Discards-bind (panic, c) f h k = tt
  Discards-bind (stuck, c) f h k = tt

mark_session_reset_error-bad : (e : Error) (c : Conn) → (mark_session_reset_error e c).1.bad ≡ true
unfolding mark_session_reset_error
mark_session_reset_error-bad e c = elim (Bool-cases (is_bad_conn e)) [
  | inl b ↦ rw b refl
  | inr b ↦ rw b refl
]

bad→unusable : (c : Conn) → c.bad ≡ true → unusable c ≡ true
bad→unusable c h = ground arith

module _ {A : Type 0} where
  marked-Discards : (r : Outcome A × Conn) → Discards (marked_by mark_session_reset_error r)
  marked-Discards (ok a, c) = tt
  marked-Discards (err e, c) =
      bad→unusable (mark_session_reset_error e c).1 (mark_session_reset_error-bad e c)
  marked-Discards (panic, c) = tt
  marked-Discards (stuck, c) = tt

if-Discards :
    {A : Type 0} (t : Bool) (r s : Outcome A × Conn)
    → Discards r
    → Discards s
    → Discards (if t then r else s)
if-Discards true r s h k = h
if-Discards false r s h k = k

check_usable_locked-Discards : (c : Conn) → Discards (check_usable_locked c)
unfolding check_usable_locked
check_usable_locked-Discards c = elim (Bool-cases (unusable c)) [ inl e ↦ rw e e | inr e ↦ rw e tt ]

module _ (z : Zlib) (time_zone : Option Bytes) where
  rollback_active-Discards :
      (ctx : Context) (c : Conn) → Discards (rollback_active z time_zone ctx c)
  unfolding rollback_active
  rollback_active-Discards ctx c =
      if-Discards c.in_tx _ _
        (Discards-bind (reset_errors (exec_locked z time_zone ctx (codes "rollback")) c) _
          (marked-Discards (exec_locked z time_zone ctx (codes "rollback") c)) λ _ _. tt)
        tt

  -- A pooled connection that cannot be reset is not used again: where ResetSession answers with an
  -- error, whatever the server did, the connection is closed or marked bad afterwards, so that
  -- IsValid is false.
  pub reset_session-Discards :
      (ctx : Context) (c : Conn) → Discards (reset_session z time_zone ctx c)
  unfolding reset_session
  reset_session-Discards ctx c =
      Discards-bind (check_usable_locked c) _ (check_usable_locked-Discards c) λ _ c1.
        Discards-bind (rollback_active z time_zone ctx c1) _ (rollback_active-Discards ctx c1)
          λ _ c2. marked-Discards (configure_session_time_zone z time_zone ctx c2)
