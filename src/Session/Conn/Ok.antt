-- ===== src/Session/Conn/Ok.antt =====
-- conn.go: handleOK and handleStateChange.
use obconnector_go.Common.{
  ℕ, zero, suc, ◌+◌, ◌-◌, ◌*◌, ◌^◌, true, ◌||◌, none, some, [], ◌∷◌, ltb, leb, ◌==◌, if◌then◌else◌,
  length, slice, unexpected_eof, message, Outcome, ok, err, panic, stuck,
}
use obconnector_go.Common.State.{Method, return, lift, check, ◌>>=◌, ◌>>◌}
use obconnector_go.Common.Bytes.{Bytes, codes, beq_bytes, le_value}
use obconnector_go.Common.Int.{ℤ, signed}
use obconnector_go.Session.Conn.{Conn}
use obconnector_go.Session.Variables.{next_variable, next_change, ok_counts, skip_info, track_data}
use obconnector_go.Session.Packets.{has_flag, server_session_state_changed, first_is}

-- `strconv.ParseUint(s, 10, 64)` without its error: 0 for a text that is no number, and 2^64 - 1
-- for one that is too large.
unfoldable pub parse_uint_from : ℕ → Bytes → ℕ
parse_uint_from n [] = n
parse_uint_from n (c ∷ cs) =
    let m = 10 * n + (c - 48) in
    let rest = parse_uint_from m cs in
    if ltb c 48 || ltb 57 c then 0 else if leb (2 ^ 64) m then 2 ^ 64 - 1 else rest

abbrev pub ob_cap_protocol_v2 : ℕ
ob_cap_protocol_v2 = 0x100

-- A session variable that the server reports.
unfoldable pub track_variable : Bytes → Bytes → Conn → Conn
unfolding beq_bytes parse_uint_from
track_variable k v c =
    if beq_bytes k (codes "ob_capability_flag") || beq_bytes k (codes "__proxy_capability_flag")
    then (if has_flag (parse_uint_from 0 v) ob_cap_protocol_v2
        then record c { ob20_confirmed = true }
        else record c { ob20_declined = true })
    else c

-- The loop over `val`; every round moves pos2 on, so that the fuel suffices.
unfoldable pub track_variables : ℕ → Bytes → ℕ → Method Conn (Unit {0})
unfolding next_variable track_variable
track_variables zero val pos2 c = (stuck, c)
track_variables (suc fuel) val pos2 c =
    if ltb pos2 (length val)
    then elim (next_variable val pos2) as (λ _. Outcome (Unit {0}) × Conn) [
      | ok (k, v, pos) ↦ track_variables fuel val pos (track_variable k v c)
      | err e ↦ (ok tt, c)
      | panic ↦ (panic, c)
      | stuck ↦ (stuck, c)
    ]
    else (ok tt, c)

unfoldable pub apply_change : ℕ → Bytes → Method Conn (Unit {0})
unfolding track_variables
apply_change typ val c =
    if typ == 0x00 || typ == 0x26
    then track_variables (suc (length val)) val 0 c
    else if typ == 0x01
    then (ok tt, record c { db = val })
    else (ok tt, c)

unfoldable pub state_changes : ℕ → Bytes → ℕ → Method Conn (Unit {0})
unfolding next_change apply_change
state_changes zero bytes pos c = (stuck, c)
state_changes (suc fuel) bytes pos c =
    if ltb pos (length bytes)
    then (do
      (typ, val, pos') ← lift (next_change bytes pos)
      apply_change typ val >> state_changes fuel bytes pos')
        c
    else (ok tt, c)

unfoldable pub handle_state_change : Bytes → Method Conn (Unit {0})
unfolding state_changes
handle_state_change bytes c = state_changes (suc (length bytes)) bytes 0 c

-- An error of handleStateChange is traced and dropped.
abbrev pub drop_error : Outcome (Unit {0}) × Conn → Outcome (Unit {0}) × Conn
drop_error (err e, c) = (ok tt, c)
drop_error r = r

unfoldable pub track_changes : Bytes → ℕ → Method Conn (Unit {0})
unfolding skip_info track_data handle_state_change
track_changes packet pos c = elim (track_data packet (skip_info packet pos)) [
  | none ↦ (ok tt, c)
  | some bytes ↦ drop_error (handle_state_change bytes c)
]

unfoldable pub status_of : Bytes → ℕ → Method Conn ℕ
unfolding le_value track_changes
status_of packet pos =
    if ltb pos (length packet)
    then (check (leb (pos + 4) (length packet)) unexpected_eof
        >> (let status = le_value (slice pos (pos + 2) packet) in
            if has_flag status server_session_state_changed
            then track_changes packet (pos + 4) >> return status
            else return status))
    else return 0

-- AffectedRows and LastInsertId of the result, and the status flags.
unfoldable pub handle_ok : Bytes → Method Conn ((ℤ × ℤ) × ℕ)
unfolding ok_counts status_of
handle_ok packet = check (first_is 0x00 packet) (message "not an OK packet") >> (do
  (affected, last_id, pos) ← lift (ok_counts packet)
  status ← status_of packet pos
  return ((signed 64 affected, signed 64 last_id), status))
