-- ===== src/Session/Variables.antt =====
-- conn.go: the session variables in the tracking data of an OK packet.
pub mod Moves
use obconnector_go.Common.{
  ℕ, ◌+◌, ◌^◌, max, Option, none, some, ltb, leb, if◌then◌else◌, length, get_or, drop, slice,
  message, Outcome, ok, err, panic, ◌>>=◌,
}
use obconnector_go.Common.Bytes.{Bytes}
use obconnector_go.Protocol.Lenenc.{read_length_encoded_int, read_length_encoded_string}

-- One round of the loop of handleStateChange over `val` at pos2: the variable and the next pos2, or
-- an error for `break`. An end beyond the range of int wraps to a number below pos2, which is no end
-- of a slice.
unfoldable pub next_variable : Bytes → ℕ → Outcome (Bytes × Bytes × ℕ)
unfolding read_length_encoded_int read_length_encoded_string
next_variable val pos = do
  (var_len, used, _) ← read_length_encoded_int (drop pos val)
  let pos2 = pos + used
  let var_end = pos2 + var_len
  if leb (2 ^ 63) var_end
      then panic
      else if ltb (length val) var_end
      then err (message "break")
      else do
        (k, k_used, _) ← read_length_encoded_string (slice pos2 var_end val)
        (v, v_used, _) ← read_length_encoded_string (slice (pos2 + k_used) var_end val)
        ok (k, v, max (pos2 + k_used + v_used) var_end)

-- The type and the data of the entry of the session state changes at `pos`, and where it ends.
unfoldable pub next_change : Bytes → ℕ → Outcome (ℕ × Bytes × ℕ)
unfolding read_length_encoded_string
next_change bytes pos = do
  (val, used, _) ← read_length_encoded_string (drop (pos + 1) bytes)
  ok (get_or bytes pos 0, val, pos + 1 + used)

-- The two row counts of an OK packet and where they end.
unfoldable pub ok_counts : Bytes → Outcome (ℕ × ℕ × ℕ)
unfolding read_length_encoded_int
ok_counts packet = do
  (affected, used, _) ← read_length_encoded_int (drop 1 packet)
  (last_id, used2, _) ← read_length_encoded_int (drop (1 + used) packet)
  ok (affected, last_id, 1 + used + used2)

-- Where the info string behind the warnings ends: at `pos`, if it cannot be read.
unfoldable pub skip_info : Bytes → ℕ → ℕ
unfolding read_length_encoded_string
skip_info packet pos = elim (read_length_encoded_string (drop pos packet)) [
  | ok r ↦ pos + r.1
  | _ ↦ pos
]

-- The session state changes, if they can be read.
unfoldable pub track_data : Bytes → ℕ → Option Bytes
unfolding read_length_encoded_string
track_data packet pos = elim (read_length_encoded_string (drop pos packet)) [
  | ok r ↦ if ltb pos (length packet) then some (r.0) else none
  | _ ↦ none
]
