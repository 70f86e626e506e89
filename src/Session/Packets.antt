-- ===== src/Session/Packets.antt =====
-- rows.go: what kind a packet of a result set is, and column definitions.
pub mod Yields
use obconnector_go.Common.{
  ℕ, zero, suc, ◌+◌, bit_and, Bool, true, false, not, ◌&&◌, ◌||◌, [], ◌∷◌, ltb, leb, ◌==◌,
  if◌then◌else◌, length, get_or, drop, slice, Error, unexpected_eof, message, Outcome, ok, err,
  ◌>>=◌, ◌>>◌, guard,
}
use obconnector_go.Common.Bytes.{Bytes, le_value}
use obconnector_go.Protocol.Lenenc.{read_length_encoded_int, read_length_encoded_string}

abbrev pub server_session_state_changed : ℕ
server_session_state_changed = 0x4000

abbrev pub server_more_results_exists : ℕ
server_more_results_exists = 0x0008

-- The bytes that follow a length-encoded integer or string at `pos`: how many it takes.
unfoldable pub int_used : Bytes → ℕ → Outcome ℕ
unfolding read_length_encoded_int
int_used packet pos = do (_, used, _) ← read_length_encoded_int (drop pos packet); ok used

unfoldable pub string_used : Bytes → ℕ → Outcome ℕ
unfolding read_length_encoded_string
string_used packet pos = do (_, used, _) ← read_length_encoded_string (drop pos packet); ok used

abbrev pub has_flag : ℕ → ℕ → Bool
has_flag flags flag = not (bit_and flags flag == 0)

-- Any error stands for `return 0, false`.
abbrev pub no_status : Error
no_status = message "false"

-- The session track information behind the status flags.
unfoldable pub status_with_track : Bytes → ℕ → ℕ → Outcome ℕ
unfolding string_used
status_with_track packet status pos = do
  used ← string_used packet pos
  if has_flag status server_session_state_changed
      then (do
        used2 ← string_used packet (pos + used)
        if pos + used + used2 == length packet then ok status else err no_status)
      else if pos + used == length packet
      then ok status
      else err no_status

-- packetStatusFlags: the status flags, or an error for `0, false`.
unfoldable pub packet_status_flags : Bytes → ℕ → Bool → Outcome ℕ
unfolding int_used le_value status_with_track
packet_status_flags [] header session_track = err no_status
packet_status_flags (b ∷ rest) header session_track = do
  let packet = b ∷ rest
  guard (b == header) no_status
  used1 ← int_used packet 1
  used2 ← int_used packet (1 + used1)
  let pos = 1 + used1 + used2
  guard (leb (pos + 4) (length packet)) no_status
  let status = le_value (slice pos (pos + 2) packet)
  if pos + 4 == length packet || not session_track
      then ok status
      else status_with_track packet status (pos + 4)

abbrev pub is_ok {ℓ} : {A : Type ℓ} → Outcome A → Bool
is_ok (ok a) = true
is_ok _ = false

abbrev pub first_is : ℕ → Bytes → Bool
first_is header [] = false
first_is header (b ∷ rest) = b == header

abbrev pub is_err_packet : Bytes → Bool
is_err_packet packet = first_is 0xff packet

unfoldable pub is_eof_packet : Bytes → Bool
is_eof_packet packet = (length packet == 1 || length packet == 5) && first_is 0xfe packet

unfoldable pub is_ok_packet_with_header : Bytes → ℕ → Bool → Bool
unfolding packet_status_flags
is_ok_packet_with_header packet header session_track =
    is_ok (packet_status_flags packet header session_track)

unfoldable pub is_ok_packet : Bytes → Bool → Bool
unfolding is_ok_packet_with_header
is_ok_packet packet session_track = is_ok_packet_with_header packet 0x00 session_track

unfoldable pub is_result_set_ok_packet : Bytes → Bool → Bool
unfolding is_ok_packet_with_header
is_result_set_ok_packet packet session_track = is_ok_packet_with_header packet 0xfe session_track

unfoldable pub is_result_set_terminator_packet : Bytes → Bool → Bool
unfolding is_eof_packet is_result_set_ok_packet
is_result_set_terminator_packet packet session_track =
    is_eof_packet packet || is_result_set_ok_packet packet session_track

unfoldable pub is_result_set_terminator_for_mode : Bytes → Bool → Bool → Bool
unfolding is_eof_packet is_result_set_ok_packet
is_result_set_terminator_for_mode packet result_set_ok session_track =
    if result_set_ok then is_result_set_ok_packet packet session_track else is_eof_packet packet

unfoldable pub is_eof_or_ok : Bytes → Bool → Bool
unfolding is_ok_packet is_result_set_terminator_packet
is_eof_or_ok [] session_track = false
is_eof_or_ok (b ∷ rest) session_track =
    if b == 0xff
    then false
    else if b == 0x00
    then is_ok_packet (b ∷ rest) session_track
    else if b == 0xfe
    then is_result_set_terminator_packet (b ∷ rest) session_track
    else false

unfoldable pub result_set_terminator_has_more_results : Bytes → Bool → Bool
unfolding is_eof_packet packet_status_flags le_value
result_set_terminator_has_more_results packet session_track =
    if is_eof_packet packet
    then (if ltb (length packet) 5
        then false
        else has_flag (le_value (slice 3 5 packet)) server_more_results_exists)
    else elim (packet_status_flags packet 0xfe session_track) [
      | ok status ↦ has_flag status server_more_results_exists
      | _ ↦ false
    ]

pub record ColumnDef : Type 0 where
  pub name : Bytes
  pub typ : ℕ
  pub flags : ℕ
  pub decimals : ℕ
  pub column_length : ℕ
  pub charset : ℕ

-- The first four strings of a column definition: catalog, schema, table and original table.
unfoldable pub skip_strings : ℕ → Bytes → ℕ → Outcome ℕ
unfolding string_used
skip_strings zero packet pos = ok pos
skip_strings (suc n) packet pos = do
  used ← string_used packet pos
  skip_strings n packet (pos + used)

unfoldable pub parse_column_definition : Bytes → Outcome ColumnDef
unfolding skip_strings read_length_encoded_string string_used le_value
parse_column_definition packet = do
  pos ← skip_strings 4 packet 0
  (name_bytes, used, _) ← read_length_encoded_string (drop pos packet)
  used2 ← string_used packet (pos + used)
  let pos2 = pos + used + used2
  guard (leb (pos2 + 13) (length packet)) unexpected_eof
  ok record {
    name = name_bytes;
    charset = le_value (slice (pos2 + 1) (pos2 + 3) packet);
    column_length = le_value (slice (pos2 + 3) (pos2 + 7) packet);
    typ = get_or packet (pos2 + 7) 0;
    flags = le_value (slice (pos2 + 8) (pos2 + 10) packet);
    decimals = get_or packet (pos2 + 10) 0;
  }
