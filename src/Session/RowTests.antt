-- ===== src/Session/RowTests.antt =====
-- Tests of rows and of statements, and the witnesses of the theorems about them.
use obconnector_go.Common.{
  ℕ, ◌+◌, ◌/◌, ◌^◌, ◌<◌, String, ◌≡◌, refl, inl, inr, true, false, Option, none, some, List, [],
  ◌∷◌, ◌++◌, map, arith, length, replicate, eof, ok, panic,
}
use obconnector_go.Common.Bytes.{Bytes, codes, le_bytes}
use obconnector_go.Common.Bitmaps.{bitmap}
use obconnector_go.Common.Int.{pos, neg_ℕ}
use obconnector_go.Protocol.Packet.Conn.{Zlib, new_packet_conn, read_full}
use obconnector_go.Protocol.Packet.Read.{read_packet, round, len_at}
use obconnector_go.Protocol.Packet.Read.Total.{ZlibAnswers}
use obconnector_go.Protocol.Calendar.{Time}
use obconnector_go.Protocol.Binary.Values.{type_long_long, type_var_string}
use obconnector_go.Protocol.Binary.Values.Rows.{body}
use obconnector_go.Sql.Params.{nil, int64, bool, format_int}
use obconnector_go.Session.Packets.{ColumnDef}
use obconnector_go.Session.Conn.{Conn}
use obconnector_go.Session.TextRow.{parse_text_row_in_location, database_type_name}
use obconnector_go.Session.TextRow.RoundTrip.{
  Column, text_packet, parse_text_row-text_packet, integer-Reads,
}
use obconnector_go.Session.Rows.{Reading, next_row, close_rows}
use obconnector_go.Session.Rows.Locking.{
  Open, Closed, Finishes, read_all, read_all-Finishes, close_rows-Closed,
}
use obconnector_go.Session.Payloads.{is_null, execute_payload, bulk_types}
use obconnector_go.Session.Payloads.Layout.{execute_payload-layout}
use obconnector_go.Session.Greeting.{parse_handshake}
use obconnector_go.Session.Requests.{query_context}
use obconnector_go.Session.Requests.Handing.{HandsOver, query_context-HandsOver}

abbrev no_zlib : Zlib
no_zlib = record { inflate = λ p n. ok p; deflate = λ p. p }

zlib_answers : ZlibAnswers no_zlib
zlib_answers = λ p n. tt

-- strconv.ParseFloat and time.ParseInLocation that know nothing.
abbrev no_float : Bytes → Option ℕ
no_float s = none

abbrev no_time : String → Bytes → Option Time
no_time layout s = none

abbrev number_column : ColumnDef
number_column = record {
  name = codes "n";
  typ = type_long_long;
  flags = 1;
  decimals = 0;
  column_length = 20;
  charset = 63;
}

-- A row with the text 42, and the EOF packet.
abbrev stream : Bytes
stream = 3 ∷ 0 ∷ 0 ∷ 0 ∷ 2 ∷ 52 ∷ 50 ∷ 5 ∷ 0 ∷ 0 ∷ 1 ∷ 254 ∷ 0 ∷ 0 ∷ 2 ∷ 0 ∷ []

abbrev streaming_conn : Conn
streaming_conn = record {
  packets = new_packet_conn stream eof [];
  net_open = true;
  db = [];
  ob20_confirmed = false;
  ob20_declined = false;
  deprecate_eof = false;
  session_track = false;
  tenant_mode = codes "oracle";
  session_location = none;
  closed = false;
  bad = false;
  in_tx = false;
}

abbrev reading : Reading
reading = record {
  rows = record {
    col_defs = number_column ∷ [];
    streaming = true;
    result_set_ok = false;
    rows_session_track = false;
    rows_location = none;
    done = false;
  };
  binary = false;
  values = [];
  index = 0;
  rows_closed = false;
  release = true;
  conn = streaming_conn;
  locked = true;
}

reading-Open : Open reading
reading-Open = record { streams = refl; not_done = refl; holds = refl; is_locked = refl }

first_value : (next_row no_zlib no_float no_time (nil ∷ []) reading).0 ≡ ok (int64 (pos 42) ∷ [])
unfolding next_row read_packet round read_full len_at
first_value = refl

read_all-Finishes_example :
    Finishes no_zlib zlib_answers no_float no_time
      (read_all no_zlib zlib_answers no_float no_time 17 (nil ∷ []) reading)
read_all-Finishes_example =
    read_all-Finishes no_zlib zlib_answers no_float no_time 17 (nil ∷ []) reading reading-Open
      (omega arith)

close_rows-Closed_example : Closed (close_rows no_zlib reading)
close_rows-Closed_example = close_rows-Closed no_zlib zlib_answers reading reading-Open refl

abbrev two_columns : List Column
two_columns =
    record { typ = type_long_long; raw = some (format_int (neg_ℕ 12)); value = int64 (neg_ℕ 12) }
    ∷ record { typ = type_var_string; raw = none; value = nil }
    ∷ []

short_text : length (format_int (neg_ℕ 12)) < 2 ^ 64
unfolding format_int
short_text = omega arith

parse_text_row-text_packet_example :
    parse_text_row_in_location no_float no_time
      (text_packet two_columns)
      2
      (type_long_long ∷ type_var_string ∷ [])
      none
    ≡ ok (int64 (neg_ℕ 12) ∷ nil ∷ [])
parse_text_row-text_packet_example = parse_text_row-text_packet no_float no_time none two_columns (
  (short_text, integer-Reads no_float no_time none (neg_ℕ 12) (omega arith) (omega arith)),
  (refl, tt),
)

named_type :
    (database_type_name 0xce ≡ codes "NUMBER") × (database_type_name 0x1f ≡ codes "TYPE_1F")
unfolding database_type_name
named_type = (refl, refl)

execute_payload-layout_example :
    execute_payload 5 (nil ∷ bool true ∷ [])
    ≡ ok (
        (0x17 ∷ le_bytes 4 5 ++ 0 ∷ le_bytes 4 1)
        ++ bitmap ((length (nil ∷ bool true ∷ []) + 7) / 8) (map is_null (nil ∷ bool true ∷ []))
        ++ 1 ∷ bulk_types (nil ∷ bool true ∷ [])
        ++ body (nil ∷ bool true ∷ []))
execute_payload-layout_example =
    execute_payload-layout 5 nil (bool true ∷ []) (inl refl, (inr tt, tt))

-- A greeting of 34 bytes whose version leaves no room for the capabilities.
cut_greeting : parse_handshake (10 ∷ replicate 19 53 ++ 0 ∷ replicate 13 1) [] ≡ panic
unfolding parse_handshake
cut_greeting = refl

query_context-HandsOver_example : HandsOver (
    query_context no_zlib none
      (λ _. [])
      (λ _. [])
      (record { deadline_error = none; ended = none })
      (record { partition_id = none; trace_id = none; span_id = none })
      (codes "select ?")
      (record { name = []; ordinal = 1; value = int64 (pos 7) } ∷ [])
      (record { conn = streaming_conn; locked = false }))
query_context-HandsOver_example =
    query_context-HandsOver no_zlib zlib_answers none (λ _. []) (λ _. [])
      (record { deadline_error = none; ended = none })
      (record { partition_id = none; trace_id = none; span_id = none }) (codes "select ?")
      (record { name = []; ordinal = 1; value = int64 (pos 7) } ∷ []) streaming_conn
