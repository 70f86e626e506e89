-- ===== src/Session/Tests.antt =====
-- A connection over a stream that holds answers, and runs of the theorems on it.
use obconnector_go.Common.{◌≡◌, refl, true, false, none, [], ◌∷◌, eof, ok, some, ◌++◌}
use obconnector_go.Common.Bytes.{Bytes, codes}
use obconnector_go.Common.Int.{pos}
use obconnector_go.Protocol.Packet.Conn.{Zlib, new_packet_conn}
use obconnector_go.Protocol.Packet.Conn.{write, read_full}
use obconnector_go.Protocol.Packet.Read.{len_at, round, read_packet}
use obconnector_go.Protocol.Packet.Write.{write_chunk, write_packet}
use obconnector_go.Protocol.Packet.Read.Total.{ZlibAnswers, left}
use obconnector_go.Session.Results.Ends.{
  Ends, drain_remaining_results-Ends, read_query_result-Ends, read_result-Ends,
}
use obconnector_go.Session.Conn.{Conn, Context, retire}
use obconnector_go.Session.Results.{
  drain_remaining_results, read_query_result, read_result_from_first_packet,
}
use obconnector_go.Session.Results.Retires.{
  Retires, drain_remaining_results-Retires, read_query_result-Retires, read_result-Retires,
}
use obconnector_go.Session.Lifecycle.{reset_session, exec_locked}
use obconnector_go.Session.Lifecycle.Transactions.{Clears, EndedBy, reset_session-Clears}
use obconnector_go.Session.Lifecycle.Guards.{Discards, reset_session-Discards}

abbrev no_zlib : Zlib
no_zlib = record { inflate = λ p n. ok p; deflate = λ p. p }

abbrev conn_over : Bytes → Conn
conn_over incoming = record {
  packets = new_packet_conn incoming eof [];
  net_open = true;
  db = [];
  ob20_confirmed = false;
  ob20_declined = false;
  deprecate_eof = true;
  session_track = false;
  tenant_mode = codes "oracle";
  session_location = none;
  closed = false;
  bad = false;
  in_tx = true;
}

abbrev background : Context
background = record { deadline_error = none; ended = none }

-- An OK packet behind the request, one row changed.
abbrev ok_answer : Bytes
ok_answer = 7 ∷ 0 ∷ 0 ∷ 1 ∷ 0 ∷ 1 ∷ 0 ∷ 2 ∷ 0 ∷ 0 ∷ 0 ∷ []

executed :
    (exec_locked no_zlib none background (codes "delete from t") (conn_over ok_answer)).0
    ≡ ok (pos 1, pos 0)
unfolding exec_locked write_packet write_chunk write read_packet round read_full len_at
executed = refl

drain_remaining_results-Retires_example :
    Retires (drain_remaining_results no_zlib (conn_over ok_answer))
drain_remaining_results-Retires_example =
    drain_remaining_results-Retires no_zlib (conn_over ok_answer)

-- The stream breaks off.
read_query_result-Retires_example : Retires (read_query_result no_zlib (conn_over []))
read_query_result-Retires_example = read_query_result-Retires no_zlib (conn_over [])

read_result-Retires_example :
    Retires (read_result_from_first_packet no_zlib (2 ∷ []) (conn_over []))
read_result-Retires_example = read_result-Retires no_zlib (2 ∷ []) (conn_over [])

abbrev retired_conn : Conn
retired_conn = retire (conn_over ok_answer)

-- The rollback finds the end of the stream.
reset_session-Discards_example : Discards (reset_session no_zlib none background (conn_over []))
reset_session-Discards_example = reset_session-Discards no_zlib none background (conn_over [])

zlib_answers : ZlibAnswers no_zlib
zlib_answers p n = tt

-- An OK packet that says that another result follows, and that result.
abbrev two_answers : Bytes
two_answers =
    7 ∷ 0 ∷ 0 ∷ 0 ∷ 0 ∷ 1 ∷ 0 ∷ 10 ∷ 0 ∷ 0 ∷ 0 ∷ 7 ∷ 0 ∷ 0 ∷ 1 ∷ 0 ∷ 1 ∷ 0 ∷ 2 ∷ 0 ∷ 0 ∷ 0 ∷ []

both_drained : (drain_remaining_results no_zlib (conn_over two_answers)).0 ≡ ok tt
unfolding drain_remaining_results read_packet round read_full len_at
both_drained = refl

drain_remaining_results-Ends_example :
    Ends
      (left (conn_over two_answers).packets)
      (drain_remaining_results no_zlib (conn_over two_answers))
drain_remaining_results-Ends_example =
    drain_remaining_results-Ends no_zlib zlib_answers (conn_over two_answers)

none_left : (read_query_result no_zlib (conn_over two_answers)).1.packets.incoming ≡ []
unfolding read_query_result read_packet round read_full len_at
none_left = refl

read_query_result-Ends_example :
    Ends (left (conn_over two_answers).packets) (read_query_result no_zlib (conn_over two_answers))
read_query_result-Ends_example = read_query_result-Ends no_zlib zlib_answers (conn_over two_answers)

read_result-Ends_example :
    Ends
      (left (conn_over []).packets)
      (read_result_from_first_packet no_zlib (0 ∷ 1 ∷ 0 ∷ 2 ∷ 0 ∷ 0 ∷ 0 ∷ []) (conn_over []))
read_result-Ends_example =
    read_result-Ends no_zlib zlib_answers (0 ∷ 1 ∷ 0 ∷ 2 ∷ 0 ∷ 0 ∷ 0 ∷ []) (conn_over [])

-- An OK packet answers the rollback, and another one the setting of the time zone.
reset_session-Clears_example :
    Clears
      (EndedBy no_zlib (some (codes "+08:00")) background (conn_over (ok_answer ++ ok_answer)))
      (reset_session no_zlib
        (some (codes "+08:00"))
        background
        (conn_over (ok_answer ++ ok_answer)))
reset_session-Clears_example =
    reset_session-Clears no_zlib (some (codes "+08:00")) background
      (conn_over (ok_answer ++ ok_answer))
