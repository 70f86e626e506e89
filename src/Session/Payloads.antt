-- ===== src/Session/Payloads.antt =====
-- conn_stmt.go: the arguments of a prepared statement, and the payloads that carry them.
pub mod Layout
use obconnector_go.Common.{
  ℕ, zero, suc, ◌+◌, ◌-◌, ◌*◌, ◌/◌, ◌%◌, ◌^◌, ◌≤◌, ◌<◌, min, max, bit_and, bit_or, bit_xor, String,
  ◌≡◌, refl, sym, ap, ap₂, ◌∙◌, subst, ◌≢◌, ◌↔◌, ◌⊎◌, inl, inr, Bool, true, false, not, ◌&&◌, ◌||◌,
  Option, none, some, List, [], ◌∷◌, ◌++◌, map, reverse, append-nil, append_assoc, arith, ltb, leb,
  ◌==◌, if◌then◌else◌, ltb→lt, lt→ltb, ltb-false, ltb-false→le, leb→le, le→leb, leb-false,
  leb-false→lt, ==_refl, ==_iff, tests, Bool-cases, Option-cases, length, get_or, take, drop,
  replicate, All, slice, length-append, length-take, length-drop, take-append-drop, take_all,
  drop_all, take-append, drop-append, All-append, Error, eof, unexpected_eof, bad_conn, net_error,
  malformed_length_encoded_integer, seq_error, server_error, message, wrap, wrap_two, Outcome, ok,
  err, panic, stuck, ◌>>=◌, ◌>>◌, guard, guard-ok, >>-ok, Answers, >>=-eq-ok, Answers-bind,
  Answers-cases, Yields, Yields-bind, if-Yields,
}
use obconnector_go.Common.Bytes.{Bytes, le_bytes}
use obconnector_go.Common.Bitmaps.{set_bit}
use obconnector_go.Protocol.Binary.Values.{get_binary_param_type, append_binary_param}
use obconnector_go.Sql.Params.{Value, nil, other, NamedValue}

-- An argument of a statement: a value, or an sql.Out whose destination points to the value.
pub data Argument : Type 0 where
  in_param : Value → Argument
  out_param : Value → Argument

-- `unwrapOutParam(arg.Value)`
abbrev pub unwrap_out_param : Argument → Value
unwrap_out_param (in_param v) = v
unwrap_out_param (out_param v) = v

-- The driver.NamedValue with the ordinal i + 1: an sql.Out is a value of another type.
abbrev pub named : ℕ → Argument → NamedValue
named i (in_param v) = record { name = []; ordinal = suc i; value = v }
named i (out_param v) = record { name = []; ordinal = suc i; value = other }

abbrev pub named_from : ℕ → List Argument → List NamedValue
named_from i [] = []
named_from i (a ∷ args) = named i a ∷ named_from (suc i) args

abbrev pub is_null : Value → Bool
is_null nil = true
is_null v = false

-- The variables of the loop of writeExecute: nullBitmap, paramTypes and paramValues.
pub record Parameters : Type 0 where
  pub null_bitmap : Bytes
  pub param_types : Bytes
  pub param_values : Bytes

-- The loop over the arguments from the one at i on; the types are written in order.
unfoldable pub write_params : ℕ → List Value → Parameters → Outcome Parameters
unfolding set_bit append_binary_param get_binary_param_type
write_params i [] p = ok p
write_params i (v ∷ vs) p = do
  values ← append_binary_param p.param_values (get_binary_param_type v) v
  write_params (suc i) vs record {
    null_bitmap = if is_null v then set_bit p.null_bitmap i else p.null_bitmap;
    param_types = p.param_types ++ get_binary_param_type v ∷ 0 ∷ [];
    param_values = values;
  }

abbrev pub no_params : ℕ → Parameters
no_params n = record {
  null_bitmap = replicate ((n + 7) / 8) 0;
  param_types = [];
  param_values = [];
}

-- The payload of COM_STMT_EXECUTE.
unfoldable pub execute_payload : ℕ → List Value → Outcome Bytes
unfolding write_params le_bytes
execute_payload stmt_id vs =
    let head = 0x17 ∷ le_bytes 4 stmt_id ++ 0 ∷ le_bytes 4 1 in
    if length vs == 0 then ok head else do
      p ← write_params 0 vs (no_params (length vs))
      ok (head ++ p.null_bitmap ++ 1 ∷ p.param_types ++ p.param_values)

-- The payload of COM_STMT_BULK_EXECUTE.
unfoldable pub bulk_values : List Value → Bytes → Outcome Bytes
unfolding append_binary_param get_binary_param_type
bulk_values [] payload = ok payload
bulk_values (v ∷ vs) payload = if is_null v then bulk_values vs (payload ++ 1 ∷ []) else do
  payload' ← append_binary_param (payload ++ 0 ∷ []) (get_binary_param_type v) v
  bulk_values vs payload'

unfoldable pub bulk_rows : List (List Value) → Bytes → Outcome Bytes
unfolding bulk_values
bulk_rows [] payload = ok payload
bulk_rows (row ∷ rows) payload = do payload' ← bulk_values row payload; bulk_rows rows payload'

abbrev pub bulk_types : List Value → Bytes
bulk_types [] = []
bulk_types (v ∷ vs) = get_binary_param_type v ∷ 0 ∷ bulk_types vs

abbrev pub first_row : List (List Value) → List Value
first_row [] = []
first_row (row ∷ rows) = row

unfoldable pub bulk_payload : ℕ → List (List Value) → Outcome Bytes
unfolding bulk_rows le_bytes get_binary_param_type
bulk_payload stmt_id rows =
    bulk_rows rows (0xfa ∷ le_bytes 4 stmt_id ++ 0x80 ∷ 0 ∷ bulk_types (first_row rows))
