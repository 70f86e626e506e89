-- ===== src/Session/Payloads/Layout.antt =====
-- The payload of COM_STMT_EXECUTE against its layout.
use obconnector_go.Common.{
  ℕ, suc, ◌+◌, ◌*◌, ◌/◌, ◌%◌, ◌^◌, ◌≤◌, ◌<◌, ◌≡◌, refl, sym, ap, ◌∙◌, inl, inr, Bool, true, false,
  not, List, [], ◌∷◌, ◌++◌, map, append-nil, append_assoc, arith, ◌==◌, if◌then◌else◌, Bool-cases,
  length, All, length-append, ok,
}
use obconnector_go.Common.Bytes.{Bytes, le_bytes}
use obconnector_go.Common.Bitmaps.{
  of_bits, bitmap, of_bits-lt, of_bits-append, le_bytes-zero, set_bit, set_bit-le_bytes,
}
use obconnector_go.Protocol.Lenenc.RoundTrip.{put_length_encoded_string-append}
use obconnector_go.Protocol.Calendar.{Moment}
use obconnector_go.Protocol.Binary.{append_binary_time, is_zero, no_clock, date_bytes, clock_bytes}
use obconnector_go.Protocol.Binary.Values.{get_binary_param_type, append_binary_param}
use obconnector_go.Protocol.Binary.Values.Rows.{IsColumn, value_bytes, body}
use obconnector_go.Sql.Params.{Value, nil, int64, float64, bool, byte_slice, string, time, other}
use obconnector_go.Session.Payloads.{
  is_null, Parameters, write_params, no_params, execute_payload, bulk_types,
}

three-append : (a b c d : Bytes) → ((a ++ b) ++ c) ++ d ≡ a ++ ((b ++ c) ++ d)
three-append a b c d = ap (λ t. t ++ d) (append_assoc a b c) ∙ append_assoc a (b ++ c) d

time-append : (buf : Bytes) (t : Moment) → append_binary_time buf t ≡ buf ++ append_binary_time [] t
unfolding append_binary_time
time-append buf t = elim (Bool-cases (is_zero t)) [
  | inl e ↦ rw e refl
  | inr e ↦ elim (Bool-cases (not (t.wall.nsec == 0))) [
    | inl f ↦
        rw (e, f)
          (three-append buf (11 ∷ date_bytes t.wall) (clock_bytes t.wall)
            (le_bytes 4 (t.wall.nsec / 1000 % 2 ^ 32)))
    | inr f ↦ elim (Bool-cases (not (no_clock t.wall))) [
      | inl g ↦ rw (e, f, g) (append_assoc buf (7 ∷ date_bytes t.wall) (clock_bytes t.wall))
      | inr g ↦ rw (e, f, g) refl
    ]
  ]
]

-- Appending to a buffer is appending behind it.
param-append :
    (buf : Bytes) (v : Value)
    → IsColumn v
    → append_binary_param buf (get_binary_param_type v) v ≡ ok (buf ++ value_bytes v)
unfolding append_binary_param value_bytes get_binary_param_type
param-append buf nil h = ap ok (sym (append-nil buf))
param-append buf (int64 v) h = refl
param-append buf (float64 v) h = refl
param-append buf (bool v) h = refl
param-append buf (byte_slice s) h = ap ok (put_length_encoded_string-append buf s)
param-append buf (string s) h = ap ok (put_length_encoded_string-append buf s)
param-append buf (time t) h = ap ok (time-append buf t)
param-append buf other (inl e) = cc
param-append buf other (inr h) = absurd h

-- One more bit of the bitmap.
bit-step :
    (m : ℕ) (bs : List Bool) (v : Value)
    → length bs < 8 * m
    → (if is_null v then set_bit (bitmap m bs) (length bs) else bitmap m bs)
      ≡ bitmap m (bs ++ is_null v ∷ [])
bit-step m bs v h = go (is_null v)
  where
    go :
        (b : Bool)
        → (if b then set_bit (bitmap m bs) (length bs) else bitmap m bs) ≡ bitmap m (bs ++ b ∷ [])
    go true =
        set_bit-le_bytes m (of_bits bs) (length bs) h (of_bits-lt bs)
        ∙ ap (le_bytes m) (omega (arith, of_bits-append bs true))
    go false = ap (le_bytes m) (omega (arith, of_bits-append bs false))

-- What the loop has written, from `bs` on.
abbrev parameters : ℕ → List Bool → Bytes → Bytes → Parameters
parameters m bs types values = record {
  null_bitmap = bitmap m bs;
  param_types = types;
  param_values = values;
}

regroup :
    (m : ℕ) (bs : List Bool) (types values : Bytes) (v : Value) (vs : List Value)
    → parameters m
        ((bs ++ is_null v ∷ []) ++ map is_null vs)
        ((types ++ get_binary_param_type v ∷ 0 ∷ []) ++ bulk_types vs)
        ((values ++ value_bytes v) ++ body vs)
      ≡ parameters m
          (bs ++ map is_null (v ∷ vs))
          (types ++ bulk_types (v ∷ vs))
          (values ++ body (v ∷ vs))
regroup m bs types values v vs =
    rw
      (
        append_assoc bs (is_null v ∷ []) (map is_null vs),
        append_assoc types (get_binary_param_type v ∷ 0 ∷ []) (bulk_types vs),
        append_assoc values (value_bytes v) (body vs),
      )
      refl

written :
    (m : ℕ) (bs : List Bool) (types values : Bytes) (vs : List Value)
    → All IsColumn vs
    → length bs + length vs ≤ 8 * m
    → write_params (length bs) vs (parameters m bs types values)
      ≡ ok (parameters m (bs ++ map is_null vs) (types ++ bulk_types vs) (values ++ body vs))
unfolding write_params
written m bs types values [] h l = rw (append-nil bs, append-nil types, append-nil values) refl
written m bs types values (v ∷ vs) (c, h) l =
    let b = is_null v in
    let t = get_binary_param_type v ∷ 0 ∷ [] in
    let longer : suc (length bs) ≡ length (bs ++ b ∷ []) =
      omega (arith, length-append bs (b ∷ [])) in
    rw (param-append values v c, bit-step m bs v (omega arith), longer)
      (written m (bs ++ b ∷ []) (types ++ t) (values ++ value_bytes v) vs h (omega arith)
        ∙ ap ok (regroup m bs types values v vs))

-- COM_STMT_EXECUTE as the protocol lays it out: for at least one argument, each NULL or a value that the
-- driver can send, the payload that writeExecute builds in place is the command, the statement's id,
-- no cursor and one iteration, then the bitmap with the bit of each NULL argument set and no other,
-- the flag of new types, the two bytes of each type, and the values in order.
pub execute_payload-layout :
    (id : ℕ) (v : Value) (vs : List Value)
    → All IsColumn (v ∷ vs)
    → execute_payload id (v ∷ vs)
      ≡ ok (
          (0x17 ∷ le_bytes 4 id ++ 0 ∷ le_bytes 4 1)
          ++ bitmap ((length (v ∷ vs) + 7) / 8) (map is_null (v ∷ vs))
          ++ 1 ∷ bulk_types (v ∷ vs)
          ++ body (v ∷ vs))
unfolding execute_payload
execute_payload-layout id v vs h =
    let m = (length (v ∷ vs) + 7) / 8 in
    let some_arguments : (length (v ∷ vs) == 0) ≡ false = ground arith in
    let blank : no_params (length (v ∷ vs)) ≡ parameters m [] [] [] =
      ap (λ (bs : Bytes). record { null_bitmap = bs; param_types = []; param_values = [] })
        (sym (le_bytes-zero m)) in
    let all = ap (write_params 0 (v ∷ vs)) blank ∙ written m [] [] [] (v ∷ vs) h (omega arith) in
    rw (some_arguments, all) refl
