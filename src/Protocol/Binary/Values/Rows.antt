-- ===== src/Protocol/Binary/Values/Rows.antt =====
-- Rows of the binary protocol: the bitmap of the NULL columns and the values of the others.
use obconnector_go.Common.{
  ℕ, suc, ◌+◌, ◌-◌, ◌/◌, ◌<◌, ◌≡◌, refl, sym, ap, ◌∙◌, ◌⊎◌, inl, inr, Bool, true, false, Option,
  List, [], ◌∷◌, ◌++◌, map, arith, if◌then◌else◌, le→leb, length, drop, All, slice, length-append,
  take-append, drop-append, Outcome, ok,
}
use obconnector_go.Common.Bytes.{Bytes, length-le_bytes}
use obconnector_go.Common.Bitmaps.{of_bits, bitmap, bit_at, bitmap-bit}
use obconnector_go.Protocol.Binary.Values.{
  get_binary_param_type, append_binary_param, is_null_at, parse_binary_columns,
  parse_binary_row_in_location,
}
use obconnector_go.Protocol.Binary.Values.RoundTrip.{Sendable, received, append_binary_param-Sent}
use obconnector_go.Sql.Params.{Value, nil, int64, float64, bool, byte_slice, string, time, other}
use obconnector_go.Protocol.Zone.{Zone}

abbrev pub is_nil : Value → Bool
is_nil nil = true
is_nil v = false

-- NULL, or a value that the driver could send.
abbrev pub IsColumn : Value → Type 0
IsColumn v = (v ≡ nil) ⊎ Sendable v

abbrev pub column : Value → Value
column v = if is_nil v then nil else received v

abbrev pub bytes_of : Outcome Bytes → Bytes
bytes_of (ok bytes) = bytes
bytes_of _ = []

-- The bytes of one value.
unfoldable pub value_bytes : Value → Bytes
value_bytes v = bytes_of (append_binary_param [] (get_binary_param_type v) v)

abbrev pub body : List Value → Bytes
body [] = []
body (v ∷ vs) = value_bytes v ++ body vs

-- The packet of a row, written down from the layout.
abbrev pub row_packet : List Value → Bytes
row_packet vs = 0 ∷ bitmap ((length vs + 7 + 2) / 8) (false ∷ false ∷ map is_nil vs) ++ body vs

bit-false : (bs : List Bool) → bit_at bs (length bs) ≡ false
bit-false [] = refl
bit-false (b ∷ bs) = bit-false bs

bit_at-append : (xs ys : List Bool) (y : Bool) → bit_at (xs ++ y ∷ ys) (length xs) ≡ y
bit_at-append [] ys y = refl
bit_at-append (x ∷ xs) ys y = bit_at-append xs ys y

sent-not_nil : (v : Value) → Sendable v → is_nil v ≡ false
sent-not_nil nil h = absurd h
sent-not_nil (int64 v) h = refl
sent-not_nil (float64 v) h = refl
sent-not_nil (bool v) h = refl
sent-not_nil (byte_slice v) h = refl
sent-not_nil (string v) h = refl
sent-not_nil (time v) h = refl
sent-not_nil other h = absurd h

abbrev Marks : Bytes → ℕ → List Value → Type 0
Marks null_bitmap i vs =
    (j : ℕ) → j < length vs → is_null_at null_bitmap (i + j) ≡ bit_at (map is_nil vs) j

first-mark :
    (null_bitmap : Bytes) (i : ℕ) (v : Value) (vs : List Value)
    → Marks null_bitmap i (v ∷ vs)
    → is_null_at null_bitmap i ≡ is_nil v
first-mark null_bitmap i v vs marks =
    let here : i ≡ i + 0 = omega arith in ap (is_null_at null_bitmap) here ∙ marks 0 (omega arith)

later-Marks :
    (null_bitmap : Bytes) (i : ℕ) (v : Value) (vs : List Value)
    → Marks null_bitmap i (v ∷ vs)
    → Marks null_bitmap (suc i) vs
later-Marks null_bitmap i v vs marks j h =
    let next : suc i + j ≡ i + suc j = omega arith in
    ap (is_null_at null_bitmap) next ∙ marks (suc j) (omega arith)

nil-bytes : value_bytes nil ≡ []
unfolding value_bytes append_binary_param
nil-bytes = refl

sent-bytes :
    (v : Value) (bytes : Bytes)
    → append_binary_param [] (get_binary_param_type v) v ≡ ok bytes
    → value_bytes v ≡ bytes
unfolding value_bytes
sent-bytes v bytes h = ap bytes_of h

-- The columns from one on: `marks` says which are NULL.
columns-read :
    (location : Option Zone) (null_bitmap : Bytes) (i : ℕ) (vs : List Value)
    → All IsColumn vs
    → Marks null_bitmap i vs
    → parse_binary_columns location null_bitmap
        (length vs)
        i
        (map get_binary_param_type vs)
        (body vs)
      ≡ ok (map column vs, [])
unfolding parse_binary_columns
columns-read location null_bitmap i [] h marks = refl
columns-read location null_bitmap i (v ∷ vs) (inl e, h) marks =
    let null = first-mark null_bitmap i v vs marks ∙ ap is_nil e in
    let rest =
      columns-read location null_bitmap (suc i) vs h (later-Marks null_bitmap i v vs marks) in
    rw (null, e, nil-bytes, rest) refl
columns-read location null_bitmap i (v ∷ vs) (inr s, h) marks =
    let present = sent-not_nil v s in
    let rest =
      columns-read location null_bitmap (suc i) vs h (later-Marks null_bitmap i v vs marks) in
    let (bytes, appended, read) = append_binary_param-Sent location v s in
    rw
      (
        first-mark null_bitmap i v vs marks ∙ present,
        present,
        sent-bytes v bytes appended,
        read (body vs),
        drop-append (length bytes) bytes (body vs) refl,
        rest,
      )
      refl

bitmap-part :
    (m : ℕ) (null_bitmap values : Bytes)
    → length null_bitmap ≡ m
    → slice 1 (1 + m) (0 ∷ null_bitmap ++ values) ≡ null_bitmap
bitmap-part m null_bitmap values h =
    let width : 1 + m - 1 ≡ m = omega arith in rw width (take-append m null_bitmap values (sym h))

values-part :
    (m : ℕ) (null_bitmap values : Bytes)
    → length null_bitmap ≡ m
    → drop (1 + m) (0 ∷ null_bitmap ++ values) ≡ values
values-part m null_bitmap values h =
    let next : 1 + m ≡ suc m = omega arith in rw next (drop-append m null_bitmap values (sym h))

-- A packet whose bitmap has the right length and whose columns end where it ends.
checked-row :
    (location : Option Zone) (n : ℕ) (types : List ℕ) (null_bitmap values : Bytes)
    (row : List Value)
    → length null_bitmap ≡ (n + 7 + 2) / 8
    → parse_binary_columns location null_bitmap n 0 types values ≡ ok (row, [])
    → parse_binary_row_in_location (0 ∷ null_bitmap ++ values) n types location ≡ ok row
unfolding parse_binary_row_in_location
checked-row location n types null_bitmap values row fits read =
    let enough =
      le→leb (1 + (n + 7 + 2) / 8) (length (0 ∷ null_bitmap ++ values))
        (omega (arith, length-append null_bitmap values)) in
    rw
      (
        enough,
        bitmap-part ((n + 7 + 2) / 8) null_bitmap values fits,
        values-part ((n + 7 + 2) / 8) null_bitmap values fits,
        read,
      )
      (ground arith)

bitmap-Marks :
    (vs : List Value)
    → Marks (bitmap ((length vs + 7 + 2) / 8) (false ∷ false ∷ map is_nil vs)) 0 vs
unfolding is_null_at
bitmap-Marks vs j h =
    let here : 0 + j ≡ j = omega arith in
    let third : j + 2 ≡ suc (suc j) = omega arith in
    rw here (
      bitmap-bit ((length vs + 7 + 2) / 8) (false ∷ false ∷ map is_nil vs) (j + 2) (omega arith)
      ∙ ap (bit_at (false ∷ false ∷ map is_nil vs)) third)

-- A row comes back: for a row of columns that are NULL or values that the driver could send, the packet with the
-- zero header, the bitmap of the NULL columns from the third bit on and the other values as
-- AppendBinaryParam writes them is read by ParseBinaryRowInLocation, in any session time zone, as the row,
-- each value as it is read alone.
pub parse_binary_row-row_packet :
    (location : Option Zone) (vs : List Value)
    → All IsColumn vs
    → parse_binary_row_in_location
        (row_packet vs)
        (length vs)
        (map get_binary_param_type vs)
        location
      ≡ ok (map column vs)
parse_binary_row-row_packet location vs h =
    let n = (length vs + 7 + 2) / 8 in
    let marks = bitmap n (false ∷ false ∷ map is_nil vs) in
    let fits = length-le_bytes n (of_bits (false ∷ false ∷ map is_nil vs)) in
    checked-row location (length vs) (map get_binary_param_type vs) marks (body vs) (map column vs)
      fits (columns-read location marks 0 vs h (bitmap-Marks vs))
