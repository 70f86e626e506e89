-- ===== src/Session/TextRow/RoundTrip.antt =====
-- Rows of the text protocol are read back.
use obconnector_go.Common.{
  ℕ, suc, ◌%◌, ◌^◌, ◌≤◌, ◌<◌, String, ◌≡◌, refl, sym, ap, ◌∙◌, inl, inr, false, Option, none, some,
  List, [], ◌∷◌, ◌++◌, map, arith, ltb, ◌==◌, Bool-cases, length, drop, All, drop-append, Outcome,
  ok,
}
use obconnector_go.Common.Bytes.{Bytes, le_bytes, three_bytes}
use obconnector_go.Common.Int.{ℤ, pos_part, neg_part}
use obconnector_go.Protocol.Lenenc.{
  put_length_encoded_int, put_length_encoded_string, read_length_encoded_string,
}
use obconnector_go.Protocol.Lenenc.RoundTrip.{read-put_string}
use obconnector_go.Protocol.Calendar.{Time}
use obconnector_go.Protocol.Binary.Values.{type_long_long}
use obconnector_go.Sql.Params.{Value, nil, int64, format_int}
use obconnector_go.Protocol.Zone.{Zone}
use obconnector_go.Session.TextRow.{
  text_value_in_location, parse_text_columns, parse_text_row_in_location, text_value,
  integer_or_text,
}
use obconnector_go.Session.TextRow.Integers.{parse_int-format_int}

-- A column of a row: its type, what the server sends, and the value that is to be read.
pub record Column : Type 0 where
  pub typ : ℕ
  pub raw : Option Bytes
  pub value : Value

-- The first byte of a text is never that of NULL.
starts :
    (n : ℕ)
    → (b : ℕ) × (bs : Bytes) × (put_length_encoded_int [] n ≡ b ∷ bs) × ((b == 0xfb) ≡ false)
unfolding put_length_encoded_int
starts n = elim (Bool-cases (ltb n 251)) [
  | inl e ↦ rw e (n % 256, [], refl, ground arith)
  | inr e ↦ elim (Bool-cases (ltb n (2 ^ 16))) [
    | inl f ↦ rw (e, f) (0xfc, le_bytes 2 (n % 2 ^ 16), refl, refl)
    | inr f ↦ elim (Bool-cases (ltb n (2 ^ 24))) [
      | inl g ↦ rw (e, f, g) (0xfd, three_bytes n, refl, refl)
      | inr g ↦ rw (e, f, g) (0xfe, le_bytes 8 n, refl, refl)
    ]
  ]
]

text-starts :
    (s : Bytes)
    → (b : ℕ) × (bs : Bytes) × (put_length_encoded_string [] s ≡ b ∷ bs) × ((b == 0xfb) ≡ false)
unfolding put_length_encoded_string
text-starts s = let (b, bs, e, f) = starts (length s) in (b, bs ++ s, rw e refl, f)

abbrev pub column_bytes : Option Bytes → Bytes
column_bytes none = 0xfb ∷ []
column_bytes (some s) = put_length_encoded_string [] s

-- The packet of a row, written down from the layout.
abbrev pub text_packet : List Column → Bytes
text_packet [] = []
text_packet (c ∷ cs) = column_bytes c.raw ++ text_packet cs

module _ (parse_float : Bytes → Option ℕ) (parse_in_location : String → Bytes → Option Time)
    (location : Option Zone) where
  -- NULL is nil; a text is what its type makes of it.
  abbrev pub Reads : ℕ → Option Bytes → Value → Type 0
  Reads typ none v = v ≡ nil
  Reads typ (some s) v =
      (length s < 2 ^ 64)
      × (text_value_in_location parse_float parse_in_location s typ location ≡ ok v)

  abbrev pub IsRow : List Column → Type 0
  IsRow = All (λ (c : Column). Reads c.typ c.raw c.value)

  abbrev columns : ℕ → List ℕ → Bytes → Outcome (List Value × Bytes)
  columns = parse_text_columns parse_float parse_in_location location

  null-read :
      (n : ℕ) (types : List ℕ) (typ : ℕ) (row : List Value) (rest : Bytes)
      → columns n types rest ≡ ok (row, [])
      → columns (suc n) (typ ∷ types) (0xfb ∷ rest) ≡ ok (nil ∷ row, [])
  unfolding parse_text_columns
  null-read n types typ row rest h = rw h refl

  -- A text that is not NULL, once its bytes are known to begin with no NULL.
  begun :
      (n : ℕ) (types : List ℕ) (typ b : ℕ) (bs s : Bytes) (used : ℕ) (v : Value) (row : List Value)
      → (b == 0xfb) ≡ false
      → read_length_encoded_string (b ∷ bs) ≡ ok (s, used, false)
      → text_value_in_location parse_float parse_in_location s typ location ≡ ok v
      → columns n types (drop used (b ∷ bs)) ≡ ok (row, [])
      → columns (suc n) (typ ∷ types) (b ∷ bs) ≡ ok (v ∷ row, [])
  unfolding parse_text_columns
  begun n types typ b bs s used v row f r read h = rw (f, r, read, h) refl

  text-read :
      (n : ℕ) (types : List ℕ) (typ : ℕ) (s : Bytes) (v : Value) (row : List Value) (rest : Bytes)
      → Reads typ (some s) v
      → columns n types rest ≡ ok (row, [])
      → columns (suc n) (typ ∷ types) (put_length_encoded_string [] s ++ rest) ≡ ok (v ∷ row, [])
  text-read n types typ s v row rest (l, read) h =
      let text = put_length_encoded_string [] s in
      let (b, bs, e, f) = text-starts s in
      let same : text ++ rest ≡ b ∷ bs ++ rest = ap (λ t. t ++ rest) e in
      let found = ap read_length_encoded_string (sym same) ∙ read-put_string s rest l in
      let behind = ap (drop (length text)) (sym same) ∙ drop-append (length text) text rest refl in
      ap (columns (suc n) (typ ∷ types)) same
      ∙ begun n types typ b (bs ++ rest) s (length text) v row f found read
          (ap (columns n types) behind ∙ h)

  nothing-read : columns 0 [] [] ≡ ok ([], [])
  unfolding parse_text_columns
  nothing-read = refl

  column-read :
      (n : ℕ) (types : List ℕ) (typ : ℕ) (raw : Option Bytes) (v : Value) (row : List Value)
      (rest : Bytes)
      → Reads typ raw v
      → columns n types rest ≡ ok (row, [])
      → columns (suc n) (typ ∷ types) (column_bytes raw ++ rest) ≡ ok (v ∷ row, [])
  column-read n types typ none v row rest r h =
      null-read n types typ row rest h ∙ ap (λ w. ok (w ∷ row, [])) (sym r)
  column-read n types typ (some s) v row rest r h = text-read n types typ s v row rest r h

  columns-read :
      (cs : List Column)
      → IsRow cs
      → columns (length cs) (map (λ (c : Column). c.typ) cs) (text_packet cs)
        ≡ ok (map (λ (c : Column). c.value) cs, [])
  columns-read [] h = nothing-read
  columns-read (c ∷ cs) (r, h) =
      column-read (length cs) _ c.typ c.raw c.value _ (text_packet cs) r (columns-read cs h)

  -- A row comes back: where each column is NULL, or a text that the column's type turns into a value, the
  -- packet of the NULL bytes and the length-encoded texts is read as the row of these values, and no
  -- byte is left over.
  pub parse_text_row-text_packet :
      (cs : List Column)
      → IsRow cs
      → parse_text_row_in_location parse_float parse_in_location
          (text_packet cs)
          (length cs)
          (map (λ (c : Column). c.typ) cs)
          location
        ≡ ok (map (λ (c : Column). c.value) cs)
  unfolding parse_text_row_in_location
  parse_text_row-text_packet cs h = rw (columns-read cs h) refl

  -- The text of an int64 is the number.
  pub integer-Reads :
      (v : ℤ)
      → pos_part v < 2 ^ 63
      → neg_part v ≤ 2 ^ 63
      → text_value_in_location parse_float parse_in_location (format_int v) type_long_long location
        ≡ ok (int64 v)
  unfolding text_value_in_location text_value
  integer-Reads v h k =
      ap (λ o. ok (integer_or_text parse_float parse_in_location o (format_int v)))
        (parse_int-format_int v h k)
