-- ===== src/Session/Packets/Yields.antt =====
-- Reading a column definition never runs out of fuel.
use obconnector_go.Common.{ℕ, zero, suc, ◌+◌, [], ◌∷◌, arith, drop, Yields, Yields-bind}
use obconnector_go.Common.Bytes.{Bytes}
use obconnector_go.Protocol.Lenenc.{read_length_encoded_int, read_length_encoded_string}
use obconnector_go.Session.Packets.{string_used, skip_strings, parse_column_definition}

pub int-Yields : (bs : Bytes) → Yields (λ _. Unit) (read_length_encoded_int bs)
unfolding read_length_encoded_int
int-Yields [] = tt
int-Yields (b ∷ rest) = ground arith

pub string-Yields : (bs : Bytes) → Yields (λ _. Unit) (read_length_encoded_string bs)
unfolding read_length_encoded_string
string-Yields bs =
    Yields-bind (λ _. Unit) (λ _. Unit) (read_length_encoded_int bs) _ (int-Yields bs)
      λ r _. ground arith

string_used-Yields : (packet : Bytes) (i : ℕ) → Yields (λ _. Unit) (string_used packet i)
unfolding string_used
string_used-Yields packet i =
    Yields-bind (λ _. Unit) (λ _. Unit) (read_length_encoded_string (drop i packet)) _
      (string-Yields (drop i packet)) λ _ _. tt

skip_strings-Yields :
    (n : ℕ) (packet : Bytes) (i : ℕ) → Yields (λ _. Unit) (skip_strings n packet i)
unfolding skip_strings
skip_strings-Yields zero packet i = tt
skip_strings-Yields (suc n) packet i =
    Yields-bind (λ _. Unit) (λ _. Unit) (string_used packet i) _ (string_used-Yields packet i)
      λ used _. skip_strings-Yields n packet (i + used)

pub column-Yields : (packet : Bytes) → Yields (λ _. Unit) (parse_column_definition packet)
unfolding parse_column_definition
column-Yields packet =
    Yields-bind (λ _. Unit) (λ _. Unit) (skip_strings 4 packet 0) _ (skip_strings-Yields 4 packet 0)
      λ i _.
        Yields-bind (λ _. Unit) (λ _. Unit) (read_length_encoded_string (drop i packet)) _
          (string-Yields (drop i packet))
          λ r _.
            Yields-bind (λ _. Unit) (λ _. Unit) (string_used packet (i + r.1)) _
              (string_used-Yields packet (i + r.1)) λ used _. ground arith
