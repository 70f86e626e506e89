-- ===== src/Session/Variables/Moves.antt =====
-- Every entry of the tracking data takes a byte at least.
use obconnector_go.Common.{
  ℕ, ◌+◌, ◌^◌, ◌≤◌, ◌<◌, max, [], ◌∷◌, arith, ltb, leb, length, drop, slice, ok, ◌>>=◌, Yields,
  Yields-bind, if-Yields,
}
use obconnector_go.Common.Bytes.{Bytes}
use obconnector_go.Protocol.Lenenc.{read_length_encoded_int, read_length_encoded_string}
use obconnector_go.Session.Variables.{next_variable, next_change, ok_counts}

int-used : (bs : Bytes) → Yields (λ r. 1 ≤ r.1) (read_length_encoded_int bs)
unfolding read_length_encoded_int
int-used [] = tt
int-used (b ∷ rest) = ground arith

string-used : (bs : Bytes) → Yields (λ r. 1 ≤ r.1) (read_length_encoded_string bs)
unfolding read_length_encoded_string
string-used bs =
    Yields-bind (λ r. 1 ≤ r.1) (λ r. 1 ≤ r.1) (read_length_encoded_int bs) _ (int-used bs)
      λ r h. ground arith

-- The name and the value of a variable that ends at i + used + n.
variable :
    (val : Bytes) (i used n : ℕ)
    → 1 ≤ used
    → Yields {A = Bytes × Bytes × ℕ}
        (λ r. i < r.2)
        (do
          (k, k_used, _) ← read_length_encoded_string (slice (i + used) (i + used + n) val)
          (v, v_used, _) ← read_length_encoded_string (slice (i + used + k_used) (i + used + n) val)
          ok (k, v, max (i + used + k_used + v_used) (i + used + n)))
variable val i used n h =
    Yields-bind (λ r. 1 ≤ r.1) (λ r. i < r.2)
      (read_length_encoded_string (slice (i + used) (i + used + n) val)) _
      (string-used (slice (i + used) (i + used + n) val))
      λ k _.
        Yields-bind (λ r. 1 ≤ r.1) (λ r. i < r.2)
          (read_length_encoded_string (slice (i + used + k.1) (i + used + n) val)) _
          (string-used (slice (i + used + k.1) (i + used + n) val)) λ v _. omega arith

pub next_variable-moves : (val : Bytes) (i : ℕ) → Yields (λ r. i < r.2) (next_variable val i)
unfolding next_variable
next_variable-moves val i =
    Yields-bind (λ r. 1 ≤ r.1) (λ r. i < r.2) (read_length_encoded_int (drop i val)) _
      (int-used (drop i val))
      λ r h.
        if-Yields (λ r. i < r.2) (leb (2 ^ 63) (i + r.1 + r.0)) _ _ tt
          (if-Yields (λ r. i < r.2) (ltb (length val) (i + r.1 + r.0)) _ _ tt
            (variable val i r.1 r.0 h))

pub next_change-moves : (bytes : Bytes) (i : ℕ) → Yields (λ r. i < r.2) (next_change bytes i)
unfolding next_change
next_change-moves bytes i =
    Yields-bind (λ r. 1 ≤ r.1) (λ r. i < r.2) (read_length_encoded_string (drop (i + 1) bytes)) _
      (string-used (drop (i + 1) bytes)) λ r h. omega arith

pub ok_counts-Yields : (packet : Bytes) → Yields (λ r. Unit) (ok_counts packet)
unfolding ok_counts
ok_counts-Yields packet =
    Yields-bind (λ r. 1 ≤ r.1) (λ r. Unit) (read_length_encoded_int (drop 1 packet)) _
      (int-used (drop 1 packet))
      λ r h.
        Yields-bind (λ r. 1 ≤ r.1) (λ r. Unit) (read_length_encoded_int (drop (1 + r.1) packet)) _
          (int-used (drop (1 + r.1) packet)) λ _ _. tt
