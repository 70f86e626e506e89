-- ===== src/Protocol/Lenenc/RoundTrip.antt =====
-- Reading back what was written, and what any successful read tells.
use obconnector_go.Common.{
  ℕ, ◌+◌, ◌-◌, ◌/◌, ◌%◌, ◌^◌, ◌≤◌, ◌<◌, ◌≡◌, refl, inl, inr, Bool, false, [], ◌∷◌, ◌++◌,
  append_assoc, arith, length, get_or, take, drop, All, slice, length-append, length-take,
  length-drop, take-append, drop-append, ok, Answers, Answers-cases,
}
use obconnector_go.Common.Bytes.{Bytes, IsByte, le_bytes, le_value-le_bytes, or_value_lem}
use obconnector_go.Common.Bytes.{le_value-lt, All-take, All-get_or}
use obconnector_go.Protocol.Lenenc.{
  put_length_encoded_int, put_length_encoded_string, read_length_encoded_int,
  read_length_encoded_string,
}

-- Both writers keep `dst` and append.
pub put_length_encoded_int-append :
    (dst : Bytes) (n : ℕ) → put_length_encoded_int dst n ≡ dst ++ put_length_encoded_int [] n
unfolding put_length_encoded_int
put_length_encoded_int-append dst n =
    ground (arith, append_assoc dst (0xfc ∷ []) (le_bytes 2 (n % 2 ^ 16)))

pub put_length_encoded_string-append :
    (dst s : Bytes) → put_length_encoded_string dst s ≡ dst ++ put_length_encoded_string [] s
unfolding put_length_encoded_string
put_length_encoded_string-append dst s =
    rw put_length_encoded_int-append (append_assoc dst (put_length_encoded_int [] (length s)) s)

-- The reader gives back every uint64 that the writer wrote, whatever follows it, and consumes
-- exactly the bytes written.
pub read-put_int :
    (n : ℕ) (rest : Bytes)
    → n < 2 ^ 64
    → read_length_encoded_int (put_length_encoded_int [] n ++ rest)
      ≡ ok (n, length (put_length_encoded_int [] n), false)
unfolding put_length_encoded_int read_length_encoded_int
read-put_int n rest h = ground (
  arith,
  or_value_lem (n % 256) (n / 2 ^ 8 % 256) (n / 2 ^ 16 % 256),
  le_value-le_bytes 2 n,
  le_value-le_bytes 8 n,
)

-- The reader gives back every string shorter than 2^64 bytes that the writer wrote, whatever
-- follows it, and consumes exactly the bytes written.
pub read-put_string :
    (s rest : Bytes)
    → length s < 2 ^ 64
    → read_length_encoded_string (put_length_encoded_string [] s ++ rest)
      ≡ ok (s, length (put_length_encoded_string [] s), false)
unfolding read_length_encoded_string put_length_encoded_string
read-put_string s rest h =
    let head : Bytes = put_length_encoded_int [] (length s) in
    rw (append_assoc head s rest) (
      rw (read-put_int (length s) (s ++ rest) h) (
        rw (drop-append (length head) head (s ++ rest) refl) (
          ground (
            arith,
            length-append head (s ++ rest),
            length-append head s,
            length-append s rest,
            take-append (length head + length s - length head) s rest (omega arith),
          ))))

-- A successful read consumes 1 to 9 bytes, all of them present; the value is a uint64.
pub read_int_bounds :
    (src : Bytes) (n used : ℕ) (is_null : Bool)
    → All IsByte src
    → read_length_encoded_int src ≡ ok (n, used, is_null)
    → (1 ≤ used) × (used ≤ 9) × (used ≤ length src) × (n < 2 ^ 64)
unfolding read_length_encoded_int
read_int_bounds [] n used is_null a e = cc
read_int_bounds (b ∷ rest) n used is_null a e = ground (
  arith,
  le_value-lt 2 (take 2 rest) (omega (arith, length-take 2 rest)) (All-take 2 rest a.1),
  le_value-lt 8 (take 8 rest) (omega (arith, length-take 8 rest)) (All-take 8 rest a.1),
  or_value_lem (get_or rest 0 0) (get_or rest 1 0) (get_or rest 2 0) (All-get_or 0 rest a.1)
      (All-get_or 1 rest a.1),
  All-get_or 0 rest a.1,
  All-get_or 1 rest a.1,
  All-get_or 2 rest a.1,
)

-- Every input is answered, by a value or by an error.
pub read_int-Answers : (src : Bytes) → Answers (read_length_encoded_int src)
unfolding read_length_encoded_int
read_int-Answers [] = tt
read_int-Answers (b ∷ rest) = ground arith

-- A successful string read of a byte slice, NULL or not, stays inside its input and consumes more
-- bytes than it returns; the value is the slice that ends where the read stopped.
pub read_string_bounds :
    (src s : Bytes) (used : ℕ) (is_null : Bool)
    → All IsByte src
    → read_length_encoded_string src ≡ ok (s, used, is_null)
    → (length s < used) × (used ≤ length src) × (s ≡ slice (used - length s) used src)
unfolding read_length_encoded_string
read_string_bounds src s used is_null a e =
    elim (Answers-cases (read_length_encoded_int src) (read_int-Answers src)) [
      | inl ((n, u, null), r) ↦
          let b = read_int_bounds src n u null a r in
          ground (arith, r, b, length-take (u + n - u) (drop u src), length-drop u src)
      | inr (x, r) ↦ ground (arith, r)
    ]
