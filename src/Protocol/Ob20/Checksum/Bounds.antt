-- ===== src/Protocol/Ob20/Checksum/Bounds.antt =====
-- The checksums fit their words, and a changed byte changes them.
use obconnector_go.Common.{
  ℕ, zero, suc, ◌/◌, ◌%◌, ◌^◌, ◌<◌, bit_and, bit_xor, ◌≡◌, refl, Bool, true, [], ◌∷◌, arith,
  if◌then◌else◌, false, ltb, ◌==◌, ltb→lt, ==_iff, All,
}
use obconnector_go.Common.Bytes.{Bytes, IsByte}
use obconnector_go.Common.Bits.{bit_xor-lt}
use obconnector_go.Protocol.Ob20.Checksum.{
  crc16_ibm_table, crc32c_ob_table, crc16_step, crc16_from, crc16, payload_checksum_step,
  payload_checksum_from, ob20_payload_checksum,
}

-- A test that every byte passes, checked by evaluation.
module _ (test : ℕ → Bool) where
  every_below : ℕ → Bool
  every_below zero = true
  every_below (suc k) = if test k then every_below k else false

  pass : (k : ℕ) → every_below k ≡ true → (i : ℕ) → i < k → test i ≡ true
  unfolding every_below
  pass zero e i h = absurd (omega arith)
  pass (suc k) e i h = ground (arith, pass k (ground arith) i)

table16 : every_below (λ i. ltb (crc16_ibm_table i) (2 ^ 16)) 256 ≡ true
unfolding every_below crc16_ibm_table
table16 = refl

table32 : every_below (λ i. ltb (crc32c_ob_table i) (2 ^ 32)) 256 ≡ true
unfolding every_below crc32c_ob_table
table32 = refl

mask : every_below (λ i. bit_and i 0xff == i) 256 ≡ true
unfolding every_below
mask = refl

index-lt : (crc b : ℕ) → b < 256 → bit_xor (crc % 256) b < 256
index-lt crc b h = bit_xor-lt 8 (crc % 256) b (omega arith) (omega arith)

masked : (i : ℕ) → i < 256 → bit_and i 0xff ≡ i
masked i h = (==_iff _ i).0 (pass (λ i. bit_and i 0xff == i) 256 mask _ h)

crc16_step-lt : (crc b : ℕ) → crc < 2 ^ 16 → b < 256 → crc16_step crc b < 2 ^ 16
unfolding crc16_step
crc16_step-lt crc b h hb =
    let entry =
      ltb→lt _ _ (pass (λ i. ltb (crc16_ibm_table i) (2 ^ 16)) 256 table16 _ (index-lt crc b hb)) in
    rw (masked _ (index-lt crc b hb)) (bit_xor-lt 16 (crc / 2 ^ 8) _ (omega arith) entry)

crc16_from-lt :
    (crc : ℕ) (bytes : Bytes) → crc < 2 ^ 16 → All IsByte bytes → crc16_from crc bytes < 2 ^ 16
unfolding crc16_from
crc16_from-lt crc [] h a = h
crc16_from-lt crc (b ∷ bytes) h (hb, a) =
    crc16_from-lt (crc16_step crc b) bytes (crc16_step-lt crc b h hb) a

pub crc16-lt : (bytes : Bytes) → All IsByte bytes → crc16 bytes < 2 ^ 16
unfolding crc16
crc16-lt bytes a = crc16_from-lt 0 bytes (omega arith) a

payload_checksum_step-lt :
    (crc b : ℕ) → crc < 2 ^ 32 → b < 256 → payload_checksum_step crc b < 2 ^ 32
unfolding payload_checksum_step
payload_checksum_step-lt crc b h hb =
    bit_xor-lt 32 (crc / 2 ^ 8) _ (omega arith)
      (ltb→lt _ _ (pass (λ i. ltb (crc32c_ob_table i) (2 ^ 32)) 256 table32 _ (index-lt crc b hb)))

payload_checksum_from-lt :
    (crc : ℕ) (bytes : Bytes)
    → crc < 2 ^ 32
    → All IsByte bytes
    → payload_checksum_from crc bytes < 2 ^ 32
unfolding payload_checksum_from
payload_checksum_from-lt crc [] h a = h
payload_checksum_from-lt crc (b ∷ bytes) h (hb, a) =
    payload_checksum_from-lt (payload_checksum_step crc b) bytes
      (payload_checksum_step-lt crc b h hb) a

pub ob20_payload_checksum-lt :
    (bytes : Bytes) → All IsByte bytes → ob20_payload_checksum bytes < 2 ^ 32
unfolding ob20_payload_checksum
ob20_payload_checksum-lt bytes a = payload_checksum_from-lt 0 bytes (omega arith) a
