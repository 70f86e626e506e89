-- ===== src/Protocol/Auth/Verified.antt =====
-- What the server can check with the hash of a hash of the password.
use obconnector_go.Common.{
  ℕ, zero, suc, ◌/◌, ◌%◌, ◌^◌, ◌<◌, bit_xor, ◌≡◌, refl, sym, ap, ap₂, ◌∙◌, [], ◌∷◌, ◌++◌, arith,
  length, All,
}
use obconnector_go.Common.Bytes.{Bytes, IsByte}
use obconnector_go.Common.Bits.{differ-lt_two, bit_xor_step}
use obconnector_go.Protocol.Auth.{xor_bytes, native_password_auth, caching_sha2_password_auth}
use native.Mathlib.Nat.{pow-suc}
use Prim.Native.Nat.{differ}

differ-twice : (a b : ℕ) → a < 2 → b < 2 → differ (differ a b) b ≡ a
differ-twice zero zero h l = refl
differ-twice zero (suc zero) h l = refl
differ-twice zero (suc (suc b)) h l = absurd (omega arith)
differ-twice (suc zero) zero h l = refl
differ-twice (suc zero) (suc zero) h l = refl
differ-twice (suc zero) (suc (suc b)) h l = absurd (omega arith)
differ-twice (suc (suc a)) b h l = absurd (omega arith)

bit_xor-twice : (k a b : ℕ) → a < 2 ^ k → b < 2 ^ k → bit_xor (bit_xor a b) b ≡ a
bit_xor-twice zero a b h l =
    let none_a : a ≡ 0 = omega arith in let none_b : b ≡ 0 = omega arith in rw (none_a, none_b) refl
bit_xor-twice (suc k) a b h l =
    let x = bit_xor a b in
    let small = differ-lt_two (a % 2) (b % 2) (omega arith) (omega arith) in
    let half : x / 2 ≡ bit_xor (a / 2) (b / 2) = omega (arith, bit_xor_step a b) in
    let low : x % 2 ≡ differ (a % 2) (b % 2) = omega (arith, bit_xor_step a b) in
    omega (
      arith,
      bit_xor_step x b,
      ap (λ (t : ℕ). bit_xor t (b / 2)) half,
      bit_xor-twice k (a / 2) (b / 2) (omega (arith, pow-suc 2 k)) (omega (arith, pow-suc 2 k)),
      ap (λ (t : ℕ). differ t (b % 2)) low,
      differ-twice (a % 2) (b % 2) (omega arith) (omega arith),
    )

xor_bytes-twice :
    (xs ys : Bytes)
    → All IsByte xs
    → All IsByte ys
    → length xs ≡ length ys
    → xor_bytes (xor_bytes xs ys) ys ≡ xs
unfolding xor_bytes
xor_bytes-twice [] ys h k l = refl
xor_bytes-twice (x ∷ xs) [] h k l = absurd (omega arith)
xor_bytes-twice (x ∷ xs) (y ∷ ys) (p, h) (q, k) l =
    ap₂ (λ b bs. b ∷ bs) (bit_xor-twice 8 x y p q) (xor_bytes-twice xs ys h k (omega arith))

-- A hash function answers `n` bytes.
pub record IsHash (n : ℕ) (hash : Bytes → Bytes) : Type 0 where
  pub width : (bs : Bytes) → length (hash bs) ≡ n
  pub bytes : (bs : Bytes) → All IsByte (hash bs)

module _ (sha1 sha256 : Bytes → Bytes) where
  -- The server's check: it keeps a hash of a hash of the password, takes the hash of the challenge off the answer
  -- and hashes what is left.
  abbrev pub AcceptsNative : Bytes → Bytes → Bytes → Type 0
  AcceptsNative stored seed answer = sha1 (xor_bytes answer (sha1 (seed ++ stored))) ≡ stored

  abbrev pub AcceptsSha2 : Bytes → Bytes → Bytes → Type 0
  AcceptsSha2 stored seed answer = sha256 (xor_bytes answer (sha256 (stored ++ seed))) ≡ stored

  native-answer :
      (password seed : Bytes)
      → 0 < length password
      → native_password_auth sha1 sha256 password seed
        ≡ xor_bytes (sha1 password) (sha1 (seed ++ sha1 (sha1 password)))
  unfolding native_password_auth
  native-answer [] seed h = absurd (omega arith)
  native-answer (p ∷ password) seed h = ground arith

  sha2-answer :
      (password seed : Bytes)
      → 0 < length password
      → caching_sha2_password_auth sha1 sha256 password seed
        ≡ xor_bytes (sha256 password) (sha256 (sha256 (sha256 password) ++ seed))
  unfolding caching_sha2_password_auth
  sha2-answer [] seed h = absurd (omega arith)
  sha2-answer (p ∷ password) seed h = ground arith

  -- The server accepts both answers: where the two hash functions answer bytes, always 20 and always 32, then
  -- for each password that is not empty and each challenge, the answer of NativePasswordAuth, and that of
  -- CachingSha2PasswordAuth, passes the check of a server that keeps only the hash of the
  -- password's hash.
  pub auth-Accepts :
      (password seed : Bytes)
      → IsHash 20 sha1
      → IsHash 32 sha256
      → 0 < length password
      → AcceptsNative (sha1 (sha1 password)) seed (native_password_auth sha1 sha256 password seed)
        × AcceptsSha2
            (sha256 (sha256 password))
            seed
            (caching_sha2_password_auth sha1 sha256 password seed)
  auth-Accepts password seed h1 h2 some_password =
      let a = seed ++ sha1 (sha1 password) in
      let b = sha256 (sha256 password) ++ seed in
      (
        ap (λ t. sha1 (xor_bytes t (sha1 a))) (native-answer password seed some_password)
            ∙ ap sha1 (
                xor_bytes-twice (sha1 password) (sha1 a) (h1.bytes password) (h1.bytes a)
                  (h1.width password ∙ sym (h1.width a))),
        ap (λ t. sha256 (xor_bytes t (sha256 b))) (sha2-answer password seed some_password)
            ∙ ap sha256 (
                xor_bytes-twice (sha256 password) (sha256 b) (h2.bytes password) (h2.bytes b)
                  (h2.width password ∙ sym (h2.width b))),
      )
