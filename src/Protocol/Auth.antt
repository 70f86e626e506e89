-- ===== src/Protocol/Auth.antt =====
-- internal/protocol/auth.go: the answers to the server's challenge.
pub mod Verified
use obconnector_go.Common.{ℕ, Bool, bit_xor, List, [], ◌∷◌, ◌++◌, length, ◌==◌, if◌then◌else◌}
use obconnector_go.Common.Bytes.{Bytes}

-- `out[i] = a[i] ^ b[i]` for i < len(a), of two hashes of one length.
unfoldable pub xor_bytes : Bytes → Bytes → Bytes
xor_bytes [] bs = []
xor_bytes (a ∷ xs) [] = []
xor_bytes (a ∷ xs) (b ∷ bs) = bit_xor a b ∷ xor_bytes xs bs

-- crypto/sha1 and crypto/sha256, of what has been written in order.
module _ (sha1 sha256 : Bytes → Bytes) where
  unfoldable pub native_password_auth : Bytes → Bytes → Bytes
  unfolding xor_bytes
  native_password_auth password seed =
      if length password == 0
      then []
      else let hash1 = sha1 password in xor_bytes hash1 (sha1 (seed ++ sha1 hash1))

  unfoldable pub caching_sha2_password_auth : Bytes → Bytes → Bytes
  unfolding xor_bytes
  caching_sha2_password_auth password seed =
      if length password == 0
      then []
      else let h1 = sha256 password in xor_bytes h1 (sha256 (sha256 h1 ++ seed))
