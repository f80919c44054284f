-- ===== src/Did/Packages.antt =====
-- What core/did.go calls: crypto/sha256, crypto/ed25519 and `fmt.Sscanf`.
use agent_semantic_protocol.Common.{
  ℕ, ◌≤◌, ◌<◌, ◌≡◌, Bool, true, Option, some, ◌∷◌, ◌++◌, Bytes, codes, length, All,
}

abbrev pub public_key_size : ℕ
public_key_size = 32

abbrev pub private_key_size : ℕ
private_key_size = 64

-- `sscanf_did s` is the `method` that `fmt.Sscanf(s, "did:%s", &method)` stores, or `none` where it
-- returns an error. `ed25519_verify` takes the public key, the message and the signature.
pub record Crypto : Type 0 where
  pub sha256 : Bytes → Bytes
  pub ed25519_sign : Bytes → Bytes → Bytes
  pub ed25519_verify : Bytes → Bytes → Bytes → Bool
  pub sscanf_did : Bytes → Option Bytes

-- Two keys that `ed25519.GenerateKey` returns together.
pub record IsKeyPair (c : Crypto) (key priv : Bytes) : Type 0 where
  pub key_size : length key ≡ public_key_size
  pub priv_size : length priv ≡ private_key_size
  pub verified : (b : Bytes) → c.ed25519_verify key b (c.ed25519_sign priv b) ≡ true

-- A byte of a printable ASCII character that is no space.
abbrev pub IsVisible : ℕ → Type 0
IsVisible c = (0x21 ≤ c) × (c < 0x7f)

-- What the packages document: the sizes of a digest and of a signature, and that the format
-- `did:%s` wants its first four characters as they are, and then reads a text that is not empty.
pub record IsCrypto (c : Crypto) : Type 0 where
  pub sha256_bytes : (b : Bytes) → All (λ x. x < 256) (c.sha256 b)
  pub sha256_size : (b : Bytes) → length (c.sha256 b) ≡ 32
  pub signature_size : (priv b : Bytes) → length (c.ed25519_sign priv b) ≡ 64
  pub sscanf_prefix :
      (s m : Bytes) → c.sscanf_did s ≡ some m → (rest : Bytes) × (s ≡ codes "did:" ++ rest)
  pub sscanf_visible :
      (x : ℕ) (rest : Bytes)
      → IsVisible x
      → (m : Bytes) × (c.sscanf_did (codes "did:" ++ (x ∷ rest)) ≡ some m)
