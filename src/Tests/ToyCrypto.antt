-- ===== src/Tests/ToyCrypto.antt =====
-- Functions that the laws of the crypto packages hold of. They hide nothing: the digest is the sum
-- of the bytes, 32 times, and whoever has the public key can sign.
use agent_semantic_protocol.Common.{
  ℕ, zero, suc, ◌+◌, ◌%◌, ◌<◌, ◌≡◌, refl, Option, none, some, [], ◌∷◌, ◌++◌, Bytes, codes, length,
  take, All, ◌==◌, ◌&&◌, leb, ltb, bytes_eq, bytes_eq_refl, if◌then◌else◌, arith, length-append,
}
use agent_semantic_protocol.Did.Packages.{Crypto, IsCrypto, IsKeyPair, IsVisible}

abbrev sum : Bytes → ℕ
sum [] = 0
sum (b ∷ bs) = b + sum bs

abbrev pub fill : ℕ → ℕ → Bytes
fill zero b = []
fill (suc n) b = b ∷ fill n b

unfoldable pub digest : Bytes → Bytes
digest b = fill 32 (sum b % 256)

unfoldable pub toy_sign : Bytes → Bytes → Bytes
toy_sign priv b = digest (take 32 priv) ++ digest b

abbrev scan : Bytes → Option Bytes
scan (a ∷ b ∷ c ∷ d ∷ x ∷ rest) =
    if a == b'd' && (b == b'i' && (c == b'd' && (d == b':' && (leb 0x21 x && ltb x 0x7f))))
    then some (x ∷ rest)
    else none
scan _ = none

abbrev pub toy : Crypto
toy = record {
  sha256 = digest;
  ed25519_sign = toy_sign;
  ed25519_verify = λ key b sig. bytes_eq sig (toy_sign key b);
  sscanf_did = scan;
}

fill-byte : (n b : ℕ) → b < 256 → All (λ x. x < 256) (fill n b)
fill-byte zero b h = tt
fill-byte (suc n) b h = (h, fill-byte n b h)

length-fill : (n b : ℕ) → length (fill n b) ≡ n
length-fill zero b = refl
length-fill (suc n) b = omega (arith, length-fill n b)

length-digest : (b : Bytes) → length (digest b) ≡ 32
unfolding digest
length-digest b = length-fill 32 (sum b % 256)

scan_prefix : (s m : Bytes) → scan s ≡ some m → (rest : Bytes) × (s ≡ codes "did:" ++ rest)
scan_prefix (a ∷ b ∷ c ∷ d ∷ x ∷ rest) m e = (x ∷ rest, ground arith)
scan_prefix _ m e = absurd (cc)

scan_visible :
    (x : ℕ) (rest : Bytes)
    → IsVisible x
    → (m : Bytes) × (scan (codes "did:" ++ (x ∷ rest)) ≡ some m)
scan_visible x rest h = (x ∷ rest, ground arith)

pub toy-IsCrypto : IsCrypto toy
unfolding digest toy_sign
toy-IsCrypto = record {
  sha256_bytes = λ b. fill-byte 32 (sum b % 256) (omega arith);
  sha256_size = length-digest;
  signature_size = λ priv b. ground (
    arith,
    length-append (digest (take 32 priv)) (digest b),
    length-digest (take 32 priv),
    length-digest b,
  );
  sscanf_prefix = scan_prefix;
  sscanf_visible = scan_visible;
}

-- Two key pairs: the private key is the public key, and 32 bytes more.
abbrev pub key : ℕ → Bytes
key n = fill 32 n

abbrev pub priv : ℕ → Bytes
priv n = fill 64 n

pub key-IsKeyPair : (n : ℕ) → IsKeyPair toy (key n) (priv n)
unfolding toy_sign
key-IsKeyPair n = record {
  key_size = refl;
  priv_size = refl;
  verified = λ b. bytes_eq_refl (toy_sign (key n) b);
}
