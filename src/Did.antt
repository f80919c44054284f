-- ===== src/Did.antt =====
-- core/did.go: decentralised identifiers.
pub mod Packages
pub mod Hex
pub mod Parse
pub mod Binding
pub mod Texts
use agent_semantic_protocol.Common.{
  ℕ, ◌+◌, ◌≤◌, Bool, true, false, ◌||◌, Option, none, some, List, [], ◌∷◌, ◌++◌, Bytes, codes,
  length, drop, is_empty, bytes_eq, leb, ◌==◌, if◌then◌else◌,
}
use agent_semantic_protocol.Common.Outcome.{
  message, with_number, with_string, Result, ok, err, panic, ◌>>=◌, want,
}
use agent_semantic_protocol.Did.Packages.{Crypto, public_key_size, private_key_size}
use agent_semantic_protocol.Did.Hex.{hex_encode}

-- A nil key is `none`.
pub record Did : Type 0 where
  pub method : Bytes
  pub id : Bytes
  pub pub_key : Option Bytes
  pub priv_key : Option Bytes

abbrev pub method_name : Bytes
method_name = codes "agent-semantic-protocol"

abbrev pub prepend : ℕ → Option (Bytes × Bytes) → Option (Bytes × Bytes)
prepend c none = none
prepend c (some (m, i)) = some (c ∷ m, i)

-- `rest[:i]` and `rest[i+1:]` at the first colon. A colon is one byte, and no byte of a longer
-- character, so the loop over the characters of `rest` finds the first such byte.
unfoldable pub split_colon : Bytes → Option (Bytes × Bytes)
split_colon [] = none
split_colon (c ∷ rest) = if c == b':' then some ([], rest) else prepend c (split_colon rest)

-- With no colon, `method` is still what `Sscanf` stored, and `id` is empty.
abbrev pub parts {ℓ} : {A : Type ℓ} → A → Option (A × A) → A → A × A
parts scanned none nothing = (scanned, nothing)
parts scanned (some p) nothing = p

module _ (c : Crypto) where
  unfoldable pub did_from_key : Bytes → Option Bytes → Did
  did_from_key key priv = record {
    method = method_name;
    id = hex_encode (c.sha256 key);
    pub_key = some key;
    priv_key = priv;
  }

  -- `generated` is what `ed25519.GenerateKey(rand.Reader)` returned.
  unfoldable pub new_did : Option (Bytes × Bytes) → Result Did
  new_did generated = do
    (key, priv) ← want (message "did: key generation failed") generated
    ok (did_from_key key (some priv))

  unfoldable pub did_from_public_key : Bytes → Result Did
  did_from_public_key key =
      if length key == public_key_size
      then ok (did_from_key key none)
      else err (with_number "did: expected 32-byte public key, got %d" (length key))

  unfoldable pub parse_did : Bytes → Result Did
  parse_did s = do
    scanned ← want (with_string "did: invalid format %q" s) (c.sscanf_did s)
    if leb (length s) 4
        then err (with_string "did: too short %q" s)
        else (let p = parts scanned (split_colon (drop 4 s)) [] in
            if is_empty p.0 || is_empty p.1
            then err (with_string "did: invalid format %q" s)
            else ok (record { method = p.0; id = p.1; pub_key = none; priv_key = none }))

  -- `ed25519.Sign` panics at a private key of another length.
  unfoldable pub sign : Did → Bytes → Result Bytes
  sign d bytes = elim d.priv_key [
    | none ↦ err (message "did: private key not available")
    | some priv ↦ if length priv == private_key_size then ok (c.ed25519_sign priv bytes) else panic
  ]

  -- `ed25519.Verify` panics at a public key of another length.
  unfoldable pub verify : Did → Bytes → Bytes → Result Bool
  verify d bytes sig = elim d.pub_key [
    | none ↦ ok false
    | some key ↦
        if length key == public_key_size then ok (c.ed25519_verify key bytes sig) else panic
  ]

  unfoldable pub validate_binding : Did → Bytes → Bool
  validate_binding d key = bytes_eq (hex_encode (c.sha256 key)) d.id

-- `DID.String`
unfoldable pub to_string : Did → Bytes
to_string d = codes "did:" ++ (d.method ++ (b':' ∷ d.id))

-- `DID.PublicKey` copies the key, and is nil where there is none.
unfoldable pub public_key : Did → Option Bytes
public_key d = d.pub_key
