-- ===== src/Did/Binding.antt =====
-- core/did.go: keys, signatures and the binding of a key to an identifier.
use agent_semantic_protocol.Common.{
  ◌≡◌, ◌≢◌, ◌↔◌, refl, sym, ◌∙◌, ap, true, Option, none, some, [], Bytes, length, bytes_eq_iff,
  arith,
}
use agent_semantic_protocol.Common.Outcome.{ok, ◌>>=◌}
use agent_semantic_protocol.Did.Packages.{Crypto, IsCrypto, IsKeyPair}
use agent_semantic_protocol.Did.Hex.{hex_encode, hex_encode_injective, length-hex_encode}
use agent_semantic_protocol.Did.Parse.{parse_did-to_string}
use agent_semantic_protocol.Did.{
  Did, method_name, did_from_key, did_from_public_key, parse_did, sign, verify, validate_binding,
  to_string,
}

module _ (c : Crypto) where
  -- The binding holds exactly where the identifier is the digest of the key, in hexadecimal.
  pub validate_binding_iff :
      (d : Did) (key : Bytes)
      → (validate_binding c d key ≡ true) ↔ (hex_encode (c.sha256 key) ≡ d.id)
  unfolding validate_binding
  validate_binding_iff d key = bytes_eq_iff (hex_encode (c.sha256 key)) d.id

  module _ (laws : IsCrypto c) where
    hex_nonempty : (b : Bytes) → length b ≡ 32 → hex_encode b ≢ []
    hex_nonempty b h e = absurd (omega (arith, ap (λ (x : Bytes). length x) e, length-hex_encode b))

    -- Two keys that are bound to one identifier have one digest.
    pub validate_binding_collision :
        (d : Did) (key key' : Bytes)
        → validate_binding c d key ≡ true
        → validate_binding c d key' ≡ true
        → c.sha256 key ≡ c.sha256 key'
    validate_binding_collision d key key' h h' =
        hex_encode_injective (c.sha256 key) (c.sha256 key') (laws.sha256_bytes key)
          (laws.sha256_bytes key')
          ((validate_binding_iff d key).0 h ∙ sym ((validate_binding_iff d key').0 h'))

    -- The text of an identifier that was made from a key parses, and the result is bound to the key.
    pub parse_did-did_from_key :
        (key : Bytes) (priv : Option Bytes)
        → parse_did c (to_string (did_from_key c key priv))
          ≡ ok (record {
            method = method_name;
            id = hex_encode (c.sha256 key);
            pub_key = none;
            priv_key = none;
          })
    unfolding did_from_key
    parse_did-did_from_key key priv =
        parse_did-to_string c laws _ b'a' _ refl (omega arith) (omega arith)
          (hex_nonempty (c.sha256 key) (laws.sha256_size key))

  -- What the owner of a key pair signs is verified by the identifier that anyone makes from the
  -- public key alone; neither call panics.
  pub verify-sign :
      (key priv b : Bytes)
      → IsKeyPair c key priv
      → (do
        d ← did_from_public_key c key
        sig ← sign c (did_from_key c key (some priv)) b
        verify c d b sig)
        ≡ ok true
  unfolding did_from_public_key sign verify did_from_key
  verify-sign key priv b h = rw (h.key_size, h.priv_size) (rw (h.key_size) (rw (h.verified b)))
