-- ===== src/Negotiation/Signatures.antt =====
-- core/negotiation.go: signatures of intents and responses.
use agent_semantic_protocol.Common.{
  ◌≡◌, refl, ◌∙◌, ap, Bool, true, false, none, some, List, [], ◌∷◌, ◌++◌, Bytes, codes, length,
  is_empty, if◌then◌else◌, ◌==◌, arith,
}
use agent_semantic_protocol.Common.Int64.{ℤ}
use agent_semantic_protocol.Common.Outcome.{ok}
use agent_semantic_protocol.Wire.Float32.{Float32}
use agent_semantic_protocol.Messages.Types.{IntentMessage, NegotiationResponse, protocol_version}
use agent_semantic_protocol.Did
use agent_semantic_protocol.Did.{did_from_key, did_from_public_key, verify}
use agent_semantic_protocol.Did.Hex.{hex_encode}
use agent_semantic_protocol.Did.Packages.{Crypto, IsKeyPair, public_key_size}
use agent_semantic_protocol.Agent.{Agent}
use agent_semantic_protocol.Negotiation.{
  with_signature, unsigned_response, random_id, default_handler, create_intent, verify_signature,
  verify_intent_signature, verify_response_signature,
}

module _ (c : Crypto) where
  -- What the check answers, in one line for each branch.
  pub verify_signature_lem :
      (signature b key : Bytes)
      → verify_signature c signature b key ≡ (
          if is_empty signature
          then ok true
          else if length key == public_key_size
          then ok (c.ed25519_verify key b signature)
          else ok false)
  unfolding did_from_public_key did_from_key verify
  verify_signature_lem [] b key = refl
  verify_signature_lem (x ∷ xs) b key = ground arith

  -- The checks of both kinds of message answer on any message and any key, without a panic: an
  -- empty signature passes whatever the key is, a key that has not 32 bytes passes no other
  -- signature, and with such a key the answer is the verification of the two texts, joined.
  pub verify_signatures_lem :
      (intent : IntentMessage) (resp : NegotiationResponse) (key : Bytes)
      → (verify_intent_signature c intent key ≡ (
          if is_empty intent.signature
          then ok true
          else if length key == public_key_size
          then ok (c.ed25519_verify key (intent.id ++ intent.payload) intent.signature)
          else ok false))
        × (verify_response_signature c resp key ≡ (
            if is_empty resp.signature
            then ok true
            else if length key == public_key_size
            then ok (c.ed25519_verify key (resp.request_id ++ resp.reason) resp.signature)
            else ok false))
  unfolding verify_intent_signature verify_response_signature
  verify_signatures_lem intent resp key =
      (verify_signature_lem intent.signature _ key, verify_signature_lem resp.signature _ key)

  pub signed_by_key :
      (key priv b : Bytes)
      → IsKeyPair c key priv
      → verify_signature c (c.ed25519_sign priv b) b key ≡ ok true
  signed_by_key key priv b h =
      rw (verify_signature_lem (c.ed25519_sign priv b) b key, h.key_size, h.verified b)
        (one (is_empty (c.ed25519_sign priv b)))
    where
      one : (e : Bool) → (if e then ok true else ok true) ≡ ok true
      one true = refl
      one false = refl

  -- The default handler of an agent with a key pair answers any intent, and the answer is accepted by
  -- the check with the agent's public key.
  pub default_handler_signed :
      (agent : Agent) (key priv : Bytes) (now : ℤ) (intent : IntentMessage)
      → IsKeyPair c key priv
      → agent.did.priv_key ≡ some priv
      → (resp : NegotiationResponse) × ((default_handler c agent now intent ≡ ok resp)
          × (verify_response_signature c resp key ≡ ok true))
  unfolding default_handler with_signature Did.sign verify_response_signature
  default_handler_signed agent key priv now intent h hd =
      let r = unsigned_response agent now intent in
      let b = r.request_id ++ r.reason in
      (
        record r { signature = c.ed25519_sign priv b },
        (rw (hd, h.priv_size), signed_by_key key priv b h),
      )

  -- An intent that an agent with a key pair creates, from any random bytes, is accepted by the check
  -- with the agent's public key; it carries the sender's identifier and what was asked for.
  pub create_intent_signed :
      (sender : Agent) (key priv : Bytes) (vector : List Float32) (required : List Bytes)
      (payload bytes : Bytes) (now : ℤ)
      → IsKeyPair c key priv
      → sender.did.priv_key ≡ some priv
      → (intent : IntentMessage) × ((create_intent c sender vector required payload (some bytes) now
            ≡ ok intent)
          × ((verify_intent_signature c intent key ≡ ok true)
              × (intent.did ≡ Did.to_string sender.did)
              × (intent.capabilities ≡ required)
              × (intent.payload ≡ payload)))
  unfolding create_intent random_id Did.sign verify_intent_signature
  create_intent_signed sender key priv vector required payload bytes now h hd = (
    signed,
    (
      rw (hd, h.priv_size),
      (signed_by_key key priv (hex_encode bytes ++ payload) h, refl, refl, refl),
    ),
  )
    where
      signed : IntentMessage
      signed = record {
        id = hex_encode bytes;
        intent_vector = vector;
        capabilities = required;
        did = Did.to_string sender.did;
        payload = payload;
        timestamp = now;
        trust_score = 0x3f000000;
        metadata = (codes "protocol", protocol_version) ∷ [];
        signature = c.ed25519_sign priv (hex_encode bytes ++ payload);
        logger = none;
      }

  -- An intent that an agent with a key pair creates, from any random bytes, is accepted by the check
  -- with the agent's public key, and carries the sender's identifier and what was asked for. So is
  -- any other message with its signature and with its id and payload joined, wherever the id ends
  -- and whatever the other's capabilities, vector, identifier and remaining fields are.
  pub created_intent_altered :
      (sender : Agent) (key priv : Bytes) (vector : List Float32) (required : List Bytes)
      (payload bytes : Bytes) (now : ℤ) (other : IntentMessage)
      → IsKeyPair c key priv
      → sender.did.priv_key ≡ some priv
      → other.id ++ other.payload ≡ hex_encode bytes ++ payload
      → other.signature ≡ c.ed25519_sign priv (hex_encode bytes ++ payload)
      → (intent : IntentMessage) × ((create_intent c sender vector required payload (some bytes) now
            ≡ ok intent)
          × (verify_intent_signature c intent key ≡ ok true)
          × (verify_intent_signature c other key ≡ ok true)
          × ((intent.did ≡ Did.to_string sender.did)
              × (intent.capabilities ≡ required)
              × (intent.payload ≡ payload)))
  unfolding verify_intent_signature
  created_intent_altered sender key priv vector required payload bytes now other pair hd joined
        signed =
      let (intent, (created, (verified, same_did, same_caps, same_payload))) =
        create_intent_signed sender key priv vector required payload bytes now pair hd in
      (
        intent,
        (
          created,
          verified,
          ap (λ s. verify_signature c s (other.id ++ other.payload) key) signed
              ∙ ap
                  (λ b.
                    verify_signature c (c.ed25519_sign priv (hex_encode bytes ++ payload)) b key)
                  joined
              ∙ signed_by_key key priv (hex_encode bytes ++ payload) pair,
          (same_did, same_caps, same_payload),
        ),
      )
