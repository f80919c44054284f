-- ===== src/Tests/Negotiate.antt =====
-- core/negotiation.go: the theorems at concrete agents and intents.
use agent_semantic_protocol.Common.{
  ◌≡◌, refl, some, none, true, false, [], ◌∷◌, ◌++◌, Bytes, codes, length, is_empty, if◌then◌else◌,
  ◌==◌, arith, bytes_eq,
}
use agent_semantic_protocol.Common.Int64.{pos}
use agent_semantic_protocol.Common.Outcome.{ok}
use agent_semantic_protocol.Messages.Types.{IntentMessage, NegotiationResponse}
use agent_semantic_protocol.Tests.ToyCrypto
use agent_semantic_protocol.Did.{did_from_key, to_string, validate_binding}
use agent_semantic_protocol.Did.Binding.{validate_binding_collision}
use agent_semantic_protocol.Did.Packages.{public_key_size}
use agent_semantic_protocol.Did.Hex.{hex_encode}
use agent_semantic_protocol.Agent.{Agent}
use agent_semantic_protocol.Negotiation.{
  create_intent, default_handler, reflect_vector, verify_intent_signature,
  verify_response_signature,
}
use agent_semantic_protocol.Negotiation.Handler.{reflect_vector_twice}
use agent_semantic_protocol.Negotiation.Signatures.{
  verify_signatures_lem, default_handler_signed, created_intent_altered,
}
use agent_semantic_protocol.Tests.ToyCrypto.{toy, toy-IsCrypto, key, priv, key-IsKeyPair}

abbrev worker : Agent
worker = record {
  id = codes "w";
  did = did_from_key toy (key 1) (some (priv 1));
  capabilities = codes "nlp" ∷ [];
  pub_key = some (key 1);
  priv_key = some (priv 1);
}

abbrev intent : IntentMessage
intent = record {
  id = codes "ab";
  intent_vector = 0x3f800000 ∷ [];
  capabilities = codes "nlp" ∷ [];
  did = [];
  payload = codes "c";
  timestamp = pos 1;
  trust_score = 0;
  metadata = [];
  signature = toy.ed25519_sign (priv 1) (codes "abc");
  logger = none;
}

-- The id ends one byte earlier, and it asks for something else.
abbrev shifted : IntentMessage
shifted = record intent { id = codes "a"; payload = codes "bc"; capabilities = codes "x" ∷ [] }

abbrev answer_to : NegotiationResponse
answer_to = record {
  request_id = codes "ab";
  agent_id = codes "w";
  accepted = true;
  workflow_steps = codes "parse_intent:ab" ∷ codes "execute:nlp" ∷ codes "return_result:ab" ∷ [];
  did = to_string (did_from_key toy (key 1) (some (priv 1)));
  response_vector = 0xbf800000 ∷ [];
  timestamp = pos 2;
  reason = codes "all capabilities available";
  trust_delta = 0x3d4ccccd;
  signature = toy.ed25519_sign (priv 1) (codes "ab" ++ codes "all capabilities available");
}

handler_signed_example :
    (resp : NegotiationResponse) × ((default_handler toy worker (pos 2) intent ≡ ok resp)
      × (verify_response_signature toy resp (key 1) ≡ ok true))
unfolding did_from_key
handler_signed_example =
    default_handler_signed toy worker (key 1) (priv 1) (pos 2) intent (key-IsKeyPair 1) refl

verify_signatures_example :
    (verify_intent_signature toy intent (key 1) ≡ (
      if is_empty intent.signature
      then ok true
      else if length (key 1) == public_key_size
      then ok (toy.ed25519_verify (key 1) (intent.id ++ intent.payload) intent.signature)
      else ok false))
    × (verify_response_signature toy answer_to (key 1) ≡ (
        if is_empty answer_to.signature
        then ok true
        else if length (key 1) == public_key_size
        then ok (
            toy.ed25519_verify
              (key 1)
              (answer_to.request_id ++ answer_to.reason)
              answer_to.signature)
        else ok false))
verify_signatures_example = verify_signatures_lem toy intent answer_to (key 1)

altered_example :
    (i : IntentMessage) × ((create_intent toy worker
          (0 ∷ [])
          (codes "nlp" ∷ [])
          (codes "c")
          (some (171 ∷ []))
          (pos 3)
        ≡ ok i)
      × (verify_intent_signature toy i (key 1) ≡ ok true)
      × (verify_intent_signature toy shifted (key 1) ≡ ok true)
      × ((i.did ≡ to_string worker.did)
          × (i.capabilities ≡ codes "nlp" ∷ [])
          × (i.payload ≡ codes "c")))
unfolding did_from_key hex_encode
altered_example =
    created_intent_altered toy worker (key 1) (priv 1) (0 ∷ []) (codes "nlp" ∷ []) (codes "c")
      (171 ∷ []) (pos 3) shifted (key-IsKeyPair 1) refl refl refl

reflect_example :
    reflect_vector (reflect_vector (0x3f800000 ∷ 0xbf000000 ∷ [])) ≡ 0x3f800000 ∷ 0xbf000000 ∷ []
reflect_example =
    reflect_vector_twice (0x3f800000 ∷ 0xbf000000 ∷ []) (omega arith, (omega arith, tt))

-- Another key with the digest of the first.
abbrev twin : Bytes
twin = 0 ∷ 2 ∷ ToyCrypto.fill 30 1

collision_example : toy.sha256 (key 1) ≡ toy.sha256 twin
unfolding did_from_key validate_binding bytes_eq hex_encode ToyCrypto.digest
collision_example =
    validate_binding_collision toy toy-IsCrypto (did_from_key toy (key 1) none) (key 1) twin refl
      refl
