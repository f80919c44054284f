-- ===== src/Tests/Negotiations.antt =====
-- examples/negotiation-demo/main.go: the program with a toy signature scheme.
use agent_semantic_protocol.Common.{
  ◌≡◌, ◌↔◌, refl, true, false, none, some, [], ◌∷◌, ◌++◌, if◌then◌else◌, bytes_eq, arith, All,
}
use agent_semantic_protocol.Common.Int64.{pos, uint64}
use agent_semantic_protocol.Common.Outcome.{message, ok}
use agent_semantic_protocol.Wire.Maps.{get}
use agent_semantic_protocol.Wire.Encoder.{
  str, i64, strs, bytes, f32, boolean, packed_f32, pack_loop, str_map, map_entry,
}
use agent_semantic_protocol.Messages.Types.{NegotiationResponse}
use agent_semantic_protocol.Messages.Handshake
use agent_semantic_protocol.Messages.Intent
use agent_semantic_protocol.Messages.Negotiation
use agent_semantic_protocol.Did.{did_from_key, to_string}
use agent_semantic_protocol.Did.Hex.{hex_encode}
use agent_semantic_protocol.Agent
use agent_semantic_protocol.Capability.Sets.{Offers}
use agent_semantic_protocol.Negotiation.{verify_response_signature, reflect_vector}
use agent_semantic_protocol.Host.Libp2p.{peer_id}
use agent_semantic_protocol.Examples.NegotiationDemo
use agent_semantic_protocol.Examples.NegotiationDemo.{Attempt, World, banner}
use agent_semantic_protocol.Examples.NegotiationDemo.Callback.{code_callback, detailed_steps}
use agent_semantic_protocol.Examples.NegotiationDemo.Shakes.{FitsHandshake}
use agent_semantic_protocol.Examples.NegotiationDemo.Calm
use agent_semantic_protocol.Examples.NegotiationDemo.Calm.{Seeds, calm, FitsIntent, FitsResponse}
use agent_semantic_protocol.Examples.NegotiationDemo.Handler.{code_callback_lem}
use agent_semantic_protocol.Examples.NegotiationDemo.Completes.{negotiation_demo_completes}
use agent_semantic_protocol.Tests.Varint.{varint}
use agent_semantic_protocol.Tests.Protobuf.{protobuf, protobuf-IsProtowire}
use agent_semantic_protocol.Tests.ToyCrypto.{
  toy, toy-IsCrypto, key, priv, key-IsKeyPair, digest, toy_sign,
}
use agent_semantic_protocol.Tests.Hosts.{left, env, env'}
use agent_semantic_protocol.Tests.Demos.{libp2p}

abbrev seeds : Seeds
seeds = record {
  key_r = key 1;
  priv_r = priv 1;
  key_c = key 2;
  priv_c = priv 2;
  key_l = key 3;
  priv_l = priv 3;
  nonce_c = 5 ∷ [];
  nonce_c' = 6 ∷ [];
  nonce_l = 7 ∷ [];
  nonce_l' = 8 ∷ [];
  id = 0xab ∷ [];
  local_id = 0xcd ∷ [];
  refusal_c = some (message "no addresses");
  refusal_l = none;
}

abbrev try : Attempt
try = record { dial = λ info. none; opens = false; env = env; handler_env = env'; now = pos 3 }

abbrev world : World
world = record {
  keys_r = none;
  keys_c = none;
  keys_l = none;
  failed_r = none;
  failed_c = none;
  failed_l = none;
  libp2p_r = libp2p 1;
  libp2p_c = libp2p 2;
  libp2p_l = libp2p 3;
  dial = λ info. none;
  first_c = try;
  retry_c = try;
  first_l = try;
  retry_l = try;
  intent_id = none;
  intent_now = pos 4;
  opens_c = false;
  opens_l = false;
  intent_env_c = env';
  intent_env_l = env';
  callback_now = pos 5;
  local_id = none;
  local_now = pos 6;
  bus_now = pos 7;
}

greeting_c-Fits : FitsHandshake protobuf (Calm.greeting_c toy seeds world)
unfolding did_from_key hex_encode digest Agent.public_key to_string Handshake.encode str strs i64
    bytes varint uint64
greeting_c-Fits = (omega arith, omega arith)

response_c-Fits : FitsHandshake protobuf (Calm.response_c toy seeds world)
unfolding did_from_key hex_encode digest toy_sign Agent.public_key to_string Handshake.encode str
    strs i64 bytes varint uint64
response_c-Fits = (omega arith, omega arith)

greeting_l-Fits : FitsHandshake protobuf (Calm.greeting_l toy seeds world)
unfolding did_from_key hex_encode digest Agent.public_key to_string Handshake.encode str strs i64
    bytes varint uint64
greeting_l-Fits = (omega arith, omega arith)

response_l-Fits : FitsHandshake protobuf (Calm.response_l toy seeds world)
unfolding did_from_key hex_encode digest toy_sign Agent.public_key to_string Handshake.encode str
    strs i64 bytes varint uint64
response_l-Fits = (omega arith, omega arith)

asked-Fits : FitsIntent protobuf (Calm.asked toy seeds world)
unfolding map_entry varint get bytes_eq did_from_key hex_encode digest toy_sign to_string
    Intent.encode str strs i64 bytes f32 packed_f32 pack_loop str_map uint64
asked-Fits = (
  record {
    id_fits = omega arith;
    vector_floats = omega arith;
    vector_fits = omega arith;
    capabilities_fit = omega arith;
    did_fits = omega arith;
    payload_fits = omega arith;
    timestamp_int64 = omega arith;
    trust_score_float = omega arith;
    metadata_fits = omega arith;
    metadata_map = (refl, tt);
    signature_fits = omega arith;
  },
  omega arith,
)

code_reply-Fits : FitsResponse protobuf (Calm.code_reply toy seeds world)
unfolding did_from_key hex_encode digest toy_sign to_string Negotiation.encode str strs i64 bytes
    f32 boolean packed_f32 pack_loop varint uint64 reflect_vector
code_reply-Fits = (omega arith, omega arith)

limited_reply-Fits : FitsResponse protobuf (Calm.limited_reply toy seeds world)
unfolding did_from_key hex_encode digest toy_sign to_string Negotiation.encode str strs i64 bytes
    f32 boolean packed_f32 pack_loop varint uint64 reflect_vector
limited_reply-Fits = (omega arith, omega arith)

negotiation_demo_example : NegotiationDemo.main protobuf toy left (calm seeds world) ≡ record {
  printed =
      banner
      ++ Calm.handshake_lines toy seeds
      ++ Calm.negotiation_lines toy seeds world
      ++ Calm.conclusion toy seeds left;
  outcome = ok tt;
}
unfolding peer_id
negotiation_demo_example =
    negotiation_demo_completes protobuf protobuf-IsProtowire toy toy-IsCrypto left seeds world
      (key-IsKeyPair 1) (key-IsKeyPair 2) (key-IsKeyPair 3) (λ e. absurd (cc)) greeting_c-Fits
      response_c-Fits greeting_l-Fits response_l-Fits asked-Fits code_reply-Fits limited_reply-Fits

code_callback_example :
    (resp : NegotiationResponse) × ((code_callback toy
          (Calm.code_agent toy seeds)
          (pos 5)
          (1 ∷ [])
          (Calm.asked toy seeds world)
        ≡ ok (some resp))
      × (verify_response_signature toy resp (key 2) ≡ ok true)
      × (resp.request_id ≡ hex_encode (0xab ∷ []))
      × ((resp.accepted ≡ true) ↔ All (Offers NegotiationDemo.code_caps) NegotiationDemo.required)
      × (resp.workflow_steps ≡ (if resp.accepted then detailed_steps else [])))
unfolding did_from_key
code_callback_example =
    code_callback_lem toy (Calm.code_agent toy seeds) (key 2) (priv 2) (pos 5) (1 ∷ [])
      (Calm.asked toy seeds world) (key-IsKeyPair 2) refl
