-- ===== src/Tests/Intents.antt =====
-- p2p/host.go: an intent between two concrete hosts.
use agent_semantic_protocol.Common.{
  ◌+◌, ◌≤◌, ◌≡◌, ◌↔◌, refl, true, none, [], ◌∷◌, codes, length, bytes_eq, arith, All,
}
use agent_semantic_protocol.Common.Int64.{pos, uint64}
use agent_semantic_protocol.Common.Outcome.{ok}
use agent_semantic_protocol.Wire.Maps.{get, put}
use agent_semantic_protocol.Wire.Encoder.{
  str, i64, strs, bytes, f32, boolean, packed_f32, pack_loop, str_map, map_entry,
}
use agent_semantic_protocol.Messages.Types.{IntentMessage, NegotiationResponse, protocol_version}
use agent_semantic_protocol.Messages.Intent
use agent_semantic_protocol.Messages.Intent.RoundTrip.{IsGoIntent}
use agent_semantic_protocol.Messages.Negotiation
use agent_semantic_protocol.Messages.Negotiation.RoundTrip.{IsGoResponse}
use agent_semantic_protocol.Messages.Message.{intent, negotiation}
use agent_semantic_protocol.Did
use agent_semantic_protocol.Did.{did_from_key, to_string}
use agent_semantic_protocol.Did.Hex.{hex_encode}
use agent_semantic_protocol.Capability.{missing_capabilities, missing_loop, has, have_loop}
use agent_semantic_protocol.Capability.Sets.{Offers}
use agent_semantic_protocol.Trust.{apply}
use agent_semantic_protocol.Discovery.{AgentProfile}
use agent_semantic_protocol.Negotiation.{
  default_handler, with_signature, reflect_vector, trust_delta, build_workflow, execute_steps,
}
use agent_semantic_protocol.Stream.{write_msg, max_length}
use agent_semantic_protocol.Host.{AgentHost, new_host, handle_stream, send_intent}
use agent_semantic_protocol.Host.Exchange.{as_peer}
use agent_semantic_protocol.Host.Negotiate.{hosts_negotiate}
use agent_semantic_protocol.Tests.Varint.{varint}
use agent_semantic_protocol.Tests.Protobuf.{protobuf, protobuf-IsProtowire}
use agent_semantic_protocol.Tests.ToyCrypto.{toy, key, priv, key-IsKeyPair, digest, toy_sign}
use agent_semantic_protocol.Tests.Hosts.{left, agent, env'}

abbrev pub worker : AgentHost
worker = record (new_host (agent 2 (codes "b"))) {
  agent = record (agent 2 (codes "b")) { capabilities = codes "nlp" ∷ [] };
}

abbrev pub profile : AgentProfile
profile = record {
  agent_id = codes "b";
  did = [];
  capabilities = codes "nlp" ∷ [];
  embedding_vector = [];
  public_key = key 2;
}

abbrev pub requester : AgentHost
requester = record (new_host (agent 1 (codes "a"))) {
  discovery = (codes "b", record { profile = profile; expires_at = 0 }) ∷ [];
  known = (codes "B", profile) ∷ [];
}

abbrev pub asked : IntentMessage
asked = record {
  id = codes "ab";
  intent_vector = 0x3f800000 ∷ [];
  capabilities = codes "nlp" ∷ [];
  did = to_string (agent 1 (codes "a")).did;
  payload = codes "p";
  timestamp = pos 1;
  trust_score = 0x3f000000;
  metadata =
      (codes "protocol", protocol_version)
      ∷ (codes "workflow_id", codes "w")
      ∷ (codes "step_id", codes "s")
      ∷ [];
  signature = toy.ed25519_sign (priv 1) (codes "abp");
  logger = none;
}

abbrev pub reply : NegotiationResponse
reply = record {
  request_id = codes "ab";
  agent_id = codes "b";
  accepted = true;
  workflow_steps = codes "parse_intent:ab" ∷ codes "execute:nlp" ∷ codes "return_result:ab" ∷ [];
  did = to_string (agent 2 (codes "b")).did;
  response_vector = 0xbf800000 ∷ [];
  timestamp = pos 2;
  reason = codes "all capabilities available";
  trust_delta = 0x3d4ccccd;
  signature = toy.ed25519_sign (priv 2) (codes "aball capabilities available");
}

pub asked-IsGo : IsGoIntent protobuf asked
unfolding map_entry varint get bytes_eq did_from_key hex_encode digest toy_sign to_string
asked-IsGo = record {
  id_fits = omega arith;
  vector_floats = omega arith;
  vector_fits = omega arith;
  capabilities_fit = omega arith;
  did_fits = omega arith;
  payload_fits = omega arith;
  timestamp_int64 = omega arith;
  trust_score_float = omega arith;
  metadata_fits = omega arith;
  metadata_map = (refl, (refl, (refl, tt)));
  signature_fits = omega arith;
}

reply-IsGo : IsGoResponse reply
unfolding did_from_key hex_encode digest toy_sign to_string
reply-IsGo = omega arith

pub asked_small : 1 + length (Intent.encode protobuf asked) ≤ max_length
unfolding did_from_key hex_encode digest toy_sign to_string Intent.encode str strs i64 bytes f32
    packed_f32 pack_loop str_map map_entry varint uint64
asked_small = omega arith

answered_small : 1 + length (Negotiation.encode protobuf reply) ≤ max_length
unfolding did_from_key hex_encode digest toy_sign to_string Negotiation.encode str strs i64 bytes
    f32 boolean packed_f32 pack_loop varint uint64
answered_small = omega arith

handler_answers : default_handler toy worker.agent (pos 2) asked ≡ ok reply
unfolding default_handler with_signature Did.sign did_from_key missing_capabilities reflect_vector
    trust_delta missing_loop has get have_loop put bytes_eq build_workflow execute_steps
handler_answers = refl

pub answer_returned :
    send_intent protobuf toy left
      (codes "B")
      (as_peer (λ sent. handle_stream protobuf toy left env' (codes "A") sent worker))
      asked
      requester
    ≡ ok (
      record requester {
        trust =
            apply left (to_string requester.agent.did) reply.did reply.trust_delta requester.trust;
      },
      reply,
    )
unfolding new_host get bytes_eq did_from_key
answer_returned =
    (hosts_negotiate protobuf protobuf-IsProtowire toy left (key 2) (priv 2) requester worker env'
      (codes "A") (codes "B") profile asked reply (key-IsKeyPair 2) refl refl refl refl refl
      handler_answers asked-IsGo (omega arith) asked_small reply-IsGo (omega arith)
      answered_small).1

hosts_negotiate_example :
    (handle_stream protobuf toy left env' (codes "A") (write_msg protobuf (intent asked) []) worker
      ≡ ok (
        record worker {
          trust = apply left (to_string worker.agent.did) asked.did reply.trust_delta worker.trust;
        },
        write_msg protobuf (negotiation reply) [],
      ))
    × (send_intent protobuf toy left
          (codes "B")
          (as_peer (λ sent. handle_stream protobuf toy left env' (codes "A") sent worker))
          asked
          requester
        ≡ ok (
          record requester {
            trust =
                apply left
                  (to_string requester.agent.did)
                  reply.did
                  reply.trust_delta
                  requester.trust;
          },
          reply,
        ))
    × ((reply.accepted ≡ true) ↔ All (Offers worker.agent.capabilities) asked.capabilities)
unfolding new_host get bytes_eq did_from_key
hosts_negotiate_example =
    hosts_negotiate protobuf protobuf-IsProtowire toy left (key 2) (priv 2) requester worker env'
      (codes "A") (codes "B") profile asked reply (key-IsKeyPair 2) refl refl refl refl refl
      handler_answers asked-IsGo (omega arith) asked_small reply-IsGo (omega arith) answered_small
