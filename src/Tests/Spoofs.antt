-- ===== src/Tests/Spoofs.antt =====
-- p2p/host.go, core/did.go and core/discovery.go: a borrowed identity, the texts of identifiers, and
-- a registry in two orders.
use agent_semantic_protocol.Common.{
  ◌+◌, ◌≤◌, ◌≡◌, refl, none, some, [], ◌∷◌, codes, length, bytes_eq, arith,
}
use mathlib.Core.Quot
use mathlib.Core.Equiv.{IsEquiv}
use agent_semantic_protocol.Common.Bags.{bag, here}
use agent_semantic_protocol.Common.Int64.{pos, uint64}
use agent_semantic_protocol.Common.Outcome.{ok}
use agent_semantic_protocol.Wire.Maps.{get}
use agent_semantic_protocol.Messages.Types.{HandshakeMessage, IntentMessage, NegotiationResponse}
use agent_semantic_protocol.Wire.Encoder.{
  str, i64, strs, bytes, f32, packed_f32, pack_loop, str_map, map_entry,
}
use agent_semantic_protocol.Messages.Intent
use agent_semantic_protocol.Messages.Intent.RoundTrip.{IsGoIntent}
use agent_semantic_protocol.Messages.Message.{handshake, intent, negotiation}
use agent_semantic_protocol.Did.{did_from_key, parse_did, split_colon, to_string}
use agent_semantic_protocol.Did.Hex.{hex_encode}
use agent_semantic_protocol.Did.Texts.{name_of, name_of-IsEquiv}
use agent_semantic_protocol.Agent
use agent_semantic_protocol.Handshake.Accept.{NamesKey}
use agent_semantic_protocol.Trust.{apply}
use agent_semantic_protocol.Discovery.{
  RegistryEntry, Registry, find_by_capability, all_profiles, evict,
}
use agent_semantic_protocol.Discovery.Expiry.{entry}
use agent_semantic_protocol.Discovery.Orders.{registry_order_free}
use agent_semantic_protocol.Stream.{write_msg, max_length}
use agent_semantic_protocol.Host.{remember, handle_stream, profile_of, new_host}
use agent_semantic_protocol.Host.Spoofed.{identity_without_key}
use agent_semantic_protocol.Tests.Varint.{varint}
use agent_semantic_protocol.Tests.Protobuf.{protobuf, protobuf-IsProtowire}
use agent_semantic_protocol.Tests.ToyCrypto.{toy, toy-IsCrypto, key, priv, key-IsKeyPair, digest}
use agent_semantic_protocol.Tests.Hosts.{left, env, env', ours, ours-IsGo, ours_small}
use agent_semantic_protocol.Tests.Intents.{worker, asked}

-- Alice's public identity, which anyone can send.
alice_named : NamesKey toy ours.did ours.public_key
unfolding ours new_host did_from_key hex_encode digest to_string parse_did split_colon
    Agent.public_key
alice_named = (
  record {
    method = codes "agent-semantic-protocol";
    id = hex_encode (digest (key 1));
    pub_key = none;
    priv_key = none;
  },
  refl,
  refl,
)

abbrev unsigned : IntentMessage
unsigned = record asked { signature = [] }

unsigned-IsGo : IsGoIntent protobuf unsigned
unfolding map_entry varint get bytes_eq did_from_key hex_encode digest to_string
unsigned-IsGo = record {
  id_fits = omega arith;
  vector_floats = omega arith;
  vector_fits = omega arith;
  capabilities_fit = omega arith;
  did_fits = omega arith;
  payload_fits = omega arith;
  timestamp_int64 = omega arith;
  trust_score_float = omega arith;
  metadata_fits = omega arith;
  metadata_map = (refl, (refl, (refl, tt)));
  signature_fits = omega arith;
}

unsigned_small : 1 + length (Intent.encode protobuf unsigned) ≤ max_length
unfolding did_from_key hex_encode digest to_string Intent.encode str strs i64 bytes f32 packed_f32
    pack_loop str_map map_entry varint uint64
unsigned_small = omega arith

-- The peer M sends both messages.
identity_without_key_example :
    (reply : HandshakeMessage) × ((resp : NegotiationResponse) × ((handle_stream protobuf toy left
            env
            (codes "M")
            (write_msg protobuf (handshake ours) [])
            worker
          ≡ ok (remember 10 (codes "M") ours worker, write_msg protobuf (handshake reply) []))
        × (get (codes "M") (remember 10 (codes "M") ours worker).known ≡ some (profile_of ours))
        × (get ours.agent_id (remember 10 (codes "M") ours worker).discovery
            ≡ some (entry (profile_of ours) 10 (pos 0)))
        × (handle_stream protobuf toy left env'
              (codes "M")
              (write_msg protobuf (intent unsigned) [])
              (remember 10 (codes "M") ours worker)
            ≡ ok (
              record (remember 10 (codes "M") ours worker) {
                trust =
                    apply left
                      (to_string worker.agent.did)
                      unsigned.did
                      resp.trust_delta
                      worker.trust;
              },
              write_msg protobuf (negotiation resp) [],
            ))))
unfolding new_host did_from_key
identity_without_key_example =
    identity_without_key protobuf protobuf-IsProtowire toy left (key 2) (priv 2) worker env env'
      (5 ∷ []) (codes "M") ours unsigned (key-IsKeyPair 2) refl refl refl refl alice_named ours-IsGo
      ours_small refl unsigned-IsGo (omega arith) unsigned_small

name_of-IsEquiv_example : IsEquiv (name_of toy toy-IsCrypto)
name_of-IsEquiv_example = name_of-IsEquiv toy toy-IsCrypto

abbrev old : RegistryEntry
old = record {
  profile = record {
    agent_id = codes "a";
    did = [];
    capabilities = codes "nlp" ∷ [];
    embedding_vector = [];
    public_key = [];
  };
  expires_at = 5;
}

abbrev young : RegistryEntry
young = record old { expires_at = 20 }

abbrev one_order : Registry
one_order = (codes "a", old) ∷ (codes "b", young) ∷ []

abbrev other_order : Registry
other_order = (codes "b", young) ∷ (codes "a", old) ∷ []

registry_order_free_example :
    (bag (find_by_capability (λ _. 9) (codes "nlp" ∷ []) one_order)
      ≡ bag (find_by_capability (λ _. 9) (codes "nlp" ∷ []) other_order))
    × (bag (all_profiles (λ _. 9) one_order) ≡ bag (all_profiles (λ _. 9) other_order))
    × (bag (evict (λ _. 9) one_order).0 ≡ bag (evict (λ _. 9) other_order).0)
    × ((evict (λ _. 9) one_order).1 ≡ (evict (λ _. 9) other_order).1)
unfolding get bytes_eq
registry_order_free_example =
    registry_order_free 9 (codes "nlp" ∷ []) one_order other_order (refl, (refl, tt))
      (refl, (refl, tt)) (Quot.sound (here _ _ []))
