-- ===== src/Tests/Discoveries.antt =====
-- p2p/protocol.go: a discovery between two concrete hosts.
use agent_semantic_protocol.Common.{◌≡◌, refl, none, some, [], codes, arith}
use agent_semantic_protocol.Common.Int64.{pos}
use agent_semantic_protocol.Common.Outcome.{ok}
use agent_semantic_protocol.Wire.Maps.{get}
use agent_semantic_protocol.Handshake.{HandshakeResult, new_handshake_result}
use agent_semantic_protocol.Discovery.{AgentProfile, find_by_capability}
use agent_semantic_protocol.Discovery.Find.{Lists}
use agent_semantic_protocol.Host.{remember, handle_stream}
use agent_semantic_protocol.Host.Exchange.{as_peer}
use agent_semantic_protocol.Orchestrator.Discover.{
  discover_and_handshake, discover_and_handshake_lem,
}
use agent_semantic_protocol.Tests.Protobuf.{protobuf}
use agent_semantic_protocol.Tests.ToyCrypto.{toy}
use agent_semantic_protocol.Tests.Hosts.{left, alice, bob, env, env', response, exchanged}

abbrev discovered : HandshakeResult
discovered = record {
  peer_agent_id = response.agent_id;
  peer_did = response.did;
  peer_capabilities = response.capabilities;
  peer_public_key = response.public_key;
  protocol_version = response.version;
  completed_at = pos 3;
}

alice_discovers :
    discover_and_handshake protobuf toy env none
      (codes "B")
      (as_peer (λ sent. handle_stream protobuf toy left env' (codes "A") sent bob))
      (pos 3)
      alice
    ≡ ok (remember 10 (codes "B") response alice, discovered)
unfolding discover_and_handshake new_handshake_result
alice_discovers = rw (exchanged.1) refl

discover_and_handshake_example :
    (p : AgentProfile) × ((get (codes "B") (remember 10 (codes "B") response alice).known ≡ some p)
      × (p.agent_id ≡ discovered.peer_agent_id)
      × (p.did ≡ discovered.peer_did)
      × (p.capabilities ≡ discovered.peer_capabilities)
      × (p.public_key ≡ discovered.peer_public_key)
      × Lists
          (find_by_capability (λ i. 99) [] (remember 10 (codes "B") response alice).discovery)
          p)
discover_and_handshake_example =
    discover_and_handshake_lem protobuf toy left env none (codes "B")
      (as_peer (λ sent. handle_stream protobuf toy left env' (codes "A") sent bob)) (pos 3) alice
      (remember 10 (codes "B") response alice) discovered (λ i. 99) 99 [] alice_discovers
      (λ i. omega arith) tt
