-- ===== src/Tests/Hosts.antt =====
-- p2p/host.go: two concrete hosts.
use agent_semantic_protocol.Common.{
  ℕ, ◌+◌, ◌≤◌, ◌≡◌, refl, true, some, [], ◌∷◌, Bytes, codes, length, arith,
}
use agent_semantic_protocol.Common.Int64.{pos, uint64}
use agent_semantic_protocol.Common.Outcome.{ok}
use agent_semantic_protocol.Wire.Float32.{Float32}
use agent_semantic_protocol.Wire.Encoder.{str, bytes, i64, strs}
use agent_semantic_protocol.Wire.Maps.{get}
use agent_semantic_protocol.Messages.Types.{HandshakeMessage}
use agent_semantic_protocol.Messages.Handshake
use agent_semantic_protocol.Messages.Handshake.RoundTrip.{IsGoHandshake}
use agent_semantic_protocol.Messages.Message.{handshake}
use agent_semantic_protocol.Did.{did_from_key, new_did, to_string}
use agent_semantic_protocol.Did.Hex.{hex_encode}
use agent_semantic_protocol.Did.Packages.{public_key_size}
use agent_semantic_protocol.Agent
use agent_semantic_protocol.Agent.{Agent, new_agent}
use agent_semantic_protocol.Handshake.Accept.{NamesKey, answer}
use agent_semantic_protocol.Handshake.Honest.{opening}
use agent_semantic_protocol.Stream.{write_msg, max_length}
use agent_semantic_protocol.Host.{
  AgentHost, Readings, new_host, remember, profile_of, handle_stream, request_handshake,
}
use agent_semantic_protocol.Host.Requests.{request_handshake_verified, request_handshake_unverified}
use agent_semantic_protocol.Host.Exchange.{as_peer, hosts_handshake}
use agent_semantic_protocol.Host.Registered.{IsRegistered}
use agent_semantic_protocol.Host.Reachable.{
  IsTrusted, Reach, start, later, stream, reachable-IsRegistered,
}
use agent_semantic_protocol.Tests.Varint.{varint}
use agent_semantic_protocol.Tests.Protobuf.{protobuf, protobuf-IsProtowire}
use agent_semantic_protocol.Tests.ToyCrypto.{
  toy, toy-IsCrypto, key, priv, key-IsKeyPair, digest, toy_sign,
}

abbrev pub left : Float32 → Float32 → Float32
left x d = x

abbrev pub agent : ℕ → Bytes → Agent
agent n id = record {
  id = id;
  did = did_from_key toy (key n) (some (priv n));
  capabilities = [];
  pub_key = some (key n);
  priv_key = some (priv n);
}

abbrev pub alice : AgentHost
alice = new_host (agent 1 (codes "a"))

abbrev pub bob : AgentHost
bob = new_host (agent 2 (codes "b"))

abbrev pub env : Readings
env = record { nonce = some (5 ∷ []); stamp = pos 1; time = 10 }

abbrev pub env' : Readings
env' = record { nonce = some (6 ∷ []); stamp = pos 2; time = 11 }

unfoldable pub ours : HandshakeMessage
unfolding new_host
ours = opening alice.agent (5 ∷ []) (pos 1)

unfoldable pub response : HandshakeMessage
unfolding new_host
response = answer toy bob.agent (6 ∷ []) (toy.ed25519_sign (priv 2) (5 ∷ [])) (pos 2)

pub ours-IsGo : IsGoHandshake ours
unfolding ours new_host did_from_key hex_encode digest Agent.public_key to_string
ours-IsGo = omega arith

response-IsGo : IsGoHandshake response
unfolding response new_host did_from_key hex_encode digest toy_sign Agent.public_key to_string
response-IsGo = omega arith

pub ours_small : 1 + length (Handshake.encode protobuf ours) ≤ max_length
unfolding ours new_host did_from_key hex_encode digest Agent.public_key Handshake.encode str strs
    i64 bytes varint uint64 to_string
ours_small = omega arith

response_small : 1 + length (Handshake.encode protobuf response) ≤ max_length
unfolding response new_host did_from_key hex_encode digest toy_sign Agent.public_key
    Handshake.encode str strs i64 bytes varint uint64 to_string
response_small = omega arith

pub exchanged :
    (handle_stream protobuf toy left env' (codes "A") (write_msg protobuf (handshake ours) []) bob
      ≡ ok (remember 11 (codes "A") ours bob, write_msg protobuf (handshake response) []))
    × (request_handshake protobuf toy env
          (codes "B")
          (as_peer (λ sent. handle_stream protobuf toy left env' (codes "A") sent bob))
          alice
        ≡ ok (remember 10 (codes "B") response alice, response))
unfolding ours response new_host new_agent new_did did_from_key
exchanged =
    hosts_handshake protobuf protobuf-IsProtowire toy toy-IsCrypto left (key 1) (priv 1) (codes "a")
      (key 2) (priv 2) (codes "b") [] [] alice bob env env' (5 ∷ []) (6 ∷ []) (codes "A")
      (codes "B") ours response (key-IsKeyPair 1) (key-IsKeyPair 2) refl refl refl refl refl refl
      refl ours-IsGo response-IsGo ours_small response_small

hosts_example :
    (handle_stream protobuf toy left env' (codes "A") (write_msg protobuf (handshake ours) []) bob
      ≡ ok (remember 11 (codes "A") ours bob, write_msg protobuf (handshake response) []))
    × (request_handshake protobuf toy env
          (codes "B")
          (as_peer (λ sent. handle_stream protobuf toy left env' (codes "A") sent bob))
          alice
        ≡ ok (remember 10 (codes "B") response alice, response))
unfolding ours response new_host new_agent new_did did_from_key
hosts_example =
    hosts_handshake protobuf protobuf-IsProtowire toy toy-IsCrypto left (key 1) (priv 1) (codes "a")
      (key 2) (priv 2) (codes "b") [] [] alice bob env env' (5 ∷ []) (6 ∷ []) (codes "A")
      (codes "B") ours response (key-IsKeyPair 1) (key-IsKeyPair 2) refl refl refl refl refl refl
      refl ours-IsGo response-IsGo ours_small response_small

verified_example :
    (get (codes "B") (remember 10 (codes "B") response alice).known ≡ some (profile_of response))
    × (NamesKey toy response.did response.public_key
        × (length response.public_key ≡ public_key_size)
        × ((nonce : Bytes) × ((env.nonce ≡ some nonce)
              × (toy.ed25519_verify response.public_key nonce response.challenge_response ≡ true))))
unfolding response digest toy_sign
verified_example =
    request_handshake_verified protobuf toy env (codes "B")
      (as_peer (λ sent. handle_stream protobuf toy left env' (codes "A") sent bob)) alice
      (remember 10 (codes "B") response alice) response (exchanged.1) refl

-- Bob's message, with another key and no challenge response.
abbrev forged : HandshakeMessage
forged = record {
  agent_id = codes "b";
  did = codes "did:x:y";
  capabilities = [];
  version = [];
  timestamp = pos 0;
  public_key = 1 ∷ [];
  challenge = [];
  challenge_response = [];
}

forged-IsGo : IsGoHandshake forged
forged-IsGo = omega arith

forged_small : 1 + length (Handshake.encode protobuf forged) ≤ max_length
unfolding Handshake.encode str strs i64 bytes varint uint64
forged_small = omega arith

unverified_example :
    request_handshake protobuf toy env
      (codes "B")
      (some (λ sent. some (write_msg protobuf (handshake forged) [])))
      alice
    ≡ ok (remember 10 (codes "B") forged alice, forged)
unverified_example =
    request_handshake_unverified protobuf toy protobuf-IsProtowire env (5 ∷ []) (codes "B") alice
      forged refl forged-IsGo forged_small refl

pub bob_reached : Reach protobuf toy left (agent 2 (codes "b")) (remember 11 (codes "A") ours bob)
bob_reached = later start (
    stream env' (codes "A") (write_msg protobuf (handshake ours) [])
      (write_msg protobuf (handshake response) []) (exchanged.0))

reachable_example :
    IsRegistered (remember 11 (codes "A") ours bob) × IsTrusted (remember 11 (codes "A") ours bob)
reachable_example =
    reachable-IsRegistered protobuf toy left (agent 2 (codes "b"))
      (remember 11 (codes "A") ours bob) bob_reached
