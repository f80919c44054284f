-- ===== src/Tests/Demos.antt =====
-- examples: the two programs with a toy signature scheme.
use agent_semantic_protocol.Common.{ℕ, ◌+◌, ◌≤◌, ◌≡◌, refl, some, [], ◌∷◌, codes, length, arith}
use agent_semantic_protocol.Common.Int64.{pos, uint64}
use agent_semantic_protocol.Common.Outcome.{ok, panic}
use agent_semantic_protocol.Wire.Maps.{get}
use agent_semantic_protocol.Wire.Encoder.{str, bytes, i64, strs}
use agent_semantic_protocol.Messages.Types.{HandshakeMessage}
use agent_semantic_protocol.Messages.Handshake
use agent_semantic_protocol.Messages.Handshake.RoundTrip.{IsGoHandshake}
use agent_semantic_protocol.Messages.Message.{intent}
use agent_semantic_protocol.Did.{did_from_key, to_string}
use agent_semantic_protocol.Did.Hex.{hex_encode}
use agent_semantic_protocol.Agent
use agent_semantic_protocol.Agent.{Agent}
use agent_semantic_protocol.Handshake.Accept.{answer}
use agent_semantic_protocol.Handshake.Honest.{opening}
use agent_semantic_protocol.Stream.{write_msg, max_length}
use agent_semantic_protocol.Host.{handle_stream, new_host}
use agent_semantic_protocol.Host.Callbacks.{on_intent}
use agent_semantic_protocol.Host.Libp2p.{Libp2p}
use agent_semantic_protocol.Examples.SimpleHandshake
use agent_semantic_protocol.Examples.SimpleHandshake.Completes.{
  alpha, beta, calm, transcript, simple_handshake_completes,
}
use agent_semantic_protocol.Examples.NegotiationDemo.Callback.{code_callback}
use agent_semantic_protocol.Examples.NegotiationDemo.Handler.{short_intent_panics}
use agent_semantic_protocol.Tests.Varint.{varint}
use agent_semantic_protocol.Tests.Protobuf.{protobuf, protobuf-IsProtowire}
use agent_semantic_protocol.Tests.ToyCrypto.{
  toy, toy-IsCrypto, key, priv, key-IsKeyPair, digest, toy_sign,
}
use agent_semantic_protocol.Tests.Hosts.{left, env, env'}
use agent_semantic_protocol.Tests.Intents.{worker, asked, asked-IsGo, asked_small}

abbrev pub libp2p : ℕ → Libp2p
libp2p n = record { id = n ∷ []; addrs = [] }

unfoldable ours : HandshakeMessage
ours = opening (alpha toy (key 1) (priv 1) (key 2) (priv 2)) (5 ∷ []) (pos 1)

unfoldable response : HandshakeMessage
response =
    answer toy (beta toy (key 1) (priv 1) (key 2) (priv 2)) (6 ∷ [])
      (toy.ed25519_sign (priv 2) (5 ∷ [])) (pos 2)

ours-IsGo : IsGoHandshake ours
unfolding ours did_from_key hex_encode digest Agent.public_key to_string
ours-IsGo = omega arith

response-IsGo : IsGoHandshake response
unfolding response did_from_key hex_encode digest toy_sign Agent.public_key to_string
response-IsGo = omega arith

ours_small : 1 + length (Handshake.encode protobuf ours) ≤ max_length
unfolding ours did_from_key hex_encode digest Agent.public_key Handshake.encode str strs i64 bytes
    varint uint64 to_string
ours_small = omega arith

response_small : 1 + length (Handshake.encode protobuf response) ≤ max_length
unfolding response did_from_key hex_encode digest toy_sign Agent.public_key Handshake.encode str
    strs i64 bytes varint uint64 to_string
response_small = omega arith

simple_handshake_example :
    SimpleHandshake.main protobuf toy left
      (calm toy (key 1) (priv 1) (key 2) (priv 2) (libp2p 1) (libp2p 2) env env' (λ i. i) (λ i. i))
    ≡ record {
      printed = transcript toy (key 1) (priv 1) (key 2) (priv 2) (libp2p 1) (libp2p 2);
      outcome = ok tt;
    }
unfolding ours response
simple_handshake_example =
    simple_handshake_completes protobuf protobuf-IsProtowire toy toy-IsCrypto left (key 1) (priv 1)
      (key 2) (priv 2) (libp2p 1) (libp2p 2) env env' (5 ∷ []) (6 ∷ []) (λ i. i) (λ i. i) ours
      response (key-IsKeyPair 1) (key-IsKeyPair 2) refl refl refl refl ours-IsGo response-IsGo
      ours_small response_small

-- The intent has one component.
short_intent_example :
    handle_stream protobuf toy left env'
      (codes "A")
      (write_msg protobuf (intent asked) [])
      (on_intent (some (code_callback toy worker.agent (pos 2))) worker)
    ≡ panic
unfolding get new_host
short_intent_example =
    short_intent_panics protobuf protobuf-IsProtowire toy left env' (pos 2) (codes "A") worker asked
      asked-IsGo (omega arith) asked_small refl (omega arith)
