-- ===== src/Tests/Streaming.antt =====
-- p2p/host.go: a host that gets a stream of any bytes, and one that gets an announcement.
use agent_semantic_protocol.Common.{
  ℕ, ◌+◌, ◌≤◌, ◌≡◌, inl, inr, refl, true, false, List, [], ◌∷◌, Bytes, codes, length, arith,
}
use mathlib.Core.Path.{subst}
use agent_semantic_protocol.Common.Int64.{pos, uint64}
use agent_semantic_protocol.Common.Outcome.{ok, Finishes, Finishes-ok}
use agent_semantic_protocol.Wire.Encoder.{str, i64, strs}
use agent_semantic_protocol.Messages.Capability
use agent_semantic_protocol.Messages.Capability.RoundTrip.{IsGoAnnouncement}
use agent_semantic_protocol.Messages.Message.{capability}
use agent_semantic_protocol.Did.{did_from_key, to_string}
use agent_semantic_protocol.Did.Hex.{hex_encode}
use agent_semantic_protocol.Did.Packages.{private_key_size}
use agent_semantic_protocol.Agent.{Agent}
use agent_semantic_protocol.Discovery.{find_by_capability, build_announcement}
use agent_semantic_protocol.Discovery.Find.{Lists}
use agent_semantic_protocol.Stream.{write_msg, max_length}
use agent_semantic_protocol.Host.{AgentHost, new_host, handle_stream}
use agent_semantic_protocol.Host.Total.{CanSign, handle_stream-Finishes}
use agent_semantic_protocol.Host.Announce.{
  Connected, announce_capabilities, announced, announcement_found,
}
use agent_semantic_protocol.Tests.Varint.{varint}
use agent_semantic_protocol.Tests.Protobuf.{protobuf, protobuf-IsProtowire}
use agent_semantic_protocol.Tests.ToyCrypto.{toy, priv, digest}
use agent_semantic_protocol.Tests.Hosts.{left, agent, bob, env}

pub agent-CanSign : (n : ℕ) (id : Bytes) → CanSign (agent n id).did
unfolding did_from_key
agent-CanSign n id b h =
    let same : priv n ≡ b = cc in subst (λ (x : Bytes). length x ≡ private_key_size) same refl

handle_stream_example : Finishes (handle_stream protobuf toy left env (codes "A") (0 ∷ 1 ∷ []) bob)
unfolding new_host
handle_stream_example =
    handle_stream-Finishes protobuf protobuf-IsProtowire toy left env bob
      (agent-CanSign 2 (codes "b")) (λ p m. Finishes-ok _) (λ p m. Finishes-ok _) (codes "A")
      (0 ∷ 1 ∷ [])

abbrev speaker : Agent
speaker = record (agent 1 (codes "a")) { capabilities = codes "nlp" ∷ codes "math" ∷ [] }

abbrev peers : List Connected
peers = (codes "C", false) ∷ (codes "B", true) ∷ []

-- What the peer B gets.
abbrev sent : Bytes
sent = write_msg protobuf (capability (build_announcement (pos 7) speaker (pos 300))) []

speaker-IsGo : IsGoAnnouncement (build_announcement (pos 7) (new_host speaker).agent (pos 300))
unfolding build_announcement new_host did_from_key hex_encode digest to_string
speaker-IsGo = omega arith

speaker_small :
    1
      + length (
          Capability.encode protobuf
            (build_announcement (pos 7) (new_host speaker).agent (pos 300)))
    ≤ max_length
unfolding build_announcement new_host did_from_key hex_encode digest to_string Capability.encode str
    strs i64 varint uint64
speaker_small = omega arith

announcement_found_example :
    (bh : AgentHost) × ((handle_stream protobuf toy left env (codes "A") sent bob ≡ ok (bh, []))
      × Lists
          (find_by_capability (λ n. 300000000009) (codes "math" ∷ []) bh.discovery)
          (announced speaker))
unfolding new_host announce_capabilities
announcement_found_example =
    announcement_found protobuf protobuf-IsProtowire toy left env (pos 7) peers (new_host speaker)
      bob 1 (codes "B") (codes "A") sent (λ n. 300000000009) (codes "math" ∷ []) speaker-IsGo
      speaker_small (omega arith) refl (λ n. omega arith) (inr (inl refl), tt)
