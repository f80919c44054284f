-- ===== src/Host/Announce.antt =====
-- p2p/host.go: `AnnounceCapabilities`, and what its receivers then find.
use agent_semantic_protocol.Common.{
  ℕ, zero, suc, ◌+◌, ◌*◌, ◌≤◌, ◌<◌, ◌≡◌, refl, Bool, true, false, Option, none, some, List, [], ◌∷◌,
  Bytes, map, length, if◌then◌else◌, arith, All, inl, inr, bytes_eq, get_elem?, Bool-cases,
}
use agent_semantic_protocol.Common.Int64.{ℤ, pos}
use agent_semantic_protocol.Common.Outcome.{ok}
use agent_semantic_protocol.Wire.Float32.{Float32}
use agent_semantic_protocol.Wire.Maps.{get, get-put_self}
use agent_semantic_protocol.Wire.Protowire.{Protowire, IsProtowire}
use agent_semantic_protocol.Messages.Types.{CapabilityAnnouncement}
use agent_semantic_protocol.Messages.Capability
use agent_semantic_protocol.Messages.Capability.RoundTrip.{
  IsGoAnnouncement, decode-encode_announcement,
}
use agent_semantic_protocol.Messages.Message.{capability, msg_type, encode}
use agent_semantic_protocol.Did.{to_string}
use agent_semantic_protocol.Did.Packages.{Crypto}
use agent_semantic_protocol.Agent.{Agent}
use agent_semantic_protocol.Capability.Sets.{Offers}
use agent_semantic_protocol.Discovery.{
  Time, AgentProfile, RegistryEntry, Registry, announce, announce_from_message, is_expired,
  find_by_capability, build_announcement,
}
use agent_semantic_protocol.Discovery.Expiry.{entry, is_expired_iff}
use agent_semantic_protocol.Discovery.Find.{Holds, Lists, find_by_capability_complete}
use agent_semantic_protocol.Stream.{write_msg, max_length}
use agent_semantic_protocol.Stream.RoundTrip.{read_msg-write_msg}
use agent_semantic_protocol.Host.{
  AgentHost, Readings, or_return, handle_incoming_capability, handle_stream,
}

-- A peer that is connected: its id, and whether a stream to it opens.
abbrev pub Connected : Type 0
Connected = Bytes × Bool

-- `AnnounceCapabilities`: the bytes that go out to each connected peer. Each goroutine has a stream
-- of its own, so that their order shows nowhere. 300 is the time to live, in seconds.
abbrev pub sent_to : Bytes → Connected → Bytes × Option Bytes
sent_to b (peer_id, opens) = (peer_id, if opens then some b else none)

unfoldable pub announce_capabilities :
    Protowire → ℤ → List Connected → AgentHost → List (Bytes × Option Bytes)
announce_capabilities w now peers ah =
    map (sent_to (write_msg w (capability (build_announcement now ah.agent (pos 300))) [])) peers

-- What the receiver of an announcement makes of it.
abbrev pub announced : Agent → AgentProfile
announced a = record {
  agent_id = a.id;
  did = to_string a.did;
  capabilities = a.capabilities;
  embedding_vector = [];
  public_key = [];
}

pub get-Holds :
    (id : Bytes) (entries : Registry) (e : RegistryEntry)
    → get id entries ≡ some e
    → Holds entries e
unfolding get
get-Holds id [] e h = cc
get-Holds id ((k, x) ∷ entries) e h = elim (Bool-cases (bytes_eq k id)) [
  | inl here ↦ inl (cc)
  | inr other ↦ inr (get-Holds id entries e (rw other at h))
]

sent_to-eq :
    (b sent peer_id : Bytes) (i : ℕ) (peers : List Connected)
    → get_elem? (map (sent_to b) peers) i ≡ some (peer_id, some sent)
    → sent ≡ b
sent_to-eq b sent peer_id i [] h = cc
sent_to-eq b sent peer_id zero ((id, true) ∷ peers) h = cc
sent_to-eq b sent peer_id zero ((id, false) ∷ peers) h = cc
sent_to-eq b sent peer_id (suc i) (p ∷ peers) h = sent_to-eq b sent peer_id i peers h

module _ (w : Protowire) (laws : IsProtowire w) (c : Crypto)
    (add : Float32 → Float32 → Float32) where
  handle_announcement :
      (env : Readings) (from : Bytes) (m : CapabilityAnnouncement) (ah : AgentHost)
      → IsGoAnnouncement m
      → 1 + length (Capability.encode w m) ≤ max_length
      → handle_stream w c add env from (write_msg w (capability m) []) ah
        ≡ ok (record ah { discovery = announce_from_message env.time m ah.discovery }, [])
  unfolding handle_stream handle_incoming_capability or_return msg_type encode
  handle_announcement env from m ah fits small =
      rw (read_msg-write_msg w (capability m) small, decode-encode_announcement w laws m fits) refl

  -- Whatever a host sends to its peers with AnnounceCapabilities, a host that receives it answers
  -- nothing, and then finds the sender, for five minutes, in each search for capabilities that the
  -- sender offers. The fields of the announcement are values of their Go types, it fits a frame, and
  -- the receiver's clock does not show the zero time.
  pub announcement_found :
      (env : Readings) (now : ℤ) (peers : List Connected) (ah bh : AgentHost) (i : ℕ)
      (peer_id from sent : Bytes) (clock : ℕ → Time) (required : List Bytes)
      → IsGoAnnouncement (build_announcement now ah.agent (pos 300))
      → 1 + length (Capability.encode w (build_announcement now ah.agent (pos 300))) ≤ max_length
      → 0 < env.time
      → get_elem? (announce_capabilities w now peers ah) i ≡ some (peer_id, some sent)
      → ((n : ℕ) → clock n ≤ env.time + 300 * 1000000000)
      → All (Offers ah.agent.capabilities) required
      → (bh' : AgentHost) × ((handle_stream w c add env from sent bh ≡ ok (bh', []))
          × Lists (find_by_capability clock required bh'.discovery) (announced ah.agent))
  unfolding announce_capabilities announce_from_message announce build_announcement
  announcement_found env now peers ah bh i peer_id from sent clock required fits small later h soon
        offers =
      let m = build_announcement now ah.agent (pos 300) in
      let e = entry (announced ah.agent) env.time (pos 300) in
      let bh' : AgentHost = record bh {
        discovery = announce_from_message env.time m bh.discovery;
      } in
      let until = env.time + 300 * 1000000000 in
      let late_not : ¬ (is_expired until e ≡ true) = λ gone.
        let later =
          (is_expired_iff (announced ah.agent) env.time until 300 later (omega arith)
              (omega arith)).0
            gone in
        omega arith in
      let live : is_expired until e ≡ false = elim (Bool-cases (is_expired until e)) [
        | inl gone ↦ absurd (late_not gone)
        | inr live ↦ live
      ] in
      (
        bh',
        (
          rw (sent_to-eq _ sent peer_id i peers h) (handle_announcement env from m bh fits small),
          find_by_capability_complete clock until required bh'.discovery e soon
              (get-Holds ah.agent.id bh'.discovery e (get-put_self ah.agent.id e bh.discovery)) live
              offers,
        ),
      )
