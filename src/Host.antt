-- ===== src/Host.antt =====
-- p2p/host.go: what an `AgentHost` keeps, its handlers of incoming streams, and its requests. The
-- libp2p host is not part of the model: a stream is the bytes that are read from it and those that
-- are written to it, and a peer id is its text.
pub mod Exchange
pub mod Requests
pub mod Registered
pub mod Reachable
pub mod Total
pub mod Announce
pub mod Negotiate
pub mod Callbacks
pub mod Libp2p
pub mod Spoofed
use agent_semantic_protocol.Common.{
  ℕ, Bool, true, false, ◌&&◌, not, Option, none, some, List, [], ◌∷◌, ◌++◌, Bytes, is_empty,
  if◌then◌else◌, ◌==◌,
}
use agent_semantic_protocol.Common.Int64.{ℤ, pos}
use agent_semantic_protocol.Common.Outcome.{
  message, with_number, with_string, Result, ok, err, panic, stuck, ◌>>=◌, ◌>>◌, want, wrapping,
}
use agent_semantic_protocol.Wire.Float32.{Float32}
use agent_semantic_protocol.Wire.Maps.{Assoc, get, put}
use agent_semantic_protocol.Wire.Protowire.{Protowire}
use agent_semantic_protocol.Messages.Types.{
  HandshakeMessage, IntentMessage, NegotiationResponse, msg_handshake, msg_intent, msg_negotiation,
  msg_capability,
}
use agent_semantic_protocol.Messages.Handshake
use agent_semantic_protocol.Messages.Intent
use agent_semantic_protocol.Messages.Negotiation
use agent_semantic_protocol.Messages.Capability
use agent_semantic_protocol.Messages.Message.{handshake, intent, negotiation}
use agent_semantic_protocol.Did.{to_string}
use agent_semantic_protocol.Did.Packages.{Crypto}
use agent_semantic_protocol.Agent.{Agent}
use agent_semantic_protocol.Handshake.{start_handshake, respond_handshake, finish_handshake}
use agent_semantic_protocol.Trust.{TrustGraph, new_trust_graph, apply}
use agent_semantic_protocol.Discovery.{
  AgentProfile, Time, Registry, new_discovery_registry, announce, announce_from_message,
}
use agent_semantic_protocol.Negotiation.{
  default_handler, verify_intent_signature, verify_response_signature,
}
use agent_semantic_protocol.Stream.{read_msg, write_msg}

-- A callback gets the peer's id and its message. It answers a message or nil, which is `none`, and
-- may panic. It has no error to return.
abbrev pub HandshakeCallback : Type 0
HandshakeCallback = Bytes → HandshakeMessage → Result (Option HandshakeMessage)

abbrev pub IntentCallback : Type 0
IntentCallback = Bytes → IntentMessage → Result (Option NegotiationResponse)

-- A nil callback is `none`.
pub record AgentHost : Type 0 where
  pub agent : Agent
  pub discovery : Registry
  pub trust : TrustGraph
  pub on_handshake : Option HandshakeCallback
  pub on_intent : Option IntentCallback
  pub known : Assoc AgentProfile

-- The host of `NewHost`, once libp2p has made its own.
unfoldable pub new_host : Agent → AgentHost
new_host agent = record {
  agent = agent;
  discovery = new_discovery_registry;
  trust = new_trust_graph;
  on_handshake = none;
  on_intent = none;
  known = [];
}

-- What a call reads from outside: `rand.Read`, `time.Now().UnixNano()` and `time.Now()`.
pub record Readings : Type 0 where
  pub nonce : Option Bytes
  pub stamp : ℤ
  pub time : Time

-- The profile that is cached for a peer.
abbrev pub profile_of : HandshakeMessage → AgentProfile
profile_of m = record {
  agent_id = m.agent_id;
  did = m.did;
  capabilities = m.capabilities;
  embedding_vector = [];
  public_key = m.public_key;
}

-- `ah.known[id] = …` and the announcement of what it now holds, as one step.
unfoldable pub remember : Time → Bytes → HandshakeMessage → AgentHost → AgentHost
remember now peer_id m ah = record ah {
  discovery = announce now (profile_of m) (pos 0) ah.discovery;
  known = put peer_id (profile_of m) ah.known;
}

-- `cb(peer, msg)`, or nil without a callback
abbrev pub called {ℓ κ} :
    {A : Type ℓ} {B : Type κ}
    → Option (Bytes → A → Result (Option B))
    → Bytes
    → A
    → Result (Option B)
called none peer_id m = ok none
called (some cb) peer_id m = cb peer_id m

-- `if resp == nil { resp, err = … }`
abbrev pub or_else {ℓ} : {B : Type ℓ} → Option B → Result B → Result B
or_else none r = r
or_else (some b) r = ok b

-- The answer of a callback, and of the default where it has none.
abbrev pub reply_or_default {ℓ} : {B : Type ℓ} → Result (Option B) → Result B → Result B
reply_or_default answer default = answer >>= λ resp. or_else resp default

-- `if err != nil { return }`: the host stays as it is, and nothing is written.
unfoldable pub or_return {ℓ} :
    {A : Type ℓ}
    → AgentHost
    → Result A
    → (A → Result (AgentHost × Bytes))
    → Result (AgentHost × Bytes)
or_return ah (ok a) k = k a
or_return ah (err e) k = ok (ah, [])
or_return ah panic k = panic
or_return ah stuck k = stuck

-- `known && len(sig) > 0 && !verify(…, profile.PublicKey)`
abbrev pub refused : Option AgentProfile → Bytes → (Bytes → Result Bool) → Result Bool
refused none signature check = ok false
refused (some profile) signature check =
    if is_empty signature then ok false else (do valid ← check profile.public_key; ok (not valid))

-- A peer as a request meets it: `none` where no stream opens; else what can be read from the stream
-- behind what was written to it, and `none` where the write fails.
abbrev pub Peer : Type 0
Peer = Option (Bytes → Option Bytes)

-- The handlers return the host afterwards and the bytes that were written to the stream.
module _ (w : Protowire) where
  unfoldable pub handle_incoming_capability :
      Readings → Bytes → AgentHost → Result (AgentHost × Bytes)
  handle_incoming_capability env b ah =
      or_return ah (Capability.decode w b)
        (λ ann. ok (record ah { discovery = announce_from_message env.time ann ah.discovery }, []))

module _ (w : Protowire) (c : Crypto) where
  unfoldable pub handle_incoming_handshake :
      Readings → Bytes → Bytes → AgentHost → Result (AgentHost × Bytes)
  handle_incoming_handshake env peer_id b ah = or_return ah (Handshake.decode w b) (λ incoming.
      or_return ah
        (reply_or_default (called ah.on_handshake peer_id incoming)
          (respond_handshake c ah.agent incoming env.nonce env.stamp))
        (λ resp. ok (remember env.time peer_id incoming ah, write_msg w (handshake resp) [])))

  -- `Handshake`: the host afterwards and the peer's message. An error leaves the host as it is.
  unfoldable pub request_handshake :
      Readings → Bytes → Peer → AgentHost → Result (AgentHost × HandshakeMessage)
  request_handshake env peer_id peer ah = do
    stream ← want (message "p2p handshake: open stream") peer
    ours ← start_handshake ah.agent env.nonce env.stamp
    reply ← want (message "p2p handshake: send") (stream (write_msg w (handshake ours) []))
    (msg_type, b, rest) ← wrapping "p2p handshake: recv: %w" (read_msg reply)
    (if msg_type == msg_handshake
        then ok tt
        else err (with_number "p2p handshake: expected MsgHandshake, got 0x%02x" msg_type))
    resp ← wrapping "p2p handshake: decode response: %w" (Handshake.decode w b)
    (if is_empty resp.challenge_response then ok tt else finish_handshake c ours.challenge resp)
    ok (remember env.time peer_id resp ah, resp)

-- `add` is the sum of two float32, rounded.
module _ (w : Protowire) (c : Crypto) (add : Float32 → Float32 → Float32) where
  unfoldable pub handle_incoming_intent :
      Readings → Bytes → Bytes → AgentHost → Result (AgentHost × Bytes)
  handle_incoming_intent env peer_id b ah = or_return ah (Intent.decode w b) (λ m.
      or_return ah
        (refused (get peer_id ah.known) m.signature (λ key. verify_intent_signature c m key))
        (λ refuse.
          let reply =
            or_return ah
              (reply_or_default (called ah.on_intent peer_id m)
                (default_handler c ah.agent env.stamp m))
              (λ resp. ok (
                record ah {
                  trust = apply add (to_string ah.agent.did) m.did resp.trust_delta ah.trust;
                },
                write_msg w (negotiation resp) [],
              )) in
          if refuse then ok (ah, []) else reply))

  unfoldable pub handle_stream : Readings → Bytes → Bytes → AgentHost → Result (AgentHost × Bytes)
  handle_stream env peer_id input ah = or_return ah (read_msg input) (λ (msg_type, b, rest).
      if msg_type == msg_handshake
      then handle_incoming_handshake w c env peer_id b ah
      else if msg_type == msg_intent
      then handle_incoming_intent env peer_id b ah
      else if msg_type == msg_capability
      then handle_incoming_capability w env b ah
      else ok (ah, []))

  unfoldable pub send_intent :
      Bytes → Peer → IntentMessage → AgentHost → Result (AgentHost × NegotiationResponse)
  send_intent peer_id peer m ah = do
    stream ← want (message "p2p intent: open stream") peer
    reply ← want (message "p2p intent: send") (stream (write_msg w (intent m) []))
    (msg_type, b, rest) ← wrapping "p2p intent: recv: %w" (read_msg reply)
    (if msg_type == msg_negotiation
        then ok tt
        else err (with_number "p2p intent: expected MsgNegotiation, got 0x%02x" msg_type))
    resp ← wrapping "p2p intent: decode response: %w" (Negotiation.decode w b)
    refuse ←
        refused (get peer_id ah.known) resp.signature (λ key. verify_response_signature c resp key)
    (if refuse
        then err (with_string "p2p intent: invalid response signature from %s" peer_id)
        else ok tt)
    ok (
      record ah { trust = apply add (to_string ah.agent.did) resp.did resp.trust_delta ah.trust },
      resp,
    )
