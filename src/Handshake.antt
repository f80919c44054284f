-- ===== src/Handshake.antt =====
-- core/handshake.go: connection establishment. `nonce` is what `io.ReadFull(rand.Reader, nonce)`
-- filled, or `none` at its error, and `now` is `time.Now().UnixNano()`.
pub mod Accept
pub mod Honest
use agent_semantic_protocol.Common.{
  ℕ, Bool, true, false, not, Option, none, some, List, [], Bytes, if◌then◌else◌,
}
use agent_semantic_protocol.Common.Int64.{ℤ}
use agent_semantic_protocol.Common.Outcome.{
  Error, message, with_string, Result, ok, err, ◌>>=◌, ◌>>◌, want, wrapping,
}
use agent_semantic_protocol.Messages.Types.{HandshakeMessage, protocol_version}
use agent_semantic_protocol.Did.{
  Did, did_from_public_key, parse_did, verify, validate_binding, to_string,
}
use agent_semantic_protocol.Did.Packages.{Crypto}
use agent_semantic_protocol.Agent
use agent_semantic_protocol.Agent.{Agent}

-- `if !test { return nil, e }`
abbrev pub require : Bool → Error → Result (Unit {0})
require true e = ok tt
require false e = err e

unfoldable pub start_handshake : Agent → Option Bytes → ℤ → Result HandshakeMessage
start_handshake agent nonce now = do
  challenge ← want (message "handshake: nonce generation") nonce
  ok (record {
    agent_id = agent.id;
    did = to_string agent.did;
    capabilities = agent.capabilities;
    version = protocol_version;
    timestamp = now;
    public_key = Agent.public_key agent;
    challenge = challenge;
    challenge_response = [];
  })

module _ (c : Crypto) where
  unfoldable pub respond_handshake :
      Agent → HandshakeMessage → Option Bytes → ℤ → Result HandshakeMessage
  respond_handshake responder incoming nonce now = do
    peer ← wrapping "handshake: peer DID invalid: %w" (parse_did c incoming.did)
    require (validate_binding c peer incoming.public_key)
        (with_string "handshake: DID/key binding mismatch for %s" incoming.agent_id)
    sig ← wrapping "handshake: signing challenge: %w" (Agent.sign c responder incoming.challenge)
    challenge ← want (message "handshake: nonce generation") nonce
    ok (record {
      agent_id = responder.id;
      did = to_string responder.did;
      capabilities = responder.capabilities;
      version = protocol_version;
      timestamp = now;
      public_key = Agent.public_key responder;
      challenge = challenge;
      challenge_response = sig;
    })

  unfoldable pub finish_handshake : Bytes → HandshakeMessage → Result (Unit {0})
  finish_handshake original response = do
    peer ← wrapping "handshake finish: peer DID invalid: %w" (parse_did c response.did)
    require (validate_binding c peer response.public_key)
        (with_string "handshake finish: DID/key binding mismatch for %s" response.agent_id)
    d ←
        wrapping "handshake finish: invalid public key: %w"
          (did_from_public_key c response.public_key)
    valid ← verify c d original response.challenge_response
    require valid
        (with_string "handshake finish: challenge signature invalid for %s" response.agent_id)

pub record HandshakeResult : Type 0 where
  pub peer_agent_id : Bytes
  pub peer_did : Bytes
  pub peer_capabilities : List Bytes
  pub peer_public_key : Bytes
  pub protocol_version : Bytes
  pub completed_at : ℤ

unfoldable pub new_handshake_result : HandshakeMessage → ℤ → HandshakeResult
new_handshake_result resp now = record {
  peer_agent_id = resp.agent_id;
  peer_did = resp.did;
  peer_capabilities = resp.capabilities;
  peer_public_key = resp.public_key;
  protocol_version = resp.version;
  completed_at = now;
}
