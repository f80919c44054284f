-- ===== src/Handshake/Honest.antt =====
-- core/handshake.go: a handshake between two agents that hold their keys.
use agent_semantic_protocol.Common.{◌≡◌, [], refl, some, List, [], Bytes}
use agent_semantic_protocol.Common.Int64.{ℤ}
use agent_semantic_protocol.Common.Outcome.{ok, ◌>>=◌, ◌>>◌}
use agent_semantic_protocol.Messages.Types.{HandshakeMessage, protocol_version}
use agent_semantic_protocol.Did
use agent_semantic_protocol.Did.Packages.{Crypto, IsCrypto, IsKeyPair}
use agent_semantic_protocol.Did.Binding.{parse_did-did_from_key}
use agent_semantic_protocol.Did.{Did, method_name, new_did, did_from_key, parse_did, to_string}
use agent_semantic_protocol.Agent
use agent_semantic_protocol.Agent.{Agent, new_agent}
use agent_semantic_protocol.Handshake.{start_handshake, respond_handshake, finish_handshake}
use agent_semantic_protocol.Handshake.Accept.{
  NamesKey, answer, finish_handshake_iff, respond_handshake_iff,
}

-- The message that an initiator opens with.
abbrev pub opening : Agent → Bytes → ℤ → HandshakeMessage
opening a challenge now = record {
  agent_id = a.id;
  did = to_string a.did;
  capabilities = a.capabilities;
  version = protocol_version;
  timestamp = now;
  public_key = Agent.public_key a;
  challenge = challenge;
  challenge_response = [];
}

module _ (c : Crypto) (laws : IsCrypto c) where
  -- An agent as `NewAgent` makes it.
  abbrev made : Bytes → Bytes → Bytes → List Bytes → Agent
  made key priv id capabilities = record {
    id = id;
    did = did_from_key c key (some priv);
    capabilities = capabilities;
    pub_key = some key;
    priv_key = some priv;
  }

  new_agent-made :
      (key priv id : Bytes) (capabilities : List Bytes)
      → new_agent c (some (key, priv)) id capabilities ≡ ok (made key priv id capabilities)
  unfolding new_agent new_did did_from_key
  new_agent-made key priv id capabilities = refl

  made-NamesKey :
      (key priv id : Bytes) (capabilities : List Bytes)
      → NamesKey c
          (to_string (made key priv id capabilities).did)
          (Agent.public_key (made key priv id capabilities))
  unfolding Agent.public_key
  made-NamesKey key priv id capabilities = (_, parse_did-did_from_key c laws key (some priv), refl)

  made_signs :
      (key priv id b : Bytes) (capabilities : List Bytes)
      → IsKeyPair c key priv
      → Agent.sign c (made key priv id capabilities) b ≡ ok (c.ed25519_sign priv b)
  unfolding Agent.sign Did.sign did_from_key
  made_signs key priv id b capabilities h = rw h.priv_size

  module _ (key priv id key' priv' id' : Bytes) (caps caps' : List Bytes) where
    made_completes :
        (challenge challenge' : Bytes) (now now' : ℤ)
        → IsKeyPair c key priv
        → IsKeyPair c key' priv'
        → (do
          ours ← start_handshake (made key priv id caps) (some challenge) now
          response ← respond_handshake c (made key' priv' id' caps') ours (some challenge') now'
          finish_handshake c ours.challenge response
          ok response)
          ≡ ok (
              answer c (made key' priv' id' caps') challenge' (c.ed25519_sign priv' challenge) now')
    unfolding start_handshake Agent.public_key
    made_completes challenge challenge' now now' hp hp' =
        let b' = made key' priv' id' caps' in
        let sig = c.ed25519_sign priv' challenge in
        let responded =
          (respond_handshake_iff c b' (opening (made key priv id caps) challenge now)
              (answer c b' challenge' sig now') (some challenge') now').1
            (
              made-NamesKey key priv id caps,
              (sig, made_signs key' priv' id' challenge caps' hp', (challenge', refl, refl)),
            ) in
        let finished =
          (finish_handshake_iff c challenge (answer c b' challenge' sig now')).1
            (made-NamesKey key' priv' id' caps', hp'.key_size, hp'.verified challenge) in
        rw (responded, finished)

    -- Two agents that `NewAgent` made from key pairs complete a handshake, whatever their challenges:
    -- the responder accepts the initiator's message, and the initiator accepts the answer, which
    -- carries the responder's identity, its key, and its signature of the initiator's challenge.
    pub handshake_completes :
        (a b : Agent) (challenge challenge' : Bytes) (now now' : ℤ)
        → IsKeyPair c key priv
        → IsKeyPair c key' priv'
        → new_agent c (some (key, priv)) id caps ≡ ok a
        → new_agent c (some (key', priv')) id' caps' ≡ ok b
        → (do
          ours ← start_handshake a (some challenge) now
          response ← respond_handshake c b ours (some challenge') now'
          finish_handshake c ours.challenge response
          ok response)
          ≡ ok (answer c b challenge' (c.ed25519_sign priv' challenge) now')
    handshake_completes a b challenge challenge' now now' hp hp' ha hb =
        let ea : made key priv id caps ≡ a = cc (new_agent-made key priv id caps) in
        let eb : made key' priv' id' caps' ≡ b = cc (new_agent-made key' priv' id' caps') in
        rw (← ea, ← eb) (made_completes challenge challenge' now now' hp hp')
