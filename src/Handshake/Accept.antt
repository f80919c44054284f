-- ===== src/Handshake/Accept.antt =====
-- core/handshake.go: which messages the two sides accept.
use agent_semantic_protocol.Common.{
  ◌≡◌, ◌↔◌, refl, sym, Bool, true, false, Option, some, Bytes, length, arith,
}
use agent_semantic_protocol.Common.Int64.{ℤ}
use agent_semantic_protocol.Common.Outcome.{
  Result, ok, ◌>>=◌, want, wrapping, Error, message, with_string, bind-eq_ok, wrapping-eq_ok,
}
use agent_semantic_protocol.Messages.Types.{HandshakeMessage, protocol_version}
use agent_semantic_protocol.Did.Packages.{Crypto, public_key_size}
use agent_semantic_protocol.Did.Hex.{hex_encode}
use agent_semantic_protocol.Did.Binding.{validate_binding_iff}
use agent_semantic_protocol.Did.{
  Did, did_from_key, did_from_public_key, parse_did, verify, validate_binding, to_string,
}
use agent_semantic_protocol.Agent
use agent_semantic_protocol.Agent.{Agent}
use agent_semantic_protocol.Handshake.{require, respond_handshake, finish_handshake}

-- A text that names the digest of a key.
abbrev pub NamesKey : Crypto → Bytes → Bytes → Type 0
NamesKey c text key = (d : Did) × (parse_did c text ≡ ok d) × (d.id ≡ hex_encode (c.sha256 key))

require-eq_ok : (b : Bool) (e : Error) (u : Unit {0}) → require b e ≡ ok u → b ≡ true
require-eq_ok true e u h = refl
require-eq_ok false e u h = cc

-- The last checks of `FinishHandshake`.
abbrev check_signature : Crypto → Bytes → HandshakeMessage → Result (Unit {0})
check_signature c original response = do
  d ←
      wrapping "handshake finish: invalid public key: %w"
        (did_from_public_key c response.public_key)
  valid ← verify c d original response.challenge_response
  require valid
      (with_string "handshake finish: challenge signature invalid for %s" response.agent_id)

module _ (c : Crypto) where
  module _ (original : Bytes) (response : HandshakeMessage) where
    signature_checked :
        check_signature c original response ≡ ok tt
        → (length response.public_key ≡ public_key_size)
          × (c.ed25519_verify response.public_key original response.challenge_response ≡ true)
    unfolding did_from_public_key did_from_key verify
    signature_checked e = ground arith

    signature_accepted :
        length response.public_key ≡ public_key_size
        → c.ed25519_verify response.public_key original response.challenge_response ≡ true
        → check_signature c original response ≡ ok tt
    unfolding did_from_public_key did_from_key verify
    signature_accepted hl hv = rw (hl) (rw (hl, hv))

    -- The initiator accepts a response exactly when its identifier names its public key, the key
    -- has 32 bytes, and the challenge response is the key's signature of the initiator's challenge.
    pub finish_handshake_iff : (finish_handshake c original response ≡ ok tt) ↔ (
        NamesKey c response.did response.public_key
        × (length response.public_key ≡ public_key_size)
        × (c.ed25519_verify response.public_key original response.challenge_response ≡ true))
    unfolding finish_handshake
    finish_handshake_iff = (
      λ e.
          let (d, parsed, e1) =
            bind-eq_ok
              (wrapping "handshake finish: peer DID invalid: %w" (parse_did c response.did)) _ tt
              e in
          let (_, bound, e2) =
            bind-eq_ok (require (validate_binding c d response.public_key) _) _ tt e1 in
          let (hl, hv) = signature_checked e2 in
          (
            (
              d,
              wrapping-eq_ok _ _ d parsed,
              sym ((validate_binding_iff c d response.public_key).0 (require-eq_ok _ _ tt bound)),
            ),
            hl,
            hv,
          ),
      λ ((d, parsed, names), hl, hv).
          rw (parsed, (validate_binding_iff c d response.public_key).1 (sym names))
            (signature_accepted hl hv),
    )

  -- The message that a responder answers with, given its signature and its own challenge.
  abbrev pub answer : Agent → Bytes → Bytes → ℤ → HandshakeMessage
  answer responder challenge sig now = record {
    agent_id = responder.id;
    did = to_string responder.did;
    capabilities = responder.capabilities;
    version = protocol_version;
    timestamp = now;
    public_key = Agent.public_key responder;
    challenge = challenge;
    challenge_response = sig;
  }

  -- The responder answers exactly when the identifier of the message names its public key, its own
  -- agent can sign the challenge, and the random source gives a challenge of its own; the reply then
  -- carries the responder's identity, the signature and that challenge.
  pub respond_handshake_iff :
      (responder : Agent) (incoming reply : HandshakeMessage) (nonce : Option Bytes) (now : ℤ)
      → (respond_handshake c responder incoming nonce now ≡ ok reply) ↔ (
          NamesKey c incoming.did incoming.public_key
          × ((sig : Bytes) × (Agent.sign c responder incoming.challenge ≡ ok sig)
              × ((challenge : Bytes) × (nonce ≡ some challenge)
                  × (answer responder challenge sig now ≡ reply))))
  unfolding respond_handshake
  respond_handshake_iff responder incoming reply nonce now = (
    λ e.
        let (d, parsed, e1) =
          bind-eq_ok (wrapping "handshake: peer DID invalid: %w" (parse_did c incoming.did)) _ reply
            e in
        let (_, bound, e2) =
          bind-eq_ok (require (validate_binding c d incoming.public_key) _) _ reply e1 in
        let (sig, signed, e3) =
          bind-eq_ok
            (wrapping "handshake: signing challenge: %w"
              (Agent.sign c responder incoming.challenge))
            _ reply e2 in
        let (challenge, drawn, e4) =
          bind-eq_ok (want (message "handshake: nonce generation") nonce) _ reply e3 in
        (
          (
            d,
            wrapping-eq_ok _ _ d parsed,
            sym ((validate_binding_iff c d incoming.public_key).0 (require-eq_ok _ _ tt bound)),
          ),
          (sig, wrapping-eq_ok _ _ sig signed, (challenge, want-eq_ok _ nonce challenge drawn, cc)),
        ),
    λ ((d, parsed, names), (sig, signed, (challenge, drawn, same))).
        rw (
          parsed,
          (validate_binding_iff c d incoming.public_key).1 (sym names),
          signed,
          drawn,
          same,
        ),
  )
    where
      want-eq_ok : (e : Error) (o : Option Bytes) (a : Bytes) → want e o ≡ ok a → o ≡ some a
      want-eq_ok e o a h = ground arith
