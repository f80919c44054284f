-- ===== src/Host/Spoofed.antt =====
-- p2p/host.go: what a peer can do in the name of an agent whose private key it does not have.
use agent_semantic_protocol.Common.{◌+◌, ◌≤◌, ◌≡◌, ◌≢◌, refl, false, none, some, [], Bytes, length}
use agent_semantic_protocol.Common.Int64.{pos}
use agent_semantic_protocol.Common.Outcome.{ok}
use agent_semantic_protocol.Wire.Float32.{Float32, sign_bit}
use agent_semantic_protocol.Wire.Maps.{get, get-put_self}
use agent_semantic_protocol.Wire.Protowire.{Protowire, IsProtowire}
use agent_semantic_protocol.Messages.Types.{HandshakeMessage, IntentMessage, NegotiationResponse}
use agent_semantic_protocol.Messages.Handshake
use agent_semantic_protocol.Messages.Handshake.RoundTrip.{IsGoHandshake}
use agent_semantic_protocol.Messages.Intent
use agent_semantic_protocol.Messages.Intent.RoundTrip.{IsGoIntent}
use agent_semantic_protocol.Messages.Message.{handshake, intent, negotiation}
use agent_semantic_protocol.Did
use agent_semantic_protocol.Did.{to_string}
use agent_semantic_protocol.Did.Packages.{Crypto, IsKeyPair}
use agent_semantic_protocol.Agent
use agent_semantic_protocol.Agent.{Agent}
use agent_semantic_protocol.Handshake.{respond_handshake}
use agent_semantic_protocol.Handshake.Accept.{NamesKey, answer, respond_handshake_iff}
use agent_semantic_protocol.Trust.{apply}
use agent_semantic_protocol.Discovery.{announce}
use agent_semantic_protocol.Discovery.Expiry.{entry}
use agent_semantic_protocol.Negotiation.{default_handler, build_workflow, verify_intent_signature}
use agent_semantic_protocol.Negotiation.Signatures.{default_handler_signed}
use agent_semantic_protocol.Stream.{write_msg, max_length}
use agent_semantic_protocol.Host.{
  AgentHost, Readings, profile_of, called, refused, remember, handle_stream,
}
use agent_semantic_protocol.Host.Requests.{get-remember}
use agent_semantic_protocol.Host.Exchange.{handle_handshake}
use agent_semantic_protocol.Host.Negotiate.{decoded, reply_to, handle_intent}

own_answer :
    (c : Crypto) (a : Agent) (env : Readings) (key priv nonce : Bytes) (claim : HandshakeMessage)
    → IsKeyPair c key priv
    → a.did.priv_key ≡ some priv
    → env.nonce ≡ some nonce
    → NamesKey c claim.did claim.public_key
    → respond_handshake c a claim env.nonce env.stamp
      ≡ ok (answer c a nonce (c.ed25519_sign priv claim.challenge) env.stamp)
unfolding Agent.sign Did.sign
own_answer c a env key priv nonce claim pair hp hn names =
    (respond_handshake_iff c a claim _ env.nonce env.stamp).1 (
      names,
      (c.ed25519_sign priv claim.challenge, rw (hp, pair.priv_size) refl, (nonce, hn, refl)),
    )

module _ (w : Protowire) (laws : IsProtowire w) (c : Crypto) (add : Float32 → Float32 → Float32)
    (key priv : Bytes) where
  -- Whoever sends a host a handshake message whose identifier names its public key is cached under
  -- its own peer id with that identifier and key, whatever capabilities it claims, and takes the
  -- registry's entry of the agent id that it names. No signature by that key is asked for: not
  -- before, and not for an intent that the same peer then sends without a signature. The host answers the intent, and applies the trust delta to the identifier
  -- that the intent names. The host has a key pair and a nonce, and its callbacks, where it has any,
  -- return nil; both messages fit a frame, with fields that are values of their Go types, and the
  -- intent's trust score is no negative zero.
  pub identity_without_key :
      (ah : AgentHost) (env env' : Readings) (nonce peer_id : Bytes) (claim : HandshakeMessage)
      (m : IntentMessage)
      → IsKeyPair c key priv
      → ah.agent.did.priv_key ≡ some priv
      → env.nonce ≡ some nonce
      → called ah.on_handshake peer_id claim ≡ ok none
      → called ah.on_intent peer_id (decoded m) ≡ ok none
      → NamesKey c claim.did claim.public_key
      → IsGoHandshake claim
      → 1 + length (Handshake.encode w claim) ≤ max_length
      → m.signature ≡ []
      → IsGoIntent w m
      → m.trust_score ≢ sign_bit
      → 1 + length (Intent.encode w m) ≤ max_length
      → (reply : HandshakeMessage) × ((resp : NegotiationResponse) × ((handle_stream w c add env
                peer_id
                (write_msg w (handshake claim) [])
                ah
              ≡ ok (remember env.time peer_id claim ah, write_msg w (handshake reply) []))
            × (get peer_id (remember env.time peer_id claim ah).known ≡ some (profile_of claim))
            × (get claim.agent_id (remember env.time peer_id claim ah).discovery
                ≡ some (entry (profile_of claim) env.time (pos 0)))
            × (handle_stream w c add env' peer_id
                  (write_msg w (intent m) [])
                  (remember env.time peer_id claim ah)
                ≡ ok (
                  record (remember env.time peer_id claim ah) {
                    trust = apply add (to_string ah.agent.did) m.did resp.trust_delta ah.trust;
                  },
                  write_msg w (negotiation resp) [],
                ))))
  unfolding remember announce default_handler build_workflow
  identity_without_key ah env env' nonce peer_id claim m pair hp hn hc hc' names fits small unsigned
        fits' hz small' =
      let reply = answer c ah.agent nonce (c.ed25519_sign priv claim.challenge) env.stamp in
      let (resp, (answered, _)) =
        default_handler_signed c ah.agent key priv env'.stamp (decoded m) pair hp in
      let bh = remember env.time peer_id claim ah in
      let fine : refused (get peer_id bh.known) m.signature (λ k. verify_intent_signature c m k)
          ≡ ok false =
        rw (get-remember env.time peer_id claim ah, unsigned) refl in
      let replied : reply_to c env' peer_id m bh ≡ ok resp = rw (hc', answered) refl in
      (
        reply,
        (
          resp,
          (
            handle_handshake w laws c add env peer_id ah claim reply fits small hc
                (own_answer c ah.agent env key priv nonce claim pair hp hn names),
            get-remember env.time peer_id claim ah,
            get-put_self claim.agent_id (entry (profile_of claim) env.time (pos 0)) ah.discovery,
            handle_intent w laws c add env' peer_id bh m resp fits' hz small' fine replied,
          ),
        ),
      )
