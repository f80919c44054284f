-- ===== src/Host/Negotiate.antt =====
-- p2p/host.go: an intent between two hosts.
use agent_semantic_protocol.Common.{
  ◌+◌, ◌≤◌, ◌≡◌, ◌≢◌, ◌↔◌, refl, sym, ◌∙◌, Bool, true, false, Option, none, some, [], Bytes, length,
  is_empty, if◌then◌else◌, All,
}
use agent_semantic_protocol.Common.Outcome.{Result, ok}
use agent_semantic_protocol.Wire.Float32.{Float32, sign_bit}
use agent_semantic_protocol.Wire.Maps.{get}
use agent_semantic_protocol.Wire.Protowire.{Protowire, IsProtowire}
use agent_semantic_protocol.Messages.Types.{IntentMessage, NegotiationResponse}
use agent_semantic_protocol.Messages.Intent
use agent_semantic_protocol.Messages.Intent.RoundTrip.{IsGoIntent, decode-encode_intent}
use agent_semantic_protocol.Messages.Negotiation
use agent_semantic_protocol.Messages.Negotiation.RoundTrip.{IsGoResponse, decode-encode_response}
use agent_semantic_protocol.Messages.Message.{intent, negotiation, msg_type, encode}
use agent_semantic_protocol.Did.{to_string}
use agent_semantic_protocol.Did.Packages.{Crypto, IsKeyPair}
use agent_semantic_protocol.Capability.Sets.{Offers}
use agent_semantic_protocol.Trust.{apply}
use agent_semantic_protocol.Discovery.{AgentProfile}
use agent_semantic_protocol.Negotiation.{
  default_handler, build_workflow, verify_intent_signature, verify_response_signature,
}
use agent_semantic_protocol.Negotiation.Handler.{default_handler_lem}
use agent_semantic_protocol.Negotiation.Signatures.{default_handler_signed}
use agent_semantic_protocol.Stream.{write_msg, max_length}
use agent_semantic_protocol.Stream.RoundTrip.{read_msg-write_msg}
use agent_semantic_protocol.Host.{
  AgentHost, Readings, called, reply_or_default, refused, or_return, handle_incoming_intent,
  handle_stream, send_intent,
}
use agent_semantic_protocol.Host.Requests.{ok_injective}
use agent_semantic_protocol.Host.Exchange.{as_peer}

-- An intent as it is decoded: its logger is not sent.
abbrev pub decoded : IntentMessage → IntentMessage
decoded m = record m { logger = none }

-- What a host answers to an intent.
abbrev pub reply_to :
    Crypto → Readings → Bytes → IntentMessage → AgentHost → Result NegotiationResponse
reply_to c env peer_id m ah =
    reply_or_default (called ah.on_intent peer_id (decoded m))
      (default_handler c ah.agent env.stamp (decoded m))

module _ (w : Protowire) (laws : IsProtowire w) (c : Crypto)
    (add : Float32 → Float32 → Float32) where
  -- The responder's side, for an intent that it does not refuse.
  pub handle_intent :
      (env : Readings) (peer_id : Bytes) (ah : AgentHost) (m : IntentMessage)
      (resp : NegotiationResponse)
      → IsGoIntent w m
      → m.trust_score ≢ sign_bit
      → 1 + length (Intent.encode w m) ≤ max_length
      → refused (get peer_id ah.known) m.signature (λ key. verify_intent_signature c m key)
        ≡ ok false
      → reply_to c env peer_id m ah ≡ ok resp
      → handle_stream w c add env peer_id (write_msg w (intent m) []) ah
        ≡ ok (
          record ah { trust = apply add (to_string ah.agent.did) m.did resp.trust_delta ah.trust },
          write_msg w (negotiation resp) [],
        )
  unfolding handle_stream handle_incoming_intent or_return msg_type encode verify_intent_signature
  handle_intent env peer_id ah m resp fits hz small fine replied =
      rw
        (
          read_msg-write_msg w (intent m) small,
          decode-encode_intent w laws m fits hz,
          fine,
          replied,
        )
        refl

  -- The sender's side, for an answer that it does not refuse.
  send_intent_answered :
      (peer_id : Bytes) (stream : Bytes → Option Bytes) (m : IntentMessage) (ah : AgentHost)
      (resp : NegotiationResponse)
      → stream (write_msg w (intent m) []) ≡ some (write_msg w (negotiation resp) [])
      → IsGoResponse resp
      → resp.trust_delta ≢ sign_bit
      → 1 + length (Negotiation.encode w resp) ≤ max_length
      → refused (get peer_id ah.known) resp.signature (λ key. verify_response_signature c resp key)
        ≡ ok false
      → send_intent w c add peer_id (some stream) m ah
        ≡ ok (
          record ah {
            trust = apply add (to_string ah.agent.did) resp.did resp.trust_delta ah.trust;
          },
          resp,
        )
  unfolding send_intent msg_type encode
  send_intent_answered peer_id stream m ah resp hs fits hz small fine =
      rw
        (
          hs,
          read_msg-write_msg w (negotiation resp) small,
          decode-encode_response w laws resp fits hz,
          fine,
        )
        refl

-- The check of a signature that verifies with the key that is cached.
pub verified-refused :
    (known : Option AgentProfile) (profile : AgentProfile) (signature : Bytes)
    (check : Bytes → Result Bool)
    → known ≡ some profile
    → check profile.public_key ≡ ok true
    → refused known signature check ≡ ok false
verified-refused known profile signature check hk hc = rw (hk, hc) (one (is_empty signature))
  where
    one : (b : Bool) → (if b then ok false else ok false) ≡ ok false
    one true = refl
    one false = refl

module _ (w : Protowire) (laws : IsProtowire w) (c : Crypto)
    (add : Float32 → Float32 → Float32) where
  -- The answer of a host, from its callback or its default handler, with a signature that verifies.
  pub hosts_answer :
      (ah bh : AgentHost) (env' : Readings) (peer_id peer_id' : Bytes) (profile : AgentProfile)
      (m : IntentMessage) (resp : NegotiationResponse)
      → refused (get peer_id bh.known) m.signature (λ k. verify_intent_signature c m k) ≡ ok false
      → get peer_id' ah.known ≡ some profile
      → reply_to c env' peer_id m bh ≡ ok resp
      → verify_response_signature c resp profile.public_key ≡ ok true
      → IsGoIntent w m
      → m.trust_score ≢ sign_bit
      → 1 + length (Intent.encode w m) ≤ max_length
      → IsGoResponse resp
      → resp.trust_delta ≢ sign_bit
      → 1 + length (Negotiation.encode w resp) ≤ max_length
      → (handle_stream w c add env' peer_id (write_msg w (intent m) []) bh
          ≡ ok (
            record bh {
              trust = apply add (to_string bh.agent.did) m.did resp.trust_delta bh.trust;
            },
            write_msg w (negotiation resp) [],
          ))
        × (send_intent w c add peer_id'
              (as_peer (λ sent. handle_stream w c add env' peer_id sent bh))
              m
              ah
            ≡ ok (
              record ah {
                trust = apply add (to_string ah.agent.did) resp.did resp.trust_delta ah.trust;
              },
              resp,
            ))
  hosts_answer ah bh env' peer_id peer_id' profile m resp fine known replied valid fits hz small
        fits' hz' small' =
      let handled = handle_intent w laws c add env' peer_id bh m resp fits hz small fine replied in
      (
        handled,
        send_intent_answered w laws c add peer_id' _ m ah resp (rw handled refl) fits' hz' small'
            (verified-refused (get peer_id' ah.known) profile resp.signature _ known valid),
      )

module _ (w : Protowire) (laws : IsProtowire w) (c : Crypto) (add : Float32 → Float32 → Float32)
    (key priv : Bytes) where
  -- An intent between two hosts is answered: the responder's handler writes the response of its
  -- agent's default handler, and the requester returns that response, which accepts exactly if the
  -- responder's agent offers every capability that is required; each host applies the trust delta
  -- of the response to its score for the other's identifier. The responder has a key pair, no
  -- callback or one that returns nil, and does not refuse the signature of the intent; the requester has cached the
  -- responder's public key; both messages fit a frame, with fields that are values of their Go
  -- types and no negative zero as their trust score and trust delta.
  pub hosts_negotiate :
      (ah bh : AgentHost) (env' : Readings) (peer_id peer_id' : Bytes) (profile : AgentProfile)
      (m : IntentMessage) (resp : NegotiationResponse)
      → IsKeyPair c key priv
      → bh.agent.did.priv_key ≡ some priv
      → called bh.on_intent peer_id (decoded m) ≡ ok none
      → refused (get peer_id bh.known) m.signature (λ k. verify_intent_signature c m k) ≡ ok false
      → get peer_id' ah.known ≡ some profile
      → profile.public_key ≡ key
      → default_handler c bh.agent env'.stamp m ≡ ok resp
      → IsGoIntent w m
      → m.trust_score ≢ sign_bit
      → 1 + length (Intent.encode w m) ≤ max_length
      → IsGoResponse resp
      → resp.trust_delta ≢ sign_bit
      → 1 + length (Negotiation.encode w resp) ≤ max_length
      → (handle_stream w c add env' peer_id (write_msg w (intent m) []) bh
          ≡ ok (
            record bh {
              trust = apply add (to_string bh.agent.did) m.did resp.trust_delta bh.trust;
            },
            write_msg w (negotiation resp) [],
          ))
        × (send_intent w c add peer_id'
              (as_peer (λ sent. handle_stream w c add env' peer_id sent bh))
              m
              ah
            ≡ ok (
              record ah {
                trust = apply add (to_string ah.agent.did) resp.did resp.trust_delta ah.trust;
              },
              resp,
            ))
        × ((resp.accepted ≡ true) ↔ All (Offers bh.agent.capabilities) m.capabilities)
  unfolding default_handler build_workflow
  hosts_negotiate ah bh env' peer_id peer_id' profile m resp pair hp no_callback fine known is_key
        answered fits hz small fits' hz' small' =
      let (signed, (answered', verified)) =
        default_handler_signed c bh.agent key priv env'.stamp m pair hp in
      let same = ok_injective signed resp (sym answered' ∙ answered) in
      let valid : verify_response_signature c resp profile.public_key ≡ ok true =
        rw (is_key, ← same) verified in
      let replied : reply_to c env' peer_id m bh ≡ ok resp = rw no_callback answered in
      let (handled, sent) =
        hosts_answer w laws c add ah bh env' peer_id peer_id' profile m resp fine known replied
          valid fits hz small fits' hz' small' in
      (handled, sent, (default_handler_lem c bh.agent env'.stamp m resp answered).1)
