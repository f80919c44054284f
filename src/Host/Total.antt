-- ===== src/Host/Total.antt =====
-- p2p/host.go: no stream makes a host panic.
use agent_semantic_protocol.Common.{
  ◌≡◌, inl, inr, refl, Bool, true, false, Option, none, some, ◌++◌, Bytes, length, is_empty,
  Option-cases, ◌==◌, leb,
}
use Prim.Native.String.{String}
use agent_semantic_protocol.Common.Int64.{ℤ}
use agent_semantic_protocol.Common.Outcome.{
  Error, Result, ok, err, panic, stuck, wrapping, Finishes, Finishes-ok, Finishes-err, Finishes-if,
  Finishes-bind, Finishes-want,
}
use agent_semantic_protocol.Wire.Float32.{Float32}
use agent_semantic_protocol.Wire.Maps.{get}
use agent_semantic_protocol.Wire.Protowire.{Protowire, IsProtowire}
use agent_semantic_protocol.Messages.Types.{
  HandshakeMessage, IntentMessage, NegotiationResponse, msg_handshake, msg_intent, msg_capability,
}
use agent_semantic_protocol.Messages.Total.{decoders-Finishes}
use agent_semantic_protocol.Did
use agent_semantic_protocol.Did.{Did, parse_did, validate_binding}
use agent_semantic_protocol.Did.Packages.{Crypto, private_key_size}
use agent_semantic_protocol.Agent
use agent_semantic_protocol.Agent.{Agent}
use agent_semantic_protocol.Handshake.{require, respond_handshake}
use agent_semantic_protocol.Negotiation.{with_signature, default_handler, verify_intent_signature}
use agent_semantic_protocol.Negotiation.Signatures.{verify_signature_lem}
use agent_semantic_protocol.Stream.Total.{read_msg-Finishes}
use agent_semantic_protocol.Discovery.{AgentProfile}
use agent_semantic_protocol.Host.{
  AgentHost, Readings, or_else, reply_or_default, called, or_return, refused,
  handle_incoming_handshake, handle_incoming_intent, handle_incoming_capability, handle_stream,
}

-- A private key that is there has the length that `ed25519.Sign` wants.
abbrev pub CanSign : Did → Type 0
CanSign d = (priv : Bytes) → d.priv_key ≡ some priv → length priv ≡ private_key_size

pub Finishes-wrapping {ℓ} :
    {A : Type ℓ} (s : String) (r : Result A) → Finishes r → Finishes (wrapping s r)
Finishes-wrapping s (ok a) h = h
Finishes-wrapping s (err e) h = Finishes-err _
Finishes-wrapping s panic h = absurd (h.no_panic refl)
Finishes-wrapping s stuck h = absurd (h.no_stuck refl)

Finishes-or_return {ℓ} :
    {A : Type ℓ} (ah : AgentHost) (r : Result A) (k : A → Result (AgentHost × Bytes))
    → Finishes r
    → ((a : A) → Finishes (k a))
    → Finishes (or_return ah r k)
unfolding or_return
Finishes-or_return ah (ok a) k h hk = hk a
Finishes-or_return ah (err e) k h hk = Finishes-ok _
Finishes-or_return ah panic k h hk = absurd (h.no_panic refl)
Finishes-or_return ah stuck k h hk = absurd (h.no_stuck refl)

Finishes-or_else {ℓ} :
    {B : Type ℓ} (o : Option B) (r : Result B) → Finishes r → Finishes (or_else o r)
Finishes-or_else none r h = h
Finishes-or_else (some b) r h = Finishes-ok b

Finishes-reply_or_default {ℓ} :
    {B : Type ℓ} (answer : Result (Option B)) (default : Result B)
    → Finishes answer
    → Finishes default
    → Finishes (reply_or_default answer default)
Finishes-reply_or_default answer default h h' =
    Finishes-bind answer _ h (λ resp _. Finishes-or_else resp default h')

Finishes-require : (b : Bool) (e : Error) → Finishes (require b e)
Finishes-require true e = Finishes-ok tt
Finishes-require false e = Finishes-err e

with_signature-Finishes :
    (resp : NegotiationResponse) (r : Result Bytes) → Finishes r → Finishes (with_signature resp r)
unfolding with_signature
with_signature-Finishes resp (ok sig) h = Finishes-ok _
with_signature-Finishes resp (err e) h = Finishes-ok _
with_signature-Finishes resp panic h = absurd (h.no_panic refl)
with_signature-Finishes resp stuck h = absurd (h.no_stuck refl)

module _ (c : Crypto) where
  pub sign-Finishes : (d : Did) (b : Bytes) → CanSign d → Finishes (Did.sign c d b)
  unfolding Did.sign
  sign-Finishes d b safe = elim (Option-cases d.priv_key) [
    | inl gone ↦ rw gone (Finishes-err _)
    | inr (priv, there) ↦ rw (there, safe priv there) (Finishes-ok _)
  ]

  parse_did-Finishes : (s : Bytes) → Finishes (parse_did c s)
  unfolding parse_did
  parse_did-Finishes s = Finishes-want _ (c.sscanf_did s) _ (λ scanned _.
      Finishes-if (leb (length s) 4) _ _ (Finishes-err _)
        (Finishes-if _ _ _ (Finishes-err _) (Finishes-ok _)))

  respond_handshake-Finishes :
      (a : Agent) (incoming : HandshakeMessage) (nonce : Option Bytes) (now : ℤ)
      → CanSign a.did
      → Finishes (respond_handshake c a incoming nonce now)
  unfolding respond_handshake Agent.sign
  respond_handshake-Finishes a incoming nonce now safe =
      Finishes-bind (wrapping _ (parse_did c incoming.did)) _
        (Finishes-wrapping _ _ (parse_did-Finishes incoming.did))
        (λ d _.
          Finishes-bind (require (validate_binding c d incoming.public_key) _) _
            (Finishes-require _ _)
            (λ _ _.
              Finishes-bind (wrapping _ (Did.sign c a.did incoming.challenge)) _
                (Finishes-wrapping _ _ (sign-Finishes a.did incoming.challenge safe))
                (λ sig _. Finishes-want _ nonce _ (λ challenge _. Finishes-ok _))))

  default_handler-Finishes :
      (a : Agent) (now : ℤ) (m : IntentMessage)
      → CanSign a.did
      → Finishes (default_handler c a now m)
  unfolding default_handler
  default_handler-Finishes a now m safe = with_signature-Finishes _ _ (sign-Finishes a.did _ safe)

  pub refused-Finishes :
      (o : Option AgentProfile) (signature : Bytes) (check : Bytes → Result Bool)
      → ((key : Bytes) → Finishes (check key))
      → Finishes (refused o signature check)
  refused-Finishes none signature check h = Finishes-ok _
  refused-Finishes (some p) signature check h =
      Finishes-if (is_empty signature) _ _ (Finishes-ok _)
        (Finishes-bind (check p.public_key) _ (h p.public_key) (λ valid _. Finishes-ok _))

  verify_intent_signature-Finishes :
      (m : IntentMessage) (key : Bytes) → Finishes (verify_intent_signature c m key)
  unfolding verify_intent_signature
  verify_intent_signature-Finishes m key =
      rw (verify_signature_lem c m.signature (m.id ++ m.payload) key) (
        Finishes-if (is_empty m.signature) _ _ (Finishes-ok _)
          (Finishes-if _ _ _ (Finishes-ok _) (Finishes-ok _)))

module _ (w : Protowire) (laws : IsProtowire w) (c : Crypto) (add : Float32 → Float32 → Float32)
    (env : Readings) (ah : AgentHost) (safe : CanSign ah.agent.did)
    (calm : (peer_id : Bytes) (m : HandshakeMessage) → Finishes (called ah.on_handshake peer_id m))
    (calm' : (peer_id : Bytes) (m : IntentMessage) → Finishes (called ah.on_intent peer_id m)) where
  handle_handshake-Finishes :
      (peer_id b : Bytes) → Finishes (handle_incoming_handshake w c env peer_id b ah)
  unfolding handle_incoming_handshake
  handle_handshake-Finishes peer_id b =
      Finishes-or_return ah _ _ (decoders-Finishes w laws b).0 (λ incoming.
        Finishes-or_return ah _ _
          (Finishes-reply_or_default _ _ (calm peer_id incoming)
            (respond_handshake-Finishes c ah.agent incoming env.nonce env.stamp safe))
          (λ resp. Finishes-ok _))

  handle_intent-Finishes :
      (peer_id b : Bytes) → Finishes (handle_incoming_intent w c add env peer_id b ah)
  unfolding handle_incoming_intent
  handle_intent-Finishes peer_id b = Finishes-or_return ah _ _ (decoders-Finishes w laws b).1 (λ m.
      Finishes-or_return ah _ _
        (refused-Finishes c (get peer_id ah.known) m.signature _
          (verify_intent_signature-Finishes c m))
        (λ refuse. Finishes-if refuse _ _ (Finishes-ok _) (
          Finishes-or_return ah _ _
            (Finishes-reply_or_default _ _ (calm' peer_id m)
              (default_handler-Finishes c ah.agent env.stamp m safe))
            (λ resp. Finishes-ok _))))

  handle_capability-Finishes : (b : Bytes) → Finishes (handle_incoming_capability w env b ah)
  unfolding handle_incoming_capability
  handle_capability-Finishes b =
      Finishes-or_return ah _ _ (decoders-Finishes w laws b).3 (λ ann. Finishes-ok _)

  -- Whatever bytes a peer sends, the handler of the stream ends without a panic, if the host's own
  -- private key, where it has one, is of the right length, and the host's callbacks, where it has
  -- any, end without a panic.
  pub handle_stream-Finishes :
      (peer_id input : Bytes) → Finishes (handle_stream w c add env peer_id input ah)
  unfolding handle_stream
  handle_stream-Finishes peer_id input =
      Finishes-or_return ah _ _ (read_msg-Finishes input) (λ (msg_type, b, rest).
        Finishes-if (msg_type == msg_handshake) _ _ (handle_handshake-Finishes peer_id b) (
          Finishes-if (msg_type == msg_intent) _ _ (handle_intent-Finishes peer_id b) (
            Finishes-if (msg_type == msg_capability) _ _ (handle_capability-Finishes b)
              (Finishes-ok _))))
