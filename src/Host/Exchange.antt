-- ===== src/Host/Exchange.antt =====
-- p2p/host.go: a handshake between two hosts.
use agent_semantic_protocol.Common.{
  ◌+◌, ◌≤◌, ◌≡◌, refl, ap, ◌∙◌, Bool, true, false, Option, none, some, List, [], Bytes, length,
  is_empty, if◌then◌else◌,
}
use mathlib.Core.Path.{subst}
use agent_semantic_protocol.Common.Int64.{ℤ}
use agent_semantic_protocol.Common.Outcome.{Result, ok, ◌>>=◌, ◌>>◌, bind-eq_ok}
use agent_semantic_protocol.Wire.Float32.{Float32}
use agent_semantic_protocol.Wire.Protowire.{Protowire, IsProtowire}
use agent_semantic_protocol.Messages.Types.{HandshakeMessage}
use agent_semantic_protocol.Messages.Handshake
use agent_semantic_protocol.Messages.Handshake.RoundTrip.{IsGoHandshake, decode-encode_handshake}
use agent_semantic_protocol.Messages.Message.{handshake}
use agent_semantic_protocol.Did.Packages.{Crypto, IsCrypto, IsKeyPair}
use agent_semantic_protocol.Agent.{Agent, new_agent}
use agent_semantic_protocol.Handshake.{start_handshake, respond_handshake, finish_handshake}
use agent_semantic_protocol.Handshake.Accept.{answer}
use agent_semantic_protocol.Handshake.Honest.{opening, handshake_completes}
use agent_semantic_protocol.Stream.{write_msg, max_length}
use agent_semantic_protocol.Host.{
  AgentHost, Readings, Peer, called, remember, or_return, handle_incoming_handshake, handle_stream,
  request_handshake,
}
use agent_semantic_protocol.Host.Requests.{read_written, ok_injective}

module _ (w : Protowire) (laws : IsProtowire w) (c : Crypto)
    (add : Float32 → Float32 → Float32) where
  -- The responder's side, for a message that it accepts.
  pub handle_handshake :
      (env : Readings) (peer_id : Bytes) (ah : AgentHost) (ours response : HandshakeMessage)
      → IsGoHandshake ours
      → 1 + length (Handshake.encode w ours) ≤ max_length
      → called ah.on_handshake peer_id ours ≡ ok none
      → respond_handshake c ah.agent ours env.nonce env.stamp ≡ ok response
      → handle_stream w c add env peer_id (write_msg w (handshake ours) []) ah
        ≡ ok (remember env.time peer_id ours ah, write_msg w (handshake response) [])
  unfolding handle_stream handle_incoming_handshake or_return
  handle_handshake env peer_id ah ours response fits small no_callback responded =
      rw
        (
          read_written w ours small,
          decode-encode_handshake w laws ours fits,
          no_callback,
          responded,
        )
        refl

  -- The initiator's side, for an answer that it accepts.
  request_answered :
      (env : Readings) (nonce peer_id : Bytes) (stream : Bytes → Option Bytes) (ah : AgentHost)
      (response : HandshakeMessage)
      → env.nonce ≡ some nonce
      → stream (write_msg w (handshake (opening ah.agent nonce env.stamp)) [])
        ≡ some (write_msg w (handshake response) [])
      → IsGoHandshake response
      → 1 + length (Handshake.encode w response) ≤ max_length
      → finish_handshake c nonce response ≡ ok tt
      → request_handshake w c env peer_id (some stream) ah
        ≡ ok (remember env.time peer_id response ah, response)
  unfolding request_handshake start_handshake
  request_answered env nonce peer_id stream ah response hn hs fits small finished =
      rw
        (
          hn,
          hs,
          read_written w response small,
          decode-encode_handshake w laws response fits,
          finished,
        )
        (one (is_empty response.challenge_response)
          (ok (remember env.time peer_id response ah, response)))
    where
      one :
          (b : Bool) (r : Result (AgentHost × HandshakeMessage))
          → ((if b then ok tt else ok tt) >> r) ≡ r
      one true r = refl
      one false r = refl

-- What a completed handshake went through.
both_sides :
    (c : Crypto) (a b : Agent) (nonce nonce' : Bytes) (now now' : ℤ) (response : HandshakeMessage)
    → (do
      ours ← start_handshake a (some nonce) now
      r ← respond_handshake c b ours (some nonce') now'
      finish_handshake c ours.challenge r
      ok r)
      ≡ ok response
    → (respond_handshake c b (opening a nonce now) (some nonce') now' ≡ ok response)
      × (finish_handshake c nonce response ≡ ok tt)
unfolding start_handshake
both_sides c a b nonce nonce' now now' response e =
    let (r, responded, e1) =
      bind-eq_ok (respond_handshake c b (opening a nonce now) (some nonce') now') _ response e in
    let (u, finished, e2) = bind-eq_ok (finish_handshake c nonce r) _ response e1 in
    let same = ok_injective r response e2 in
    (responded ∙ e2, subst (λ x. finish_handshake c nonce x ≡ ok u) same finished)

-- Another host as the peer of a request: what its handler of streams writes.
abbrev written : Result (AgentHost × Bytes) → Option Bytes
written (ok (host, b)) = some b
written _ = none

abbrev pub as_peer : (Bytes → Result (AgentHost × Bytes)) → Peer
as_peer handler = some (λ sent. written (handler sent))

module _ (w : Protowire) (wire_laws : IsProtowire w) (c : Crypto) (laws : IsCrypto c)
    (add : Float32 → Float32 → Float32) (key priv id key' priv' id' : Bytes)
    (caps caps' : List Bytes) where
  -- Two hosts, whose agents `NewAgent` made from key pairs, complete a handshake over a stream if
  -- each has a nonce, the two messages fit a frame, their fields are values of their Go types, and
  -- the responder has no callback, or one that returns nil: the initiator caches and
  -- announces the responder's profile, and the responder caches and announces the initiator's.
  pub hosts_handshake :
      (ah bh : AgentHost) (env env' : Readings) (nonce nonce' peer_id peer_id' : Bytes)
      (ours response : HandshakeMessage)
      → IsKeyPair c key priv
      → IsKeyPair c key' priv'
      → new_agent c (some (key, priv)) id caps ≡ ok ah.agent
      → new_agent c (some (key', priv')) id' caps' ≡ ok bh.agent
      → env.nonce ≡ some nonce
      → env'.nonce ≡ some nonce'
      → called bh.on_handshake peer_id ours ≡ ok none
      → opening ah.agent nonce env.stamp ≡ ours
      → answer c bh.agent nonce' (c.ed25519_sign priv' nonce) env'.stamp ≡ response
      → IsGoHandshake ours
      → IsGoHandshake response
      → 1 + length (Handshake.encode w ours) ≤ max_length
      → 1 + length (Handshake.encode w response) ≤ max_length
      → (handle_stream w c add env' peer_id (write_msg w (handshake ours) []) bh
          ≡ ok (remember env'.time peer_id ours bh, write_msg w (handshake response) []))
        × (request_handshake w c env peer_id'
              (as_peer (λ sent. handle_stream w c add env' peer_id sent bh))
              ah
            ≡ ok (remember env.time peer_id' response ah, response))
  hosts_handshake ah bh env env' nonce nonce' peer_id peer_id' ours response hp hp' ha hb hn hn'
        no_callback eo er fits fits' small small' =
      let (responded, finished) =
        both_sides c ah.agent bh.agent nonce nonce' env.stamp env'.stamp response (
          handshake_completes c laws key priv id key' priv' id' caps caps' ah.agent bh.agent nonce
            nonce' env.stamp env'.stamp hp hp' ha hb
          ∙ ap (λ x. ok x) er) in
      let replied : handle_stream w c add env' peer_id (write_msg w (handshake ours) []) bh
          ≡ ok (remember env'.time peer_id ours bh, write_msg w (handshake response) []) =
        handle_handshake w wire_laws c add env' peer_id bh ours response fits small no_callback
          (rw (hn', ← eo) responded) in
      (
        replied,
        request_answered w wire_laws c add env nonce peer_id' _ ah response hn
            (rw (eo, replied) refl) fits' small' finished,
      )
