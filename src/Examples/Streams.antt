-- ===== src/Examples/Streams.antt =====
-- examples: a request of one host that meets the stream handler of another in the same process.
use agent_semantic_protocol.Common.{
  ◌≡◌, refl, Bool, true, false, none, some, List, [], Bytes, if◌then◌else◌, ◌==◌,
}
use agent_semantic_protocol.Common.Outcome.{message, Result, ok, err, panic, stuck, ◌>>=◌, ◌>>◌}
use agent_semantic_protocol.Wire.Maps.{get}
use agent_semantic_protocol.Wire.Protowire.{Protowire}
use agent_semantic_protocol.Messages.Types.{
  HandshakeMessage, IntentMessage, msg_handshake, msg_intent,
}
use agent_semantic_protocol.Messages.Handshake
use agent_semantic_protocol.Messages.Intent
use agent_semantic_protocol.Messages.Message.{handshake}
use agent_semantic_protocol.Did.{did_from_key}
use agent_semantic_protocol.Did.Packages.{Crypto}
use agent_semantic_protocol.Agent.{Agent}
use agent_semantic_protocol.Handshake.{start_handshake}
use agent_semantic_protocol.Handshake.Honest.{opening}
use agent_semantic_protocol.Negotiation.{verify_intent_signature}
use agent_semantic_protocol.Stream.{read_msg, write_msg}
use agent_semantic_protocol.Host.{AgentHost, Peer, Readings, refused}
use agent_semantic_protocol.Host.Exchange.{as_peer}

-- The host that served a stream, afterwards. A panic in its goroutine ends the whole program.
abbrev pub served : AgentHost → Result (AgentHost × Bytes) → Result AgentHost
served bh (ok (bh', out)) = ok bh'
served bh (err e) = ok bh
served bh panic = panic
served bh stuck = stuck

-- A request to another host of the program, over a stream that opens or not: the other host
-- afterwards, and what the request returns. `sent` is what the request writes, where it gets that
-- far, and `handler` the other host's handler of streams.
unfoldable pub across {ℓ} :
    {R : Type ℓ}
    → Bool
    → Result Bytes
    → (Bytes → Result (AgentHost × Bytes))
    → (Peer → R)
    → AgentHost
    → Result (AgentHost × R)
across false sent handler request bh = ok (bh, request none)
across true (ok b) handler request bh =
    served bh (handler b) >>= λ bh'. ok (bh', request (as_peer handler))
across true _ handler request bh = ok (bh, request (as_peer handler))

module _ (w : Protowire) where
  -- What `Handshake` writes.
  unfoldable pub greeting : Readings → AgentHost → Result Bytes
  greeting env ah = do
    ours ← start_handshake ah.agent env.nonce env.stamp
    ok (write_msg w (handshake ours) [])

  -- The message that the handler of a stream calls the callback for handshakes with.
  unfoldable pub heard_handshake : Result Bytes → Result HandshakeMessage
  heard_handshake sent = do
    input ← sent
    (msg_type, b, rest) ← read_msg input
    (if msg_type == msg_handshake then ok tt else err (message "no handshake"))
    Handshake.decode w b

  -- The same for intents, which are first checked.
  unfoldable pub heard_intent : Crypto → Bytes → Result Bytes → AgentHost → Result IntentMessage
  heard_intent c peer_id sent ah = do
    input ← sent
    (msg_type, b, rest) ← read_msg input
    (if msg_type == msg_intent then ok tt else err (message "no intent"))
    m ← Intent.decode w b
    refuse ← refused (get peer_id ah.known) m.signature (λ key. verify_intent_signature c m key)
    (if refuse then err (message "invalid signature") else ok m)

-- What a callback prints.
abbrev pub heard_lines {ℓ κ} : {M : Type ℓ} {L : Type κ} → Bool → (M → List L) → Result M → List L
heard_lines true prints (ok m) = prints m
heard_lines _ prints _ = []

-- A request that the other host serves.
pub across_served {ℓ} :
    {R : Type ℓ} (sent : Result Bytes) (handler : Bytes → Result (AgentHost × Bytes))
    (request : Peer → R) (bh bh' : AgentHost) (b out : Bytes)
    → sent ≡ ok b
    → handler b ≡ ok (bh', out)
    → across true sent handler request bh ≡ ok (bh', request (as_peer handler))
unfolding across
across_served sent handler request bh bh' b out hs hh = rw (hs, hh) refl

pub greeting_lem :
    (w : Protowire) (env : Readings) (nonce : Bytes) (ah : AgentHost)
    → env.nonce ≡ some nonce
    → greeting w env ah ≡ ok (write_msg w (handshake (opening ah.agent nonce env.stamp)) [])
unfolding greeting start_handshake
greeting_lem w env nonce ah h = rw h refl

-- The agent of `NewAgent`, from its key pair.
abbrev pub agent_of : Crypto → Bytes → Bytes → Bytes → List Bytes → Agent
agent_of c key priv id caps = record {
  id = id;
  did = did_from_key c key (some priv);
  capabilities = caps;
  pub_key = some key;
  priv_key = some priv;
}
