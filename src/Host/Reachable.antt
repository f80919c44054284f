-- ===== src/Host/Reachable.antt =====
-- p2p/host.go: the hosts that streams and requests reach, in any order, from a new one.
use agent_semantic_protocol.Common.{
  ◌≡◌, ap, refl, Option, Bytes, is_empty, if◌then◌else◌, ◌==◌, [], inl,
}
use mathlib.Core.Path.{subst}
use agent_semantic_protocol.Common.Outcome.{ok, err, want, wrapping, bind-eq_ok}
use agent_semantic_protocol.Wire.Float32.{Float32}
use agent_semantic_protocol.Wire.Maps.{get}
use agent_semantic_protocol.Wire.Protowire.{Protowire}
use agent_semantic_protocol.Messages.Types.{
  HandshakeMessage, IntentMessage, NegotiationResponse, msg_handshake, msg_intent, msg_negotiation,
  msg_capability,
}
use agent_semantic_protocol.Messages.Handshake
use agent_semantic_protocol.Messages.Negotiation
use agent_semantic_protocol.Messages.Message.{handshake, intent}
use agent_semantic_protocol.Did.{to_string}
use agent_semantic_protocol.Did.Packages.{Crypto}
use agent_semantic_protocol.Agent.{Agent}
use agent_semantic_protocol.Handshake.{start_handshake, finish_handshake}
use agent_semantic_protocol.Trust.{new_trust_graph, get_score, apply}
use agent_semantic_protocol.Trust.Scores.{IsScored, add_delta, update, update-IsScored}
use agent_semantic_protocol.Negotiation.{verify_response_signature}
use agent_semantic_protocol.Stream.{read_msg, write_msg}
use agent_semantic_protocol.Host.{
  AgentHost, Readings, Peer, HandshakeCallback, IntentCallback, new_host, remember, refused,
  handle_incoming_handshake, handle_incoming_intent, handle_incoming_capability, handle_stream,
  request_handshake, send_intent,
}
use agent_semantic_protocol.Host.Callbacks.{on_handshake, on_intent}
use agent_semantic_protocol.Host.Requests.{ok_injective}
use agent_semantic_protocol.Host.Registered.{
  IsRegistered, Leaves, or_return-Leaves, Leaves-if, remember-IsRegistered,
  handle_stream-IsRegistered,
}

abbrev pub IsTrusted : AgentHost → Type 0
IsTrusted ah = IsScored ah.trust

apply-IsScored :
    (add : Float32 → Float32 → Float32) (from to : Bytes) (delta : Float32) (ah : AgentHost)
    → IsTrusted ah
    → IsScored (apply add from to delta ah.trust)
unfolding update
apply-IsScored add from to delta ah h = update-IsScored add (add_delta from to delta) ah.trust h

module _ (w : Protowire) (c : Crypto) (add : Float32 → Float32 → Float32) where
  -- One stream handled, one request that succeeds, or a callback set. A request that fails leaves the host as it is.
  pub data Step (ah : AgentHost) : AgentHost → Type 0 where
    stream :
        {ah' : AgentHost} (env : Readings) (peer_id input out : Bytes)
        → handle_stream w c add env peer_id input ah ≡ ok (ah', out)
        → Step ah ah'
    shake :
        {ah' : AgentHost} (env : Readings) (peer_id : Bytes) (peer : Peer) (resp : HandshakeMessage)
        → request_handshake w c env peer_id peer ah ≡ ok (ah', resp)
        → Step ah ah'
    send :
        {ah' : AgentHost} (peer_id : Bytes) (peer : Peer) (m : IntentMessage)
        (resp : NegotiationResponse)
        → send_intent w c add peer_id peer m ah ≡ ok (ah', resp)
        → Step ah ah'
    hook_handshake : (callback : Option HandshakeCallback) → Step ah (on_handshake callback ah)
    hook_intent : (callback : Option IntentCallback) → Step ah (on_intent callback ah)

  pub data Reach (agent : Agent) : AgentHost → Type 0 where
    start : Reach agent (new_host agent)
    later : {ah ah' : AgentHost} → Reach agent ah → Step ah ah' → Reach agent ah'

  handle_stream-IsTrusted :
      (env : Readings) (peer_id input : Bytes) (ah : AgentHost)
      → IsTrusted ah
      → Leaves IsTrusted (handle_stream w c add env peer_id input ah)
  unfolding handle_stream handle_incoming_handshake handle_incoming_intent
      handle_incoming_capability remember
  handle_stream-IsTrusted env peer_id input ah h =
      or_return-Leaves IsTrusted ah h _ _ (λ (msg_type, b, rest).
        Leaves-if IsTrusted ah h (msg_type == msg_handshake) _ _
          (or_return-Leaves IsTrusted ah h _ _
            (λ incoming. or_return-Leaves IsTrusted ah h _ _ (λ resp. h)))
          (Leaves-if IsTrusted ah h (msg_type == msg_intent) _ _
            (or_return-Leaves IsTrusted ah h _ _ (λ m.
              or_return-Leaves IsTrusted ah h _ _ (λ refuse. Leaves-if IsTrusted ah h refuse _ _ h (
                or_return-Leaves IsTrusted ah h _ _ (λ resp.
                  apply-IsScored add (to_string ah.agent.did) m.did resp.trust_delta ah h)))))
            (Leaves-if IsTrusted ah h (msg_type == msg_capability) _ _
              (or_return-Leaves IsTrusted ah h _ _ (λ ann. h)) h)))

  pub request_handshake-remember :
      (env : Readings) (peer_id : Bytes) (peer : Peer) (ah ah' : AgentHost)
      (resp : HandshakeMessage)
      → request_handshake w c env peer_id peer ah ≡ ok (ah', resp)
      → remember env.time peer_id resp ah ≡ ah'
  unfolding request_handshake
  request_handshake-remember env peer_id peer ah ah' resp e =
      let (opened, _, e1) = bind-eq_ok (want _ peer) _ (ah', resp) e in
      let (ours, _, e2) =
        bind-eq_ok (start_handshake ah.agent env.nonce env.stamp) _ (ah', resp) e1 in
      let (reply, _, e3) =
        bind-eq_ok (want _ (opened (write_msg w (handshake ours) []))) _ (ah', resp) e2 in
      let (got, _, e4) = bind-eq_ok (wrapping _ (read_msg reply)) _ (ah', resp) e3 in
      let (_, _, e5) =
        bind-eq_ok (if got.0 == msg_handshake then ok tt else err _) _ (ah', resp) e4 in
      let (r, _, e6) = bind-eq_ok (wrapping _ (Handshake.decode w got.1)) _ (ah', resp) e5 in
      let (_, _, e7) =
        bind-eq_ok
          (if is_empty r.challenge_response then ok tt else finish_handshake c ours.challenge r) _
          (ah', resp) e6 in
      let result = ok_injective (remember env.time peer_id r ah, r) (ah', resp) e7 in
      subst (λ x. remember env.time peer_id x ah ≡ ah')
        (ap (λ (x : AgentHost × HandshakeMessage). x.1) result)
        (ap (λ (x : AgentHost × HandshakeMessage). x.0) result)

  pub send_intent-apply :
      (peer_id : Bytes) (peer : Peer) (m : IntentMessage) (ah ah' : AgentHost)
      (resp : NegotiationResponse)
      → send_intent w c add peer_id peer m ah ≡ ok (ah', resp)
      → (r : NegotiationResponse) × (record ah {
        trust = apply add (to_string ah.agent.did) r.did r.trust_delta ah.trust;
      }
          ≡ ah')
  unfolding send_intent
  send_intent-apply peer_id peer m ah ah' resp e =
      let (opened, _, e1) = bind-eq_ok (want _ peer) _ (ah', resp) e in
      let (reply, _, e2) =
        bind-eq_ok (want _ (opened (write_msg w (intent m) []))) _ (ah', resp) e1 in
      let (got, _, e3) = bind-eq_ok (wrapping _ (read_msg reply)) _ (ah', resp) e2 in
      let (_, _, e4) =
        bind-eq_ok (if got.0 == msg_negotiation then ok tt else err _) _ (ah', resp) e3 in
      let (r, _, e5) = bind-eq_ok (wrapping _ (Negotiation.decode w got.1)) _ (ah', resp) e4 in
      let (refuse, _, e6) =
        bind-eq_ok
          (refused (get peer_id ah.known) r.signature (λ key. verify_response_signature c r key)) _
          (ah', resp) e5 in
      let (_, _, e7) = bind-eq_ok (if refuse then err _ else ok tt) _ (ah', resp) e6 in
      (r, ap (λ (x : AgentHost × NegotiationResponse). x.0) (ok_injective (_, r) (ah', resp) e7))

  Step-IsRegistered :
      (ah ah' : AgentHost)
      → IsRegistered ah × IsTrusted ah
      → Step ah ah'
      → IsRegistered ah' × IsTrusted ah'
  unfolding remember on_handshake on_intent
  Step-IsRegistered ah ah' (reg, tru) (stream env peer_id input out e) = (
    subst (λ r. Leaves IsRegistered r) e
        (handle_stream-IsRegistered w c env add peer_id input ah reg),
    subst (λ r. Leaves IsTrusted r) e (handle_stream-IsTrusted env peer_id input ah tru),
  )
  Step-IsRegistered ah ah' (reg, tru) (shake env peer_id peer resp e) =
      let same = request_handshake-remember env peer_id peer ah ah' resp e in
      subst (λ x. IsRegistered x × IsTrusted x) same
        (remember-IsRegistered env.time peer_id resp ah reg, tru)
  Step-IsRegistered ah ah' (reg, tru) (send peer_id peer m resp e) =
      let (r, same) = send_intent-apply peer_id peer m ah ah' resp e in
      subst (λ x. IsRegistered x × IsTrusted x) same
        (reg, apply-IsScored add (to_string ah.agent.did) r.did r.trust_delta ah tru)
  Step-IsRegistered ah ah' h (hook_handshake callback) = h
  Step-IsRegistered ah ah' h (hook_intent callback) = h

  new_host-IsRegistered :
      (agent : Agent) → IsRegistered (new_host agent) × IsTrusted (new_host agent)
  unfolding new_host new_trust_graph get_score get
  new_host-IsRegistered agent = (
    λ peer p e. absurd (cc),
    λ from to. inl (record { number = refl; not_below = refl; not_above = refl }),
  )

  -- Of every host that handled streams, successful requests and set callbacks reach from a new one,
  -- in any order and with any peers and callbacks: the registry has an entry for the agent of each known peer, and each score
  -- is between 0 and 1 or not a number.
  pub reachable-IsRegistered :
      (agent : Agent) (ah : AgentHost) → Reach agent ah → IsRegistered ah × IsTrusted ah
  reachable-IsRegistered agent ah start = new_host-IsRegistered agent
  reachable-IsRegistered agent ah' (later reached step) =
      Step-IsRegistered _ ah' (reachable-IsRegistered agent _ reached) step
