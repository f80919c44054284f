-- ===== src/Examples/NegotiationDemo/Handler.antt =====
-- examples/negotiation-demo/main.go: the callback of the code agent.
use agent_semantic_protocol.Common.{
  ◌+◌, ◌≤◌, ◌<◌, ◌≡◌, ◌≢◌, ◌↔◌, refl, sym, ◌∙◌, Bool, true, false, none, some, List, [], Bytes,
  length, ltb, if◌then◌else◌, arith, All,
}
use mathlib.Core.Path.{subst}
use agent_semantic_protocol.Common.Int64.{ℤ}
use agent_semantic_protocol.Common.Outcome.{ok, panic}
use agent_semantic_protocol.Wire.Float32.{Float32, sign_bit}
use agent_semantic_protocol.Wire.Maps.{get}
use agent_semantic_protocol.Wire.Protowire.{Protowire, IsProtowire}
use agent_semantic_protocol.Messages.Types.{IntentMessage, NegotiationResponse}
use agent_semantic_protocol.Messages.Intent
use agent_semantic_protocol.Messages.Intent.RoundTrip.{IsGoIntent, decode-encode_intent}
use agent_semantic_protocol.Messages.Message.{intent, msg_type, encode}
use agent_semantic_protocol.Did.Packages.{Crypto, IsKeyPair}
use agent_semantic_protocol.Agent.{Agent}
use agent_semantic_protocol.Capability.Sets.{Offers}
use agent_semantic_protocol.Negotiation.{
  default_handler, verify_intent_signature, verify_response_signature,
}
use agent_semantic_protocol.Negotiation.Handler.{default_handler_lem}
use agent_semantic_protocol.Negotiation.Signatures.{default_handler_signed}
use agent_semantic_protocol.Stream.{write_msg, max_length}
use agent_semantic_protocol.Stream.RoundTrip.{read_msg-write_msg}
use agent_semantic_protocol.Host.{
  AgentHost, Readings, refused, or_return, handle_incoming_intent, handle_stream,
}
use agent_semantic_protocol.Host.Callbacks.{on_intent}
use agent_semantic_protocol.Examples.NegotiationDemo.Callback.{
  detailed_steps, enriched, code_callback,
}

-- The response with the detailed steps, where `b` tells that it accepts.
abbrev more_steps : Bool → NegotiationResponse → NegotiationResponse
more_steps b resp = if b then record resp { workflow_steps = detailed_steps } else resp

more_steps_lem :
    (b : Bool) (resp : NegotiationResponse) (steps : List Bytes)
    → resp.workflow_steps ≡ (if b then steps else [])
    → ((more_steps b resp).request_id ≡ resp.request_id)
      × ((more_steps b resp).accepted ≡ resp.accepted)
      × ((more_steps b resp).workflow_steps ≡ (if b then detailed_steps else []))
more_steps_lem true resp steps e = (refl, refl, refl)
more_steps_lem false resp steps e = (refl, refl, e)

-- The steps of a response are not signed.
more_steps_verifies :
    (c : Crypto) (b : Bool) (resp : NegotiationResponse) (key : Bytes)
    → verify_response_signature c (more_steps b resp) key ≡ verify_response_signature c resp key
unfolding verify_response_signature
more_steps_verifies c true resp key = refl
more_steps_verifies c false resp key = refl

-- The callback of a code agent with a key pair answers exactly the intents of at least five
-- components, and panics for the others. Its answer accepts if and only if its agent offers all that
-- is required, then with the detailed steps, and otherwise plans no step. It passes the check with
-- the agent's public key, though the steps were replaced after it was signed.
pub code_callback_lem :
    (c : Crypto) (agent : Agent) (key priv : Bytes) (now : ℤ) (peer_id : Bytes) (m : IntentMessage)
    → IsKeyPair c key priv
    → agent.did.priv_key ≡ some priv
    → (resp : NegotiationResponse) × ((code_callback c agent now peer_id m
          ≡ (if ltb (length m.intent_vector) 5 then panic else ok (some resp)))
        × (verify_response_signature c resp key ≡ ok true)
        × (resp.request_id ≡ m.id)
        × ((resp.accepted ≡ true) ↔ All (Offers agent.capabilities) m.capabilities)
        × (resp.workflow_steps ≡ (if resp.accepted then detailed_steps else [])))
unfolding code_callback enriched
code_callback_lem c agent key priv now peer_id m pair hp =
    let (base, (answered, verified)) = default_handler_signed c agent key priv now m pair hp in
    let (same_id, decides, steps) = default_handler_lem c agent now m base answered in
    let (id, accepted, steps') = more_steps_lem base.accepted base _ steps in
    (
      more_steps base.accepted base,
      (
        rw answered refl,
        more_steps_verifies c base.accepted base key ∙ verified,
        id ∙ same_id,
        subst (λ b. (b ≡ true) ↔ All (Offers agent.capabilities) m.capabilities) (sym accepted)
            decides,
        subst
            (λ b.
              (more_steps base.accepted base).workflow_steps ≡ (if b then detailed_steps else []))
            (sym accepted) steps',
      ),
    )

module _ (w : Protowire) (laws : IsProtowire w) (c : Crypto)
    (add : Float32 → Float32 → Float32) where
  -- A peer's intent of fewer than five components ends the program of a code agent, if the agent
  -- does not refuse its signature: the handler of the stream that carries it panics. The message
  -- fits a frame, its fields are values of their Go types, and its trust score is no negative zero.
  pub short_intent_panics :
      (env : Readings) (now : ℤ) (peer_id : Bytes) (ah : AgentHost) (m : IntentMessage)
      → IsGoIntent w m
      → m.trust_score ≢ sign_bit
      → 1 + length (Intent.encode w m) ≤ max_length
      → refused (get peer_id ah.known) m.signature (λ key. verify_intent_signature c m key)
        ≡ ok false
      → length m.intent_vector < 5
      → handle_stream w c add env peer_id
          (write_msg w (intent m) [])
          (on_intent (some (code_callback c ah.agent now)) ah)
        ≡ panic
  unfolding handle_stream handle_incoming_intent or_return msg_type encode verify_intent_signature
      code_callback on_intent
  short_intent_panics env now peer_id ah m fits hz small fine short =
      let panics : (if ltb (length m.intent_vector) 5
            then panic
            else enriched (default_handler c ah.agent now (record m { logger = none })))
          ≡ panic =
        ground arith in
      rw
        (read_msg-write_msg w (intent m) small, decode-encode_intent w laws m fits hz, fine, panics)
        refl
