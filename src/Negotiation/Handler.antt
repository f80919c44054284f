-- ===== src/Negotiation/Handler.antt =====
-- core/negotiation.go: what the default handler answers.
use agent_semantic_protocol.Common.{
  ◌≡◌, ◌↔◌, refl, sym, ◌∙◌, ap, true, List, [], ◌∷◌, ◌++◌, Bytes, codes, is_empty, map,
  if◌then◌else◌, arith, All, append-nil, append_assoc,
}
use agent_semantic_protocol.Common.Int64.{ℤ}
use agent_semantic_protocol.Common.Outcome.{Result, ok, err, panic, stuck}
use agent_semantic_protocol.Wire.Float32.{Float32, IsFloat32, negate}
use agent_semantic_protocol.Messages.Types.{IntentMessage, NegotiationResponse}
use agent_semantic_protocol.Did
use agent_semantic_protocol.Did.Packages.{Crypto}
use agent_semantic_protocol.Agent.{Agent}
use agent_semantic_protocol.Capability.{missing_capabilities}
use agent_semantic_protocol.Capability.Sets.{Offers, has_all_iff, capability_routines_agree}
use agent_semantic_protocol.Negotiation.{
  execute_steps, build_workflow, reflect_vector, with_signature, default_handler,
}

-- Nothing is missing exactly when all that is required is offered.
pub none_missing_iff :
    (required available : List Bytes)
    → (is_empty (missing_capabilities required available) ≡ true) ↔ All (Offers available) required
none_missing_iff required available =
    let same = (capability_routines_agree required available).1 in
    let all = has_all_iff available required in (λ e. all.0 (same ∙ e), λ h. sym same ∙ all.1 h)

-- The steps of a workflow: parse, one execution for each capability in order, return.
abbrev pub executions : List Bytes → List Bytes
executions caps = map (λ cap. codes "execute:" ++ cap) caps

execute_steps-map : (caps steps : List Bytes) → execute_steps caps steps ≡ steps ++ executions caps
unfolding execute_steps
execute_steps-map [] steps = sym (append-nil steps)
execute_steps-map (cap ∷ caps) steps =
    execute_steps-map caps (steps ++ ((codes "execute:" ++ cap) ∷ []))
    ∙ append_assoc steps _ (executions caps)

build_workflow_lem :
    (intent : IntentMessage)
    → build_workflow intent
      ≡ (codes "parse_intent:" ++ intent.id)
        ∷ (executions intent.capabilities ++ ((codes "return_result:" ++ intent.id) ∷ []))
unfolding build_workflow
build_workflow_lem intent = rw execute_steps-map

with_signature_fields :
    (r : NegotiationResponse) (s : Result Bytes) (resp : NegotiationResponse)
    → with_signature r s ≡ ok resp
    → (resp.request_id ≡ r.request_id)
      × (resp.accepted ≡ r.accepted)
      × (resp.workflow_steps ≡ r.workflow_steps)
unfolding with_signature
with_signature_fields r (ok sig) resp e = ground arith
with_signature_fields r (err x) resp e = ground arith
with_signature_fields r panic resp e = absurd (cc)
with_signature_fields r stuck resp e = absurd (cc)

-- The default handler answers the intent that it was asked, accepts it exactly when its agent
-- offers every capability that is required, and plans a workflow, of one step for each capability
-- in order between a parsing and a returning one, only if it accepts.
pub default_handler_lem :
    (c : Crypto) (agent : Agent) (now : ℤ) (intent : IntentMessage) (resp : NegotiationResponse)
    → default_handler c agent now intent ≡ ok resp
    → (resp.request_id ≡ intent.id)
      × ((resp.accepted ≡ true) ↔ All (Offers agent.capabilities) intent.capabilities)
      × (resp.workflow_steps ≡ (
          if resp.accepted
          then (codes "parse_intent:" ++ intent.id)
            ∷ (executions intent.capabilities ++ ((codes "return_result:" ++ intent.id) ∷ []))
          else []))
unfolding default_handler
default_handler_lem c agent now intent resp e =
    let (ei, ea, es) = with_signature_fields _ (Did.sign c agent.did _) resp e in
    (
      ei,
      rw ea (none_missing_iff intent.capabilities agent.capabilities),
      rw (es, ea, build_workflow_lem),
    )

negate_twice : (v : Float32) → IsFloat32 v → negate (negate v) ≡ v
negate_twice v h = ground arith

map-negate_twice : (v : List Float32) → All IsFloat32 v → map negate (map negate v) ≡ v
map-negate_twice [] h = refl
map-negate_twice (x ∷ xs) (hx, hxs) = rw (negate_twice x hx, map-negate_twice xs hxs)

-- Reflecting a vector twice gives it back, bit by bit.
pub reflect_vector_twice :
    (v : List Float32) → All IsFloat32 v → reflect_vector (reflect_vector v) ≡ v
unfolding reflect_vector
reflect_vector_twice [] h = refl
reflect_vector_twice (x ∷ xs) (hx, hxs) =
    rw (negate_twice x hx) (ap (λ (t : List Float32). x ∷ t) (map-negate_twice xs hxs))
