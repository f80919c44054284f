-- ===== src/Orchestrator/Parts.antt =====
-- p2p/protocol.go: the calls that a step without an error went through.
use agent_semantic_protocol.Common.{
  ◌≡◌, sym, ap, Option, List, [], ◌∷◌, Bytes, is_empty, if◌then◌else◌,
}
use mathlib.Core.Path.{subst}
use agent_semantic_protocol.Common.Outcome.{ok, err, bind-eq_ok}
use agent_semantic_protocol.Wire.Float32.{Float32}
use agent_semantic_protocol.Wire.Protowire.{Protowire}
use agent_semantic_protocol.Messages.Types.{IntentMessage, NegotiationResponse}
use agent_semantic_protocol.Did.Packages.{Crypto}
use agent_semantic_protocol.Discovery.{AgentProfile, find_by_capability}
use agent_semantic_protocol.Negotiation.{create_intent}
use agent_semantic_protocol.Ranking.{Double, Ranked, Sort, rank_candidates}
use agent_semantic_protocol.Host.{AgentHost, send_intent}
use agent_semantic_protocol.Host.Requests.{ok_injective}
use agent_semantic_protocol.Orchestrator.{
  WorkflowOrchestrator, WorkflowStep, StepResult, StepReadings, first, resolve_peer_id, tagged,
  step_result, execute_step, prepare, ask,
}

-- What `FindByCapability` returns to the step.
abbrev pub candidates_of : StepReadings → WorkflowStep → WorkflowOrchestrator → List AgentProfile
candidates_of env step o =
    find_by_capability env.clock (step.capability ∷ []) (env.visit_entries o.host.discovery)

module _ {W : Type 0} (w : Protowire) (c : Crypto) (add : Float32 → Float32 → Float32)
    (d : Double W) (sort : Sort (Ranked W)) (peer_decode : Bytes → Option Bytes) where
  pub record Parts (env : StepReadings) (workflow_id : Bytes) (step : WorkflowStep)
      (o : WorkflowOrchestrator) (ah' : AgentHost) (r : StepResult) : Type 0 where
    pub best : AgentProfile
    pub headed :
        first (rank_candidates d sort step.intent_vector (candidates_of env step o)) ≡ ok best
    pub peer_id : Bytes
    pub resolved :
        resolve_peer_id peer_decode best.agent_id (env.visit_known o.host.known) ≡ ok peer_id
    pub intent : IntentMessage
    pub created :
        create_intent c o.host.agent step.intent_vector
          (step.capability ∷ [])
          step.payload
          env.nonce
          env.stamp
        ≡ ok intent
    pub resp : NegotiationResponse
    pub answered :
        send_intent w c add peer_id
          (env.network o.timeout peer_id)
          (tagged workflow_id step intent)
          o.host
        ≡ ok (ah', resp)
    pub result : r ≡ step_result step resp env.time

  pub execute_step-Parts :
      (env : StepReadings) (workflow_id : Bytes) (step : WorkflowStep) (o : WorkflowOrchestrator)
      (ah' : AgentHost) (r : StepResult)
      → execute_step w c add d sort peer_decode env workflow_id step o ≡ ok (ah', r)
      → Parts env workflow_id step o ah' r
  unfolding execute_step prepare ask
  execute_step-Parts env workflow_id step o ah' r h =
      let (out, prepared, asked) =
        bind-eq_ok (prepare w c add d sort peer_decode env workflow_id step o) _ (ah', r) h in
      let (_, _, h1) =
        bind-eq_ok (if is_empty (candidates_of env step o) then err _ else ok tt) _ out prepared in
      let (best, headed, h2) =
        bind-eq_ok (first (rank_candidates d sort step.intent_vector (candidates_of env step o))) _
          out h1 in
      let (peer_id, resolved, h3) =
        bind-eq_ok (resolve_peer_id peer_decode best.agent_id (env.visit_known o.host.known)) _ out
          h2 in
      let (intent, created, h4) =
        bind-eq_ok
          (create_intent c o.host.agent step.intent_vector (step.capability ∷ []) step.payload
            env.nonce env.stamp)
          _ out h3 in
      let asked' : ask w c add d sort peer_decode env step peer_id (tagged workflow_id step intent)
            o
          ≡ ok (ah', r) =
        subst
          (λ (x : Bytes × IntentMessage).
            ask w c add d sort peer_decode env step x.0 x.1 o ≡ ok (ah', r))
          (sym (ok_injective (peer_id, tagged workflow_id step intent) out h4)) asked in
      let ((ah, resp), answered, h5) =
        bind-eq_ok
          (send_intent w c add peer_id (env.network o.timeout peer_id)
            (tagged workflow_id step intent) o.host)
          _ (ah', r) asked' in
      let result = ok_injective (ah, step_result step resp env.time) (ah', r) h5 in
      record {
        best = best;
        headed = headed;
        peer_id = peer_id;
        resolved = resolved;
        intent = intent;
        created = created;
        resp = resp;
        answered =
            subst
              (λ x.
                send_intent w c add peer_id (env.network o.timeout peer_id)
                  (tagged workflow_id step intent) o.host
                ≡ ok (x, resp))
              (ap (λ (x : AgentHost × StepResult). x.0) result) answered;
        result = sym (ap (λ (x : AgentHost × StepResult). x.1) result);
      }
