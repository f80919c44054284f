-- ===== src/Orchestrator/Total.antt =====
-- p2p/protocol.go: a step ends with a result or an error.
use agent_semantic_protocol.Common.{
  ◌≡◌, ◌∙◌, refl, sym, ap, Bool, true, false, Option, none, some, List, [], ◌∷◌, ◌++◌, Bytes,
  is_empty, bytes_eq, if◌then◌else◌, ◌==◌,
}
use mathlib.Core.List.{Permᴰ}
use mathlib.Core.List.Permᴰ
use agent_semantic_protocol.Common.Int64.{ℤ}
use agent_semantic_protocol.Common.Outcome.{
  Error, ok, err, want, wrapping, Finishes, Finishes-ok, Finishes-err, Finishes-if, Finishes-bind,
  bind-eq_ok, Finishes-want,
}
use agent_semantic_protocol.Wire.Float32.{Float32}
use agent_semantic_protocol.Wire.Maps.{Assoc, get}
use agent_semantic_protocol.Wire.Protowire.{Protowire, IsProtowire}
use agent_semantic_protocol.Messages.Types.{IntentMessage, NegotiationResponse, msg_negotiation}
use agent_semantic_protocol.Messages.Message.{intent}
use agent_semantic_protocol.Messages.Negotiation
use agent_semantic_protocol.Messages.Total.{decoders-Finishes}
use agent_semantic_protocol.Did.Packages.{Crypto}
use agent_semantic_protocol.Agent.{Agent}
use agent_semantic_protocol.Discovery.{AgentProfile, find_by_capability}
use agent_semantic_protocol.Negotiation.{create_intent, random_id, verify_response_signature}
use agent_semantic_protocol.Negotiation.Signatures.{verify_signature_lem}
use agent_semantic_protocol.Ranking.{Double, Ranked, Sort, rank_candidates}
use agent_semantic_protocol.Ranking.Order.{IsSort, All-perm, rank_candidates_permutes}
use agent_semantic_protocol.Stream.{read_msg, write_msg}
use agent_semantic_protocol.Stream.Total.{read_msg-Finishes}
use agent_semantic_protocol.Host.{AgentHost, Peer, send_intent}
use agent_semantic_protocol.Host.Reachable.{send_intent-apply}
use agent_semantic_protocol.Host.Total.{CanSign, Finishes-wrapping, sign-Finishes, refused-Finishes}
use agent_semantic_protocol.Host.Requests.{ok_injective}
use agent_semantic_protocol.Orchestrator.{
  WorkflowOrchestrator, WorkflowStep, StepResult, StepReadings, first, resolve_peer_id, step_result,
  execute_step, prepare, ask,
}

module _ (w : Protowire) (laws : IsProtowire w) (c : Crypto)
    (add : Float32 → Float32 → Float32) where
  verify_response_signature-Finishes :
      (m : NegotiationResponse) (key : Bytes) → Finishes (verify_response_signature c m key)
  unfolding verify_response_signature
  verify_response_signature-Finishes m key =
      rw (verify_signature_lem c m.signature (m.request_id ++ m.reason) key) (
        Finishes-if (is_empty m.signature) _ _ (Finishes-ok _)
          (Finishes-if _ _ _ (Finishes-ok _) (Finishes-ok _)))

  send_intent-Finishes :
      (peer_id : Bytes) (peer : Peer) (m : IntentMessage) (ah : AgentHost)
      → Finishes (send_intent w c add peer_id peer m ah)
  unfolding send_intent
  send_intent-Finishes peer_id peer m ah = Finishes-want _ peer _ (λ stream _.
      Finishes-want _ (stream (write_msg w (intent m) [])) _ (λ reply _.
        Finishes-bind (wrapping _ (read_msg reply)) _
          (Finishes-wrapping _ _ (read_msg-Finishes reply))
          (λ (t, b, rest) _.
            Finishes-bind _ _
              (Finishes-if (t == msg_negotiation) _ _ (Finishes-ok _) (Finishes-err _))
              (λ _ _.
                Finishes-bind (wrapping _ (Negotiation.decode w b)) _
                  (Finishes-wrapping _ _ (decoders-Finishes w laws b).2)
                  (λ resp _.
                    Finishes-bind _ _
                      (refused-Finishes c (get peer_id ah.known) resp.signature _
                        (verify_response_signature-Finishes resp))
                      (λ refuse _.
                        Finishes-bind _ _ (Finishes-if refuse _ _ (Finishes-err _) (Finishes-ok _))
                          (λ _ _. Finishes-ok _)))))))

  create_intent-Finishes :
      (a : Agent) (v : List Float32) (required : List Bytes) (payload : Bytes)
      (nonce : Option Bytes) (now : ℤ)
      → CanSign a.did
      → Finishes (create_intent c a v required payload nonce now)
  unfolding create_intent random_id
  create_intent-Finishes a v required payload nonce now safe =
      Finishes-bind _ _ (Finishes-want _ nonce _ (λ b _. Finishes-ok _)) (λ id _.
        Finishes-bind _ _ (Finishes-wrapping _ _ (sign-Finishes c a.did (id ++ payload) safe))
          (λ sig _. Finishes-ok _))

want-Finishes : (e : Error) (o : Option Bytes) → Finishes (want e o)
want-Finishes e none = Finishes-err e
want-Finishes e (some b) = Finishes-ok b

resolve_peer_id-Finishes :
    (peer_decode : Bytes → Option Bytes) (agent_id : Bytes) (known : Assoc AgentProfile)
    → Finishes (resolve_peer_id peer_decode agent_id known)
unfolding resolve_peer_id
resolve_peer_id-Finishes peer_decode agent_id [] = Finishes-err _
resolve_peer_id-Finishes peer_decode agent_id ((pid, profile) ∷ known) =
    Finishes-if (bytes_eq profile.agent_id agent_id) _ _ (want-Finishes _ (peer_decode pid))
      (resolve_peer_id-Finishes peer_decode agent_id known)

-- A permutation of a list that is not empty has a first item.
first-Finishes :
    (xs candidates : List AgentProfile)
    → Permᴰ xs candidates
    → is_empty candidates ≡ false
    → Finishes (first xs)
first-Finishes (x ∷ xs) candidates p h = Finishes-ok x
first-Finishes [] [] p h = cc
first-Finishes [] (y ∷ ys) p h = absurd ((All-perm (λ _. ⊥) (y ∷ ys) [] (Permᴰ.symm p) tt).0)

if-ok : (b : Bool) (e : Error) (u : Unit {0}) → (if b then err e else ok tt) ≡ ok u → b ≡ false
if-ok true e u h = cc
if-ok false e u h = refl

module _ {W : Type 0} (w : Protowire) (c : Crypto) (add : Float32 → Float32 → Float32)
    (d : Double W) (sort : Sort (Ranked W)) (peer_decode : Bytes → Option Bytes) where
  pub prepare-Finishes :
      (laws : IsProtowire w) (sorts : IsSort sort) (env : StepReadings) (workflow_id : Bytes)
      (step : WorkflowStep) (o : WorkflowOrchestrator)
      → CanSign o.host.agent.did
      → Finishes (prepare w c add d sort peer_decode env workflow_id step o)
  unfolding prepare
  prepare-Finishes laws sorts env workflow_id step o safe =
      let candidates =
        find_by_capability env.clock (step.capability ∷ []) (env.visit_entries o.host.discovery) in
      Finishes-bind (if is_empty candidates then err _ else ok tt) _
        (Finishes-if (is_empty candidates) _ _ (Finishes-err _) (Finishes-ok _))
        (λ u some_left.
          Finishes-bind (first (rank_candidates d sort step.intent_vector candidates)) _
            (first-Finishes _ candidates
              (rank_candidates_permutes d sort sorts step.intent_vector candidates)
              (if-ok (is_empty candidates) _ u some_left))
            (λ best _.
              Finishes-bind _ _
                (resolve_peer_id-Finishes peer_decode best.agent_id (env.visit_known o.host.known))
                (λ peer_id _.
                  Finishes-bind _ _
                    (create_intent-Finishes w laws c add o.host.agent step.intent_vector
                      (step.capability ∷ []) step.payload env.nonce env.stamp safe)
                    (λ intent _. Finishes-ok _))))

  pub ask-Finishes :
      (laws : IsProtowire w) (env : StepReadings) (step : WorkflowStep) (peer_id : Bytes)
      (m : IntentMessage) (o : WorkflowOrchestrator)
      → Finishes (ask w c add d sort peer_decode env step peer_id m o)
  unfolding ask
  ask-Finishes laws env step peer_id m o =
      Finishes-bind _ _
        (send_intent-Finishes w laws c add peer_id (env.network o.timeout peer_id) m o.host)
        (λ _ _. Finishes-ok _)

  pub execute_step-Finishes :
      (laws : IsProtowire w) (sorts : IsSort sort) (env : StepReadings) (workflow_id : Bytes)
      (step : WorkflowStep) (o : WorkflowOrchestrator)
      → CanSign o.host.agent.did
      → Finishes (execute_step w c add d sort peer_decode env workflow_id step o)
  unfolding execute_step
  execute_step-Finishes laws sorts env workflow_id step o safe =
      Finishes-bind _ _ (prepare-Finishes laws sorts env workflow_id step o safe)
        (λ (peer_id, m) _. ask-Finishes laws env step peer_id m o)

  -- The answer to an intent changes nothing of the agent, and the result names the step.
  pub ask-keeps :
      (env : StepReadings) (step : WorkflowStep) (peer_id : Bytes) (m : IntentMessage)
      (o : WorkflowOrchestrator) (ah' : AgentHost) (r : StepResult)
      → ask w c add d sort peer_decode env step peer_id m o ≡ ok (ah', r)
      → (ah'.agent ≡ o.host.agent) × (r.step_id ≡ step.id)
  unfolding ask
  ask-keeps env step peer_id m o ah' r h =
      let ((ah, resp), answered, h1) =
        bind-eq_ok (send_intent w c add peer_id (env.network o.timeout peer_id) m o.host) _ (ah', r)
          h in
      let result = ok_injective (ah, step_result step resp env.time) (ah', r) h1 in
      let (_, same) =
        send_intent-apply w c add peer_id (env.network o.timeout peer_id) m o.host ah resp
          answered in
      (
        sym (ap (λ (x : AgentHost × StepResult). x.0.agent) result) ∙ sym (ap (λ x. x.agent) same),
        sym (ap (λ (x : AgentHost × StepResult). x.1.step_id) result),
      )

  -- A step changes nothing of the agent, and its result names the step.
  pub execute_step-keeps :
      (env : StepReadings) (workflow_id : Bytes) (step : WorkflowStep) (o : WorkflowOrchestrator)
      (ah' : AgentHost) (r : StepResult)
      → execute_step w c add d sort peer_decode env workflow_id step o ≡ ok (ah', r)
      → (ah'.agent ≡ o.host.agent) × (r.step_id ≡ step.id)
  unfolding execute_step
  execute_step-keeps env workflow_id step o ah' r h =
      let ((peer_id, m), _, asked) =
        bind-eq_ok (prepare w c add d sort peer_decode env workflow_id step o) _ (ah', r) h in
      ask-keeps env step peer_id m o ah' r asked
