-- ===== src/Tests/Workflows.antt =====
-- p2p/protocol.go: a workflow over concrete hosts.
use agent_semantic_protocol.Common.{
  ℕ, zero, suc, ◌<◌, ◌≡◌, inl, inr, refl, Option, some, List, [], ◌∷◌, codes, bytes_eq, arith,
}
use agent_semantic_protocol.Common.Int64.{pos}
use agent_semantic_protocol.Common.Outcome.{Error, ok}
use agent_semantic_protocol.Wire.Maps.{get, put}
use agent_semantic_protocol.Did
use agent_semantic_protocol.Did.{did_from_key, to_string}
use agent_semantic_protocol.Did.Hex.{hex_encode}
use agent_semantic_protocol.Capability.{has, has_all, has_all_loop, have_loop}
use agent_semantic_protocol.Trust.{apply}
use agent_semantic_protocol.Discovery.{
  announce, new_discovery_registry, expiry, is_expired, find_by_capability, find_by_capability_loop,
}
use agent_semantic_protocol.Negotiation.{create_intent, random_id}
use agent_semantic_protocol.Ranking.{cosine_similarity, rank_candidates}
use agent_semantic_protocol.Host.{AgentHost, new_host, remember, profile_of, handle_stream}
use agent_semantic_protocol.Host.Exchange.{as_peer}
use agent_semantic_protocol.Orchestrator.{
  WorkflowOrchestrator, WorkflowStep, StepResult, StepReadings, Ending, step_result,
  resolve_peer_id, execute_step, prepare, ask, run_workflow,
}
use agent_semantic_protocol.Orchestrator.Step.{IsServed, execute_step_lem}
use agent_semantic_protocol.Orchestrator.Goroutines.{Ends}
use agent_semantic_protocol.Orchestrator.Turns.{first_failure}
use agent_semantic_protocol.Orchestrator.Report.{Report}
use agent_semantic_protocol.Orchestrator.Embeddings.{reachable_similarity}
use agent_semantic_protocol.Orchestrator.Progress.{IsResult}
use agent_semantic_protocol.Orchestrator.Run.{run_workflow_lem}
use agent_semantic_protocol.Tests.Protobuf.{protobuf, protobuf-IsProtowire}
use agent_semantic_protocol.Tests.ToyCrypto.{toy, digest}
use agent_semantic_protocol.Tests.Hosts.{left, agent, bob, ours, env', bob_reached}
use agent_semantic_protocol.Tests.Streaming.{agent-CanSign}
use agent_semantic_protocol.Tests.Sorting.{insertion, insertion-IsSort}
use agent_semantic_protocol.Tests.Rankings.{negatives, IsAny, negatives-IsOrder}
use agent_semantic_protocol.Tests.Intents.{worker, requester, reply, answer_returned}

abbrev pub step : WorkflowStep
step = record {
  id = codes "s";
  capability = codes "nlp";
  intent_vector = 0x3f800000 ∷ [];
  payload = codes "p";
}

abbrev pub readings : StepReadings
readings = record {
  clock = λ i. 10;
  visit_entries = λ m. m;
  visit_known = λ m. m;
  nonce = some (171 ∷ []);
  stamp = pos 1;
  network = λ timeout peer_id.
      as_peer (λ sent. handle_stream protobuf toy left env' (codes "A") sent worker);
  time = 12;
}

abbrev pub orchestrator : WorkflowOrchestrator
orchestrator = record { host = requester; timeout = pos 5000000000 }

abbrev pub after : AgentHost
after = record requester {
  trust = apply left (to_string requester.agent.did) reply.did reply.trust_delta requester.trust;
}

step_runs :
    execute_step protobuf toy left negatives insertion some readings (codes "w") step orchestrator
    ≡ ok (after, step_result step reply 12)
unfolding execute_step prepare ask find_by_capability find_by_capability_loop is_expired has_all
    has_all_loop have_loop get put bytes_eq rank_candidates resolve_peer_id create_intent random_id
    hex_encode Did.sign did_from_key new_host has digest apply
step_runs = rw answer_returned refl

execute_step_example :
    IsServed protobuf toy left negatives insertion some readings
      (codes "w")
      step
      orchestrator
      10
      after
      (step_result step reply 12)
unfolding find_by_capability find_by_capability_loop is_expired has_all has_all_loop have_loop get
    put bytes_eq new_host has
execute_step_example =
    execute_step_lem protobuf toy left negatives insertion some insertion-IsSort IsAny
      negatives-IsOrder readings (codes "w") step orchestrator 10 after (step_result step reply 12)
      (tt, tt) (λ i. omega arith) (λ e h. h) (λ pid agent_id h. h) step_runs

-- A second step, for a capability that no peer has.
abbrev steps : List WorkflowStep
steps = step ∷ record step { id = codes "t"; capability = codes "math" } ∷ []

abbrev ending : ℕ → Ending
ending i = record { index = i; readings = readings; meanwhile = λ ah. ah; time = 13 }

-- The second goroutine ends first.
run_workflow_example :
    (o : WorkflowOrchestrator) × (results : List StepResult) × (first_err : Option Error)
    × ((run_workflow protobuf toy left negatives insertion some
            (λ e. codes "error")
            (codes "w")
            steps
            (ending 1 ∷ ending 0 ∷ [])
            orchestrator
          ≡ ok (o, results, first_err))
        × (o.host.agent ≡ requester.agent)
        × (first_err
            ≡ first_failure protobuf toy left negatives insertion some
                (codes "w")
                steps
                (ending 1 ∷ ending 0 ∷ [])
                orchestrator)
        × Report
            (IsResult protobuf toy left negatives insertion some
              (codes "w")
              steps
              (λ e. codes "error")
              first_err
              (ending 1 ∷ ending 0 ∷ [])
              orchestrator)
            0
            steps
            results)
unfolding new_host
run_workflow_example =
    run_workflow_lem protobuf toy left negatives insertion some (codes "w") steps
      (λ e. codes "error") protobuf-IsProtowire insertion-IsSort (ending 1 ∷ ending 0 ∷ [])
      orchestrator (agent-CanSign 1 (codes "a")) ((λ ah. refl), ((λ ah. refl), tt)) all_end
  where
    all_end : (i : ℕ) → i < 2 → Ends i (ending 1 ∷ ending 0 ∷ [])
    all_end zero h = inr (inl refl)
    all_end (suc zero) h = inl refl
    all_end (suc (suc i)) h = absurd (omega arith)

similarity_zero_example :
    cosine_similarity negatives (1 ∷ []) (profile_of ours).embedding_vector ≡ negatives.nought
unfolding find_by_capability find_by_capability_loop is_expired has_all has_all_loop have_loop get
    put bytes_eq new_host has remember announce new_discovery_registry expiry
similarity_zero_example =
    reachable_similarity protobuf toy left negatives (agent 2 (codes "b"))
      (remember 11 (codes "A") ours bob) (λ i. 20) [] (profile_of ours) (1 ∷ []) bob_reached
      (inl refl)
