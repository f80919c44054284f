-- ===== src/Orchestrator/Run.antt =====
-- p2p/protocol.go: what `RunWorkflow` returns.
use agent_semantic_protocol.Common.{
  ℕ, ◌+◌, ◌<◌, ◌≡◌, refl, sym, ◌∙◌, Option, none, List, Bytes, length, length-map, map, All, arith,
}
use mathlib.Core.Path.{subst}
use agent_semantic_protocol.Common.Outcome.{Error, ok}
use agent_semantic_protocol.Wire.Float32.{Float32}
use agent_semantic_protocol.Wire.Protowire.{Protowire, IsProtowire}
use agent_semantic_protocol.Did.Packages.{Crypto}
use agent_semantic_protocol.Ranking.{Double, Ranked, Sort}
use agent_semantic_protocol.Ranking.Order.{IsSort}
use agent_semantic_protocol.Host.Total.{CanSign}
use agent_semantic_protocol.Orchestrator.{
  WorkflowOrchestrator, WorkflowStep, StepResult, Ending, Shared, zero_result, run_workflow,
}
use agent_semantic_protocol.Orchestrator.Report.{Report, Report-all}
use agent_semantic_protocol.Orchestrator.Turns.{first_failure}
use agent_semantic_protocol.Orchestrator.Goroutines.{Ends, IsQuiet, HasResult}
use agent_semantic_protocol.Orchestrator.Progress.{IsResult, end_goroutines-Progress}

module _ {W : Type 0} (w : Protowire) (c : Crypto) (add : Float32 → Float32 → Float32)
    (d : Double W) (sort : Sort (Ranked W)) (peer_decode : Bytes → Option Bytes)
    (workflow_id : Bytes) (steps : List WorkflowStep) (error_text : Error → Bytes)
    (laws : IsProtowire w) (sorts : IsSort sort) where
  -- A workflow whose goroutines have their turns in any order returns, without a panic, one result
  -- for each of its steps and at the step's place. Each result names its step. It is what the
  -- step's turn came to, on the host as the turns before and the host's other streams left it:
  -- the answer, or, where the step failed, a result that carries the error's text, and then an
  -- error is returned too. The error that is returned is that of the first turn that failed, and
  -- none if none did. Each step's goroutine has a turn, the host's own private key, where it has
  -- one, is of the right length, and the host's other streams leave its agent as it is.
  pub run_workflow_lem :
      (endings : List Ending) (o : WorkflowOrchestrator)
      → CanSign o.host.agent.did
      → All IsQuiet endings
      → ((i : ℕ) → i < length steps → Ends i endings)
      → (o' : WorkflowOrchestrator) × (results : List StepResult) × (first_err : Option Error)
        × ((run_workflow w c add d sort peer_decode error_text workflow_id steps endings o
              ≡ ok (o', results, first_err))
            × (o'.host.agent ≡ o.host.agent)
            × (first_err ≡ first_failure w c add d sort peer_decode workflow_id steps endings o)
            × Report
                (IsResult w c add d sort peer_decode workflow_id steps error_text first_err endings
                  o)
                0
                steps
                results)
  unfolding run_workflow
  run_workflow_lem endings o safe quiet all_end =
      let start : Shared = record {
        orchestrator = o;
        results = map (λ step. zero_result) steps;
        first_err = none;
      } in
      let p =
        end_goroutines-Progress w c add d sort peer_decode workflow_id steps error_text laws sorts
          endings start quiet safe (length-map (λ step. zero_result) steps) in
      (
        p.run.orchestrator,
        p.run.results,
        p.run.first_err,
        (
          rw p.ends refl,
          p.agent_kept,
          p.raises,
          Report-all
              (IsResult w c add d sort peer_decode workflow_id steps error_text p.run.first_err
                endings o)
              0 steps p.run.results (p.sized ∙ length-map (λ step. zero_result) steps)
              (λ i below.
                let place : i ≡ 0 + i = omega arith in
                subst
                  (λ k. HasResult w c add d sort peer_decode workflow_id steps error_text i p.run (
                    IsResult w c add d sort peer_decode workflow_id steps error_text p.run.first_err
                      endings o k))
                  place
                  (subst
                    (λ e.
                      HasResult w c add d sort peer_decode workflow_id steps error_text i p.run (
                        IsResult w c add d sort peer_decode workflow_id steps error_text e endings o
                          i))
                    (sym p.raises) (p.adds i below (all_end i below)))),
        ),
      )
