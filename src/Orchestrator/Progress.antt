-- ===== src/Orchestrator/Progress.antt =====
-- p2p/protocol.go: what a run of `RunWorkflow` comes to, turn by turn.
use agent_semantic_protocol.Common.{
  ℕ, ◌<◌, ◌≡◌, ◌≢◌, inl, inr, refl, sym, ◌∙◌, ap, Option, none, some, List, [], ◌∷◌, Bytes, length,
  get_elem?, All, arith,
}
use mathlib.Core.Path.{subst}
use agent_semantic_protocol.Common.Outcome.{Error, Result, ok, err, panic, stuck}
use agent_semantic_protocol.Wire.Float32.{Float32}
use agent_semantic_protocol.Wire.Protowire.{Protowire, IsProtowire}
use agent_semantic_protocol.Did.Packages.{Crypto}
use agent_semantic_protocol.Ranking.{Double, Ranked, Sort}
use agent_semantic_protocol.Ranking.Order.{IsSort}
use agent_semantic_protocol.Host.{AgentHost}
use agent_semantic_protocol.Host.Total.{CanSign}
use agent_semantic_protocol.Orchestrator.{
  WorkflowOrchestrator, WorkflowStep, StepResult, Ending, Shared, end_goroutines, end_goroutine,
}
use agent_semantic_protocol.Orchestrator.Turns.{
  met, or_later, after, failure_at, first_failure, AtTurn, AtTurn-map, IsOutcome,
}
use agent_semantic_protocol.Orchestrator.Goroutines.{
  or_else, Ends, Ends-cases, IsQuiet, HasResult, OutcomeOf, end_goroutine-Turned,
}

module _ {W : Type 0} (w : Protowire) (c : Crypto) (add : Float32 → Float32 → Float32)
    (d : Double W) (sort : Sort (Ranked W)) (peer_decode : Bytes → Option Bytes)
    (workflow_id : Bytes) (steps : List WorkflowStep) where
  -- An error of a later turn is not lost.
  later-kept :
      (f : Ending) (o : WorkflowOrchestrator) (at : Option WorkflowStep) (later : Option Error)
      → later ≢ none
      → failure_at w c add d sort peer_decode workflow_id steps f o at later ≢ none
  unfolding failure_at or_later
  later-kept f o none later h = h
  later-kept f o (some step) later h = kept _
    where
      kept : (outcome : Result (AgentHost × StepResult)) → or_later step outcome later ≢ none
      kept (ok x) = h
      kept (err e) = λ x. cc
      kept panic = h
      kept stuck = h

  module _ (error_text : Error → Bytes) where
    abbrev pub IsTurnOf :
        Option Error → ℕ → WorkflowStep → StepResult → Ending → WorkflowOrchestrator → Type 0
    IsTurnOf first_err i step r f o =
        (f.index ≡ i)
        × IsOutcome w c add d sort peer_decode workflow_id steps error_text first_err step r f o

    -- The result is the outcome of the step's goroutine, at its turn.
    abbrev pub IsResult :
        Option Error → List Ending → WorkflowOrchestrator → ℕ → WorkflowStep → StepResult → Type 0
    IsResult first_err endings o i step r =
        AtTurn w c add d sort peer_decode workflow_id steps (IsTurnOf first_err i step r) endings o

    abbrev pub failure : List Ending → WorkflowOrchestrator → Option Error
    failure fs o = first_failure w c add d sort peer_decode workflow_id steps fs o

    -- What a run comes to once these goroutines have had their turns.
    pub record Progress (fs : List Ending) (before : Shared) (outcome : Result Shared)
        : Type 0 where
      pub run : Shared
      pub ends : outcome ≡ ok run
      pub agent_kept : run.orchestrator.host.agent ≡ before.orchestrator.host.agent
      pub sized : length run.results ≡ length before.results
      pub stays : (i : ℕ) → (¬ Ends i fs) → get_elem? run.results i ≡ get_elem? before.results i
      pub adds :
          (i : ℕ)
          → i < length steps
          → Ends i fs
          → HasResult w c add d sort peer_decode workflow_id steps error_text i run
              (IsResult (failure fs before.orchestrator) fs before.orchestrator i)
      pub raises : run.first_err ≡ or_else before.first_err (failure fs before.orchestrator)

    ended :
        (f : Ending) (fs : List Ending) (before run' run : Shared)
        → end_goroutine w c add d sort peer_decode error_text workflow_id steps f before ≡ ok run'
        → end_goroutines w c add d sort peer_decode error_text workflow_id steps fs run' ≡ ok run
        → end_goroutines w c add d sort peer_decode error_text workflow_id steps (f ∷ fs) before
          ≡ ok run
    unfolding end_goroutines
    ended f fs before run' run h h' = rw h h'

    weaken :
        (f : Ending) (fs : List Ending) (o : WorkflowOrchestrator) (i : ℕ) (step : WorkflowStep)
        (r : StepResult)
        → IsResult
            (failure fs (after w c add d sort peer_decode workflow_id steps f o))
            fs
            (after w c add d sort peer_decode workflow_id steps f o)
            i
            step
            r
        → IsResult
            (failure (f ∷ fs) o)
            fs
            (after w c add d sort peer_decode workflow_id steps f o)
            i
            step
            r
    unfolding first_failure
    weaken f fs o i step r of =
        AtTurn-map w c add d sort peer_decode workflow_id steps
          (IsTurnOf (failure fs (after w c add d sort peer_decode workflow_id steps f o)) i step r)
          (IsTurnOf (failure (f ∷ fs) o) i step r) fs
          (after w c add d sort peer_decode workflow_id steps f o)
          (λ g o' (same, outcome). (
            same,
            elim outcome [
              | inl answered ↦ inl answered
              | inr (e, (failed, shown, kept)) ↦ inr (e, (failed, shown, later-kept f _ _ _ kept))
            ],
          ))
          of

    first :
        (f : Ending) (fs : List Ending) (before run' run : Shared) (i : ℕ)
        → f.index ≡ i
        → i < length steps
        → get_elem? run.results i ≡ get_elem? run'.results i
        → (f.index < length steps
            → HasResult w c add d sort peer_decode workflow_id steps error_text f.index run' (
                OutcomeOf w c add d sort peer_decode workflow_id steps error_text
                  (failure (f ∷ fs) before.orchestrator)
                  f
                  (met f before.orchestrator)))
        → HasResult w c add d sort peer_decode workflow_id steps error_text i run
            (IsResult (failure (f ∷ fs) before.orchestrator) (f ∷ fs) before.orchestrator i)
    first f fs before run' run i here below same own =
        let (step, r, (at_step, at_result, named, of)) = own (omega (arith, here)) in
        (
          step,
          r,
          (
            subst (λ j. get_elem? steps j ≡ some step) here at_step,
            same ∙ subst (λ j. get_elem? run'.results j ≡ some r) here at_result,
            named,
            inl (here, of),
          ),
        )

    module _ (laws : IsProtowire w) (sorts : IsSort sort) where
      pub end_goroutines-Progress :
          (fs : List Ending) (before : Shared)
          → All IsQuiet fs
          → CanSign before.orchestrator.host.agent.did
          → length before.results ≡ length steps
          → Progress fs before
              (end_goroutines w c add d sort peer_decode error_text workflow_id steps fs before)
      unfolding end_goroutines end_goroutine first_failure
      end_goroutines-Progress [] before quiet safe sized = record {
        run = before;
        ends = refl;
        agent_kept = refl;
        sized = refl;
        stays = λ i never. refl;
        adds = λ i below at. absurd at;
        raises = or_else-none before.first_err;
      }
        where
          or_else-none : (o : Option Error) → o ≡ or_else o none
          or_else-none none = refl
          or_else-none (some e) = refl
      end_goroutines-Progress (f ∷ fs) before (quiet, quiets) safe sized =
          let o = before.orchestrator in
          let o' = after w c add d sort peer_decode workflow_id steps f o in
          let p =
            end_goroutine-Turned w c add d sort peer_decode workflow_id steps error_text laws sorts
              f before (get_elem? steps f.index) quiet safe sized refl in
          let q =
            end_goroutines-Progress fs p.run' quiets
              (subst (λ a. CanSign a.did) (sym p.agent_kept) safe) (p.sized ∙ sized) in
          let later : failure fs p.run'.orchestrator ≡ failure fs o' = ap (failure fs) p.hosts in
          record {
            run = q.run;
            ends = ended f fs before p.run' q.run p.ends q.ends;
            agent_kept = q.agent_kept ∙ p.agent_kept;
            sized = q.sized ∙ p.sized;
            stays =
                λ i never. q.stays i (λ e. never (inr e)) ∙ p.others i (λ same. never (inl same));
            adds = λ i below at. elim (Ends-cases i fs) [
              | inl again ↦
                  let (step, r, (at_step, at_result, named, of)) = q.adds i below again in
                  (
                    step,
                    r,
                    (
                      at_step,
                      at_result,
                      named,
                      inr (
                          weaken f fs o i step r
                            (subst (λ x. IsResult (failure fs x) fs x i step r) p.hosts of)),
                    ),
                  )
              | inr never ↦ elim at [
                | inl here ↦
                    first f fs before p.run' q.run i here below (q.stays i never)
                      (p.own (failure fs o'))
                | inr again ↦ absurd (never again)
              ]
            ];
            raises = q.raises ∙ ap (or_else p.run'.first_err) later ∙ p.raises (failure fs o');
          }
