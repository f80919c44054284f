-- ===== src/Orchestrator/Goroutines.antt =====
-- p2p/protocol.go: what the goroutines of `RunWorkflow` leave, in whatever order they have their turns.
use agent_semantic_protocol.Common.{
  ℕ, ◌<◌, ◌≡◌, ◌≢◌, ◌⊎◌, inl, inr, refl, sym, ◌∙◌, Option, none, some, List, [], ◌∷◌, Bytes, length,
  get_elem?, set, length-set, get_elem?-set, get_elem?-set_other, get_elem?_below, get_elem?_there,
  ◌==◌, arith, Bool-cases,
}
use mathlib.Core.Path.{subst}
use agent_semantic_protocol.Common.Outcome.{
  Error, wrap_string, Result, ok, err, panic, stuck, Finishes,
}
use agent_semantic_protocol.Wire.Float32.{Float32}
use agent_semantic_protocol.Wire.Protowire.{Protowire, IsProtowire}
use agent_semantic_protocol.Did.Packages.{Crypto}
use agent_semantic_protocol.Ranking.{Double, Ranked, Sort}
use agent_semantic_protocol.Ranking.Order.{IsSort}
use agent_semantic_protocol.Host.{AgentHost}
use agent_semantic_protocol.Host.Total.{CanSign}
use agent_semantic_protocol.Orchestrator.{
  WorkflowOrchestrator, WorkflowStep, StepResult, Ending, Shared, failed, keep_first, interrupted,
  store, end_goroutine_of,
}
use agent_semantic_protocol.Orchestrator.Turns.{
  met, left_by, or_later, turn, after_turn, failure_at, IsOutcome,
}
use agent_semantic_protocol.Orchestrator.Total.{execute_step-Finishes, execute_step-keeps}

-- An error that is there, or else a later one.
abbrev pub or_else : Option Error → Option Error → Option Error
or_else none later = later
or_else (some e) later = some e

or_else-keep_first :
    (o later : Option Error) (e : Error) → or_else (keep_first o e) later ≡ or_else o (some e)
or_else-keep_first none later e = refl
or_else-keep_first (some x) later e = refl

-- The goroutine of that step is among those that end.
abbrev pub Ends : ℕ → List Ending → Type 0
Ends i [] = ⊥
Ends i (f ∷ fs) = (f.index ≡ i) ⊎ Ends i fs

pub Ends-cases : (i : ℕ) (fs : List Ending) → Ends i fs ⊎ (¬ Ends i fs)
Ends-cases i [] = inr (λ e. e)
Ends-cases i (f ∷ fs) = elim (Bool-cases (f.index == i)) [
  | inl same ↦ inl (inl (ground arith))
  | inr other ↦ elim (Ends-cases i fs) [
    | inl later ↦ inl (inr later)
    | inr never ↦ inr (λ e. elim e [ inl now ↦ ground arith | inr later ↦ never later ])
  ]
]

-- The host's other streams leave its agent as it is.
abbrev pub IsQuiet : Ending → Type 0
IsQuiet f = (ah : AgentHost) → (f.meanwhile ah).agent ≡ ah.agent

module _ {W : Type 0} (w : Protowire) (c : Crypto) (add : Float32 → Float32 → Float32)
    (d : Double W) (sort : Sort (Ranked W)) (peer_decode : Bytes → Option Bytes)
    (workflow_id : Bytes) (steps : List WorkflowStep) (error_text : Error → Bytes) where
  -- A result of the step with that number, and of what it is the outcome.
  abbrev pub HasResult : ℕ → Shared → (WorkflowStep → StepResult → Type 0) → Type 0
  HasResult i run Of =
      (step : WorkflowStep) × (r : StepResult) × ((get_elem? steps i ≡ some step)
        × (get_elem? run.results i ≡ some r)
        × (r.step_id ≡ step.id)
        × Of step r)

  abbrev pub OutcomeOf :
      Option Error → Ending → WorkflowOrchestrator → WorkflowStep → StepResult → Type 0
  OutcomeOf first_err f o step r =
      IsOutcome w c add d sort peer_decode workflow_id steps error_text first_err step r f o

  -- One turn: what it leaves, and the error that it adds to those of later turns.
  pub record Turned (f : Ending) (run : Shared) (left : WorkflowOrchestrator)
      (failure : Option Error → Option Error) (outcome : Result Shared) : Type 0 where
    pub run' : Shared
    pub ends : outcome ≡ ok run'
    pub hosts : run'.orchestrator ≡ left
    pub agent_kept : run'.orchestrator.host.agent ≡ run.orchestrator.host.agent
    pub sized : length run'.results ≡ length run.results
    pub others : (i : ℕ) → f.index ≢ i → get_elem? run'.results i ≡ get_elem? run.results i
    pub own :
        (later : Option Error)
        → f.index < length steps
        → HasResult f.index run' (OutcomeOf (failure later) f (met f run.orchestrator))
    pub raises :
        (later : Option Error)
        → or_else run'.first_err later ≡ or_else run.first_err (failure later)

  store-Turned :
      (f : Ending) (step : WorkflowStep) (run : Shared) (outcome : Result (AgentHost × StepResult))
      → IsQuiet f
      → get_elem? steps f.index ≡ some step
      → length run.results ≡ length steps
      → turn w c add d sort peer_decode workflow_id steps f step (met f run.orchestrator) ≡ outcome
      → Finishes outcome
      → Turned f run
          (left_by (met f run.orchestrator) outcome)
          (or_later step outcome)
          (store error_text f step (interrupted f run) outcome)
  unfolding store left_by or_later
  store-Turned f step run (ok (ah, r)) quiet found sized h fin =
      let (same, named) =
        execute_step-keeps w c add d sort peer_decode f.readings workflow_id step
          (met f run.orchestrator) ah r h in
      let here : get_elem? (set run.results f.index r) f.index ≡ some r =
        get_elem?-set run.results f.index r
          (omega (arith, get_elem?_below steps f.index step found, sized)) in
      record {
        run' = record run {
          orchestrator = record (met f run.orchestrator) { host = ah };
          results = set run.results f.index r;
        };
        ends = refl;
        hosts = refl;
        agent_kept = same ∙ quiet run.orchestrator.host;
        sized = length-set run.results f.index r;
        others = λ i other. get_elem?-set_other run.results f.index i r other;
        own = λ later below. (step, r, (found, here, named, inl (ah, h)));
        raises = λ later. refl;
      }
  store-Turned f step run (err e) quiet found sized h fin =
      let r = failed (error_text e) step f.time in
      let here : get_elem? (set run.results f.index r) f.index ≡ some r =
        get_elem?-set run.results f.index r
          (omega (arith, get_elem?_below steps f.index step found, sized)) in
      record {
        run' = record (interrupted f run) {
          results = set run.results f.index r;
          first_err = keep_first run.first_err (wrap_string "step %q: %w" step.id e);
        };
        ends = refl;
        hosts = refl;
        agent_kept = quiet run.orchestrator.host;
        sized = length-set run.results f.index r;
        others = λ i other. get_elem?-set_other run.results f.index i r other;
        own = λ later below. (step, r, (found, here, refl, inr (e, (h, refl, λ x. cc))));
        raises = λ later. or_else-keep_first run.first_err later _;
      }
  store-Turned f step run panic quiet found sized h fin = absurd (fin.no_panic refl)
  store-Turned f step run stuck quiet found sized h fin = absurd (fin.no_stuck refl)

  module _ (laws : IsProtowire w) (sorts : IsSort sort) where
    pub end_goroutine-Turned :
        (f : Ending) (run : Shared) (at : Option WorkflowStep)
        → IsQuiet f
        → CanSign run.orchestrator.host.agent.did
        → length run.results ≡ length steps
        → get_elem? steps f.index ≡ at
        → Turned f run
            (after_turn w c add d sort peer_decode workflow_id steps f (met f run.orchestrator) at)
            (failure_at w c add d sort peer_decode workflow_id steps f (met f run.orchestrator) at)
            (end_goroutine_of w c add d sort peer_decode error_text workflow_id steps f
              (interrupted f run)
              at)
    unfolding after_turn failure_at
    end_goroutine-Turned f run none quiet safe sized at = record {
      run' = interrupted f run;
      ends = refl;
      hosts = refl;
      agent_kept = quiet run.orchestrator.host;
      sized = refl;
      others = λ i other. refl;
      own = λ later below. absurd (get_elem?_there steps f.index at below);
      raises = λ later. refl;
    }
    end_goroutine-Turned f run (some step) quiet safe sized at =
        let o = met f run.orchestrator in
        store-Turned f step run (turn w c add d sort peer_decode workflow_id steps f step o) quiet
          at sized refl
          (execute_step-Finishes w c add d sort peer_decode laws sorts f.readings workflow_id step o
            (subst (λ a. CanSign a.did) (sym (quiet run.orchestrator.host)) safe))
