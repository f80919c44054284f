-- ===== src/Orchestrator/Turns.antt =====
-- p2p/protocol.go: what `RunWorkflow` promises, from the turns of its goroutines: each has one turn, in
-- which it searches, asks and stores, on the host as the turns before it and the host's other
-- streams leave it.
use agent_semantic_protocol.Common.{
  ◌≡◌, ◌≢◌, ◌⊎◌, inl, inr, Option, none, some, List, [], ◌∷◌, Bytes, get_elem?,
}
use agent_semantic_protocol.Common.Outcome.{Error, wrap_string, Result, ok, err, panic, stuck}
use agent_semantic_protocol.Wire.Float32.{Float32}
use agent_semantic_protocol.Wire.Protowire.{Protowire}
use agent_semantic_protocol.Did.Packages.{Crypto}
use agent_semantic_protocol.Ranking.{Double, Ranked, Sort}
use agent_semantic_protocol.Host.{AgentHost}
use agent_semantic_protocol.Orchestrator.{
  WorkflowOrchestrator, WorkflowStep, StepResult, Ending, failed, execute_step,
}

-- What a goroutine meets at its turn.
abbrev pub met : Ending → WorkflowOrchestrator → WorkflowOrchestrator
met f o = record o { host = f.meanwhile o.host }

-- What a step leaves: the host of its answer, or the host as it was.
unfoldable pub left_by :
    WorkflowOrchestrator → Result (AgentHost × StepResult) → WorkflowOrchestrator
left_by o (ok (ah, r)) = record o { host = ah }
left_by o (err e) = o
left_by o panic = o
left_by o stuck = o

-- The error of a step, or else a later one.
unfoldable pub or_later :
    WorkflowStep → Result (AgentHost × StepResult) → Option Error → Option Error
or_later step (err e) later = some (wrap_string "step %q: %w" step.id e)
or_later step (ok x) later = later
or_later step panic later = later
or_later step stuck later = later

module _ {W : Type 0} (w : Protowire) (c : Crypto) (add : Float32 → Float32 → Float32)
    (d : Double W) (sort : Sort (Ranked W)) (peer_decode : Bytes → Option Bytes)
    (workflow_id : Bytes) (steps : List WorkflowStep) where
  -- How the step of a goroutine ends, at its turn.
  abbrev pub turn : Ending → WorkflowStep → WorkflowOrchestrator → Result (AgentHost × StepResult)
  turn f step o = execute_step w c add d sort peer_decode f.readings workflow_id step o

  unfoldable pub after_turn :
      Ending → WorkflowOrchestrator → Option WorkflowStep → WorkflowOrchestrator
  after_turn f o none = o
  after_turn f o (some step) = left_by o (turn f step o)

  abbrev pub after : Ending → WorkflowOrchestrator → WorkflowOrchestrator
  after f o = after_turn f (met f o) (get_elem? steps f.index)

  unfoldable pub failure_at :
      Ending → WorkflowOrchestrator → Option WorkflowStep → Option Error → Option Error
  failure_at f o none later = later
  failure_at f o (some step) later = or_later step (turn f step o) later

  -- The error of the first turn that fails.
  unfoldable pub first_failure : List Ending → WorkflowOrchestrator → Option Error
  first_failure [] o = none
  first_failure (f ∷ fs) o =
      failure_at f (met f o) (get_elem? steps f.index) (first_failure fs (after f o))

  -- Of one of the turns, and of what its goroutine meets.
  abbrev pub AtTurn :
      (Ending → WorkflowOrchestrator → Type 0) → List Ending → WorkflowOrchestrator → Type 0
  AtTurn P [] o = ⊥
  AtTurn P (f ∷ fs) o = P f (met f o) ⊎ AtTurn P fs (after f o)

  pub AtTurn-map :
      (P Q : Ending → WorkflowOrchestrator → Type 0) (fs : List Ending) (o : WorkflowOrchestrator)
      → ((f : Ending) (o : WorkflowOrchestrator) → P f o → Q f o)
      → AtTurn P fs o
      → AtTurn Q fs o
  AtTurn-map P Q [] o h at = absurd at
  AtTurn-map P Q (f ∷ fs) o h (inl now) = inl (h f (met f o) now)
  AtTurn-map P Q (f ∷ fs) o h (inr later) = inr (AtTurn-map P Q fs (after f o) h later)

  module _ (error_text : Error → Bytes) where
    -- The result is the answer that the step's turn ended with, or, where the turn ended with an
    -- error, names that error; there is an error to return then.
    abbrev pub IsOutcome :
        Option Error → WorkflowStep → StepResult → Ending → WorkflowOrchestrator → Type 0
    IsOutcome first_err step r f o =
        ((ah : AgentHost) × (turn f step o ≡ ok (ah, r)))
        ⊎ ((e : Error) × ((turn f step o ≡ err e)
              × (r ≡ failed (error_text e) step f.time)
              × (first_err ≢ none)))
