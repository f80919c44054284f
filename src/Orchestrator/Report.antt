-- ===== src/Orchestrator/Report.antt =====
-- p2p/protocol.go: what the results of a workflow have to be.
use agent_semantic_protocol.Common.{
  ℕ, suc, ◌+◌, ◌<◌, ◌≡◌, some, List, [], ◌∷◌, length, get_elem?, arith,
}
use mathlib.Core.Path.{subst}
use agent_semantic_protocol.Orchestrator.{WorkflowStep, StepResult}

module _ (Of : ℕ → WorkflowStep → StepResult → Type 0) where
  -- A result for each step, at the step's place, for the steps from number `n` on.
  abbrev pub Report : ℕ → List WorkflowStep → List StepResult → Type 0
  Report n [] [] = Unit
  Report n (step ∷ steps) (r ∷ results) =
      (r.step_id ≡ step.id) × Of n step r × Report (suc n) steps results
  Report n _ _ = ⊥

  pub Report-all :
      (n : ℕ) (steps : List WorkflowStep) (results : List StepResult)
      → length results ≡ length steps
      → ((i : ℕ)
          → i < length steps
          → (step : WorkflowStep) × (r : StepResult) × ((get_elem? steps i ≡ some step)
              × (get_elem? results i ≡ some r)
              × (r.step_id ≡ step.id)
              × Of (n + i) step r))
      → Report n steps results
  Report-all n [] [] sized h = tt
  Report-all n [] (r ∷ results) sized h = absurd (omega (arith, sized))
  Report-all n (step ∷ steps) [] sized h = absurd (omega (arith, sized))
  Report-all n (step ∷ steps) (r ∷ results) sized h =
      let (s, q, (at_step, at_result, named, of)) = h 0 (omega arith) in
      let same_step : s ≡ step = cc in
      let same_result : q ≡ r = cc in
      let place : n + 0 ≡ n = omega arith in
      (
        cc (named, same_step, same_result),
        subst (λ k. Of k step r) place
            (subst (Of (n + 0) step) same_result (subst (λ x. Of (n + 0) x q) same_step of)),
        Report-all (suc n) steps results (omega (arith, sized)) (λ i below.
            let (s', q', (at_step', at_result', named', of')) = h (suc i) (omega arith) in
            let later : n + suc i ≡ suc n + i = omega arith in
            (s', q', (at_step', at_result', named', subst (λ k. Of k s' q') later of'))),
      )
