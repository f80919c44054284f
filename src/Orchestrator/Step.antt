-- ===== src/Orchestrator/Step.antt =====
-- p2p/protocol.go: which peer gets the intent of a step.
use agent_semantic_protocol.Common.{
  ℕ, ◌≤◌, ◌≡◌, ◌⊎◌, inl, inr, refl, sym, false, Option, some, List, [], ◌∷◌, Bytes, bytes_eq,
  bytes_eq→eq, Bool-cases, All,
}
use mathlib.Core.Path.{subst}
use mathlib.Core.List.{Permᴰ}
use mathlib.Core.List.Permᴰ
use agent_semantic_protocol.Common.Outcome.{ok, want-eq_ok}
use agent_semantic_protocol.Wire.Float32.{Float32}
use agent_semantic_protocol.Wire.Maps.{Assoc}
use agent_semantic_protocol.Wire.Protowire.{Protowire}
use agent_semantic_protocol.Messages.Types.{IntentMessage, NegotiationResponse}
use agent_semantic_protocol.Did.Packages.{Crypto}
use agent_semantic_protocol.Capability.Sets.{Offers}
use agent_semantic_protocol.Discovery.{
  Time, AgentProfile, RegistryEntry, is_expired, find_by_capability,
}
use agent_semantic_protocol.Discovery.Find.{Holds, Lists, find_by_capability_sound}
use agent_semantic_protocol.Negotiation.{create_intent}
use agent_semantic_protocol.Ranking.{Double, Ranked, Sort, cosine_similarity, rank_candidates}
use agent_semantic_protocol.Ranking.Order.{IsOrder, IsSort, IsSorted, All-perm, rank_candidates_lem}
use agent_semantic_protocol.Host.{AgentHost, send_intent}
use agent_semantic_protocol.Ranking.Positions.{All-Lists}
use agent_semantic_protocol.Orchestrator.Parts.{candidates_of, execute_step-Parts}
use agent_semantic_protocol.Orchestrator.{
  WorkflowOrchestrator, WorkflowStep, StepResult, StepReadings, first, resolve_peer_id, tagged,
  step_result, execute_step,
}

first-eq_ok :
    (xs : List AgentProfile) (p : AgentProfile)
    → first xs ≡ ok p
    → (ps : List AgentProfile) × (xs ≡ p ∷ ps)
first-eq_ok [] p h = cc
first-eq_ok (x ∷ xs) p h = (xs, cc)

-- The map has the peer, with a profile of that agent.
abbrev pub Knows : Assoc AgentProfile → Bytes → Bytes → Type 0
Knows [] pid agent_id = ⊥
Knows ((p, profile) ∷ known) pid agent_id =
    ((p ≡ pid) × (profile.agent_id ≡ agent_id)) ⊎ Knows known pid agent_id

pub resolve_peer_id_lem :
    (peer_decode : Bytes → Option Bytes) (agent_id peer_id : Bytes) (known : Assoc AgentProfile)
    → resolve_peer_id peer_decode agent_id known ≡ ok peer_id
    → (pid : Bytes) × (Knows known pid agent_id × (peer_decode pid ≡ some peer_id))
unfolding resolve_peer_id
resolve_peer_id_lem peer_decode agent_id peer_id [] h = cc
resolve_peer_id_lem peer_decode agent_id peer_id ((p, profile) ∷ known) h =
    elim (Bool-cases (bytes_eq profile.agent_id agent_id)) [
      | inl same ↦ (
        p,
        (inl (refl, bytes_eq→eq _ _ same), want-eq_ok _ (peer_decode p) peer_id (rw same at h)),
      )
      | inr other ↦
          let (pid, (knows, decoded)) =
            resolve_peer_id_lem peer_decode agent_id peer_id known (rw other at h) in
          (pid, (inr knows, decoded))
    ]

module _ {W : Type 0} (d : Double W) (v : List Float32) where
  abbrev similarity : AgentProfile → W
  similarity p = cosine_similarity d v p.embedding_vector

  -- No candidate is more similar to the vector.
  abbrev pub IsBest : List AgentProfile → AgentProfile → Type 0
  IsBest candidates best = All (λ q. d.greater (similarity q) (similarity best) ≡ false) candidates

module _ {W : Type 0} (d : Double W) (sort : Sort (Ranked W)) (laws : IsSort sort)
    (IsNumber : W → Type 0) (order : IsOrder d.greater IsNumber) (v : List Float32) where
  first-IsBest :
      (candidates : List AgentProfile) (best : AgentProfile)
      → All (λ p. IsNumber (similarity d v p)) candidates
      → first (rank_candidates d sort v candidates) ≡ ok best
      → Lists candidates best × IsBest d v candidates best
  first-IsBest candidates best numbers h =
      let (rest, e) = first-eq_ok _ best h in
      let (permuted, sorted) =
        rank_candidates_lem d sort laws v IsNumber order candidates numbers in
      let permuted' : Permᴰ (best ∷ rest) candidates =
        subst (λ xs. Permᴰ xs candidates) e permuted in
      let (below, _) : IsSorted (λ p q. d.greater (similarity d v p) (similarity d v q))
          (best ∷ rest) =
        subst (IsSorted (λ p q. d.greater (similarity d v p) (similarity d v q))) e sorted in
      let (number, _) =
        All-perm (λ p. IsNumber (similarity d v p)) (best ∷ rest) candidates permuted' numbers in
      let level : d.greater (similarity d v best) (similarity d v best) ≡ false =
        elim (Bool-cases (d.greater (similarity d v best) (similarity d v best))) [
          | inl more ↦ order.asym (similarity d v best) (similarity d v best) number number more
          | inr not_more ↦ not_more
        ] in
      (
        (All-perm (Lists candidates) (best ∷ rest) candidates permuted' (All-Lists candidates)).0,
        All-perm (λ q. d.greater (similarity d v q) (similarity d v best) ≡ false) candidates
            (best ∷ rest) (Permᴰ.symm permuted') (level, below),
      )

module _ {W : Type 0} (w : Protowire) (c : Crypto) (add : Float32 → Float32 → Float32)
    (d : Double W) (sort : Sort (Ranked W)) (peer_decode : Bytes → Option Bytes) where
  -- What a step that ends without an error went through: the entry that it chose, the peer that it
  -- asked, with which intent, and what came back.
  pub record IsServed (env : StepReadings) (workflow_id : Bytes) (step : WorkflowStep)
      (o : WorkflowOrchestrator) (from : Time) (ah' : AgentHost) (r : StepResult) : Type 0 where
    pub chosen : RegistryEntry
    pub holds : Holds o.host.discovery chosen
    pub live : is_expired from chosen ≡ false
    pub offers : Offers chosen.profile.capabilities step.capability
    pub best :
        IsBest d step.intent_vector
          (find_by_capability env.clock (step.capability ∷ []) (env.visit_entries o.host.discovery))
          chosen.profile
    pub pid : Bytes
    pub peer_id : Bytes
    pub knows : Knows o.host.known pid chosen.profile.agent_id
    pub decoded : peer_decode pid ≡ some peer_id
    pub intent : IntentMessage
    pub created :
        create_intent c o.host.agent step.intent_vector
          (step.capability ∷ [])
          step.payload
          env.nonce
          env.stamp
        ≡ ok intent
    pub resp : NegotiationResponse
    pub answered :
        send_intent w c add peer_id
          (env.network o.timeout peer_id)
          (tagged workflow_id step intent)
          o.host
        ≡ ok (ah', resp)
    pub result : r ≡ step_result step resp env.time

  -- A step that ends without an error was served by a peer that the host knows: the registry holds a
  -- profile of that agent, not expired when the step began, that offers the capability of the step,
  -- and no profile that the search returned is more similar to the step's vector. That peer was asked
  -- with an intent of the step's capability, payload and tags, and the result is its answer. The
  -- similarities of the candidates are numbers, and the loops over the registry and over the known
  -- peers go through nothing but their entries.
  pub execute_step_lem :
      (laws : IsSort sort) (IsNumber : W → Type 0) (order : IsOrder d.greater IsNumber)
      (env : StepReadings) (workflow_id : Bytes) (step : WorkflowStep) (o : WorkflowOrchestrator)
      (from : Time) (ah' : AgentHost) (r : StepResult)
      → All
          (λ p. IsNumber (cosine_similarity d step.intent_vector p.embedding_vector))
          (find_by_capability env.clock (step.capability ∷ []) (env.visit_entries o.host.discovery))
      → ((i : ℕ) → from ≤ env.clock i)
      → ((e : RegistryEntry)
          → Holds (env.visit_entries o.host.discovery) e
          → Holds o.host.discovery e)
      → ((pid agent_id : Bytes)
          → Knows (env.visit_known o.host.known) pid agent_id
          → Knows o.host.known pid agent_id)
      → execute_step w c add d sort peer_decode env workflow_id step o ≡ ok (ah', r)
      → IsServed env workflow_id step o from ah' r
  execute_step_lem laws IsNumber order env workflow_id step o from ah' r numbers later visits meets
        h =
      let p = execute_step-Parts w c add d sort peer_decode env workflow_id step o ah' r h in
      let candidates = candidates_of env step o in
      let (listed, is_best) =
        first-IsBest d sort laws IsNumber order step.intent_vector candidates p.best numbers
          p.headed in
      let (e, (held, (same, live, (offers, _)))) =
        find_by_capability_sound env.clock from (step.capability ∷ [])
          (env.visit_entries o.host.discovery) p.best later listed in
      let (pid, (knows, decoded)) =
        resolve_peer_id_lem peer_decode p.best.agent_id p.peer_id _ p.resolved in
      record {
        chosen = e;
        holds = visits e held;
        live = live;
        offers = rw same offers;
        best = subst (IsBest d step.intent_vector candidates) (sym same) is_best;
        pid = pid;
        peer_id = p.peer_id;
        knows =
            subst (λ q. Knows o.host.known pid q.agent_id) (sym same)
              (meets pid p.best.agent_id knows);
        decoded = decoded;
        intent = p.intent;
        created = p.created;
        resp = p.resp;
        answered = p.answered;
        result = p.result;
      }
