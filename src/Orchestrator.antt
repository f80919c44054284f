-- ===== src/Orchestrator.antt =====
-- p2p/protocol.go: workflows over the peers of a host.
pub mod Parts
pub mod Report
pub mod Turns
pub mod Discover
pub mod Embeddings
pub mod Step
pub mod Total
pub mod Goroutines
pub mod Progress
pub mod Run
use agent_semantic_protocol.Common.{
  ℕ, Bool, false, Option, none, some, List, [], ◌∷◌, Bytes, codes, is_empty, map, bytes_eq,
  get_elem?, set, if◌then◌else◌,
}
use agent_semantic_protocol.Common.Int64.{ℤ}
use agent_semantic_protocol.Common.Outcome.{
  Error, message, with_string, wrap, wrap_string, Result, ok, err, panic, stuck, ◌>>=◌, ◌>>◌, want,
  wrapping,
}
use agent_semantic_protocol.Wire.Float32.{Float32}
use agent_semantic_protocol.Wire.Maps.{Assoc, put}
use agent_semantic_protocol.Wire.Protowire.{Protowire}
use agent_semantic_protocol.Messages.Types.{IntentMessage, NegotiationResponse}
use agent_semantic_protocol.Did.Packages.{Crypto}
use agent_semantic_protocol.Handshake.{HandshakeResult, new_handshake_result}
use agent_semantic_protocol.Discovery.{Time, AgentProfile, Registry, find_by_capability}
use agent_semantic_protocol.Negotiation.{create_intent}
use agent_semantic_protocol.Ranking.{Double, Ranked, Sort, rank_candidates}
use agent_semantic_protocol.Host.{AgentHost, Peer, Readings, send_intent, request_handshake}

-- The host is shared with its streams: it stands in the state that the operations pass on.
pub record WorkflowOrchestrator : Type 0 where
  pub host : AgentHost
  pub timeout : ℤ

unfoldable pub new_orchestrator : AgentHost → ℤ → WorkflowOrchestrator
new_orchestrator host step_timeout = record { host = host; timeout = step_timeout }

pub record StepResult : Type 0 where
  pub step_id : Bytes
  pub agent_id : Bytes
  pub accepted : Bool
  pub reason : Bytes
  pub timestamp : Time

-- `StepResult{}`
abbrev pub zero_result : StepResult
zero_result = record { step_id = []; agent_id = []; accepted = false; reason = []; timestamp = 0 }

pub record WorkflowStep : Type 0 where
  pub id : Bytes
  pub capability : Bytes
  pub intent_vector : List Float32
  pub payload : Bytes

-- What a step reads from outside: the clock during the search, the orders in which the loops go
-- through the two maps, `rand.Read`, `time.Now().UnixNano()`, the peers as a request with a timeout
-- meets them, and `time.Now()` at its end.
pub record StepReadings : Type 0 where
  pub clock : ℕ → Time
  pub visit_entries : Registry → Registry
  pub visit_known : Assoc AgentProfile → Assoc AgentProfile
  pub nonce : Option Bytes
  pub stamp : ℤ
  pub network : ℤ → Bytes → Peer
  pub time : Time

-- `ranked[0]`
abbrev pub first : List AgentProfile → Result AgentProfile
first [] = panic
first (p ∷ ps) = ok p

-- `peer.Decode` is a parameter. A peer id is its text.
unfoldable pub resolve_peer_id : (Bytes → Option Bytes) → Bytes → Assoc AgentProfile → Result Bytes
resolve_peer_id peer_decode agent_id [] =
    err (with_string "peerID not found for agentID %q" agent_id)
resolve_peer_id peer_decode agent_id ((pid, profile) ∷ known) =
    let rest = resolve_peer_id peer_decode agent_id known in
    if bytes_eq profile.agent_id agent_id
    then want (wrap_string "resolve peerID for %q: %w" agent_id (message "peer.Decode"))
        (peer_decode pid)
    else rest

-- `intent.Metadata[…] = …`, twice
abbrev pub tagged : Bytes → WorkflowStep → IntentMessage → IntentMessage
tagged workflow_id step intent = record intent {
  metadata = put (codes "step_id") step.id (put (codes "workflow_id") workflow_id intent.metadata);
}

abbrev pub step_result : WorkflowStep → NegotiationResponse → Time → StepResult
step_result step resp now = record {
  step_id = step.id;
  agent_id = resp.agent_id;
  accepted = resp.accepted;
  reason = resp.reason;
  timestamp = now;
}

-- The goroutine of one step, up to its end: which step, what it reads, what the host's other
-- streams did to the host since the goroutine before ended, and `time.Now()` behind an error.
pub record Ending : Type 0 where
  pub index : ℕ
  pub readings : StepReadings
  pub meanwhile : AgentHost → AgentHost
  pub time : Time

-- What the goroutines share.
pub record Shared : Type 0 where
  pub orchestrator : WorkflowOrchestrator
  pub results : List StepResult
  pub first_err : Option Error

abbrev pub keep_first : Option Error → Error → Option Error
keep_first none e = some e
keep_first (some first_err) e = some first_err

abbrev pub failed : Bytes → WorkflowStep → Time → StepResult
failed reason step now = record {
  step_id = step.id;
  agent_id = [];
  accepted = false;
  reason = reason;
  timestamp = now;
}

-- `error_text` is what `err.Error()` prints.
unfoldable pub store :
    (Error → Bytes)
    → Ending
    → WorkflowStep
    → Shared
    → Result (AgentHost × StepResult)
    → Result Shared
store error_text f step run (ok (ah, r)) = ok (record run {
  orchestrator = record run.orchestrator { host = ah };
  results = set run.results f.index r;
})
store error_text f step run (err e) = ok (record run {
  results = set run.results f.index (failed (error_text e) step f.time);
  first_err = keep_first run.first_err (wrap_string "step %q: %w" step.id e);
})
store error_text f step run panic = panic
store error_text f step run stuck = stuck

abbrev pub interrupted : Ending → Shared → Shared
interrupted f run = record run {
  orchestrator = record run.orchestrator { host = f.meanwhile run.orchestrator.host };
}

module _ {W : Type 0} (w : Protowire) (c : Crypto) (add : Float32 → Float32 → Float32)
    (d : Double W) (sort : Sort (Ranked W)) (peer_decode : Bytes → Option Bytes) where
  -- `executeStep` up to the call of `SendIntent`: the peer, and the intent for it.
  unfoldable pub prepare :
      StepReadings → Bytes → WorkflowStep → WorkflowOrchestrator → Result (Bytes × IntentMessage)
  prepare env workflow_id step o = do
    let candidates =
        find_by_capability env.clock (step.capability ∷ []) (env.visit_entries o.host.discovery)
    (if is_empty candidates
        then err (with_string "no peer with capability %q" step.capability)
        else ok tt)
    best ← first (rank_candidates d sort step.intent_vector candidates)
    peer_id ← resolve_peer_id peer_decode best.agent_id (env.visit_known o.host.known)
    intent ←
        create_intent c o.host.agent step.intent_vector (step.capability ∷ []) step.payload
          env.nonce env.stamp
    ok (peer_id, tagged workflow_id step intent)

  -- The rest of it.
  unfoldable pub ask :
      StepReadings
      → WorkflowStep
      → Bytes
      → IntentMessage
      → WorkflowOrchestrator
      → Result (AgentHost × StepResult)
  ask env step peer_id intent o = do
    (ah, resp) ← send_intent w c add peer_id (env.network o.timeout peer_id) intent o.host
    ok (ah, step_result step resp env.time)

  -- An error leaves the host as it is.
  unfoldable pub execute_step :
      StepReadings → Bytes → WorkflowStep → WorkflowOrchestrator → Result (AgentHost × StepResult)
  execute_step env workflow_id step o = do
    (peer_id, intent) ← prepare env workflow_id step o
    ask env step peer_id intent o

  module _ (error_text : Error → Bytes) (workflow_id : Bytes) (steps : List WorkflowStep) where
    -- There is a goroutine for each step, and no other.
    abbrev pub end_goroutine_of : Ending → Shared → Option WorkflowStep → Result Shared
    end_goroutine_of f run none = ok run
    end_goroutine_of f run (some step) =
        store error_text f step run (execute_step f.readings workflow_id step run.orchestrator)

    unfoldable pub end_goroutine : Ending → Shared → Result Shared
    end_goroutine f run = end_goroutine_of f (interrupted f run) (get_elem? steps f.index)

    -- The goroutines in the order in which they end.
    unfoldable pub end_goroutines : List Ending → Shared → Result Shared
    end_goroutines [] run = ok run
    end_goroutines (f ∷ fs) run = do run' ← end_goroutine f run; end_goroutines fs run'

    unfoldable pub run_workflow :
        List Ending
        → WorkflowOrchestrator
        → Result (WorkflowOrchestrator × List StepResult × Option Error)
    run_workflow endings o = do
      run ←
          end_goroutines endings (record {
            orchestrator = o;
            results = map (λ step. zero_result) steps;
            first_err = none;
          })
      ok (run.orchestrator, run.results, run.first_err)
