-- ===== src/Examples/NegotiationDemo/Callback.antt =====
-- examples/negotiation-demo/main.go: the callback of the code agent, and what is printed of a
-- response.
use agent_semantic_protocol.Common.{
  ℕ, suc, ◌+◌, Option, some, List, [], ◌∷◌, ◌++◌, Bytes, codes, length, take, ltb, if◌then◌else◌,
}
use agent_semantic_protocol.Common.Int64.{ℤ}
use agent_semantic_protocol.Common.Outcome.{Result, ok, err, panic, stuck}
use agent_semantic_protocol.Messages.Types.{IntentMessage, NegotiationResponse}
use agent_semantic_protocol.Did.Packages.{Crypto}
use agent_semantic_protocol.Agent.{Agent}
use agent_semantic_protocol.Negotiation.{default_handler}
use agent_semantic_protocol.Host.{IntentCallback}
use agent_semantic_protocol.Host.Libp2p.{peer_id}
use agent_semantic_protocol.Examples.Output.{
  Line, text, literal, texts, number, float, floats, short, time, line,
}

abbrev pub detailed_steps : List Bytes
detailed_steps =
    codes "step-1: parse_natural_language"
    ∷ codes "step-2: generate_code[python]"
    ∷ codes "step-3: run_static_analysis"
    ∷ codes "step-4: validate_output"
    ∷ codes "step-5: stream_result_to_requester"
    ∷ []

-- `resp, _ := h(intent)` and the steps in place of those that an accepted response has. With an
-- error the response is nil, and reading it panics.
unfoldable pub enriched : Result NegotiationResponse → Result (Option NegotiationResponse)
enriched (ok resp) =
    ok (some (if resp.accepted then record resp { workflow_steps = detailed_steps } else resp))
enriched (err e) = panic
enriched panic = panic
enriched stuck = stuck

-- The callback of the code agent. `intent.IntentVector[:5]` wants a capacity of five, which
-- `append` gives to no slice that it grows from nothing to fewer than five components.
unfoldable pub code_callback : Crypto → Agent → ℤ → IntentCallback
code_callback c agent now peer_id m =
    if ltb (length m.intent_vector) 5 then panic else enriched (default_handler c agent now m)

-- What the callback prints, the slice that panics before its line.
unfoldable pub code_prints : Bytes → IntentMessage → List Line
code_prints peer_id m =
    line "\n[code-agent] ← Intent from %s\n" (short peer_id ∷ [])
    ∷ (if ltb (length m.intent_vector) 5
        then []
        else line "             Vector (first 5): %.3f\n" (floats (take 5 m.intent_vector) ∷ [])
          ∷ line "             Required caps:    %v\n" (texts m.capabilities ∷ [])
          ∷ line "             Payload:          %s\n" (text m.payload ∷ [])
          ∷ [])

-- `for i, s := range resp.WorkflowSteps`
unfoldable pub step_lines : ℕ → List Bytes → List Line
step_lines i [] = []
step_lines i (s ∷ ss) =
    line "      [%d] %s\n" (number (i + 1) ∷ text s ∷ []) ∷ step_lines (suc i) ss

unfoldable pub print_negotiation_result : Bytes → NegotiationResponse → List Line
print_negotiation_result label resp =
    line "  %s %s\n"
      (text label ∷ literal (if resp.accepted then "✓ ACCEPTED" else "✗ REJECTED") ∷ [])
    ∷ line "    Agent    : %s\n" (text resp.agent_id ∷ [])
    ∷ line "    Reason   : %s\n" (text resp.reason ∷ [])
    ∷ line "    TrustΔ   : %+.2f\n" (float resp.trust_delta ∷ [])
    ∷ ((if resp.accepted then line "    Workflow :\n" [] ∷ step_lines 0 resp.workflow_steps else [])
        ++ (line "    Latency  : %s\n" (time resp.timestamp ∷ []) ∷ line "" [] ∷ []))
