-- ===== src/Negotiation.antt =====
-- core/negotiation.go: intents, the default handler, signatures and the in-process bus. `now` is
-- `time.Now().UnixNano()`.
pub mod Handler
pub mod Signatures
pub mod Dispatch
use agent_semantic_protocol.Common.{
  ℕ, Bool, true, false, Option, none, some, List, [], ◌∷◌, ◌++◌, Bytes, codes, is_empty, map,
  if◌then◌else◌,
}
use agent_semantic_protocol.Common.Int64.{ℤ}
use agent_semantic_protocol.Common.Outcome.{
  message, with_string, Result, ok, err, panic, stuck, ◌>>=◌, want, wrapping,
}
use agent_semantic_protocol.Wire.Float32.{Float32, negate}
use agent_semantic_protocol.Wire.Maps.{Assoc, get, put}
use agent_semantic_protocol.Messages.Types.{IntentMessage, NegotiationResponse, protocol_version}
use agent_semantic_protocol.Did
use agent_semantic_protocol.Did.{did_from_public_key, verify, to_string}
use agent_semantic_protocol.Did.Hex.{hex_encode}
use agent_semantic_protocol.Did.Packages.{Crypto}
use agent_semantic_protocol.Agent.{Agent}
use agent_semantic_protocol.Capability.{missing_capabilities}

-- `fmt.Sprintf("%v", ss)`: the strings with spaces between them, in brackets
abbrev pub spaced : List Bytes → Bytes
spaced [] = []
spaced (s ∷ []) = s
spaced (s ∷ ss) = s ++ (b' ' ∷ spaced ss)

abbrev pub bracketed : List Bytes → Bytes
bracketed ss = b'[' ∷ (spaced ss ++ (b']' ∷ []))

unfoldable pub execute_steps : List Bytes → List Bytes → List Bytes
execute_steps [] steps = steps
execute_steps (cap ∷ caps) steps = execute_steps caps (steps ++ ((codes "execute:" ++ cap) ∷ []))

unfoldable pub build_workflow : IntentMessage → List Bytes
build_workflow intent =
    let steps = (codes "parse_intent:" ++ intent.id) ∷ [] in
    let steps' = execute_steps intent.capabilities steps in
    steps' ++ ((codes "return_result:" ++ intent.id) ∷ [])

unfoldable pub reflect_vector : List Float32 → List Float32
reflect_vector v = if is_empty v then [] else map negate v

-- The float32 nearest to 0.05 and to -0.02.
unfoldable pub trust_delta : Bool → Float32
trust_delta accepted = if accepted then 0x3d4ccccd else 0xbca3d70a

-- `bytes` are the 16 that `rand.Read` filled.
unfoldable pub random_id : Option Bytes → Result Bytes
random_id bytes = do b ← want (message "randomID") bytes; ok (hex_encode b)

abbrev pub reason_for : Bool → List Bytes → Bytes
reason_for true missing = codes "all capabilities available"
reason_for false missing = codes "missing capabilities: " ++ bracketed missing

-- `if sig, err := …; err == nil { resp.Signature = sig }`
unfoldable pub with_signature : NegotiationResponse → Result Bytes → Result NegotiationResponse
with_signature resp (ok sig) = ok (record resp { signature = sig })
with_signature resp (err e) = ok resp
with_signature resp panic = panic
with_signature resp stuck = stuck

-- The literal of `DefaultNegotiationHandler`.
abbrev pub unsigned_response : Agent → ℤ → IntentMessage → NegotiationResponse
unsigned_response agent now intent =
    let missing = missing_capabilities intent.capabilities agent.capabilities in
    let accepted = is_empty missing in
    let reason = reason_for accepted missing in
    let steps = if accepted then build_workflow intent else [] in
    record {
      request_id = intent.id;
      agent_id = agent.id;
      accepted = accepted;
      workflow_steps = steps;
      did = to_string agent.did;
      response_vector = reflect_vector intent.intent_vector;
      timestamp = now;
      reason = reason;
      trust_delta = trust_delta accepted;
      signature = [];
    }

module _ (c : Crypto) where
  -- The handler that `DefaultNegotiationHandler(agent)` returns.
  unfoldable pub default_handler : Agent → ℤ → IntentMessage → Result NegotiationResponse
  default_handler agent now intent =
      let resp = unsigned_response agent now intent in
      with_signature resp (Did.sign c agent.did (resp.request_id ++ resp.reason))

  unfoldable pub create_intent :
      Agent → List Float32 → List Bytes → Bytes → Option Bytes → ℤ → Result IntentMessage
  create_intent sender intent_vector required payload bytes now = do
    id ← random_id bytes
    let intent : IntentMessage = record {
      id = id;
      intent_vector = intent_vector;
      capabilities = required;
      did = to_string sender.did;
      payload = payload;
      timestamp = now;
      trust_score = 0x3f000000;
      metadata = (codes "protocol", protocol_version) ∷ [];
      signature = [];
      logger = none;
    }
    sig ← wrapping "CreateIntent: sign: %w" (Did.sign c sender.did (id ++ payload))
    ok (record intent { signature = sig })

  -- `VerifyIntentSignature` and `VerifyResponseSignature`, over the bytes that are signed
  abbrev pub verify_signature : Bytes → Bytes → Bytes → Result Bool
  verify_signature signature bytes key =
      if is_empty signature then ok true else (elim (did_from_public_key c key) [
        | ok d ↦ verify c d bytes signature
        | err e ↦ ok false
        | panic ↦ panic
        | stuck ↦ stuck
      ])

  unfoldable pub verify_intent_signature : IntentMessage → Bytes → Result Bool
  verify_intent_signature intent key =
      verify_signature intent.signature (intent.id ++ intent.payload) key

  unfoldable pub verify_response_signature : NegotiationResponse → Bytes → Result Bool
  verify_response_signature resp key =
      verify_signature resp.signature (resp.request_id ++ resp.reason) key

-- `NegotiationHandler`
abbrev pub Handler : Type 0
Handler = IntentMessage → Result NegotiationResponse

-- `NegotiationBus.handlers`, keyed by agent id. Its mutex makes each method one step.
abbrev pub Bus : Type 0
Bus = Assoc Handler

unfoldable pub new_negotiation_bus : Bus
new_negotiation_bus = []

unfoldable pub register : Bytes → Handler → Bus → Bus
register agent_id h bus = put agent_id h bus

abbrev pub call : Bytes → Option Handler → IntentMessage → Result NegotiationResponse
call target none intent = err (with_string "negotiation: no handler for agent %q" target)
call target (some h) intent = h intent

unfoldable pub negotiate : Bytes → IntentMessage → Bus → Result NegotiationResponse
negotiate target intent bus = call target (get target bus) intent
