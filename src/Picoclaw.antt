-- ===== src/Picoclaw.antt =====
-- examples/picoclaw/client.go: the bridge to a Picoclaw service. The packages net/http and
-- encoding/json are parameters.
pub mod Bridge
use agent_semantic_protocol.Common.{
  ℕ, Bool, Option, none, some, List, [], ◌∷◌, ◌++◌, ◌||◌, Bytes, codes, take, is_empty, ltb, leb,
  if◌then◌else◌,
}
use agent_semantic_protocol.Common.Int64.{ℤ, pos}
use agent_semantic_protocol.Common.Outcome.{
  message, with_number_string, Result, ok, err, ◌>>=◌, want, wrapping,
}
use agent_semantic_protocol.Wire.Float32.{Float32}
use agent_semantic_protocol.Wire.Maps.{Assoc, put}
use agent_semantic_protocol.Messages.Types.{IntentMessage, NegotiationResponse}
use agent_semantic_protocol.Negotiation.{Handler}

-- Of the HTTP client, only its timeout is set.
pub record Client : Type 0 where
  pub base_url : Bytes
  pub api_key : Bytes
  pub timeout : ℤ
  pub agent_id : Bytes

-- `Option`
abbrev pub ClientOption : Type 0
ClientOption = Client → Client

unfoldable pub with_api_key : Bytes → ClientOption
with_api_key key c = record c { api_key = key }

unfoldable pub with_timeout : ℤ → ClientOption
with_timeout d c = record c { timeout = d }

unfoldable pub with_agent_id : Bytes → ClientOption
with_agent_id id c = record c { agent_id = id }

unfoldable pub apply_options : List ClientOption → Client → Client
apply_options [] c = c
apply_options (o ∷ opts) c = apply_options opts (o c)

-- 15 seconds, in nanoseconds.
unfoldable pub new_client : Bytes → List ClientOption → Client
new_client base_url opts = apply_options opts (record {
  base_url = base_url;
  api_key = [];
  timeout = pos 15000000000;
  agent_id = codes "picoclaw-bridge";
})

pub record IntentRequest : Type 0 where
  pub agent_id : Bytes
  pub did : Bytes
  pub intent_vector : List Float32
  pub capabilities : List Bytes
  pub payload : Bytes
  pub trust_score : Float32
  pub metadata : Assoc Bytes

pub record IntentResponse : Type 0 where
  pub request_id : Bytes
  pub accepted : Bool
  pub reason : Bytes
  pub workflow_steps : List Bytes
  pub trust_delta : Float32

pub record CapabilitiesResponse : Type 0 where
  pub agent_id : Bytes
  pub did : Bytes
  pub capabilities : List Bytes
  pub version : Bytes

pub record HttpRequest : Type 0 where
  pub method : Bytes
  pub url : Bytes
  pub header : Assoc Bytes
  pub body : Bytes

-- The body is what can be read of it.
pub record HttpResponse : Type 0 where
  pub status_code : ℕ
  pub body : Bytes

-- `http.NewRequestWithContext`, and `Do` of a client with a timeout.
pub record Http : Type 0 where
  pub new_request : Bytes → Bytes → Bytes → Option HttpRequest
  pub do_request : ℤ → HttpRequest → Option HttpResponse

-- `json.Marshal`, and the decoder on the zero value of either response.
pub record Json : Type 0 where
  pub marshal_request : IntentRequest → Option Bytes
  pub decode_response : Bytes → Option IntentResponse
  pub decode_capabilities : Bytes → Option CapabilitiesResponse

abbrev pub set_header : Bytes → Bytes → HttpRequest → HttpRequest
set_header key value req = record req { header = put key value req.header }

-- `if c.apiKey != "" { req.Header.Set(…) }`
unfoldable pub authorized : Client → HttpRequest → HttpRequest
authorized c req =
    if is_empty c.api_key
    then req
    else set_header (codes "Authorization") (codes "Bearer " ++ c.api_key) req

abbrev pub request_of : Client → IntentMessage → IntentRequest
request_of c intent = record {
  agent_id = c.agent_id;
  did = intent.did;
  intent_vector = intent.intent_vector;
  capabilities = intent.capabilities;
  payload = intent.payload;
  trust_score = intent.trust_score;
  metadata = intent.metadata;
}

abbrev pub response_of : Client → IntentMessage → ℤ → IntentResponse → NegotiationResponse
response_of c intent now resp = record {
  request_id = intent.id;
  agent_id = c.agent_id;
  accepted = resp.accepted;
  workflow_steps = resp.workflow_steps;
  did = [];
  response_vector = [];
  timestamp = now;
  reason = resp.reason;
  trust_delta = resp.trust_delta;
  signature = [];
}

module _ (http : Http) where
  -- The rest of `post` and of `get`, from `Do` on.
  unfoldable pub exchange {ℓ} : {A : Type ℓ} → Client → HttpRequest → (Bytes → Option A) → Result A
  exchange c req decode = do
    resp ← want (message "http do") (http.do_request c.timeout req)
    if ltb resp.status_code 200 || leb 300 resp.status_code
        then err (with_number_string "http %d: %s" resp.status_code (take 512 resp.body))
        else want (message "decode") (decode resp.body)

  unfoldable pub post {ℓ} :
      {A : Type ℓ} → Client → Bytes → Option Bytes → (Bytes → Option A) → Result A
  post c path marshalled decode = do
    data' ← want (message "marshal") marshalled
    req ←
        want (message "build request") (http.new_request (codes "POST") (c.base_url ++ path) data')
    exchange c (authorized c (set_header (codes "Content-Type") (codes "application/json") req))
        decode

  unfoldable pub get {ℓ} : {A : Type ℓ} → Client → Bytes → (Bytes → Option A) → Result A
  get c path decode = do
    req ← want (message "build request") (http.new_request (codes "GET") (c.base_url ++ path) [])
    exchange c (authorized c req) decode

  module _ (json : Json) where
    -- `now` is `time.Now().UnixNano()`.
    unfoldable pub send_intent : Client → ℤ → IntentMessage → Result NegotiationResponse
    send_intent c now intent = do
      resp ← wrapping "picoclaw SendIntent: %w" (
          post c (codes "/v1/intent") (json.marshal_request (request_of c intent))
            json.decode_response)
      ok (response_of c intent now resp)

    unfoldable pub fetch_capabilities : Client → Result CapabilitiesResponse
    fetch_capabilities c =
        wrapping "picoclaw FetchCapabilities: %w"
          (get c (codes "/v1/capabilities") json.decode_capabilities)

    unfoldable pub as_negotiation_handler : Client → ℤ → Handler
    as_negotiation_handler c now intent = send_intent c now intent
