-- ===== src/Tests/Bridges.antt =====
-- examples/picoclaw/client.go: a negotiation with a concrete service.
use agent_semantic_protocol.Common.{◌≡◌, refl, true, none, some, [], ◌∷◌, codes, length, bytes_eq}
use agent_semantic_protocol.Common.Int64.{pos}
use agent_semantic_protocol.Common.Outcome.{ok}
use agent_semantic_protocol.Wire.Maps.{get, put}
use agent_semantic_protocol.Messages.Types.{IntentMessage, NegotiationResponse}
use agent_semantic_protocol.Negotiation.{
  new_negotiation_bus, register, negotiate, verify_response_signature,
}
use agent_semantic_protocol.Picoclaw.{
  Client, Http, Json, with_api_key, with_agent_id, apply_options, new_client, authorized, exchange,
  post, send_intent, as_negotiation_handler,
}
use agent_semantic_protocol.Picoclaw.Bridge.{IsBridged, negotiate_over_http}
use agent_semantic_protocol.Tests.ToyCrypto.{toy}

-- The reply is accepted, with the number of headers as the trust delta.
abbrev http : Http
http = record {
  new_request =
      λ method url body. some (record { method = method; url = url; header = []; body = body });
  do_request = λ timeout req. some (record { status_code = 202; body = length req.header ∷ [] });
}

abbrev json : Json
json = record {
  marshal_request = λ req. some req.payload;
  decode_response = λ b. some (record {
    request_id = codes "other";
    accepted = true;
    reason = [];
    workflow_steps = [];
    trust_delta = length b;
  });
  decode_capabilities = λ b. none;
}

abbrev client : Client
client = record {
  base_url = codes "u";
  api_key = codes "k";
  timeout = pos 15000000000;
  agent_id = codes "claw";
}

client_options :
    new_client (codes "u") (with_api_key (codes "k") ∷ with_agent_id (codes "claw") ∷ []) ≡ client
unfolding new_client apply_options with_api_key with_agent_id
client_options = refl

abbrev intent : IntentMessage
intent = record {
  id = codes "i";
  intent_vector = [];
  capabilities = [];
  did = [];
  payload = codes "p";
  timestamp = pos 1;
  trust_score = 0;
  metadata = [];
  signature = [];
  logger = none;
}

abbrev bridged : NegotiationResponse
bridged = record {
  request_id = codes "i";
  agent_id = codes "claw";
  accepted = true;
  workflow_steps = [];
  did = [];
  response_vector = [];
  timestamp = pos 9;
  reason = [];
  trust_delta = 1;
  signature = [];
}

negotiated :
    negotiate
      (codes "pc")
      intent
      (register (codes "pc") (as_negotiation_handler http json client (pos 9)) new_negotiation_bus)
    ≡ ok bridged
unfolding negotiate register new_negotiation_bus as_negotiation_handler send_intent post exchange
    authorized get put bytes_eq
negotiated = refl

negotiate_over_http_example :
    IsBridged http json client (pos 9) intent bridged
    × (bridged.request_id ≡ intent.id)
    × (verify_response_signature toy bridged (7 ∷ []) ≡ ok true)
negotiate_over_http_example =
    negotiate_over_http http json client (pos 9) intent toy (codes "pc") new_negotiation_bus bridged
      (7 ∷ []) negotiated
