-- ===== src/Examples/NegotiationDemo/Calm.antt =====
-- examples/negotiation-demo/main.go: the messages and the lines of a run to its end.
use agent_semantic_protocol.Common.{
  ◌+◌, ◌≤◌, true, false, Option, none, some, List, [], ◌∷◌, ◌++◌, Bytes, codes, length, take,
}
use agent_semantic_protocol.Common.Outcome.{Error}
use agent_semantic_protocol.Wire.Float32.{Float32}
use agent_semantic_protocol.Wire.Protowire.{Protowire}
use agent_semantic_protocol.Messages.Types.{
  HandshakeMessage, IntentMessage, NegotiationResponse, protocol_version,
}
use agent_semantic_protocol.Messages.Intent
use agent_semantic_protocol.Messages.Intent.RoundTrip.{IsGoIntent}
use agent_semantic_protocol.Messages.Negotiation
use agent_semantic_protocol.Messages.Negotiation.RoundTrip.{IsGoResponse}
use agent_semantic_protocol.Did.{to_string}
use agent_semantic_protocol.Did.Hex.{hex_encode}
use agent_semantic_protocol.Did.Packages.{Crypto}
use agent_semantic_protocol.Agent.{Agent}
use agent_semantic_protocol.Handshake.Accept.{answer}
use agent_semantic_protocol.Handshake.Honest.{opening}
use agent_semantic_protocol.Trust.{TrustGraph, new_trust_graph, apply, get_score}
use agent_semantic_protocol.Negotiation.{reflect_vector}
use agent_semantic_protocol.Stream.{max_length}
use agent_semantic_protocol.Host.{Readings}
use agent_semantic_protocol.Host.Libp2p.{peer_id}
use agent_semantic_protocol.Examples.Output.{
  Line, text, literal, texts, number, truth, float, floats, short, time, line,
}
use agent_semantic_protocol.Examples.Streams.{agent_of}
use agent_semantic_protocol.Examples.NegotiationDemo.{
  Attempt, World, requester_caps, code_caps, limited_caps, required, payload, intent_vector,
}
use agent_semantic_protocol.Examples.NegotiationDemo.Callback.{detailed_steps}
use agent_semantic_protocol.Examples.NegotiationDemo.Shakes.{calm_attempt, first_attempt, tried}

-- What the random source gives: the key pairs, the nonces of the two handshakes on either side, and
-- the bytes of the two intents' ids; and the error of libp2p, if any, at the first attempt at either
-- handshake.
pub record Seeds : Type 0 where
  pub key_r : Bytes
  pub priv_r : Bytes
  pub key_c : Bytes
  pub priv_c : Bytes
  pub key_l : Bytes
  pub priv_l : Bytes
  pub nonce_c : Bytes
  pub nonce_c' : Bytes
  pub nonce_l : Bytes
  pub nonce_l' : Bytes
  pub id : Bytes
  pub local_id : Bytes
  pub refusal_c : Option Error
  pub refusal_l : Option Error

abbrev pub with_nonce : Bytes → Readings → Readings
with_nonce nonce env = record env { nonce = some nonce }

abbrev pub with_nonces : Bytes → Bytes → Attempt → Attempt
with_nonces nonce nonce' try = record try {
  env = with_nonce nonce try.env;
  handler_env = with_nonce nonce' try.handler_env;
}

-- The world in which the random source gives these, and libp2p reports no other error.
abbrev pub calm : Seeds → World → World
calm s world = record world {
  keys_r = some (s.key_r, s.priv_r);
  keys_c = some (s.key_c, s.priv_c);
  keys_l = some (s.key_l, s.priv_l);
  failed_r = none;
  failed_c = none;
  failed_l = none;
  dial = λ info. none;
  first_c = first_attempt s.refusal_c (with_nonces s.nonce_c s.nonce_c' world.first_c);
  retry_c = calm_attempt (with_nonces s.nonce_c s.nonce_c' world.retry_c);
  first_l = first_attempt s.refusal_l (with_nonces s.nonce_l s.nonce_l' world.first_l);
  retry_l = calm_attempt (with_nonces s.nonce_l s.nonce_l' world.retry_l);
  intent_id = some s.id;
  opens_c = true;
  opens_l = true;
  local_id = some s.local_id;
}

-- The attempts that succeed.
abbrev pub tried_c : Seeds → World → Attempt
tried_c s world =
    tried s.refusal_c (with_nonces s.nonce_c s.nonce_c' world.first_c)
      (with_nonces s.nonce_c s.nonce_c' world.retry_c)

abbrev pub tried_l : Seeds → World → Attempt
tried_l s world =
    tried s.refusal_l (with_nonces s.nonce_l s.nonce_l' world.first_l)
      (with_nonces s.nonce_l s.nonce_l' world.retry_l)

module _ (c : Crypto) (s : Seeds) where
  abbrev pub requester : Agent
  requester = agent_of c s.key_r s.priv_r (codes "requester") requester_caps

  abbrev pub code_agent : Agent
  code_agent = agent_of c s.key_c s.priv_c (codes "code-agent") code_caps

  abbrev pub limited_agent : Agent
  limited_agent = agent_of c s.key_l s.priv_l (codes "limited-agent") limited_caps

  module _ (world : World) where
    abbrev pub greeting_c : HandshakeMessage
    greeting_c = opening requester s.nonce_c (tried_c s world).env.stamp

    abbrev pub response_c : HandshakeMessage
    response_c =
        answer c code_agent s.nonce_c' (c.ed25519_sign s.priv_c s.nonce_c)
          (tried_c s world).handler_env.stamp

    abbrev pub greeting_l : HandshakeMessage
    greeting_l = opening requester s.nonce_l (tried_l s world).env.stamp

    abbrev pub response_l : HandshakeMessage
    response_l =
        answer c limited_agent s.nonce_l' (c.ed25519_sign s.priv_l s.nonce_l)
          (tried_l s world).handler_env.stamp

    abbrev pub asked : IntentMessage
    asked = record {
      id = hex_encode s.id;
      intent_vector = intent_vector;
      capabilities = required;
      did = to_string requester.did;
      payload = payload;
      timestamp = world.intent_now;
      trust_score = 0x3f000000;
      metadata = (codes "protocol", protocol_version) ∷ [];
      signature = c.ed25519_sign s.priv_r (hex_encode s.id ++ payload);
      logger = none;
    }

    abbrev pub code_reply : NegotiationResponse
    code_reply = record {
      request_id = hex_encode s.id;
      agent_id = codes "code-agent";
      accepted = true;
      workflow_steps = detailed_steps;
      did = to_string code_agent.did;
      response_vector = reflect_vector intent_vector;
      timestamp = world.callback_now;
      reason = codes "all capabilities available";
      trust_delta = 0x3d4ccccd;
      signature = c.ed25519_sign s.priv_c (hex_encode s.id ++ codes "all capabilities available");
    }

    abbrev pub limited_reply : NegotiationResponse
    limited_reply = record {
      request_id = hex_encode s.id;
      agent_id = codes "limited-agent";
      accepted = false;
      workflow_steps = [];
      did = to_string limited_agent.did;
      response_vector = reflect_vector intent_vector;
      timestamp = world.intent_env_l.stamp;
      reason = codes "missing capabilities: [code-generation python]";
      trust_delta = 0xbca3d70a;
      signature =
          c.ed25519_sign s.priv_l
            (hex_encode s.id ++ codes "missing capabilities: [code-generation python]");
    }

  -- The requester's graph at the end.
  abbrev pub final_trust : (Float32 → Float32 → Float32) → TrustGraph
  final_trust add =
      apply add (to_string requester.did) (to_string limited_agent.did) 0xbca3d70a
        (apply add (to_string requester.did) (to_string code_agent.did) 0x3d4ccccd new_trust_graph)

  abbrev pub handshake_lines : List Line
  handshake_lines =
      line "── Handshake phase ──────────────────────────────────────────────────" []
      ∷ line "  ✓ Handshook %s  caps=%v\n" (text (codes "code-agent") ∷ texts code_caps ∷ [])
      ∷ line "  ✓ Handshook %s  caps=%v\n" (text (codes "limited-agent") ∷ texts limited_caps ∷ [])
      ∷ []

  abbrev pub conclusion : (Float32 → Float32 → Float32) → List Line
  conclusion add =
      line "\n── Trust Graph (Requester's view) ───────────────────────────────────" []
      ∷ line "  trust(requester → code-agent)   = %.2f\n" (
          float (get_score (to_string requester.did) (to_string code_agent.did) (final_trust add))
          ∷ [])
      ∷ line "  trust(requester → limited-agent) = %.2f\n" (
          float
            (get_score (to_string requester.did) (to_string limited_agent.did) (final_trust add))
          ∷ [])
      ∷ line "\n── In-Process NegotiationBus Demo (goroutines, no TCP) ──────────────" []
      ∷ line "  Bus negotiation accepted=%v  steps=%v\n" (
          truth true
          ∷ texts (
              (codes "parse_intent:" ++ hex_encode s.local_id)
              ∷ codes "execute:code-generation"
              ∷ (codes "return_result:" ++ hex_encode s.local_id)
              ∷ [])
          ∷ [])
      ∷ line "\n✓ Demo complete." []
      ∷ []

  abbrev pub negotiation_lines : World → List Line
  negotiation_lines world =
      line "\n── Negotiation phase ────────────────────────────────────────────────" []
      ∷ line "  Requester sends intent: 'Generate Python from natural language'" []
      ∷ line "  Intent vector (10-dim): %.2f\n" (floats intent_vector ∷ [])
      ∷ line "" []
      ∷ line "\n[code-agent] ← Intent from %s\n" (short (peer_id world.libp2p_r) ∷ [])
      ∷ line "             Vector (first 5): %.3f\n" (floats (take 5 intent_vector) ∷ [])
      ∷ line "             Required caps:    %v\n" (texts required ∷ [])
      ∷ line "             Payload:          %s\n" (text payload ∷ [])
      ∷ line "  %s %s\n" (text (codes "[code-agent]") ∷ literal "✓ ACCEPTED" ∷ [])
      ∷ line "    Agent    : %s\n" (text (codes "code-agent") ∷ [])
      ∷ line "    Reason   : %s\n" (text (codes "all capabilities available") ∷ [])
      ∷ line "    TrustΔ   : %+.2f\n" (float 0x3d4ccccd ∷ [])
      ∷ line "    Workflow :\n" []
      ∷ line "      [%d] %s\n" (number 1 ∷ text (codes "step-1: parse_natural_language") ∷ [])
      ∷ line "      [%d] %s\n" (number 2 ∷ text (codes "step-2: generate_code[python]") ∷ [])
      ∷ line "      [%d] %s\n" (number 3 ∷ text (codes "step-3: run_static_analysis") ∷ [])
      ∷ line "      [%d] %s\n" (number 4 ∷ text (codes "step-4: validate_output") ∷ [])
      ∷ line "      [%d] %s\n" (number 5 ∷ text (codes "step-5: stream_result_to_requester") ∷ [])
      ∷ line "    Latency  : %s\n" (time world.callback_now ∷ [])
      ∷ line "" []
      ∷ line "  %s %s\n" (text (codes "[limited-agent]") ∷ literal "✗ REJECTED" ∷ [])
      ∷ line "    Agent    : %s\n" (text (codes "limited-agent") ∷ [])
      ∷ line "    Reason   : %s\n"
          (text (codes "missing capabilities: [code-generation python]") ∷ [])
      ∷ line "    TrustΔ   : %+.2f\n" (float 0xbca3d70a ∷ [])
      ∷ line "    Latency  : %s\n" (time world.intent_env_l.stamp ∷ [])
      ∷ line "" []
      ∷ []

-- A message that fits a frame, with fields that are values of their Go types.
abbrev pub FitsIntent : Protowire → IntentMessage → Type 0
FitsIntent w m = IsGoIntent w m × (1 + length (Intent.encode w m) ≤ max_length)

abbrev pub FitsResponse : Protowire → NegotiationResponse → Type 0
FitsResponse w m = IsGoResponse m × (1 + length (Negotiation.encode w m) ≤ max_length)
