-- ===== src/Tests/Logs.antt =====
-- core/logging.go and core/did.go: logs and racing calls at concrete values.
use agent_semantic_protocol.Common.{◌≡◌, refl, none, some, [], ◌∷◌, codes, bytes_eq, arith}
use agent_semantic_protocol.Common.Int64.{pos}
use agent_semantic_protocol.Wire.Maps.{get}
use agent_semantic_protocol.Messages.Types.{IntentMessage}
use agent_semantic_protocol.Logging.{opened, Logs, log_line, log_message, log_intent_message}
use agent_semantic_protocol.Logging.Entries.{
  Extends, file, opens, logs_message, logs_intent, closes, log_calls, with_line, log_calls-Extends,
  log_intent_message_forged,
}
use agent_semantic_protocol.Trust.{clamp, get_score, new_trust_graph}
use agent_semantic_protocol.Trust.Race.{System, ready, finished, Reach, lost_update}

abbrev logs : Logs
logs = record { files = (codes "audit", codes "old") ∷ []; loggers = opened (codes "audit") ∷ [] }

abbrev intent : IntentMessage
intent = record {
  id = codes "i";
  intent_vector = [];
  capabilities = codes "nlp" ∷ [];
  did = [];
  payload = codes "p";
  timestamp = pos 1;
  trust_score = 0;
  metadata = [];
  signature = [];
  logger = some 0;
}

log_calls_example : Extends (codes "old") (
    file (codes "audit") (
      log_calls
        (opens none (codes "audit")
          ∷ logs_intent (codes "t") 100 intent
          ∷ closes none 0
          ∷ logs_message (codes "t") 3 1 (codes "i") (codes "x") (codes "y")
          ∷ [])
        logs))
unfolding get bytes_eq
log_calls_example =
    log_calls-Extends (codes "audit")
      (opens none (codes "audit")
        ∷ logs_intent (codes "t") 100 intent
        ∷ closes none 0
        ∷ logs_message (codes "t") 3 1 (codes "i") (codes "x") (codes "y")
        ∷ [])
      logs

forged_log_example :
    file
      (codes "audit")
      (log_intent_message
        (codes "t")
        200
        (with_line intent (log_line (codes "u") (codes "j") (codes "x") (codes "y")))
        logs).0
    ≡ file
        (codes "audit")
        (log_message
          (codes "u")
          200
          0
          (codes "j")
          (codes "x")
          (codes "y")
          (log_intent_message (codes "t") 200 intent logs).0).0
forged_log_example =
    log_intent_message_forged 200 0 (codes "audit") (codes "t") (codes "u") (codes "j") (codes "x")
      (codes "y") intent logs refl refl (omega arith)

lost_update_example :
    (t : System) × (Reach
        (λ x d. d)
        (record {
          graph = new_trust_graph;
          threads =
              ready (record { from = codes "a"; to = codes "b"; delta = 0x3f000000 })
              ∷ ready (record { from = codes "a"; to = codes "b"; delta = 0x3e000000 })
              ∷ [];
        })
        t
      × ((t.threads ≡ finished ∷ finished ∷ [])
          × (get_score (codes "a") (codes "b") t.graph ≡ clamp 0x3e000000)))
lost_update_example =
    lost_update (λ x d. d) (codes "a") (codes "b") 0x3f000000 0x3e000000 new_trust_graph
