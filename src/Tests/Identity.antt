-- ===== src/Tests/Identity.antt =====
-- core/did.go and core/handshake.go: the theorems at concrete identities.
use agent_semantic_protocol.Common.{
  ℕ, ◌≡◌, ◌↔◌, refl, true, none, some, [], ◌∷◌, Bytes, codes, length,
}
use agent_semantic_protocol.Common.Int64.{pos}
use agent_semantic_protocol.Common.Outcome.{ok, ◌>>=◌, ◌>>◌}
use agent_semantic_protocol.Messages.Types.{HandshakeMessage}
use agent_semantic_protocol.Did.Packages.{public_key_size}
use agent_semantic_protocol.Did.{Did, split_colon, parse_did, did_from_key, new_did}
use agent_semantic_protocol.Agent
use agent_semantic_protocol.Agent.{Agent, new_agent}
use agent_semantic_protocol.Handshake.{start_handshake, respond_handshake, finish_handshake}
use agent_semantic_protocol.Handshake.Accept.{
  NamesKey, answer, finish_handshake_iff, respond_handshake_iff,
}
use agent_semantic_protocol.Handshake.Honest.{handshake_completes}
use agent_semantic_protocol.Tests.ToyCrypto.{toy, toy-IsCrypto, key, priv, key-IsKeyPair}

abbrev web : Did
web = record { method = codes "web"; id = codes "ab"; pub_key = none; priv_key = none }

web_parsed : parse_did toy (codes "did:web:ab") ≡ ok web
unfolding parse_did split_colon
web_parsed = refl

abbrev made : ℕ → Bytes → Agent
made n id = record {
  id = id;
  did = did_from_key toy (key n) (some (priv n));
  capabilities = [];
  pub_key = some (key n);
  priv_key = some (priv n);
}

handshake_completes_example :
    (do
      ours ← start_handshake (made 1 (codes "a")) (some (5 ∷ [])) (pos 1)
      response ← respond_handshake toy (made 2 (codes "b")) ours (some (6 ∷ [])) (pos 2)
      finish_handshake toy ours.challenge response
      ok response)
    ≡ ok (answer toy (made 2 (codes "b")) (6 ∷ []) (toy.ed25519_sign (priv 2) (5 ∷ [])) (pos 2))
unfolding new_agent new_did did_from_key
handshake_completes_example =
    handshake_completes toy toy-IsCrypto (key 1) (priv 1) (codes "a") (key 2) (priv 2) (codes "b")
      [] [] (made 1 (codes "a")) (made 2 (codes "b")) (5 ∷ []) (6 ∷ []) (pos 1) (pos 2)
      (key-IsKeyPair 1) (key-IsKeyPair 2) refl refl

abbrev response : HandshakeMessage
response = answer toy (made 2 (codes "b")) (6 ∷ []) (toy.ed25519_sign (priv 2) (5 ∷ [])) (pos 2)

finish_handshake_iff_example : (finish_handshake toy (5 ∷ []) response ≡ ok tt) ↔ (
    NamesKey toy response.did response.public_key
    × (length response.public_key ≡ public_key_size)
    × (toy.ed25519_verify response.public_key (5 ∷ []) response.challenge_response ≡ true))
finish_handshake_iff_example = finish_handshake_iff toy (5 ∷ []) response

respond_handshake_iff_example :
    (respond_handshake toy (made 2 (codes "b")) response (some (6 ∷ [])) (pos 2) ≡ ok response) ↔ (
      NamesKey toy response.did response.public_key
      × ((sig : Bytes) × (Agent.sign toy (made 2 (codes "b")) response.challenge ≡ ok sig)
          × ((challenge : Bytes) × (some (6 ∷ []) ≡ some challenge)
              × (answer toy (made 2 (codes "b")) challenge sig (pos 2) ≡ response))))
respond_handshake_iff_example =
    respond_handshake_iff toy (made 2 (codes "b")) response response (some (6 ∷ [])) (pos 2)
