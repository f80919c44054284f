-- ===== src/Examples/NegotiationDemo/Negotiates.antt =====
-- examples/negotiation-demo/main.go: the intent and its two answers where nothing fails.
use agent_semantic_protocol.Common.{
  ◌≡◌, ◌≢◌, refl, true, false, some, ◌++◌, Bytes, bytes_eq, arith, bytes_eq_iff, Bool-cases, inl,
  inr,
}
use agent_semantic_protocol.Common.Outcome.{ok}
use agent_semantic_protocol.Wire.Float32.{Float32}
use agent_semantic_protocol.Wire.Maps.{get, get-put, get-put_self}
use agent_semantic_protocol.Wire.Protowire.{Protowire, IsProtowire}
use agent_semantic_protocol.Did.{to_string}
use agent_semantic_protocol.Did.Packages.{Crypto, IsKeyPair}
use agent_semantic_protocol.Agent
use agent_semantic_protocol.Agent.{new_agent}
use agent_semantic_protocol.Trust.{apply}
use agent_semantic_protocol.Negotiation.{verify_intent_signature, verify_response_signature}
use agent_semantic_protocol.Negotiation.Signatures.{signed_by_key}
use agent_semantic_protocol.Host.{AgentHost, refused, remember, new_host, profile_of}
use agent_semantic_protocol.Host.Callbacks.{on_intent}
use agent_semantic_protocol.Host.Requests.{get-remember}
use agent_semantic_protocol.Host.Negotiate.{reply_to, verified-refused}
use agent_semantic_protocol.Host.Libp2p.{peer_id}
use agent_semantic_protocol.Examples.NegotiationDemo.{World, negotiate_all}
use agent_semantic_protocol.Examples.NegotiationDemo.Callback.{
  code_prints, step_lines, print_negotiation_result,
}
use agent_semantic_protocol.Examples.NegotiationDemo.Shakes.{heard_intent_lem, ask_lem}
use agent_semantic_protocol.Examples.NegotiationDemo.Calm
use agent_semantic_protocol.Examples.NegotiationDemo.Calm.{
  Seeds, calm, FitsIntent, FitsResponse, with_nonces,
}
use agent_semantic_protocol.Examples.NegotiationDemo.Answers.{
  intent_created, callback_replied, limited_replied, conclude_lem,
}
use agent_semantic_protocol.Examples.NegotiationDemo.Hosts.{
  code_host, code_host', limited_host', requester_host, requester_host',
}

module _ (w : Protowire) (laws : IsProtowire w) (c : Crypto) (add : Float32 → Float32 → Float32)
    (s : Seeds) (world : World) (pair_r : IsKeyPair c s.key_r s.priv_r)
    (pair_c : IsKeyPair c s.key_c s.priv_c) (pair_l : IsKeyPair c s.key_l s.priv_l) where
  abbrev our_id : Bytes
  our_id = peer_id world.libp2p_r

  -- The requester's host after the code agent's answer, and after the limited agent's.
  abbrev requester_host'' : AgentHost
  requester_host'' = record (requester_host' c s world) {
    trust =
        apply add (to_string (requester_host' c s world).agent.did)
          (to_string (Calm.code_agent c s).did) 0x3d4ccccd (requester_host' c s world).trust;
  }

  abbrev requester_host''' : AgentHost
  requester_host''' = record requester_host'' {
    trust =
        apply add (to_string requester_host''.agent.did) (to_string (Calm.limited_agent c s).did)
          0xbca3d70a requester_host''.trust;
  }

  final_lem : requester_host'''.trust ≡ Calm.final_trust c s add
  unfolding remember new_host
  final_lem = refl

  -- Both hosts have cached the requester's key, and do not refuse the signature of the intent.
  asked_verifies : verify_intent_signature c (Calm.asked c s world) s.key_r ≡ ok true
  unfolding verify_intent_signature
  asked_verifies = signed_by_key c s.key_r s.priv_r _ pair_r

  code_not_refused :
      refused
        (get our_id (code_host' c s world).known)
        (Calm.asked c s world).signature
        (λ k. verify_intent_signature c (Calm.asked c s world) k)
      ≡ ok false
  unfolding Agent.public_key
  code_not_refused =
      verified-refused (get our_id (code_host' c s world).known)
        (profile_of (Calm.greeting_c c s world)) _ _
        (get-remember _ our_id (Calm.greeting_c c s world) (code_host c s world)) asked_verifies

  limited_not_refused :
      refused
        (get our_id (limited_host' c s world).known)
        (Calm.asked c s world).signature
        (λ k. verify_intent_signature c (Calm.asked c s world) k)
      ≡ ok false
  unfolding Agent.public_key
  limited_not_refused =
      verified-refused (get our_id (limited_host' c s world).known)
        (profile_of (Calm.greeting_l c s world)) _ _
        (get-remember _ our_id (Calm.greeting_l c s world) (new_host (Calm.limited_agent c s)))
        asked_verifies

  code_answers :
      reply_to c world.intent_env_c our_id (Calm.asked c s world) (code_host' c s world)
      ≡ ok (Calm.code_reply c s world)
  unfolding remember on_intent new_host
  code_answers = rw (callback_replied c s world our_id pair_c.priv_size) refl

  limited_answers :
      reply_to c world.intent_env_l our_id (Calm.asked c s world) (limited_host' c s world)
      ≡ ok (Calm.limited_reply c s world)
  unfolding remember new_host
  limited_answers = rw (limited_replied c s world pair_l.priv_size) refl

  code_known :
      peer_id world.libp2p_l ≢ peer_id world.libp2p_c
      → get (peer_id world.libp2p_c) (requester_host' c s world).known
        ≡ some (profile_of (Calm.response_c c s world))
  unfolding remember
  code_known different =
      elim (Bool-cases (bytes_eq (peer_id world.libp2p_l) (peer_id world.libp2p_c))) [
        | inl same ↦ absurd (different ((bytes_eq_iff _ _).0 same))
        | inr apart ↦ rw (get-put, apart, get-put_self) refl
      ]

  code_reply_verifies :
      verify_response_signature c
        (Calm.code_reply c s world)
        (profile_of (Calm.response_c c s world)).public_key
      ≡ ok true
  unfolding verify_response_signature Agent.public_key
  code_reply_verifies = signed_by_key c s.key_c s.priv_c _ pair_c

  limited_reply_verifies :
      verify_response_signature c
        (Calm.limited_reply c s world)
        (profile_of (Calm.response_l c s world)).public_key
      ≡ ok true
  unfolding verify_response_signature Agent.public_key
  limited_reply_verifies = signed_by_key c s.key_l s.priv_l _ pair_l

  pub negotiate_all_lem :
      peer_id world.libp2p_l ≢ peer_id world.libp2p_c
      → FitsIntent w (Calm.asked c s world)
      → FitsResponse w (Calm.code_reply c s world)
      → FitsResponse w (Calm.limited_reply c s world)
      → negotiate_all w c add
          (calm s world)
          (Calm.requester c s)
          (Calm.code_agent c s)
          (Calm.limited_agent c s)
          (requester_host' c s world)
          (code_host' c s world)
          (limited_host' c s world)
        ≡ record {
          printed = Calm.negotiation_lines c s world ++ Calm.conclusion c s add;
          outcome = ok tt;
        }
  unfolding negotiate_all remember new_host code_prints print_negotiation_result step_lines
  negotiate_all_lem different (fits, small) (fits_c, small_c) (fits_l, small_l) =
      let asked_c =
        ask_lem w laws c add (requester_host' c s world) (code_host' c s world) world.intent_env_c
          our_id (peer_id world.libp2p_c) (profile_of (Calm.response_c c s world))
          (Calm.asked c s world) (Calm.code_reply c s world) code_not_refused (code_known different)
          code_answers code_reply_verifies fits (omega arith) small fits_c (omega arith) small_c in
      let asked_l =
        ask_lem w laws c add requester_host'' (limited_host' c s world) world.intent_env_l our_id
          (peer_id world.libp2p_l) (profile_of (Calm.response_l c s world)) (Calm.asked c s world)
          (Calm.limited_reply c s world) limited_not_refused
          (get-remember (Calm.tried_l s world).env.time (peer_id world.libp2p_l)
            (Calm.response_l c s world) (requester_host c s world))
          limited_answers limited_reply_verifies fits (omega arith) small fits_l (omega arith)
          small_l in
      rw
        (
          intent_created c s world pair_r.priv_size,
          heard_intent_lem w laws c add our_id (code_host' c s world) (Calm.asked c s world) fits
              (omega arith) small code_not_refused,
          asked_c,
          asked_l,
          conclude_lem c s w add world requester_host''' pair_r.priv_size pair_c.priv_size
              final_lem,
        )
        refl
