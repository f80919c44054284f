-- ===== src/Examples/NegotiationDemo/Completes.antt =====
-- examples/negotiation-demo/main.go: the run of the program where at most the
-- first attempts at the handshakes fail, each at Connect.
use agent_semantic_protocol.Common.{
  ◌≡◌, ◌≢◌, refl, Option, none, some, [], ◌∷◌, ◌++◌, Bytes, codes, bytes_eq_iff, arith,
}
use agent_semantic_protocol.Common.Outcome.{Error, ok}
use agent_semantic_protocol.Wire.Float32.{Float32}
use agent_semantic_protocol.Wire.Protowire.{Protowire, IsProtowire}
use agent_semantic_protocol.Did.{did_from_key, new_did}
use agent_semantic_protocol.Did.Packages.{Crypto, IsCrypto, IsKeyPair}
use agent_semantic_protocol.Agent.{new_agent}
use agent_semantic_protocol.Host.{remember, new_host}
use agent_semantic_protocol.Host.Callbacks.{on_intent}
use agent_semantic_protocol.Host.Libp2p.{peer_id, addr_info, open_host, connect}
use agent_semantic_protocol.Examples.NegotiationDemo.{
  Attempt, World, retry_info, connect_all, shake_hands, banner, main, requester_caps, code_caps,
  limited_caps,
}
use agent_semantic_protocol.Examples.NegotiationDemo.Shakes.{
  FitsHandshake, tried, shaken_line, shake_hands_lem,
}
use agent_semantic_protocol.Examples.NegotiationDemo.Calm
use agent_semantic_protocol.Examples.NegotiationDemo.Calm.{
  Seeds, calm, FitsIntent, FitsResponse, with_nonces,
}
use agent_semantic_protocol.Examples.NegotiationDemo.Hosts.{
  code_host, code_host', limited_host', requester_host, requester_host',
}
use agent_semantic_protocol.Examples.NegotiationDemo.Negotiates.{negotiate_all_lem}

tried-nonces :
    (refusal : Option Error) (nonce nonce' : Bytes) (first retry : Attempt)
    → (let try = tried refusal (with_nonces nonce nonce' first) (with_nonces nonce nonce' retry) in
        (try.env.nonce ≡ some nonce) × (try.handler_env.nonce ≡ some nonce'))
tried-nonces none nonce nonce' first retry = (refl, refl)
tried-nonces (some refusal) nonce nonce' first retry = (refl, refl)

module _ (w : Protowire) (laws : IsProtowire w) (c : Crypto) (crypto_laws : IsCrypto c)
    (add : Float32 → Float32 → Float32) (s : Seeds) (world : World)
    (pair_r : IsKeyPair c s.key_r s.priv_r) (pair_c : IsKeyPair c s.key_c s.priv_c)
    (pair_l : IsKeyPair c s.key_l s.priv_l) where
  abbrev our_id : Bytes
  our_id = peer_id world.libp2p_r

  retried_c : (retry_info (calm s world) (peer_id world.libp2p_c)).id ≡ peer_id world.libp2p_c
  unfolding retry_info addr_info peer_id
  retried_c = ground (arith, bytes_eq_iff world.libp2p_c.id world.libp2p_c.id)

  retried_l : (retry_info (calm s world) (peer_id world.libp2p_l)).id ≡ peer_id world.libp2p_l
  unfolding retry_info addr_info peer_id
  retried_l = ground (arith, bytes_eq_iff world.libp2p_l.id world.libp2p_c.id)

  code_shaken :
      FitsHandshake w (Calm.greeting_c c s world)
      → FitsHandshake w (Calm.response_c c s world)
      → shake_hands w c add our_id
          (retry_info (calm s world))
          (calm s world).first_c
          (calm s world).retry_c
          (peer_id world.libp2p_c)
          (code_host c s world)
          (new_host (Calm.requester c s))
        ≡ record {
          printed = shaken_line (Calm.response_c c s world) ∷ [];
          outcome = ok ((code_host' c s world), (requester_host c s world));
        }
  unfolding new_agent new_did did_from_key new_host on_intent
  code_shaken fits fits' =
      let (drawn, drawn') =
        tried-nonces s.refusal_c s.nonce_c s.nonce_c' world.first_c world.retry_c in
      shake_hands_lem w laws c crypto_laws add s.key_r s.priv_r (codes "requester") s.key_c s.priv_c
        (codes "code-agent") requester_caps code_caps s.refusal_c (new_host (Calm.requester c s))
        (code_host c s world) (with_nonces s.nonce_c s.nonce_c' world.first_c)
        (with_nonces s.nonce_c s.nonce_c' world.retry_c) s.nonce_c s.nonce_c' our_id
        (peer_id world.libp2p_c) (retry_info (calm s world)) (Calm.greeting_c c s world)
        (Calm.response_c c s world) retried_c pair_r pair_c refl refl drawn drawn' refl refl refl
        fits fits'

  limited_shaken :
      FitsHandshake w (Calm.greeting_l c s world)
      → FitsHandshake w (Calm.response_l c s world)
      → shake_hands w c add our_id
          (retry_info (calm s world))
          (calm s world).first_l
          (calm s world).retry_l
          (peer_id world.libp2p_l)
          (new_host (Calm.limited_agent c s))
          (requester_host c s world)
        ≡ record {
          printed = shaken_line (Calm.response_l c s world) ∷ [];
          outcome = ok ((limited_host' c s world), (requester_host' c s world));
        }
  unfolding new_agent new_did did_from_key new_host remember
  limited_shaken fits fits' =
      let (drawn, drawn') =
        tried-nonces s.refusal_l s.nonce_l s.nonce_l' world.first_l world.retry_l in
      shake_hands_lem w laws c crypto_laws add s.key_r s.priv_r (codes "requester") s.key_l s.priv_l
        (codes "limited-agent") requester_caps limited_caps s.refusal_l (requester_host c s world)
        (new_host (Calm.limited_agent c s)) (with_nonces s.nonce_l s.nonce_l' world.first_l)
        (with_nonces s.nonce_l s.nonce_l' world.retry_l) s.nonce_l s.nonce_l' our_id
        (peer_id world.libp2p_l) (retry_info (calm s world)) (Calm.greeting_l c s world)
        (Calm.response_l c s world) retried_l pair_r pair_l refl refl drawn drawn' refl refl refl
        fits fits'

  -- The program runs to its end, if the three key pairs, the nonces and the ids of the intents are
  -- generated, libp2p gives the two peers different ids and reports no error but, for either peer,
  -- one of `Connect` at the first attempt at the handshake, the streams of the handshakes and of
  -- the intents open, and each message fits a frame with fields that are values of their Go types.
  -- It shakes hands with both peers; the code agent hears the intent and accepts it with the five
  -- detailed steps, the limited agent rejects it for the two capabilities that it lacks; the trust
  -- scores are those of one delta for each answer; and the code agent's handler on the bus accepts
  -- the local intent with the plain workflow.
  pub negotiation_demo_completes :
      peer_id world.libp2p_l ≢ peer_id world.libp2p_c
      → FitsHandshake w (Calm.greeting_c c s world)
      → FitsHandshake w (Calm.response_c c s world)
      → FitsHandshake w (Calm.greeting_l c s world)
      → FitsHandshake w (Calm.response_l c s world)
      → FitsIntent w (Calm.asked c s world)
      → FitsResponse w (Calm.code_reply c s world)
      → FitsResponse w (Calm.limited_reply c s world)
      → main w c add (calm s world) ≡ record {
        printed =
            banner
            ++ Calm.handshake_lines c s
            ++ Calm.negotiation_lines c s world
            ++ Calm.conclusion c s add;
        outcome = ok tt;
      }
  unfolding main new_agent new_did did_from_key open_host connect_all connect on_intent
  negotiation_demo_completes different gc rc gl rl fits fits_c fits_l =
      rw
        (
          code_shaken gc rc,
          limited_shaken gl rl,
          negotiate_all_lem w laws c add s world pair_r pair_c pair_l different fits fits_c fits_l,
        )
        refl
