-- ===== src/Examples/NegotiationDemo/Shakes.antt =====
-- examples/negotiation-demo/main.go: a handshake that succeeds at the first attempt, and an intent
-- that is answered.
use agent_semantic_protocol.Common.{
  ◌+◌, ◌≤◌, ◌≡◌, ◌≢◌, refl, ap, ◌∙◌, true, false, Option, none, some, List, [], ◌∷◌, Bytes, length,
}
use agent_semantic_protocol.Common.Outcome.{Error, ok, err, wrap}
use agent_semantic_protocol.Wire.Float32.{Float32, sign_bit}
use agent_semantic_protocol.Wire.Maps.{get}
use agent_semantic_protocol.Wire.Protowire.{Protowire, IsProtowire}
use agent_semantic_protocol.Messages.Types.{HandshakeMessage, IntentMessage, NegotiationResponse}
use agent_semantic_protocol.Messages.Handshake
use agent_semantic_protocol.Messages.Handshake.RoundTrip.{IsGoHandshake}
use agent_semantic_protocol.Messages.Intent
use agent_semantic_protocol.Messages.Intent.RoundTrip.{IsGoIntent, decode-encode_intent}
use agent_semantic_protocol.Messages.Negotiation
use agent_semantic_protocol.Messages.Negotiation.RoundTrip.{IsGoResponse}
use agent_semantic_protocol.Messages.Message.{handshake, intent, negotiation, msg_type, encode}
use agent_semantic_protocol.Did.{to_string}
use agent_semantic_protocol.Did.Packages.{Crypto, IsCrypto, IsKeyPair}
use agent_semantic_protocol.Agent.{new_agent}
use agent_semantic_protocol.Handshake.{new_handshake_result}
use agent_semantic_protocol.Handshake.Accept.{answer}
use agent_semantic_protocol.Handshake.Honest.{opening}
use agent_semantic_protocol.Trust.{apply}
use agent_semantic_protocol.Discovery.{AgentProfile}
use agent_semantic_protocol.Negotiation.{verify_intent_signature, verify_response_signature}
use agent_semantic_protocol.Stream.{write_msg, max_length}
use agent_semantic_protocol.Stream.RoundTrip.{read_msg-write_msg}
use agent_semantic_protocol.Host.{
  AgentHost, Readings, called, refused, remember, handle_stream, send_intent,
}
use agent_semantic_protocol.Host.Exchange.{hosts_handshake}
use agent_semantic_protocol.Host.Negotiate.{decoded, reply_to, hosts_answer}
use agent_semantic_protocol.Host.Libp2p.{AddrInfo}
use agent_semantic_protocol.Orchestrator.Discover.{discover_and_handshake}
use agent_semantic_protocol.Examples.Output.{Line, text, texts, line}
use agent_semantic_protocol.Examples.Streams.{
  across, greeting, heard_intent, across_served, greeting_lem,
}
use agent_semantic_protocol.Examples.NegotiationDemo.{
  Attempt, attempt_once, or_retry, shake_hands, ask,
}

-- An attempt in which libp2p reports no error.
abbrev pub calm_attempt : Attempt → Attempt
calm_attempt try = record try { dial = λ info. none; opens = true }

-- The attempt that succeeds, where `refusal` is the error of `Connect` at the first one.
abbrev pub tried : Option Error → Attempt → Attempt → Attempt
tried none first retry = first
tried (some refusal) first retry = retry

-- A first attempt with that error.
abbrev pub first_attempt : Option Error → Attempt → Attempt
first_attempt refusal try = record try { dial = λ info. refusal; opens = true }

abbrev pub shaken_line : HandshakeMessage → Line
shaken_line response =
    line "  ✓ Handshook %s  caps=%v\n" (text response.agent_id ∷ texts response.capabilities ∷ [])

-- A message that fits a frame, with fields that are values of their Go types.
abbrev pub FitsHandshake : Protowire → HandshakeMessage → Type 0
FitsHandshake w m = IsGoHandshake m × (1 + length (Handshake.encode w m) ≤ max_length)

module _ (w : Protowire) (wire_laws : IsProtowire w) (c : Crypto) (laws : IsCrypto c)
    (add : Float32 → Float32 → Float32) (key priv id key' priv' id' : Bytes)
    (caps caps' : List Bytes) where
  attempt_lem :
      (ah bh : AgentHost) (try : Attempt) (nonce nonce' our_id : Bytes) (info : AddrInfo)
      (ours response : HandshakeMessage)
      → IsKeyPair c key priv
      → IsKeyPair c key' priv'
      → new_agent c (some (key, priv)) id caps ≡ ok ah.agent
      → new_agent c (some (key', priv')) id' caps' ≡ ok bh.agent
      → try.env.nonce ≡ some nonce
      → try.handler_env.nonce ≡ some nonce'
      → called bh.on_handshake our_id ours ≡ ok none
      → opening ah.agent nonce try.env.stamp ≡ ours
      → answer c bh.agent nonce' (c.ed25519_sign priv' nonce) try.handler_env.stamp ≡ response
      → FitsHandshake w ours
      → FitsHandshake w response
      → attempt_once w c add our_id (calm_attempt try) info bh ah
        ≡ ok (
          remember try.handler_env.time our_id ours bh,
          ok (remember try.env.time info.id response ah, new_handshake_result response try.now),
        )
  unfolding attempt_once discover_and_handshake
  attempt_lem ah bh try nonce nonce' our_id info ours response hp hp' ha hb hn hn' no_callback eo er
        (fits, small) (fits', small') =
      let (replied, shaken) =
        hosts_handshake w wire_laws c laws add key priv id key' priv' id' caps caps' ah bh try.env
          try.handler_env nonce nonce' our_id info.id ours response hp hp' ha hb hn hn' no_callback
          eo er fits fits' small small' in
      let greeted : greeting w try.env ah ≡ ok (write_msg w (handshake ours) []) =
        greeting_lem w try.env nonce ah hn ∙ ap (λ m. ok (write_msg w (handshake m) [])) eo in
      let served =
        across_served (greeting w try.env ah)
          (λ input. handle_stream w c add try.handler_env our_id input bh)
          (λ peer. discover_and_handshake w c try.env none info.id peer try.now ah) bh
          (remember try.handler_env.time our_id ours bh) (write_msg w (handshake ours) [])
          (write_msg w (handshake response) []) greeted replied in
      rw (served, shaken) refl

  connect_refused :
      (ah bh : AgentHost) (try : Attempt) (our_id : Bytes) (refusal : Error) (info : AddrInfo)
      → attempt_once w c add our_id (first_attempt (some refusal) try) info bh ah
        ≡ ok (bh, err (wrap "discover: connect: %w" refusal))
  unfolding attempt_once across discover_and_handshake
  connect_refused ah bh try our_id refusal info = refl

  -- The handshake succeeds at the first attempt, or, where `Connect` refuses that one, at the retry.
  pub shake_hands_lem :
      (refusal : Option Error) (ah bh : AgentHost) (first retry : Attempt)
      (nonce nonce' our_id pid : Bytes) (info_of : Bytes → AddrInfo)
      (ours response : HandshakeMessage)
      → (info_of pid).id ≡ pid
      → IsKeyPair c key priv
      → IsKeyPair c key' priv'
      → new_agent c (some (key, priv)) id caps ≡ ok ah.agent
      → new_agent c (some (key', priv')) id' caps' ≡ ok bh.agent
      → (tried refusal first retry).env.nonce ≡ some nonce
      → (tried refusal first retry).handler_env.nonce ≡ some nonce'
      → called bh.on_handshake our_id ours ≡ ok none
      → opening ah.agent nonce (tried refusal first retry).env.stamp ≡ ours
      → answer c bh.agent nonce'
          (c.ed25519_sign priv' nonce)
          (tried refusal first retry).handler_env.stamp
        ≡ response
      → FitsHandshake w ours
      → FitsHandshake w response
      → shake_hands w c add our_id info_of
          (first_attempt refusal first)
          (calm_attempt retry)
          pid
          bh
          ah
        ≡ record {
          printed = shaken_line response ∷ [];
          outcome = ok (
            remember (tried refusal first retry).handler_env.time our_id ours bh,
            remember (tried refusal first retry).env.time pid response ah,
          );
        }
  unfolding shake_hands or_retry new_handshake_result
  shake_hands_lem none ah bh first retry nonce nonce' our_id pid info_of ours response named hp hp'
        ha hb hn hn' no_callback eo er fits fits' =
      rw
        (attempt_lem ah bh first nonce nonce' our_id (record { id = pid; addrs = [] }) ours response
          hp hp' ha hb hn hn' no_callback eo er fits fits')
        refl
  shake_hands_lem (some refusal) ah bh first retry nonce nonce' our_id pid info_of ours response
        named hp hp' ha hb hn hn' no_callback eo er fits fits' =
      let refused : attempt_once w c add our_id (first_attempt (some refusal) first)
            (record { id = pid; addrs = [] }) bh ah
          ≡ ok (bh, err (wrap "discover: connect: %w" refusal)) =
        connect_refused ah bh first our_id refusal _ in
      rw
        (
          refused,
          attempt_lem ah bh retry nonce nonce' our_id (info_of pid) ours response hp hp' ha hb hn
              hn' no_callback eo er fits fits',
          named,
        )
        refl

module _ (w : Protowire) (laws : IsProtowire w) (c : Crypto)
    (add : Float32 → Float32 → Float32) where
  pub heard_intent_lem :
      (our_id : Bytes) (bh : AgentHost) (m : IntentMessage)
      → IsGoIntent w m
      → m.trust_score ≢ sign_bit
      → 1 + length (Intent.encode w m) ≤ max_length
      → refused (get our_id bh.known) m.signature (λ k. verify_intent_signature c m k) ≡ ok false
      → heard_intent w c our_id (ok (write_msg w (intent m) [])) bh ≡ ok (decoded m)
  unfolding heard_intent msg_type encode verify_intent_signature
  heard_intent_lem our_id bh m fits hz small fine =
      rw (read_msg-write_msg w (intent m) small, decode-encode_intent w laws m fits hz, fine) refl

  pub ask_lem :
      (ah bh : AgentHost) (env' : Readings) (our_id target : Bytes) (profile : AgentProfile)
      (m : IntentMessage) (resp : NegotiationResponse)
      → refused (get our_id bh.known) m.signature (λ k. verify_intent_signature c m k) ≡ ok false
      → get target ah.known ≡ some profile
      → reply_to c env' our_id m bh ≡ ok resp
      → verify_response_signature c resp profile.public_key ≡ ok true
      → IsGoIntent w m
      → m.trust_score ≢ sign_bit
      → 1 + length (Intent.encode w m) ≤ max_length
      → IsGoResponse resp
      → resp.trust_delta ≢ sign_bit
      → 1 + length (Negotiation.encode w resp) ≤ max_length
      → ask w c add our_id true env' target m bh ah
        ≡ ok (
          record bh { trust = apply add (to_string bh.agent.did) m.did resp.trust_delta bh.trust },
          ok (
            record ah {
              trust = apply add (to_string ah.agent.did) resp.did resp.trust_delta ah.trust;
            },
            resp,
          ),
        )
  unfolding ask
  ask_lem ah bh env' our_id target profile m resp fine known replied valid fits hz small fits' hz'
        small' =
      let (handled, sent) =
        hosts_answer w laws c add ah bh env' our_id target profile m resp fine known replied valid
          fits hz small fits' hz' small' in
      let served =
        across_served (ok (write_msg w (intent m) []))
          (λ input. handle_stream w c add env' our_id input bh)
          (λ peer. send_intent w c add target peer m ah) bh _ (write_msg w (intent m) [])
          (write_msg w (negotiation resp) []) refl handled in
      rw (served, sent) refl
