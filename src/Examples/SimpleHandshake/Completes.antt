-- ===== src/Examples/SimpleHandshake/Completes.antt =====
-- examples/simple-handshake/main.go: the run of the program where nothing fails.
use agent_semantic_protocol.Common.{
  ℕ, ◌+◌, ◌≤◌, ◌≡◌, refl, ap, ◌∙◌, true, none, some, List, [], ◌∷◌, ◌++◌, Bytes, codes, length,
  drop, bytes_eq,
}
use mathlib.Core.Path.{subst}
use agent_semantic_protocol.Common.Outcome.{ok}
use agent_semantic_protocol.Wire.Float32.{Float32}
use agent_semantic_protocol.Wire.Maps.{get, put}
use agent_semantic_protocol.Wire.Protowire.{Protowire, IsProtowire}
use agent_semantic_protocol.Messages.Types.{HandshakeMessage, protocol_version}
use agent_semantic_protocol.Messages.Handshake
use agent_semantic_protocol.Messages.Handshake.RoundTrip.{IsGoHandshake, decode-encode_handshake}
use agent_semantic_protocol.Messages.Message.{handshake}
use agent_semantic_protocol.Did.{did_from_key, new_did, to_string}
use agent_semantic_protocol.Did.Packages.{Crypto, IsCrypto, IsKeyPair}
use agent_semantic_protocol.Agent.{Agent, new_agent}
use agent_semantic_protocol.Handshake.Accept.{answer}
use agent_semantic_protocol.Handshake.Honest.{opening}
use agent_semantic_protocol.Capability.{has_all, has_all_loop, have_loop, has}
use agent_semantic_protocol.Discovery.{
  Time, find_by_capability, find_by_capability_loop, all_profiles, all_loop, is_expired, announce,
  expiry, new_discovery_registry,
}
use agent_semantic_protocol.Stream.{write_msg, max_length}
use agent_semantic_protocol.Host.{
  AgentHost, Readings, new_host, remember, handle_stream, request_handshake,
}
use agent_semantic_protocol.Host.Callbacks.{on_handshake}
use agent_semantic_protocol.Host.Exchange.{hosts_handshake}
use agent_semantic_protocol.Host.Requests.{read_written}
use agent_semantic_protocol.Host.Libp2p.{Libp2p, open_host, peer_id, connect}
use agent_semantic_protocol.Examples.Output.{Line, text, texts, number, line}
use agent_semantic_protocol.Examples.Streams.{
  agent_of, greeting, heard_handshake, across_served, greeting_lem,
}
use agent_semantic_protocol.Examples.SimpleHandshake.{
  World, banner, started, alpha_caps, beta_caps, needed, beta_callback, report, main,
}

module _ (w : Protowire) (wire_laws : IsProtowire w) where
  -- The handshake message that is heard is the one that was sent.
  pub heard_handshake_lem :
      (m : HandshakeMessage)
      → IsGoHandshake m
      → 1 + length (Handshake.encode w m) ≤ max_length
      → heard_handshake w (ok (write_msg w (handshake m) [])) ≡ ok m
  unfolding heard_handshake
  heard_handshake_lem m fits small =
      rw (read_written w m small, decode-encode_handshake w wire_laws m fits) refl

module _ (c : Crypto) (key priv key' priv' : Bytes) where
  abbrev pub alpha : Agent
  alpha = agent_of c key priv (codes "agent-alpha") alpha_caps

  abbrev pub beta : Agent
  beta = agent_of c key' priv' (codes "agent-beta") beta_caps

  -- A world in which keys are generated and nothing fails.
  abbrev pub calm : Libp2p → Libp2p → Readings → Readings → (ℕ → Time) → (ℕ → Time) → World
  calm libp2p_a libp2p_b env_a env_b all_clock find_clock = record {
    keys_a = some (key, priv);
    keys_b = some (key', priv');
    failed_a = none;
    failed_b = none;
    libp2p_a = libp2p_a;
    libp2p_b = libp2p_b;
    dial = λ info. none;
    opens = true;
    env_a = env_a;
    env_b = env_b;
    all_clock = all_clock;
    find_clock = find_clock;
  }

  -- What is printed from the handshake on.
  abbrev pub epilogue : List Line
  epilogue =
      line "[Beta] ← Handshake from %q  caps=%v\n"
        (text (codes "agent-alpha") ∷ texts alpha_caps ∷ [])
      ∷ line "\n[Alpha] ✓ Handshake complete!\n" []
      ∷ line "  Peer agent ID  : %s\n" (text (codes "agent-beta") ∷ [])
      ∷ line "  Peer DID       : %s\n" (text (to_string beta.did) ∷ [])
      ∷ line "  Peer caps      : %v\n" (texts beta_caps ∷ [])
      ∷ line "  Protocol ver.  : %s\n" (text protocol_version ∷ [])
      ∷ line "\n── Discovery Registry (Alpha's view) ────────────────────────────────" []
      ∷ line "  • %s  did=%s  caps=%v\n"
          (text (codes "agent-beta") ∷ text (to_string beta.did) ∷ texts beta_caps ∷ [])
      ∷ line "\n  Agents with %v: %d found\n" (texts needed ∷ number 1 ∷ [])
      ∷ line "    → %s\n" (text (codes "agent-beta") ∷ [])
      ∷ line "\n✓ Demo complete." []
      ∷ []

  abbrev pub transcript : Libp2p → Libp2p → List Line
  transcript libp2p_a libp2p_b =
      banner
      ++ started "✓ Agent Alpha started\n" libp2p_a alpha
      ++ started "✓ Agent Beta started\n" libp2p_b beta
      ++ line "✓ TCP connection established (alpha→beta)" []
        ∷ line
            "\n── Performing Agent Semantic Protocol Handshake ─────────────────────────────────────"
            []
        ∷ epilogue

module _ (c : Crypto) (key priv key' priv' : Bytes) where
  -- What is printed after the handshake.
  report_lem :
      (libp2p_a libp2p_b : Libp2p) (env env' : Readings) (nonce' signature : Bytes)
      (all_clock find_clock : ℕ → Time) (resp : HandshakeMessage)
      → answer c (beta c key priv key' priv') nonce' signature env'.stamp ≡ resp
      → report
          (calm c key priv key' priv' libp2p_a libp2p_b env env' all_clock find_clock)
          (remember env.time (peer_id libp2p_b) resp (new_host (alpha c key priv key' priv')))
          resp
        ≡ record { printed = drop 1 (epilogue c key priv key' priv'); outcome = ok tt }
  unfolding report remember new_host all_profiles all_loop is_expired announce expiry
      new_discovery_registry find_by_capability find_by_capability_loop put get has_all has_all_loop
      have_loop has bytes_eq
  report_lem libp2p_a libp2p_b env env' nonce' signature all_clock find_clock resp e =
      subst
        (λ r.
          report (calm c key priv key' priv' libp2p_a libp2p_b env env' all_clock find_clock)
            (remember env.time (peer_id libp2p_b) r (new_host (alpha c key priv key' priv'))) r
          ≡ record { printed = drop 1 (epilogue c key priv key' priv'); outcome = ok tt })
        e refl

module _ (w : Protowire) (wire_laws : IsProtowire w) (c : Crypto) (laws : IsCrypto c)
    (add : Float32 → Float32 → Float32) (key priv key' priv' : Bytes) where
  -- The program runs to its end, if both key pairs are generated, each side has a nonce, libp2p
  -- reports no error, the stream opens, and the two handshake messages fit a frame with fields that
  -- are values of their Go types. It prints both agents, Alpha's identity as Beta's callback hears
  -- it, Beta's identity as Alpha learns it, Beta as the only profile of Alpha's registry, and Beta
  -- as the only agent with the needed capabilities, whatever the clock shows.
  pub simple_handshake_completes :
      (libp2p_a libp2p_b : Libp2p) (env env' : Readings) (nonce nonce' : Bytes)
      (all_clock find_clock : ℕ → Time) (ours response : HandshakeMessage)
      → IsKeyPair c key priv
      → IsKeyPair c key' priv'
      → env.nonce ≡ some nonce
      → env'.nonce ≡ some nonce'
      → opening (alpha c key priv key' priv') nonce env.stamp ≡ ours
      → answer c (beta c key priv key' priv') nonce' (c.ed25519_sign priv' nonce) env'.stamp
        ≡ response
      → IsGoHandshake ours
      → IsGoHandshake response
      → 1 + length (Handshake.encode w ours) ≤ max_length
      → 1 + length (Handshake.encode w response) ≤ max_length
      → main w c add (calm c key priv key' priv' libp2p_a libp2p_b env env' all_clock find_clock)
        ≡ record { printed = transcript c key priv key' priv' libp2p_a libp2p_b; outcome = ok tt }
  unfolding main new_agent new_did did_from_key open_host connect new_host on_handshake
      beta_callback
  simple_handshake_completes libp2p_a libp2p_b env env' nonce nonce' all_clock find_clock ours
        response hp hp' hn hn' eo er fits fits' small small' =
      let ah : AgentHost = new_host (alpha c key priv key' priv') in
      let bh : AgentHost =
        on_handshake (some beta_callback) (new_host (beta c key priv key' priv')) in
      let (replied, shaken) =
        hosts_handshake w wire_laws c laws add key priv (codes "agent-alpha") key' priv'
          (codes "agent-beta") alpha_caps beta_caps ah bh env env' nonce nonce' (peer_id libp2p_a)
          (peer_id libp2p_b) ours response hp hp' refl refl hn hn' refl eo er fits fits' small
          small' in
      let greeted : greeting w env ah ≡ ok (write_msg w (handshake ours) []) =
        greeting_lem w env nonce ah hn ∙ ap (λ m. ok (write_msg w (handshake m) [])) eo in
      let served =
        across_served (greeting w env ah)
          (λ input. handle_stream w c add env' (peer_id libp2p_a) input bh)
          (λ peer. request_handshake w c env (peer_id libp2p_b) peer ah) bh
          (remember env'.time (peer_id libp2p_a) ours bh) (write_msg w (handshake ours) [])
          (write_msg w (handshake response) []) greeted replied in
      rw
        (
          served,
          greeted,
          heard_handshake_lem w wire_laws ours fits small,
          shaken,
          report_lem c key priv key' priv' libp2p_a libp2p_b env env' nonce'
              (c.ed25519_sign priv' nonce) all_clock find_clock response er,
          ← eo,
        )
        refl
