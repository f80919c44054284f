-- ===== src/Orchestrator/Discover.antt =====
-- p2p/protocol.go: `DiscoverAndHandshake`, and what it leaves in the registry.
use agent_semantic_protocol.Common.{ℕ, ◌≤◌, ◌≡◌, sym, ap, ◌∙◌, Option, none, some, List, Bytes, All}
use mathlib.Core.Path.{subst}
use agent_semantic_protocol.Common.Int64.{ℤ, pos}
use agent_semantic_protocol.Common.Outcome.{
  Error, Result, ok, err, wrap, ◌>>=◌, wrapping, bind-eq_ok, wrapping-eq_ok,
}
use agent_semantic_protocol.Wire.Float32.{Float32}
use agent_semantic_protocol.Wire.Maps.{get, get-put_self}
use agent_semantic_protocol.Wire.Protowire.{Protowire}
use agent_semantic_protocol.Messages.Types.{HandshakeMessage}
use agent_semantic_protocol.Did.Packages.{Crypto}
use agent_semantic_protocol.Handshake.{HandshakeResult, new_handshake_result}
use agent_semantic_protocol.Capability.Sets.{Offers}
use agent_semantic_protocol.Discovery.{Time, AgentProfile, announce, find_by_capability}
use agent_semantic_protocol.Discovery.Expiry.{entry, never_expires}
use agent_semantic_protocol.Discovery.Find.{Lists, find_by_capability_complete}
use agent_semantic_protocol.Host.{
  AgentHost, Readings, Peer, profile_of, remember, request_handshake,
}
use agent_semantic_protocol.Host.Requests.{get-remember, ok_injective}
use agent_semantic_protocol.Host.Reachable.{request_handshake-remember}
use agent_semantic_protocol.Host.Announce.{get-Holds}

-- `refusal` is the error of `Connect`, and `now` the time that `NewHandshakeResult` reads.
unfoldable pub discover_and_handshake :
    Protowire
    → Crypto
    → Readings
    → Option Error
    → Bytes
    → Peer
    → ℤ
    → AgentHost
    → Result (AgentHost × HandshakeResult)
discover_and_handshake w c env (some refusal) peer_id peer now ah =
    err (wrap "discover: connect: %w" refusal)
discover_and_handshake w c env none peer_id peer now ah = do
  (ah', resp) ← wrapping "discover: handshake: %w" (request_handshake w c env peer_id peer ah)
  ok (ah', new_handshake_result resp now)

-- A profile that a handshake announced is found, at any time.
remember-Lists :
    (now : Time) (peer_id : Bytes) (m : HandshakeMessage) (ah : AgentHost) (clock : ℕ → Time)
    (until : Time) (required : List Bytes)
    → ((i : ℕ) → clock i ≤ until)
    → All (Offers m.capabilities) required
    → Lists (find_by_capability clock required (remember now peer_id m ah).discovery) (profile_of m)
unfolding remember announce
remember-Lists now peer_id m ah clock until required soon offers =
    let e = entry (profile_of m) now (pos 0) in
    find_by_capability_complete clock until required _ e soon
      (get-Holds m.agent_id _ e (get-put_self m.agent_id e ah.discovery))
      ((never_expires (profile_of m) now until 0).0) offers

module _ (w : Protowire) (c : Crypto) (add : Float32 → Float32 → Float32) where
  -- A handshake that succeeds registers the peer without expiry: the result has the peer's id,
  -- identifier, capabilities and public key as they are cached under its peer id, and each search of
  -- the registry as the handshake leaves it, for capabilities that the result names, finds that
  -- profile, however late the search is.
  pub discover_and_handshake_lem :
      (env : Readings) (refusal : Option Error) (peer_id : Bytes) (peer : Peer) (now : ℤ)
      (ah ah' : AgentHost) (r : HandshakeResult) (clock : ℕ → Time) (until : Time)
      (required : List Bytes)
      → discover_and_handshake w c env refusal peer_id peer now ah ≡ ok (ah', r)
      → ((i : ℕ) → clock i ≤ until)
      → All (Offers r.peer_capabilities) required
      → (p : AgentProfile) × ((get peer_id ah'.known ≡ some p)
          × (p.agent_id ≡ r.peer_agent_id)
          × (p.did ≡ r.peer_did)
          × (p.capabilities ≡ r.peer_capabilities)
          × (p.public_key ≡ r.peer_public_key)
          × Lists (find_by_capability clock required ah'.discovery) p)
  unfolding discover_and_handshake new_handshake_result
  discover_and_handshake_lem env (some e) peer_id peer now ah ah' r clock until required h soon
        offers =
      absurd (cc)
  discover_and_handshake_lem env none peer_id peer now ah ah' r clock until required h soon offers =
      let ((host, resp), shaken, h1) =
        bind-eq_ok (wrapping _ (request_handshake w c env peer_id peer ah)) _ (ah', r) h in
      let shaken' =
        wrapping-eq_ok _ (request_handshake w c env peer_id peer ah) (host, resp) shaken in
      let result = ok_injective (host, new_handshake_result resp now) (ah', r) h1 in
      let same_r : new_handshake_result resp now ≡ r =
        ap (λ (x : AgentHost × HandshakeResult). x.1) result in
      let same : remember env.time peer_id resp ah ≡ ah' =
        request_handshake-remember w c add env peer_id peer ah host resp shaken'
        ∙ ap (λ (x : AgentHost × HandshakeResult). x.0) result in
      (
        profile_of resp,
        (
          subst (λ x. get peer_id x.known ≡ some (profile_of resp)) same
              (get-remember env.time peer_id resp ah),
          ap (λ x. x.peer_agent_id) same_r,
          ap (λ x. x.peer_did) same_r,
          ap (λ x. x.peer_capabilities) same_r,
          ap (λ x. x.peer_public_key) same_r,
          subst (λ x. Lists (find_by_capability clock required x.discovery) (profile_of resp)) same
              (remember-Lists env.time peer_id resp ah clock until required soon
                (subst (λ x. All (Offers x.peer_capabilities) required) (sym same_r) offers)),
        ),
      )
