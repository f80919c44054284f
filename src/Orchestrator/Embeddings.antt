-- ===== src/Orchestrator/Embeddings.antt =====
-- p2p/protocol.go and p2p/host.go: the embedding vectors that a ranking of peers finds.
use agent_semantic_protocol.Common.{
  ℕ, ◌≡◌, ◌⊎◌, inl, inr, refl, sym, ap, ◌∙◌, Bool, true, false, List, [], ◌∷◌, Bytes, bytes_eq,
  if◌then◌else◌, ◌==◌, arith,
}
use mathlib.Core.Path.{subst}
use agent_semantic_protocol.Common.Int64.{ℤ}
use agent_semantic_protocol.Wire.Float32.{Float32}
use agent_semantic_protocol.Wire.Maps.{put}
use agent_semantic_protocol.Wire.Protowire.{Protowire}
use agent_semantic_protocol.Messages.Types.{
  HandshakeMessage, msg_handshake, msg_intent, msg_capability,
}
use agent_semantic_protocol.Did.Packages.{Crypto}
use agent_semantic_protocol.Agent.{Agent}
use agent_semantic_protocol.Discovery.{
  Time, AgentProfile, RegistryEntry, Registry, new_discovery_registry, announce,
  announce_from_message, find_by_capability,
}
use agent_semantic_protocol.Discovery.Find.{Holds, Lists, find_by_capability_sound}
use agent_semantic_protocol.Ranking.{Double, cosine_similarity}
use agent_semantic_protocol.Ranking.Positions.{cosine_similarity-nil}
use agent_semantic_protocol.Host.{
  AgentHost, Readings, new_host, remember, profile_of, handle_stream, handle_incoming_handshake,
  handle_incoming_intent, handle_incoming_capability,
}
use agent_semantic_protocol.Host.Registered.{Leaves, or_return-Leaves, Leaves-if}
use agent_semantic_protocol.Host.Callbacks.{on_handshake, on_intent}
use agent_semantic_protocol.Host.Reachable.{
  Step, stream, shake, send, hook_handshake, hook_intent, Reach, start, later,
  request_handshake-remember, send_intent-apply,
}

-- No profile in the registry has an embedding vector.
abbrev pub IsPlain : AgentHost → Type 0
IsPlain ah = (e : RegistryEntry) → Holds ah.discovery e → e.profile.embedding_vector ≡ []

Holds-put :
    (k : Bytes) (v e : RegistryEntry) (m : Registry) → Holds (put k v m) e → (v ≡ e) ⊎ Holds m e
unfolding put
Holds-put k v e [] (inl same) = inl same
Holds-put k v e [] (inr h) = absurd h
Holds-put k v e ((j, u) ∷ m) h = one (bytes_eq j k) h (Holds-put k v e m)
  where
    one :
        (b : Bool)
        → Holds (if b then (j, v) ∷ m else (j, u) ∷ put k v m) e
        → (Holds (put k v m) e → (v ≡ e) ⊎ Holds m e)
        → (v ≡ e) ⊎ ((u ≡ e) ⊎ Holds m e)
    one true (inl same) rest = inl same
    one true (inr held) rest = inr (inr held)
    one false (inl same) rest = inr (inl same)
    one false (inr held) rest = elim (rest held) [ inl same ↦ inl same | inr old ↦ inr (inr old) ]

announce-IsPlain :
    (now : Time) (p : AgentProfile) (ttl : ℤ) (ah : AgentHost)
    → p.embedding_vector ≡ []
    → IsPlain ah
    → IsPlain (record ah { discovery = announce now p ttl ah.discovery })
unfolding announce
announce-IsPlain now p ttl ah empty h e held = elim (Holds-put p.agent_id _ e ah.discovery held) [
  | inl same ↦ subst (λ x. x.profile.embedding_vector ≡ []) same empty
  | inr before ↦ h e before
]

remember-IsPlain :
    (now : Time) (peer_id : Bytes) (m : HandshakeMessage) (ah : AgentHost)
    → IsPlain ah
    → IsPlain (remember now peer_id m ah)
unfolding remember
remember-IsPlain now peer_id m ah h = announce-IsPlain now (profile_of m) _ ah refl h

module _ (w : Protowire) (c : Crypto) (add : Float32 → Float32 → Float32) where
  handle_stream-IsPlain :
      (env : Readings) (peer_id input : Bytes) (ah : AgentHost)
      → IsPlain ah
      → Leaves IsPlain (handle_stream w c add env peer_id input ah)
  unfolding handle_stream handle_incoming_handshake handle_incoming_intent
      handle_incoming_capability announce_from_message
  handle_stream-IsPlain env peer_id input ah h =
      or_return-Leaves IsPlain ah h _ _ (λ (msg_type, b, rest).
        Leaves-if IsPlain ah h (msg_type == msg_handshake) _ _
          (or_return-Leaves IsPlain ah h _ _ (λ incoming.
            or_return-Leaves IsPlain ah h _ _
              (λ resp. remember-IsPlain env.time peer_id incoming ah h)))
          (Leaves-if IsPlain ah h (msg_type == msg_intent) _ _
            (or_return-Leaves IsPlain ah h _ _ (λ m. or_return-Leaves IsPlain ah h _ _ (λ refuse.
              Leaves-if IsPlain ah h refuse _ _ h (or_return-Leaves IsPlain ah h _ _ (λ resp. h)))))
            (Leaves-if IsPlain ah h (msg_type == msg_capability) _ _
              (or_return-Leaves IsPlain ah h _ _
                (λ ann. announce-IsPlain env.time _ ann.ttl ah refl h))
              h)))

  Step-IsPlain : (ah ah' : AgentHost) → IsPlain ah → Step w c add ah ah' → IsPlain ah'
  unfolding on_handshake on_intent
  Step-IsPlain ah ah' h (stream env peer_id input out e) =
      subst (λ r. Leaves IsPlain r) e (handle_stream-IsPlain env peer_id input ah h)
  Step-IsPlain ah ah' h (shake env peer_id peer resp e) =
      let same = request_handshake-remember w c add env peer_id peer ah ah' resp e in
      subst IsPlain same (remember-IsPlain env.time peer_id resp ah h)
  Step-IsPlain ah ah' h (send peer_id peer m resp e) =
      let (r, same) = send_intent-apply w c add peer_id peer m ah ah' resp e in subst IsPlain same h
  Step-IsPlain ah ah' h (hook_handshake callback) = h
  Step-IsPlain ah ah' h (hook_intent callback) = h

  new_host-IsPlain : (agent : Agent) → IsPlain (new_host agent)
  unfolding new_host new_discovery_registry
  new_host-IsPlain agent e h = absurd h

  reachable-IsPlain : (agent : Agent) (ah : AgentHost) → Reach w c add agent ah → IsPlain ah
  reachable-IsPlain agent ah start = new_host-IsPlain agent
  reachable-IsPlain agent ah (later reached step) =
      Step-IsPlain _ ah (reachable-IsPlain agent _ reached) step

  -- The ranking of a workflow step tells no two peers apart: on every host that handled streams and
  -- successful requests reach from a new one, each profile that a search returns has the similarity
  -- zero to every vector, since none of what peers send sets an embedding vector.
  pub reachable_similarity :
      {W : Type 0} (d : Double W) (agent : Agent) (ah : AgentHost) (clock : ℕ → Time)
      (required : List Bytes) (profile : AgentProfile) (v : List Float32)
      → Reach w c add agent ah
      → Lists (find_by_capability clock required ah.discovery) profile
      → cosine_similarity d v profile.embedding_vector ≡ d.nought
  reachable_similarity d agent ah clock required profile v reached listed =
      let (e, (held, (same, _, _))) =
        find_by_capability_sound clock 0 required ah.discovery profile (λ i. omega arith) listed in
      let empty : profile.embedding_vector ≡ [] =
        ap (λ p. p.embedding_vector) (sym same) ∙ reachable-IsPlain agent ah reached e held in
      ap (cosine_similarity d v) empty ∙ cosine_similarity-nil d v
