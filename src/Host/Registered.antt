-- ===== src/Host/Registered.antt =====
-- p2p/host.go: known peers and the registry.
use agent_semantic_protocol.Common.{
  ◌≡◌, ◌≢◌, ap, Bool, true, false, none, some, Bytes, if◌then◌else◌, ◌==◌, bytes_eq, Bool-cases,
  inl, inr, ◌⊎◌, bytes_eq_iff,
}
use agent_semantic_protocol.Common.Int64.{ℤ, pos}
use agent_semantic_protocol.Common.Outcome.{Result, ok, err, panic, stuck}
use agent_semantic_protocol.Wire.Float32.{Float32}
use agent_semantic_protocol.Wire.Maps.{get, get-put}
use agent_semantic_protocol.Wire.Protowire.{Protowire}
use agent_semantic_protocol.Messages.Types.{
  HandshakeMessage, msg_handshake, msg_intent, msg_capability,
}
use agent_semantic_protocol.Did.Packages.{Crypto}
use agent_semantic_protocol.Discovery.{
  Time, AgentProfile, Registry, announce, announce_from_message,
}
use agent_semantic_protocol.Host.{
  AgentHost, Readings, remember, or_return, handle_incoming_handshake, handle_incoming_intent,
  handle_incoming_capability, handle_stream, profile_of,
}

-- The registry has an entry for the agent of every known peer.
abbrev pub IsRegistered : AgentHost → Type 0
IsRegistered ah =
    (peer_id : Bytes) (p : AgentProfile)
    → get peer_id ah.known ≡ some p
    → get p.agent_id ah.discovery ≢ none

-- An announcement removes no entry.
announce_keeps :
    (now : Time) (p : AgentProfile) (ttl : ℤ) (id : Bytes) (entries : Registry)
    → (get id entries ≢ none) ⊎ (p.agent_id ≡ id)
    → get id (announce now p ttl entries) ≢ none
unfolding announce
announce_keeps now p ttl id entries h = elim (Bool-cases (bytes_eq p.agent_id id)) [
  | inl same ↦ rw (get-put, same) (λ e. cc)
  | inr other ↦ rw (get-put, other) (there other h)
]
  where
    there :
        bytes_eq p.agent_id id ≡ false
        → (get id entries ≢ none) ⊎ (p.agent_id ≡ id)
        → get id entries ≢ none
    there other (inl kept) = kept
    there other (inr eq) = absurd (cc (other, (bytes_eq_iff p.agent_id id).1 eq))

some_injective : (a b : AgentProfile) → some a ≡ some b → a ≡ b
some_injective a b e = cc

pub remember-IsRegistered :
    (now : Time) (peer_id : Bytes) (m : HandshakeMessage) (ah : AgentHost)
    → IsRegistered ah
    → IsRegistered (remember now peer_id m ah)
unfolding remember
remember-IsRegistered now peer_id m ah h peer p e = elim (Bool-cases (bytes_eq peer_id peer)) [
  | inl same ↦
      let found : some (profile_of m) ≡ some p = rw (get-put, same) at e in
      announce_keeps now (profile_of m) (pos 0) p.agent_id ah.discovery
        (inr (ap (λ (x : AgentProfile). x.agent_id) (some_injective (profile_of m) p found)))
  | inr other ↦
      let found : get peer ah.known ≡ some p = rw (get-put, other) at e in
      announce_keeps now (profile_of m) (pos 0) p.agent_id ah.discovery (inl (h peer p found))
]

-- What holds of the host that a handler leaves behind, if it does not panic.
abbrev pub Leaves : (AgentHost → Type 0) → Result (AgentHost × Bytes) → Type 0
Leaves P (ok out) = P out.0
Leaves P _ = Unit

module _ (P : AgentHost → Type 0) (ah : AgentHost) (h : P ah) where
  pub or_return-Leaves {ℓ} :
      {A : Type ℓ} (r : Result A) (k : A → Result (AgentHost × Bytes))
      → ((a : A) → Leaves P (k a))
      → Leaves P (or_return ah r k)
  unfolding or_return
  or_return-Leaves (ok a) k hk = hk a
  or_return-Leaves (err e) k hk = h
  or_return-Leaves panic k hk = tt
  or_return-Leaves stuck k hk = tt

  pub Leaves-if :
      (b : Bool) (r s : Result (AgentHost × Bytes))
      → Leaves P r
      → Leaves P s
      → Leaves P (if b then r else s)
  Leaves-if true r s hr hs = hr
  Leaves-if false r s hr hs = hs

module _ (w : Protowire) (c : Crypto) (env : Readings) where
  handshake-IsRegistered :
      (peer_id b : Bytes) (ah : AgentHost)
      → IsRegistered ah
      → Leaves IsRegistered (handle_incoming_handshake w c env peer_id b ah)
  unfolding handle_incoming_handshake
  handshake-IsRegistered peer_id b ah h = or_return-Leaves IsRegistered ah h _ _ (λ incoming.
      or_return-Leaves IsRegistered ah h _ _
        (λ resp. remember-IsRegistered env.time peer_id incoming ah h))

  capability-IsRegistered :
      (b : Bytes) (ah : AgentHost)
      → IsRegistered ah
      → Leaves IsRegistered (handle_incoming_capability w env b ah)
  unfolding handle_incoming_capability announce_from_message
  capability-IsRegistered b ah h = or_return-Leaves IsRegistered ah h _ _ (λ ann peer p found.
      announce_keeps env.time _ ann.ttl p.agent_id ah.discovery (inl (h peer p found)))

  intent-IsRegistered :
      (add : Float32 → Float32 → Float32) (peer_id b : Bytes) (ah : AgentHost)
      → IsRegistered ah
      → Leaves IsRegistered (handle_incoming_intent w c add env peer_id b ah)
  unfolding handle_incoming_intent
  intent-IsRegistered add peer_id b ah h = or_return-Leaves IsRegistered ah h _ _ (λ m.
      or_return-Leaves IsRegistered ah h _ _ (λ refuse.
        Leaves-if IsRegistered ah h refuse _ _ h
          (or_return-Leaves IsRegistered ah h _ _ (λ resp. h))))

  -- Every known peer stays registered: if the registry has an entry for the agent of each known
  -- peer, so it has after a stream was handled without a
  -- panic, whatever the stream holds.
  pub handle_stream-IsRegistered :
      (add : Float32 → Float32 → Float32) (peer_id input : Bytes) (ah : AgentHost)
      → IsRegistered ah
      → Leaves IsRegistered (handle_stream w c add env peer_id input ah)
  unfolding handle_stream
  handle_stream-IsRegistered add peer_id input ah h =
      or_return-Leaves IsRegistered ah h _ _ (λ (msg_type, b, rest).
        Leaves-if IsRegistered ah h (msg_type == msg_handshake) _ _
          (handshake-IsRegistered peer_id b ah h)
          (Leaves-if IsRegistered ah h (msg_type == msg_intent) _ _
            (intent-IsRegistered add peer_id b ah h)
            (Leaves-if IsRegistered ah h (msg_type == msg_capability) _ _
              (capability-IsRegistered b ah h) h)))
