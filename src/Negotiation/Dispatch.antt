-- ===== src/Negotiation/Dispatch.antt =====
-- core/negotiation.go: the in-process bus.
use agent_semantic_protocol.Common.{
  ◌≡◌, ◌∙◌, refl, Option, none, some, List, [], ◌∷◌, Bytes, bytes_eq, if◌then◌else◌,
}
use agent_semantic_protocol.Wire.Maps.{get, put, get-put}
use agent_semantic_protocol.Messages.Types.{IntentMessage}
use agent_semantic_protocol.Negotiation.{
  Handler, Bus, call, new_negotiation_bus, register, negotiate,
}

-- Registering in order, on an empty bus.
unfoldable pub register_all : List (Bytes × Handler) → Bus → Bus
register_all [] bus = bus
register_all ((id, h) ∷ hs) bus = register_all hs (register id h bus)

-- The last handler that was registered for an agent.
abbrev pub last_for : Bytes → List (Bytes × Handler) → Option Handler → Option Handler
last_for target [] before = before
last_for target ((id, h) ∷ hs) before =
    last_for target hs (if bytes_eq id target then some h else before)

get-register_all :
    (target : Bytes) (hs : List (Bytes × Handler)) (bus : Bus)
    → get target (register_all hs bus) ≡ last_for target hs (get target bus)
unfolding register_all register
get-register_all target [] bus = refl
get-register_all target ((id, h) ∷ hs) bus = get-register_all target hs (put id h bus) ∙ rw get-put

-- After any registrations an intent goes to the last handler that was registered for its target,
-- whatever was registered for others; with none it is an error that names the target.
pub negotiate-register_all :
    (target : Bytes) (intent : IntentMessage) (hs : List (Bytes × Handler))
    → negotiate target intent (register_all hs new_negotiation_bus)
      ≡ call target (last_for target hs none) intent
unfolding negotiate new_negotiation_bus get
negotiate-register_all target intent hs = rw (get-register_all target hs [])
