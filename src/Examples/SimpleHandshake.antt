-- ===== src/Examples/SimpleHandshake.antt =====
-- examples/simple-handshake/main.go: two agents in one process shake hands.
pub mod Completes
use agent_semantic_protocol.Common.{
  ℕ, Bool, Option, none, some, List, [], ◌∷◌, ◌++◌, Bytes, codes, length, map, if◌then◌else◌, ◌==◌,
}
use agent_semantic_protocol.Common.Outcome.{message, Error, Result, ok, err, panic, stuck, wrapping}
use agent_semantic_protocol.Wire.Float32.{Float32}
use agent_semantic_protocol.Wire.Protowire.{Protowire}
use agent_semantic_protocol.Messages.Types.{HandshakeMessage, msg_handshake}
use agent_semantic_protocol.Messages.Handshake
use agent_semantic_protocol.Messages.Message.{handshake}
use agent_semantic_protocol.Did.{to_string}
use agent_semantic_protocol.Did.Packages.{Crypto}
use agent_semantic_protocol.Agent.{Agent, new_agent}
use agent_semantic_protocol.Handshake.{start_handshake}
use agent_semantic_protocol.Discovery.{Time, AgentProfile, find_by_capability, all_profiles}
use agent_semantic_protocol.Stream.{read_msg, write_msg}
use agent_semantic_protocol.Host.{
  AgentHost, Readings, HandshakeCallback, handle_stream, request_handshake,
}
use agent_semantic_protocol.Host.Callbacks.{on_handshake}
use agent_semantic_protocol.Host.Libp2p.{
  Libp2p, AddrInfo, open_host, peer_id, addr_info, connect, discovery,
}
use Prim.Native.String.{String}
use agent_semantic_protocol.Examples.Output.{
  Line, Run, text, texts, number, ◌>>=◌, ◌>>◌, line, print_lines, print_line, calling, or_fatal,
}
use agent_semantic_protocol.Examples.Streams.{across, greeting, heard_handshake, heard_lines}

-- What the program reads from outside: the key pairs that are generated, libp2p's hosts with their
-- errors, whether the stream opens, what the call and the handler of its stream read, and the
-- clock during the two lookups.
pub record World : Type 0 where
  pub keys_a : Option (Bytes × Bytes)
  pub keys_b : Option (Bytes × Bytes)
  pub failed_a : Option Error
  pub failed_b : Option Error
  pub libp2p_a : Libp2p
  pub libp2p_b : Libp2p
  pub dial : AddrInfo → Option Error
  pub opens : Bool
  pub env_a : Readings
  pub env_b : Readings
  pub all_clock : ℕ → Time
  pub find_clock : ℕ → Time

abbrev pub alpha_caps : List Bytes
alpha_caps = codes "nlp" ∷ codes "reasoning" ∷ codes "intent-parsing" ∷ []

abbrev pub beta_caps : List Bytes
beta_caps = codes "code-generation" ∷ codes "math" ∷ codes "vector-search" ∷ codes "storage" ∷ []

abbrev pub needed : List Bytes
needed = codes "code-generation" ∷ codes "math" ∷ []

abbrev pub banner : List Line
banner =
    line "╔══════════════════════════════════════════════╗" []
    ∷ line "║     Agent Semantic Protocol v0.1 — Simple Handshake Demo     ║" []
    ∷ line "╚══════════════════════════════════════════════╝" []
    ∷ line "" []
    ∷ []

abbrev pub started : String → Libp2p → Agent → List Line
started headline libp2p a =
    line headline []
    ∷ line "  Peer ID : %s\n" (text (peer_id libp2p) ∷ [])
    ∷ line "  DID     : %s\n" (text (to_string a.did) ∷ [])
    ∷ line "  Caps    : %v\n\n" (texts a.capabilities ∷ [])
    ∷ []

-- Beta's callback: what it returns, and what it prints.
unfoldable pub beta_callback : HandshakeCallback
beta_callback peer_id m = ok none

abbrev pub beta_prints : HandshakeMessage → List Line
beta_prints m =
    line "[Beta] ← Handshake from %q  caps=%v\n" (text m.agent_id ∷ texts m.capabilities ∷ []) ∷ []

abbrev pub profile_line : AgentProfile → Line
profile_line p =
    line "  • %s  did=%s  caps=%v\n" (text p.agent_id ∷ text p.did ∷ texts p.capabilities ∷ [])

abbrev pub match_line : AgentProfile → Line
match_line p = line "    → %s\n" (text p.agent_id ∷ [])

abbrev pub shaken_lines : HandshakeMessage → List Line
shaken_lines resp =
    line "\n[Alpha] ✓ Handshake complete!\n" []
    ∷ line "  Peer agent ID  : %s\n" (text resp.agent_id ∷ [])
    ∷ line "  Peer DID       : %s\n" (text resp.did ∷ [])
    ∷ line "  Peer caps      : %v\n" (texts resp.capabilities ∷ [])
    ∷ line "  Protocol ver.  : %s\n" (text resp.version ∷ [])
    ∷ []

-- The rest of `main`, once the handshake is done.
unfoldable pub report : World → AgentHost → HandshakeMessage → Run (Unit {0})
report world host_a resp = do
  print_lines (shaken_lines resp)
  print_line "\n── Discovery Registry (Alpha's view) ────────────────────────────────" []
  print_lines (map profile_line (all_profiles world.all_clock (discovery host_a)))
  let matches = find_by_capability world.find_clock needed (discovery host_a)
  print_line "\n  Agents with %v: %d found\n" (texts needed ∷ number (length matches) ∷ [])
  print_lines (map match_line matches)
  print_line "\n✓ Demo complete." []

module _ (w : Protowire) (c : Crypto) (add : Float32 → Float32 → Float32) where
  unfoldable pub main : World → Run (Unit {0})
  main world = do
    print_lines banner
    alpha ←
        or_fatal "create agent-alpha: %v"
          (new_agent c world.keys_a (codes "agent-alpha") alpha_caps)
    host_a ← or_fatal "create host for agent-alpha: %v" (open_host world.failed_a alpha)
    print_lines (started "✓ Agent Alpha started\n" world.libp2p_a alpha)
    beta ←
        or_fatal "create agent-beta: %v" (new_agent c world.keys_b (codes "agent-beta") beta_caps)
    opened_b ← or_fatal "create host for agent-beta: %v" (open_host world.failed_b beta)
    print_lines (started "✓ Agent Beta started\n" world.libp2p_b beta)
    let host_b = on_handshake (some beta_callback) opened_b
    or_fatal "connect alpha→beta: %v" (connect world.dial (addr_info world.libp2p_b))
    print_line "✓ TCP connection established (alpha→beta)" []
    print_line
        "\n── Performing Agent Semantic Protocol Handshake ─────────────────────────────────────" []
    let sent = greeting w world.env_a host_a
    let handler : Bytes → Result (AgentHost × Bytes) =
        λ input. handle_stream w c add world.env_b (peer_id world.libp2p_a) input host_b
    print_lines (heard_lines world.opens beta_prints (heard_handshake w sent))
    (host_b', answer) ← calling (
        across world.opens sent handler
          (λ peer. request_handshake w c world.env_a (peer_id world.libp2p_b) peer host_a) host_b)
    (host_a', resp) ← or_fatal "handshake failed: %v" answer
    report world host_a' resp
