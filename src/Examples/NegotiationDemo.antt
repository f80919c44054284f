-- ===== src/Examples/NegotiationDemo.antt =====
-- examples/negotiation-demo/main.go: an agent negotiates with two others in one process.
pub mod Callback
pub mod Handler
pub mod Shakes
pub mod Calm
pub mod Answers
pub mod Hosts
pub mod Negotiates
pub mod Completes
use agent_semantic_protocol.Common.{
  ℕ, suc, ◌+◌, Bool, true, false, ◌&&◌, Option, none, some, List, [], ◌∷◌, ◌++◌, Bytes, codes,
  length, take, ltb, if◌then◌else◌, bytes_eq,
}
use agent_semantic_protocol.Common.Int64.{ℤ}
use agent_semantic_protocol.Common.Outcome.{Error, Result, ok, err, panic, stuck}
use agent_semantic_protocol.Wire.Float32.{Float32}
use agent_semantic_protocol.Wire.Protowire.{Protowire}
use agent_semantic_protocol.Messages.Types.{IntentMessage, NegotiationResponse}
use agent_semantic_protocol.Messages.Message.{intent}
use agent_semantic_protocol.Did.{to_string}
use agent_semantic_protocol.Did.Packages.{Crypto}
use agent_semantic_protocol.Agent.{Agent, new_agent}
use agent_semantic_protocol.Handshake.{HandshakeResult}
use agent_semantic_protocol.Trust.{get_score}
use agent_semantic_protocol.Negotiation.{
  default_handler, create_intent, new_negotiation_bus, register, negotiate,
}
use agent_semantic_protocol.Stream.{write_msg}
use agent_semantic_protocol.Host.{AgentHost, Readings, IntentCallback, handle_stream, send_intent}
use agent_semantic_protocol.Host.Callbacks.{on_intent}
use agent_semantic_protocol.Host.Libp2p.{
  Libp2p, AddrInfo, open_host, peer_id, addr_info, connect, trust,
}
use agent_semantic_protocol.Orchestrator.Discover.{discover_and_handshake}
use Prim.Native.String.{String}
use agent_semantic_protocol.Examples.Output.{
  Line, Run, text, literal, texts, number, truth, float, floats, short, time, ◌>>=◌, ◌>>◌, give,
  line, print_lines, print_line, calling, or_fatal,
}
use agent_semantic_protocol.Examples.Streams.{across, greeting, heard_intent, heard_lines}
use agent_semantic_protocol.Examples.NegotiationDemo.Callback.{
  code_callback, code_prints, print_negotiation_result,
}

-- What an attempt at a handshake reads: the answer of `Connect`, whether the stream opens, what the
-- call and the handler of its stream read, and the time of the result.
pub record Attempt : Type 0 where
  pub dial : AddrInfo → Option Error
  pub opens : Bool
  pub env : Readings
  pub handler_env : Readings
  pub now : ℤ

-- What the program reads from outside: the key pairs that are generated, libp2p's hosts with their
-- errors, the attempts at handshakes with their retries, and what the intents read on the way.
pub record World : Type 0 where
  pub keys_r : Option (Bytes × Bytes)
  pub keys_c : Option (Bytes × Bytes)
  pub keys_l : Option (Bytes × Bytes)
  pub failed_r : Option Error
  pub failed_c : Option Error
  pub failed_l : Option Error
  pub libp2p_r : Libp2p
  pub libp2p_c : Libp2p
  pub libp2p_l : Libp2p
  pub dial : AddrInfo → Option Error
  pub first_c : Attempt
  pub retry_c : Attempt
  pub first_l : Attempt
  pub retry_l : Attempt
  pub intent_id : Option Bytes
  pub intent_now : ℤ
  pub opens_c : Bool
  pub opens_l : Bool
  pub intent_env_c : Readings
  pub intent_env_l : Readings
  pub callback_now : ℤ
  pub local_id : Option Bytes
  pub local_now : ℤ
  pub bus_now : ℤ

abbrev pub requester_caps : List Bytes
requester_caps = codes "nlp" ∷ codes "intent-routing" ∷ []

abbrev pub code_caps : List Bytes
code_caps = codes "code-generation" ∷ codes "python" ∷ codes "typescript" ∷ codes "validation" ∷ []

abbrev pub limited_caps : List Bytes
limited_caps = codes "storage" ∷ []

abbrev pub required : List Bytes
required = codes "code-generation" ∷ codes "python" ∷ []

abbrev pub payload : Bytes
payload = codes "Write a Python function to merge two sorted lists into one sorted list."

-- 0.82, 0.14, 0.76, 0.05, 0.91, 0.33, 0.67, 0.48, 0.21 and 0.88, each the nearest float32.
abbrev pub intent_vector : List Float32
intent_vector =
    0x3f51eb85 ∷ 0x3e0f5c29 ∷ 0x3f428f5c ∷ 0x3d4ccccd ∷ 0x3f68f5c3 ∷ 0x3ea8f5c3 ∷ 0x3f2b851f
    ∷ 0x3ef5c28f ∷ 0x3e570a3d ∷ 0x3f6147ae ∷ []

-- The first loop.
unfoldable pub connect_all : (AddrInfo → Option Error) → List AddrInfo → Run (Unit {0})
connect_all dial [] = give tt
connect_all dial (info ∷ infos) = do
  or_fatal "connect: %v" (connect dial info)
  connect_all dial infos

abbrev pub banner : List Line
banner =
    line "╔══════════════════════════════════════════════╗" []
    ∷ line "║  Agent Semantic Protocol v0.1 — Intent Negotiation Demo      ║" []
    ∷ line "╚══════════════════════════════════════════════╝" []
    ∷ line "" []
    ∷ []

abbrev pub no_refusal : Option Error → Bool
no_refusal none = true
no_refusal (some e) = false

-- The address with which a handshake is tried again.
unfoldable pub retry_info : World → Bytes → AddrInfo
retry_info world pid =
    if bytes_eq pid (peer_id world.libp2p_c)
    then addr_info world.libp2p_c
    else addr_info world.libp2p_l

module _ (w : Protowire) (c : Crypto) (add : Float32 → Float32 → Float32) where
  -- One call of `DiscoverAndHandshake` by `ah`, whose peer id is `ours`, with the host `bh`.
  unfoldable pub attempt_once :
      Bytes
      → Attempt
      → AddrInfo
      → AgentHost
      → AgentHost
      → Result (AgentHost × Result (AgentHost × HandshakeResult))
  attempt_once ours try info bh ah =
      across (no_refusal (try.dial info) && try.opens) (greeting w try.env ah)
        (λ input. handle_stream w c add try.handler_env ours input bh)
        (λ peer. discover_and_handshake w c try.env (try.dial info) info.id peer try.now ah) bh

  -- `if err != nil { … }` after the first attempt: the host `bh` and the requester afterwards.
  unfoldable pub or_retry :
      (AgentHost → Result (AgentHost × Result (AgentHost × HandshakeResult)))
      → AgentHost
      → Result (AgentHost × HandshakeResult)
      → Run (AgentHost × AgentHost × HandshakeResult)
  or_retry again bh (ok (ah, result)) = give (bh, ah, result)
  or_retry again bh (err e) = do
    (bh', answer) ← calling (again bh)
    (ah, result) ← or_fatal "handshake: %v" answer
    give (bh', ah, result)
  or_retry again bh panic = calling panic
  or_retry again bh stuck = calling stuck

  -- The body of the second loop, for the peer `pid`, whose host is `bh`.
  unfoldable pub shake_hands :
      Bytes
      → (Bytes → AddrInfo)
      → Attempt
      → Attempt
      → Bytes
      → AgentHost
      → AgentHost
      → Run (AgentHost × AgentHost)
  shake_hands ours info_of first retry pid bh ah = do
    (bh', answer) ← calling (attempt_once ours first (record { id = pid; addrs = [] }) bh ah)
    (bh'', ah', result) ←
        or_retry (λ host. attempt_once ours retry (info_of pid) host ah) bh' answer
    print_line "  ✓ Handshook %s  caps=%v\n"
        (text result.peer_agent_id ∷ texts result.peer_capabilities ∷ [])
    give (bh'', ah')

  -- An intent that is sent to the host `bh`.
  unfoldable pub ask :
      Bytes
      → Bool
      → Readings
      → Bytes
      → IntentMessage
      → AgentHost
      → AgentHost
      → Result (AgentHost × Result (AgentHost × NegotiationResponse))
  ask ours opens handler_env target m bh ah =
      across opens (ok (write_msg w (intent m) []))
        (λ input. handle_stream w c add handler_env ours input bh)
        (λ peer. send_intent w c add target peer m ah) bh

  -- `bus.Negotiate` with an intent that is nil after an error, which the handler reads.
  abbrev pub negotiate_local : World → Agent → Result IntentMessage → Result NegotiationResponse
  negotiate_local world code_agent (ok m) = negotiate (codes "code-agent-local") m (
      register (codes "code-agent-local") (default_handler c code_agent world.bus_now)
        new_negotiation_bus)
  negotiate_local world code_agent (err e) = panic
  negotiate_local world code_agent panic = panic
  negotiate_local world code_agent stuck = stuck

  -- `main` from the trust graph on.
  unfoldable pub conclude : World → Agent → Agent → Agent → AgentHost → Run (Unit {0})
  conclude world requester code_agent limited_agent host_r = do
    print_line "\n── Trust Graph (Requester's view) ───────────────────────────────────" []
    print_line "  trust(requester → code-agent)   = %.2f\n"
        (float (get_score (to_string requester.did) (to_string code_agent.did) (trust host_r)) ∷ [])
    print_line "  trust(requester → limited-agent) = %.2f\n" (
        float (get_score (to_string requester.did) (to_string limited_agent.did) (trust host_r))
        ∷ [])
    print_line "\n── In-Process NegotiationBus Demo (goroutines, no TCP) ──────────────" []
    let local_intent =
        create_intent c requester intent_vector (codes "code-generation" ∷ [])
          (codes "local negotiation test") world.local_id world.local_now
    local_resp ← or_fatal "bus negotiate: %v" (negotiate_local world code_agent local_intent)
    print_line "  Bus negotiation accepted=%v  steps=%v\n"
        (truth local_resp.accepted ∷ texts local_resp.workflow_steps ∷ [])
    print_line "\n✓ Demo complete." []

  -- `main` from the intent on.
  unfoldable pub negotiate_all :
      World → Agent → Agent → Agent → AgentHost → AgentHost → AgentHost → Run (Unit {0})
  negotiate_all world requester code_agent limited_agent host_r host_c host_l = do
    print_line "\n── Negotiation phase ────────────────────────────────────────────────" []
    print_line "  Requester sends intent: 'Generate Python from natural language'" []
    print_line "  Intent vector (10-dim): %.2f\n" (floats intent_vector ∷ [])
    print_line "" []
    m ←
        or_fatal "create intent: %v" (
          create_intent c requester intent_vector required payload world.intent_id world.intent_now)
    let ours = peer_id world.libp2p_r
    print_lines (
        heard_lines world.opens_c (code_prints ours)
          (heard_intent w c ours (ok (write_msg w (intent m) [])) host_c))
    (host_c', answer_c) ←
        calling (ask ours world.opens_c world.intent_env_c (peer_id world.libp2p_c) m host_c host_r)
    (host_r', resp_c) ← or_fatal "send intent to code-agent: %v" answer_c
    print_lines (print_negotiation_result (codes "[code-agent]") resp_c)
    (host_l', answer_l) ←
        calling
          (ask ours world.opens_l world.intent_env_l (peer_id world.libp2p_l) m host_l host_r')
    (host_r'', resp_l) ← or_fatal "send intent to limited-agent: %v" answer_l
    print_lines (print_negotiation_result (codes "[limited-agent]") resp_l)
    conclude world requester code_agent limited_agent host_r''

  unfoldable pub main : World → Run (Unit {0})
  main world = do
    print_lines banner
    requester ←
        or_fatal "create requester: %v"
          (new_agent c world.keys_r (codes "requester") requester_caps)
    code_agent ←
        or_fatal "create code-agent: %v" (new_agent c world.keys_c (codes "code-agent") code_caps)
    limited_agent ←
        or_fatal "create limited-agent: %v"
          (new_agent c world.keys_l (codes "limited-agent") limited_caps)
    host_r ← or_fatal "host requester: %v" (open_host world.failed_r requester)
    opened_c ← or_fatal "host code-agent: %v" (open_host world.failed_c code_agent)
    host_l ← or_fatal "host limited-agent: %v" (open_host world.failed_l limited_agent)
    let host_c = on_intent (some (code_callback c code_agent world.callback_now)) opened_c
    connect_all world.dial (addr_info world.libp2p_c ∷ addr_info world.libp2p_l ∷ [])
    print_line "── Handshake phase ──────────────────────────────────────────────────" []
    let ours = peer_id world.libp2p_r
    (host_c', host_r') ←
        shake_hands ours (retry_info world) world.first_c world.retry_c (peer_id world.libp2p_c)
          host_c host_r
    (host_l', host_r'') ←
        shake_hands ours (retry_info world) world.first_l world.retry_l (peer_id world.libp2p_l)
          host_l host_r'
    negotiate_all world requester code_agent limited_agent host_r'' host_c' host_l'
