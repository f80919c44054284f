-- ===== src/Examples/NegotiationDemo/Hosts.antt =====
-- examples/negotiation-demo/main.go: the hosts after the handshakes of a run to its end.
use agent_semantic_protocol.Common.{some}
use agent_semantic_protocol.Did.Packages.{Crypto}
use agent_semantic_protocol.Host.{AgentHost, remember, new_host}
use agent_semantic_protocol.Host.Callbacks.{on_intent}
use agent_semantic_protocol.Host.Libp2p.{peer_id}
use agent_semantic_protocol.Examples.NegotiationDemo.{World}
use agent_semantic_protocol.Examples.NegotiationDemo.Callback.{code_callback}
use agent_semantic_protocol.Examples.NegotiationDemo.Calm
use agent_semantic_protocol.Examples.NegotiationDemo.Calm.{
  Seeds, calm, FitsIntent, FitsResponse, with_nonces,
}

module _ (c : Crypto) (s : Seeds) (world : World) where
  -- The code agent's host before and after the handshake, the limited agent's, and the requester's.
  abbrev pub code_host : AgentHost
  code_host =
      on_intent (some (code_callback c (Calm.code_agent c s) world.callback_now))
        (new_host (Calm.code_agent c s))

  abbrev pub code_host' : AgentHost
  code_host' =
      remember (Calm.tried_c s world).handler_env.time (peer_id world.libp2p_r)
        (Calm.greeting_c c s world) code_host

  abbrev pub limited_host' : AgentHost
  limited_host' =
      remember (Calm.tried_l s world).handler_env.time (peer_id world.libp2p_r)
        (Calm.greeting_l c s world) (new_host (Calm.limited_agent c s))

  abbrev pub requester_host : AgentHost
  requester_host =
      remember (Calm.tried_c s world).env.time (peer_id world.libp2p_c) (Calm.response_c c s world)
        (new_host (Calm.requester c s))

  abbrev pub requester_host' : AgentHost
  requester_host' =
      remember (Calm.tried_l s world).env.time (peer_id world.libp2p_l) (Calm.response_l c s world)
        requester_host
