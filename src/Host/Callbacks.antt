-- ===== src/Host/Callbacks.antt =====
-- p2p/host.go: the callbacks of a host. Its mutex makes each of the two methods one step.
use agent_semantic_protocol.Common.{Option}
use agent_semantic_protocol.Host.{AgentHost, HandshakeCallback, IntentCallback}

unfoldable pub on_handshake : Option HandshakeCallback → AgentHost → AgentHost
on_handshake callback ah = record ah { on_handshake = callback }

unfoldable pub on_intent : Option IntentCallback → AgentHost → AgentHost
on_intent callback ah = record ah { on_intent = callback }
