-- ===== src/Messages/Message.antt =====
-- core/types.go, the interface `Encoder`: the five message types that implement it.
use agent_semantic_protocol.Common.{Bytes}
use agent_semantic_protocol.Wire.Protowire.{Protowire}
use agent_semantic_protocol.Messages.Types.{
  MessageType, msg_handshake, msg_intent, msg_negotiation, msg_workflow, msg_capability,
  HandshakeMessage, IntentMessage, NegotiationResponse, WorkflowMessage, CapabilityAnnouncement,
}
use agent_semantic_protocol.Messages.Handshake
use agent_semantic_protocol.Messages.Intent
use agent_semantic_protocol.Messages.Negotiation
use agent_semantic_protocol.Messages.Capability
use agent_semantic_protocol.Messages.Workflow

pub data Message : Type 0 where
  handshake : HandshakeMessage → Message
  intent : IntentMessage → Message
  negotiation : NegotiationResponse → Message
  workflow : WorkflowMessage → Message
  capability : CapabilityAnnouncement → Message

unfoldable pub msg_type : Message → MessageType
msg_type (handshake m) = msg_handshake
msg_type (intent m) = msg_intent
msg_type (negotiation m) = msg_negotiation
msg_type (workflow m) = msg_workflow
msg_type (capability m) = msg_capability

unfoldable pub encode : Protowire → Message → Bytes
encode w (handshake m) = Handshake.encode w m
encode w (intent m) = Intent.encode w m
encode w (negotiation m) = Negotiation.encode w m
encode w (workflow m) = Workflow.encode w m
encode w (capability m) = Capability.encode w m
