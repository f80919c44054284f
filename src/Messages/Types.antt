-- ===== src/Messages/Types.antt =====
-- core/types.go: the messages of the protocol.
use agent_semantic_protocol.Common.{ℕ, Bool, Option, List, Bytes, codes}
use agent_semantic_protocol.Common.Int64.{ℤ}
use agent_semantic_protocol.Wire.Float32.{Float32}
use agent_semantic_protocol.Wire.Maps.{Assoc}

-- `MessageType` is a byte; these are the values that have a name.
abbrev pub MessageType : Type 0
MessageType = ℕ

abbrev pub msg_handshake : MessageType
msg_handshake = 0x01

abbrev pub msg_intent : MessageType
msg_intent = 0x02

abbrev pub msg_negotiation : MessageType
msg_negotiation = 0x03

abbrev pub msg_workflow : MessageType
msg_workflow = 0x04

abbrev pub msg_capability : MessageType
msg_capability = 0x05

abbrev pub protocol_version : Bytes
protocol_version = codes "1.0.0"

-- The logger of an intent is a pointer, which no message carries: a number that names it.
pub record IntentMessage : Type 0 where
  pub id : Bytes
  pub intent_vector : List Float32
  pub capabilities : List Bytes
  pub did : Bytes
  pub payload : Bytes
  pub timestamp : ℤ
  pub trust_score : Float32
  pub metadata : Assoc Bytes
  pub signature : Bytes
  pub logger : Option ℕ

pub record HandshakeMessage : Type 0 where
  pub agent_id : Bytes
  pub did : Bytes
  pub capabilities : List Bytes
  pub version : Bytes
  pub timestamp : ℤ
  pub public_key : Bytes
  pub challenge : Bytes
  pub challenge_response : Bytes

pub record NegotiationResponse : Type 0 where
  pub request_id : Bytes
  pub agent_id : Bytes
  pub accepted : Bool
  pub workflow_steps : List Bytes
  pub did : Bytes
  pub response_vector : List Float32
  pub timestamp : ℤ
  pub reason : Bytes
  pub trust_delta : Float32
  pub signature : Bytes

pub record WorkflowMessage : Type 0 where
  pub workflow_id : Bytes
  pub step_id : Bytes
  pub next_step_id : Bytes
  pub agent_id : Bytes
  pub did : Bytes
  pub action : Bytes
  pub params : Assoc Bytes
  pub result_chan : Bytes
  pub timestamp : ℤ

pub record CapabilityAnnouncement : Type 0 where
  pub agent_id : Bytes
  pub did : Bytes
  pub capabilities : List Bytes
  pub timestamp : ℤ
  pub ttl : ℤ
