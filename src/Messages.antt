-- ===== src/Messages.antt =====
-- core/types.go and core/encoding.go: the messages, each with its encoder and decoder.
pub mod Types
pub mod Intent
pub mod Handshake
pub mod Negotiation
pub mod Capability
pub mod Workflow
pub mod Message
pub mod Total
