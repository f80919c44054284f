-- ===== src/Tests.antt =====
-- Concrete wire formats and keys, and the theorems at concrete inputs.
mod Varint
mod Protobuf
mod Codec
mod Streams
mod ToyCrypto
mod Identity
mod Registry
mod Negotiate
mod Hosts
mod Streaming
mod Sorting
mod Rankings
mod Logs
mod Intents
mod Workflows
mod Demos
mod Discoveries
mod Bridges
mod Negotiations
mod Spoofs
