-- ===== src/Wire.antt =====
-- core/encoding.go: the Protobuf wire format that every message is written in and read from.
pub mod Protowire
pub mod Float32
pub mod Maps
pub mod Distinct
pub mod Encoder
pub mod Fields
pub mod Loop
pub mod Packed
pub mod Writes
pub mod Repeated
