-- ===== src/Examples.antt =====
-- examples: the programs that run several agents in one process.
pub mod Output
pub mod Streams
pub mod SimpleHandshake
pub mod NegotiationDemo
