-- ===== src/Frame/Panics.antt =====
-- core/encoding.go: when `Unframe` panics.
use agent_semantic_protocol.Common.{◌≤◌, ◌≡◌, ◌↔◌, ◌∷◌, Bytes, length, arith}
use agent_semantic_protocol.Common.Outcome.{panic}
use agent_semantic_protocol.Frame.Unframe.{unframe_five}
use agent_semantic_protocol.Frame.{uint32_be, unframe}

-- `Unframe` panics exactly on an input of five bytes or more whose length prefix is zero: the slice
-- `frame[5:4]` is out of range.
pub unframe_panics : (b : Bytes) → (unframe b ≡ panic) ↔ ((5 ≤ length b) × (uint32_be b ≡ 0))
unfolding unframe
unframe_panics (a ∷ b ∷ c ∷ d ∷ t ∷ tail) = rw unframe_five (ground arith, ground arith)
unframe_panics _ = (ground arith, ground arith)
