-- ===== src/Frame/RoundTrip.antt =====
-- core/encoding.go: `Unframe` against `Frame`.
use agent_semantic_protocol.Common.{
  ℕ, ◌+◌, ◌<◌, ◌^◌, ◌≡◌, ◌∙◌, ap, ◌∷◌, ◌++◌, Bytes, length, drop, arith, All, length-append,
  take-append, take-append-drop,
}
use agent_semantic_protocol.Common.Outcome.{ok}
use agent_semantic_protocol.Messages.Types.{MessageType}
use agent_semantic_protocol.Frame.Unframe.{unframe_five, unframe_ok}
use agent_semantic_protocol.Frame.{big_endian, uint32_be, frame, unframe}

abbrev pub IsByte : ℕ → Type 0
IsByte b = b < 256

big_endian_lem : (v : ℕ) (rest : Bytes) → v < 2 ^ 32 → uint32_be (big_endian v ++ rest) ≡ v
big_endian_lem v rest h = omega arith

-- A frame is read back, whatever follows it, if its length fits the prefix of 32 bits.
pub unframe-frame :
    (t : MessageType) (payload rest : Bytes)
    → 1 + length payload < 2 ^ 32
    → unframe (frame t payload ++ rest) ≡ ok (t, payload)
unfolding frame
unframe-frame t payload rest h =
    rw unframe_five (ground (arith, length-append payload rest, take-append payload rest))

-- Only frames are accepted: an input of bytes that `Unframe` accepts is the frame of what was read,
-- and bytes behind it.
pub frame-unframe :
    (b : Bytes) (t : MessageType) (payload : Bytes)
    → All IsByte b
    → unframe b ≡ ok (t, payload)
    → (rest : Bytes) × (b ≡ frame t payload ++ rest)
unfolding unframe frame
frame-unframe (a ∷ b ∷ c ∷ d ∷ x ∷ tail) t payload hb e =
    let (tag, size, whole) = unframe_ok a b c d x t tail payload e in
    let rest = drop (length payload) tail in
    let same : payload ++ rest ≡ tail =
      ap (λ u. u ++ rest) whole ∙ take-append-drop (length payload) tail in
    (rest, ground (arith, same))
frame-unframe _ t payload hb e = absurd (ground arith)
