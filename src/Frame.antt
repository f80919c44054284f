-- ===== src/Frame.antt =====
-- core/encoding.go: `Frame`, `Unframe` and `Decode`.
pub mod Unframe
pub mod RoundTrip
pub mod Panics
pub mod Dispatch
use agent_semantic_protocol.Common.{
  ℕ, ◌+◌, ◌-◌, ◌*◌, ◌/◌, ◌%◌, ◌^◌, [], ◌∷◌, ◌++◌, Bytes, length, take, drop, ltb, leb, ◌==◌, ◌&&◌,
  if◌then◌else◌,
}
use agent_semantic_protocol.Common.Outcome.{
  message, with_number, with_numbers, Result, ok, err, panic, ◌>>=◌,
}
use agent_semantic_protocol.Wire.Protowire.{Protowire}
use agent_semantic_protocol.Messages.Types.{
  MessageType, msg_handshake, msg_intent, msg_negotiation, HandshakeMessage, IntentMessage,
  NegotiationResponse,
}
use agent_semantic_protocol.Messages.Handshake
use agent_semantic_protocol.Messages.Intent
use agent_semantic_protocol.Messages.Negotiation

-- `binary.BigEndian.PutUint32`
abbrev pub big_endian : ℕ → Bytes
big_endian v = v / 0x1000000 % 256 ∷ v / 0x10000 % 256 ∷ v / 0x100 % 256 ∷ v % 256 ∷ []

-- `binary.BigEndian.Uint32`, of the four bytes at the front
abbrev pub uint32_be : Bytes → ℕ
uint32_be (a ∷ b ∷ c ∷ d ∷ _) = a * 0x1000000 + b * 0x10000 + c * 0x100 + d
uint32_be _ = 0

-- `b[lo:hi]`
abbrev pub slice : ℕ → ℕ → Bytes → Result Bytes
slice lo hi b = if leb lo hi && leb hi (length b) then ok (take (hi - lo) (drop lo b)) else panic

-- `b[4]`
abbrev pub fifth : Bytes → Result ℕ
fifth (a ∷ b ∷ c ∷ d ∷ e ∷ _) = ok e
fifth _ = panic

unfoldable pub frame : MessageType → Bytes → Bytes
frame msg_type payload =
    let total = 1 + length payload in big_endian (total % 2 ^ 32) ++ (msg_type ∷ payload)

unfoldable pub unframe : Bytes → Result (MessageType × Bytes)
unframe b =
    if ltb (length b) 5
    then err (with_number "frame too short (%d bytes)" (length b))
    else (let total = uint32_be b in
        if ltb (length b) (4 + total)
        then err (with_numbers "frame incomplete: need %d bytes, have %d" (4 + total) (length b))
        else (do msg_type ← fifth b; payload ← slice 5 (4 + total) b; ok (msg_type, payload)))

-- The messages that `Decode` returns.
pub data Decoded : Type 0 where
  handshake : HandshakeMessage → Decoded
  intent : IntentMessage → Decoded
  negotiation : NegotiationResponse → Decoded

unfoldable pub decode : Protowire → MessageType → Bytes → Result Decoded
decode w msg_type b =
    if msg_type == msg_handshake
    then (do m ← Handshake.decode w b; ok (handshake m))
    else if msg_type == msg_intent
    then (do m ← Intent.decode w b; ok (intent m))
    else if msg_type == msg_negotiation
    then (do m ← Negotiation.decode w b; ok (negotiation m))
    else err (with_number "unknown message type: 0x%02x" msg_type)
