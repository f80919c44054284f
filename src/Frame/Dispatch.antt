-- ===== src/Frame/Dispatch.antt =====
-- core/encoding.go: what `Unframe` and `Decode` together make of each framed message.
use agent_semantic_protocol.Common.{◌+◌, ◌<◌, ◌^◌, ◌≡◌, ◌≢◌, refl, none, ◌++◌, Bytes, length}
use agent_semantic_protocol.Common.Outcome.{with_number, Result, ok, err, ◌>>=◌}
use agent_semantic_protocol.Wire.Protowire.{Protowire, IsProtowire}
use agent_semantic_protocol.Wire.Float32.{sign_bit}
use agent_semantic_protocol.Messages.Types.{msg_workflow, msg_capability}
use agent_semantic_protocol.Messages.Handshake
use agent_semantic_protocol.Messages.Handshake.RoundTrip.{IsGoHandshake}
use agent_semantic_protocol.Messages.Intent
use agent_semantic_protocol.Messages.Intent.RoundTrip.{IsGoIntent}
use agent_semantic_protocol.Messages.Negotiation
use agent_semantic_protocol.Messages.Negotiation.RoundTrip.{IsGoResponse}
use agent_semantic_protocol.Messages.Message.{
  Message, handshake, intent, negotiation, workflow, capability, msg_type, encode,
}
use agent_semantic_protocol.Frame.{frame, unframe, Decoded, decode}
use agent_semantic_protocol.Frame.RoundTrip.{unframe-frame}

-- The ranges of a message's Go types, with no negative zero where a float would be dropped.
abbrev pub IsGoMessage : Protowire → Message → Type 0
IsGoMessage w (handshake m) = IsGoHandshake m
IsGoMessage w (intent m) = IsGoIntent w m × (m.trust_score ≢ sign_bit)
IsGoMessage w (negotiation m) = IsGoResponse m × (m.trust_delta ≢ sign_bit)
IsGoMessage w (workflow m) = Unit
IsGoMessage w (capability m) = Unit

-- What a receiver makes of a message: three types come back, the other two are unknown.
abbrev pub received : Message → Result Decoded
received (handshake m) = ok (Decoded.handshake m)
received (intent m) = ok (Decoded.intent (record m { logger = none }))
received (negotiation m) = ok (Decoded.negotiation m)
received (workflow m) = err (with_number "unknown message type: 0x%02x" msg_workflow)
received (capability m) = err (with_number "unknown message type: 0x%02x" msg_capability)

module _ (w : Protowire) (laws : IsProtowire w) where
  pub decode-encode_message :
      (m : Message) → IsGoMessage w m → decode w (msg_type m) (encode w m) ≡ received m
  unfolding decode msg_type encode
  decode-encode_message (handshake m) h =
      rw (Handshake.RoundTrip.decode-encode_handshake w laws m h)
  decode-encode_message (intent m) (h, hz) =
      rw (Intent.RoundTrip.decode-encode_intent w laws m h hz)
  decode-encode_message (negotiation m) (h, hz) =
      rw (Negotiation.RoundTrip.decode-encode_response w laws m h hz)
  decode-encode_message (workflow m) h = refl
  decode-encode_message (capability m) h = refl

  -- Any message whose fields are values of their Go types, that is encoded, framed, unframed with
  -- whatever follows it, and decoded, if its frame is shorter than 4 GiB: a handshake, an intent and
  -- a response come back as they were, less the logger of an intent and with the negative zero
  -- excluded, and the types of a workflow message and of a capability announcement are rejected as
  -- unknown.
  pub decode-unframe-frame :
      (m : Message) (rest : Bytes)
      → IsGoMessage w m
      → 1 + length (encode w m) < 2 ^ 32
      → (unframe (frame (msg_type m) (encode w m) ++ rest) >>= λ r. decode w r.0 r.1) ≡ received m
  decode-unframe-frame m rest h fits =
      rw (unframe-frame (msg_type m) (encode w m) rest fits) (decode-encode_message m h)
