-- ===== src/Messages/Total.antt =====
-- core/encoding.go: every decoder returns, on any bytes.
use agent_semantic_protocol.Common.{ℕ, Bytes}
use agent_semantic_protocol.Common.Outcome.{Error, Finishes}
use agent_semantic_protocol.Wire.Protowire.{Protowire, IsProtowire}
use agent_semantic_protocol.Wire.Fields.{
  read_string, read_bytes, read_varint, read_fixed32, skip, read_entry, entry_case,
  decode_str_map_entry,
}
use agent_semantic_protocol.Wire.Loop.{
  Takes, Takes-if, Takes-want, Takes-bind, Takes-ok, decode_from-Finishes,
}
use agent_semantic_protocol.Messages.Types.{
  HandshakeMessage, IntentMessage, NegotiationResponse, CapabilityAnnouncement,
}
use agent_semantic_protocol.Messages.Handshake
use agent_semantic_protocol.Messages.Intent
use agent_semantic_protocol.Messages.Negotiation
use agent_semantic_protocol.Messages.Capability

module _ (w : Protowire) (laws : IsProtowire w) where
  module _ {ℓ} {M : Type ℓ} where
    read_string-Takes :
        (e : Error) (set : Bytes → M) (body : Bytes) → Takes body (read_string w e set body)
    read_string-Takes e set body =
        Takes-want e (w.consume_string body) body _
          λ (v, n2) read. Takes-ok (set v) n2 body (laws.string_length body (v, n2) read)

    read_bytes-Takes :
        (e : Error) (set : Bytes → M) (body : Bytes) → Takes body (read_bytes w e set body)
    read_bytes-Takes e set body =
        Takes-want e (w.consume_bytes body) body _
          λ (v, n2) read. Takes-ok (set v) n2 body (laws.bytes_length body (v, n2) read)

    read_varint-Takes :
        (e : Error) (set : ℕ → M) (body : Bytes) → Takes body (read_varint w e set body)
    read_varint-Takes e set body =
        Takes-want e (w.consume_varint body) body _
          λ (v, n2) read. Takes-ok (set v) n2 body (laws.varint_length body (v, n2) read)

    read_fixed32-Takes :
        (e : Error) (set : ℕ → M) (body : Bytes) → Takes body (read_fixed32 w e set body)
    read_fixed32-Takes e set body =
        Takes-want e (w.consume_fixed32 body) body _
          λ (v, n2) read. Takes-ok (set v) n2 body (laws.fixed32_length body (v, n2) read)

    skip-Takes :
        (e : Error) (num typ : ℕ) (body : Bytes) (m : M) → Takes body (skip w e num typ body m)
    skip-Takes e num typ body m =
        Takes-want e (w.consume_field_value num typ body) body _
          λ n2 read. Takes-ok m n2 body (laws.field_value_length num typ body n2 read)

  ruleset taking = (
    Takes-if, read_string-Takes, read_bytes-Takes, read_varint-Takes, read_fixed32-Takes,
    skip-Takes,
  )

  handshake_case-Takes :
      (num typ : ℕ) (b : Bytes) (m : HandshakeMessage)
      → Takes b (Handshake.decode_case w num typ b m)
  unfolding Handshake.decode_case
  handshake_case-Takes num typ b m = search taking depth 20

  response_case-Takes :
      (num typ : ℕ) (b : Bytes) (m : NegotiationResponse)
      → Takes b (Negotiation.decode_case w num typ b m)
  unfolding Negotiation.decode_case
  response_case-Takes num typ b m = search taking depth 20

  announcement_case-Takes :
      (num typ : ℕ) (b : Bytes) (m : CapabilityAnnouncement)
      → Takes b (Capability.decode_case w num typ b m)
  unfolding Capability.decode_case
  announcement_case-Takes num typ b m = search taking depth 20

  entry_case-Takes :
      (num typ : ℕ) (b : Bytes) (m : Bytes × Bytes) → Takes b (entry_case w num typ b m)
  unfolding entry_case
  entry_case-Takes num typ b (k, v) = search taking depth 20

  entry-Finishes : (b : Bytes) → Finishes (decode_str_map_entry w b)
  unfolding decode_str_map_entry
  entry-Finishes b = decode_from-Finishes w laws _ _ entry_case-Takes b _

  read_entry-Takes {ℓ} :
      {M : Type ℓ} (e : Error) (set : Bytes → Bytes → M) (body : Bytes)
      → Takes body (read_entry w e set body)
  read_entry-Takes e set body = Takes-want e (w.consume_bytes body) body _ λ (b, n2) read.
      Takes-bind (decode_str_map_entry w b) body _ (entry-Finishes b)
        λ (k, v). Takes-ok (set k v) n2 body (laws.bytes_length body (b, n2) read)

  intent_case-Takes :
      (num typ : ℕ) (b : Bytes) (m : IntentMessage) → Takes b (Intent.decode_case w num typ b m)
  unfolding Intent.decode_case
  intent_case-Takes num typ b m = search (taking, read_entry-Takes) depth 20

  -- Every decoder returns a message or an error on every input: no slice is taken past the end of
  -- the input, and the loops end.
  pub decoders-Finishes :
      (b : Bytes)
      → Finishes (Handshake.decode w b)
        × Finishes (Intent.decode w b)
        × Finishes (Negotiation.decode w b)
        × Finishes (Capability.decode w b)
  unfolding Handshake.decode Intent.decode Negotiation.decode Capability.decode
  decoders-Finishes b = (
    decode_from-Finishes w laws _ _ handshake_case-Takes b _,
    decode_from-Finishes w laws _ _ intent_case-Takes b _,
    decode_from-Finishes w laws _ _ response_case-Takes b _,
    decode_from-Finishes w laws _ _ announcement_case-Takes b _,
  )
