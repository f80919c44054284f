-- ===== src/Tests/Codec.antt =====
-- core/encoding.go and p2p/host.go: the codec at concrete messages.
use agent_semantic_protocol.Common.{
  ◌≤◌, ◌≡◌, ◌↔◌, refl, none, [], ◌∷◌, ◌++◌, Bytes, codes, arith, bytes_eq,
}
use agent_semantic_protocol.Common.Int64.{pos}
use agent_semantic_protocol.Common.Outcome.{ok, panic, Finishes}
use agent_semantic_protocol.Wire.Maps.{get}
use agent_semantic_protocol.Wire.Encoder.{map_entry}
use agent_semantic_protocol.Messages.Types.{HandshakeMessage, IntentMessage, CapabilityAnnouncement}
use agent_semantic_protocol.Messages.Handshake
use agent_semantic_protocol.Messages.Handshake.RoundTrip.{IsGoHandshake}
use agent_semantic_protocol.Messages.Intent
use agent_semantic_protocol.Messages.Intent.RoundTrip.{IsGoIntent}
use agent_semantic_protocol.Messages.Negotiation
use agent_semantic_protocol.Messages.Capability
use agent_semantic_protocol.Messages.Total.{decoders-Finishes}
use agent_semantic_protocol.Frame.{frame, unframe, uint32_be}
use agent_semantic_protocol.Frame.RoundTrip.{unframe-frame, frame-unframe}
use agent_semantic_protocol.Frame.Panics.{unframe_panics}
use agent_semantic_protocol.Tests.Varint.{varint}
use agent_semantic_protocol.Tests.Protobuf.{protobuf, protobuf-IsProtowire}

abbrev request : IntentMessage
request = record {
  id = codes "req-1";
  intent_vector = 0x3f800000 ∷ 0xbf000000 ∷ [];
  capabilities = codes "nlp" ∷ codes "search" ∷ [];
  did = codes "did:agent-semantic-protocol:ab";
  payload = [];
  timestamp = pos 1700000000000000000;
  trust_score = 0x3f000000;
  metadata = (codes "protocol", codes "1.0.0") ∷ (codes "step", []) ∷ [];
  signature = 7 ∷ 8 ∷ [];
  logger = none;
}

request-IsGo : IsGoIntent protobuf request
unfolding map_entry varint get bytes_eq
request-IsGo = record {
  id_fits = omega arith;
  vector_floats = omega arith;
  vector_fits = omega arith;
  capabilities_fit = omega arith;
  did_fits = omega arith;
  payload_fits = omega arith;
  timestamp_int64 = omega arith;
  trust_score_float = omega arith;
  metadata_fits = omega arith;
  metadata_map = (refl, (refl, tt));
  signature_fits = omega arith;
}

intent_example : Intent.decode protobuf (Intent.encode protobuf request) ≡ ok request
intent_example =
    Intent.RoundTrip.decode-encode_intent protobuf protobuf-IsProtowire request request-IsGo
      (omega arith)

abbrev pub hello : HandshakeMessage
hello = record {
  agent_id = codes "a";
  did = codes "did:agent-semantic-protocol:00";
  capabilities = codes "nlp" ∷ [];
  version = codes "1.0.0";
  timestamp = pos 5;
  public_key = 1 ∷ 2 ∷ 3 ∷ [];
  challenge = 9 ∷ 9 ∷ [];
  challenge_response = [];
}

pub hello-IsGo : IsGoHandshake hello
hello-IsGo = omega arith

abbrev pub announcement : CapabilityAnnouncement
announcement = record {
  agent_id = codes "a";
  did = codes "d";
  capabilities = codes "x" ∷ codes "y" ∷ [];
  timestamp = pos 3;
  ttl = pos 300;
}

decoders_example :
    Finishes (Handshake.decode protobuf (1 ∷ []))
    × Finishes (Intent.decode protobuf (1 ∷ []))
    × Finishes (Negotiation.decode protobuf (1 ∷ []))
    × Finishes (Capability.decode protobuf (1 ∷ []))
decoders_example = decoders-Finishes protobuf protobuf-IsProtowire (1 ∷ [])

unframe-frame_example : unframe (frame 2 (1 ∷ 2 ∷ 3 ∷ []) ++ (9 ∷ [])) ≡ ok (2, 1 ∷ 2 ∷ 3 ∷ [])
unframe-frame_example = unframe-frame 2 (1 ∷ 2 ∷ 3 ∷ []) (9 ∷ []) (omega arith)

read_frame : unframe (0 ∷ 0 ∷ 0 ∷ 2 ∷ 1 ∷ 7 ∷ 8 ∷ []) ≡ ok (1, 7 ∷ [])
unfolding unframe
read_frame = refl

frame-unframe_example : (rest : Bytes) × (0 ∷ 0 ∷ 0 ∷ 2 ∷ 1 ∷ 7 ∷ 8 ∷ [] ≡ frame 1 (7 ∷ []) ++ rest)
frame-unframe_example =
    frame-unframe (0 ∷ 0 ∷ 0 ∷ 2 ∷ 1 ∷ 7 ∷ 8 ∷ []) 1 (7 ∷ []) (omega arith) read_frame

unframe_panics_example :
    (unframe (0 ∷ 0 ∷ 0 ∷ 0 ∷ 1 ∷ []) ≡ panic)
    ↔ ((5 ≤ 5) × (uint32_be (0 ∷ 0 ∷ 0 ∷ 0 ∷ 1 ∷ []) ≡ 0))
unframe_panics_example = unframe_panics (0 ∷ 0 ∷ 0 ∷ 0 ∷ 1 ∷ [])
