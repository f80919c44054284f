-- ===== src/Tests/Streams.antt =====
-- core/encoding.go and p2p/host.go: frames and streams of concrete messages.
use agent_semantic_protocol.Common.{◌≡◌, [], ◌∷◌, ◌++◌, List, map, arith}
use agent_semantic_protocol.Common.Outcome.{ok, ◌>>=◌}
use agent_semantic_protocol.Common.Int64.{uint64}
use agent_semantic_protocol.Wire.Encoder.{str, bytes, i64, strs}
use agent_semantic_protocol.Messages.Handshake
use agent_semantic_protocol.Messages.Capability
use agent_semantic_protocol.Messages.Message.{Message, handshake, capability, msg_type, encode}
use agent_semantic_protocol.Frame.{frame, unframe, decode}
use agent_semantic_protocol.Frame.Dispatch.{decode-unframe-frame, received}
use agent_semantic_protocol.Stream.{read_msgs}
use agent_semantic_protocol.Stream.RoundTrip.{write_msgs, read_msgs-write_msgs}
use agent_semantic_protocol.Tests.Varint.{varint}
use agent_semantic_protocol.Tests.Protobuf.{protobuf, protobuf-IsProtowire}
use agent_semantic_protocol.Tests.Codec.{announcement, hello, hello-IsGo}

dispatch_example :
    (unframe (frame (msg_type (handshake hello)) (encode protobuf (handshake hello)) ++ (1 ∷ []))
      >>= λ r. decode protobuf r.0 r.1)
    ≡ received (handshake hello)
unfolding encode Handshake.encode str strs i64 bytes varint uint64
dispatch_example =
    decode-unframe-frame protobuf protobuf-IsProtowire (handshake hello) (1 ∷ []) hello-IsGo
      (omega arith)

abbrev two : List Message
two = handshake hello ∷ capability announcement ∷ []

read_msgs_example :
    read_msgs 2 (write_msgs protobuf two [] ++ (9 ∷ []))
    ≡ ok (map (λ msg. (msg_type msg, encode protobuf msg)) two, 9 ∷ [])
unfolding encode Handshake.encode Capability.encode str strs i64 bytes varint uint64
read_msgs_example = read_msgs-write_msgs protobuf two (9 ∷ []) (omega arith)
