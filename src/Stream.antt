-- ===== src/Stream.antt =====
-- p2p/host.go, wire I/O: `writeMsg` and `readMsg`. A stream is the bytes that are still to be read,
-- and a write that succeeds puts its bytes behind them.
pub mod RoundTrip
pub mod Total
use agent_semantic_protocol.Common.{
  ℕ, zero, suc, ◌+◌, ◌*◌, ◌<◌, Option, none, some, List, [], ◌∷◌, ◌++◌, Bytes, length, take, drop,
  ltb, ◌==◌, ◌||◌, if◌then◌else◌,
}
use agent_semantic_protocol.Common.Outcome.{
  Error, message, with_number, Result, ok, err, panic, ◌>>=◌, want,
}
use agent_semantic_protocol.Wire.Protowire.{Protowire}
use agent_semantic_protocol.Messages.Types.{MessageType}
use agent_semantic_protocol.Messages.Message.{Message, msg_type, encode}
use agent_semantic_protocol.Frame.{frame, uint32_be}

-- `io.ReadFull`: the bytes and what is left, or an error at a stream that ends before.
abbrev pub read_full : ℕ → Bytes → Option (Bytes × Bytes)
read_full n stream = if ltb (length stream) n then none else some (take n stream, drop n stream)

abbrev pub max_length : ℕ
max_length = 4 * 1024 * 1024

unfoldable pub write_msg : Protowire → Message → Bytes → Bytes
write_msg w msg stream = stream ++ frame (msg_type msg) (encode w msg)

-- `body[0]` and `body[1:]`
abbrev pub split_body : Bytes → Result (MessageType × Bytes)
split_body [] = panic
split_body (t ∷ rest) = ok (t, rest)

-- The message type, the payload and the rest of the stream.
unfoldable pub read_msg : Bytes → Result (MessageType × Bytes × Bytes)
read_msg stream = do
  (hdr, stream') ← want (message "readMsg header") (read_full 4 stream)
  let n = uint32_be hdr
  if ltb n 1 || ltb max_length n then err (with_number "readMsg: invalid length %d" n) else (do
    (body, stream'') ← want (message "readMsg body") (read_full n stream')
    (t, payload) ← split_body body
    ok (t, payload, stream''))

-- As many messages as there are rounds.
unfoldable pub read_msgs : ℕ → Bytes → Result (List (MessageType × Bytes) × Bytes)
read_msgs zero stream = ok ([], stream)
read_msgs (suc n) stream = do
  (t, payload, stream') ← read_msg stream
  (rest, stream'') ← read_msgs n stream'
  ok ((t, payload) ∷ rest, stream'')
