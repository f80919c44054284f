-- ===== src/Stream/RoundTrip.antt =====
-- p2p/host.go: `readMsg` against `writeMsg`.
use agent_semantic_protocol.Common.{
  ℕ, ◌+◌, ◌%◌, ◌<◌, ◌≤◌, ◌^◌, ◌≡◌, refl, sym, ◌∙◌, ap, List, [], ◌∷◌, ◌++◌, Bytes, length, arith,
  All, length-append, take-append, drop-append, append_assoc, append-nil, map, some, ltb, ◌||◌,
  false,
}
use agent_semantic_protocol.Common.Outcome.{with_number, ok, err, ◌>>=◌}
use agent_semantic_protocol.Wire.Protowire.{Protowire}
use agent_semantic_protocol.Messages.Types.{MessageType}
use agent_semantic_protocol.Messages.Message.{Message, msg_type, encode}
use agent_semantic_protocol.Frame.{frame, big_endian, uint32_be}
use agent_semantic_protocol.Stream.{
  read_full, max_length, write_msg, read_msg, read_msgs, split_body,
}

read_full-append : (n : ℕ) (xs ys : Bytes) → length xs ≡ n → read_full n (xs ++ ys) ≡ some (xs, ys)
read_full-append n xs ys h =
    rw (← h, drop-append xs ys, take-append xs ys) (ground (arith, length-append xs ys))

-- A header, then as many bytes as it says.
read_msg-append :
    (hdr body rest : Bytes) (n : ℕ)
    → length hdr ≡ 4
    → uint32_be hdr ≡ n
    → length body ≡ n
    → 1 ≤ n
    → n ≤ max_length
    → read_msg (hdr ++ (body ++ rest)) ≡ (split_body body >>= λ (t, payload). ok (t, payload, rest))
unfolding read_msg
read_msg-append hdr body rest n h4 hn hb lo hi = rw (
  read_full-append 4 hdr (body ++ rest) h4,
  hn,
  length_ok n lo hi,
  read_full-append n body rest hb,
)
  where
    length_ok : (n : ℕ) → 1 ≤ n → n ≤ max_length → (ltb n 1 || ltb max_length n) ≡ false
    length_ok n lo hi = ground arith

big_endian_header : (n : ℕ) → n < 2 ^ 32 → uint32_be (big_endian (n % 2 ^ 32)) ≡ n
big_endian_header n h = omega arith

pub read_msg-frame :
    (t : MessageType) (payload rest : Bytes)
    → 1 + length payload ≤ max_length
    → read_msg (frame t payload ++ rest) ≡ ok (t, payload, rest)
unfolding frame
read_msg-frame t payload rest h =
    read_msg-append (big_endian ((1 + length payload) % 2 ^ 32)) (t ∷ payload) rest
      (1 + length payload) refl (big_endian_header _ (omega arith)) (omega arith) (omega arith) h

-- A message that was written is read back.
pub read_msg-write_msg :
    (w : Protowire) (msg : Message)
    → 1 + length (encode w msg) ≤ max_length
    → read_msg (write_msg w msg []) ≡ ok (msg_type msg, encode w msg, [])
unfolding write_msg
read_msg-write_msg w msg h =
    ap (λ s. read_msg s) (sym (append-nil (frame (msg_type msg) (encode w msg))))
    ∙ read_msg-frame (msg_type msg) (encode w msg) [] h

-- A payload of 4 MiB or more, and less than 4 GiB with its type, is framed, and the reader rejects
-- that frame.
pub read_msg-frame_too_long :
    (t : MessageType) (payload rest : Bytes)
    → max_length < 1 + length payload
    → 1 + length payload < 2 ^ 32
    → read_msg (frame t payload ++ rest)
      ≡ err (with_number "readMsg: invalid length %d" (1 + length payload))
unfolding read_msg frame
read_msg-frame_too_long t payload rest h k =
    rw
      (
        read_full-append 4 (big_endian ((1 + length payload) % 2 ^ 32)) ((t ∷ payload) ++ rest)
            refl,
        big_endian_header (1 + length payload) k,
      )
      (ground arith)

-- `writeMsg` of each message in turn.
unfoldable pub write_msgs : Protowire → List Message → Bytes → Bytes
write_msgs w [] stream = stream
write_msgs w (msg ∷ msgs) stream = write_msgs w msgs (write_msg w msg stream)

abbrev frames : Protowire → List Message → Bytes
frames w [] = []
frames w (msg ∷ msgs) = frame (msg_type msg) (encode w msg) ++ frames w msgs

write_msgs-frames :
    (w : Protowire) (msgs : List Message) (stream : Bytes)
    → write_msgs w msgs stream ≡ stream ++ frames w msgs
unfolding write_msgs write_msg
write_msgs-frames w [] stream = sym (append-nil stream)
write_msgs-frames w (msg ∷ msgs) stream =
    write_msgs-frames w msgs (write_msg w msg stream) ∙ append_assoc stream _ (frames w msgs)

read_msgs-frames :
    (w : Protowire) (msgs : List Message) (rest : Bytes)
    → All (λ msg. 1 + length (encode w msg) ≤ max_length) msgs
    → read_msgs (length msgs) (frames w msgs ++ rest)
      ≡ ok (map (λ msg. (msg_type msg, encode w msg)) msgs, rest)
unfolding read_msgs
read_msgs-frames w [] rest h = refl
read_msgs-frames w (msg ∷ msgs) rest (h, hs) =
    rw (append_assoc, read_msg-frame (msg_type msg) (encode w msg) (frames w msgs ++ rest) h)
      (rw (read_msgs-frames w msgs rest hs))

-- Messages that are written one after the other to an empty stream are read in that order, each
-- with its type and its payload, and the reader stops in front of what follows them, if no frame
-- is longer than 4 MiB.
pub read_msgs-write_msgs :
    (w : Protowire) (msgs : List Message) (rest : Bytes)
    → All (λ msg. 1 + length (encode w msg) ≤ max_length) msgs
    → read_msgs (length msgs) (write_msgs w msgs [] ++ rest)
      ≡ ok (map (λ msg. (msg_type msg, encode w msg)) msgs, rest)
read_msgs-write_msgs w msgs rest h =
    rw (write_msgs-frames w msgs []) (read_msgs-frames w msgs rest h)
