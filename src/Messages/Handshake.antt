-- ===== src/Messages/Handshake.antt =====
-- core/encoding.go: `HandshakeMessage.Encode` and `DecodeHandshakeMessage`.
pub mod RoundTrip
use agent_semantic_protocol.Common.{ℕ, ◌==◌, if◌then◌else◌, false, not, [], ◌∷◌, ◌++◌, Bytes}
use agent_semantic_protocol.Common.Int64.{pos, int64}
use agent_semantic_protocol.Common.Outcome.{message, with_number, Result, ok, ◌>>=◌, want}
use agent_semantic_protocol.Wire.Protowire.{Protowire}
use agent_semantic_protocol.Wire.Encoder.{str, bytes, i64, strs}
use agent_semantic_protocol.Wire.Fields.{
  Case, decode_from, read_string, read_varint, read_bytes, skip,
}
use agent_semantic_protocol.Messages.Types.{HandshakeMessage}

-- `&HandshakeMessage{}`
abbrev pub empty : HandshakeMessage
empty = record {
  agent_id = [];
  did = [];
  capabilities = [];
  version = [];
  timestamp = pos 0;
  public_key = [];
  challenge = [];
  challenge_response = [];
}

module _ (w : Protowire) where
  unfoldable pub encode : HandshakeMessage → Bytes
  encode m =
      let e1 = str w 1 m.agent_id [] in
      let e2 = str w 2 m.did e1 in
      let e3 = strs w 3 m.capabilities e2 in
      let e4 = str w 4 m.version e3 in
      let e5 = i64 w 5 m.timestamp e4 in
      let e6 = bytes w 6 m.public_key e5 in
      let e7 = bytes w 7 m.challenge e6 in bytes w 8 m.challenge_response e7

  unfoldable pub decode_case : Case HandshakeMessage
  decode_case num typ b m =
      if num == 1
      then read_string w (message "handshake: invalid agent_id") (λ s. record m { agent_id = s }) b
      else if num == 2
      then read_string w (message "handshake: invalid did") (λ s. record m { did = s }) b
      else if num == 3
      then read_string w (message "handshake: invalid capability")
          (λ s. record m { capabilities = m.capabilities ++ (s ∷ []) }) b
      else if num == 4
      then read_string w (message "handshake: invalid version") (λ s. record m { version = s }) b
      else if num == 5
      then read_varint w (message "handshake: invalid timestamp")
          (λ v. record m { timestamp = int64 v }) b
      else if num == 6
      then read_bytes w (message "handshake: invalid public_key") (λ v. record m { public_key = v })
          b
      else if num == 7
      then read_bytes w (message "handshake: invalid challenge") (λ v. record m { challenge = v }) b
      else if num == 8
      then read_bytes w (message "handshake: invalid challenge_response")
          (λ v. record m { challenge_response = v }) b
      else skip w (with_number "handshake: unknown field %d" num) num typ b m

  unfoldable pub decode : Bytes → Result HandshakeMessage
  decode b = decode_from w (message "handshake: invalid tag") decode_case b empty
