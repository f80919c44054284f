-- ===== src/Messages/Handshake/RoundTrip.antt =====
-- core/encoding.go: decoding a handshake that was encoded.
use agent_semantic_protocol.Common.{◌≡◌, refl, List, [], Bytes, All, arith}
use agent_semantic_protocol.Common.Int64.{ℤ, pos, IsInt64}
use agent_semantic_protocol.Common.Outcome.{message, ok}
use agent_semantic_protocol.Wire.Protowire.{Protowire, IsProtowire, FitsSlice}
use agent_semantic_protocol.Wire.Writes.{
  Writes, Writes-empty, Writes-decode, Writes-str, Writes-bytes, Writes-i64,
}
use agent_semantic_protocol.Wire.Repeated.{Writes-strs}
use agent_semantic_protocol.Messages.Types.{HandshakeMessage}
use agent_semantic_protocol.Messages.Handshake.{empty, encode, decode_case, decode}

-- The ranges of the Go types.
pub record IsGoHandshake (m : HandshakeMessage) : Type 0 where
  pub agent_id_fits : FitsSlice m.agent_id
  pub did_fits : FitsSlice m.did
  pub capabilities_fit : All FitsSlice m.capabilities
  pub version_fits : FitsSlice m.version
  pub timestamp_int64 : IsInt64 m.timestamp
  pub public_key_fits : FitsSlice m.public_key
  pub challenge_fits : FitsSlice m.challenge
  pub challenge_response_fits : FitsSlice m.challenge_response

-- The message with the fields up to one of them, and the others empty.
module _ (m : HandshakeMessage) where
  abbrev upto_challenge_response : Bytes → HandshakeMessage
  upto_challenge_response v = record m { challenge_response = v }

  abbrev upto_challenge : Bytes → HandshakeMessage
  upto_challenge v = record (upto_challenge_response []) { challenge = v }

  abbrev upto_public_key : Bytes → HandshakeMessage
  upto_public_key v = record (upto_challenge []) { public_key = v }

  abbrev upto_timestamp : ℤ → HandshakeMessage
  upto_timestamp v = record (upto_public_key []) { timestamp = v }

  abbrev upto_version : Bytes → HandshakeMessage
  upto_version v = record (upto_timestamp (pos 0)) { version = v }

  abbrev upto_capabilities : List Bytes → HandshakeMessage
  upto_capabilities v = record (upto_version []) { capabilities = v }

  abbrev upto_did : Bytes → HandshakeMessage
  upto_did v = record (upto_capabilities []) { did = v }

  abbrev upto_agent_id : Bytes → HandshakeMessage
  upto_agent_id v = record (upto_did []) { agent_id = v }

module _ (w : Protowire) (laws : IsProtowire w) (m : HandshakeMessage) (h : IsGoHandshake m) where
  -- The encoder's methods, in the order of the calls.
  encode-Writes : Writes w (message "handshake: invalid tag") (decode_case w) empty (encode w m) m
  unfolding encode decode_case
  encode-Writes =
      let bad = message "handshake: invalid tag" in
      let step = decode_case w in
      let s1 =
        Writes-str w laws bad step 1 _ (upto_agent_id m) m.agent_id _ (omega arith) h.agent_id_fits
          (λ b. refl) (Writes-empty w laws bad step) in
      let s2 =
        Writes-str w laws bad step 2 _ (upto_did m) m.did _ (omega arith) h.did_fits (λ b. refl)
          s1 in
      let s3 =
        Writes-strs w laws bad step 3 _ (upto_capabilities m) m.capabilities [] _ (omega arith)
          h.capabilities_fit (λ xs b. refl) s2 in
      let s4 =
        Writes-str w laws bad step 4 _ (upto_version m) m.version _ (omega arith) h.version_fits
          (λ b. refl) s3 in
      let s5 =
        Writes-i64 w laws bad step 5 _ (upto_timestamp m) m.timestamp _ (omega arith)
          h.timestamp_int64 (λ b. refl) s4 in
      let s6 =
        Writes-bytes w laws bad step 6 _ (upto_public_key m) m.public_key _ (omega arith)
          h.public_key_fits (λ b. refl) s5 in
      let s7 =
        Writes-bytes w laws bad step 7 _ (upto_challenge m) m.challenge _ (omega arith)
          h.challenge_fits (λ b. refl) s6 in
      Writes-bytes w laws bad step 8 _ (upto_challenge_response m) m.challenge_response _
        (omega arith) h.challenge_response_fits (λ b. refl) s7

  -- Decoding an encoded handshake, whose fields are values of their Go types, gives it back with every
  -- field as it was.
  pub decode-encode_handshake : decode w (encode w m) ≡ ok m
  unfolding decode
  decode-encode_handshake = Writes-decode w laws _ _ encode-Writes
