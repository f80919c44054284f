-- ===== src/Messages/Capability.antt =====
-- core/encoding.go: `CapabilityAnnouncement.Encode` and `DecodeCapabilityAnnouncement`.
pub mod RoundTrip
use agent_semantic_protocol.Common.{ℕ, ◌==◌, if◌then◌else◌, false, not, [], ◌∷◌, ◌++◌, Bytes}
use agent_semantic_protocol.Common.Int64.{pos, int64}
use agent_semantic_protocol.Common.Outcome.{message, with_number, Result, ok, ◌>>=◌, want}
use agent_semantic_protocol.Wire.Protowire.{Protowire}
use agent_semantic_protocol.Wire.Encoder.{str, i64, strs}
use agent_semantic_protocol.Wire.Fields.{Case, decode_from, read_string, read_varint, skip}
use agent_semantic_protocol.Messages.Types.{CapabilityAnnouncement}

-- `&CapabilityAnnouncement{}`
abbrev pub empty : CapabilityAnnouncement
empty = record { agent_id = []; did = []; capabilities = []; timestamp = pos 0; ttl = pos 0 }

module _ (w : Protowire) where
  unfoldable pub encode : CapabilityAnnouncement → Bytes
  encode m =
      let e1 = str w 1 m.agent_id [] in
      let e2 = str w 2 m.did e1 in
      let e3 = strs w 3 m.capabilities e2 in let e4 = i64 w 4 m.timestamp e3 in i64 w 5 m.ttl e4

  unfoldable pub decode_case : Case CapabilityAnnouncement
  decode_case num typ b m =
      if num == 1
      then read_string w (message "capability: invalid agent_id") (λ s. record m { agent_id = s }) b
      else if num == 2
      then read_string w (message "capability: invalid did") (λ s. record m { did = s }) b
      else if num == 3
      then read_string w (message "capability: invalid capability")
          (λ s. record m { capabilities = m.capabilities ++ (s ∷ []) }) b
      else if num == 4
      then read_varint w (message "capability: invalid timestamp")
          (λ v. record m { timestamp = int64 v }) b
      else if num == 5
      then read_varint w (message "capability: invalid ttl") (λ v. record m { ttl = int64 v }) b
      else skip w (with_number "capability: unknown field %d" num) num typ b m

  unfoldable pub decode : Bytes → Result CapabilityAnnouncement
  decode b = decode_from w (message "capability: invalid tag") decode_case b empty
