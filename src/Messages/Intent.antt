-- ===== src/Messages/Intent.antt =====
-- core/encoding.go: `IntentMessage.Encode` and `DecodeIntentMessage`.
pub mod RoundTrip
use agent_semantic_protocol.Common.{ℕ, ◌==◌, if◌then◌else◌, none, [], ◌∷◌, ◌++◌, Bytes}
use agent_semantic_protocol.Common.Int64.{pos, int64}
use agent_semantic_protocol.Common.Outcome.{message, with_number, Result, ok, ◌>>=◌, want}
use agent_semantic_protocol.Wire.Protowire.{Protowire}
use agent_semantic_protocol.Wire.Maps.{put}
use agent_semantic_protocol.Wire.Encoder.{str, bytes, i64, f32, strs, packed_f32, str_map}
use agent_semantic_protocol.Wire.Fields.{
  Case, decode_from, read_string, read_bytes, read_varint, read_fixed32, read_entry, skip,
  decode_packed_f32,
}
use agent_semantic_protocol.Messages.Types.{IntentMessage}

-- `&IntentMessage{Metadata: make(map[string]string)}`
abbrev pub empty : IntentMessage
empty = record {
  id = [];
  intent_vector = [];
  capabilities = [];
  did = [];
  payload = [];
  timestamp = pos 0;
  trust_score = 0;
  metadata = [];
  signature = [];
  logger = none;
}

module _ (w : Protowire) where
  unfoldable pub encode : IntentMessage → Bytes
  encode m =
      let e1 = str w 1 m.id [] in
      let e2 = packed_f32 w 2 m.intent_vector e1 in
      let e3 = strs w 3 m.capabilities e2 in
      let e4 = str w 4 m.did e3 in
      let e5 = str w 5 m.payload e4 in
      let e6 = i64 w 6 m.timestamp e5 in
      let e7 = f32 w 7 m.trust_score e6 in
      let e8 = str_map w 8 m.metadata e7 in bytes w 9 m.signature e8

  unfoldable pub decode_case : Case IntentMessage
  decode_case num typ b m =
      if num == 1
      then read_string w (message "intent: invalid id") (λ s. record m { id = s }) b
      else if num == 2
      then read_bytes w (message "intent: invalid intent_vector")
          (λ v. record m { intent_vector = decode_packed_f32 v }) b
      else if num == 3
      then read_string w (message "intent: invalid capability")
          (λ s. record m { capabilities = m.capabilities ++ (s ∷ []) }) b
      else if num == 4
      then read_string w (message "intent: invalid did") (λ s. record m { did = s }) b
      else if num == 5
      then read_string w (message "intent: invalid payload") (λ s. record m { payload = s }) b
      else if num == 6
      then read_varint w (message "intent: invalid timestamp")
          (λ v. record m { timestamp = int64 v }) b
      else if num == 7
      then read_fixed32 w (message "intent: invalid trust_score")
          (λ v. record m { trust_score = v }) b
      else if num == 8
      then read_entry w (message "intent: invalid metadata entry")
          (λ k v. record m { metadata = put k v m.metadata }) b
      else if num == 9
      then read_bytes w (message "intent: invalid signature") (λ v. record m { signature = v }) b
      else skip w (with_number "intent: unknown field %d" num) num typ b m

  unfoldable pub decode : Bytes → Result IntentMessage
  decode b = decode_from w (message "intent: invalid tag") decode_case b empty
