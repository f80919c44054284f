-- ===== src/Messages/Negotiation.antt =====
-- core/encoding.go: `NegotiationResponse.Encode` and `DecodeNegotiationResponse`.
pub mod RoundTrip
use agent_semantic_protocol.Common.{ℕ, ◌==◌, if◌then◌else◌, false, not, [], ◌∷◌, ◌++◌, Bytes}
use agent_semantic_protocol.Common.Int64.{pos, int64}
use agent_semantic_protocol.Common.Outcome.{message, with_number, Result, ok, ◌>>=◌, want}
use agent_semantic_protocol.Wire.Protowire.{Protowire}
use agent_semantic_protocol.Wire.Encoder.{str, bytes, i64, f32, boolean, strs, packed_f32}
use agent_semantic_protocol.Wire.Fields.{
  Case, decode_from, read_string, read_varint, read_bytes, read_fixed32, skip, decode_packed_f32,
}
use agent_semantic_protocol.Messages.Types.{NegotiationResponse}

-- `&NegotiationResponse{}`
abbrev pub empty : NegotiationResponse
empty = record {
  request_id = [];
  agent_id = [];
  accepted = false;
  workflow_steps = [];
  did = [];
  response_vector = [];
  timestamp = pos 0;
  reason = [];
  trust_delta = 0;
  signature = [];
}

module _ (w : Protowire) where
  unfoldable pub encode : NegotiationResponse → Bytes
  encode m =
      let e1 = str w 1 m.request_id [] in
      let e2 = str w 2 m.agent_id e1 in
      let e3 = boolean w 3 m.accepted e2 in
      let e4 = strs w 4 m.workflow_steps e3 in
      let e5 = str w 5 m.did e4 in
      let e6 = packed_f32 w 6 m.response_vector e5 in
      let e7 = i64 w 7 m.timestamp e6 in
      let e8 = str w 8 m.reason e7 in let e9 = f32 w 9 m.trust_delta e8 in bytes w 10 m.signature e9

  unfoldable pub decode_case : Case NegotiationResponse
  decode_case num typ b m =
      if num == 1
      then read_string w (message "negoresp: invalid request_id") (λ s. record m { request_id = s })
          b
      else if num == 2
      then read_string w (message "negoresp: invalid agent_id") (λ s. record m { agent_id = s }) b
      else if num == 3
      then read_varint w (message "negoresp: invalid accepted")
          (λ v. record m { accepted = not (v == 0) }) b
      else if num == 4
      then read_string w (message "negoresp: invalid workflow_step")
          (λ s. record m { workflow_steps = m.workflow_steps ++ (s ∷ []) }) b
      else if num == 5
      then read_string w (message "negoresp: invalid did") (λ s. record m { did = s }) b
      else if num == 6
      then read_bytes w (message "negoresp: invalid response_vector")
          (λ v. record m { response_vector = decode_packed_f32 v }) b
      else if num == 7
      then read_varint w (message "negoresp: invalid timestamp")
          (λ v. record m { timestamp = int64 v }) b
      else if num == 8
      then read_string w (message "negoresp: invalid reason") (λ s. record m { reason = s }) b
      else if num == 9
      then read_fixed32 w (message "negoresp: invalid trust_delta")
          (λ v. record m { trust_delta = v }) b
      else if num == 10
      then read_bytes w (message "negoresp: invalid signature") (λ v. record m { signature = v }) b
      else skip w (with_number "negoresp: unknown field %d" num) num typ b m

  unfoldable pub decode : Bytes → Result NegotiationResponse
  decode b = decode_from w (message "negoresp: invalid tag") decode_case b empty
