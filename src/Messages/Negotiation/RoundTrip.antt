-- ===== src/Messages/Negotiation/RoundTrip.antt =====
-- core/encoding.go: decoding a response that was encoded.
use agent_semantic_protocol.Common.{
  ◌*◌, ◌<◌, ◌^◌, ◌≡◌, ◌≢◌, refl, Bool, false, List, [], Bytes, length, All, arith,
}
use agent_semantic_protocol.Common.Int64.{ℤ, pos, IsInt64}
use agent_semantic_protocol.Common.Outcome.{message, ok}
use agent_semantic_protocol.Wire.Protowire.{Protowire, IsProtowire, FitsSlice}
use agent_semantic_protocol.Wire.Float32.{Float32, IsFloat32, sign_bit}
use agent_semantic_protocol.Wire.Writes.{
  Writes, Writes-empty, Writes-decode, Writes-str, Writes-bytes, Writes-i64, Writes-f32,
  Writes-boolean, Writes-packed_f32,
}
use agent_semantic_protocol.Wire.Repeated.{Writes-strs}
use agent_semantic_protocol.Messages.Types.{NegotiationResponse}
use agent_semantic_protocol.Messages.Negotiation.{empty, encode, decode_case, decode}

-- The ranges of the Go types.
pub record IsGoResponse (m : NegotiationResponse) : Type 0 where
  pub request_id_fits : FitsSlice m.request_id
  pub agent_id_fits : FitsSlice m.agent_id
  pub workflow_steps_fit : All FitsSlice m.workflow_steps
  pub did_fits : FitsSlice m.did
  pub response_vector_floats : All IsFloat32 m.response_vector
  pub response_vector_fits : 4 * length m.response_vector < 2 ^ 63
  pub timestamp_int64 : IsInt64 m.timestamp
  pub reason_fits : FitsSlice m.reason
  pub trust_delta_float : IsFloat32 m.trust_delta
  pub signature_fits : FitsSlice m.signature

-- The message with the fields up to one of them, and the others empty.
module _ (m : NegotiationResponse) where
  abbrev upto_signature : Bytes → NegotiationResponse
  upto_signature v = record m { signature = v }

  abbrev upto_trust_delta : Float32 → NegotiationResponse
  upto_trust_delta v = record (upto_signature []) { trust_delta = v }

  abbrev upto_reason : Bytes → NegotiationResponse
  upto_reason v = record (upto_trust_delta 0) { reason = v }

  abbrev upto_timestamp : ℤ → NegotiationResponse
  upto_timestamp v = record (upto_reason []) { timestamp = v }

  abbrev upto_response_vector : List Float32 → NegotiationResponse
  upto_response_vector v = record (upto_timestamp (pos 0)) { response_vector = v }

  abbrev upto_did : Bytes → NegotiationResponse
  upto_did v = record (upto_response_vector []) { did = v }

  abbrev upto_workflow_steps : List Bytes → NegotiationResponse
  upto_workflow_steps v = record (upto_did []) { workflow_steps = v }

  abbrev upto_accepted : Bool → NegotiationResponse
  upto_accepted v = record (upto_workflow_steps []) { accepted = v }

  abbrev upto_agent_id : Bytes → NegotiationResponse
  upto_agent_id v = record (upto_accepted false) { agent_id = v }

  abbrev upto_request_id : Bytes → NegotiationResponse
  upto_request_id v = record (upto_agent_id []) { request_id = v }

module _ (w : Protowire) (laws : IsProtowire w) (m : NegotiationResponse) (h : IsGoResponse m) where
  -- The encoder's methods, in the order of the calls.
  encode-Writes :
      m.trust_delta ≢ sign_bit
      → Writes w (message "negoresp: invalid tag") (decode_case w) empty (encode w m) m
  unfolding encode decode_case
  encode-Writes hz =
      let bad = message "negoresp: invalid tag" in
      let step = decode_case w in
      let s1 =
        Writes-str w laws bad step 1 _ (upto_request_id m) m.request_id _ (omega arith)
          h.request_id_fits (λ b. refl) (Writes-empty w laws bad step) in
      let s2 =
        Writes-str w laws bad step 2 _ (upto_agent_id m) m.agent_id _ (omega arith) h.agent_id_fits
          (λ b. refl) s1 in
      let s3 =
        Writes-boolean w laws bad step 3 _ (upto_accepted m) m.accepted _ (omega arith) (λ b. refl)
          s2 in
      let s4 =
        Writes-strs w laws bad step 4 _ (upto_workflow_steps m) m.workflow_steps [] _ (omega arith)
          h.workflow_steps_fit (λ xs b. refl) s3 in
      let s5 =
        Writes-str w laws bad step 5 _ (upto_did m) m.did _ (omega arith) h.did_fits (λ b. refl)
          s4 in
      let s6 =
        Writes-packed_f32 w laws bad step 6 _ (upto_response_vector m) m.response_vector _
          (omega arith) h.response_vector_floats h.response_vector_fits (λ b. refl) s5 in
      let s7 =
        Writes-i64 w laws bad step 7 _ (upto_timestamp m) m.timestamp _ (omega arith)
          h.timestamp_int64 (λ b. refl) s6 in
      let s8 =
        Writes-str w laws bad step 8 _ (upto_reason m) m.reason _ (omega arith) h.reason_fits
          (λ b. refl) s7 in
      let s9 =
        Writes-f32 w laws bad step 9 _ (upto_trust_delta m) m.trust_delta _ (omega arith)
          h.trust_delta_float hz (λ b. refl) s8 in
      Writes-bytes w laws bad step 10 _ (upto_signature m) m.signature _ (omega arith)
        h.signature_fits (λ b. refl) s9

  -- Decoding an encoded response, whose fields are values of their Go types, gives it back with every
  -- field as it was, if its trust delta is not the negative zero.
  pub decode-encode_response : m.trust_delta ≢ sign_bit → decode w (encode w m) ≡ ok m
  unfolding decode
  decode-encode_response hz = Writes-decode w laws _ _ (encode-Writes hz)
