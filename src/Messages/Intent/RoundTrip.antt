-- ===== src/Messages/Intent/RoundTrip.antt =====
-- core/encoding.go: decoding an encoded intent.
use agent_semantic_protocol.Common.{
  ◌*◌, ◌<◌, ◌^◌, ◌≤◌, ℕ, ◌∙◌, ◌++◌, ◌≡◌, ◌≢◌, refl, none, List, [], Bytes, length, All, arith,
}
use agent_semantic_protocol.Common.Int64.{ℤ, pos, IsInt64}
use agent_semantic_protocol.Common.Outcome.{message, with_number, ok}
use agent_semantic_protocol.Wire.Protowire.{Protowire, IsProtowire, FitsSlice, bytes_type}
use agent_semantic_protocol.Wire.Float32.{Float32, IsFloat32, sign_bit}
use agent_semantic_protocol.Wire.Maps.{Assoc, IsMap}
use agent_semantic_protocol.Wire.Fields.{skip}
use agent_semantic_protocol.Wire.Writes.{
  Writes, Writes-empty, Writes-decode, Writes-chunk, Writes-str, Writes-bytes, Writes-i64,
  Writes-f32, Writes-packed_f32,
}
use agent_semantic_protocol.Wire.Repeated.{FitsEntries, Writes-strs, Writes-str_map}
use agent_semantic_protocol.Messages.Types.{IntentMessage}
use agent_semantic_protocol.Messages.Intent.{empty, encode, decode_case, decode}

-- The ranges of the Go types: slices and strings have an int for a length, a timestamp is an int64,
-- a float has 32 bits, and a map holds no key twice.
pub record IsGoIntent (w : Protowire) (m : IntentMessage) : Type 0 where
  pub id_fits : FitsSlice m.id
  pub vector_floats : All IsFloat32 m.intent_vector
  pub vector_fits : 4 * length m.intent_vector < 2 ^ 63
  pub capabilities_fit : All FitsSlice m.capabilities
  pub did_fits : FitsSlice m.did
  pub payload_fits : FitsSlice m.payload
  pub timestamp_int64 : IsInt64 m.timestamp
  pub trust_score_float : IsFloat32 m.trust_score
  pub metadata_fits : FitsEntries w m.metadata
  pub metadata_map : IsMap m.metadata
  pub signature_fits : FitsSlice m.signature

unknown_case :
    (w : Protowire) (num typ : ℕ) (b : Bytes) (m : IntentMessage)
    → 10 ≤ num
    → decode_case w num typ b m ≡ skip w (with_number "intent: unknown field %d" num) num typ b m
unfolding decode_case
unknown_case w num typ b m lo = ground arith

-- The message with the fields up to one of them, and the others empty.
module _ (m : IntentMessage) where
  abbrev upto_signature : Bytes → IntentMessage
  upto_signature v = record m { signature = v; logger = none }

  abbrev upto_metadata : Assoc Bytes → IntentMessage
  upto_metadata v = record (upto_signature []) { metadata = v }

  abbrev upto_trust_score : Float32 → IntentMessage
  upto_trust_score v = record (upto_metadata []) { trust_score = v }

  abbrev upto_timestamp : ℤ → IntentMessage
  upto_timestamp v = record (upto_trust_score 0) { timestamp = v }

  abbrev upto_payload : Bytes → IntentMessage
  upto_payload v = record (upto_timestamp (pos 0)) { payload = v }

  abbrev upto_did : Bytes → IntentMessage
  upto_did v = record (upto_payload []) { did = v }

  abbrev upto_capabilities : List Bytes → IntentMessage
  upto_capabilities v = record (upto_did []) { capabilities = v }

  abbrev upto_vector : List Float32 → IntentMessage
  upto_vector v = record (upto_capabilities []) { intent_vector = v }

  abbrev upto_id : Bytes → IntentMessage
  upto_id v = record (upto_vector []) { id = v }

module _ (w : Protowire) (laws : IsProtowire w) (m : IntentMessage) (h : IsGoIntent w m) where
  -- The encoder's methods, in the order of the calls.
  encode-Writes :
      m.trust_score ≢ sign_bit
      → Writes w
          (message "intent: invalid tag")
          (decode_case w)
          empty
          (encode w m)
          (record m { logger = none })
  unfolding encode decode_case
  encode-Writes hz =
      let bad = message "intent: invalid tag" in
      let step = decode_case w in
      let s1 =
        Writes-str w laws bad step 1 _ (upto_id m) m.id _ (omega arith) h.id_fits (λ b. refl)
          (Writes-empty w laws bad step) in
      let s2 =
        Writes-packed_f32 w laws bad step 2 _ (upto_vector m) m.intent_vector _ (omega arith)
          h.vector_floats h.vector_fits (λ b. refl) s1 in
      let s3 =
        Writes-strs w laws bad step 3 _ (upto_capabilities m) m.capabilities [] _ (omega arith)
          h.capabilities_fit (λ xs b. refl) s2 in
      let s4 =
        Writes-str w laws bad step 4 _ (upto_did m) m.did _ (omega arith) h.did_fits (λ b. refl)
          s3 in
      let s5 =
        Writes-str w laws bad step 5 _ (upto_payload m) m.payload _ (omega arith) h.payload_fits
          (λ b. refl) s4 in
      let s6 =
        Writes-i64 w laws bad step 6 _ (upto_timestamp m) m.timestamp _ (omega arith)
          h.timestamp_int64 (λ b. refl) s5 in
      let s7 =
        Writes-f32 w laws bad step 7 _ (upto_trust_score m) m.trust_score _ (omega arith)
          h.trust_score_float hz (λ b. refl) s6 in
      let s8 =
        Writes-str_map w laws bad step 8 _ (upto_metadata m) m.metadata [] _ (omega arith)
          h.metadata_fits h.metadata_map (λ xs b. refl) s7 in
      Writes-bytes w laws bad step 9 _ (upto_signature m) m.signature _ (omega arith)
        h.signature_fits (λ b. refl) s8

  -- Decoding an encoded intent, whose fields are values of their Go types, gives it back, whatever
  -- the order in which its metadata was written, less its logger, if its trust score is not the
  -- negative zero.
  pub decode-encode_intent :
      m.trust_score ≢ sign_bit → decode w (encode w m) ≡ ok (record m { logger = none })
  unfolding decode
  decode-encode_intent hz = Writes-decode w laws _ _ (encode-Writes hz)

  -- A field of bytes with a number from 10 on, which the decoder does not know, behind an encoded
  -- intent whose fields are values of their Go types, is skipped: the intent comes back as if the
  -- field were not there, if its trust score is not the negative zero.
  pub decode-encode_unknown :
      (num : ℕ) (value : Bytes)
      → m.trust_score ≢ sign_bit
      → 10 ≤ num
      → num < 2 ^ 29
      → FitsSlice value
      → decode w (encode w m ++ (w.append_tag [] num bytes_type ++ w.append_bytes [] value))
        ≡ ok (record m { logger = none })
  unfolding decode
  decode-encode_unknown num value hz lo hi fits = Writes-decode w laws _ _ (
      Writes-chunk w laws _ _ num bytes_type (w.append_bytes [] value) _ _ _ _ (omega arith)
        (omega arith) refl
        (λ rest.
          unknown_case w num bytes_type _ _ lo ∙ rw (laws.field_value_read num value rest fits))
        (encode-Writes hz))
