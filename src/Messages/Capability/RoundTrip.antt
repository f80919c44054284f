-- ===== src/Messages/Capability/RoundTrip.antt =====
-- core/encoding.go: decoding an announcement that was encoded.
use agent_semantic_protocol.Common.{◌≡◌, refl, List, [], Bytes, All, arith}
use agent_semantic_protocol.Common.Int64.{ℤ, pos, IsInt64}
use agent_semantic_protocol.Common.Outcome.{message, ok}
use agent_semantic_protocol.Wire.Protowire.{Protowire, IsProtowire, FitsSlice}
use agent_semantic_protocol.Wire.Writes.{
  Writes, Writes-empty, Writes-decode, Writes-str, Writes-i64,
}
use agent_semantic_protocol.Wire.Repeated.{Writes-strs}
use agent_semantic_protocol.Messages.Types.{CapabilityAnnouncement}
use agent_semantic_protocol.Messages.Capability.{empty, encode, decode_case, decode}

-- The ranges of the Go types.
pub record IsGoAnnouncement (m : CapabilityAnnouncement) : Type 0 where
  pub agent_id_fits : FitsSlice m.agent_id
  pub did_fits : FitsSlice m.did
  pub capabilities_fit : All FitsSlice m.capabilities
  pub timestamp_int64 : IsInt64 m.timestamp
  pub ttl_int64 : IsInt64 m.ttl

-- The message with the fields up to one of them, and the others empty.
module _ (m : CapabilityAnnouncement) where
  abbrev upto_ttl : ℤ → CapabilityAnnouncement
  upto_ttl v = record m { ttl = v }

  abbrev upto_timestamp : ℤ → CapabilityAnnouncement
  upto_timestamp v = record (upto_ttl (pos 0)) { timestamp = v }

  abbrev upto_capabilities : List Bytes → CapabilityAnnouncement
  upto_capabilities v = record (upto_timestamp (pos 0)) { capabilities = v }

  abbrev upto_did : Bytes → CapabilityAnnouncement
  upto_did v = record (upto_capabilities []) { did = v }

  abbrev upto_agent_id : Bytes → CapabilityAnnouncement
  upto_agent_id v = record (upto_did []) { agent_id = v }

module _ (w : Protowire) (laws : IsProtowire w) (m : CapabilityAnnouncement)
    (h : IsGoAnnouncement m) where
  -- The encoder's methods, in the order of the calls.
  encode-Writes : Writes w (message "capability: invalid tag") (decode_case w) empty (encode w m) m
  unfolding encode decode_case
  encode-Writes =
      let bad = message "capability: invalid tag" in
      let step = decode_case w in
      let s1 =
        Writes-str w laws bad step 1 _ (upto_agent_id m) m.agent_id _ (omega arith) h.agent_id_fits
          (λ b. refl) (Writes-empty w laws bad step) in
      let s2 =
        Writes-str w laws bad step 2 _ (upto_did m) m.did _ (omega arith) h.did_fits (λ b. refl)
          s1 in
      let s3 =
        Writes-strs w laws bad step 3 _ (upto_capabilities m) m.capabilities [] _ (omega arith)
          h.capabilities_fit (λ xs b. refl) s2 in
      let s4 =
        Writes-i64 w laws bad step 4 _ (upto_timestamp m) m.timestamp _ (omega arith)
          h.timestamp_int64 (λ b. refl) s3 in
      Writes-i64 w laws bad step 5 _ (upto_ttl m) m.ttl _ (omega arith) h.ttl_int64 (λ b. refl) s4

  -- Decoding an encoded announcement, whose fields are values of their Go types, gives it back with
  -- every field as it was.
  pub decode-encode_announcement : decode w (encode w m) ≡ ok m
  unfolding decode
  decode-encode_announcement = Writes-decode w laws _ _ encode-Writes
