-- ===== src/Wire/Fields.antt =====
-- core/encoding.go: the loop that every decoder runs, and the ways to read the value of a field.
-- Each `case` of a decoder ends in `data = data[n2:]`; here the case returns `n2`, and the loop
-- takes that slice, which panics past the end.
use agent_semantic_protocol.Common.{
  ℕ, zero, suc, ◌+◌, ◌*◌, List, [], ◌∷◌, ◌++◌, Bytes, length, drop, leb, ◌==◌, if◌then◌else◌,
}
use agent_semantic_protocol.Common.Outcome.{Error, message, Result, ok, panic, stuck, ◌>>=◌, want}
use agent_semantic_protocol.Wire.Protowire.{Protowire, bytes_type}
use agent_semantic_protocol.Wire.Float32.{Float32}

-- `binary.LittleEndian.Uint32(packed[:4])`
abbrev pub uint32_le : ℕ → ℕ → ℕ → ℕ → ℕ
uint32_le a b c d = a + b * 0x100 + c * 0x10000 + d * 0x1000000

unfoldable pub unpack_loop : Bytes → List Float32 → List Float32
unpack_loop (a ∷ b ∷ c ∷ d ∷ packed) out = unpack_loop packed (out ++ (uint32_le a b c d ∷ []))
unpack_loop _ out = out

unfoldable pub decode_packed_f32 : Bytes → List Float32
unfolding unpack_loop
decode_packed_f32 packed = unpack_loop packed []

-- `data[n:]`
unfoldable pub slice_from : ℕ → Bytes → Result Bytes
slice_from n body = if leb n (length body) then ok (drop n body) else panic

-- What the `switch` of a decoder does at a field number, a wire type, the bytes behind the tag and
-- the message so far: the message with the field set, and how many bytes the value took.
abbrev pub Case {ℓ} : Type ℓ → Type ℓ
Case M = ℕ → ℕ → Bytes → M → Result (M × ℕ)

module _ (w : Protowire) where
  -- `for len(data) > 0 { … }`. Each round takes a byte at least, so the length is enough fuel.
  unfoldable pub decode_loop {ℓ} : {M : Type ℓ} → Error → Case M → ℕ → Bytes → M → Result M
  decode_loop bad_tag step fuel [] m = ok m
  decode_loop bad_tag step zero (b ∷ bs) m = stuck
  decode_loop bad_tag step (suc fuel) (b ∷ bs) m = do
    (num, typ, n) ← want bad_tag (w.consume_tag (b ∷ bs))
    body ← slice_from n (b ∷ bs)
    (m', n2) ← step num typ body m
    rest ← slice_from n2 body
    decode_loop bad_tag step fuel rest m'

  abbrev pub decode_from {ℓ} : {M : Type ℓ} → Error → Case M → Bytes → M → Result M
  decode_from bad_tag step bytes m = decode_loop bad_tag step (length bytes) bytes m

  module _ {ℓ} {M : Type ℓ} where
    abbrev pub read_string : Error → (Bytes → M) → Bytes → Result (M × ℕ)
    read_string e set body = do (s, n2) ← want e (w.consume_string body); ok (set s, n2)

    abbrev pub read_bytes : Error → (Bytes → M) → Bytes → Result (M × ℕ)
    read_bytes e set body = do (b, n2) ← want e (w.consume_bytes body); ok (set b, n2)

    abbrev pub read_varint : Error → (ℕ → M) → Bytes → Result (M × ℕ)
    read_varint e set body = do (v, n2) ← want e (w.consume_varint body); ok (set v, n2)

    abbrev pub read_fixed32 : Error → (ℕ → M) → Bytes → Result (M × ℕ)
    read_fixed32 e set body = do (v, n2) ← want e (w.consume_fixed32 body); ok (set v, n2)

    -- The `default` of a `switch`: the value is skipped.
    abbrev pub skip : Error → ℕ → ℕ → Bytes → M → Result (M × ℕ)
    skip e num typ body m = do n2 ← want e (w.consume_field_value num typ body); ok (m, n2)

  -- `decodeStrMapEntry`, whose `default` skips by `protowire.BytesType` whatever the tag says.
  unfoldable pub entry_case : Case (Bytes × Bytes)
  entry_case num typ body (key, val) =
      if num == 1
      then read_string (message "invalid map key") (λ s. (s, val)) body
      else if num == 2
      then read_string (message "invalid map value") (λ s. (key, s)) body
      else skip (message "invalid map entry field") num bytes_type body (key, val)

  unfoldable pub decode_str_map_entry : Bytes → Result (Bytes × Bytes)
  decode_str_map_entry b = decode_from (message "invalid map entry tag") entry_case b ([], [])

  -- A map field: the entry's bytes, then the entry, whose error is returned as it is.
  abbrev pub read_entry {ℓ} : {M : Type ℓ} → Error → (Bytes → Bytes → M) → Bytes → Result (M × ℕ)
  read_entry e set body = do
    (b, n2) ← want e (w.consume_bytes body)
    (k, v) ← decode_str_map_entry b
    ok (set k v, n2)
