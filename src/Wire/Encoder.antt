-- ===== src/Wire/Encoder.antt =====
-- core/encoding.go, the methods of `enc`. The buffer is the last argument, and is returned.
use agent_semantic_protocol.Common.{
  ℕ, ◌/◌, ◌%◌, Bool, List, [], ◌∷◌, ◌++◌, Bytes, is_empty, if◌then◌else◌,
}
use agent_semantic_protocol.Common.Int64.{ℤ, uint64, is_zero}
use agent_semantic_protocol.Wire.Protowire.{Protowire, varint_type, bytes_type, fixed32_type}
use agent_semantic_protocol.Wire.Float32.{Float32, equals_zero}
use agent_semantic_protocol.Wire.Maps.{Assoc}

-- `binary.LittleEndian.AppendUint32`
abbrev pub append_uint32 : Bytes → ℕ → Bytes
append_uint32 b v = b ++ (v % 256 ∷ v / 0x100 % 256 ∷ v / 0x10000 % 256 ∷ v / 0x1000000 % 256 ∷ [])

unfoldable pub pack_loop : List Float32 → Bytes → Bytes
pack_loop [] packed = packed
pack_loop (f ∷ fs) packed = pack_loop fs (append_uint32 packed f)

module _ (w : Protowire) where
  unfoldable pub str : ℕ → Bytes → Bytes → Bytes
  str field s buf =
      if is_empty s then buf else w.append_string (w.append_tag buf field bytes_type) s

  unfoldable pub bytes : ℕ → Bytes → Bytes → Bytes
  bytes field b buf =
      if is_empty b then buf else w.append_bytes (w.append_tag buf field bytes_type) b

  unfoldable pub i64 : ℕ → ℤ → Bytes → Bytes
  i64 field v buf =
      if is_zero v then buf else w.append_varint (w.append_tag buf field varint_type) (uint64 v)

  unfoldable pub f32 : ℕ → Float32 → Bytes → Bytes
  f32 field v buf =
      if equals_zero v then buf else w.append_fixed32 (w.append_tag buf field fixed32_type) v

  unfoldable pub boolean : ℕ → Bool → Bytes → Bytes
  boolean field v buf = if v then w.append_varint (w.append_tag buf field varint_type) 1 else buf

  unfoldable pub strs : ℕ → List Bytes → Bytes → Bytes
  strs field [] buf = buf
  strs field (s ∷ ss) buf = strs field ss (w.append_string (w.append_tag buf field bytes_type) s)

  unfoldable pub packed_f32 : ℕ → List Float32 → Bytes → Bytes
  packed_f32 field fs buf =
      if is_empty fs
      then buf
      else w.append_bytes (w.append_tag buf field bytes_type) (pack_loop fs [])

  -- One entry of a map: a nested message with the key as field 1 and the value as field 2.
  unfoldable pub map_entry : Bytes → Bytes → Bytes
  map_entry k v =
      let entry = w.append_tag [] 1 bytes_type in
      let entry' = w.append_string entry k in
      let entry'' = w.append_tag entry' 2 bytes_type in w.append_string entry'' v

  unfoldable pub str_map : ℕ → Assoc Bytes → Bytes → Bytes
  str_map field [] buf = buf
  str_map field ((k, v) ∷ m) buf =
      str_map field m (w.append_bytes (w.append_tag buf field bytes_type) (map_entry k v))
