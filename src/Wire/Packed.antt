-- ===== src/Wire/Packed.antt =====
-- core/encoding.go, `packedF32` and `decodePackedF32`: four bytes for each float.
use agent_semantic_protocol.Common.{
  ◌*◌, ◌/◌, ◌%◌, ◌≡◌, sym, ◌∙◌, List, [], ◌∷◌, ◌++◌, Bytes, length, arith, append-nil, append_assoc,
  All,
}
use agent_semantic_protocol.Wire.Float32.{Float32, IsFloat32}
use agent_semantic_protocol.Wire.Encoder.{append_uint32, pack_loop}
use agent_semantic_protocol.Wire.Fields.{uint32_le, unpack_loop, decode_packed_f32}

abbrev floats_bytes : List Float32 → Bytes
floats_bytes [] = []
floats_bytes (f ∷ fs) = append_uint32 [] f ++ floats_bytes fs

pack_loop-append :
    (fs : List Float32) (packed : Bytes) → pack_loop fs packed ≡ packed ++ floats_bytes fs
unfolding pack_loop
pack_loop-append [] packed = sym (append-nil packed)
pack_loop-append (f ∷ fs) packed =
    pack_loop-append fs (append_uint32 packed f) ∙ append_assoc packed _ (floats_bytes fs)

uint32_le_lem :
    (f : Float32)
    → IsFloat32 f
    → uint32_le (f % 256) (f / 0x100 % 256) (f / 0x10000 % 256) (f / 0x1000000 % 256) ≡ f
uint32_le_lem f h = omega arith

unpack_loop-floats :
    (fs out : List Float32) → All IsFloat32 fs → unpack_loop (floats_bytes fs) out ≡ out ++ fs
unfolding unpack_loop
unpack_loop-floats [] out h = sym (append-nil out)
unpack_loop-floats (f ∷ fs) out (hf, hfs) =
    rw (uint32_le_lem f hf)
      (unpack_loop-floats fs (out ++ (f ∷ [])) hfs ∙ append_assoc out (f ∷ []) fs)

-- A packed list of floats is read back.
pub decode_packed_f32-pack_loop :
    (fs : List Float32) → All IsFloat32 fs → decode_packed_f32 (pack_loop fs []) ≡ fs
unfolding decode_packed_f32
decode_packed_f32-pack_loop fs h = rw (pack_loop-append fs []) (unpack_loop-floats fs [] h)

length-floats : (fs : List Float32) → length (floats_bytes fs) ≡ 4 * length fs
length-floats [] = omega arith
length-floats (f ∷ fs) = omega (arith, length-floats fs)

pub length-pack_loop : (fs : List Float32) → length (pack_loop fs []) ≡ 4 * length fs
length-pack_loop fs = rw (pack_loop-append fs []) (length-floats fs)
