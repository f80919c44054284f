-- ===== src/Wire/Writes.antt =====
-- core/encoding.go: what the buffer of an encoder decodes to, after each method of `enc`.
use agent_semantic_protocol.Common.{
  ℕ, ◌*◌, ◌<◌, ◌^◌, ◌≡◌, refl, sym, ◌∙◌, Bool, true, false, List, [], ◌∷◌, ◌++◌, Bytes, length,
  arith, append-nil, append_assoc, All, ◌≢◌, inl, inr, Bool-cases, not, ◌==◌,
}
use agent_semantic_protocol.Common.Int64.{
  ℤ, pos, IsInt64, uint64, int64, uint64-lt, int64-uint64, is_zero, is_zero→eq,
}
use agent_semantic_protocol.Common.Outcome.{Error, ok}
use agent_semantic_protocol.Wire.Protowire.{
  Protowire, IsProtowire, IsFieldNumber, FitsSlice, bytes_type, varint_type, fixed32_type,
}
use agent_semantic_protocol.Wire.Float32.{Float32, IsFloat32, equals_zero, sign_bit}
use mathlib.Core.Path.{subst}
use agent_semantic_protocol.Wire.Encoder.{str, bytes, i64, f32, boolean, packed_f32, pack_loop}
use agent_semantic_protocol.Wire.Fields.{
  Case, decode_from, decode_loop, read_string, read_bytes, read_varint, read_fixed32,
  decode_packed_f32,
}
use agent_semantic_protocol.Wire.Loop.{decode_chunk}
use agent_semantic_protocol.Wire.Packed.{decode_packed_f32-pack_loop, length-pack_loop}

-- Decoding the buffer, from the message `m0`, gives `m` and goes on with whatever follows.
pub record Writes {ℓ} {M : Type ℓ} (w : Protowire) (bad_tag : Error) (step : Case M) (m0 : M)
    (buf : Bytes) (m : M) : Type ℓ where
  pub at :
      (rest : Bytes)
      → decode_from w bad_tag step (buf ++ rest) m0 ≡ decode_from w bad_tag step rest m

module _ (w : Protowire) (laws : IsProtowire w) where
  -- What each `append` pair of `enc` leaves in the buffer.
  pub tag_string :
      (num : ℕ) (s buf : Bytes)
      → w.append_string (w.append_tag buf num bytes_type) s
        ≡ buf ++ (w.append_tag [] num bytes_type ++ w.append_string [] s)
  tag_string num s buf =
      laws.string_appends _ s ∙ rw (laws.tag_appends buf num bytes_type) (append_assoc buf _ _)

  pub tag_bytes :
      (num : ℕ) (s buf : Bytes)
      → w.append_bytes (w.append_tag buf num bytes_type) s
        ≡ buf ++ (w.append_tag [] num bytes_type ++ w.append_bytes [] s)
  tag_bytes num s buf =
      laws.bytes_appends _ s ∙ rw (laws.tag_appends buf num bytes_type) (append_assoc buf _ _)

  pub tag_varint :
      (num v : ℕ) (buf : Bytes)
      → w.append_varint (w.append_tag buf num varint_type) v
        ≡ buf ++ (w.append_tag [] num varint_type ++ w.append_varint [] v)
  tag_varint num v buf =
      laws.varint_appends _ v ∙ rw (laws.tag_appends buf num varint_type) (append_assoc buf _ _)

  pub tag_fixed32 :
      (num v : ℕ) (buf : Bytes)
      → w.append_fixed32 (w.append_tag buf num fixed32_type) v
        ≡ buf ++ (w.append_tag [] num fixed32_type ++ w.append_fixed32 [] v)
  tag_fixed32 num v buf =
      laws.fixed32_appends _ v ∙ rw (laws.tag_appends buf num fixed32_type) (append_assoc buf _ _)

module _ {ℓ} {M : Type ℓ} (w : Protowire) (laws : IsProtowire w) (bad_tag : Error) (step : Case M)
    {m0 : M} where
  pub Writes-empty : Writes w bad_tag step m0 [] m0
  Writes-empty = record { at = λ rest. refl }

  -- A buffer with nothing behind it decodes to the message.
  pub Writes-decode :
      {buf : Bytes} {m : M}
      → Writes w bad_tag step m0 buf m
      → decode_from w bad_tag step buf m0 ≡ ok m
  unfolding decode_loop
  Writes-decode {buf} h = rw (append-nil buf) at (h.at [])

  pub Writes-chunk :
      (num typ : ℕ) (value buf buf' : Bytes) (m m' : M)
      → IsFieldNumber num
      → typ < 8
      → buf' ≡ buf ++ (w.append_tag [] num typ ++ value)
      → ((rest : Bytes) → step num typ (value ++ rest) m ≡ ok (m', length value))
      → Writes w bad_tag step m0 buf m
      → Writes w bad_tag step m0 buf' m'
  Writes-chunk num typ value buf buf' m m' hn ht eb es h = record {
    at = λ rest.
        rw (eb, append_assoc)
          (h.at _ ∙ decode_chunk w laws bad_tag step num typ value rest m m' hn ht (es rest));
  }

  -- `set` is what the case of the field does with its value; at the value that is not written it
  -- must change nothing.
  pub Writes-str :
      (num : ℕ) (e : Error) (set : Bytes → M) (s buf : Bytes)
      → IsFieldNumber num
      → FitsSlice s
      → ((body : Bytes) → step num bytes_type body (set []) ≡ read_string w e set body)
      → Writes w bad_tag step m0 buf (set [])
      → Writes w bad_tag step m0 (str w num s buf) (set s)
  unfolding str
  Writes-str num e set [] buf hn hs es h = h
  Writes-str num e set (x ∷ xs) buf hn hs es h =
      Writes-chunk num bytes_type _ buf _ (set []) (set (x ∷ xs)) hn (omega arith)
        (tag_string w laws num (x ∷ xs) buf) (λ rest. es _ ∙ rw (laws.string_read (x ∷ xs) rest hs))
        h

  pub Writes-bytes :
      (num : ℕ) (e : Error) (set : Bytes → M) (s buf : Bytes)
      → IsFieldNumber num
      → FitsSlice s
      → ((body : Bytes) → step num bytes_type body (set []) ≡ read_bytes w e set body)
      → Writes w bad_tag step m0 buf (set [])
      → Writes w bad_tag step m0 (bytes w num s buf) (set s)
  unfolding bytes
  Writes-bytes num e set [] buf hn hs es h = h
  Writes-bytes num e set (x ∷ xs) buf hn hs es h =
      Writes-chunk num bytes_type _ buf _ (set []) (set (x ∷ xs)) hn (omega arith)
        (tag_bytes w laws num (x ∷ xs) buf) (λ rest. es _ ∙ rw (laws.bytes_read (x ∷ xs) rest hs)) h

  pub Writes-i64 :
      (num : ℕ) (e : Error) (set : ℤ → M) (v : ℤ) (buf : Bytes)
      → IsFieldNumber num
      → IsInt64 v
      → ((body : Bytes)
          → step num varint_type body (set (pos 0)) ≡ read_varint w e (λ u. set (int64 u)) body)
      → Writes w bad_tag step m0 buf (set (pos 0))
      → Writes w bad_tag step m0 (i64 w num v buf) (set v)
  unfolding i64
  Writes-i64 num e set v buf hn hv es h = elim (Bool-cases (is_zero v)) [
    | inl z ↦ rw z (rw (is_zero→eq v z) h)
    | inr nz ↦ rw nz (
        Writes-chunk num varint_type (w.append_varint [] (uint64 v)) buf _ (set (pos 0)) (set v) hn
          (omega arith) (tag_varint w laws num (uint64 v) buf)
          (λ rest.
            es _ ∙ rw (laws.varint_read (uint64 v) rest (uint64-lt v)) (rw (int64-uint64 v hv)))
          h)
  ]

  pub Writes-f32 :
      (num : ℕ) (e : Error) (set : Float32 → M) (v : Float32) (buf : Bytes)
      → IsFieldNumber num
      → IsFloat32 v
      → v ≢ sign_bit
      → ((body : Bytes) → step num fixed32_type body (set 0) ≡ read_fixed32 w e set body)
      → Writes w bad_tag step m0 buf (set 0)
      → Writes w bad_tag step m0 (f32 w num v buf) (set v)
  unfolding f32
  Writes-f32 num e set v buf hn hv hz es h = elim (Bool-cases (equals_zero v)) [
    | inl z ↦
        let at_zero : v ≡ 0 = ground arith in
        rw z (subst (λ u. Writes w bad_tag step m0 buf (set u)) (sym at_zero) h)
    | inr nz ↦ rw nz (
        Writes-chunk num fixed32_type (w.append_fixed32 [] v) buf _ (set 0) (set v) hn (omega arith)
          (tag_fixed32 w laws num v buf) (λ rest. es _ ∙ rw (laws.fixed32_read v rest hv)) h)
  ]

  pub Writes-boolean :
      (num : ℕ) (e : Error) (set : Bool → M) (v : Bool) (buf : Bytes)
      → IsFieldNumber num
      → ((body : Bytes)
          → step num varint_type body (set false) ≡ read_varint w e (λ u. set (not (u == 0))) body)
      → Writes w bad_tag step m0 buf (set false)
      → Writes w bad_tag step m0 (boolean w num v buf) (set v)
  unfolding boolean
  Writes-boolean num e set false buf hn es h = h
  Writes-boolean num e set true buf hn es h =
      Writes-chunk num varint_type (w.append_varint [] 1) buf _ (set false) (set true) hn
        (omega arith) (tag_varint w laws num 1 buf)
        (λ rest. es _ ∙ rw (laws.varint_read 1 rest (omega arith))) h

  pub Writes-packed_f32 :
      (num : ℕ) (e : Error) (set : List Float32 → M) (fs : List Float32) (buf : Bytes)
      → IsFieldNumber num
      → All IsFloat32 fs
      → 4 * length fs < 2 ^ 63
      → ((body : Bytes)
          → step num bytes_type body (set [])
            ≡ read_bytes w e (λ b. set (decode_packed_f32 b)) body)
      → Writes w bad_tag step m0 buf (set [])
      → Writes w bad_tag step m0 (packed_f32 w num fs buf) (set fs)
  unfolding packed_f32
  Writes-packed_f32 num e set [] buf hn hf hl es h = h
  Writes-packed_f32 num e set (f ∷ fs) buf hn hf hl es h =
      Writes-chunk num bytes_type (w.append_bytes [] (pack_loop (f ∷ fs) [])) buf _ (set [])
        (set (f ∷ fs)) hn (omega arith) (tag_bytes w laws num (pack_loop (f ∷ fs) []) buf)
        (λ rest.
          es _
          ∙ rw
              (laws.bytes_read (pack_loop (f ∷ fs) []) rest
                (omega (arith, length-pack_loop (f ∷ fs))))
              (rw (decode_packed_f32-pack_loop (f ∷ fs) hf)))
        h
