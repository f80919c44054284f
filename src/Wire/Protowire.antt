-- ===== src/Wire/Protowire.antt =====
-- google.golang.org/protobuf/encoding/protowire, which core/encoding.go calls and does not contain.
use agent_semantic_protocol.Common.{ℕ, ◌^◌, ◌≤◌, ◌<◌, ◌≡◌, Option, some, [], ◌++◌, Bytes, length}

-- The functions that are called. A consumer that answers a negative length answers `none` here.
pub record Protowire : Type 0 where
  pub append_tag : Bytes → ℕ → ℕ → Bytes
  pub append_string : Bytes → Bytes → Bytes
  pub append_bytes : Bytes → Bytes → Bytes
  pub append_varint : Bytes → ℕ → Bytes
  pub append_fixed32 : Bytes → ℕ → Bytes
  pub consume_tag : Bytes → Option (ℕ × ℕ × ℕ)
  pub consume_string : Bytes → Option (Bytes × ℕ)
  pub consume_bytes : Bytes → Option (Bytes × ℕ)
  pub consume_varint : Bytes → Option (ℕ × ℕ)
  pub consume_fixed32 : Bytes → Option (ℕ × ℕ)
  pub consume_field_value : ℕ → ℕ → Bytes → Option ℕ

-- `protowire.VarintType`, `BytesType` and `Fixed32Type`.
abbrev pub varint_type : ℕ
varint_type = 0

abbrev pub bytes_type : ℕ
bytes_type = 2

abbrev pub fixed32_type : ℕ
fixed32_type = 5

-- The field numbers that a tag can carry.
abbrev pub IsFieldNumber : ℕ → Type 0
IsFieldNumber num = (1 ≤ num) × (num < 2 ^ 29)

-- The length of a Go slice is an int.
abbrev pub FitsSlice : Bytes → Type 0
FitsSlice b = length b < 2 ^ 63

-- What the package documents: an `Append` function appends its encoding to the buffer, and the
-- `Consume` function of the same kind parses that encoding at the front of its input and reports
-- its length, as `ConsumeFieldValue` does. A length that is reported for any input lies within that
-- input, and the length of a tag is at least one byte.
pub record IsProtowire (w : Protowire) : Type 0 where
  pub tag_appends :
      (b : Bytes) (num typ : ℕ) → w.append_tag b num typ ≡ b ++ w.append_tag [] num typ
  pub string_appends : (b s : Bytes) → w.append_string b s ≡ b ++ w.append_string [] s
  pub bytes_appends : (b s : Bytes) → w.append_bytes b s ≡ b ++ w.append_bytes [] s
  pub varint_appends : (b : Bytes) (v : ℕ) → w.append_varint b v ≡ b ++ w.append_varint [] v
  pub fixed32_appends : (b : Bytes) (v : ℕ) → w.append_fixed32 b v ≡ b ++ w.append_fixed32 [] v
  pub tag_read :
      (num typ : ℕ) (rest : Bytes)
      → IsFieldNumber num
      → typ < 8
      → w.consume_tag (w.append_tag [] num typ ++ rest)
        ≡ some (num, typ, length (w.append_tag [] num typ))
  pub string_read :
      (s rest : Bytes)
      → FitsSlice s
      → w.consume_string (w.append_string [] s ++ rest) ≡ some (s, length (w.append_string [] s))
  pub bytes_read :
      (s rest : Bytes)
      → FitsSlice s
      → w.consume_bytes (w.append_bytes [] s ++ rest) ≡ some (s, length (w.append_bytes [] s))
  pub varint_read :
      (v : ℕ) (rest : Bytes)
      → v < 2 ^ 64
      → w.consume_varint (w.append_varint [] v ++ rest) ≡ some (v, length (w.append_varint [] v))
  pub fixed32_read :
      (v : ℕ) (rest : Bytes)
      → v < 2 ^ 32
      → w.consume_fixed32 (w.append_fixed32 [] v ++ rest) ≡ some (v, length (w.append_fixed32 [] v))
  pub field_value_read :
      (num : ℕ) (s rest : Bytes)
      → FitsSlice s
      → w.consume_field_value num bytes_type (w.append_bytes [] s ++ rest)
        ≡ some (length (w.append_bytes [] s))
  pub tag_length :
      (b : Bytes) (num typ n : ℕ) → w.consume_tag b ≡ some (num, typ, n) → (1 ≤ n) × (n ≤ length b)
  pub string_length : (b : Bytes) (r : Bytes × ℕ) → w.consume_string b ≡ some r → r.1 ≤ length b
  pub bytes_length : (b : Bytes) (r : Bytes × ℕ) → w.consume_bytes b ≡ some r → r.1 ≤ length b
  pub varint_length : (b : Bytes) (r : ℕ × ℕ) → w.consume_varint b ≡ some r → r.1 ≤ length b
  pub fixed32_length : (b : Bytes) (r : ℕ × ℕ) → w.consume_fixed32 b ≡ some r → r.1 ≤ length b
  pub field_value_length :
      (num typ : ℕ) (b : Bytes) (n : ℕ) → w.consume_field_value num typ b ≡ some n → n ≤ length b
