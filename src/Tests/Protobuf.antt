-- ===== src/Tests/Protobuf.antt =====
-- A wire format that the laws hold of: the Protobuf encoding itself.
use agent_semantic_protocol.Common.{
  ℕ, ◌+◌, ◌*◌, ◌/◌, ◌%◌, ◌<◌, ◌≤◌, ◌^◌, ◌≡◌, refl, Option, none, some, [], ◌∷◌, ◌++◌, Bytes, length,
  take, drop, ltb, ◌==◌, if◌then◌else◌, arith, length-append, length-drop, drop-append, take-append,
  append_assoc,
}
use agent_semantic_protocol.Wire.Protowire.{Protowire, IsProtowire, IsFieldNumber, FitsSlice}
use agent_semantic_protocol.Wire.Encoder.{append_uint32}
use agent_semantic_protocol.Wire.Fields.{uint32_le}
use agent_semantic_protocol.Tests.Varint.{varint, consume, consume-varint, consume-length}

-- A number with no unused groups.
abbrev number : ℕ → Bytes
number v = varint 9 v

abbrev read_number : Bytes → Option (ℕ × ℕ)
read_number b = consume 10 b

abbrev tag_of : Option (ℕ × ℕ) → Option (ℕ × ℕ × ℕ)
tag_of none = none
tag_of (some (v, n)) = if ltb v 8 then none else some (v / 8, v % 8, n)

-- A length and as many bytes.
abbrev delimited : Bytes → Option (ℕ × ℕ) → Option (Bytes × ℕ)
delimited b none = none
delimited b (some (len, n)) =
    if ltb (length (drop n b)) len then none else some (take len (drop n b), n + len)

abbrev four : Bytes → Option (ℕ × ℕ)
four (a ∷ b ∷ c ∷ d ∷ _) = some (uint32_le a b c d, 4)
four _ = none

abbrev size {ℓ} : {A : Type ℓ} → Option (A × ℕ) → Option ℕ
size none = none
size (some (a, n)) = some n

-- The length of a value of each wire type; groups are left out.
abbrev value_length : ℕ → Bytes → Option ℕ
value_length typ b =
    if typ == 0
    then size (read_number b)
    else if typ == 2
    then size (delimited b (read_number b))
    else if typ == 5
    then size (four b)
    else none

abbrev pub protobuf : Protowire
protobuf = record {
  append_tag = λ b num typ. b ++ number (num * 8 + typ);
  append_string = λ b s. b ++ (number (length s) ++ s);
  append_bytes = λ b s. b ++ (number (length s) ++ s);
  append_varint = λ b v. b ++ number v;
  append_fixed32 = λ b v. append_uint32 b v;
  consume_tag = λ b. tag_of (read_number b);
  consume_string = λ b. delimited b (read_number b);
  consume_bytes = λ b. delimited b (read_number b);
  consume_varint = read_number;
  consume_fixed32 = four;
  consume_field_value = λ num typ b. value_length typ b;
}

number_read :
    (v : ℕ) (rest : Bytes)
    → v < 2 ^ 64
    → read_number (number v ++ rest) ≡ some (v, length (number v))
number_read v rest h = consume-varint 9 v rest (omega arith)

tag_read :
    (num typ : ℕ) (rest : Bytes)
    → IsFieldNumber num
    → typ < 8
    → tag_of (read_number (number (num * 8 + typ) ++ rest))
      ≡ some (num, typ, length (number (num * 8 + typ)))
tag_read num typ rest hn ht = rw (number_read (num * 8 + typ) rest (omega arith)) (ground arith)

delimited_read :
    (s rest : Bytes)
    → FitsSlice s
    → delimited ((number (length s) ++ s) ++ rest) (read_number ((number (length s) ++ s) ++ rest))
      ≡ some (s, length (number (length s) ++ s))
delimited_read s rest h =
    rw
      (
        append_assoc,
        number_read (length s) (s ++ rest) (omega arith),
        drop-append (number (length s)) (s ++ rest),
        take-append s rest,
      )
      (ground (arith, length-append s rest, length-append (number (length s)) s))

tag_inv :
    (o : Option (ℕ × ℕ)) (num typ n : ℕ)
    → tag_of o ≡ some (num, typ, n)
    → (v : ℕ) × (o ≡ some (v, n))
tag_inv none num typ n e = cc
tag_inv (some (v, j)) num typ n e = (v, ground arith)

fixed32_read :
    (v : ℕ) (rest : Bytes)
    → v < 2 ^ 32
    → four (append_uint32 [] v ++ rest) ≡ some (v, length (append_uint32 [] v))
fixed32_read v rest h = ground arith

tag_length :
    (b : Bytes) (num typ n : ℕ)
    → tag_of (read_number b) ≡ some (num, typ, n)
    → (1 ≤ n) × (n ≤ length b)
tag_length b num typ n e =
    let (v, read) = tag_inv (read_number b) num typ n e in consume-length 10 b v n read

read_number-length : (b : Bytes) (r : ℕ × ℕ) → read_number b ≡ some r → r.1 ≤ length b
read_number-length b (v, n) e = (consume-length 10 b v n e).1

delimited-length :
    (b : Bytes) (o : Option (ℕ × ℕ)) (r : Bytes × ℕ)
    → read_number b ≡ o
    → delimited b o ≡ some r
    → r.1 ≤ length b
delimited-length b none r h e = cc
delimited-length b (some (len, n)) (s, k) h e =
    ground (arith, read_number-length b (len, n) h, length-drop n b)

four-length : (b : Bytes) (r : ℕ × ℕ) → four b ≡ some r → r.1 ≤ length b
four-length (a ∷ b ∷ c ∷ d ∷ rest) (v, n) e = ground arith
four-length [] r e = cc
four-length (a ∷ []) r e = cc
four-length (a ∷ b ∷ []) r e = cc
four-length (a ∷ b ∷ c ∷ []) r e = cc

size-length {ℓ} :
    {A : Type ℓ} (b : Bytes) (o : Option (A × ℕ)) (n : ℕ)
    → ((r : A × ℕ) → o ≡ some r → r.1 ≤ length b)
    → size o ≡ some n
    → n ≤ length b
size-length b none n h e = cc
size-length b (some (a, k)) n h e = let within = h (a, k) refl in ground arith

value_length-within : (num typ : ℕ) (b : Bytes) (n : ℕ) → value_length typ b ≡ some n → n ≤ length b
value_length-within num typ b n e = ground (
  arith,
  size-length b (read_number b) n (read_number-length b),
  size-length b (delimited b (read_number b)) n (λ r. delimited-length b _ r refl),
  size-length b (four b) n (four-length b),
)

pub protobuf-IsProtowire : IsProtowire protobuf
protobuf-IsProtowire = record {
  tag_appends = λ b num typ. refl;
  string_appends = λ b s. refl;
  bytes_appends = λ b s. refl;
  varint_appends = λ b v. refl;
  fixed32_appends = λ b v. refl;
  tag_read = tag_read;
  string_read = delimited_read;
  bytes_read = delimited_read;
  varint_read = number_read;
  fixed32_read = fixed32_read;
  field_value_read = λ num s rest h. rw (delimited_read s rest h);
  tag_length = tag_length;
  string_length = λ b r. delimited-length b (read_number b) r refl;
  bytes_length = λ b r. delimited-length b (read_number b) r refl;
  varint_length = read_number-length;
  fixed32_length = four-length;
  field_value_length = value_length-within;
}
