-- ===== src/Wire/Float32.antt =====
-- Go's float32, as its IEEE 754 bit pattern: sign, eight bits of exponent, 23 bits of mantissa.
-- `math.Float32bits` and `math.Float32frombits` are then the identity.
use agent_semantic_protocol.Common.{
  ℕ, ◌+◌, ◌-◌, ◌%◌, ◌^◌, ◌<◌, Bool, false, ◌&&◌, not, ltb, leb, ◌==◌, if◌then◌else◌,
}

abbrev pub Float32 : Type 0
Float32 = ℕ

abbrev pub IsFloat32 : Float32 → Type 0
IsFloat32 v = v < 2 ^ 32

abbrev pub sign_bit : ℕ
sign_bit = 0x80000000

abbrev pub is_negative : Float32 → Bool
is_negative v = leb sign_bit v

-- What is left of the pattern without its sign.
abbrev pub magnitude : Float32 → ℕ
magnitude v = v % 0x80000000

-- All exponent bits are set and the mantissa is not zero.
abbrev pub is_nan : Float32 → Bool
is_nan v = ltb 0x7f800000 (magnitude v)

-- `v == 0`, which holds of both zeros.
abbrev pub equals_zero : Float32 → Bool
equals_zero v = magnitude v == 0

-- `-v`
abbrev pub negate : Float32 → Float32
negate v = if is_negative v then v - sign_bit else v + sign_bit

-- `a < b`: false at a NaN and between the two zeros.
abbrev pub less : Float32 → Float32 → Bool
less a b =
    not (is_nan a)
    && (not (is_nan b)
        && (if is_negative a
            then (if is_negative b
                then ltb (magnitude b) (magnitude a)
                else not (equals_zero a && equals_zero b))
            else (if is_negative b then false else ltb (magnitude a) (magnitude b))))
