-- ===== src/Tests/Varint.antt =====
-- Base 128 numbers, the lowest group first: the instance of the wire format that the tests run on.
use agent_semantic_protocol.Common.{
  ℕ, zero, suc, ◌+◌, ◌-◌, ◌*◌, ◌/◌, ◌%◌, ◌<◌, ◌≤◌, ◌^◌, ◌≡◌, refl, Option, none, some, [], ◌∷◌,
  ◌++◌, Bytes, length, ltb, if◌then◌else◌, arith, Bool-cases, inl, inr,
}

unfoldable pub varint : ℕ → ℕ → Bytes
varint zero v = v ∷ []
varint (suc k) v =
    let rest = varint k (v / 128) in if ltb v 128 then v ∷ [] else (128 + v % 128) ∷ rest

abbrev more : ℕ → Option (ℕ × ℕ) → Option (ℕ × ℕ)
more b none = none
more b (some (v, n)) = some (b - 128 + 128 * v, suc n)

unfoldable pub consume : ℕ → Bytes → Option (ℕ × ℕ)
consume k [] = none
consume zero (b ∷ bs) = none
consume (suc k) (b ∷ bs) = let tail = consume k bs in if ltb b 128 then some (b, 1) else more b tail

pub consume-varint :
    (k v : ℕ) (rest : Bytes)
    → v < 128 ^ suc k
    → consume (suc k) (varint k v ++ rest) ≡ some (v, length (varint k v))
unfolding varint consume
consume-varint zero v rest h = ground arith
consume-varint (suc k) v rest h = ground (arith, consume-varint k (v / 128) rest (omega arith))

more_inv :
    (b : ℕ) (o : Option (ℕ × ℕ)) (v n : ℕ)
    → more b o ≡ some (v, n)
    → (u : ℕ) × (j : ℕ) × (o ≡ some (u, j)) × (n ≡ suc j)
more_inv b none v n e = cc
more_inv b (some (u, j)) v n e = (u, j, refl, ground arith)

pub consume-length :
    (k : ℕ) (b : Bytes) (v n : ℕ) → consume k b ≡ some (v, n) → (1 ≤ n) × (n ≤ length b)
unfolding consume
consume-length k [] v n e = ground arith
consume-length zero (b ∷ bs) v n e = ground arith
consume-length (suc k) (b ∷ bs) v n e = elim (Bool-cases (ltb b 128)) [
  | inl last ↦ ground arith
  | inr inner ↦
      let (u, j, tail, size) = more_inv b (consume k bs) v n (rw inner at e) in
      omega (arith, consume-length k bs u j tail)
]
