-- ===== src/Ranking/Similarity.antt =====
-- core/negotiation.go: laws of the cosine similarity.
use agent_semantic_protocol.Common.{
  ◌≡◌, refl, sym, ap, Bool, true, false, not, ◌||◌, List, [], ◌∷◌, is_empty, length, if◌then◌else◌,
  ◌==◌, arith,
}
use agent_semantic_protocol.Wire.Float32.{Float32}
use agent_semantic_protocol.Ranking.{Double, sums_loop, quotient, cosine_similarity}

-- Products do not depend on the order of their factors, as IEEE 754 says.
pub record IsDouble {W : Type 0} (d : Double W) : Type 0 where
  pub plus_times_comm : (acc x y : W) → d.plus_times acc x y ≡ d.plus_times acc y x
  pub times_comm : (x y : W) → d.times x y ≡ d.times y x

-- The guard of the similarity.
abbrev guarded : List Float32 → List Float32 → Bool
guarded a b = not (length a == length b) || is_empty a

guarded_comm : (a b : List Float32) → guarded b a ≡ guarded a b
guarded_comm [] [] = refl
guarded_comm [] (y ∷ b) = ground arith
guarded_comm (x ∷ a) [] = ground arith
guarded_comm (x ∷ a) (y ∷ b) = ground arith

module _ {W : Type 0} (d : Double W) (laws : IsDouble d) where
  abbrev swapped : W × W × W → W × W × W
  swapped (dot, norm_a, norm_b) = (dot, norm_b, norm_a)

  sums_loop-swap :
      (a b : List Float32) (dot norm_a norm_b : W)
      → sums_loop d b a dot norm_b norm_a ≡ swapped (sums_loop d a b dot norm_a norm_b)
  unfolding sums_loop
  sums_loop-swap [] [] dot norm_a norm_b = refl
  sums_loop-swap [] (y ∷ b) dot norm_a norm_b = refl
  sums_loop-swap (x ∷ a) [] dot norm_a norm_b = refl
  sums_loop-swap (x ∷ a) (y ∷ b) dot norm_a norm_b =
      rw (laws.plus_times_comm dot (d.of_float32 y) (d.of_float32 x)) (sums_loop-swap a b _ _ _)

  quotient-swap : (s : W × W × W) → quotient d (swapped s) ≡ quotient d s
  quotient-swap (dot, norm_a, norm_b) = rw (laws.times_comm (d.root norm_b) (d.root norm_a)) (
      one (d.equal norm_a d.nought) (d.equal norm_b d.nought) d.nought
        (d.over dot (d.times (d.root norm_a) (d.root norm_b))))
    where
      one : (p q : Bool) (x y : W) → (if q || p then x else y) ≡ (if p || q then x else y)
      one true true x y = refl
      one true false x y = refl
      one false true x y = refl
      one false false x y = refl

  -- The similarity does not depend on the order of the two vectors, whatever their lengths.
  pub cosine_similarity_comm :
      (a b : List Float32) → cosine_similarity d a b ≡ cosine_similarity d b a
  unfolding cosine_similarity
  cosine_similarity_comm a b =
      rw (guarded_comm a b, sums_loop-swap a b d.nought d.nought d.nought)
        (ap (λ (q : W). if guarded a b then d.nought else q)
          (sym (quotient-swap (sums_loop d a b d.nought d.nought d.nought))))
