-- ===== src/Ranking/Positions.antt =====
-- core/negotiation.go: where RankCandidates puts a candidate with no embedding vector.
use agent_semantic_protocol.Common.{◌≡◌, ◌⊎◌, inl, inr, refl, List, [], ◌∷◌, arith, All}
use mathlib.Core.List.Permᴰ
use agent_semantic_protocol.Wire.Float32.{Float32}
use agent_semantic_protocol.Discovery.{AgentProfile}
use agent_semantic_protocol.Discovery.Find.{Lists}
use agent_semantic_protocol.Ranking.{Double, Ranked, Sort, cosine_similarity}
use agent_semantic_protocol.Ranking.Order.{IsOrder, IsSort}

All-map :
    (P Q : AgentProfile → Type 0) (xs : List AgentProfile)
    → ((p : AgentProfile) → P p → Q p)
    → All P xs
    → All Q xs
All-map P Q [] f h = tt
All-map P Q (x ∷ xs) f (h, hs) = (f x h, All-map P Q xs f hs)

pub All-Lists : (xs : List AgentProfile) → All (Lists xs) xs
All-Lists [] = tt
All-Lists (x ∷ xs) =
    (inl refl, All-map (Lists xs) (Lists (x ∷ xs)) xs (λ p l. inr l) (All-Lists xs))

-- The one stands before the other.
abbrev pub Before : AgentProfile → AgentProfile → List AgentProfile → Type 0
Before q p [] = ⊥
Before q p (x ∷ xs) = ((x ≡ q) × Lists xs p) ⊎ Before q p xs

pub cosine_similarity-nil :
    {W : Type 0} (d : Double W) (v : List Float32) → cosine_similarity d v [] ≡ d.nought
unfolding cosine_similarity
cosine_similarity-nil d v = elim v as (λ u. cosine_similarity d u [] ≡ d.nought) [
  | [] ↦ refl
  | x ∷ xs ↦ ground arith
]

module _ {W : Type 0} (d : Double W) (sort : Sort (Ranked W)) (laws : IsSort sort)
    (v : List Float32) (IsNumber : W → Type 0) (order : IsOrder d.greater IsNumber) where
  abbrev score : AgentProfile → W
  score p = cosine_similarity d v p.embedding_vector
