-- ===== src/Tests/Rankings.antt =====
-- core/negotiation.go: the ranking at concrete candidates.
use agent_semantic_protocol.Common.{
  ℕ, ◌+◌, ◌*◌, [], ◌∷◌, codes, ltb, ◌==◌, ◌-◌, if◌then◌else◌, arith,
}
use mathlib.Core.List.{Permᴰ}
use agent_semantic_protocol.Discovery.{AgentProfile}
use agent_semantic_protocol.Ranking.{Double, cosine_similarity, rank_candidates}
use agent_semantic_protocol.Ranking.Order.{IsOrder, IsSorted, rank_candidates_lem}
use agent_semantic_protocol.Tests.Sorting.{insertion, insertion-IsSort}

-- A natural number stands for its negative, and the division leaves the dividend as it is.
abbrev pub negatives : Double ℕ
negatives = record {
  nought = 0;
  of_float32 = λ x. x;
  plus_times = λ acc x y. acc + x * y;
  times = λ x y. x * y;
  over = λ x y. x;
  root = λ x. x;
  equal = λ x y. x == y;
  greater = λ x y. ltb x y;
}

abbrev pub IsAny : ℕ → Type 0
IsAny n = Unit

pub negatives-IsOrder : IsOrder negatives.greater IsAny
negatives-IsOrder = record {
  asym = λ x y px py h. ground arith;
  splits = λ x y z px py pz h. ground arith;
}

abbrev far : AgentProfile
far = record {
  agent_id = codes "far";
  did = [];
  capabilities = [];
  embedding_vector = 2 ∷ 1 ∷ [];
  public_key = [];
}

abbrev plain : AgentProfile
plain = record {
  agent_id = codes "plain";
  did = [];
  capabilities = [];
  embedding_vector = [];
  public_key = [];
}

rank_candidates_example :
    Permᴰ (rank_candidates negatives insertion (1 ∷ 1 ∷ []) (far ∷ plain ∷ [])) (far ∷ plain ∷ [])
    × IsSorted
        (λ p q.
          negatives.greater
            (cosine_similarity negatives (1 ∷ 1 ∷ []) p.embedding_vector)
            (cosine_similarity negatives (1 ∷ 1 ∷ []) q.embedding_vector))
        (rank_candidates negatives insertion (1 ∷ 1 ∷ []) (far ∷ plain ∷ []))
rank_candidates_example =
    rank_candidates_lem negatives insertion insertion-IsSort (1 ∷ 1 ∷ []) IsAny negatives-IsOrder
      (far ∷ plain ∷ []) (tt, (tt, tt))

-- 10 stands for zero; a product counts one more where its factors are equal, and one less otherwise.
abbrev shifted : Double ℕ
shifted = record {
  nought = 10;
  of_float32 = λ x. x;
  plus_times = λ acc x y. if x == y then acc + 1 else acc - 1;
  times = λ x y. x;
  over = λ x y. x;
  root = λ x. x;
  equal = λ x y. x == y;
  greater = λ x y. ltb y x;
}

abbrev like : AgentProfile
like = record far { embedding_vector = 1 ∷ [] }

abbrev unlike : AgentProfile
unlike = record far { embedding_vector = 2 ∷ [] }
