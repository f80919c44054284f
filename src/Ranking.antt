-- ===== src/Ranking.antt =====
-- core/negotiation.go: the cosine similarity of two vectors and the ranking of candidates.
pub mod Similarity
pub mod Order
pub mod Positions
use agent_semantic_protocol.Common.{
  Bool, not, ◌||◌, List, [], ◌∷◌, map, is_empty, length, if◌then◌else◌, ◌==◌,
}
use agent_semantic_protocol.Wire.Float32.{Float32}
use agent_semantic_protocol.Discovery.{AgentProfile}

-- What the code does with a float64. `plus_times acc x y` is `acc + x * y`, which Go may round once
-- or twice.
pub record Double (W : Type 0) : Type 0 where
  pub nought : W
  pub of_float32 : Float32 → W
  pub plus_times : W → W → W → W
  pub times : W → W → W
  pub over : W → W → W
  pub root : W → W
  pub equal : W → W → Bool
  pub greater : W → W → Bool

pub record Ranked (W : Type 0) : Type 0 where
  pub profile : AgentProfile
  pub score : W

-- `sort.Slice(xs, less)`, with `less` on the items in place of their indices.
abbrev pub Sort : Type 0 → Type 0
Sort A = (A → A → Bool) → List A → List A

module _ {W : Type 0} (d : Double W) where
  -- The sums `dot`, `normA` and `normB`, over vectors of one length.
  unfoldable pub sums_loop : List Float32 → List Float32 → W → W → W → W × W × W
  sums_loop (x ∷ a) (y ∷ b) dot norm_a norm_b =
      let x' = d.of_float32 x in
      let y' = d.of_float32 y in
      sums_loop a b (d.plus_times dot x' y') (d.plus_times norm_a x' x') (d.plus_times norm_b y' y')
  sums_loop _ _ dot norm_a norm_b = (dot, norm_a, norm_b)

  abbrev pub quotient : W × W × W → W
  quotient (dot, norm_a, norm_b) =
      if d.equal norm_a d.nought || d.equal norm_b d.nought
      then d.nought
      else d.over dot (d.times (d.root norm_a) (d.root norm_b))

  unfoldable pub cosine_similarity : List Float32 → List Float32 → W
  cosine_similarity a b =
      if not (length a == length b) || is_empty a
      then d.nought
      else quotient (sums_loop a b d.nought d.nought d.nought)

  abbrev pub score_for : List Float32 → AgentProfile → Ranked W
  score_for v p = record { profile = p; score = cosine_similarity v p.embedding_vector }

  unfoldable pub rank_candidates :
      Sort (Ranked W) → List Float32 → List AgentProfile → List AgentProfile
  rank_candidates sort v candidates =
      map (λ r. r.profile) (sort (λ a b. d.greater a.score b.score) (map (score_for v) candidates))
