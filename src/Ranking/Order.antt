-- ===== src/Ranking/Order.antt =====
-- core/negotiation.go: in which order the ranking puts the candidates.
use agent_semantic_protocol.Common.{
  ◌≡◌, ◌⊎◌, refl, sym, ap, Bool, true, false, List, [], ◌∷◌, map, All,
}
use mathlib.Core.Path.{subst}
use mathlib.Core.List.{Permᴰ}
use mathlib.Core.List.Permᴰ
use agent_semantic_protocol.Wire.Float32.{Float32}
use agent_semantic_protocol.Discovery.{AgentProfile}
use agent_semantic_protocol.Ranking.{
  Double, Ranked, Sort, score_for, cosine_similarity, rank_candidates,
}

-- `less` is a strict weak order on the items that `P` holds of.
pub record IsOrder {A : Type 0} (less : A → A → Bool) (P : A → Type 0) : Type 0 where
  pub asym : (x y : A) → P x → P y → less x y ≡ true → less y x ≡ false
  pub splits :
      (x y z : A) → P x → P y → P z → less x z ≡ true → (less x y ≡ true) ⊎ (less y z ≡ true)

-- No item is less than one before it.
abbrev pub IsSorted : {A : Type 0} → (A → A → Bool) → List A → Type 0
IsSorted less [] = Unit
IsSorted less (x ∷ xs) = All (λ y. less y x ≡ false) xs × IsSorted less xs

-- What the package sort documents of `Slice`: it permutes the items, and orders them if `less` is a
-- strict weak order on them.
pub record IsSort {A : Type 0} (sort : Sort A) : Type 1 where
  pub permutes : (less : A → A → Bool) (xs : List A) → Permᴰ (sort less xs) xs
  pub sorts :
      (less : A → A → Bool) (P : A → Type 0) (xs : List A)
      → IsOrder less P
      → All P xs
      → IsSorted less (sort less xs)

pub All-perm : {A : Type 0} (P : A → Type 0) (xs ys : List A) → Permᴰ xs ys → All P ys → All P xs
All-perm P _ _ Permᴰ.nil h = tt
All-perm P _ _ (Permᴰ.cons {l₁ = xs} {l₂ = ys} e p) (h, hs) =
    (subst P (sym e) h, All-perm P xs ys p hs)
All-perm P _ _ (Permᴰ.swap e f) (h, (hb, hs)) = (subst P (sym e) hb, (subst P (sym f) h, hs))
All-perm P _ _ (Permᴰ.trans {l₁ = xs} {l₂ = ys} {l₃ = zs} p q) h =
    All-perm P xs ys p (All-perm P ys zs q h)

module _ {W : Type 0} (d : Double W) (sort : Sort (Ranked W)) (laws : IsSort sort)
    (v : List Float32) where
  abbrev pub similarity : AgentProfile → W
  similarity p = cosine_similarity d v p.embedding_vector

  abbrev ranks : Ranked W → Ranked W → Bool
  ranks a b = d.greater a.score b.score

  abbrev IsScoredBy : Ranked W → Type 0
  IsScoredBy r = r.score ≡ similarity r.profile

  scored : (ps : List AgentProfile) → All IsScoredBy (map (score_for d v) ps)
  scored [] = tt
  scored (p ∷ ps) = (refl, scored ps)

  profiles_back : (ps : List AgentProfile) → map (λ r. r.profile) (map (score_for d v) ps) ≡ ps
  profiles_back [] = refl
  profiles_back (p ∷ ps) = ap (λ (t : List AgentProfile). p ∷ t) (profiles_back ps)

  profiles_below :
      (r : Ranked W) (rs : List (Ranked W))
      → IsScoredBy r
      → All IsScoredBy rs
      → All (λ s. ranks s r ≡ false) rs
      → All (λ q. d.greater (similarity q) (similarity r.profile) ≡ false) (map (λ s. s.profile) rs)
  profiles_below r [] e es h = tt
  profiles_below r (s ∷ rs) e (e', es) (h, hs) = (rw (← e, ← e') h, profiles_below r rs e es hs)

  profiles-IsSorted :
      (rs : List (Ranked W))
      → All IsScoredBy rs
      → IsSorted ranks rs
      → IsSorted (λ p q. d.greater (similarity p) (similarity q)) (map (λ r. r.profile) rs)
  profiles-IsSorted [] es h = tt
  profiles-IsSorted (r ∷ rs) (e, es) (h, hs) =
      (profiles_below r rs e es h, profiles-IsSorted rs es hs)

  pub rank_candidates_permutes :
      (candidates : List AgentProfile) → Permᴰ (rank_candidates d sort v candidates) candidates
  unfolding rank_candidates
  rank_candidates_permutes candidates =
      subst (λ ps. Permᴰ (map (λ r. r.profile) (sort ranks (map (score_for d v) candidates))) ps)
        (profiles_back candidates)
        (Permᴰ.map (λ r. r.profile) (laws.permutes ranks (map (score_for d v) candidates)))

  module _ (IsNumber : W → Type 0) (order : IsOrder d.greater IsNumber) where
    numbered :
        (ps : List AgentProfile)
        → All (λ p. IsNumber (similarity p)) ps
        → All (λ r. IsNumber r.score) (map (score_for d v) ps)
    numbered [] h = tt
    numbered (p ∷ ps) (h, hs) = (h, numbered ps hs)

    -- The ranking holds each candidate once, and no candidate stands behind one of a smaller
    -- similarity, if every similarity is a number.
    pub rank_candidates_lem :
        (candidates : List AgentProfile)
        → All (λ p. IsNumber (similarity p)) candidates
        → Permᴰ (rank_candidates d sort v candidates) candidates
          × IsSorted
              (λ p q. d.greater (similarity p) (similarity q))
              (rank_candidates d sort v candidates)
    unfolding rank_candidates
    rank_candidates_lem candidates h =
        let rs = map (score_for d v) candidates in
        let permuted = laws.permutes ranks rs in
        let sorted =
          laws.sorts ranks (λ r. IsNumber r.score) rs
            (record {
              asym = λ x y. order.asym x.score y.score;
              splits = λ x y z. order.splits x.score y.score z.score;
            })
            (numbered candidates h) in
        (
          rank_candidates_permutes candidates,
          profiles-IsSorted (sort ranks rs) (All-perm IsScoredBy _ _ permuted (scored candidates))
              sorted,
        )
