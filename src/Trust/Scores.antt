-- ===== src/Trust/Scores.antt =====
-- core/did.go: what scores a trust graph holds.
use agent_semantic_protocol.Common.{
  ◌≡◌, ◌⊎◌, inl, inr, refl, Bool, true, false, List, [], ◌∷◌, Bytes, arith, bytes_eq, bytes_eq_iff,
  some, if◌then◌else◌, Bool-cases,
}
use agent_semantic_protocol.Wire.Float32.{Float32, less, is_nan}
use agent_semantic_protocol.Wire.Maps.{get, get-put}
use agent_semantic_protocol.Trust.{
  TrustGraph, one, clamp, trust_key, score_of, set_score, get_score, apply,
}

-- Not below 0, not above 1, and a number.
pub record InUnit (v : Float32) : Type 0 where
  pub number : is_nan v ≡ false
  pub not_below : less v 0 ≡ false
  pub not_above : less one v ≡ false

pub clamp-InUnit : (v : Float32) → is_nan v ≡ false → InUnit (clamp v)
unfolding clamp
clamp-InUnit v h = record {
  number = ground arith;
  not_below = ground arith;
  not_above = ground arith;
}

pub clamp_nan : (v : Float32) → is_nan v ≡ true → clamp v ≡ v
unfolding clamp
clamp_nan v h = ground arith

-- Every score between two names is in the unit interval or no number.
abbrev pub IsScored : TrustGraph → Type 0
IsScored tg =
    (from to : Bytes) → InUnit (get_score from to tg) ⊎ (is_nan (get_score from to tg) ≡ true)

pub get_score-apply :
    (add : Float32 → Float32 → Float32) (from to from' to' : Bytes) (delta : Float32)
    (tg : TrustGraph)
    → get_score from' to' (apply add from to delta tg) ≡ (
        if bytes_eq (trust_key from to) (trust_key from' to')
        then clamp (add (get_score from to tg) delta)
        else get_score from' to' tg)
unfolding get_score apply
get_score-apply add from to from' to' delta tg =
    rw get-put (scored (bytes_eq (trust_key from to) (trust_key from' to')))
  where
    scored :
        (b : Bool)
        → score_of (
            if b
            then some (clamp (add (score_of (get (trust_key from to) tg)) delta))
            else get (trust_key from' to') tg)
          ≡ (if b
              then clamp (add (score_of (get (trust_key from to) tg)) delta)
              else score_of (get (trust_key from' to') tg))
    scored true = refl
    scored false = refl

pub get_score-set_score :
    (from to from' to' : Bytes) (score : Float32) (tg : TrustGraph)
    → get_score from' to' (set_score from to score tg) ≡ (
        if bytes_eq (trust_key from to) (trust_key from' to')
        then clamp score
        else get_score from' to' tg)
unfolding get_score set_score
get_score-set_score from to from' to' score tg =
    rw get-put (scored (bytes_eq (trust_key from to) (trust_key from' to')))
  where
    scored :
        (b : Bool)
        → score_of (if b then some (clamp score) else get (trust_key from' to') tg)
          ≡ (if b then clamp score else score_of (get (trust_key from' to') tg))
    scored true = refl
    scored false = refl

clamp_cases : (v : Float32) → InUnit (clamp v) ⊎ (is_nan (clamp v) ≡ true)
clamp_cases v = elim (Bool-cases (is_nan v)) [
  | inl nan ↦ inr (rw (clamp_nan v nan) nan)
  | inr number ↦ inl (clamp-InUnit v number)
]

if-IsScored :
    (b : Bool) (v u : Float32)
    → InUnit u ⊎ (is_nan u ≡ true)
    → InUnit (if b then clamp v else u) ⊎ (is_nan (if b then clamp v else u) ≡ true)
if-IsScored true v u h = clamp_cases v
if-IsScored false v u h = h

-- The operations on a graph.
pub data Update : Type 0 where
  set : Bytes → Bytes → Float32 → Update
  add_delta : Bytes → Bytes → Float32 → Update

unfoldable pub update : (Float32 → Float32 → Float32) → Update → TrustGraph → TrustGraph
update add (set from to score) tg = set_score from to score tg
update add (add_delta from to delta) tg = apply add from to delta tg

unfoldable pub update_all : (Float32 → Float32 → Float32) → List Update → TrustGraph → TrustGraph
update_all add [] tg = tg
update_all add (u ∷ us) tg = update_all add us (update add u tg)

pub update-IsScored :
    (add : Float32 → Float32 → Float32) (u : Update) (tg : TrustGraph)
    → IsScored tg
    → IsScored (update add u tg)
unfolding update
update-IsScored add (set from to score) tg h from' to' =
    rw get_score-set_score (if-IsScored _ score _ (h from' to'))
update-IsScored add (add_delta from to delta) tg h from' to' =
    rw get_score-apply (if-IsScored _ (add (get_score from to tg) delta) _ (h from' to'))

-- Whatever is set and applied, however sums are rounded: every score is between 0 and 1, or not a
-- number, if that held at the start.
pub update_all-IsScored :
    (add : Float32 → Float32 → Float32) (us : List Update) (tg : TrustGraph)
    → IsScored tg
    → IsScored (update_all add us tg)
unfolding update_all
update_all-IsScored add [] tg h = h
update_all-IsScored add (u ∷ us) tg h =
    update_all-IsScored add us (update add u tg) (update-IsScored add u tg h)

-- The deltas of one peer, applied one after the other.
unfoldable pub apply_all :
    (Float32 → Float32 → Float32) → Bytes → Bytes → List Float32 → TrustGraph → TrustGraph
apply_all add from to [] tg = tg
apply_all add from to (d ∷ ds) tg = apply_all add from to ds (apply add from to d tg)

module _ (add : Float32 → Float32 → Float32)
    (nan_left : (x d : Float32) → is_nan x ≡ true → is_nan (add x d) ≡ true) (from to : Bytes) where
  apply_nan :
      (d : Float32) (tg : TrustGraph)
      → is_nan (add (get_score from to tg) d) ≡ true
      → is_nan (get_score from to (apply add from to d tg)) ≡ true
  apply_nan d tg h =
      rw
        (
          get_score-apply,
          (bytes_eq_iff (trust_key from to) (trust_key from to)).1 refl,
          clamp_nan _ h,
        )
        h

  still_nan :
      (ds : List Float32) (tg : TrustGraph)
      → is_nan (get_score from to tg) ≡ true
      → is_nan (get_score from to (apply_all add from to ds tg)) ≡ true
  unfolding apply_all
  still_nan [] tg h = h
  still_nan (d ∷ ds) tg h = still_nan ds (apply add from to d tg) (apply_nan d tg (nan_left _ d h))

  -- Where a sum with a NaN is a NaN, as in IEEE 754: one delta that is no number makes the score no
  -- number, and no later delta mends it; the clamp does not catch it.
  pub nan_delta_stays :
      (nan_right : (x d : Float32) → is_nan d ≡ true → is_nan (add x d) ≡ true) (d : Float32)
      (ds : List Float32) (tg : TrustGraph)
      → is_nan d ≡ true
      → is_nan (get_score from to (apply_all add from to (d ∷ ds) tg)) ≡ true
  unfolding apply_all
  nan_delta_stays nan_right d ds tg h =
      still_nan ds (apply add from to d tg) (apply_nan d tg (nan_right _ d h))
