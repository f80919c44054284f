-- ===== src/Tests/Sorting.antt =====
-- A sort that the laws of sort.Slice hold of: insertion.
use agent_semantic_protocol.Common.{
  ◌≡◌, inl, inr, refl, Bool, true, false, List, [], ◌∷◌, if◌then◌else◌, All, Bool-cases,
}
use mathlib.Core.List.{Permᴰ}
use mathlib.Core.List.Permᴰ
use agent_semantic_protocol.Ranking.{Sort}
use agent_semantic_protocol.Ranking.Order.{IsOrder, IsSorted, IsSort, All-perm}

module _ {A : Type 0} where
  abbrev insert : (A → A → Bool) → A → List A → List A
  insert less x [] = x ∷ []
  insert less x (y ∷ ys) = let rest = insert less x ys in if less y x then y ∷ rest else x ∷ y ∷ ys

  abbrev pub insertion : Sort A
  insertion less [] = []
  insertion less (x ∷ xs) = insert less x (insertion less xs)

  insert-perm : (less : A → A → Bool) (x : A) (xs : List A) → Permᴰ (insert less x xs) (x ∷ xs)
  insert-perm less x [] = Permᴰ.refl (x ∷ [])
  insert-perm less x (y ∷ ys) = one (less y x) (insert-perm less x ys)
    where
      one :
          (b : Bool)
          → Permᴰ (insert less x ys) (x ∷ ys)
          → Permᴰ (if b then y ∷ insert less x ys else x ∷ y ∷ ys) (x ∷ y ∷ ys)
      one true p = Permᴰ.trans (Permᴰ.cons refl p) (Permᴰ.swap refl refl)
      one false p = Permᴰ.refl (x ∷ y ∷ ys)

  insertion-perm : (less : A → A → Bool) (xs : List A) → Permᴰ (insertion less xs) xs
  insertion-perm less [] = Permᴰ.nil
  insertion-perm less (x ∷ xs) =
      Permᴰ.trans (insert-perm less x (insertion less xs))
        (Permᴰ.cons refl (insertion-perm less xs))

  module _ (less : A → A → Bool) (P : A → Type 0) (order : IsOrder less P) where
    below :
        (x y : A) (ys : List A)
        → P x
        → P y
        → All P ys
        → less y x ≡ false
        → All (λ z. less z y ≡ false) ys
        → All (λ z. less z x ≡ false) ys
    below x y [] px py ps h hs = tt
    below x y (z ∷ ys) px py (pz, ps) h (hz, hs) = (
      elim (Bool-cases (less z x)) [
        | inl more ↦ elim (order.splits z y x pz py px more) [
          | inl zy ↦ absurd (cc)
          | inr yx ↦ absurd (cc)
        ]
        | inr not_more ↦ not_more
      ],
      below x y ys px py ps h hs,
    )

    insert-IsSorted :
        (x : A) (xs : List A) → P x → All P xs → IsSorted less xs → IsSorted less (insert less x xs)
    insert-IsSorted x [] px ps h = (tt, tt)
    insert-IsSorted x (y ∷ ys) px (py, ps) (h, hs) =
        one (less y x) refl (insert-IsSorted x ys px ps hs)
      where
        one :
            (b : Bool)
            → less y x ≡ b
            → IsSorted less (insert less x ys)
            → IsSorted less (if b then y ∷ insert less x ys else x ∷ y ∷ ys)
        one true e s = (
          All-perm (λ z. less z y ≡ false) (insert less x ys) (x ∷ ys) (insert-perm less x ys)
              (order.asym y x py px e, h),
          s,
        )
        one false e s = ((e, below x y ys px py ps e h), (h, hs))

    insertion-IsSorted : (xs : List A) → All P xs → IsSorted less (insertion less xs)
    insertion-IsSorted [] ps = tt
    insertion-IsSorted (x ∷ xs) (px, ps) =
        insert-IsSorted x (insertion less xs) px
          (All-perm P (insertion less xs) xs (insertion-perm less xs) ps) (insertion-IsSorted xs ps)

  pub insertion-IsSort : IsSort insertion
  insertion-IsSort = record {
    permutes = insertion-perm;
    sorts = λ less P xs order ps. insertion-IsSorted less P order xs ps;
  }
