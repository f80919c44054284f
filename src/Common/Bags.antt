-- ===== src/Common/Bags.antt =====
-- Lists up to the order of their elements, as a quotient.
use Prim.Native.Nat.{ℕ, suc}
use mathlib.Core.Path.{◌≡◌, refl, ap}
use mathlib.Core.Option.{Option, none, some}
use mathlib.Core.List.{List, [], ◌∷◌}
use mathlib.Core.Quot
use mathlib.Core.Quot.{Quot, Quot-set}
use agent_semantic_protocol.Common.Lists.{length}

-- Two neighbours in either order.
pub data Swap {ℓ} {A : Type ℓ} : List A → List A → Type ℓ where
  here : (x y : A) (zs : List A) → Swap (x ∷ y ∷ zs) (y ∷ x ∷ zs)
  there : (z : A) {xs ys : List A} → Swap xs ys → Swap (z ∷ xs) (z ∷ ys)

abbrev pub Bag {ℓ} : Type ℓ → Type ℓ
Bag A = Quot (Swap {A = A})

module _ {ℓ} {A : Type ℓ} where
  abbrev pub bag : List A → Bag A
  bag = Quot.mk

  pub add : A → Bag A → Bag A
  add x = Quot.lift Quot-set (λ xs. bag (x ∷ xs)) λ xs ys s. Quot.sound (there x s)

  length-Swap : (xs ys : List A) → Swap xs ys → length xs ≡ length ys
  length-Swap _ _ (here x y zs) = refl
  length-Swap _ _ (there z s) = ap suc (length-Swap _ _ s)

  size : Bag A → ℕ
  size = Quot.lift (hlevel) length length-Swap

module _ {κ} {B : Type κ} where
  abbrev pub consider : Option B → List B → List B
  consider none bs = bs
  consider (some b) bs = b ∷ bs

  consider-both :
      (b c : Option B) (bs : List B)
      → bag (consider b (consider c bs)) ≡ bag (consider c (consider b bs))
  consider-both none c bs = refl
  consider-both (some b) none bs = refl
  consider-both (some b) (some c) bs = Quot.sound (here b c bs)

  consider-bag :
      (b : Option B) (bs cs : List B) → bag bs ≡ bag cs → bag (consider b bs) ≡ bag (consider b cs)
  unfolding add
  consider-bag none bs cs e = e
  consider-bag (some b) bs cs e = ap (add b) e

module _ {ℓ κ} {A : Type ℓ} {B : Type κ} where
  -- What the elements give, in their order.
  abbrev pub select : (A → Option B) → List A → List B
  select f [] = []
  select f (x ∷ xs) = consider (f x) (select f xs)

  select-Swap :
      (f : A → Option B) (xs ys : List A) → Swap xs ys → bag (select f xs) ≡ bag (select f ys)
  select-Swap f _ _ (here x y zs) = consider-both (f x) (f y) (select f zs)
  select-Swap f _ _ (there z s) = consider-bag (f z) _ _ (select-Swap f _ _ s)

  select_bag : (A → Option B) → Bag A → Bag B
  select_bag f = Quot.lift Quot-set (λ xs. bag (select f xs)) (select-Swap f)

  -- A bag of elements has one bag of what they give.
  pub select_same :
      (f : A → Option B) (xs ys : List A) → bag xs ≡ bag ys → bag (select f xs) ≡ bag (select f ys)
  unfolding select_bag
  select_same f xs ys e = ap (select_bag f) e

pub length_same {ℓ} : {A : Type ℓ} (xs ys : List A) → bag xs ≡ bag ys → length xs ≡ length ys
unfolding size
length_same xs ys e = ap size e
