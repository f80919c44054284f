-- ===== src/Wire/Maps.antt =====
-- A Go map with string keys, as the list of its entries in the order in which `range` yields them.

use agent_semantic_protocol.Common.{
  ◌≡◌, ◌∙◌, refl, Option, none, some, List, [], ◌∷◌, ◌++◌, Bytes, arith, bytes_eq, bytes_eq_iff,
  if◌then◌else◌,
}

abbrev pub Assoc {ℓ} : Type ℓ → Type ℓ
Assoc V = List (Bytes × V)

module _ {ℓ} {V : Type ℓ} where
  -- `m[k]`
  unfoldable pub get : Bytes → Assoc V → Option V
  get k [] = none
  get k ((j, v) ∷ m) = if bytes_eq j k then some v else get k m

  -- `m[k] = v`
  unfoldable pub put : Bytes → V → Assoc V → Assoc V
  put k v [] = (k, v) ∷ []
  put k v ((j, u) ∷ m) = if bytes_eq j k then (j, v) ∷ m else (j, u) ∷ put k v m

  -- `delete(m, k)`
  unfoldable pub delete : Bytes → Assoc V → Assoc V
  delete k [] = []
  delete k ((j, v) ∷ m) = let rest = delete k m in if bytes_eq j k then rest else (j, v) ∷ rest

  pub get-put :
      (k j : Bytes) (v : V) (m : Assoc V)
      → get j (put k v m) ≡ (if bytes_eq k j then some v else get j m)
  unfolding get put
  get-put k j v [] = refl
  get-put k j v ((i, u) ∷ m) =
      ground (arith, bytes_eq_iff k j, bytes_eq_iff i k, bytes_eq_iff i j, get-put k j v m)

  pub get-delete :
      (k j : Bytes) (m : Assoc V) → get j (delete k m) ≡ (if bytes_eq k j then none else get j m)
  unfolding get delete
  get-delete k j [] = ground arith
  get-delete k j ((i, u) ∷ m) =
      ground (arith, bytes_eq_iff k j, bytes_eq_iff i k, bytes_eq_iff i j, get-delete k j m)

  -- A key that is not there is put behind the entries.
  pub put-fresh :
      (k : Bytes) (v : V) (m : Assoc V) → get k m ≡ none → put k v m ≡ m ++ ((k, v) ∷ [])
  unfolding get put
  put-fresh k v [] h = refl
  put-fresh k v ((j, u) ∷ m) h = ground (arith, put-fresh k v m)

  pub get-append_fresh : (k : Bytes) (m n : Assoc V) → get k m ≡ none → get k (m ++ n) ≡ get k n
  unfolding get
  get-append_fresh k [] n h = refl
  get-append_fresh k ((j, u) ∷ m) n h = ground (arith, get-append_fresh k m n)

-- Each key is new: it is not among the entries before it.
abbrev pub IsFresh {ℓ} : {V : Type ℓ} → Assoc V → Assoc V → Type ℓ
IsFresh prior [] = Unit
IsFresh prior ((k, v) ∷ m) = (get k prior ≡ none) × IsFresh (prior ++ ((k, v) ∷ [])) m

-- What a list of entries needs to be a map: no key stands twice.
abbrev pub IsMap {ℓ} : {V : Type ℓ} → Assoc V → Type ℓ
IsMap m = IsFresh [] m

module _ {ℓ} {V : Type ℓ} where
  pub get-singleton : (k : Bytes) (v : V) → get k ((k, v) ∷ []) ≡ some v
  unfolding get
  get-singleton k v = rw ((bytes_eq_iff k k).1 refl)

  pub get-append_some :
      (k : Bytes) (u : V) (m n : Assoc V) → get k m ≡ some u → get k (m ++ n) ≡ some u
  unfolding get
  get-append_some k u [] n h = cc
  get-append_some k u ((j, v) ∷ m) n h = ground (arith, get-append_some k u m n)

  pub get-append_none :
      (k : Bytes) (m n : Assoc V) → get k (m ++ n) ≡ none → (get k m ≡ none) × (get k n ≡ none)
  unfolding get
  get-append_none k [] n h = (refl, h)
  get-append_none k ((j, v) ∷ m) n h = ground (arith, get-append_none k m n)

  pub delete-absent : (k : Bytes) (m : Assoc V) → get k m ≡ none → delete k m ≡ m
  unfolding get delete
  delete-absent k [] h = refl
  delete-absent k ((j, v) ∷ m) h = ground (arith, delete-absent k m)

  -- A key that stands once goes, and the rest stays.
  pub delete-middle :
      (k : Bytes) (v : V) (m n : Assoc V)
      → get k m ≡ none
      → get k n ≡ none
      → delete k (m ++ ((k, v) ∷ n)) ≡ m ++ n
  unfolding get delete
  delete-middle k v [] n hm hn = ground (arith, bytes_eq_iff k k, delete-absent k n)
  delete-middle k v ((j, u) ∷ m) n hm hn = ground (arith, delete-middle k v m n)

  -- What is new to some entries is new to fewer.
  pub IsFresh-fewer :
      (more fewer m : Assoc V)
      → ((k : Bytes) → get k more ≡ none → get k fewer ≡ none)
      → IsFresh more m
      → IsFresh fewer m
  IsFresh-fewer more fewer [] h fresh = tt
  IsFresh-fewer more fewer ((k, v) ∷ m) h (new, fresh) = (
    h k new,
    IsFresh-fewer (more ++ ((k, v) ∷ [])) (fewer ++ ((k, v) ∷ [])) m
        (λ j e.
          get-append_fresh j fewer ((k, v) ∷ []) (h j (get-append_none j more ((k, v) ∷ []) e).0)
          ∙ (get-append_none j more ((k, v) ∷ []) e).1)
        fresh,
  )

  -- A key of the entries before stands in none behind.
  pub IsFresh-absent :
      (prior m : Assoc V) (k : Bytes) (u : V)
      → get k prior ≡ some u
      → IsFresh prior m
      → get k m ≡ none
  unfolding get
  IsFresh-absent prior [] k u h fresh = refl
  IsFresh-absent prior ((j, v) ∷ m) k u h (new, fresh) = ground (
    arith,
    bytes_eq_iff j k,
    IsFresh-absent (prior ++ ((j, v) ∷ [])) m k u (get-append_some k u prior ((j, v) ∷ []) h) fresh,
  )

module _ {ℓ} {V : Type ℓ} where
  pub get-put_self : (k : Bytes) (v : V) (m : Assoc V) → get k (put k v m) ≡ some v
  get-put_self k v m = rw (get-put, (bytes_eq_iff k k).1 refl)
