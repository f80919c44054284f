-- ===== src/Wire/Distinct.antt =====
-- Go maps: the writes keep every key single.
use agent_semantic_protocol.Common.{
  ◌≡◌, refl, ◌∙◌, none, some, [], ◌∷◌, ◌++◌, Bytes, bytes_eq, if◌then◌else◌, Bool, true, false,
  Bool-cases, inl, inr,
}
use agent_semantic_protocol.Wire.Maps.{
  Assoc, get, put, delete, IsFresh, IsMap, IsFresh-fewer, get-append_none, get-append_fresh,
}

module _ {ℓ} {V : Type ℓ} where
  put-IsFresh :
      (k : Bytes) (v : V) (prior m : Assoc V)
      → get k prior ≡ none
      → IsFresh prior m
      → IsFresh prior (put k v m)
  unfolding put get
  put-IsFresh k v prior [] new h = (new, tt)
  put-IsFresh k v prior ((j, u) ∷ m) new (first, rest) = elim (Bool-cases (bytes_eq j k)) [
    | inl same ↦ rw same (
      first,
      IsFresh-fewer (prior ++ ((j, u) ∷ [])) (prior ++ ((j, v) ∷ [])) m (renamed prior j) rest,
    )
    | inr other ↦
        rw other (first, put-IsFresh k v (prior ++ ((j, u) ∷ [])) m (still_new other) rest)
  ]
    where
      single :
          (b : Bool) → (if b then some u else none) ≡ none → (if b then some v else none) ≡ none
      single true e = cc
      single false e = refl

      renamed :
          (prior : Assoc V) (j k : Bytes)
          → get k (prior ++ ((j, u) ∷ [])) ≡ none
          → get k (prior ++ ((j, v) ∷ [])) ≡ none
      renamed prior j k e =
          let (absent, other) = get-append_none k prior ((j, u) ∷ []) e in
          get-append_fresh k prior ((j, v) ∷ []) absent ∙ single (bytes_eq j k) other

      still_new : bytes_eq j k ≡ false → get k (prior ++ ((j, u) ∷ [])) ≡ none
      still_new other = get-append_fresh k prior ((j, u) ∷ []) new ∙ rw other refl

  pub put-IsMap : (k : Bytes) (v : V) (m : Assoc V) → IsMap m → IsMap (put k v m)
  unfolding get
  put-IsMap k v m h = put-IsFresh k v [] m refl h

  delete-IsFresh : (k : Bytes) (prior m : Assoc V) → IsFresh prior m → IsFresh prior (delete k m)
  unfolding delete
  delete-IsFresh k prior [] h = tt
  delete-IsFresh k prior ((j, u) ∷ m) (first, rest) = elim (Bool-cases (bytes_eq j k)) [
    | inl same ↦ rw same (
        delete-IsFresh k prior m (
          IsFresh-fewer (prior ++ ((j, u) ∷ [])) prior m
            (λ i e. (get-append_none i prior ((j, u) ∷ []) e).0) rest))
    | inr other ↦ rw other (first, delete-IsFresh k (prior ++ ((j, u) ∷ [])) m rest)
  ]

  pub delete-IsMap : (k : Bytes) (m : Assoc V) → IsMap m → IsMap (delete k m)
  delete-IsMap k m h = delete-IsFresh k [] m h
