-- ===== src/Capability/Sets.antt =====
-- core/discovery.go and core/negotiation.go: what the routines on capabilities compute.
use agent_semantic_protocol.Common.{
  ◌≡◌, ◌↔◌, ◌⊎◌, inl, inr, refl, sym, ap, ◌∙◌, Bool, true, false, Option, some, List, [], ◌∷◌, ◌++◌,
  Bytes, arith, bytes_eq, bytes_eq_iff, if◌then◌else◌, All, append-nil, append_assoc, is_empty,
  ◌||◌, not, Bool-cases,
}
use mathlib.Core.Path.{fun_ext}
use agent_semantic_protocol.Wire.Maps.{Assoc, get, put, get-put}
use agent_semantic_protocol.Capability.{
  have_loop, found, has, has_all_loop, has_all, diff_loop, capability_set_diff, missing_loop,
  missing_capabilities,
}

-- The capability stands in the list.
abbrev pub Offers : List Bytes → Bytes → Type 0
Offers [] c = ⊥
Offers (x ∷ xs) c = (x ≡ c) ⊎ Offers xs c

abbrev offers : List Bytes → Bytes → Bool
offers [] c = false
offers (x ∷ xs) c = bytes_eq x c || offers xs c

offers_iff : (xs : List Bytes) (c : Bytes) → (offers xs c ≡ true) ↔ Offers xs c
offers_iff [] c = (λ e. cc, λ h. absurd h)
offers_iff (x ∷ xs) c = (
  ground (arith, bytes_eq_iff x c, offers_iff xs c),
  ground (arith, bytes_eq_iff x c, offers_iff xs c),
)

has-have_loop :
    (available : List Bytes) (have : Assoc (Unit {0})) (c : Bytes)
    → has (have_loop available have) c ≡ (offers available c || has have c)
unfolding have_loop has
has-have_loop [] have c = refl
has-have_loop (x ∷ available) have c =
    has-have_loop available (put x tt have) c
    ∙ rw get-put (one (bytes_eq x c) (offers available c) (get c have))
  where
    one :
        (b o : Bool) (g : Option (Unit {0}))
        → (o || found (if b then some tt else g)) ≡ ((b || o) || found g)
    one b o g = ground arith

has-available :
    (available : List Bytes) (c : Bytes) → has (have_loop available []) c ≡ offers available c
has-available available c =
    has-have_loop available [] c ∙ unfold has get in none_more (offers available c)
  where
    none_more : (o : Bool) → (o || false) ≡ o
    none_more o = ground arith

-- The members of a list that pass a test, or fail it.
abbrev keep : (Bytes → Bool) → List Bytes → List Bytes
keep p [] = []
keep p (x ∷ xs) = if p x then x ∷ keep p xs else keep p xs

Offers-keep :
    (p : Bytes → Bool) (required : List Bytes) (c : Bytes)
    → Offers (keep p required) c ↔ (Offers required c × (p c ≡ true))
Offers-keep p [] c = (λ h. absurd h, λ h. absurd h.0)
Offers-keep p (x ∷ required) c =
    let ih = Offers-keep p required c in
    elim (Bool-cases (p x)) [
      | inl kept ↦ rw kept (
        λ h. elim h [
          | inl e ↦ (inl e, rw e at kept)
          | inr later ↦ (inr (ih.0 later).0, (ih.0 later).1)
        ],
        λ (h, pc). elim h [ inl e ↦ inl e | inr later ↦ inr (ih.1 (later, pc)) ],
      )
      | inr dropped ↦ rw dropped (
        λ h. (inr (ih.0 h).0, (ih.0 h).1),
        λ (h, pc). elim h [
          | inl e ↦ absurd (cc (dropped, pc, ap p e))
          | inr later ↦ ih.1 (later, pc)
        ],
      )
    ]

module _ (have : Assoc (Unit {0})) where
  missing_loop-keep :
      (required missing : List Bytes)
      → missing_loop required have missing ≡ missing ++ keep (λ c. not (has have c)) required
  unfolding missing_loop
  missing_loop-keep [] missing = sym (append-nil missing)
  missing_loop-keep (c ∷ required) missing = elim (Bool-cases (has have c)) [
    | inl there ↦ rw there (missing_loop-keep required missing)
    | inr gone ↦ rw gone (
        missing_loop-keep required (missing ++ (c ∷ []))
        ∙ append_assoc missing (c ∷ []) (keep (λ r. not (has have r)) required))
  ]

  diff_loop-keep :
      (required present absent : List Bytes)
      → diff_loop required have present absent
        ≡ (present ++ keep (has have) required, absent ++ keep (λ c. not (has have c)) required)
  unfolding diff_loop
  diff_loop-keep [] present absent = rw (append-nil present, append-nil absent)
  diff_loop-keep (c ∷ required) present absent = elim (Bool-cases (has have c)) [
    | inl there ↦
        rw (there, diff_loop)
          (diff_loop-keep required (present ++ (c ∷ [])) absent
            ∙ rw (append_assoc present (c ∷ []) (keep (has have) required)))
    | inr gone ↦
        rw (gone, diff_loop)
          (diff_loop-keep required present (absent ++ (c ∷ []))
            ∙ rw (append_assoc absent (c ∷ []) (keep (λ r. not (has have r)) required)))
  ]

  has_all_loop-is_empty :
      (required : List Bytes)
      → has_all_loop required have ≡ is_empty (keep (λ c. not (has have c)) required)
  unfolding has_all_loop
  has_all_loop-is_empty [] = refl
  has_all_loop-is_empty (c ∷ required) = elim (Bool-cases (has have c)) [
    | inl there ↦ rw there (has_all_loop-is_empty required)
    | inr gone ↦ rw gone
  ]

  has_all_loop-All :
      (required : List Bytes)
      → (has_all_loop required have ≡ true) ↔ All (λ c. has have c ≡ true) required
  unfolding has_all_loop
  has_all_loop-All [] = (λ e. tt, λ h. refl)
  has_all_loop-All (c ∷ required) =
      (ground (arith, has_all_loop-All required), ground (arith, has_all_loop-All required))

All-Offers :
    (available required : List Bytes)
    → All (λ c. has (have_loop available []) c ≡ true) required ↔ All (Offers available) required
All-Offers available [] = (λ h. tt, λ h. tt)
All-Offers available (c ∷ required) =
    let rest = All-Offers available required in
    let here = offers_iff available c in
    let same = has-available available c in
    (λ (h, hs). (here.0 (sym same ∙ h), rest.0 hs), λ (h, hs). (same ∙ here.1 h, rest.1 hs))

-- `hasAll` answers true exactly when every required capability is available.
pub has_all_iff :
    (available required : List Bytes)
    → (has_all available required ≡ true) ↔ All (Offers available) required
unfolding has_all
has_all_iff available required =
    let counted = has_all_loop-All (have_loop available []) required in
    let offered = All-Offers available required in
    (λ e. offered.0 (counted.0 e), λ h. counted.1 (offered.1 h))

not_offered :
    (available : List Bytes) (c : Bytes)
    → (not (offers available c) ≡ true) ↔ (¬ (Offers available c))
not_offered available c = (
  λ e h. cc (e, (offers_iff available c).1 h),
  λ h. elim (Bool-cases (offers available c)) [
    | inl there ↦ absurd (h ((offers_iff available c).0 there))
    | inr gone ↦ rw gone
  ],
)

has-offers : (available : List Bytes) → has (have_loop available []) ≡ offers available
has-offers available = fun_ext (has-available available)

missing_capabilities-keep :
    (required available : List Bytes)
    → missing_capabilities required available ≡ keep (λ c. not (offers available c)) required
unfolding missing_capabilities
missing_capabilities-keep required available =
    missing_loop-keep (have_loop available []) required [] ∙ rw (has-offers available)

capability_set_diff-keep :
    (required available : List Bytes)
    → capability_set_diff required available
      ≡ (keep (offers available) required, keep (λ c. not (offers available c)) required)
unfolding capability_set_diff
capability_set_diff-keep required available =
    diff_loop-keep (have_loop available []) required [] [] ∙ rw (has-offers available)

-- The three routines agree: what `CapabilitySetDiff` reports as absent is what
-- `missingCapabilities` returns, and `hasAll` answers whether that is empty.
pub capability_routines_agree :
    (required available : List Bytes)
    → ((capability_set_diff required available).1 ≡ missing_capabilities required available)
      × (has_all available required ≡ is_empty (missing_capabilities required available))
unfolding has_all
capability_routines_agree required available =
    rw (capability_set_diff-keep, missing_capabilities-keep)
      (refl, has_all_loop-is_empty (have_loop available []) required ∙ rw (has-offers available))

-- A capability is reported as present exactly when it is required and available, and as absent
-- exactly when it is required and not available.
pub capability_set_diff_lem :
    (required available : List Bytes) (c : Bytes)
    → (Offers (capability_set_diff required available).0 c
        ↔ (Offers required c × Offers available c))
      × (Offers (capability_set_diff required available).1 c
          ↔ (Offers required c × (¬ (Offers available c))))
capability_set_diff_lem required available c =
    let present = Offers-keep (offers available) required c in
    let absent = Offers-keep (λ x. not (offers available x)) required c in
    let here = offers_iff available c in
    let gone = not_offered available c in
    rw capability_set_diff-keep (
      (λ h. ((present.0 h).0, here.0 (present.0 h).1), λ (r, a). present.1 (r, here.1 a)),
      (λ h. ((absent.0 h).0, gone.0 (absent.0 h).1), λ (r, a). absent.1 (r, gone.1 a)),
    )
