-- ===== src/Capability.antt =====
-- core/discovery.go and core/negotiation.go: sets of capabilities. A `map[string]struct{}` is a map
-- to the type with one value.
pub mod Sets
use agent_semantic_protocol.Common.{
  Bool, true, false, Option, none, some, List, [], ◌∷◌, ◌++◌, Bytes, if◌then◌else◌,
}
use agent_semantic_protocol.Wire.Maps.{Assoc, get, put}

-- `have[c] = struct{}{}` for each `c`
unfoldable pub have_loop : List Bytes → Assoc (Unit {0}) → Assoc (Unit {0})
have_loop [] have = have
have_loop (c ∷ available) have = have_loop available (put c tt have)

-- `_, ok := have[c]`
abbrev pub found {ℓ} : {A : Type ℓ} → Option A → Bool
found none = false
found (some a) = true

unfoldable pub has : Assoc (Unit {0}) → Bytes → Bool
has have c = found (get c have)

unfoldable pub has_all_loop : List Bytes → Assoc (Unit {0}) → Bool
has_all_loop [] have = true
has_all_loop (r ∷ required) have =
    let rest = has_all_loop required have in if has have r then rest else false

unfoldable pub has_all : List Bytes → List Bytes → Bool
has_all available required = has_all_loop required (have_loop available [])

unfoldable pub diff_loop :
    List Bytes → Assoc (Unit {0}) → List Bytes → List Bytes → List Bytes × List Bytes
diff_loop [] have present absent = (present, absent)
diff_loop (c ∷ required) have present absent = elim (has have c) [
  | true ↦ diff_loop required have (present ++ (c ∷ [])) absent
  | false ↦ diff_loop required have present (absent ++ (c ∷ []))
]

unfoldable pub capability_set_diff : List Bytes → List Bytes → List Bytes × List Bytes
capability_set_diff required available = diff_loop required (have_loop available []) [] []

unfoldable pub missing_loop : List Bytes → Assoc (Unit {0}) → List Bytes → List Bytes
missing_loop [] have missing = missing
missing_loop (c ∷ required) have missing =
    missing_loop required have (if has have c then missing else missing ++ (c ∷ []))

unfoldable pub missing_capabilities : List Bytes → List Bytes → List Bytes
missing_capabilities required available = missing_loop required (have_loop available []) []
