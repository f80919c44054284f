-- ===== src/Tests/Registry.antt =====
-- core/did.go and core/discovery.go: the trust graph, capabilities and the registry at concrete
-- values.
use agent_semantic_protocol.Common.{
  ℕ, zero, suc, ◌≤◌, ◌≡◌, ◌↔◌, inl, refl, true, false, none, Bool, List, [], ◌∷◌, Bytes, codes,
  is_empty, if◌then◌else◌, arith, All, bytes_eq,
}
use agent_semantic_protocol.Common.Int64.{pos, uint64, int64}
use agent_semantic_protocol.Wire.Float32.{Float32, is_nan}
use agent_semantic_protocol.Wire.Maps.{IsMap, get}
use agent_semantic_protocol.Trust.{new_trust_graph, get_score}
use agent_semantic_protocol.Trust.Scores.{IsScored, apply_all, nan_delta_stays}
use agent_semantic_protocol.Capability.{has_all, missing_capabilities, capability_set_diff}
use agent_semantic_protocol.Capability.Sets.{Offers, capability_routines_agree}
use agent_semantic_protocol.Discovery.{
  Time, AgentProfile, RegistryEntry, Registry, find_by_capability, new_discovery_registry, seconds,
  expiry, is_expired,
}
use agent_semantic_protocol.Discovery.Expiry.{entry, long_ttl_expired}
use agent_semantic_protocol.Discovery.Find.{Holds, find_by_capability_iff, Lists}
use agent_semantic_protocol.Discovery.Model.{
  announces, removes, evicts, call_methods, registry_refines,
}
use agent_semantic_protocol.Discovery.Background.{tick, done, eviction_loop, eviction_loop-tick}

-- A sum that is no number if one side is none, and the left side if both are numbers.
abbrev some_add : Float32 → Float32 → Float32
some_add x d = if is_nan x then x else if is_nan d then d else x

new-IsScored : IsScored new_trust_graph
unfolding new_trust_graph get_score get
new-IsScored from to = inl (record { number = refl; not_below = refl; not_above = refl })

some_add_left : (x d : Float32) → is_nan x ≡ true → is_nan (some_add x d) ≡ true
some_add_left x d h = rw (h) h

some_add_right : (x d : Float32) → is_nan d ≡ true → is_nan (some_add x d) ≡ true
some_add_right x d h = one (is_nan x) refl
  where
    one : (b : Bool) → is_nan x ≡ b → is_nan (if b then x else if is_nan d then d else x) ≡ true
    one true e = e
    one false e = rw (h) h

nan_delta_example :
    is_nan (
      get_score
        (codes "a")
        (codes "b")
        (apply_all some_add (codes "a") (codes "b") (0x7fc00000 ∷ 0x3f000000 ∷ []) new_trust_graph))
    ≡ true
nan_delta_example =
    nan_delta_stays some_add some_add_left (codes "a") (codes "b") some_add_right 0x7fc00000
      (0x3f000000 ∷ []) new_trust_graph refl

abbrev skills : List Bytes
skills = codes "nlp" ∷ codes "search" ∷ []

routines_example :
    ((capability_set_diff (codes "x" ∷ codes "nlp" ∷ []) skills).1
      ≡ missing_capabilities (codes "x" ∷ codes "nlp" ∷ []) skills)
    × (has_all skills (codes "x" ∷ codes "nlp" ∷ [])
        ≡ is_empty (missing_capabilities (codes "x" ∷ codes "nlp" ∷ []) skills))
routines_example = capability_routines_agree (codes "x" ∷ codes "nlp" ∷ []) skills

abbrev profile : AgentProfile
profile = record {
  agent_id = codes "a";
  did = codes "did:x:y";
  capabilities = skills;
  embedding_vector = [];
  public_key = [];
}

-- In the year 2024
long_ttl_example :
    is_expired 63840000000000000001 (entry profile 63840000000000000000 (pos 9223372037)) ≡ true
long_ttl_example =
    long_ttl_expired profile 63840000000000000000 63840000000000000001 9223372037 (omega arith)
      (omega arith) (omega arith) (omega arith)

abbrev kept_entry : RegistryEntry
kept_entry = record { profile = profile; expires_at = 50 }

abbrev old_entry : RegistryEntry
old_entry = record { profile = profile; expires_at = 7 }

abbrev registry : Registry
registry = (codes "b", old_entry) ∷ (codes "a", kept_entry) ∷ []

-- A clock that shows a later time at each reading until it shows 20.
abbrev ticks : ℕ → Time
ticks zero = 9
ticks (suc i) = 20

ticks-from : (i : ℕ) → 9 ≤ ticks i
ticks-from zero = omega arith
ticks-from (suc i) = omega arith

ticks-until : (i : ℕ) → ticks i ≤ 20
ticks-until zero = omega arith
ticks-until (suc i) = omega arith

registry-IsMap : IsMap registry
unfolding get bytes_eq
registry-IsMap = (refl, (refl, tt))

find_iff_example : Lists (find_by_capability (λ _. 9) (codes "nlp" ∷ []) registry) profile ↔ (
    (e : RegistryEntry) × (Holds registry e
      × ((e.profile ≡ profile)
          × (is_expired 9 e ≡ false)
          × All (Offers profile.capabilities) (codes "nlp" ∷ []))))
find_iff_example = find_by_capability_iff 9 (codes "nlp" ∷ []) registry profile

-- A profile is announced for a second, removed, announced again, and evicted.
refines_example :
    get (codes "a") (
      call_methods
        ((9, announces profile (pos 1))
          ∷ (10, removes (codes "a"))
          ∷ (11, announces profile (pos 1))
          ∷ (1000000012, evicts)
          ∷ [])
        new_discovery_registry)
    ≡ none
unfolding is_expired expiry seconds uint64 int64 bytes_eq
refines_example =
    registry_refines
      ((9, announces profile (pos 1))
        ∷ (10, removes (codes "a"))
        ∷ (11, announces profile (pos 1))
        ∷ (1000000012, evicts)
        ∷ [])
      (codes "a")

eviction_example :
    ¬ Holds (eviction_loop (tick ticks ∷ tick ticks ∷ done ∷ []) registry).0 old_entry
unfolding is_expired
eviction_example =
    eviction_loop-tick ticks 9 (tick ticks ∷ done ∷ []) registry old_entry registry-IsMap ticks-from
      refl
