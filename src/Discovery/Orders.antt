-- ===== src/Discovery/Orders.antt =====
-- core/discovery.go: the order in which Go ranges over a map is arbitrary. While the clock stands
-- still, what the registry answers is the same up to order.
use agent_semantic_protocol.Common.{
  ℕ, suc, ◌≡◌, refl, ap, ◌∙◌, Bool, true, false, Option, none, some, List, [], ◌∷◌, Bytes,
  if◌then◌else◌, arith,
}
use agent_semantic_protocol.Common.Bags.{bag, consider, select, select_same, length_same}
use agent_semantic_protocol.Wire.Maps.{IsMap}
use agent_semantic_protocol.Capability.{has_all}
use agent_semantic_protocol.Discovery.{
  Time, AgentProfile, RegistryEntry, Registry, is_expired, find_by_capability, all_profiles, evict,
}
use agent_semantic_protocol.Discovery.Find.{
  live_profiles, find_by_capability-live, all_profiles-live,
}
use agent_semantic_protocol.Discovery.Evict.{kept, evict-kept, length-evict}

-- The profile of an entry that a lookup returns, and the entry that `Evict` keeps.
abbrev found : Time → (AgentProfile → Bool) → Bytes × RegistryEntry → Option AgentProfile
found now p (id, e) =
    if is_expired now e then none else if p e.profile then some e.profile else none

abbrev stays : Time → Bytes × RegistryEntry → Option (Bytes × RegistryEntry)
stays now (id, e) = if is_expired now e then none else some (id, e)

live_profiles-select :
    (now : Time) (p : AgentProfile → Bool) (i : ℕ) (entries : Registry)
    → live_profiles (λ _. now) p i entries ≡ select (found now p) entries
live_profiles-select now p i [] = refl
live_profiles-select now p i ((id, e) ∷ entries) =
    one (is_expired now e) (p e.profile) (live_profiles-select now p (suc i) entries)
  where
    one :
        (b q : Bool) {xs ys : List AgentProfile}
        → xs ≡ ys
        → (if b then xs else if q then e.profile ∷ xs else xs)
          ≡ consider (if b then none else if q then some e.profile else none) ys
    one true q same = same
    one false true same = ap (λ (l : List AgentProfile). e.profile ∷ l) same
    one false false same = same

kept-select :
    (now : Time) (i : ℕ) (entries : Registry)
    → kept (λ _. now) i entries ≡ select (stays now) entries
kept-select now i [] = refl
kept-select now i ((id, e) ∷ entries) = one (is_expired now e) (kept-select now (suc i) entries)
  where
    one :
        (b : Bool) {xs ys : Registry}
        → xs ≡ ys
        → (if b then xs else (id, e) ∷ xs) ≡ consider (if b then none else some (id, e)) ys
    one true same = same
    one false same = ap (λ (l : Registry). (id, e) ∷ l) same

find_by_capability-select :
    (now : Time) (required : List Bytes) (entries : Registry)
    → find_by_capability (λ _. now) required entries
      ≡ select (found now (λ p. has_all p.capabilities required)) entries
find_by_capability-select now required entries =
    find_by_capability-live (λ _. now) required entries
    ∙ live_profiles-select now (λ p. has_all p.capabilities required) 0 entries

all_profiles-select :
    (now : Time) (entries : Registry)
    → all_profiles (λ _. now) entries ≡ select (found now (λ p. true)) entries
all_profiles-select now entries =
    all_profiles-live (λ _. now) entries ∙ live_profiles-select now (λ p. true) 0 entries

evict-select :
    (now : Time) (entries : Registry)
    → IsMap entries
    → (evict (λ _. now) entries).0 ≡ select (stays now) entries
evict-select now entries map =
    ap (λ (r : Registry × ℕ). r.0) (evict-kept (λ _. now) entries map) ∙ kept-select now 0 entries

-- Two registries with the same entries, each id once, in whatever order `range` yields them: while
-- the clock stands still, a search for capabilities finds the same profiles up to order, the
-- snapshot has the same profiles up to order, and an eviction leaves the same entries up to order
-- and counts as many as gone.
pub registry_order_free :
    (now : Time) (required : List Bytes) (entries entries' : Registry)
    → IsMap entries
    → IsMap entries'
    → bag entries ≡ bag entries'
    → (bag (find_by_capability (λ _. now) required entries)
        ≡ bag (find_by_capability (λ _. now) required entries'))
      × (bag (all_profiles (λ _. now) entries) ≡ bag (all_profiles (λ _. now) entries'))
      × (bag (evict (λ _. now) entries).0 ≡ bag (evict (λ _. now) entries').0)
      × ((evict (λ _. now) entries).1 ≡ (evict (λ _. now) entries').1)
registry_order_free now required entries entries' map map' same =
    let left : bag (evict (λ _. now) entries).0 ≡ bag (evict (λ _. now) entries').0 =
      rw (evict-select now entries map, evict-select now entries' map')
        (select_same (stays now) entries entries' same) in
    (
      rw
          (
            find_by_capability-select now required entries,
            find_by_capability-select now required entries',
          )
          (select_same (found now (λ p. has_all p.capabilities required)) entries entries' same),
      rw (all_profiles-select now entries, all_profiles-select now entries')
          (select_same (found now (λ p. true)) entries entries' same),
      left,
      omega (
        arith,
        length-evict (λ _. now) entries map,
        length-evict (λ _. now) entries' map',
        length_same _ _ left,
        length_same entries entries' same,
      ),
    )
