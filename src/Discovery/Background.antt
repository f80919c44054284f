-- ===== src/Discovery/Background.antt =====
-- core/discovery.go: the loop of `StartEvictionLoop`, and `SummariseRegistry`.
use agent_semantic_protocol.Common.{ℕ, ◌≤◌, ◌≡◌, Bool, true, false, List, [], ◌∷◌, length, arith}
use agent_semantic_protocol.Common.Outcome.{Error, with_number}
use agent_semantic_protocol.Wire.Maps.{IsMap}
use agent_semantic_protocol.Discovery.{
  Time, RegistryEntry, Registry, is_expired, evict, all_profiles,
}
use agent_semantic_protocol.Discovery.Find.{Holds}
use agent_semantic_protocol.Discovery.Evict.{evict_sound}
use agent_semantic_protocol.Discovery.Model.{evict-IsMap}

-- What the `select` receives: a tick, with the readings of the clock in the call of `Evict` that it
-- starts, or `done`.
pub data Signal : Type 0 where
  tick : (ℕ → Time) → Signal
  done : Signal

-- The registry, and whether the goroutine has returned. It waits where no signal is left.
unfoldable pub eviction_loop : List Signal → Registry → Registry × Bool
eviction_loop [] entries = (entries, false)
eviction_loop (tick clock ∷ signals) entries = eviction_loop signals (evict clock entries).0
eviction_loop (done ∷ signals) entries = (entries, true)

-- The text with the number that it prints.
unfoldable pub summarise_registry : (ℕ → Time) → Registry → Error
summarise_registry clock entries =
    with_number "DiscoveryRegistry: %d live agents" (length (all_profiles clock entries))

eviction_loop-Holds :
    (signals : List Signal) (entries : Registry) (e : RegistryEntry)
    → IsMap entries
    → Holds (eviction_loop signals entries).0 e
    → Holds entries e
unfolding eviction_loop
eviction_loop-Holds [] entries e map h = h
eviction_loop-Holds (done ∷ signals) entries e map h = h
eviction_loop-Holds (tick clock ∷ signals) entries e map h =
    (evict_sound clock 0 entries e map (λ i. omega arith)
      (eviction_loop-Holds signals (evict clock entries).0 e (evict-IsMap clock entries map) h)).0

-- An entry that has expired when the ticker fires is gone after that tick, and stays gone, whatever
-- the loop receives then. No id stands twice in the registry, and the clock does not go back during
-- the eviction.
pub eviction_loop-tick :
    (clock : ℕ → Time) (from : Time) (signals : List Signal) (entries : Registry)
    (e : RegistryEntry)
    → IsMap entries
    → ((i : ℕ) → from ≤ clock i)
    → is_expired from e ≡ true
    → ¬ Holds (eviction_loop (tick clock ∷ signals) entries).0 e
unfolding eviction_loop
eviction_loop-tick clock from signals entries e map h expired held =
    let kept = evict_sound clock from entries e map h (
      eviction_loop-Holds signals (evict clock entries).0 e (evict-IsMap clock entries map) held) in
    cc (expired, kept.1)
