-- ===== src/Discovery.antt =====
-- core/discovery.go: the registry of announced profiles.
pub mod Expiry
pub mod Find
pub mod Evict
pub mod Orders
pub mod Model
pub mod Background
use agent_semantic_protocol.Common.{
  ℕ, suc, ◌+◌, ◌-◌, ◌*◌, ◌%◌, ◌^◌, Bool, true, false, Option, none, some, List, [], ◌∷◌, ◌++◌,
  Bytes, ltb, ◌==◌, bytes_eq, if◌then◌else◌,
}
use agent_semantic_protocol.Common.Int64.{ℤ, pos, negsuc, uint64, int64}
use agent_semantic_protocol.Wire.Float32.{Float32}
use agent_semantic_protocol.Wire.Maps.{Assoc, put, delete}
use agent_semantic_protocol.Messages.Types.{CapabilityAnnouncement}
use agent_semantic_protocol.Did.{to_string}
use agent_semantic_protocol.Agent.{Agent}
use agent_semantic_protocol.Capability.{has_all}

-- core/negotiation.go, `AgentProfile`
pub record AgentProfile : Type 0 where
  pub agent_id : Bytes
  pub did : Bytes
  pub capabilities : List Bytes
  pub embedding_vector : List Float32
  pub public_key : Bytes

-- A `time.Time`, in nanoseconds since its zero value.
abbrev pub Time : Type 0
Time = ℕ

pub record RegistryEntry : Type 0 where
  pub profile : AgentProfile
  pub expires_at : Time

-- `DiscoveryRegistry.entries`, keyed by agent id. Its mutex makes each method one step.
abbrev pub Registry : Type 0
Registry = Assoc RegistryEntry

unfoldable pub new_discovery_registry : Registry
new_discovery_registry = []

-- `t.Add(d)`
abbrev pub add_duration : Time → ℤ → Time
add_duration t (pos d) = t + d
add_duration t (negsuc d) = t - suc d

-- `time.Duration(ttlSeconds) * time.Second`, which wraps like any int64.
unfoldable pub seconds : ℤ → ℤ
seconds ttl = int64 (uint64 ttl * 1000000000 % 2 ^ 64)

abbrev pub is_positive : ℤ → Bool
is_positive (pos n) = ltb 0 n
is_positive (negsuc n) = false

unfoldable pub expiry : Time → ℤ → Time
expiry now ttl_seconds =
    if is_positive ttl_seconds then add_duration now (seconds ttl_seconds) else 0

unfoldable pub announce : Time → AgentProfile → ℤ → Registry → Registry
announce now profile ttl_seconds entries =
    put profile.agent_id (record { profile = profile; expires_at = expiry now ttl_seconds }) entries

unfoldable pub announce_from_message : Time → CapabilityAnnouncement → Registry → Registry
announce_from_message now msg entries =
    announce now
      (record {
        agent_id = msg.agent_id;
        did = msg.did;
        capabilities = msg.capabilities;
        embedding_vector = [];
        public_key = [];
      })
      msg.ttl entries

unfoldable pub remove : Bytes → Registry → Registry
remove agent_id entries = delete agent_id entries

unfoldable pub is_expired : Time → RegistryEntry → Bool
is_expired now e = if e.expires_at == 0 then false else ltb e.expires_at now

-- The loops over the registry. `time.Now()` is read anew for each entry: `clock i` is the reading
-- at the entry that the loop reaches after `i` others.
unfoldable pub find_by_capability_loop :
    (ℕ → Time) → List Bytes → ℕ → Registry → List AgentProfile → List AgentProfile
find_by_capability_loop clock required i [] results = results
find_by_capability_loop clock required i ((id, e) ∷ entries) results =
    find_by_capability_loop clock required (suc i) entries (
      if is_expired (clock i) e
      then results
      else if has_all e.profile.capabilities required
      then results ++ (e.profile ∷ [])
      else results)

unfoldable pub find_by_capability : (ℕ → Time) → List Bytes → Registry → List AgentProfile
find_by_capability clock required entries = find_by_capability_loop clock required 0 entries []

unfoldable pub find_by_did_loop : (ℕ → Time) → Bytes → ℕ → Registry → Option AgentProfile
find_by_did_loop clock did i [] = none
find_by_did_loop clock did i ((id, e) ∷ entries) =
    let rest = find_by_did_loop clock did (suc i) entries in
    if is_expired (clock i) e
    then rest
    else if bytes_eq e.profile.did did
    then some e.profile
    else rest

unfoldable pub find_by_did : (ℕ → Time) → Bytes → Registry → Option AgentProfile
find_by_did clock did entries = find_by_did_loop clock did 0 entries

unfoldable pub all_loop : (ℕ → Time) → ℕ → Registry → List AgentProfile → List AgentProfile
all_loop clock i [] out = out
all_loop clock i ((id, e) ∷ entries) out =
    all_loop clock (suc i) entries (if is_expired (clock i) e then out else out ++ (e.profile ∷ []))

-- `All`
unfoldable pub all_profiles : (ℕ → Time) → Registry → List AgentProfile
all_profiles clock entries = all_loop clock 0 entries []

-- The loop goes through the entries that were there at its start, and deletes as it goes.
unfoldable pub evict_loop : (ℕ → Time) → ℕ → Registry → Registry → ℕ → Registry × ℕ
evict_loop clock i [] entries n = (entries, n)
evict_loop clock i ((id, e) ∷ rest) entries n = elim (is_expired (clock i) e) [
  | true ↦ evict_loop clock (suc i) rest (delete id entries) (suc n)
  | false ↦ evict_loop clock (suc i) rest entries n
]

unfoldable pub evict : (ℕ → Time) → Registry → Registry × ℕ
evict clock entries = evict_loop clock 0 entries entries 0

unfoldable pub build_announcement : ℤ → Agent → ℤ → CapabilityAnnouncement
build_announcement now agent ttl_seconds = record {
  agent_id = agent.id;
  did = to_string agent.did;
  capabilities = agent.capabilities;
  timestamp = now;
  ttl = ttl_seconds;
}
