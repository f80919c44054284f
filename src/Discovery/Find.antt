-- ===== src/Discovery/Find.antt =====
-- core/discovery.go: what the lookups of the registry return, while the clock runs.
use agent_semantic_protocol.Common.{
  ℕ, suc, ◌≤◌, ◌≡◌, ◌↔◌, ◌⊎◌, inl, inr, refl, sym, ◌∙◌, Bool, true, false, List, [], ◌∷◌, ◌++◌,
  Bytes, if◌then◌else◌, arith, All, append-nil, append_assoc, Bool-cases,
}
use mathlib.Core.Path.{subst}
use agent_semantic_protocol.Capability.{has_all, has_all_loop}
use agent_semantic_protocol.Capability.Sets.{Offers, has_all_iff}
use agent_semantic_protocol.Discovery.{
  Time, AgentProfile, RegistryEntry, Registry, is_expired, find_by_capability_loop,
  find_by_capability, all_loop, all_profiles,
}

-- The registry has the entry, and the list has the profile.
abbrev pub Holds : Registry → RegistryEntry → Type 0
Holds [] e = ⊥
Holds ((id, x) ∷ entries) e = (x ≡ e) ⊎ Holds entries e

abbrev pub Lists : List AgentProfile → AgentProfile → Type 0
Lists [] p = ⊥
Lists (x ∷ xs) p = (x ≡ p) ⊎ Lists xs p

-- What has not expired later has not expired before.
pub is_expired_before :
    (e : RegistryEntry) (t t' : Time) → t ≤ t' → is_expired t' e ≡ false → is_expired t e ≡ false
unfolding is_expired
is_expired_before e t t' h k = ground arith

abbrev pub live_profiles : (ℕ → Time) → (AgentProfile → Bool) → ℕ → Registry → List AgentProfile
live_profiles clock p i [] = []
live_profiles clock p i ((id, e) ∷ entries) =
    let rest = live_profiles clock p (suc i) entries in
    if is_expired (clock i) e then rest else if p e.profile then e.profile ∷ rest else rest

module _ (clock : ℕ → Time) where
  find_loop-live :
      (required : List Bytes) (i : ℕ) (entries : Registry) (results : List AgentProfile)
      → find_by_capability_loop clock required i entries results
        ≡ results ++ live_profiles clock (λ p. has_all p.capabilities required) i entries
  unfolding find_by_capability_loop
  find_loop-live required i [] results = sym (append-nil results)
  find_loop-live required i ((id, e) ∷ entries) results =
      find_loop-live required (suc i) entries _
      ∙ one (is_expired (clock i) e) (has_all e.profile.capabilities required)
    where
      one :
          (b c : Bool)
          → (if b then results else if c then results ++ (e.profile ∷ []) else results)
              ++ live_profiles clock (λ p. has_all p.capabilities required) (suc i) entries
            ≡ results
              ++ (if b
                  then live_profiles clock (λ p. has_all p.capabilities required) (suc i) entries
                  else if c
                  then e.profile
                    ∷ live_profiles clock (λ p. has_all p.capabilities required) (suc i) entries
                  else live_profiles clock (λ p. has_all p.capabilities required) (suc i) entries)
      one true c = refl
      one false true = append_assoc results (e.profile ∷ []) _
      one false false = refl

  live_profiles_sound :
      (p : AgentProfile → Bool) (from : Time)
      → ((i : ℕ) → from ≤ clock i)
      → (i : ℕ) (entries : Registry) (profile : AgentProfile)
      → Lists (live_profiles clock p i entries) profile
      → (e : RegistryEntry) × (Holds entries e
          × ((e.profile ≡ profile) × (is_expired from e ≡ false) × (p profile ≡ true)))
  live_profiles_sound p from h i [] profile l = absurd l
  live_profiles_sound p from h i ((id, x) ∷ entries) profile l =
      elim (one (is_expired (clock i) x) (p x.profile) l) [
        | inl later ↦
            let (e, (held, rest)) = live_profiles_sound p from h (suc i) entries profile later in
            (e, (inr held, rest))
        | inr (live, fits, same) ↦
            (x, (inl refl, (same, is_expired_before x from (clock i) (h i) live, rw same at fits)))
      ]
    where
      one :
          (b c : Bool)
          → Lists
              (if b
                then live_profiles clock p (suc i) entries
                else if c
                then x.profile ∷ live_profiles clock p (suc i) entries
                else live_profiles clock p (suc i) entries)
              profile
          → Lists (live_profiles clock p (suc i) entries) profile
            ⊎ ((b ≡ false) × (c ≡ true) × (x.profile ≡ profile))
      one true c l = inl l
      one false true (inl same) = inr (refl, refl, same)
      one false true (inr later) = inl later
      one false false l = inl l

  live_profiles_complete :
      (p : AgentProfile → Bool) (until : Time)
      → ((i : ℕ) → clock i ≤ until)
      → (i : ℕ) (entries : Registry) (e : RegistryEntry) → Holds entries e
      → is_expired until e ≡ false
      → p e.profile ≡ true
      → Lists (live_profiles clock p i entries) e.profile
  live_profiles_complete p until h i [] e l live ok = absurd l
  live_profiles_complete p until h i ((id, x) ∷ entries) e (inl same) live ok =
      rw (same, is_expired_before e (clock i) until (h i) live, ok) (inl refl)
  live_profiles_complete p until h i ((id, x) ∷ entries) e (inr later) live ok =
      one (is_expired (clock i) x) (p x.profile)
        (live_profiles_complete p until h (suc i) entries e later live ok)
    where
      one :
          (b c : Bool)
          → Lists (live_profiles clock p (suc i) entries) e.profile
          → Lists
              (if b
                then live_profiles clock p (suc i) entries
                else if c
                then x.profile ∷ live_profiles clock p (suc i) entries
                else live_profiles clock p (suc i) entries)
              e.profile
      one true c l = l
      one false true l = inr l
      one false false l = l

-- The clock never shows less than `from` during the call: every profile that is returned belongs to
-- an entry that had not expired at `from`, and offers all that is required.
pub find_by_capability_sound :
    (clock : ℕ → Time) (from : Time) (required : List Bytes) (entries : Registry)
    (profile : AgentProfile)
    → ((i : ℕ) → from ≤ clock i)
    → Lists (find_by_capability clock required entries) profile
    → (e : RegistryEntry) × (Holds entries e
        × ((e.profile ≡ profile)
            × (is_expired from e ≡ false)
            × All (Offers profile.capabilities) required))
unfolding find_by_capability
find_by_capability_sound clock from required entries profile h l =
    let (e, (held, (same, live, fits))) =
      live_profiles_sound clock (λ p. has_all p.capabilities required) from h 0 entries profile
        (rw (find_loop-live clock required 0 entries []) at l) in
    (e, (held, (same, live, (has_all_iff profile.capabilities required).0 fits)))

-- The clock never shows more than `until` during the call: every entry that has not expired at
-- `until` and offers all that is required is returned.
pub find_by_capability_complete :
    (clock : ℕ → Time) (until : Time) (required : List Bytes) (entries : Registry)
    (e : RegistryEntry)
    → ((i : ℕ) → clock i ≤ until)
    → Holds entries e
    → is_expired until e ≡ false
    → All (Offers e.profile.capabilities) required
    → Lists (find_by_capability clock required entries) e.profile
unfolding find_by_capability
find_by_capability_complete clock until required entries e h held live fits =
    rw (find_loop-live clock required 0 entries []) (
      live_profiles_complete clock (λ p. has_all p.capabilities required) until h 0 entries e held
        live ((has_all_iff e.profile.capabilities required).1 fits))

-- While the clock stands still, exactly the profiles of entries that have not expired and that offer
-- all that is required are returned.
pub find_by_capability_iff :
    (now : Time) (required : List Bytes) (entries : Registry) (profile : AgentProfile)
    → Lists (find_by_capability (λ _. now) required entries) profile ↔ (
        (e : RegistryEntry) × (Holds entries e
          × ((e.profile ≡ profile)
              × (is_expired now e ≡ false)
              × All (Offers profile.capabilities) required)))
find_by_capability_iff now required entries profile = (
  find_by_capability_sound (λ _. now) now required entries profile (λ i. omega arith),
  λ (e, (held, (same, live, fits))).
      subst (λ p. Lists (find_by_capability (λ _. now) required entries) p) same
        (find_by_capability_complete (λ _. now) now required entries e (λ i. omega arith) held live
          (subst (λ (p : AgentProfile). All (Offers p.capabilities) required) (sym same) fits)),
)

all_loop-live :
    (clock : ℕ → Time) (i : ℕ) (entries : Registry) (out : List AgentProfile)
    → all_loop clock i entries out ≡ out ++ live_profiles clock (λ p. true) i entries
unfolding all_loop
all_loop-live clock i [] out = sym (append-nil out)
all_loop-live clock i ((id, e) ∷ entries) out = elim (Bool-cases (is_expired (clock i) e)) [
  | inl gone ↦ rw gone (all_loop-live clock (suc i) entries out)
  | inr live ↦ rw live (
      all_loop-live clock (suc i) entries (out ++ (e.profile ∷ []))
      ∙ append_assoc out (e.profile ∷ []) (live_profiles clock (λ p. true) (suc i) entries))
]

pub find_by_capability-live :
    (clock : ℕ → Time) (required : List Bytes) (entries : Registry)
    → find_by_capability clock required entries
      ≡ live_profiles clock (λ p. has_all p.capabilities required) 0 entries
unfolding find_by_capability
find_by_capability-live clock required entries = find_loop-live clock required 0 entries []

pub all_profiles-live :
    (clock : ℕ → Time) (entries : Registry)
    → all_profiles clock entries ≡ live_profiles clock (λ p. true) 0 entries
unfolding all_profiles
all_profiles-live clock entries = all_loop-live clock 0 entries []

-- A search for no capability at all, with the same readings of the clock, is the snapshot of all
-- live profiles, in the same order.
pub find_by_capability-all :
    (clock : ℕ → Time) (entries : Registry)
    → find_by_capability clock [] entries ≡ all_profiles clock entries
unfolding find_by_capability all_profiles has_all has_all_loop
find_by_capability-all clock entries =
    find_loop-live clock [] 0 entries [] ∙ sym (all_loop-live clock 0 entries [])
