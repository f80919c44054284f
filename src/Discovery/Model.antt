-- ===== src/Discovery/Model.antt =====
-- core/discovery.go: the registry as a function from agent ids to entries.
use agent_semantic_protocol.Common.{
  ℕ, suc, ◌≡◌, refl, ◌∙◌, ap, Bool, true, false, Option, none, some, List, [], ◌∷◌, ◌++◌, Bytes,
  bytes_eq, bytes_eq_iff, if◌then◌else◌, Bool-cases, inl, inr,
}
use mathlib.Core.Path.{subst}
use agent_semantic_protocol.Common.Int64.{ℤ}
use agent_semantic_protocol.Wire.Maps.{
  get, get-put, get-delete, IsFresh, IsMap, IsFresh-fewer, IsFresh-absent, get-append_none,
  get-append_fresh, get-singleton,
}
use agent_semantic_protocol.Wire.Distinct.{put-IsMap, delete-IsMap}
use agent_semantic_protocol.Discovery.{
  Time, AgentProfile, RegistryEntry, Registry, new_discovery_registry, announce, remove, is_expired,
  evict,
}
use agent_semantic_protocol.Discovery.Expiry.{entry}
use agent_semantic_protocol.Discovery.Evict.{kept, evict-kept}

-- What the methods that change a registry promise, with no order of entries.
abbrev pub Model : Type 0
Model = Bytes → Option RegistryEntry

abbrev pub live : Time → Option RegistryEntry → Option RegistryEntry
live now none = none
live now (some e) = if is_expired now e then none else some e

-- The calls; during one of them the clock shows one time.
pub data Method : Type 0 where
  announces : AgentProfile → ℤ → Method
  removes : Bytes → Method
  evicts : Method

unfoldable pub call_method : Time → Method → Registry → Registry
call_method now (announces profile ttl) entries = announce now profile ttl entries
call_method now (removes id) entries = remove id entries
call_method now evicts entries = (evict (λ _. now) entries).0

abbrev pub model_method : Time → Method → Model → Model
model_method now (announces profile ttl) model id =
    if bytes_eq profile.agent_id id then some (entry profile now ttl) else model id
model_method now (removes gone) model id = if bytes_eq gone id then none else model id
model_method now evicts model id = live now (model id)

unfoldable pub call_methods : List (Time × Method) → Registry → Registry
call_methods [] entries = entries
call_methods ((now, m) ∷ ms) entries = call_methods ms (call_method now m entries)

abbrev pub model_methods : List (Time × Method) → Model → Model
model_methods [] model = model
model_methods ((now, m) ∷ ms) model = model_methods ms (model_method now m model)

module _ (clock : ℕ → Time) where
  kept-IsFresh :
      (i : ℕ) (prior entries : Registry)
      → IsFresh prior entries
      → IsFresh prior (kept clock i entries)
  kept-IsFresh i prior [] h = tt
  kept-IsFresh i prior ((id, e) ∷ rest) (new, fresh) = elim (Bool-cases (is_expired (clock i) e)) [
    | inl expired ↦ rw expired (
        kept-IsFresh (suc i) prior rest (
          IsFresh-fewer (prior ++ ((id, e) ∷ [])) prior rest
            (λ k h. (get-append_none k prior ((id, e) ∷ []) h).0) fresh))
    | inr fine ↦ rw fine (new, kept-IsFresh (suc i) (prior ++ ((id, e) ∷ [])) rest fresh)
  ]

  pub evict-IsMap : (entries : Registry) → IsMap entries → IsMap (evict clock entries).0
  evict-IsMap entries h = rw (evict-kept clock entries h) (kept-IsFresh 0 [] entries h)

module _ (now : Time) where
  get-kept :
      (i : ℕ) (prior entries : Registry) (id : Bytes)
      → IsFresh prior entries
      → get id (kept (λ _. now) i entries) ≡ live now (get id entries)
  unfolding get
  get-kept i prior [] id h = refl
  get-kept i prior ((k, e) ∷ rest) id (new, fresh) =
      one (is_expired now e) (bytes_eq k id) refl refl
        (get-kept (suc i) (prior ++ ((k, e) ∷ [])) rest id fresh)
    where
      absent : bytes_eq k id ≡ true → get id rest ≡ none
      absent same =
          subst (λ (x : Bytes). get x rest ≡ none) ((bytes_eq_iff k id).0 same)
            (IsFresh-absent (prior ++ ((k, e) ∷ [])) rest k e
              (get-append_fresh k prior ((k, e) ∷ []) new ∙ get-singleton k e) fresh)

      one :
          (b d : Bool)
          → is_expired now e ≡ b
          → bytes_eq k id ≡ d
          → get id (kept (λ _. now) (suc i) rest) ≡ live now (get id rest)
          → get id
              (if b then kept (λ _. now) (suc i) rest else (k, e) ∷ kept (λ _. now) (suc i) rest)
            ≡ live now (if d then some e else get id rest)
      one true true x s ih = rw (x, ih, absent s)
      one true false x s ih = ih
      one false true x s ih = rw (x, s)
      one false false x s ih = rw (s, ih)

call_method-IsMap :
    (now : Time) (m : Method) (entries : Registry)
    → IsMap entries
    → IsMap (call_method now m entries)
unfolding call_method announce remove
call_method-IsMap now (announces profile ttl) entries h = put-IsMap profile.agent_id _ entries h
call_method-IsMap now (removes id) entries h = delete-IsMap id entries h
call_method-IsMap now evicts entries h = evict-IsMap (λ _. now) entries h

call_method-model :
    (now : Time) (m : Method) (entries : Registry) (model : Model)
    → IsMap entries
    → ((id : Bytes) → get id entries ≡ model id)
    → (id : Bytes) → get id (call_method now m entries) ≡ model_method now m model id
unfolding call_method announce remove
call_method-model now (announces profile ttl) entries model h same id = rw (get-put, same id)
call_method-model now (removes gone) entries model h same id = rw (get-delete, same id)
call_method-model now evicts entries model h same id =
    ap (λ (r : Registry × ℕ). get id r.0) (evict-kept (λ _. now) entries h)
    ∙ get-kept now 0 [] entries id h
    ∙ ap (live now) (same id)

call_methods-model :
    (ms : List (Time × Method)) (entries : Registry) (model : Model)
    → IsMap entries
    → ((id : Bytes) → get id entries ≡ model id)
    → (id : Bytes) → get id (call_methods ms entries) ≡ model_methods ms model id
unfolding call_methods
call_methods-model [] entries model h same = same
call_methods-model ((now, m) ∷ ms) entries model h same =
    call_methods-model ms (call_method now m entries) (model_method now m model)
      (call_method-IsMap now m entries h) (call_method-model now m entries model h same)

-- A new registry, after any announcements, removals and evictions, has for each agent id what its
-- model has: the profile that was announced last, unless it was removed since or an eviction found
-- it expired. The clock shows one time during each call.
pub registry_refines :
    (ms : List (Time × Method)) (id : Bytes)
    → get id (call_methods ms new_discovery_registry) ≡ model_methods ms (λ _. none) id
unfolding new_discovery_registry get
registry_refines ms id = call_methods-model ms [] (λ _. none) tt (λ _. refl) id
