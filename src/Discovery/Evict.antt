-- ===== src/Discovery/Evict.antt =====
-- core/discovery.go: `Evict`.
use agent_semantic_protocol.Common.{
  ℕ, suc, ◌+◌, ◌≤◌, ◌≡◌, ◌⊎◌, inl, inr, refl, ◌∙◌, ap, Bool, true, false, none, [], ◌∷◌, ◌++◌,
  Bytes, length, if◌then◌else◌, arith, append_assoc, Bool-cases,
}
use mathlib.Core.Path.{subst}
use agent_semantic_protocol.Wire.Maps.{
  IsMap, IsFresh, get, delete-middle, get-append_none, get-append_fresh, get-singleton,
  IsFresh-fewer, IsFresh-absent,
}
use agent_semantic_protocol.Discovery.{Time, RegistryEntry, Registry, is_expired, evict_loop, evict}
use agent_semantic_protocol.Discovery.Find.{Holds, is_expired_before}

module _ (clock : ℕ → Time) where
  -- The entries that have not expired when the loop reads the clock, and how many have.
  abbrev pub kept : ℕ → Registry → Registry
  kept i [] = []
  kept i ((id, e) ∷ rest) =
      let others = kept (suc i) rest in if is_expired (clock i) e then others else (id, e) ∷ others

  abbrev gone : ℕ → Registry → ℕ
  gone i [] = 0
  gone i ((id, e) ∷ rest) =
      let others = gone (suc i) rest in if is_expired (clock i) e then suc others else others

  length-kept :
      (i : ℕ) (entries : Registry) → gone i entries + length (kept i entries) ≡ length entries
  length-kept i [] = omega arith
  length-kept i ((id, e) ∷ rest) = ground (arith, length-kept (suc i) rest)

  evict_loop-kept :
      (i n : ℕ) (prior rest : Registry)
      → IsFresh prior rest
      → evict_loop clock i rest (prior ++ rest) n ≡ (prior ++ kept i rest, n + gone i rest)
  unfolding evict_loop
  evict_loop-kept i n prior [] fresh = ground arith
  evict_loop-kept i n prior ((id, e) ∷ rest) (new, fresh) =
      elim (Bool-cases (is_expired (clock i) e)) [
        | inl expired ↦
            rw (expired, evict_loop)
              (rw (delete-middle id e prior rest new absent) (
                evict_loop-kept (suc i) (suc n) prior rest fewer
                ∙ ap (λ (g : ℕ). (prior ++ kept (suc i) rest, g)) (omega arith)))
        | inr live ↦
            rw (live, evict_loop)
              (rw (← append_assoc prior ((id, e) ∷ []) rest) (
                evict_loop-kept (suc i) n (prior ++ ((id, e) ∷ [])) rest fresh
                ∙ rw (append_assoc prior ((id, e) ∷ []) (kept (suc i) rest))))
      ]
    where
      absent : get id rest ≡ none
      absent =
          IsFresh-absent (prior ++ ((id, e) ∷ [])) rest id e
            (get-append_fresh id prior ((id, e) ∷ []) new ∙ get-singleton id e) fresh

      fewer : IsFresh prior rest
      fewer =
          IsFresh-fewer (prior ++ ((id, e) ∷ [])) prior rest
            (λ k h. (get-append_none k prior ((id, e) ∷ []) h).0) fresh

  pub evict-kept :
      (entries : Registry) → IsMap entries → evict clock entries ≡ (kept 0 entries, gone 0 entries)
  unfolding evict
  evict-kept entries h =
      evict_loop-kept 0 0 [] entries h ∙ ap (λ (g : ℕ). (kept 0 entries, g)) (omega arith)

  Holds-if :
      (b : Bool) (id : Bytes) (x e : RegistryEntry) (others : Registry)
      → Holds (if b then others else (id, x) ∷ others) e
      → Holds others e ⊎ ((b ≡ false) × (x ≡ e))
  Holds-if true id x e others h = inl h
  Holds-if false id x e others (inl same) = inr (refl, same)
  Holds-if false id x e others (inr later) = inl later

  Holds-kept :
      (from : Time)
      → ((i : ℕ) → from ≤ clock i)
      → (i : ℕ) (entries : Registry) (e : RegistryEntry) → Holds (kept i entries) e
      → Holds entries e × (is_expired from e ≡ false)
  Holds-kept from h i [] e l = absurd l
  Holds-kept from h i ((id, x) ∷ entries) e l =
      elim (Holds-if (is_expired (clock i) x) id x e _ l) [
        | inl later ↦
            let (held, live) = Holds-kept from h (suc i) entries e later in (inr held, live)
        | inr (live, same) ↦ (inl same, is_expired_before e from (clock i) (h i) (rw same at live))
      ]

  kept-Holds :
      (until : Time)
      → ((i : ℕ) → clock i ≤ until)
      → (i : ℕ) (entries : Registry) (e : RegistryEntry) → Holds entries e
      → is_expired until e ≡ false
      → Holds (kept i entries) e
  kept-Holds until h i [] e l live = absurd l
  kept-Holds until h i ((id, x) ∷ entries) e (inl same) live =
      rw (same, is_expired_before e (clock i) until (h i) live) (inl refl)
  kept-Holds until h i ((id, x) ∷ entries) e (inr later) live =
      one (is_expired (clock i) x) (kept-Holds until h (suc i) entries e later live)
    where
      one :
          (b : Bool)
          → Holds (kept (suc i) entries) e
          → Holds (if b then kept (suc i) entries else (id, x) ∷ kept (suc i) entries) e
      one true l = l
      one false l = inr l

-- The clock never shows less than `from` during the call: what stays was there and had not expired
-- at `from`.
pub evict_sound :
    (clock : ℕ → Time) (from : Time) (entries : Registry) (e : RegistryEntry)
    → IsMap entries
    → ((i : ℕ) → from ≤ clock i)
    → Holds (evict clock entries).0 e
    → Holds entries e × (is_expired from e ≡ false)
evict_sound clock from entries e map h held =
    Holds-kept clock from h 0 entries e
      (subst (λ (r : Registry × ℕ). Holds r.0 e) (evict-kept clock entries map) held)

-- Whatever the clock shows, the count that is returned is the number of the entries that are gone.
pub length-evict :
    (clock : ℕ → Time) (entries : Registry)
    → IsMap entries
    → (evict clock entries).1 + length (evict clock entries).0 ≡ length entries
length-evict clock entries map = rw (evict-kept clock entries map) (length-kept clock 0 entries)

-- The clock never shows more than `until` during the call: every entry that has not expired at
-- `until` stays.
pub evict_complete :
    (clock : ℕ → Time) (until : Time) (entries : Registry) (e : RegistryEntry)
    → IsMap entries
    → ((i : ℕ) → clock i ≤ until)
    → Holds entries e
    → is_expired until e ≡ false
    → Holds (evict clock entries).0 e
evict_complete clock until entries e map h held live =
    rw (evict-kept clock entries map) (kept-Holds clock until h 0 entries e held live)
