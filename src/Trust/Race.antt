-- ===== src/Trust/Race.antt =====
-- core/did.go: `Apply` by several goroutines. The graph has no lock, so that between the read and the
-- write of one call those of others may fall. That Go may end the program at two writes to one map
-- at once is left out.
use agent_semantic_protocol.Common.{
  ℕ, ◌≡◌, refl, some, List, [], ◌∷◌, Bytes, get_elem?, set, bytes_eq_iff,
}
use agent_semantic_protocol.Wire.Float32.{Float32}
use agent_semantic_protocol.Trust.{TrustGraph, clamp, trust_key, set_score, get_score, apply}
use agent_semantic_protocol.Trust.Scores.{
  IsScored, Update, update, update-IsScored, get_score-set_score,
}

-- The arguments of a call.
pub record Call : Type 0 where
  pub from : Bytes
  pub to : Bytes
  pub delta : Float32

-- Where a goroutine stands: before the read, with the score that it read, or past the write.
pub data Pc : Type 0 where
  ready : Call → Pc
  loaded : Call → Float32 → Pc
  finished : Pc

pub record System : Type 0 where
  pub graph : TrustGraph
  pub threads : List Pc

module _ (add : Float32 → Float32 → Float32) where
  pub data Step (s : System) : System → Type 0 where
    load :
        (i : ℕ) (call : Call)
        → get_elem? s.threads i ≡ some (ready call)
        → Step s (record s {
          threads = set s.threads i (loaded call (get_score call.from call.to s.graph));
        })
    store :
        (i : ℕ) (call : Call) (v : Float32)
        → get_elem? s.threads i ≡ some (loaded call v)
        → Step s (record {
          graph = set_score call.from call.to (add v call.delta) s.graph;
          threads = set s.threads i finished;
        })

  pub data Reach (s : System) : System → Type 0 where
    here : Reach s s
    later : {t u : System} → Reach s t → Step t u → Reach s u

  -- One call by itself is the read and then the write.
  apply-steps :
      (call : Call) (tg : TrustGraph)
      → apply add call.from call.to call.delta tg
        ≡ set_score call.from call.to (add (get_score call.from call.to tg) call.delta) tg
  unfolding apply set_score get_score
  apply-steps call tg = refl

  -- In every order of the reads and writes each score stays between 0 and 1 or not a number.
  pub Reach-IsScored : (s t : System) → Reach s t → IsScored s.graph → IsScored t.graph
  unfolding update
  Reach-IsScored s t here h = h
  Reach-IsScored s t (later reached (load i call e)) h = Reach-IsScored s _ reached h
  Reach-IsScored s t (later {t = u} reached (store i call v e)) h =
      update-IsScored add (Update.set call.from call.to (add v call.delta)) u.graph
        (Reach-IsScored s u reached h)

  -- Two calls for the same pair can both end with the first lost: the score is then what the second
  -- makes of the score at the start, for any graph and any deltas.
  pub lost_update :
      (from to : Bytes) (d d' : Float32) (tg : TrustGraph)
      → (t : System) × (Reach
            (record {
              graph = tg;
              threads =
                  ready (record { from = from; to = to; delta = d })
                  ∷ ready (record { from = from; to = to; delta = d' })
                  ∷ [];
            })
            t
          × ((t.threads ≡ finished ∷ finished ∷ [])
              × (get_score from to t.graph ≡ clamp (add (get_score from to tg) d'))))
  lost_update from to d d' tg =
      let first : Call = record { from = from; to = to; delta = d } in
      let second : Call = record { from = from; to = to; delta = d' } in
      let before = get_score from to tg in
      let once = set_score from to (add before d) tg in
      (
        record {
          graph = set_score from to (add before d') once;
          threads = finished ∷ finished ∷ [];
        },
        (
          later
              (later (later (later here (load 0 first refl)) (load 1 second refl))
                (store 0 first before refl))
              (store 1 second before refl),
          (
            refl,
            rw (get_score-set_score, (bytes_eq_iff (trust_key from to) (trust_key from to)).1 refl),
          ),
        ),
      )
