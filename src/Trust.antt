-- ===== src/Trust.antt =====
-- core/did.go: the trust graph.
pub mod Scores
pub mod Race
use agent_semantic_protocol.Common.{ℕ, Option, none, some, [], ◌++◌, Bytes, codes, if◌then◌else◌}
use agent_semantic_protocol.Wire.Float32.{Float32, less}
use agent_semantic_protocol.Wire.Maps.{Assoc, get, put}

-- `TrustGraph.scores`
abbrev pub TrustGraph : Type 0
TrustGraph = Assoc Float32

abbrev pub one : Float32
one = 0x3f800000

unfoldable pub clamp : Float32 → Float32
clamp v = if less v 0 then 0 else if less one v then one else v

unfoldable pub trust_key : Bytes → Bytes → Bytes
trust_key from to = from ++ (codes "->" ++ to)

-- `m[k]` of a map to float32, which is 0 at a key that is missing
abbrev pub score_of : Option Float32 → Float32
score_of none = 0
score_of (some v) = v

unfoldable pub new_trust_graph : TrustGraph
new_trust_graph = []

unfoldable pub set_score : Bytes → Bytes → Float32 → TrustGraph → TrustGraph
set_score from to score tg = put (trust_key from to) (clamp score) tg

unfoldable pub get_score : Bytes → Bytes → TrustGraph → Float32
get_score from to tg = score_of (get (trust_key from to) tg)

-- `add` is the sum of two float32, rounded.
unfoldable pub apply :
    (Float32 → Float32 → Float32) → Bytes → Bytes → Float32 → TrustGraph → TrustGraph
apply add from to delta tg =
    let k = trust_key from to in put k (clamp (add (score_of (get k tg)) delta)) tg
