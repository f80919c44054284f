-- ===== src/Agent.antt =====
-- core/types.go: an agent with its identity.
use agent_semantic_protocol.Common.{Option, none, some, List, [], Bytes}
use agent_semantic_protocol.Common.Outcome.{Result, ok, ◌>>=◌}
use agent_semantic_protocol.Did
use agent_semantic_protocol.Did.{Did, new_did}
use agent_semantic_protocol.Did.Packages.{Crypto}

pub record Agent : Type 0 where
  pub id : Bytes
  pub did : Did
  pub capabilities : List Bytes
  pub pub_key : Option Bytes
  pub priv_key : Option Bytes

-- The bytes of a slice that may be nil.
abbrev pub slice_bytes : Option Bytes → Bytes
slice_bytes none = []
slice_bytes (some b) = b

-- `Agent.PublicKey`, a copy
unfoldable pub public_key : Agent → Bytes
public_key a = slice_bytes a.pub_key

module _ (c : Crypto) where
  unfoldable pub new_agent : Option (Bytes × Bytes) → Bytes → List Bytes → Result Agent
  new_agent generated id capabilities = do
    d ← new_did c generated
    ok (record {
      id = id;
      did = d;
      capabilities = capabilities;
      pub_key = d.pub_key;
      priv_key = d.priv_key;
    })

  -- `Agent.Sign`
  unfoldable pub sign : Agent → Bytes → Result Bytes
  sign a bytes = Did.sign c a.did bytes
