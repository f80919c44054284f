-- ===== src/Host/Libp2p.antt =====
-- p2p/host.go: the methods of a host that only call libp2p or pass on what it keeps. The libp2p
-- host is what it answers: its peer id and its addresses; a call of it is its error.
use agent_semantic_protocol.Common.{Option, none, some, List, Bytes}
use agent_semantic_protocol.Common.Outcome.{Error, Result, ok, err, wrap}
use agent_semantic_protocol.Agent.{Agent}
use agent_semantic_protocol.Trust.{TrustGraph}
use agent_semantic_protocol.Discovery.{Registry}
use agent_semantic_protocol.Host.{AgentHost, new_host}

pub record Libp2p : Type 0 where
  pub id : Bytes
  pub addrs : List Bytes

-- `peer.AddrInfo`
pub record AddrInfo : Type 0 where
  pub id : Bytes
  pub addrs : List Bytes

-- `NewHost`: `failed` is the error of `libp2p.New`.
unfoldable pub open_host : Option Error → Agent → Result AgentHost
open_host none agent = ok (new_host agent)
open_host (some failed) agent = err (wrap "p2p: create host: %w" failed)

unfoldable pub peer_id : Libp2p → Bytes
peer_id h = h.id

unfoldable pub addr_info : Libp2p → AddrInfo
addr_info h = record { id = h.id; addrs = h.addrs }

-- `dial` is `Connect` of libp2p.
unfoldable pub connect : (AddrInfo → Option Error) → AddrInfo → Result (Unit {0})
connect dial info = answer (dial info)
  where
    answer : Option Error → Result (Unit {0})
    answer none = ok tt
    answer (some failed) = err failed

abbrev pub discovery : AgentHost → Registry
discovery ah = ah.discovery

abbrev pub trust : AgentHost → TrustGraph
trust ah = ah.trust
