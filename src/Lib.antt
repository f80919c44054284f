-- ===== src/Lib.antt =====
-- Agent Semantic Protocol: a model of the Go packages core, p2p and picoclaw, and of the
-- two example programs, with theorems.
--
-- The program. Agents own an Ed25519 key and a DID derived from it (core/did.go, core/types.go). They
-- exchange five kinds of message, encoded as protobuf by hand (core/encoding.go) and framed with a
-- length and a type. A handshake proves to the initiator that the peer has the key its DID names
-- (core/handshake.go). An intent asks an agent for capabilities, and a handler answers it
-- (core/negotiation.go). A registry keeps announced profiles until they expire (core/discovery.go), a
-- trust graph keeps scores (core/did.go). A host answers streams of frames and sends its own
-- (p2p/host.go). An orchestrator sends each step of a workflow to the peer that it ranks first
-- (p2p/protocol.go). A client makes an HTTP service answer intents (examples/picoclaw/client.go). Two
-- programs run several agents in one process and print what happens (examples/simple-handshake/main.go
-- and examples/negotiation-demo/main.go).
--
-- The files, by the part they model:
--   Common           shared names; Common.Outcome has the results of fallible code (a value, an
--                    error, a panic, or a loop out of fuel), Common.Int64 the wrapping int64 and
--                    Common.Bags lists up to order
--   Wire             core/encoding.go, the methods of enc (Encoder) and the loops over fields
--                    (Fields); Protowire is the protobuf package, Float32 the bit patterns of a
--                    float32, Maps Go's maps with string keys
--   Messages         core/types.go (Types, Message) and one module for the Encode and Decode of each
--                    kind of message (a workflow message has no Decode in the code); RoundTrip below
--                    a module is about the two together, Total about all decoders
--   Frame            core/encoding.go, Frame, Unframe and Decode
--   Stream           p2p/host.go, writeMsg and readMsg
--   Did              core/did.go, DID; Packages has the crypto packages, Hex encoding/hex, Texts the
--                    texts that ParseDID accepts as a type
--   Agent            core/types.go, Agent
--   Handshake        core/handshake.go
--   Trust            core/did.go, TrustGraph; Race is about Apply by several goroutines
--   Capability       hasAll and CapabilitySetDiff of core/discovery.go, missingCapabilities of
--                    core/negotiation.go
--   Discovery        core/discovery.go, DiscoveryRegistry; Model is what its methods promise,
--                    Background the eviction loop and SummariseRegistry, Orders the order of a range
--   Negotiation      core/negotiation.go, the default handler, CreateIntent, the checks of signatures
--                    and NegotiationBus
--   Ranking          core/negotiation.go, CosineSimilarity and RankCandidates
--   Logging          core/logging.go, and LogIntentMessage of core/negotiation.go
--   Host             p2p/host.go, AgentHost: the handlers of streams, Handshake (request_handshake)
--                    and SendIntent; Announce has AnnounceCapabilities, Callbacks OnHandshake and
--                    OnIntent, Libp2p the methods that only call libp2p or return a field; Exchange
--                    and Negotiate are about two hosts with each other, Spoofed about a peer that
--                    borrows an identity
--   Orchestrator     p2p/protocol.go, WorkflowOrchestrator and DiscoverAndHandshake (Discover);
--                    Turns has what RunWorkflow promises, Run that it does so
--   Picoclaw         examples/picoclaw/client.go
--   Examples         examples/simple-handshake/main.go and examples/negotiation-demo/main.go, each as
--                    the lines that it prints (Output) while its hosts meet in one process (Streams);
--                    Completes below a program is about a run to its end
--   Tests            a concrete wire format, concrete keys, and the theorems at concrete inputs
--
-- Names are those of the code in snake_case: DecodeIntentMessage is Messages.Intent.decode,
-- RespondHandshake is Handshake.respond_handshake.
--
-- Conventions. A string and a []byte are both lists of byte values. A nil and an empty slice are one.
-- A map is the list of its entries in the order in which range yields them, an order that Go leaves
-- open, so that the theorems hold for each. An error is its text, in which formatted arguments stay
-- data. A method under a mutex is one step, and so is each handler of a stream.
--
-- Fuel. A decoder loops until its input is used up. The model gives the loop one round for each byte
-- of the input; a field takes at least the byte of its tag, so that the rounds suffice.
--
-- The eviction loop takes the list of signals that it receives, and RunWorkflow the list of its
-- goroutines in the order of their turns; both lists are finite, and the theorems hold for each. In
-- its turn a goroutine searches, asks and stores; whatever the host's streams do comes between turns.
--
-- Parameters. Code outside the repository is a record of functions with the laws that its documents
-- give: protowire (Wire.Protowire), crypto/ed25519, crypto/sha256 and fmt.Sscanf (Did.Packages), the
-- operations of a float64 (Ranking.Double), sort.Slice (Ranking.Sort, with Ranking.Order.IsSort),
-- net/http and encoding/json (Picoclaw.Http, Picoclaw.Json), peer.Decode, the text of an error, and
-- the rounded sum of two float32. Readings of the clock, formatted times, bytes of crypto/rand and the
-- number of bytes that a write to a file takes are arguments; a loop that reads the clock for each
-- entry takes a function from the round to the reading.
--
-- Not modelled. libp2p itself, and AgentHost.Close, which only calls it; how fmt lays out an argument;
-- the deadlines of contexts, which reach the code as errors of libp2p; the Go runtime's abort at
-- concurrent writes to one map; goroutines of RunWorkflow whose calls mix within a turn, such as two
-- calls of Apply (Trust.Race has what becomes of those).
pub mod Common
pub mod Wire
pub mod Messages
pub mod Examples
pub mod Frame
pub mod Stream
pub mod Host
pub mod Did
pub mod Agent
pub mod Handshake
pub mod Trust
pub mod Capability
pub mod Discovery
pub mod Negotiation
pub mod Ranking
pub mod Orchestrator
pub mod Picoclaw
pub mod Logging
pub mod Tests
