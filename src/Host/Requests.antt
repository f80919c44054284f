-- ===== src/Host/Requests.antt =====
-- p2p/host.go: what a host knows after `Handshake`.
use agent_semantic_protocol.Common.{
  ℕ, ◌+◌, ◌≤◌, ◌≡◌, refl, ap, Bool, true, false, Option, none, some, [], Bytes, length, is_empty,
  if◌then◌else◌, ◌==◌, arith, bytes_eq_refl,
}
use mathlib.Core.Path.{subst}
use agent_semantic_protocol.Common.Int64.{ℤ}
use agent_semantic_protocol.Common.Outcome.{ok, err, want, wrapping, bind-eq_ok}
use agent_semantic_protocol.Wire.Maps.{get, get-put}
use agent_semantic_protocol.Wire.Protowire.{Protowire, IsProtowire}
use agent_semantic_protocol.Messages.Types.{HandshakeMessage, msg_handshake}
use agent_semantic_protocol.Messages.Handshake
use agent_semantic_protocol.Messages.Handshake.RoundTrip.{IsGoHandshake, decode-encode_handshake}
use agent_semantic_protocol.Messages.Message.{handshake, msg_type, encode}
use agent_semantic_protocol.Did.Packages.{Crypto, public_key_size}
use agent_semantic_protocol.Agent.{Agent}
use agent_semantic_protocol.Handshake.{start_handshake, finish_handshake}
use agent_semantic_protocol.Handshake.Accept.{NamesKey, finish_handshake_iff}
use agent_semantic_protocol.Stream.{read_msg, write_msg, max_length}
use agent_semantic_protocol.Stream.RoundTrip.{read_msg-write_msg}
use agent_semantic_protocol.Host.{
  AgentHost, Readings, Peer, profile_of, remember, request_handshake,
}

-- A message that was written is read back.
pub read_written :
    (w : Protowire) (m : HandshakeMessage)
    → 1 + length (Handshake.encode w m) ≤ max_length
    → read_msg (write_msg w (handshake m) []) ≡ ok (msg_handshake, Handshake.encode w m, [])
unfolding msg_type encode
read_written w m h = read_msg-write_msg w (handshake m) h

pub get-remember :
    (now : ℕ) (peer_id : Bytes) (m : HandshakeMessage) (ah : AgentHost)
    → get peer_id (remember now peer_id m ah).known ≡ some (profile_of m)
unfolding remember
get-remember now peer_id m ah = rw (get-put, bytes_eq_refl)

start_handshake-challenge :
    (a : Agent) (nonce : Option Bytes) (now : ℤ) (ours : HandshakeMessage)
    → start_handshake a nonce now ≡ ok ours
    → nonce ≡ some ours.challenge
unfolding start_handshake
start_handshake-challenge a none now ours e = absurd (cc)
start_handshake-challenge a (some b) now ours e = ground arith

pub ok_injective {ℓ} : {A : Type ℓ} (a b : A) → ok a ≡ ok b → a ≡ b
ok_injective a b e = cc

module _ (w : Protowire) (c : Crypto) where
  finished-if :
      (b : Bool) (challenge : Bytes) (resp : HandshakeMessage) (u : Unit {0})
      → b ≡ false
      → (if b then ok tt else finish_handshake c challenge resp) ≡ ok u
      → finish_handshake c challenge resp ≡ ok tt
  finished-if b challenge resp u h e = rw h at e

  -- After a handshake in which the peer answered the challenge, the profile that is cached for it
  -- names its key: the identifier was derived from the public key, and the challenge was signed by
  -- that key.
  pub request_handshake_verified :
      (env : Readings) (peer_id : Bytes) (peer : Peer) (ah ah' : AgentHost)
      (resp : HandshakeMessage)
      → request_handshake w c env peer_id peer ah ≡ ok (ah', resp)
      → is_empty resp.challenge_response ≡ false
      → (get peer_id ah'.known ≡ some (profile_of resp))
        × (NamesKey c resp.did resp.public_key
            × (length resp.public_key ≡ public_key_size)
            × ((nonce : Bytes) × ((env.nonce ≡ some nonce)
                  × (c.ed25519_verify resp.public_key nonce resp.challenge_response ≡ true))))
  unfolding request_handshake
  request_handshake_verified env peer_id peer ah ah' resp e h =
      let (stream, _, e1) = bind-eq_ok (want _ peer) _ (ah', resp) e in
      let (ours, started, e2) =
        bind-eq_ok (start_handshake ah.agent env.nonce env.stamp) _ (ah', resp) e1 in
      let (reply, _, e3) =
        bind-eq_ok (want _ (stream (write_msg w (handshake ours) []))) _ (ah', resp) e2 in
      let (got, _, e4) = bind-eq_ok (wrapping _ (read_msg reply)) _ (ah', resp) e3 in
      let (_, _, e5) =
        bind-eq_ok (if got.0 == msg_handshake then ok tt else err _) _ (ah', resp) e4 in
      let (r, _, e6) = bind-eq_ok (wrapping _ (Handshake.decode w got.1)) _ (ah', resp) e5 in
      let (u, checked, e7) =
        bind-eq_ok
          (if is_empty r.challenge_response then ok tt else finish_handshake c ours.challenge r) _
          (ah', resp) e6 in
      let result = ok_injective (remember env.time peer_id r ah, r) (ah', resp) e7 in
      let same : r ≡ resp = ap (λ (x : AgentHost × HandshakeMessage). x.1) result in
      let finished : finish_handshake c ours.challenge resp ≡ ok tt =
        finished-if (is_empty resp.challenge_response) ours.challenge resp u h (
          subst
            (λ x.
              (if is_empty x.challenge_response then ok tt else finish_handshake c ours.challenge x)
              ≡ ok u)
            same checked) in
      let (names, size, signed) = (finish_handshake_iff c ours.challenge resp).0 finished in
      (
        subst (λ x. get peer_id x.known ≡ some (profile_of resp))
            (ap (λ (x : AgentHost × HandshakeMessage). x.0) result)
            (subst (λ x. get peer_id (remember env.time peer_id r ah).known ≡ some (profile_of x))
              same (get-remember env.time peer_id r ah)),
        (
          names,
          size,
          (
            ours.challenge,
            (start_handshake-challenge ah.agent env.nonce env.stamp ours started, signed),
          ),
        ),
      )

  -- The peer that answers with no challenge response is cached unverified, whatever identifier,
  -- capabilities and public key its message has, if the message fits a frame and its fields are
  -- values of their Go types.
  pub request_handshake_unverified :
      (laws : IsProtowire w) (env : Readings) (nonce peer_id : Bytes) (ah : AgentHost)
      (resp : HandshakeMessage)
      → env.nonce ≡ some nonce
      → IsGoHandshake resp
      → 1 + length (Handshake.encode w resp) ≤ max_length
      → resp.challenge_response ≡ []
      → request_handshake w c env peer_id (some (λ sent. some (write_msg w (handshake resp) []))) ah
        ≡ ok (remember env.time peer_id resp ah, resp)
  unfolding request_handshake start_handshake
  request_handshake_unverified laws env nonce peer_id ah resp hn fits small empty =
      rw (hn, read_written w resp small, decode-encode_handshake w laws resp fits, empty) refl
