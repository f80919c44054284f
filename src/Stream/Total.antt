-- ===== src/Stream/Total.antt =====
-- p2p/host.go: `readMsg` on any stream.
use agent_semantic_protocol.Common.{
  ℕ, ◌≤◌, ◌≡◌, some, [], ◌∷◌, Bytes, length, ltb, ◌||◌, arith, length-take, Bool-cases, inl, inr,
}
use agent_semantic_protocol.Common.Outcome.{
  message, Finishes, Finishes-ok, Finishes-err, Finishes-want, Finishes-bind,
}
use agent_semantic_protocol.Stream.{read_full, max_length, read_msg, split_body}
use agent_semantic_protocol.Frame.{uint32_be}

split_body-Finishes : (body : Bytes) → 1 ≤ length body → Finishes (split_body body)
split_body-Finishes [] h = absurd (omega arith)
split_body-Finishes (t ∷ rest) h = Finishes-ok (t, rest)

read_full-length :
    (n : ℕ) (stream body rest : Bytes) → read_full n stream ≡ some (body, rest) → length body ≡ n
read_full-length n stream body rest e = ground (arith, length-take n stream)

-- `readMsg` returns a message or an error on every stream: the first byte of the body is there.
pub read_msg-Finishes : (stream : Bytes) → Finishes (read_msg stream)
unfolding read_msg
read_msg-Finishes stream =
    Finishes-want (message "readMsg header") (read_full 4 stream) _ λ (hdr, stream') _.
      elim (Bool-cases (ltb (uint32_be hdr) 1 || ltb max_length (uint32_be hdr))) [
        | inl bad ↦ rw bad (Finishes-err _)
        | inr good ↦ rw good (
            Finishes-want (message "readMsg body") (read_full (uint32_be hdr) stream') _
              λ (body, stream'') e.
                Finishes-bind (split_body body) _
                  (split_body-Finishes body
                    (ground (arith, read_full-length _ stream' body stream'' e)))
                  (λ (t, payload) _. Finishes-ok _))
      ]
