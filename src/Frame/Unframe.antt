-- ===== src/Frame/Unframe.antt =====
-- core/encoding.go: `Unframe`, branch by branch.
use agent_semantic_protocol.Common.{
  ℕ, ◌+◌, ◌-◌, ◌*◌, ◌≤◌, ◌≡◌, ◌∷◌, Bytes, length, take, length-take, arith, ltb, ◌==◌,
  if◌then◌else◌,
}
use agent_semantic_protocol.Common.Outcome.{with_numbers, ok, err, panic}
use agent_semantic_protocol.Frame.{unframe}

-- With five bytes or more: too little behind the header, a zero prefix, or a frame.
pub unframe_five :
    (a b c d t : ℕ) (tail : Bytes)
    → unframe (a ∷ b ∷ c ∷ d ∷ t ∷ tail) ≡ (
        let n = a * 0x1000000 + b * 0x10000 + c * 0x100 + d in
        if ltb (length (a ∷ b ∷ c ∷ d ∷ t ∷ tail)) (4 + n)
        then err (
            with_numbers "frame incomplete: need %d bytes, have %d"
              (4 + n)
              (length (a ∷ b ∷ c ∷ d ∷ t ∷ tail)))
        else if n == 0
        then panic
        else ok (t, take (n - 1) tail))
unfolding unframe
unframe_five a b c d t tail = ground arith

-- What a successful `Unframe` has read.
pub unframe_ok :
    (a b c d x t : ℕ) (tail payload : Bytes)
    → unframe (a ∷ b ∷ c ∷ d ∷ x ∷ tail) ≡ ok (t, payload)
    → (x ≡ t)
      × (a * 0x1000000 + b * 0x10000 + c * 0x100 + d ≡ 1 + length payload)
      × (payload ≡ take (length payload) tail)
unframe_ok a b c d x t tail payload e =
    let n = a * 0x1000000 + b * 0x10000 + c * 0x100 + d in
    let read : (x ≡ t) × (1 ≤ n) × (n ≤ 1 + length tail) × (payload ≡ take (n - 1) tail) =
      ground (arith, unframe_five a b c d x tail) in
    let size : length payload ≡ n - 1 = rw read.3 (length-take (n - 1) tail (omega arith)) in
    (read.0, omega arith, rw size read.3)
