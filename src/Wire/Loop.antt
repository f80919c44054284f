-- ===== src/Wire/Loop.antt =====
-- The decoders' loop of core/encoding.go: the fuel is enough, and what one round does.
use agent_semantic_protocol.Common.{
  Option, none, Bool, false, if◌then◌else◌, ℕ, zero, suc, ◌≤◌, ◌<◌, ◌≡◌, refl, ◌∙◌, some, [], ◌∷◌,
  ◌++◌, Bytes, length, drop, arith, length-drop, length-append, drop-append, append_assoc, true,
  leb, inl, inr, Bool-cases,
}
use agent_semantic_protocol.Common.Outcome.{
  Error, Result, ok, ◌>>=◌, bind-congr, want-congr, Finishes, Finishes-ok, Finishes-want,
  Finishes-bind, Finishes-err, panic, stuck, err, want,
}
use agent_semantic_protocol.Wire.Protowire.{Protowire, IsProtowire, IsFieldNumber}
use agent_semantic_protocol.Wire.Fields.{Case, slice_from, decode_loop, decode_from}

pub slice-append : (xs ys : Bytes) → slice_from (length xs) (xs ++ ys) ≡ ok ys
unfolding slice_from
slice-append xs ys = rw (drop-append xs ys) (ground (arith, length-append xs ys))

slice-congr {ℓ} :
    {A : Type ℓ} (n : ℕ) (body : Bytes) (f g : Bytes → Result A)
    → (n ≤ length body → f (drop n body) ≡ g (drop n body))
    → (slice_from n body >>= f) ≡ (slice_from n body >>= g)
unfolding slice_from
slice-congr n body f g h = elim (Bool-cases (leb n (length body))) [
  | inl within ↦ rw within (h (ground arith))
  | inr past ↦ rw past refl
]

slice-Finishes {ℓ} :
    {A : Type ℓ} (n : ℕ) (body : Bytes) (f : Bytes → Result A)
    → n ≤ length body
    → Finishes (f (drop n body))
    → Finishes (slice_from n body >>= f)
unfolding slice_from
slice-Finishes n body f within h =
    let inside : leb n (length body) ≡ true = ground arith in rw inside h

-- What a case is to return for the bytes behind a tag: a number of bytes that are there, or an error.
pub record Takes {ℓ} {M : Type ℓ} (body : Bytes) (r : Result (M × ℕ)) : Type ℓ where
  pub finishes : Finishes r
  pub within : (m : M) (n2 : ℕ) → r ≡ ok (m, n2) → n2 ≤ length body

module _ {ℓ κ} {A : Type ℓ} {M : Type κ} where
  pub Takes-want :
      (e : Error) (o : Option A) (body : Bytes) (f : A → Result (M × ℕ))
      → ((a : A) → o ≡ some a → Takes body (f a))
      → Takes body (want e o >>= f)
  Takes-want e none body f h = record { finishes = Finishes-err e; within = λ m n2 e'. cc }
  Takes-want e (some a) body f h = h a refl

  pub Takes-bind :
      (r : Result A) (body : Bytes) (f : A → Result (M × ℕ))
      → Finishes r
      → ((a : A) → Takes body (f a))
      → Takes body (r >>= f)
  Takes-bind (ok a) body f hr h = h a
  Takes-bind (err e) body f hr h = record { finishes = Finishes-err e; within = λ m n2 e'. cc }
  Takes-bind panic body f hr h = absurd (hr.no_panic refl)
  Takes-bind stuck body f hr h = absurd (hr.no_stuck refl)

module _ {ℓ} {M : Type ℓ} where
  pub Takes-if :
      (b : Bool) (body : Bytes) (r s : Result (M × ℕ))
      → Takes body r
      → Takes body s
      → Takes body (if b then r else s)
  Takes-if true body r s hr hs = hr
  Takes-if false body r s hr hs = hs

  pub Takes-ok : (m : M) (n : ℕ) (body : Bytes) → n ≤ length body → Takes body (ok (m, n))
  Takes-ok m n body h = record {
    finishes = Finishes-ok (m, n);
    within = λ m' n2 e. let same : n ≡ n2 = cc in omega (arith, same, h);
  }

module _ {ℓ} {M : Type ℓ} (w : Protowire) (laws : IsProtowire w) (bad_tag : Error)
    (step : Case M) where
  -- A round leaves at least one byte less.
  round_shrinks :
      (b num typ n n2 : ℕ) (bs : Bytes)
      → w.consume_tag (b ∷ bs) ≡ some (num, typ, n)
      → length (drop n2 (drop n (b ∷ bs))) ≤ length bs
  round_shrinks b num typ n n2 bs e = omega (
    arith,
    length-drop n2 (drop n (b ∷ bs)),
    length-drop n (b ∷ bs),
    laws.tag_length (b ∷ bs) num typ n e,
  )

  -- Any two amounts of fuel that reach the length of the input give one result.
  decode_loop_fuel :
      (f g : ℕ) (bytes : Bytes) (m : M)
      → length bytes ≤ f
      → length bytes ≤ g
      → decode_loop w bad_tag step f bytes m ≡ decode_loop w bad_tag step g bytes m
  unfolding decode_loop
  decode_loop_fuel f g [] m hf hg = rw (closed f, closed g)
    where
      closed : (k : ℕ) → decode_loop w bad_tag step k [] m ≡ ok m
      closed zero = refl
      closed (suc k) = refl
  decode_loop_fuel zero g (b ∷ bs) m hf hg = absurd (omega arith)
  decode_loop_fuel (suc f) zero (b ∷ bs) m hf hg = absurd (omega arith)
  decode_loop_fuel (suc f) (suc g) (b ∷ bs) m hf hg =
      want-congr bad_tag (w.consume_tag (b ∷ bs)) _ _ λ (num, typ, n) e.
        slice-congr n (b ∷ bs) _ _ λ _.
          bind-congr (step num typ (drop n (b ∷ bs)) m) _ _ λ (m', n2).
            slice-congr n2 (drop n (b ∷ bs)) _ _ λ _.
              decode_loop_fuel f g (drop n2 (drop n (b ∷ bs))) m'
                (omega (arith, round_shrinks b num typ n n2 bs e))
                (omega (arith, round_shrinks b num typ n n2 bs e))

  -- One round, on input that begins with a tag.
  pub decode_round :
      (bytes : Bytes) (m : M) (num typ n : ℕ)
      → w.consume_tag bytes ≡ some (num, typ, n)
      → decode_from w bad_tag step bytes m ≡ (
          slice_from n bytes >>= λ body. step num typ body m >>= λ r.
          slice_from r.1 body >>= λ rest. decode_from w bad_tag step rest r.0)
  unfolding decode_loop
  decode_round [] m num typ n e = absurd (omega (arith, laws.tag_length [] num typ n e))
  decode_round (b ∷ bs) m num typ n e = rw e (
      slice-congr n (b ∷ bs) _ _ λ _. bind-congr (step num typ (drop n (b ∷ bs)) m) _ _ λ r.
        slice-congr r.1 (drop n (b ∷ bs)) _ _ λ _.
          decode_loop_fuel (length bs) _ (drop r.1 (drop n (b ∷ bs))) r.0
            (round_shrinks b num typ n r.1 bs e) (omega arith))

  -- A tag and the value that the case takes are one round.
  pub decode_chunk :
      (num typ : ℕ) (value rest : Bytes) (m m' : M)
      → IsFieldNumber num
      → typ < 8
      → step num typ (value ++ rest) m ≡ ok (m', length value)
      → decode_from w bad_tag step ((w.append_tag [] num typ ++ value) ++ rest) m
        ≡ decode_from w bad_tag step rest m'
  decode_chunk num typ value rest m m' hn ht e = rw append_assoc (
      decode_round _ m num typ _ (laws.tag_read num typ (value ++ rest) hn ht)
      ∙ rw (slice-append (w.append_tag [] num typ) (value ++ rest), e, slice-append value rest)
          refl)

  abbrev pub IsCase : Type ℓ
  IsCase = (num typ : ℕ) (body : Bytes) (m : M) → Takes body (step num typ body m)

  decode_loop-Finishes :
      IsCase
      → (f : ℕ) (bytes : Bytes) (m : M) → length bytes ≤ f
      → Finishes (decode_loop w bad_tag step f bytes m)
  unfolding decode_loop
  decode_loop-Finishes h zero [] m hf = Finishes-ok m
  decode_loop-Finishes h (suc f) [] m hf = Finishes-ok m
  decode_loop-Finishes h zero (b ∷ bs) m hf = absurd (omega arith)
  decode_loop-Finishes h (suc f) (b ∷ bs) m hf =
      Finishes-want bad_tag (w.consume_tag (b ∷ bs)) _ λ (num, typ, n) e.
        let body = drop n (b ∷ bs) in
        slice-Finishes n (b ∷ bs) _ (laws.tag_length (b ∷ bs) num typ n e).1 (
          let taken = h num typ body m in
          Finishes-bind (step num typ body m) _ taken.finishes λ (m', n2) stepped.
            slice-Finishes n2 body _ (taken.within m' n2 stepped) (
              decode_loop-Finishes h f (drop n2 body) m'
                (omega (arith, round_shrinks b num typ n n2 bs e))))

  -- The loop returns on every input, if every case does.
  pub decode_from-Finishes :
      IsCase → (bytes : Bytes) (m : M) → Finishes (decode_from w bad_tag step bytes m)
  decode_from-Finishes h bytes m = decode_loop-Finishes h (length bytes) bytes m (omega arith)
