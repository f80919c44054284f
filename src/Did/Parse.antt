-- ===== src/Did/Parse.antt =====
-- core/did.go: `ParseDID` against `String`.
use agent_semantic_protocol.Common.{
  ℕ, ◌<◌, ◌≡◌, ◌≢◌, refl, sym, ◌∙◌, ap, Option, none, some, [], ◌∷◌, ◌++◌, Bytes, codes, length,
  drop, All, ◌==◌, ◌||◌, leb, is_empty, if◌then◌else◌, arith, Option-cases, Bool-cases, inl, inr,
  false,
}
use agent_semantic_protocol.Common.Outcome.{with_string, ok, err}
use agent_semantic_protocol.Did.Packages.{Crypto, IsCrypto, IsVisible}
use agent_semantic_protocol.Did.{Did, split_colon, prepend, parts, parse_did, to_string}

abbrev pub HasNoColon : Bytes → Type 0
HasNoColon m = All (λ b. b ≢ b':') m

pub split_colon-append : (m i : Bytes) → HasNoColon m → split_colon (m ++ (b':' ∷ i)) ≡ some (m, i)
unfolding split_colon
split_colon-append [] i h = refl
split_colon-append (b ∷ m) i (hb, h) = ground (arith, split_colon-append m i h)

prepend_inv :
    (c : ℕ) (o : Option (Bytes × Bytes)) (m i : Bytes)
    → prepend c o ≡ some (m, i)
    → (m' : Bytes) × (o ≡ some (m', i)) × (m ≡ c ∷ m')
prepend_inv c none m i e = cc
prepend_inv c (some (m', i')) m i e = (m', cc, cc)

pub split_colon_inv :
    (s m i : Bytes) → split_colon s ≡ some (m, i) → (s ≡ m ++ (b':' ∷ i)) × HasNoColon m
unfolding split_colon
split_colon_inv [] m i e = cc
split_colon_inv (b ∷ s) m i e = elim (Bool-cases (b == b':')) [
  | inl colon ↦
      let em : m ≡ [] = ground arith in
      let ei : i ≡ s = ground arith in
      let eb : b ≡ b':' = ground arith in rw (em, ei, eb) (refl, tt)
  | inr other ↦
      let (m', later, em) = prepend_inv b (split_colon s) m i (rw other at e) in
      let (es, h) = split_colon_inv s m' i later in rw em (rw (← es), (ground arith, h))
]

-- Each way for `ParseDID` to go on, once `Sscanf` has succeeded.
parse_did_branch :
    (c : Crypto) (s scanned : Bytes)
    → c.sscanf_did s ≡ some scanned
    → 4 < length s
    → (let p = parts scanned (split_colon (drop 4 s)) [] in
        parse_did c s ≡ (
          if is_empty p.0 || is_empty p.1
          then err (with_string "did: invalid format %q" s)
          else ok (record { method = p.0; id = p.1; pub_key = none; priv_key = none })))
unfolding parse_did
parse_did_branch c s scanned es h = rw (es, long (length s) h)
  where
    long : (n : ℕ) → 4 < n → leb n 4 ≡ false
    long n h = ground arith

is_empty-ne : (b : Bytes) → b ≢ [] → is_empty b ≡ false
is_empty-ne [] h = absurd (h refl)
is_empty-ne (x ∷ xs) h = refl

-- The text of an identifier parses to its method and its id, with no keys, if the method has no
-- colon and begins with a visible character, and the id is not empty.
pub parse_did-to_string :
    (c : Crypto) (laws : IsCrypto c) (d : Did) (x : ℕ) (xs : Bytes)
    → d.method ≡ x ∷ xs
    → IsVisible x
    → HasNoColon d.method
    → d.id ≢ []
    → parse_did c (to_string d) ≡ ok (record d { pub_key = none; priv_key = none })
unfolding to_string
parse_did-to_string c laws d x xs em hx hc hi =
    let (scanned, es) = laws.sscanf_visible x (xs ++ (b':' ∷ d.id)) hx in
    let text : codes "did:" ++ (d.method ++ (b':' ∷ d.id))
        ≡ codes "did:" ++ (x ∷ (xs ++ (b':' ∷ d.id))) =
      rw em in
    let es' : c.sscanf_did (to_string d) ≡ some scanned = ap c.sscanf_did text ∙ es in
    let nonempty : d.method ≢ [] = λ p. cc (em, p) in
    parse_did_branch c (to_string d) scanned es' (rw em (omega arith))
    ∙ rw (split_colon-append d.method d.id hc, is_empty-ne d.method nonempty, is_empty-ne d.id hi)

-- What is known of an identifier that was built from a method and an id.
abbrev IsBuilt : Did → Bytes → Bytes → Type 0
IsBuilt d m i =
    (d.method ≡ m) × (d.id ≡ i) × (m ≢ []) × (i ≢ []) × (d.pub_key ≡ none) × (d.priv_key ≡ none)

built :
    (s m i : Bytes) (d : Did)
    → (if is_empty m || is_empty i
        then err (with_string "did: invalid format %q" s)
        else ok (record { method = m; id = i; pub_key = none; priv_key = none }))
      ≡ ok d
    → IsBuilt d m i
built s [] i d e = absurd (cc)
built s (x ∷ xs) [] d e = absurd (cc)
built s (x ∷ xs) (y ∷ ys) d e = (cc, cc, λ p. cc, λ p. cc, cc, cc)

scanned_first :
    (c : Crypto) (s : Bytes) (d : Did)
    → parse_did c s ≡ ok d
    → (scanned : Bytes) × (c.sscanf_did s ≡ some scanned) × (4 < length s)
unfolding parse_did
scanned_first c s d e = elim (Option-cases (c.sscanf_did s)) [
  | inl failed ↦ absurd (ground arith)
  | inr (scanned, es) ↦ (scanned, es, ground arith)
]

split_parts :
    (s scanned rest : Bytes) (o : Option (Bytes × Bytes)) (d : Did)
    → split_colon rest ≡ o
    → (let p = parts scanned o [] in
        (if is_empty p.0 || is_empty p.1
          then err (with_string "did: invalid format %q" s)
          else ok (record { method = p.0; id = p.1; pub_key = none; priv_key = none }))
        ≡ ok d)
    → (rest ≡ d.method ++ (b':' ∷ d.id))
      × HasNoColon d.method
      × (d.method ≢ [])
      × (d.id ≢ [])
      × (d.pub_key ≡ none)
      × (d.priv_key ≡ none)
split_parts s scanned rest none d eo e = absurd ((built s scanned [] d e).3 refl)
split_parts s scanned rest (some (m, i)) d eo e =
    let b = built s m i d e in
    let (es, hm) = split_colon_inv rest m i eo in rw (b.0, b.1) (es, hm, b.2, b.3, b.4, b.5)

-- A text that parses is the text of the result, whose method has no colon, whose method and id are
-- not empty, and which has no keys.
pub to_string-parse_did :
    (c : Crypto) (laws : IsCrypto c) (s : Bytes) (d : Did)
    → parse_did c s ≡ ok d
    → (s ≡ to_string d)
      × HasNoColon d.method
      × (d.method ≢ [])
      × (d.id ≢ [])
      × (d.pub_key ≡ none)
      × (d.priv_key ≡ none)
unfolding parse_did to_string
to_string-parse_did c laws s d e =
    let (scanned, es, long) = scanned_first c s d e in
    let (rest, prefix) = laws.sscanf_prefix s scanned es in
    let rest_eq : drop 4 s ≡ rest = ap (λ t. drop 4 t) prefix in
    let (text, colon, nm, ni, kp, kq) =
      split_parts s scanned rest (split_colon rest) d refl
        (rw rest_eq at (sym (parse_did_branch c s scanned es long) ∙ e)) in
    (prefix ∙ ap (λ r. codes "did:" ++ r) text, colon, nm, ni, kp, kq)
