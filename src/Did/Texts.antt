-- ===== src/Did/Texts.antt =====
-- core/did.go: the texts that `ParseDID` accepts, and the names that they stand for.
use agent_semantic_protocol.Common.{
  ℕ, ◌≡◌, ◌≢◌, refl, sym, ◌∙◌, ap, Bool, true, false, ◌&&◌, not, none, [], ◌∷◌, Bytes, leb, ltb,
  ◌==◌, is_empty, arith,
}
use mathlib.Core.Bool.{Bool-set}
use mathlib.Core.HLevel.{Σ_prop_path}
use mathlib.Core.Equiv.{IsEquiv, iso_to_equiv}
use agent_semantic_protocol.Common.Outcome.{Result, ok, err, panic, stuck}
use agent_semantic_protocol.Did.Packages.{Crypto, IsCrypto, IsVisible}
use agent_semantic_protocol.Did.{Did, parse_did, to_string}
use agent_semantic_protocol.Did.Parse.{HasNoColon, parse_did-to_string, to_string-parse_did}

abbrev pub begins_visible : Bytes → Bool
begins_visible [] = false
begins_visible (x ∷ xs) = leb 0x21 x && ltb x 0x7f

abbrev has_no_colon : Bytes → Bool
has_no_colon [] = true
has_no_colon (x ∷ xs) = not (x == b':') && has_no_colon xs

-- A method and an id that a text can have.
abbrev pub is_name : Bytes × Bytes → Bool
is_name (method, id) = begins_visible method && (has_no_colon method && not (is_empty id))

abbrev reads_name : Result Did → Bool
reads_name (ok d) = begins_visible d.method
reads_name _ = false

-- `ParseDID` accepts the text, with a method that begins with a visible character.
abbrev pub accepts : Crypto → Bytes → Bool
accepts c s = reads_name (parse_did c s)

abbrev pub Accepted : Crypto → Type 0
Accepted c = (s : Bytes) × (accepts c s ≡ true)

abbrev pub Name : Type 0
Name = (n : Bytes × Bytes) × (is_name n ≡ true)

abbrev named : Bytes × Bytes → Did
named (method, id) = record { method = method; id = id; pub_key = none; priv_key = none }

no_colon_iff : (m : Bytes) → HasNoColon m → has_no_colon m ≡ true
no_colon_iff [] h = refl
no_colon_iff (x ∷ xs) (hx, h) = ground (arith, no_colon_iff xs)

no_colon→HasNoColon : (m : Bytes) → has_no_colon m ≡ true → HasNoColon m
no_colon→HasNoColon [] h = tt
no_colon→HasNoColon (x ∷ xs) h = (ground arith, no_colon→HasNoColon xs (ground arith))

ok_injective : (d e : Did) → ok d ≡ ok e → d ≡ e
ok_injective d e h = cc

reads_name_inv :
    (r : Result Did)
    → reads_name r ≡ true
    → (d : Did) × ((r ≡ ok d) × (begins_visible d.method ≡ true))
reads_name_inv (ok d) h = (d, (refl, h))
reads_name_inv (err e) h = absurd (cc)
reads_name_inv panic h = absurd (cc)
reads_name_inv stuck h = absurd (cc)

is_name_parts :
    (m i : Bytes) → begins_visible m ≡ true → HasNoColon m → i ≢ [] → is_name (m, i) ≡ true
is_name_parts m i hv hc hi = rw (hv, no_colon_iff m hc) (one i hi)
  where
    one : (i : Bytes) → i ≢ [] → not (is_empty i) ≡ true
    one [] h = absurd (h refl)
    one (x ∷ xs) h = refl

not_empty : (i : Bytes) → not (is_empty i) ≡ true → i ≢ []
not_empty [] h = absurd (cc)
not_empty (x ∷ xs) h = λ e. cc

begins_visible-IsVisible :
    (m : Bytes) → begins_visible m ≡ true → (x : ℕ) × ((xs : Bytes) × ((m ≡ x ∷ xs) × IsVisible x))
begins_visible-IsVisible [] h = absurd (cc)
begins_visible-IsVisible (x ∷ xs) h = (x, (xs, (refl, (ground arith, ground arith))))

module _ (c : Crypto) (laws : IsCrypto c) where
  name_parses :
      (n : Bytes × Bytes) → is_name n ≡ true → parse_did c (to_string (named n)) ≡ ok (named n)
  name_parses (m, i) h =
      let (x, (xs, (em, hx))) = begins_visible-IsVisible m (ground arith) in
      parse_did-to_string c laws (named (m, i)) x xs em hx (no_colon→HasNoColon m (ground arith))
        (not_empty i (ground arith))

  read_back :
      (s : Bytes)
      → accepts c s ≡ true
      → (d : Did) × ((parse_did c s ≡ ok d) × (s ≡ to_string d) × (is_name (d.method, d.id) ≡ true))
  read_back s h =
      let (d, (parsed, visible)) = reads_name_inv (parse_did c s) h in
      let (text, colon, _, id, _, _) = to_string-parse_did c laws s d parsed in
      (d, (parsed, text, is_name_parts d.method d.id visible colon id))

  -- The method and the id of an accepted text, and the text of a method and an id.
  pub name_of : Accepted c → Name
  name_of (s, h) = let (d, (_, _, name)) = read_back s h in ((d.method, d.id), name)

  text_of : Name → Accepted c
  text_of (n, h) = (to_string (named n), rw (name_parses n h) (begins n h))
    where
      begins : (n : Bytes × Bytes) → is_name n ≡ true → begins_visible (named n).method ≡ true
      begins (m, i) h = ground arith

  name_of-text_of : (n : Name) → name_of (text_of n) ≡ n
  unfolding name_of text_of
  name_of-text_of (n, h) =
      let (d, (parsed, _, _)) = read_back (to_string (named n)) ((text_of (n, h)).1) in
      let same : d ≡ named n = ok_injective d (named n) (sym parsed ∙ name_parses n h) in
      Σ_prop_path (λ x. Bool-set (is_name x) true) (ap (λ (x : Did). (x.method, x.id)) same)

  text_of-name_of : (t : Accepted c) → text_of (name_of t) ≡ t
  unfolding name_of text_of to_string
  text_of-name_of (s, h) =
      let (d, (_, text, _)) = read_back s h in
      Σ_prop_path (λ x. Bool-set (accepts c x) true) (sym text)

  -- The texts that `ParseDID` accepts with a method that begins with a visible character are, as a
  -- type, the pairs of such a method, with no colon, and an id that is not empty: to take the two
  -- parts of a text is an equivalence, so that each pair has exactly one text.
  pub name_of-IsEquiv : IsEquiv name_of
  name_of-IsEquiv =
      (iso_to_equiv
        (record { fun = name_of; inv = text_of; rinv = name_of-text_of; linv = text_of-name_of })).1
