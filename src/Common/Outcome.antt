-- ===== src/Common/Outcome.antt =====
-- What a Go function returns: a value, an error, or a run-time panic.
use Prim.Native.Nat.{ℕ}
use Prim.Native.String.{String}
use mathlib.Core.Path.{◌≡◌, refl}
use mathlib.Core.Logic.{◌≢◌}
use mathlib.Core.Option.{Option, none, some}
use mathlib.Core.List.{List}
use mathlib.Core.Bool.{Bool, true, false}
use agent_semantic_protocol.Common.Tests.{if◌then◌else◌}

-- An error of `fmt.Errorf`: its text, or its text with the values that it prints.
pub data Error : Type 0 where
  message : String → Error
  with_number : String → ℕ → Error
  with_numbers : String → ℕ → ℕ → Error
  with_string : String → List ℕ → Error
  with_number_string : String → ℕ → List ℕ → Error
  wrap : String → Error → Error
  wrap_string : String → List ℕ → Error → Error

-- `stuck` is no Go value: a loop ran out of its fuel.
pub data Result {ℓ} (A : Type ℓ) : Type ℓ where
  ok : A → Result A
  err : Error → Result A
  panic : Result A
  stuck : Result A

infixl 5 ◌>>=◌ ◌>>◌
abbrev pub ◌>>=◌ {ℓ κ} : {A : Type ℓ} {B : Type κ} → Result A → (A → Result B) → Result B
ok a >>= f = f a
err e >>= f = err e
panic >>= f = panic
stuck >>= f = stuck

abbrev pub ◌>>◌ {ℓ} : {B : Type ℓ} → Result (Unit {0}) → Result B → Result B
m >> k = m >>= λ _. k

-- A library call that reports failure by a negative length or a non-nil error.
abbrev pub want {ℓ} : {A : Type ℓ} → Error → Option A → Result A
want e none = err e
want e (some a) = ok a

-- `fmt.Errorf("…: %w", err)` round a call.
abbrev pub wrapping {ℓ} : {A : Type ℓ} → String → Result A → Result A
wrapping s (ok a) = ok a
wrapping s (err e) = err (wrap s e)
wrapping s panic = panic
wrapping s stuck = stuck

pub bind-congr {ℓ κ} :
    {A : Type ℓ} {B : Type κ} (r : Result A) (f g : A → Result B)
    → ((a : A) → f a ≡ g a)
    → (r >>= f) ≡ (r >>= g)
bind-congr (ok a) f g h = h a
bind-congr (err e) f g h = refl
bind-congr panic f g h = refl
bind-congr stuck f g h = refl

pub want-congr {ℓ κ} :
    {A : Type ℓ} {B : Type κ} (e : Error) (o : Option A) (f g : A → Result B)
    → ((a : A) → o ≡ some a → f a ≡ g a)
    → (want e o >>= f) ≡ (want e o >>= g)
want-congr e none f g h = refl
want-congr e (some a) f g h = h a refl

-- A call that returns a value or an error: no panic, and no loop without end.
pub record Finishes {ℓ} {A : Type ℓ} (r : Result A) : Type ℓ where
  pub no_panic : r ≢ panic
  pub no_stuck : r ≢ stuck

module _ {ℓ} {A : Type ℓ} where
  pub Finishes-ok : (a : A) → Finishes (ok a)
  Finishes-ok a = record { no_panic = λ p. cc; no_stuck = λ p. cc }

  pub Finishes-err : (e : Error) → Finishes {A = A} (err e)
  Finishes-err e = record { no_panic = λ p. cc; no_stuck = λ p. cc }

  pub Finishes-if :
      (b : Bool) (r s : Result A) → Finishes r → Finishes s → Finishes (if b then r else s)
  Finishes-if true r s hr hs = hr
  Finishes-if false r s hr hs = hs

module _ {ℓ κ} {A : Type ℓ} {B : Type κ} where
  pub Finishes-bind :
      (r : Result A) (f : A → Result B)
      → Finishes r
      → ((a : A) → r ≡ ok a → Finishes (f a))
      → Finishes (r >>= f)
  Finishes-bind (ok a) f hr hf = hf a refl
  Finishes-bind (err e) f hr hf = Finishes-err e
  Finishes-bind panic f hr hf = absurd (hr.no_panic refl)
  Finishes-bind stuck f hr hf = absurd (hr.no_stuck refl)

  pub Finishes-want :
      (e : Error) (o : Option A) (f : A → Result B)
      → ((a : A) → o ≡ some a → Finishes (f a))
      → Finishes (want e o >>= f)
  Finishes-want e none f hf = Finishes-err e
  Finishes-want e (some a) f hf = hf a refl

-- What a successful bind went through.
pub bind-eq_ok {ℓ κ} :
    {A : Type ℓ} {B : Type κ} (r : Result A) (f : A → Result B) (b : B)
    → (r >>= f) ≡ ok b
    → (a : A) × (r ≡ ok a) × (f a ≡ ok b)
bind-eq_ok (ok a) f b h = (a, refl, h)
bind-eq_ok (err e) f b h = cc
bind-eq_ok panic f b h = cc
bind-eq_ok stuck f b h = cc

pub wrapping-eq_ok {ℓ} :
    {A : Type ℓ} (s : String) (r : Result A) (a : A) → wrapping s r ≡ ok a → r ≡ ok a
wrapping-eq_ok s (ok b) a h = h
wrapping-eq_ok s (err e) a h = cc
wrapping-eq_ok s panic a h = cc
wrapping-eq_ok s stuck a h = cc

pub want-eq_ok {ℓ} : {A : Type ℓ} (e : Error) (o : Option A) (a : A) → want e o ≡ ok a → o ≡ some a
want-eq_ok e none a h = cc
want-eq_ok e (some b) a h = cc
