-- ===== src/Examples/Output.antt =====
-- examples: what a program prints, up to its end.
use agent_semantic_protocol.Common.{ℕ, Bool, List, [], ◌∷◌, ◌++◌, Bytes}
use Prim.Native.String.{String}
use agent_semantic_protocol.Common.Int64.{ℤ}
use agent_semantic_protocol.Common.Outcome.{Result, ok, err, panic, stuck, wrapping}
use agent_semantic_protocol.Wire.Float32.{Float32}

-- An argument of `fmt.Printf`.
pub data Value : Type 0 where
  text : Bytes → Value
  literal : String → Value
  texts : List Bytes → Value
  number : ℕ → Value
  truth : Bool → Value
  float : Float32 → Value
  floats : List Float32 → Value
  -- the short form of a peer id, and a time in hours, minutes and seconds
  short : Bytes → Value
  time : ℤ → Value

-- What `fmt.Println` and `fmt.Printf` print: the format with its arguments.
pub record Line : Type 0 where
  pub format : String
  pub values : List Value

-- A program so far: what it has printed, and its outcome. `log.Fatalf` ends it with an error.
pub record Run {ℓ} (A : Type ℓ) : Type ℓ where
  pub printed : List Line
  pub outcome : Result A

abbrev pub printing {ℓ} : {A : Type ℓ} → List Line → Run A → Run A
printing lines run = record { printed = lines ++ run.printed; outcome = run.outcome }

abbrev pub continuing {ℓ κ} : {A : Type ℓ} {B : Type κ} → List Line → Result A → (A → Run B) → Run B
continuing lines (ok a) k = printing lines (k a)
continuing lines (err e) k = record { printed = lines; outcome = err e }
continuing lines panic k = record { printed = lines; outcome = panic }
continuing lines stuck k = record { printed = lines; outcome = stuck }

infixl 5 ◌>>=◌ ◌>>◌
abbrev pub ◌>>=◌ {ℓ κ} : {A : Type ℓ} {B : Type κ} → Run A → (A → Run B) → Run B
m >>= k = continuing m.printed m.outcome k

abbrev pub ◌>>◌ {ℓ} : {B : Type ℓ} → Run (Unit {0}) → Run B → Run B
m >> k = m >>= λ _. k

-- The end of `main`, and a value.
abbrev pub give {ℓ} : {A : Type ℓ} → A → Run A
give a = record { printed = []; outcome = ok a }

abbrev pub line : String → List Value → Line
line format values = record { format = format; values = values }

abbrev pub print_lines : List Line → Run (Unit {0})
print_lines lines = record { printed = lines; outcome = ok tt }

abbrev pub print_line : String → List Value → Run (Unit {0})
print_line format values = print_lines (line format values ∷ [])

-- A call whose panic ends the program.
abbrev pub calling {ℓ} : {A : Type ℓ} → Result A → Run A
calling r = record { printed = []; outcome = r }

-- `if err != nil { log.Fatalf("…: %v", err) }`
abbrev pub or_fatal {ℓ} : {A : Type ℓ} → String → Result A → Run A
or_fatal format r = calling (wrapping format r)
