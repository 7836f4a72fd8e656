-- ===== src/Base/Run.antt =====
-- C code over a state: it returns, it faults (undefined behaviour, or an assertion that fails), or
-- the fuel of one of its loops runs out.
use mathlib.Core.Path.{◌≡◌, refl, ap}

pub data Run (S A : Type 0) : Type 0 where
  ok : A → S → Run S A
  fault : Run S A
  out_of_fuel : Run S A

abbrev pub Cmd : Type 0 → Type 0 → Type 0
Cmd S A = S → Run S A

abbrev pub pure : {S A : Type 0} → A → Cmd S A
pure a s = ok a s

abbrev pub stuck : {S A : Type 0} → Cmd S A
stuck s = out_of_fuel

abbrev pub crash : {S A : Type 0} → Cmd S A
crash s = fault

module _ {S A B : Type 0} where
  abbrev pub and_then : Run S A → (A → Cmd S B) → Run S B
  and_then (ok a s) k = k a s
  and_then fault k = fault
  and_then out_of_fuel k = out_of_fuel

  infixl 5 ◌>>=◌ ◌>>◌
  abbrev pub ◌>>=◌ : Cmd S A → (A → Cmd S B) → Cmd S B
  m >>= k = λ s. and_then (m s) k

  abbrev pub ◌>>◌ : Cmd S A → Cmd S B → Cmd S B
  m >> n = m >>= λ _. n

-- Total correctness: the run returns, and its value and final state satisfy `P`.
pub data Ends {S A : Type 0} (P : A → S → Type 0) : Run S A → Type 0 where
  ends : {a : A} {s : S} → P a s → Ends P (ok a s)

module _ {S A : Type 0} {P : A → S → Type 0} where
  pub then-Ends :
      {B : Type 0} {Q : B → S → Type 0} {r : Run S A} {k : A → Cmd S B}
      → Ends P r
      → ((a : A) (s : S) → P a s → Ends Q (k a s))
      → Ends Q (and_then r k)
  then-Ends (ends p) next = next _ _ p

  pub weaken :
      {Q : A → S → Type 0} {r : Run S A} → Ends P r → ((a : A) (s : S) → P a s → Q a s) → Ends Q r
  weaken (ends p) f = ends (f _ _ p)

  -- The run with its value and state laid open.
  pub Ends-ok : {r : Run S A} → Ends P r → (a : A) × (s : S) × (r ≡ ok a s) × P a s
  Ends-ok (ends p) = (_, _, refl, p)

-- The run returns, its value satisfies `P`, and the state is as before.
pub data Reads {S A : Type 0} (P : A → Type 0) (s : S) : Run S A → Type 0 where
  reads : {a : A} → P a → Reads P s (ok a s)

module _ {S A : Type 0} {P : A → Type 0} {s : S} where
  pub then-Reads :
      {B : Type 0} {Q : B → S → Type 0} {r : Run S A} (k : A → Cmd S B)
      → Reads P s r
      → ((a : A) → P a → Ends Q (k a s))
      → Ends Q (and_then r k)
  then-Reads k (reads p) next = next _ p

  pub Reads-then :
      {B : Type 0} {Q : B → Type 0} {r : Run S A} (k : A → Cmd S B)
      → Reads P s r
      → ((a : A) → P a → Reads Q s (k a s))
      → Reads Q s (and_then r k)
  Reads-then k (reads p) next = next _ p

  pub Reads-mono :
      {Q : A → Type 0} {r : Run S A} → Reads P s r → ((a : A) → P a → Q a) → Reads Q s r
  Reads-mono (reads p) f = reads (f _ p)

  pub Reads-ok : {r : Run S A} → Reads P s r → (a : A) × (r ≡ ok a s) × P a
  Reads-ok (reads p) = (_, refl, p)

pub Reads-eq : {S A : Type 0} {a : A} {s : S} {r : Run S A} → Reads (λ b. b ≡ a) s r → r ≡ ok a s
Reads-eq {s} (reads p) = ap (λ b. ok b s) p
