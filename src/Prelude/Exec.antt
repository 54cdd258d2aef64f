-- ===== src/Prelude/Exec.antt =====
-- Calls that change a state and may raise. What was done before a raise stays done, so the state
-- comes back beside the error too.

use mathlib.Core.Path.{◌≡◌, refl, sym, subst}
use mathlib.Core.Bool.{Bool, true, false}
use odooctl.Prelude.Tests.{if◌then◌else◌, if-true, if-false}
pub use odooctl.Prelude.Results.{Result, ok, err}

abbrev pub Exec : Type 0 → Type 0 → Type 0 → Type 0
Exec S E A = S → Result E A × S

module _ {S E A : Type 0} where
  abbrev pub pure : A → Exec S E A
  pure a s = (ok a, s)

  abbrev pub raise : E → Exec S E A
  raise e s = (err e, s)

  abbrev pub lift : Result E A → Exec S E A
  lift r s = (r, s)

  -- `try: m` with the handler written by cases on what it returns.
  abbrev pub attempt : Exec S E A → Exec S E (Result E A)
  attempt m s = let (r, s') = m s in (ok r, s')

module _ {S E A B : Type 0} where
  abbrev pub continue : Result E A → (A → Exec S E B) → Exec S E B
  continue (ok a) f s = f a s
  continue (err e) f s = (err e, s)

  infixl 5 ◌>>=◌ ◌>>◌
  abbrev pub ◌>>=◌ : Exec S E A → (A → Exec S E B) → Exec S E B
  ◌>>=◌ m f s = let (r, s') = m s in continue r f s'

  abbrev pub ◌>>◌ : Exec S E A → Exec S E B → Exec S E B
  m >> n = m >>= λ _. n

module _ {S E A B : Type 0} where
  abbrev pub chosen : Result E A → Exec S E B → Exec S E B → Exec S E B
  chosen (ok a) handler rest = rest
  chosen (err e) handler rest = handler

  -- `try: m`, `except Exception: handler`, `else: rest`.
  abbrev pub try_else : Exec S E A → Exec S E B → Exec S E B → Exec S E B
  try_else m handler rest s = let (r, s') = m s in chosen r handler rest s'

module _ {S E A B : Type 0} where
  -- To show `P` of what a bind gives, show it of the rest after a value, and of an error.
  pub continue_ind {κ} :
      (P : Result E B × S → Type κ) (r : Result E A) (f : A → Exec S E B) (s : S)
      → ((a : A) → r ≡ ok a → P (f a s))
      → ((e : E) → r ≡ err e → P (err e, s))
      → P (continue r f s)
  continue_ind P (ok a) f s kf ke = kf a refl
  continue_ind P (err e) f s kf ke = ke e refl

module _ {S E A : Type 0} where
  -- The call returns, with a value and a state of which `P` holds.
  abbrev pub Returns : (A → S → Type 0) → Exec S E A → S → Type 0
  Returns P m s = (a : A) × ((m s).0 ≡ ok a) × P a (m s).1

module _ {S E A B : Type 0} where
  pub bind-Returns :
      (P : A → S → Type 0) (Q : B → S → Type 0) (m : Exec S E A) (f : A → Exec S E B) (s : S)
      → Returns P m s
      → ((a : A) (s' : S) → P a s' → Returns Q (f a) s')
      → Returns Q (m >>= f) s
  bind-Returns P Q m f s (a, e, p) k =
      subst (λ r. (b : B) × ((continue r f (m s).1).0 ≡ ok b) × Q b (continue r f (m s).1).1)
        (sym e) (k a (m s).1 p)

  pub try-Returns :
      (P : A → S → Type 0) (Q : B → S → Type 0) (m : Exec S E A) (handler rest : Exec S E B) (s : S)
      → Returns P m s
      → ((a : A) (s' : S) → P a s' → Returns Q rest s')
      → Returns Q (try_else m handler rest) s
  try-Returns P Q m handler rest s (a, e, p) k =
      subst
        (λ r.
          (b : B) × ((chosen r handler rest (m s).1).0 ≡ ok b)
          × Q b (chosen r handler rest (m s).1).1)
        (sym e) (k a (m s).1 p)

module _ {S E A : Type 0} (Q : A → S → Type 0) where
  -- A test that is known.
  pub then-Returns :
      (b : Bool) (m n : Exec S E A) (s : S)
      → b ≡ true
      → Returns Q m s
      → Returns Q (if b then m else n) s
  then-Returns b m n s e r = subst (λ (k : Exec S E A). Returns Q k s) (sym (if-true b m n e)) r

  pub else-Returns :
      (b : Bool) (m n : Exec S E A) (s : S)
      → b ≡ false
      → Returns Q n s
      → Returns Q (if b then m else n) s
  else-Returns b m n s e r = subst (λ (k : Exec S E A). Returns Q k s) (sym (if-false b m n e)) r
