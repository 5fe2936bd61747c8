-- ===== src/Prelude/Action.antt =====
-- Operations that update a state `S` and may fail: what was updated before the failure stays.
use libslinga.Prelude.Status.{Result, ok, err, diverge, Error}
use mathlib.Core.Bool.{Bool, true, false}

abbrev pub Action : Type 0 → Type 0 → Type 0
Action S A = S → Result A × S

module _ {S : Type 0} where
  -- The rest of an operation, given the outcome of its first part.
  abbrev pub continue_with : {A B : Type 0} → (A → Action S B) → Result A → Action S B
  continue_with f (ok a) s = f a s
  continue_with f (err e) s = (err e, s)
  continue_with f diverge s = (diverge, s)

  infixl 5 ◌>>=◌ ◌>>◌
  abbrev pub ◌>>=◌ : {A B : Type 0} → Action S A → (A → Action S B) → Action S B
  ◌>>=◌ act f s = let (r, s') = act s in continue_with f r s'

  abbrev pub ◌>>◌ : {B : Type 0} → Action S (Unit {0}) → Action S B → Action S B
  m >> k = m >>= λ _. k

  -- An outcome that changes nothing.
  abbrev pub lift : {A : Type 0} → Result A → Action S A
  lift r s = (r, s)

  -- A look at the state.
  abbrev pub query : {A : Type 0} → (S → Result A) → Action S A
  query f s = (f s, s)

  abbrev pub update : (S → S) → Action S (Unit {0})
  update f s = (ok tt, f s)

  -- An early return: `if(bad) return e;`
  abbrev pub reject : Bool → Error → Action S (Unit {0})
  reject true e s = (err e, s)
  reject false e s = (ok tt, s)
