-- ===== src/Prelude/Ends.antt =====
-- Calls that end: their outcome is not that of a loop that has used up its fuel.
use libslinga.Prelude.Status.{ok_injective, Result, ok, err, diverge, Error, ◌>>=◌, reject}
use libslinga.Prelude.Action
use libslinga.Prelude.Action.{Action}
use mathlib.Core.Path.{subst, ◌≡◌, refl}
use mathlib.Core.Logic.{◌≢◌}
use mathlib.Core.Bool.{Bool, true, false}
use libslinga.Prelude.Tests.{if◌then◌else◌}

abbrev pub Ends : {A : Type 0} → Result A → Type 0
Ends r = r ≢ diverge

pub Ends-ok : {A : Type 0} (a : A) → Ends (ok a)
Ends-ok a e = cc e

pub Ends-err : {A : Type 0} (code : Error) → Ends {A = A} (err code)
Ends-err code e = cc e

pub Ends-bind :
    {A B : Type 0} (r : Result A) (f : A → Result B)
    → Ends r
    → ((a : A) → r ≡ ok a → Ends (f a))
    → Ends (r >>= f)
Ends-bind (ok a) f h k = k a refl
Ends-bind (err code) f h k = Ends-err code
Ends-bind diverge f h k = absurd (h refl)

pub Ends-reject : (bad : Bool) (code : Error) → Ends (reject bad code)
Ends-reject true code = Ends-err code
Ends-reject false code = Ends-ok tt

pub Ends-guard :
    {A : Type 0} (bad : Bool) (code : Error) (r : Result A)
    → (bad ≡ false → Ends r)
    → Ends (reject bad code >>= λ t. r)
Ends-guard true code r h = Ends-err code
Ends-guard false code r h = h refl

pub Ends-if :
    {A : Type 0} (c : Bool) (x y : Result A)
    → (c ≡ true → Ends x)
    → (c ≡ false → Ends y)
    → Ends (if c then x else y)
Ends-if true x y hx hy = hx refl
Ends-if false x y hx hy = hy refl

-- The same for operations on a state, from every state; and a result that they give is `Good`.
pub record EndsWith {S A : Type 0} (Good : A → Type 0) (act : Action S A) : Type 0 where
  pub ends : (s : S) → Ends (act s).0
  pub good : (s : S) (a : A) → (act s).0 ≡ ok a → Good a

-- Nothing is said of the result.
abbrev pub Any : {A : Type 0} → A → Type 0
Any a = Unit {0}

module _ {S : Type 0} where
  -- From one state.
  pub Ends-known :
      {A B : Type 0} (r : Result A) (f : A → Action S B) (s : S)
      → Ends r
      → ((a : A) → r ≡ ok a → Ends (f a s).0)
      → Ends (Action.◌>>=◌ (Action.lift r) f s).0
  Ends-known (ok a) f s h k = k a refl
  Ends-known (err code) f s h k = Ends-err code
  Ends-known diverge f s h k = absurd (h refl)

  pub Ends-past :
      {A : Type 0} (bad : Bool) (code : Error) (act : Action S A) (s : S)
      → (bad ≡ false → Ends (act s).0)
      → Ends (Action.◌>>◌ (Action.reject bad code) act s).0
  Ends-past true code act s h = Ends-err code
  Ends-past false code act s h = h refl

  continue-Ends :
      {A B : Type 0} {Good : A → Type 0} {Final : B → Type 0} (f : A → Action S B) (r : Result A)
      (s : S)
      → Ends r
      → ((a : A) → r ≡ ok a → Good a)
      → ((a : A) → Good a → EndsWith Final (f a))
      → Ends (Action.continue_with f r s).0
  continue-Ends f (ok a) s h g k = (k a (g a refl)).ends s
  continue-Ends f (err code) s h g k = Ends-err code
  continue-Ends f diverge s h g k = absurd (h refl)

  continue-good :
      {A B : Type 0} {Good : A → Type 0} {Final : B → Type 0} (f : A → Action S B) (r : Result A)
      (s : S) (b : B)
      → ((a : A) → r ≡ ok a → Good a)
      → ((a : A) → Good a → EndsWith Final (f a))
      → (Action.continue_with f r s).0 ≡ ok b
      → Final b
  continue-good f (ok a) s b g k e = (k a (g a refl)).good s b e
  continue-good f (err code) s b g k e = cc e
  continue-good f diverge s b g k e = cc e

  pub EndsWith-bind :
      {A B : Type 0} {Good : A → Type 0} {Final : B → Type 0} (act : Action S A)
      (f : A → Action S B)
      → EndsWith Good act
      → ((a : A) → Good a → EndsWith Final (f a))
      → EndsWith Final (Action.◌>>=◌ act f)
  EndsWith-bind act f h k = record {
    ends = λ s. continue-Ends f (act s).0 (act s).1 (h.ends s) (h.good s) k;
    good = λ s b e. continue-good f (act s).0 (act s).1 b (h.good s) k e;
  }

  -- A result that is known to be what a call gives.
  pub EndsWith-lift :
      {A : Type 0} (r : Result A) → Ends r → EndsWith {S = S} (λ a. r ≡ ok a) (Action.lift r)
  EndsWith-lift r h = record { ends = λ s. h; good = λ s a e. e }

  pub EndsWith-pure :
      {A : Type 0} {Good : A → Type 0} (a : A) → Good a → EndsWith {S = S} Good (Action.lift (ok a))
  EndsWith-pure {Good} a g = record {
    ends = λ s. Ends-ok a;
    good = λ s b e. subst Good (ok_injective e) g;
  }

  pub EndsWith-err :
      {A : Type 0} {Good : A → Type 0} (code : Error)
      → EndsWith {S = S} Good (Action.lift (err code))
  EndsWith-err code = record { ends = λ s. Ends-err code; good = λ s a e. cc e }

  pub EndsWith-query :
      {A : Type 0} (f : S → Result A) → ((s : S) → Ends (f s)) → EndsWith Any (Action.query f)
  EndsWith-query f h = record { ends = h; good = λ s a e. tt }

  pub EndsWith-update : (f : S → S) → EndsWith Any (Action.update f)
  EndsWith-update f = record { ends = λ s. Ends-ok tt; good = λ s a e. tt }

  pub EndsWith-guard :
      {A : Type 0} {Good : A → Type 0} (bad : Bool) (code : Error) (act : Action S A)
      → (bad ≡ false → EndsWith Good act)
      → EndsWith Good (Action.◌>>◌ (Action.reject bad code) act)
  EndsWith-guard true code act h = record { ends = λ s. Ends-err code; good = λ s a e. cc e }
  EndsWith-guard false code act h = record { ends = (h refl).ends; good = (h refl).good }

  pub EndsWith-if :
      {A : Type 0} {Good : A → Type 0} (c : Bool) (x y : Action S A)
      → (c ≡ true → EndsWith Good x)
      → (c ≡ false → EndsWith Good y)
      → EndsWith Good (if c then x else y)
  EndsWith-if true x y hx hy = hx refl
  EndsWith-if false x y hx hy = hy refl

  pub EndsWith-reject : (bad : Bool) (code : Error) → EndsWith {S = S} Any (Action.reject bad code)
  EndsWith-reject true code = EndsWith-err code
  EndsWith-reject false code = EndsWith-pure tt tt
