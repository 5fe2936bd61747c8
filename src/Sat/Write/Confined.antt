-- ===== src/Sat/Write/Confined.antt =====
-- devices/sat/sat.c: the addresses that an operation can change, whatever its outcome.
use libslinga.Prelude.{ℕ, ◌≡◌, refl, ◌∙◌, ok_injective, Result, ok, err, diverge, Bool, true}
use libslinga.Prelude.{false, Error, if◌then◌else◌}
use libslinga.Prelude.Action.{◌>>=◌, ◌>>◌, lift, reject, continue_with}
use libslinga.Memory.{Memory, Io}

-- The operation changes no address but those of `Room`, and a result that it gives is `Good`.
pub record Confined (Room : ℕ → Type 0) {A : Type 0} (Good : A → Type 0) (act : Io A) : Type 0 where
  pub elsewhere : (m : Memory) (a : ℕ) → ¬ Room a → (act m).1 a ≡ m a
  pub good : (m : Memory) (x : A) → (act m).0 ≡ ok x → Good x

-- Nothing is said of the result.
abbrev pub Any : {A : Type 0} → A → Type 0
Any x = Unit {0}

module _ {Room : ℕ → Type 0} where
  continue-elsewhere :
      {A B : Type 0} {Good : A → Type 0} {Final : B → Type 0} (f : A → Io B) (r : Result A)
      (m : Memory) (a : ℕ)
      → ¬ Room a
      → ((x : A) → r ≡ ok x → Good x)
      → ((x : A) → Good x → Confined Room Final (f x))
      → (continue_with f r m).1 a ≡ m a
  continue-elsewhere f (ok x) m a out g h = (h x (g x refl)).elsewhere m a out
  continue-elsewhere f (err e) m a out g h = refl
  continue-elsewhere f diverge m a out g h = refl

  continue-good :
      {A B : Type 0} {Good : A → Type 0} {Final : B → Type 0} (f : A → Io B) (r : Result A)
      (m : Memory) (y : B)
      → (continue_with f r m).0 ≡ ok y
      → ((x : A) → r ≡ ok x → Good x)
      → ((x : A) → Good x → Confined Room Final (f x))
      → Final y
  continue-good f (ok x) m y e g h = (h x (g x refl)).good m y e
  continue-good f (err code) m y e g h = cc e
  continue-good f diverge m y e g h = cc e

  pub Confined-bind :
      {A B : Type 0} {Good : A → Type 0} {Final : B → Type 0} (act : Io A) (f : A → Io B)
      → Confined Room Good act
      → ((x : A) → Good x → Confined Room Final (f x))
      → Confined Room Final (act >>= f)
  Confined-bind act f c h = record {
    elsewhere = λ m a out.
        continue-elsewhere f (act m).0 (act m).1 a out (c.good m) h ∙ c.elsewhere m a out;
    good = λ m y e. continue-good f (act m).0 (act m).1 y e (c.good m) h;
  }

  pub Confined-lift :
      {A : Type 0} {Good : A → Type 0} (r : Result A)
      → ((x : A) → r ≡ ok x → Good x)
      → Confined Room Good (lift r)
  Confined-lift r h = record { elsewhere = λ m a out. refl; good = λ m. h }

  pub Confined-pure :
      {A : Type 0} {Good : A → Type 0} (x : A) → Good x → Confined Room Good (lift (ok x))
  Confined-pure x h = record {
    elsewhere = λ m a out. refl;
    good = λ m y e. rw (← ok_injective e) h;
  }

  pub Confined-reject : (bad : Bool) (e : Error) → Confined Room Any (reject bad e)
  Confined-reject true e = record { elsewhere = λ m a out. refl; good = λ m x e. tt }
  Confined-reject false e = record { elsewhere = λ m a out. refl; good = λ m x e. tt }

  pub Confined-guard :
      {A : Type 0} {Good : A → Type 0} (bad : Bool) (e : Error) (act : Io A)
      → (bad ≡ false → Confined Room Good act)
      → Confined Room Good (reject bad e >> act)
  Confined-guard true e act h = record { elsewhere = λ m a out. refl; good = λ m x e. cc e }
  Confined-guard false e act h = h refl

  pub Confined-if :
      {A : Type 0} {Good : A → Type 0} (c : Bool) (x y : Io A)
      → (c ≡ true → Confined Room Good x)
      → (c ≡ false → Confined Room Good y)
      → Confined Room Good (if c then x else y)
  Confined-if true x y hx hy = hx refl
  Confined-if false x y hx hy = hy refl
