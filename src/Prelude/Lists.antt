-- ===== src/Prelude/Lists.antt =====
-- Arrays as lists, measured and indexed by native numbers, under the library's names.
use mathlib.Core.Path.{sym, ◌∙◌, ◌≡◌, refl, ap}
use Prim.Native.Nat.{◌-◌, ℕ, zero, suc, ◌+◌, ◌<◌, min}
use mathlib.Core.Logic.{◌≢◌}
use mathlib.Core.List.{List, [], ◌∷◌, ◌++◌}
use native.Mathlib.Omega.{arith}

module _ {ℓ} {A : Type ℓ} where
  abbrev pub length : List A → ℕ
  length [] = 0
  length (x ∷ xs) = suc (length xs)

  abbrev pub get_or : List A → ℕ → A → A
  get_or [] i d = d
  get_or (x ∷ xs) zero d = x
  get_or (x ∷ xs) (suc i) d = get_or xs i d

  -- A write out of bounds changes nothing.
  abbrev pub set : List A → ℕ → A → List A
  set [] i v = []
  set (x ∷ xs) zero v = v ∷ xs
  set (x ∷ xs) (suc i) v = x ∷ set xs i v

  abbrev pub take : ℕ → List A → List A
  take zero xs = []
  take (suc n) [] = []
  take (suc n) (x ∷ xs) = x ∷ take n xs

  abbrev pub drop : ℕ → List A → List A
  drop zero xs = xs
  drop (suc n) [] = []
  drop (suc n) (x ∷ xs) = drop n xs

  abbrev pub replicate : ℕ → A → List A
  replicate zero a = []
  replicate (suc n) a = a ∷ replicate n a

module _ {ℓ} {A : Type ℓ} where
  pub length-append : (xs ys : List A) → length (xs ++ ys) ≡ length xs + length ys
  length-append [] ys = omega arith
  length-append (x ∷ xs) ys = omega (arith, length-append xs ys)

  pub length-set : (xs : List A) (i : ℕ) (v : A) → length (set xs i v) ≡ length xs
  length-set [] i v = refl
  length-set (x ∷ xs) zero v = refl
  length-set (x ∷ xs) (suc i) v = ap suc (length-set xs i v)

  pub get_or-set_self :
      (xs : List A) (i : ℕ) (v d : A) → i < length xs → get_or (set xs i v) i d ≡ v
  get_or-set_self [] i v d h = absurd (omega arith)
  get_or-set_self (x ∷ xs) zero v d h = refl
  get_or-set_self (x ∷ xs) (suc i) v d h = get_or-set_self xs i v d (omega arith)

  pub get_or-set_ne :
      (xs : List A) (i j : ℕ) (v d : A) → i ≢ j → get_or (set xs i v) j d ≡ get_or xs j d
  get_or-set_ne [] i j v d h = refl
  get_or-set_ne (x ∷ xs) zero zero v d h = absurd (h refl)
  get_or-set_ne (x ∷ xs) zero (suc j) v d h = refl
  get_or-set_ne (x ∷ xs) (suc i) zero v d h = refl
  get_or-set_ne (x ∷ xs) (suc i) (suc j) v d h = get_or-set_ne xs i j v d (λ e. h (ap suc e))

  pub length-replicate : (n : ℕ) (a : A) → length (replicate n a) ≡ n
  length-replicate zero a = refl
  length-replicate (suc n) a = ap suc (length-replicate n a)

  pub length-take : (n : ℕ) (xs : List A) → length (take n xs) ≡ min n (length xs)
  length-take zero xs = omega arith
  length-take (suc n) [] = omega arith
  length-take (suc n) (x ∷ xs) = omega (arith, length-take n xs)

  pub take-append_exact : (n : ℕ) (xs ys : List A) → length xs ≡ n → take n (xs ++ ys) ≡ xs
  take-append_exact zero [] ys h = refl
  take-append_exact zero (x ∷ xs) ys h = absurd (omega arith)
  take-append_exact (suc n) [] ys h = absurd (omega arith)
  take-append_exact (suc n) (x ∷ xs) ys h = ap (◌∷◌ x) (take-append_exact n xs ys (omega arith))

  pub drop-append_exact : (n : ℕ) (xs ys : List A) → length xs ≡ n → drop n (xs ++ ys) ≡ ys
  drop-append_exact zero [] ys h = refl
  drop-append_exact zero (x ∷ xs) ys h = absurd (omega arith)
  drop-append_exact (suc n) [] ys h = absurd (omega arith)
  drop-append_exact (suc n) (x ∷ xs) ys h = drop-append_exact n xs ys (omega arith)

  pub get_or-append_at :
      (xs ys : List A) (i j : ℕ) (d : A) → i ≡ length xs + j → get_or (xs ++ ys) i d ≡ get_or ys j d
  get_or-append_at [] ys i j d e = ap (λ k. get_or ys k d) (omega arith)
  get_or-append_at (x ∷ xs) ys zero j d e = absurd (omega arith)
  get_or-append_at (x ∷ xs) ys (suc i) j d e = get_or-append_at xs ys i j d (omega arith)

  pub drop-append_at :
      (xs ys : List A) (i j : ℕ) → i ≡ length xs + j → drop i (xs ++ ys) ≡ drop j ys
  drop-append_at [] ys i j e = ap (λ k. drop k ys) (omega arith)
  drop-append_at (x ∷ xs) ys zero j e = absurd (omega arith)
  drop-append_at (x ∷ xs) ys (suc i) j e = drop-append_at xs ys i j (omega arith)

  pub take-append_at :
      (xs ys : List A) (i j : ℕ) → i ≡ length xs + j → take i (xs ++ ys) ≡ xs ++ take j ys
  take-append_at [] ys i j e = ap (λ k. take k ys) (omega arith)
  take-append_at (x ∷ xs) ys zero j e = absurd (omega arith)
  take-append_at (x ∷ xs) ys (suc i) j e = ap (◌∷◌ x) (take-append_at xs ys i j (omega arith))

pub get_or-drop : (xs : List ℕ) (t i : ℕ) → get_or (drop t xs) i 0 ≡ get_or xs (t + i) 0
get_or-drop xs zero i = ap (λ k. get_or xs k 0) same
  where
    same : i ≡ 0 + i
    same = omega arith
get_or-drop [] (suc t) i = refl
get_or-drop (x ∷ xs) (suc t) i = get_or-drop xs t i ∙ ap (λ k. get_or (x ∷ xs) k 0) one_more
  where
    one_more : suc (t + i) ≡ suc t + i
    one_more = omega arith

pub get_or-take : (k : ℕ) (xs : List ℕ) (i : ℕ) → i < k → get_or (take k xs) i 0 ≡ get_or xs i 0
get_or-take zero xs i h = absurd (omega arith)
get_or-take (suc k) [] i h = refl
get_or-take (suc k) (x ∷ xs) zero h = refl
get_or-take (suc k) (x ∷ xs) (suc i) h = get_or-take k xs i (omega arith)

pub length-drop : (t : ℕ) (xs : List ℕ) → length (drop t xs) ≡ length xs - t
length-drop zero xs = omega arith
length-drop (suc t) [] = omega arith
length-drop (suc t) (x ∷ xs) = omega (arith, length-drop t xs)

take_nil : (k : ℕ) → take {A = ℕ} k [] ≡ []
take_nil zero = refl
take_nil (suc k) = refl

pub take-drop : (t k : ℕ) (xs : List ℕ) → take t xs ++ take k (drop t xs) ≡ take (t + k) xs
take-drop zero k xs = ap (λ j. take j xs) (omega arith)
take-drop (suc t) k [] = take_nil k ∙ sym (take_nil (suc t + k))
take-drop (suc t) k (x ∷ xs) =
    ap (λ ys. x ∷ ys) (take-drop t k xs) ∙ ap (λ j. take j (x ∷ xs)) one_more
  where
    one_more : suc (t + k) ≡ suc t + k
    one_more = omega arith

pub take_all : (xs : List ℕ) → take (length xs) xs ≡ xs
take_all [] = refl
take_all (x ∷ xs) = ap (λ ys. x ∷ ys) (take_all xs)
