-- ===== src/Sat/Find/Names.antt =====
-- devices/sat/sat.c: what the comparison of a name with a block's header decides.
use libslinga.Prelude.{ℕ, zero, suc, ◌≡◌, ◌↔◌, refl, arith, List, [], ◌∷◌, true, take}
use libslinga.Sat.Header.{StartBlockHeader, c_string, strncmp_eq}
use libslinga.Sat.Find.{starts_save}

-- The text in the first `n` bytes of an array.
abbrev pub text : ℕ → List ℕ → List ℕ
text n chars = c_string (take n chars)

pub strncmp_eq-text : (n : ℕ) (a b : List ℕ) → strncmp_eq n a b ≡ true → text n a ≡ text n b
unfolding strncmp_eq c_string
strncmp_eq-text zero a b h = refl
strncmp_eq-text (suc n) [] [] h = refl
strncmp_eq-text (suc n) [] (y ∷ ys) h = ground arith
strncmp_eq-text (suc n) (x ∷ xs) [] h = ground arith
strncmp_eq-text (suc n) (x ∷ xs) (y ∷ ys) h = ground (arith, strncmp_eq-text n xs ys)

pub text-strncmp_eq : (n : ℕ) (a b : List ℕ) → text n a ≡ text n b → strncmp_eq n a b ≡ true
unfolding strncmp_eq c_string
text-strncmp_eq zero a b h = refl
text-strncmp_eq (suc n) [] [] h = refl
text-strncmp_eq (suc n) [] (y ∷ ys) h = ground arith
text-strncmp_eq (suc n) (x ∷ xs) [] h = ground arith
text-strncmp_eq (suc n) (x ∷ xs) (y ∷ ys) h = ground (arith, text-strncmp_eq n xs ys)

-- A block starts a save of a name exactly when it has the start tag 0x80000000 and the text of its
-- 11 bytes of name is that of the first 11 bytes of the name asked for.
pub starts_save_lem :
    (filename : List ℕ) (h : StartBlockHeader)
    → (starts_save filename h ≡ true)
      ↔ ((h.tag ≡ 0x80000000) × (text 11 filename ≡ text 11 h.savename))
unfolding starts_save
starts_save_lem filename h = (
  λ hit. (ground arith, strncmp_eq-text 11 filename h.savename (ground arith)),
  λ (tagged, named). ground (arith, text-strncmp_eq 11 filename h.savename named),
)
