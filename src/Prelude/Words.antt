-- ===== src/Prelude/Words.antt =====
-- `unsigned int` is 32 bits and `unsigned char` 8 bits wide; both wrap.
use Prim.Native.Nat.{ℕ, zero, suc, ◌+◌, ◌-◌, ◌%◌, ◌^◌, ◌<◌}
use mathlib.Core.Path.{◌≡◌}
use mathlib.Core.Bool.{Bool, true, ◌&&◌}
use native.Mathlib.Omega.{arith}

abbrev pub u32 : ℕ → ℕ
u32 n = n % 2 ^ 32

abbrev pub u16 : ℕ → ℕ
u16 n = n % 2 ^ 16

abbrev pub u8 : ℕ → ℕ
u8 n = n % 2 ^ 8

-- a - b on `unsigned int`; the modulus is added since `-` on ℕ stops at 0.
abbrev pub sub32 : ℕ → ℕ → ℕ
sub32 a b = (a + 2 ^ 32 - b) % 2 ^ 32

-- A test that holds of every number below a limit, decided by evaluation.
unfoldable pub each_below : ℕ → (ℕ → Bool) → Bool
each_below zero test = true
each_below (suc limit) test = each_below limit test && test limit

pub each_below_at :
    (limit : ℕ) (test : ℕ → Bool) (n : ℕ) → each_below limit test ≡ true → n < limit → test n ≡ true
unfolding each_below
each_below_at zero test n all lt = absurd (omega arith)
each_below_at (suc limit) test n all lt = ground (arith, each_below_at limit test n)
