-- ===== src/Sat/Blocks/Count.antt =====
-- devices/sat/sat.c: the loop of `calc_num_blocks`, against the blocks that a save needs.
use libslinga.Prelude.{ℕ, zero, suc, ◌+◌, ◌-◌, ◌*◌, ◌/◌, ◌%◌, ◌^◌, ◌≤◌, ◌<◌, ◌≡◌, ◌≢◌, refl}
use libslinga.Prelude.{arith, false, ◌==◌, ◌!=◌, ◌||◌, if◌then◌else◌, u32, sub32, Result, ok}
use libslinga.Prelude.{Bool-cases, inl, inr}
use native.Mathlib.Nat.{mul_comm, div-le_of_le-mul, mul-le-mul_right, div-add-mod'}
use native.Mathlib.Nat.{lt-div-mul-add, div-le_self}
use native.Mathlib.Decide.{dec_lt}
use libslinga.Sat.Partition.{bad_skip}
use libslinga.Sat.Partition.Bytes.{GoodSkip}
use libslinga.Sat.Blocks.{blocks_for, settle_blocks, calc_num_blocks}

-- `n` blocks of `data_size` bytes hold the header, the data and a table of `n` entries, of which
-- the last one is the terminator and one more is spare.
abbrev pub Holds : ℕ → ℕ → ℕ → Type 0
Holds save_size data_size n = 30 + save_size + (n + 1) * 2 ≤ n * data_size

-- `r` is the least such number.
abbrev pub LeastBlocks : ℕ → ℕ → Result ℕ → Type 0
LeastBlocks save_size data_size r =
    (n : ℕ) × (r ≡ ok n)
    × Holds save_size data_size n
    × ((k : ℕ) → Holds save_size data_size k → n ≤ k)

ceil : ℕ → ℕ → ℕ
ceil t d = if t % d != 0 then t / d + 1 else t / d

-- The least number of pieces of size `d` that hold `t`.
ceil-le : (t d k : ℕ) → 0 < d → t ≤ k * d → ceil t d ≤ k
unfolding ceil
ceil-le t d k h e = elim (Bool-cases (t % d != 0)) [
  | inl rest ↦ rw rest (more (ground arith) (dec_lt (t / d) k))
  | inr none' ↦ rw none' (div-le_of_le-mul d (rw mul_comm e))
]
  where
    more : 0 < t % d → Dec (t / d < k) → t / d + 1 ≤ k
    more p (yes q) = omega arith
    more p (no q) =
        absurd
          (omega (arith, mul-le-mul_right {m = k} {n = t / d} d (omega arith), div-add-mod' t d))

le-ceil : (t d : ℕ) → 0 < d → t ≤ ceil t d * d
unfolding ceil
le-ceil t d h = elim (Bool-cases (t % d != 0)) [
  | inl rest ↦ rw rest (omega (arith, lt-div-mul-add {a = t} h))
  | inr none' ↦ rw none' (exact (ground arith))
]
  where
    exact : t % d ≡ 0 → t ≤ t / d * d
    exact e = omega (arith, div-add-mod' t d)

ceil_mono : (t t' d : ℕ) → 0 < d → t ≤ t' → ceil t d ≤ ceil t' d
ceil_mono t t' d h e = ceil-le t d (ceil t' d) h (omega (arith, le-ceil t' d h))

-- The bytes to store in `n` blocks.
abbrev total : ℕ → ℕ → ℕ
total save_size n = 30 + save_size + (n + 1) * 2

blocks_for-ceil :
    (save_size d n : ℕ)
    → 0 < d
    → total save_size n + 1 < 2 ^ 32
    → blocks_for (30 + save_size) d n ≡ ceil (total save_size n) d
unfolding blocks_for ceil
blocks_for-ceil save_size d n h small =
    rw (table, whole)
      (elim (Bool-cases (total save_size n % d != 0)) [
        | inl rest ↦ rw rest (omega (arith, div-le_self (total save_size n) d))
        | inr none' ↦ rw none' refl
      ])
  where
    table : u32 ((n + 1) * 2) ≡ (n + 1) * 2
    table = omega arith

    whole : u32 (30 + save_size + (n + 1) * 2) ≡ total save_size n
    whole = omega arith

module _ (save_size d : ℕ) (small : save_size ≤ 2 ^ 30) (wide : 60 ≤ d) where
  abbrev next : ℕ → ℕ
  next n = ceil (total save_size n) d

  enough : Holds save_size d (save_size + 1)
  enough = grind arith

  next-le : (n k : ℕ) → n ≤ k → Holds save_size d k → next n ≤ k
  next-le n k h holds = ceil-le (total save_size n) d k (omega arith) (omega arith)

  settle-LeastBlocks :
      (fuel n : ℕ)
      → save_size + 2 < fuel + n
      → n ≤ next n
      → ((k : ℕ) → Holds save_size d k → n ≤ k)
      → LeastBlocks save_size d (settle_blocks fuel (30 + save_size) d n)
  unfolding settle_blocks
  settle-LeastBlocks zero n f up below = absurd (omega (arith, below (save_size + 1) enough))
  settle-LeastBlocks (suc fuel) n f up below = rw step (elim (Bool-cases (n == next n)) [
    | inl e ↦ rw e (n, refl, holds (ground arith), below)
    | inr ne ↦ rw ne (
        settle-LeastBlocks fuel (next n) (ground arith)
          (ceil_mono (total save_size n) (total save_size (next n)) d (omega arith) (omega arith))
          (λ k h. next-le n k (below k h) h))
  ])
    where
      step : blocks_for (30 + save_size) d n ≡ next n
      step =
          blocks_for-ceil save_size d n (omega arith) (omega (arith, below (save_size + 1) enough))

      holds : n ≡ next n → Holds save_size d n
      holds e = rw (← e) at (le-ceil (total save_size n) d (omega arith))

-- The valid bytes of a block.
abbrev pub valid_size : ℕ → ℕ → ℕ
valid_size block_size skip = if skip == 1 then block_size / 2 else block_size

-- For a save of 1 to 2^30 bytes and blocks of a positive multiple of 64 valid bytes, the loop of
-- `calc_num_blocks` ends, and its result is the least number of blocks that hold the header, the
-- data and one table entry more than there are blocks.
pub calc_num_blocks-LeastBlocks :
    (save_size block_size skip : ℕ)
    → save_size ≢ 0
    → save_size ≤ 2 ^ 30
    → GoodSkip skip
    → valid_size block_size skip % 64 ≡ 0
    → valid_size block_size skip ≢ 0
    → valid_size block_size skip < 2 ^ 32
    → LeastBlocks save_size
        (valid_size block_size skip - 4)
        (calc_num_blocks save_size block_size skip)
unfolding calc_num_blocks
calc_num_blocks-LeastBlocks save_size block_size skip s≢0 small good aligned ne fits = rw enters (
    settle-LeastBlocks save_size (valid_size block_size skip - 4) small (omega arith)
      (save_size + 4) 0 (omega arith) (omega arith) (λ k h. omega arith))
  where
    fixed : u32 (34 - 4 + save_size) ≡ 30 + save_size
    fixed = omega arith

    piece : sub32 (valid_size block_size skip) 4 ≡ valid_size block_size skip - 4
    piece = omega arith

    skip_fits : bad_skip skip ≡ false
    skip_fits = ground arith

    given : (save_size == 0 || block_size == 0) ≡ false
    given = ground arith

    aligned' : (valid_size block_size skip % 64 != 0) ≡ false
    aligned' = ground arith

    enters :
        calc_num_blocks save_size block_size skip
        ≡ settle_blocks (save_size + 4) (30 + save_size) (valid_size block_size skip - 4) 0
    enters = rw (given, skip_fits, aligned', fixed, piece) refl
