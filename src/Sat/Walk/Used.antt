-- ===== src/Sat/Walk/Used.antt =====
-- devices/sat/sat.c: what `walk_partition` counts, when it copies no metadata.
use libslinga.Prelude.{ℕ, zero, suc, ◌+◌, ◌-◌, ◌*◌, ◌^◌, ◌≤◌, ◌<◌, ◌≡◌, ◌≢◌, refl, arith, Bool}
use libslinga.Prelude.{true, false, ◌==◌, ltb, if◌then◌else◌, u32, none, Result, ok, Bool-cases}
use libslinga.Prelude.{inl, inr, ap}
use mathlib.Core.Path.{ap₂}
use libslinga.Memory.{Memory}
use libslinga.Sat.Partition.{PartitionInfo}
use libslinga.Sat.Blocks.{calc_num_blocks}
use libslinga.Sat.Blocks.Count.{valid_size, LeastBlocks, calc_num_blocks-LeastBlocks}
use libslinga.Sat.Blocks.Layout.{IsPartition, block_address, block-lt, block-ge, block_size_pos}
use libslinga.Sat.Blocks.Layout.{block_size-small, count-le}
use libslinga.Sat.Find.Laws.{header_at, not_outside, read_header_lem, next_block, first_block}
use libslinga.Sat.Walk.{WalkState, walk_from, visit_block, walk_partition, sat_get_used_blocks}
use libslinga.Sat.Walk.Empty.{good_blocks}

-- The sum of `f` over `n` blocks from `b` on.
unfoldable pub tally : (ℕ → ℕ) → ℕ → ℕ → ℕ
tally f b zero = 0
tally f b (suc n) = f b + tally f (b + 1) n

-- The number of a result.
abbrev pub number : Result ℕ → ℕ
number (ok n) = n
number _ = 0

module _ {p : PartitionInfo} (v : IsPartition p) (m : Memory) where
  -- Does block `b` have a start tag? Then a save begins there.
  abbrev pub tagged : ℕ → Bool
  tagged b = (header_at m p b).tag == 0x80000000

  abbrev pub save_at : ℕ → ℕ
  save_at b = if tagged b then 1 else 0

  -- The blocks of the save that begins at `b`.
  abbrev pub blocks_at : ℕ → ℕ
  blocks_at b =
      if tagged b
      then number (calc_num_blocks (header_at m p b).data_size p.block_size p.skip_bytes)
      else 0

  -- The sizes in the headers are those of saves.
  abbrev pub GoodSizes : Type 0
  GoodSizes =
      (b : ℕ)
      → 2 ≤ b
      → b < v.count
      → tagged b ≡ true
      → ((header_at m p b).data_size ≢ 0) × ((header_at m p b).data_size ≤ 2 ^ 30)

  abbrev pub counted : ℕ → ℕ → WalkState
  counted x y = record { saves = none; saves_found = x; blocks_found = y }

  counted_cong : {x x' y y' : ℕ} → x ≡ x' → y ≡ y' → ok (counted x y) ≡ ok (counted x' y')
  counted_cong ex ey = ap₂ (λ x y. ok (counted x y)) ex ey

  number-calc_num_blocks :
      (size : ℕ)
      → size ≢ 0
      → size ≤ 2 ^ 30
      → calc_num_blocks size p.block_size p.skip_bytes
        ≡ ok (number (calc_num_blocks size p.block_size p.skip_bytes))
  number-calc_num_blocks size ne small = of_least (
      calc_num_blocks-LeastBlocks size p.block_size p.skip_bytes ne small v.good_skip
        v.valid_aligned (omega (arith, v.wide)) (ground (arith, block_size-small v)))
    where
      of_least :
          LeastBlocks size
            (valid_size p.block_size p.skip_bytes - 4)
            (calc_num_blocks size p.block_size p.skip_bytes)
          → calc_num_blocks size p.block_size p.skip_bytes
            ≡ ok (number (calc_num_blocks size p.block_size p.skip_bytes))
      of_least (n, e, holds, least) = rw e refl

  module _ (good : GoodSizes) where
    visit_counted :
        (b x y : ℕ)
        → 2 ≤ b
        → b < v.count
        → x < 2 ^ 32
        → y < 2 ^ 32
        → visit_block m p 0 (block_address p b) (counted x y) (header_at m p b)
          ≡ ok (counted (u32 (x + save_at b)) (u32 (y + blocks_at b)))
    unfolding visit_block
    visit_counted b x y lo hi hx hy = elim (Bool-cases (tagged b)) [
      | inl start ↦
          let sizes = good b lo hi start in
          rw (start, number-calc_num_blocks (header_at m p b).data_size sizes.0 sizes.1) refl
      | inr other ↦ rw other (counted_cong (omega arith) (omega arith))
    ]

    walk_from-tally :
        (n fuel b x y : ℕ)
        → b + n ≡ v.count
        → n < fuel
        → 2 ≤ b
        → x < 2 ^ 32
        → y < 2 ^ 32
        → walk_from fuel m p 0 (b * p.block_size) (counted x y)
          ≡ ok (counted (u32 (x + tally save_at b n)) (u32 (y + tally blocks_at b n)))
    unfolding walk_from tally
    walk_from-tally n zero b x y e f lo hx hy = absurd (omega arith)
    walk_from-tally zero (suc fuel) b x y e f lo hx hy =
        rw past (counted_cong (omega arith) (omega arith))
      where
        past : ltb (b * p.block_size) p.partition_size ≡ false
        past = ground (arith, block-ge v b (omega arith))
    walk_from-tally (suc n) (suc fuel) b x y e f lo hx hy =
        rw
          (
            inside,
            not_outside v m b here,
            read_header_lem v m b,
            visit_counted b x y lo here hx hy,
            next_block v m b here,
            walk_from-tally n fuel (b + 1) (u32 (x + save_at b)) (u32 (y + blocks_at b))
                (omega arith) (omega arith) (omega arith) (omega arith) (omega arith),
          )
          (counted_cong (wrap_twice x (save_at b) _) (wrap_twice y (blocks_at b) _))
      where
        here : b < v.count
        here = omega arith

        inside : ltb (b * p.block_size) p.partition_size ≡ true
        inside = ground (arith, block-lt v b here, block_size_pos v)

        wrap_twice : (i j k : ℕ) → u32 (u32 (i + j) + k) ≡ u32 (i + (j + k))
        wrap_twice i j k = omega arith

    -- On a well-formed partition where every start tag stands in a header with a size of 1 to 2^30
    -- bytes, `walk_partition` without an array succeeds: it counts the blocks with a start tag, and
    -- as used blocks the sum of what `calc_num_blocks` gives for their sizes, both modulo 2^32;
    -- `sat_get_used_blocks` gives that sum.
    pub walk_partition-tally :
        (walk_partition m p none 0
          ≡ ok (
              counted
                (u32 (tally save_at 2 (v.count - 2)))
                (u32 (tally blocks_at 2 (v.count - 2)))))
        × (sat_get_used_blocks m p ≡ ok (u32 (tally blocks_at 2 (v.count - 2))))
    unfolding walk_partition sat_get_used_blocks
    walk_partition-tally =
        rw
          (
            good_blocks v,
            first_block v m,
            walk_from-tally (v.count - 2) (suc p.partition_size) 2 0 0 (omega (arith, v.two_blocks))
                (omega (arith, count-le v)) (omega arith) (omega arith) (omega arith),
          )
          (counted_cong (omega arith) (omega arith), ap ok (omega arith))
