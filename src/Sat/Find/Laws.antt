-- ===== src/Sat/Find/Laws.antt =====
-- devices/sat/sat.c: what `find_save` finds on a well-formed partition.
use libslinga.Prelude.{ℕ, zero, suc, ◌+◌, ◌*◌, ◌^◌, ◌≤◌, ◌<◌, ◌≡◌, ◌⊎◌, refl, arith, Bool, true}
use libslinga.Prelude.{false, ◌==◌, ltb, if◌then◌else◌, u32, List, some, Result, ok, err, Error}
use libslinga.Prelude.{Bool-cases, inl, inr}
use native.Mathlib.Decide.{dec_lt}
use libslinga.Memory.{Memory}
use libslinga.Sat.Partition.{PartitionInfo}
use libslinga.Sat.Partition.Bytes.{byte_address, view, Transfer, read_from_partition_lem}
use libslinga.Sat.Blocks.Layout.{IsPartition, block_address, block-lt, block-ge, block_size_pos}
use libslinga.Sat.Blocks.Layout.{count-le, block_size-small}
use libslinga.Sat.Header.{StartBlockHeader, header_of_bytes, read_header}
use libslinga.Sat.Find.{outside, starts_save, find_from, find_save}

-- The header in block `b`, whatever the block holds.
abbrev pub header_at : Memory → PartitionInfo → ℕ → StartBlockHeader
header_at m p b = header_of_bytes (view m (block_address p b) p.skip_bytes 0 34)

-- The tag is the first four valid bytes.
pub tag-header_at :
    (m : Memory) (p : PartitionInfo) (b : ℕ)
    → let at = byte_address (block_address p b) p.skip_bytes in
      (header_at m p b).tag ≡ m (at 0) * 2 ^ 24 + m (at 1) * 2 ^ 16 + m (at 2) * 2 ^ 8 + m (at 3)
unfolding header_of_bytes view
tag-header_at m p b = refl

module _ {p : PartitionInfo} (v : IsPartition p) (m : Memory) where
  pub header-Transfer : (b : ℕ) → Transfer (block_address p b) 0 34 p.skip_bytes
  header-Transfer b = record {
    not_null = omega (arith, v.not_null);
    not_empty = omega arith;
    good_skip = v.good_skip;
    in_range = omega arith;
  }

  pub read_header_lem :
      (b : ℕ) → read_header m (block_address p b) p.skip_bytes ≡ ok (header_at m p b)
  unfolding read_header
  read_header_lem b =
      rw (read_from_partition_lem m (block_address p b) 0 34 p.skip_bytes (header-Transfer b)) refl

  -- The range check of the loops over blocks never fires.
  pub not_outside : (b : ℕ) → b < v.count → outside p (block_address p b) ≡ false
  not_outside b h = ground (arith, block-lt v b h, block_size_pos v)

  -- One more block does not wrap.
  pub next_block :
      (b : ℕ) → b < v.count → u32 (b * p.block_size + p.block_size) ≡ (b + 1) * p.block_size
  next_block b h = omega (arith, block-lt v b h, v.small)

  pub first_block : u32 (2 * p.block_size) ≡ 2 * p.block_size
  first_block = omega (arith, block_size-small v)

  module _ (filename : List ℕ) where
    -- Does block `b` start a save of this name?
    abbrev pub is_save : ℕ → Bool
    is_save b = starts_save filename (header_at m p b)

    abbrev pub NoSave : ℕ → ℕ → Type 0
    NoSave i j = (k : ℕ) → i ≤ k → k < j → is_save k ≡ false

    -- The first such block from `i` on, or that there is none.
    abbrev pub FirstSave : ℕ → Result ℕ → Type 0
    FirstSave i r =
        ((b : ℕ) × (r ≡ ok (block_address p b))
          × (i ≤ b)
          × (b < v.count)
          × (is_save b ≡ true)
          × NoSave i b)
        ⊎ ((r ≡ err Error.not_found) × NoSave i v.count)

    NoSave-extend : (i j : ℕ) → is_save i ≡ false → NoSave (i + 1) j → NoSave i j
    NoSave-extend i j clear h k lo hi = elim (Bool-cases (i == k)) [
      | inl e ↦ rw (← same_index e) clear
      | inr ne ↦ h k (ground arith) hi
    ]
      where
        same_index : (i == k) ≡ true → i ≡ k
        same_index e = ground arith

    FirstSave-extend :
        (i : ℕ) (r : Result ℕ) → is_save i ≡ false → FirstSave (i + 1) r → FirstSave i r
    FirstSave-extend i r clear (inl (b, e, lo, hi, hit, h)) =
        inl (b, e, omega arith, hi, hit, NoSave-extend i b clear h)
    FirstSave-extend i r clear (inr (e, h)) = inr (e, NoSave-extend i v.count clear h)

    find-FirstSave :
        (fuel b i : ℕ)
        → i ≡ b * p.block_size
        → b ≤ v.count
        → v.count < fuel + b
        → FirstSave b (find_from fuel m filename p i)
    unfolding find_from
    find-FirstSave zero b i e le f = absurd (omega arith)
    find-FirstSave (suc fuel) b i e le f = rw e (elim (dec_lt b v.count) [
      | yes h ↦
          rw (inside h, not_outside b h, read_header_lem b, next_block b h)
            (at_block h (
              find-FirstSave fuel (b + 1) ((b + 1) * p.block_size) refl (omega arith)
                (omega arith)))
      | no h ↦ rw (past h) (inr (refl, λ k lo hi. absurd (omega arith)))
    ])
      where
        inside : b < v.count → ltb (b * p.block_size) p.partition_size ≡ true
        inside h = ground (arith, block-lt v b h, block_size_pos v)

        past : ¬ (b < v.count) → ltb (b * p.block_size) p.partition_size ≡ false
        past h = ground (arith, block-ge v b (omega arith))

        rest : Result ℕ
        rest = find_from fuel m filename p ((b + 1) * p.block_size)

        at_block :
            b < v.count
            → FirstSave (b + 1) rest
            → FirstSave b (if is_save b then ok (block_address p b) else rest)
        at_block h later = elim (Bool-cases (is_save b)) [
          | inl hit ↦ rw hit (inl (b, refl, omega arith, h, hit, λ k lo hi. absurd (omega arith)))
          | inr clear ↦ rw clear (FirstSave-extend b rest clear later)
        ]

    -- On a well-formed partition `find_save` ends, and gives the address of the first block, past
    -- the two that hold no saves, whose header has the start tag and the name; it says
    -- SLINGA_NOT_FOUND exactly when there is no such block.
    pub find_save-FirstSave : FirstSave 2 (find_save m (some filename) p)
    unfolding find_save
    find_save-FirstSave = rw first_block (
        find-FirstSave (suc p.partition_size) 2 (2 * p.block_size) refl v.two_blocks
          (omega (arith, count-le v)))
