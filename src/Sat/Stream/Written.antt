-- ===== src/Sat/Stream/Written.antt =====
-- devices/sat/sat.c: `sat_write` of a new save, down to what it stores in the free blocks.
use libslinga.Prelude.{◌<◌, ℕ, ◌+◌, ◌%◌, ◌^◌, ◌≤◌, ◌≡◌, ◌≢◌, inl, inr, refl, arith, List, some}
use libslinga.Prelude.{ok, err, Error, length, Result, ◌==◌, ◌!=◌, true, false, Bool-cases, Bool}
use libslinga.Sat.Blocks.Layout.{count-le, IsPartition, skip_fits}
use libslinga.Sat.Bitmap.Laws.{capacity}
use libslinga.Prelude.Action.{◌>>◌, reject}
use libslinga.Memory.{Memory, Io}
use libslinga.Sat.Partition.{PartitionInfo, bad_skip}
use libslinga.Sat.Blocks.{calc_num_blocks, min_block_size}
use libslinga.Sat.Blocks.Count.{Holds}
use libslinga.Sat.Bitmap.{Bitmap, is_set}
use libslinga.Sat.Bitmap.Count.{size_of-le}
use libslinga.Sat.Header.{SaveMetadata}
use libslinga.Sat.Find.{find_save}
use libslinga.Sat.Find.Laws.{NoSave, FirstSave, find_save-FirstSave}
use libslinga.Sat.Write.{write_save, write_checked, sat_write, free_blocks_for}
use libslinga.Sat.Write.Header.{IsMetadata}
use libslinga.Sat.Write.Free.{FreeBlocks, free_blocks_for-FreeBlocks, free_blocks_for-fewer}
use libslinga.Sat.Stream.{Chain, room}
use libslinga.Sat.Stream.Save.{Stores, write_save-Stores}
use libslinga.Sat.Stream.RoundTrip.{least}
use libslinga.Sat.Stream.FreeChain.{nth_block, nth_block-Chain, Chain-is_set}

passes :
    (bad : Bool) (e : Error) (act : Io (Unit {0})) (m : Memory) (out : Result (Unit {0}) × Memory)
    → bad ≡ false
    → act m ≡ out
    → (reject bad e >> act) m ≡ out
passes true e act m out clear ran = cc clear
passes false e act m out clear ran = ran

module _ {p : PartitionInfo} (v : IsPartition p) (m : Memory) (n : ℕ) (free : Bitmap)
    (space : free_blocks_for m p (n + 1) ≡ ok free) where
  abbrev pub block : ℕ → ℕ
  block = nth_block free

  pub found_free : FreeBlocks v m (n + 1) free
  found_free = free_blocks_for-FreeBlocks v m (n + 1) free space

  pub chain : Chain v free block n
  chain =
      nth_block-Chain v free n nonempty fits zero_clear (omega (arith, found_free.enough))
        found_free.inside
    where
      zero_clear : is_set free 0 ≡ false
      zero_clear = elim (Bool-cases (is_set free 0)) [
        | inl hit ↦ absurd (omega (arith, found_free.not_first 0 hit))
        | inr clear ↦ clear
      ]

      fits : capacity free < 2 ^ 32
      fits = omega (arith, found_free.sized, count-le v, v.small)

      nonempty : length free ≢ 0
      nonempty e = absurd (omega (arith, size_of-le free, found_free.enough))

  pub there : (i : ℕ) → i ≤ n → is_set free (block i) ≡ true
  there = Chain-is_set chain

module _ {p : PartitionInfo} (v : IsPartition p) (small : v.count ≤ 2 ^ 16) (m : Memory)
    (filename : List ℕ) (md : SaveMetadata) (bytes : List ℕ) (size n : ℕ) (free : Bitmap)
    (length_is : length bytes ≡ size) (size_small : size ≤ 2 ^ 30) (positive : size ≢ 0)
    (fits : IsMetadata md) (new_name : NoSave v m filename 2 v.count)
    (blocks : calc_num_blocks size p.block_size p.skip_bytes ≡ ok n)
    (space : free_blocks_for m p (n + 1) ≡ ok free) where
  absent : find_save m (some filename) p ≡ err Error.not_found
  absent = by_first (find_save-FirstSave v m filename)
    where
      by_first :
          FirstSave v m filename 2 (find_save m (some filename) p)
          → find_save m (some filename) p ≡ err Error.not_found
      by_first (inl (b, e, lo, hi, hit, h)) = cc (hit, new_name b lo hi)
      by_first (inr (e, h)) = e

  module _ (flags : ℕ) where
    writes :
        (m' : Memory)
        → write_save md bytes size p n free m ≡ (ok tt, m')
        → write_checked flags filename md bytes size p m ≡ (ok tt, m')
    unfolding write_checked
    writes m' ran =
        rw (absent, blocks, free_blocks_for-fewer v m n (n + 1) free (omega arith) space, ran) refl

    pub sat_write-Stores :
        (m' : Memory) × (sat_write flags (some filename) (some md) (some bytes) size p m
          ≡ (ok tt, m'))
        × Stores (chain v m n free space) small md bytes size m m'
    unfolding sat_write
    sat_write-Stores =
        go (write_save-Stores free_chain small md bytes size m positive size_small enough fits)
      where
        free_chain : Chain v free (nth_block free) n
        free_chain = chain v m n free space

        enough : Holds size (room v (nth_block free)) n
        enough =
            (least free_chain small md bytes size length_is size_small positive blocks
              (found_free v m n free space).sized).0

        given : (size == 0) ≡ false
        given = ground arith

        aligned : (p.block_size % 64 != 0) ≡ false
        aligned = ground (arith, v.aligned)

        go :
            (m' : Memory) × (write_save md bytes size p n free m ≡ (ok tt, m'))
              × Stores free_chain small md bytes size m m'
            → (m' : Memory) × (sat_write flags (some filename) (some md) (some bytes) size p m
                ≡ (ok tt, m'))
              × Stores free_chain small md bytes size m m'
        go (m', ran, s) = (
          m',
          passes (size == 0) Error.invalid_parameter _ m (ok tt, m') given
              (passes (p.block_size % min_block_size != 0) Error.invalid_parameter _ m (ok tt, m')
                aligned
                (passes (bad_skip p.skip_bytes) Error.invalid_parameter _ m (ok tt, m')
                  (skip_fits v) (writes m' ran))),
          s,
        )
