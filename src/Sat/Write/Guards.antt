-- ===== src/Sat/Write/Guards.antt =====
-- devices/sat/sat.c: what `sat_write` does about a save of the same name.
use libslinga.Prelude.{ℕ, ◌%◌, ◌≤◌, ◌<◌, ◌≡◌, ◌≢◌, refl, arith, List, true, false, ◌==◌, ◌!=◌}
use libslinga.Prelude.{some, ok, err, Error, inl, inr, ap, ◌∙◌}
use native.Mathlib.Decide.{dec_lt, ℕ_discrete}
use libslinga.Memory.{Memory}
use libslinga.Sat.Partition.{PartitionInfo}
use libslinga.Sat.Partition.Bytes.{memset_partition_lem}
use libslinga.Sat.Blocks.{calc_num_blocks}
use libslinga.Sat.Blocks.Layout.{IsPartition, block_address, skip_fits}
use libslinga.Sat.Header.{SaveMetadata}
use libslinga.Sat.Find.{find_save}
use libslinga.Sat.Find.Laws.{is_save, NoSave, FirstSave, find_save-FirstSave}
use libslinga.Sat.Delete.Laws.{cleared, tag-Transfer, Deletes, cleared-Deletes}
use libslinga.Sat.Write.{may_overwrite, free_blocks_for, sat_write}

module _ {p : PartitionInfo} (v : IsPartition p) (m : Memory) (filename : List ℕ)
    (metadata : SaveMetadata) (buffer : List ℕ) (size flags : ℕ) where
  given : size ≢ 0 → (size == 0) ≡ false
  given h = ground arith

  aligned : (p.block_size % 64 != 0) ≡ false
  aligned = ground (arith, v.aligned)

  -- On a well-formed partition where any block but the first two starts a save of the name, a write
  -- without OVERWRITE_EXISTING_SAVE says SLINGA_FILE_EXISTS and changes nothing.
  pub sat_write-file_exists :
      (b : ℕ)
      → size ≢ 0
      → 2 ≤ b
      → b < v.count
      → is_save v m filename b ≡ true
      → may_overwrite flags ≡ false
      → sat_write flags (some filename) (some metadata) (some buffer) size p m
        ≡ (err Error.file_exists, m)
  unfolding sat_write
  sat_write-file_exists b ne lo hi hit keep = by_case (find_save-FirstSave v m filename)
    where
      by_case :
          FirstSave v m filename 2 (find_save m (some filename) p)
          → sat_write flags (some filename) (some metadata) (some buffer) size p m
            ≡ (err Error.file_exists, m)
      by_case (inl (c, e, lo', hi', hit', h)) = rw (given ne, aligned, skip_fits v, e, keep) refl
      by_case (inr (e, h)) = cc (h b lo hi, hit)

  -- What becomes of the old save: its tag is cleared before the space is counted.
  abbrev pub LosesOld : ℕ → ℕ → Type 0
  LosesOld b n =
      (m' : Memory) × Deletes v b m m'
      × ((e : Error)
          → free_blocks_for m' p n ≡ err e
          → sat_write flags (some filename) (some metadata) (some buffer) size p m ≡ (err e, m'))

  -- On a well-formed partition with an old save of the name, a write with OVERWRITE_EXISTING_SAVE
  -- deletes the old save, and nothing else, before it counts the free blocks: when the count fails,
  -- as with SLINGA_NOT_ENOUGH_SPACE, the write fails with that error and the old save is gone.
  pub sat_write-LosesOld :
      (b n : ℕ)
      → size ≢ 0
      → 2 ≤ b
      → b < v.count
      → is_save v m filename b ≡ true
      → NoSave v m filename 2 b
      → may_overwrite flags ≡ true
      → calc_num_blocks size p.block_size p.skip_bytes ≡ ok n
      → LosesOld b n
  unfolding sat_write
  sat_write-LosesOld b n ne lo hi hit first may blocks = by_case (find_save-FirstSave v m filename)
    where
      found :
          (c : ℕ)
          → find_save m (some filename) p ≡ ok (block_address p c)
          → 2 ≤ c
          → is_save v m filename c ≡ true
          → NoSave v m filename 2 c
          → find_save m (some filename) p ≡ ok (block_address p b)
      found c e lo' hit' h = elim (ℕ_discrete c b) [
        | yes same ↦ e ∙ ap (λ k. ok (block_address p k)) same
        | no other ↦ elim (dec_lt c b) [
          | yes before ↦ cc (first c lo' before, hit')
          | no after ↦ cc (h b lo (omega arith), hit)
        ]
      ]

      by_case : FirstSave v m filename 2 (find_save m (some filename) p) → LosesOld b n
      by_case (inl (c, e, lo', hi', hit', h)) = (
        cleared v b m,
        cleared-Deletes v b m,
        λ code full.
            rw
              (
                given ne,
                aligned,
                skip_fits v,
                found c e lo' hit' h,
                may,
                memset_partition_lem (block_address p b) 0 0 4 p.skip_bytes m (tag-Transfer v b),
                blocks,
                full,
              )
              refl,
      )
      by_case (inr (e, h)) = cc (h b lo hi, hit)
