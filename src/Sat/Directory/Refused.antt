-- ===== src/Sat/Directory/Refused.antt =====
-- devices/sat/sat.c: the calls of `sat_write` and `sat_delete` that leave a directory as it is.
use libslinga.Prelude.{◌==◌, Bool-cases, false, ◌!=◌, ◌%◌, ℕ, ◌^◌, ◌≤◌, ◌≡◌, refl, arith, List}
use libslinga.Prelude.{some, ok, err, Error, ◌≢◌, ap, inl, inr}
use mathlib.Core.List.{Memᴰ}
use libslinga.Memory.{Memory}
use libslinga.Sat.Partition.{PartitionInfo}
use libslinga.Sat.Blocks.Layout.{IsPartition, skip_fits}
use libslinga.Sat.Header.{SaveMetadata}
use libslinga.Sat.Find.{find_save}
use libslinga.Sat.Find.Laws.{NoSave, FirstSave, find_save-FirstSave}
use libslinga.Sat.Write.{may_overwrite, sat_write, write_checked, free_blocks_for}
use libslinga.Sat.Blocks.{calc_num_blocks}
use libslinga.Sat.Delete.{sat_delete}
use libslinga.Sat.Write.Guards.{sat_write-file_exists}
use libslinga.Sat.Delete.Laws.{DeleteOutcome, sat_delete_lem}
use libslinga.Sat.Directory.{Save, Fresh, Held, Directory, starts_it, first_inside}

module _ {p : PartitionInfo} (v : IsPartition p) where
  pub not_found :
      (m : Memory) (filename : List ℕ)
      → NoSave v m filename 2 v.count
      → find_save m (some filename) p ≡ err Error.not_found
  not_found m filename none_there = by_first (find_save-FirstSave v m filename)
    where
      by_first :
          FirstSave v m filename 2 (find_save m (some filename) p)
          → find_save m (some filename) p ≡ err Error.not_found
      by_first (inl (b, e, lo, hi, hit, h)) = cc (hit, none_there b lo hi)
      by_first (inr (e, h)) = e

  module _ (small : v.count ≤ 2 ^ 16) where
    pub refused_same :
        {m : Memory} {saves : List Save}
        → Directory v m saves
        → (flags : ℕ) (md : SaveMetadata) (buffer : List ℕ) (size : ℕ) (old : Save) → Memᴰ old saves
        → size ≢ 0
        → may_overwrite flags ≡ false
        → (sat_write flags (some old.filename) (some md) (some buffer) size p m).1 ≡ m
    refused_same {m} d flags md buffer size old there ne may_not =
        ap (λ x. x.1)
          (sat_write-file_exists v m old.filename md buffer size flags (h.block 0) ne h.past_first
            (first_inside v small h) (starts_it v small h) may_not)
      where
        h : Held v m old
        h = d.held old there

    pub full_same :
        {m : Memory} {saves : List Save}
        → Directory v m saves
        → (flags : ℕ) (filename : List ℕ) (md : SaveMetadata) (buffer : List ℕ) (size n : ℕ)
        → Fresh filename saves
        → calc_num_blocks size p.block_size p.skip_bytes ≡ ok n
        → (e : Error) → free_blocks_for m p n ≡ err e
        → (sat_write flags (some filename) (some md) (some buffer) size p m).1 ≡ m
    unfolding sat_write write_checked
    full_same {m} d flags filename md buffer size n fresh blocks e no_space =
        elim (Bool-cases (size == 0)) [
          | inl empty ↦ rw empty refl
          | inr given ↦ rw (given, aligned, skip_fits v, absent, blocks, no_space) refl
        ]
      where
        aligned : (p.block_size % 64 != 0) ≡ false
        aligned = ground (arith, v.aligned)

        absent : find_save m (some filename) p ≡ err Error.not_found
        absent = not_found m filename (d.complete filename fresh)

    pub not_there_same :
        {m : Memory} {saves : List Save}
        → Directory v m saves
        → (filename : List ℕ) → Fresh filename saves
        → (sat_delete (some filename) p m).1 ≡ m
    not_there_same {m} d filename fresh = by_outcome (sat_delete_lem v m filename)
      where
        by_outcome :
            DeleteOutcome v m filename (sat_delete (some filename) p m)
            → (sat_delete (some filename) p m).1 ≡ m
        by_outcome (inl (b, lo, hi, hit, h, ran, change)) =
            cc (hit, d.complete filename fresh b lo hi)
        by_outcome (inr (none_there, same)) = ap (λ x. x.1) same
