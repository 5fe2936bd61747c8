-- ===== src/Sat/Overwrite.antt =====
-- devices/sat/sat.c: `sat_write` over a save of the same name, against `sat_delete` and a new save.
use libslinga.Prelude.{ℕ, ◌%◌, ◌≤◌, ◌<◌, ◌≡◌, ◌≢◌, refl, arith, List, true, false, ◌==◌, ◌!=◌}
use libslinga.Prelude.{some, ok, err, Error, inl, inr, ap, ◌∙◌, sym}
use libslinga.Memory.{Memory}
use libslinga.Sat.Partition.{PartitionInfo}
use libslinga.Sat.Partition.Bytes.{memset_partition_lem}
use libslinga.Sat.Blocks.Layout.{IsPartition, block_address, skip_fits}
use libslinga.Sat.Header.{SaveMetadata}
use libslinga.Sat.Find.{find_save}
use libslinga.Sat.Find.Laws.{is_save, FirstSave, find_save-FirstSave}
use libslinga.Sat.Delete.{sat_delete}
use libslinga.Sat.Delete.Laws.{cleared, tag-Transfer, find_save-sat_delete}
use libslinga.Sat.Write.{may_overwrite, sat_write, write_checked}

module _ {p : PartitionInfo} (v : IsPartition p) (m : Memory) (filename : List ℕ) (b : ℕ)
    (lo : 2 ≤ b) (hi : b < v.count) (hit : is_save v m filename b ≡ true)
    (only : (c : ℕ) → 2 ≤ c → c < v.count → is_save v m filename c ≡ true → c ≡ b) where
  pub finds_it : find_save m (some filename) p ≡ ok (block_address p b)
  finds_it = by_first (find_save-FirstSave v m filename)
    where
      by_first :
          FirstSave v m filename 2 (find_save m (some filename) p)
          → find_save m (some filename) p ≡ ok (block_address p b)
      by_first (inl (c, e, lo', hi', hit', h)) =
          e ∙ ap (λ x. ok (block_address p x)) (only c lo' hi' hit')
      by_first (inr (e, h)) = cc (h b lo hi, hit)

  pub deletes_it : (sat_delete (some filename) p m).1 ≡ cleared v b m
  unfolding sat_delete
  deletes_it =
      rw
        (
          aligned,
          skip_fits v,
          finds_it,
          memset_partition_lem (block_address p b) 0 0 4 p.skip_bytes m (tag-Transfer v b),
        )
        refl
    where
      aligned : (p.block_size % 64 != 0) ≡ false
      aligned = ground (arith, v.aligned)

  gone : find_save (cleared v b m) (some filename) p ≡ err Error.not_found
  gone =
      ap (λ x. find_save x (some filename) p) (sym deletes_it)
      ∙ (find_save-sat_delete v m filename b lo hi hit only).1

  -- On a well-formed partition where block `b`, not one of the first two, is the only one that starts
  -- a save of the name: a write with OVERWRITE_EXISTING_SAVE of data that are not empty has the same
  -- outcome, and leaves the same memory, as `sat_delete` and then the write, with any flags.
  pub sat_write-sat_delete :
      (flags any_flags : ℕ) (metadata : SaveMetadata) (buffer : List ℕ) (size : ℕ)
      → size ≢ 0
      → may_overwrite flags ≡ true
      → sat_write flags (some filename) (some metadata) (some buffer) size p m
        ≡ sat_write any_flags
            (some filename)
            (some metadata)
            (some buffer)
            size
            p
            (sat_delete (some filename) p m).1
  unfolding sat_write write_checked
  sat_write-sat_delete flags any_flags metadata buffer size ne may =
      rw
        (
          given,
          aligned,
          skip_fits v,
          finds_it,
          may,
          memset_partition_lem (block_address p b) 0 0 4 p.skip_bytes m (tag-Transfer v b),
          deletes_it,
          gone,
        )
        refl
    where
      given : (size == 0) ≡ false
      given = ground arith

      aligned : (p.block_size % 64 != 0) ≡ false
      aligned = ground (arith, v.aligned)
