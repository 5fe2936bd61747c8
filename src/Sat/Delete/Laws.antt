-- ===== src/Sat/Delete/Laws.antt =====
-- devices/sat/sat.c: what `sat_delete` does to the saves of a partition.
use libslinga.Prelude.{ℕ, ◌%◌, ◌≤◌, ◌<◌, ◌≡◌, ◌≢◌, ◌⊎◌, refl, arith, true, false, ◌!=◌, List}
use libslinga.Prelude.{some, Result, ok, err, Error, inl, inr, ap}
use native.Mathlib.Decide.{ℕ_discrete}
use libslinga.Memory.{Memory}
use libslinga.Sat.Partition.{PartitionInfo}
use libslinga.Sat.Partition.Bytes.{byte_address, fill, Transfer, memset_partition_lem}
use libslinga.Sat.Partition.Laws.{Misses, fill_miss, fill_hit0, view_cong}
use libslinga.Sat.Blocks.Layout.{blocks_apart, IsPartition, block_address, skip_fits}
use libslinga.Sat.Header.{header_of_bytes}
use libslinga.Sat.Find.{starts_save, find_save}
use libslinga.Sat.Find.Laws.{header_at, tag-header_at, is_save, NoSave, FirstSave}
use libslinga.Sat.Find.Laws.{find_save-FirstSave}
use libslinga.Sat.Delete.{sat_delete}

module _ {p : PartitionInfo} (v : IsPartition p) where
  pub tag-Transfer : (b : ℕ) → Transfer (block_address p b) 0 4 p.skip_bytes
  tag-Transfer b = record {
    not_null = omega (arith, v.not_null);
    not_empty = omega arith;
    good_skip = v.good_skip;
    in_range = omega arith;
  }

  abbrev pub cleared : ℕ → Memory → Memory
  cleared b m = fill (block_address p b) p.skip_bytes 0 (λ k. 0) 0 4 m

  -- Block `b` has lost its tag, and nothing else has changed.
  pub record Deletes (b : ℕ) (m m' : Memory) : Type 0 where
    pub no_tag : (header_at m' p b).tag ≡ 0
    pub other_headers : (c : ℕ) → c ≢ b → header_at m' p c ≡ header_at m p c
    pub others : (a : ℕ) → Misses (block_address p b) p.skip_bytes 0 4 a → m' a ≡ m a

  pub cleared-Deletes : (b : ℕ) (m : Memory) → Deletes b m (cleared b m)
  cleared-Deletes b m = record {
    no_tag =
        rw
          (
            tag-header_at (cleared b m) p b,
            zero_at 0 (omega arith),
            zero_at 1 (omega arith),
            zero_at 2 (omega arith),
            zero_at 3 (omega arith),
          )
          refl;
    other_headers = λ c ne. ap header_of_bytes (
        view_cong (cleared b m) m (block_address p c) p.skip_bytes 0 34 (λ j lo hi.
          fill_miss (block_address p b) p.skip_bytes 0 (λ k. 0) 0 4 m _
            (λ k lo' hi'.
              blocks_apart v c b j k ne (omega (arith, v.wide)) (omega (arith, v.wide)))));
    others = λ a o.
        fill_miss (block_address p b) p.skip_bytes 0 (λ k. 0) 0 4 m a
          (λ k lo hi. o k (omega arith) (omega arith));
  }
    where
      zero_at : (k : ℕ) → k < 4 → cleared b m (byte_address (block_address p b) p.skip_bytes k) ≡ 0
      zero_at k h = fill_hit0 (block_address p b) p.skip_bytes (λ j. 0) 4 m k h

  module _ (m : Memory) (filename : List ℕ) where
    -- What `sat_delete` does, by what is on the partition.
    abbrev pub DeleteOutcome : Result (Unit {0}) × Memory → Type 0
    DeleteOutcome out =
        ((b : ℕ) × (2 ≤ b)
          × (b < v.count)
          × (is_save v m filename b ≡ true)
          × NoSave v m filename 2 b
          × (out.0 ≡ ok tt)
          × Deletes b m out.1)
        ⊎ (NoSave v m filename 2 v.count × (out ≡ (err Error.not_found, m)))

    -- On a well-formed partition `sat_delete` clears the tag of the first save of the name and
    -- changes no other address and no other block's header; without such a save it says
    -- SLINGA_NOT_FOUND and changes nothing.
    pub sat_delete_lem : DeleteOutcome (sat_delete (some filename) p m)
    unfolding sat_delete
    sat_delete_lem = by_case (find_save-FirstSave v m filename)
      where
        aligned' : (p.block_size % 64 != 0) ≡ false
        aligned' = ground (arith, v.aligned)

        by_case :
            FirstSave v m filename 2 (find_save m (some filename) p)
            → DeleteOutcome (sat_delete (some filename) p m)
        by_case (inl (b, e, lo, hi, hit, h)) =
            rw
              (
                aligned',
                skip_fits v,
                e,
                memset_partition_lem (block_address p b) 0 0 4 p.skip_bytes m (tag-Transfer b),
              )
              (inl (b, lo, hi, hit, h, refl, cleared-Deletes b m))
        by_case (inr (e, h)) = rw (aligned', skip_fits v, e) (inr (h, refl))

-- On a well-formed partition where block `b`, not one of the first two, is the only one that
-- starts a save of the name, `sat_delete` succeeds, and then `find_save` says SLINGA_NOT_FOUND.
pub find_save-sat_delete :
    {p : PartitionInfo} (v : IsPartition p) (m : Memory) (filename : List ℕ) (b : ℕ)
    → 2 ≤ b
    → b < v.count
    → is_save v m filename b ≡ true
    → ((c : ℕ) → 2 ≤ c → c < v.count → is_save v m filename c ≡ true → c ≡ b)
    → let (r, m') = sat_delete (some filename) p m in
      (r ≡ ok tt) × (find_save m' (some filename) p ≡ err Error.not_found)
find_save-sat_delete {p} v m filename b lo hi hit only = by_outcome (sat_delete_lem v m filename)
  where
    absent :
        (m' : Memory)
        → Deletes v b m m'
        → FirstSave v m' filename 2 (find_save m' (some filename) p)
        → find_save m' (some filename) p ≡ err Error.not_found
    absent m' d (inl (c, e, lo', hi', hit', h)) = elim (ℕ_discrete c b) [
      | yes same ↦ absurd (untagged (rw same at hit'))
      | no other ↦ absurd (other (only c lo' hi' (rw (d.other_headers c other) at hit')))
    ]
      where
        untagged : is_save v m' filename b ≡ true → ⊥
        untagged = unfold starts_save in λ t. ground (arith, d.no_tag)
    absent m' d (inr (e, h)) = e

    by_outcome :
        DeleteOutcome v m filename (sat_delete (some filename) p m)
        → let (r, m') = sat_delete (some filename) p m in
          (r ≡ ok tt) × (find_save m' (some filename) p ≡ err Error.not_found)
    by_outcome (inl (c, lo', hi', hit', h, ran, d)) =
        (ran, absent _ (rw (only c lo' hi' hit') at d) (find_save-FirstSave v _ filename))
    by_outcome (inr (none_there, same)) = cc (none_there b lo hi, hit)
