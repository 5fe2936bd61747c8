-- ===== src/Sat/Kept.antt =====
-- devices/sat/sat.c: the data of other saves after `sat_write`.
use libslinga.Prelude.{sym, ℕ, ◌+◌, ◌*◌, ◌/◌, ◌%◌, ◌^◌, ◌≤◌, ◌<◌, ◌≡◌, ◌≢◌, refl, arith, List}
use libslinga.Prelude.{Bool, true, false, ok, err, diverge, Error, length, inl, inr, Result, ◌==◌}
use libslinga.Prelude.{◌!=◌, Bool-cases, ◌∙◌, ap, some}
use libslinga.Sat.Bitmap.{clear_bitmap, Bitmap, is_set}
use libslinga.Prelude.Action.{◌>>=◌, ◌>>◌, lift, query, reject}
use native.Mathlib.Decide.{ℕ_discrete, dec_lt}
use native.Mathlib.Nat.{mul-le-mul_right}
use libslinga.Memory.{Memory, Io}
use libslinga.Sat.Partition.{PartitionInfo, bad_skip}
use libslinga.Sat.Partition.Bytes.{byte_address, memset_partition_lem}
use libslinga.Sat.Partition.Laws.{view_cong}
use libslinga.Sat.Blocks.{calc_num_blocks, min_block_size}
use libslinga.Sat.Blocks.Count.{valid_size}
use libslinga.Sat.Blocks.Layout.{IsPartition, block_address, blocks_apart}
use libslinga.Sat.Bitmap.Laws.{length-clear_bitmap, is_set-lt}
use libslinga.Sat.Header.{SaveMetadata, metadata_to_header, header_of_bytes}
use libslinga.Sat.Find.{find_save}
use libslinga.Sat.Find.Laws.{is_save, FirstSave, find_save-FirstSave}
use libslinga.Sat.Delete.Laws.{cleared, tag-Transfer, cleared-Deletes}
use libslinga.Sat.Walk.Busy.{Covers, Added}
use libslinga.Sat.Write.{may_overwrite, free_blocks_for, sat_write, write_checked, write_save}
use libslinga.Sat.Write.Free.{free_blocks_for-FreeBlocks, free_blocks_for-NotBusy}
use libslinga.Sat.Write.Parts.{write_save-Confined}
use libslinga.Sat.Stream.{Chain, room}
use libslinga.Sat.Stream.Save.{Stored}
use libslinga.Sat.Stream.Taken.{add_save-AllTaken}

module _ {p : PartitionInfo} {v : IsPartition p} {bitmap : Bitmap} {block : ℕ → ℕ} {n : ℕ}
    (c : Chain v bitmap block n) (small : v.count ≤ 2 ^ 16) (md : SaveMetadata) (bytes : List ℕ)
    (size : ℕ) (holds : 30 + 2 * n + size ≤ n * room v block) where
  -- The valid bytes of the save's blocks are the same.
  abbrev pub SameBlocks : Memory → Memory → Type 0
  SameBlocks m m' =
      (j k : ℕ)
      → j < n
      → k < valid_size p.block_size p.skip_bytes
      → m' (byte_address (block_address p (block j)) p.skip_bytes k)
        ≡ m (byte_address (block_address p (block j)) p.skip_bytes k)

  position_below : (q : ℕ) → q * room v block < 30 + 2 * n + size → q < n
  position_below q h = elim (dec_lt q n) [
    | yes lt ↦ lt
    | no ge ↦ absurd (omega (arith, mul-le-mul_right {m = n} {n = q} (room v block) (omega arith)))
  ]

  some_block : 0 < n
  some_block = ground (arith, holds)

  pub Stored-same :
      {m m' : Memory}
      → SameBlocks m m'
      → Stored v block n md bytes size m
      → Stored v block n md bytes size m'
  Stored-same {m} {m'} same stored = record {
    header =
        ap header_of_bytes (
          view_cong m' m (block_address p (block 0)) p.skip_bytes 0 34
            (λ k lo hi. same 0 k some_block (omega (arith, v.wide))))
        ∙ stored.header;
    stream = λ q r hq hr lo hi.
        same q (4 + r) (position_below q (omega arith)) (omega (arith, v.wide))
        ∙ stored.stream q r hq hr lo hi;
    untagged = λ j i pos h hi.
        same j i (position_below j (omega arith)) (omega (arith, v.wide))
        ∙ stored.untagged j i pos h hi;
  }

  module _ (sized : length bitmap ≡ v.count / 8) (one_table : 30 + 2 * n ≤ room v block)
      (blocks : calc_num_blocks size p.block_size p.skip_bytes ≡ ok n) (past_first : 2 ≤ block 0)
      (positive : size ≢ 0) where
    -- No block of the save is taken for free.
    kept_busy :
        (m : Memory) (busy : Bitmap)
        → Stored v block n md bytes size m
        → Covers v m (clear_bitmap (v.count / 8)) busy
        → (j : ℕ) → j < n
        → is_set busy (block j) ≡ true
    unfolding metadata_to_header
    kept_busy m busy stored covers j h = added (
        covers.added (block 0) past_first (c.inside 0 (omega arith))
          (ap (λ x. x.tag) stored.header))
      where
        added : Added v m (block 0) (clear_bitmap (v.count / 8)) busy → is_set busy (block j) ≡ true
        added a =
            let taken =
              add_save-AllTaken c small md bytes size (omega arith) stored sized one_table a.before
                a.after a.bytes (a.same_size ∙ length-clear_bitmap (v.count / 8) ∙ sym sized)
                (omega (arith, sized)) blocks a.ran in
            a.grows.keeps (block j) (omega (arith, is_set-lt a.after (block j) (taken.all j h)))
              (taken.all j h)

    write_free-same :
        (metadata : SaveMetadata) (buffer : List ℕ) (new_size k : ℕ) (m : Memory)
        → Stored v block n md bytes size m
        → SameBlocks m
            ((query (λ m. free_blocks_for m p k) >>= λ free.
                write_save metadata buffer new_size p k free)
              m).1
    write_free-same metadata buffer new_size k m stored = go (free_blocks_for m p k) refl
      where
        go :
            (r : Result Bitmap)
            → free_blocks_for m p k ≡ r
            → SameBlocks m
                ((query (λ m. free_blocks_for m p k) >>= λ free.
                    write_save metadata buffer new_size p k free)
                  m).1
        go (ok free) e = rw e (λ j i hj hi.
            let f = free_blocks_for-FreeBlocks v m k free e in
            (write_save-Confined v free f.inside metadata buffer new_size k).elsewhere m _ (λ at.
              elim (ℕ_discrete at.0 (block j)) [
                | yes same ↦
                    busy_there (free_blocks_for-NotBusy v m k free e) j hj (rw same at at.2)
                | no other ↦ blocks_apart v (block j) at.0 i at.1 (λ q. other (sym q)) hi at.3 at.4
              ]))
          where
            busy_there :
                (busy : Bitmap) × Covers v m (clear_bitmap (v.count / 8)) busy
                  × ((b : ℕ) → is_set free b ≡ true → is_set busy b ≡ false)
                → (j : ℕ) → j < n
                → is_set free (block j) ≡ true
                → ⊥
            busy_there (busy, covers, apart) j hj hit =
                cc (apart (block j) hit, kept_busy m busy stored covers j hj)
        go (err code) e = rw e (λ j i hj hi. refl)
        go diverge e = rw e (λ j i hj hi. refl)

    -- What follows the old save's removal.
    abbrev fill_blocks : SaveMetadata → List ℕ → ℕ → Io (Unit {0})
    fill_blocks metadata buffer new_size =
        lift (calc_num_blocks new_size p.block_size p.skip_bytes) >>= λ k.
        query (λ m. free_blocks_for m p k) >>= λ free. write_save metadata buffer new_size p k free

    fill_blocks-same :
        (metadata : SaveMetadata) (buffer : List ℕ) (new_size : ℕ) (m : Memory)
        → Stored v block n md bytes size m
        → SameBlocks m (fill_blocks metadata buffer new_size m).1
    fill_blocks-same metadata buffer new_size m stored =
        go (calc_num_blocks new_size p.block_size p.skip_bytes) refl
      where
        go :
            (r : Result ℕ)
            → calc_num_blocks new_size p.block_size p.skip_bytes ≡ r
            → SameBlocks m (fill_blocks metadata buffer new_size m).1
        go (ok k) e = rw e (write_free-same metadata buffer new_size k m stored)
        go (err code) e = rw e (λ j i hj hi. refl)
        go diverge e = rw e (λ j i hj hi. refl)

    guard-same :
        (bad : Bool) (e : Error) (act : Io (Unit {0})) (m : Memory)
        → SameBlocks m (act m).1
        → SameBlocks m ((reject bad e >> act) m).1
    guard-same true e act m after = λ j i hj hi. refl
    guard-same false e act m after = after

    module _ (flags : ℕ) (filename : List ℕ) (metadata : SaveMetadata) (buffer : List ℕ)
        (new_size : ℕ) (m : Memory) (stored : Stored v block n md bytes size m)
        (other : (j : ℕ) → j < n → is_save v m filename (block j) ≡ false) where
      removed-same : (b : ℕ) → is_save v m filename b ≡ true → SameBlocks m (cleared v b m)
      removed-same b hit j i hj hi = (cleared-Deletes v b m).others _ (λ k lo hi'.
          blocks_apart v (block j) b i k (λ same. cc (hit, other j hj, same)) hi
            (omega (arith, v.wide)))

      write_checked-same :
          FirstSave v m filename 2 (find_save m (some filename) p)
          → SameBlocks m (write_checked flags filename metadata buffer new_size p m).1
      unfolding write_checked
      write_checked-same (inl (b, e, lo, hi, hit, h)) = elim (Bool-cases (may_overwrite flags)) [
        | inl may ↦
            rw
              (
                e,
                may,
                memset_partition_lem (block_address p b) 0 0 4 p.skip_bytes m (tag-Transfer v b),
              )
              (λ j i hj hi'.
                fill_blocks-same metadata buffer new_size (cleared v b m)
                  (Stored-same (removed-same b hit) stored) j i hj hi'
                ∙ removed-same b hit j i hj hi')
        | inr may_not ↦ rw (e, may_not) (λ j i hj hi'. refl)
      ]
      write_checked-same (inr (e, h)) = rw e (fill_blocks-same metadata buffer new_size m stored)

      pub sat_write-same :
          SameBlocks m
            (sat_write flags (some filename) (some metadata) (some buffer) new_size p m).1
      unfolding sat_write
      sat_write-same = guard-same (new_size == 0) Error.invalid_parameter _ m (
          guard-same (p.block_size % min_block_size != 0) Error.invalid_parameter _ m (
            guard-same (bad_skip p.skip_bytes) Error.invalid_parameter _ m
              (write_checked-same (find_save-FirstSave v m filename))))
