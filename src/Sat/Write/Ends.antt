-- ===== src/Sat/Write/Ends.antt =====
-- devices/sat/sat.c: `sat_write` ends, whatever the partition holds.
use libslinga.Sat.Blocks.Layout.{block_address, IsPartition, block_size-small}
use libslinga.Prelude.{◌-◌, ℕ, zero, suc, ◌+◌, ◌%◌, ◌^◌, ◌≤◌, ◌<◌, ◌≡◌, ◌≢◌, arith, true, ltb}
use libslinga.Prelude.{leb, List, drop, some, ◌==◌, ◌!=◌, ◌||◌, u32, sub32, if◌then◌else◌, ok}
use libslinga.Prelude.{diverge, Error, length, inl, inr, Bool-cases, sym, ◌∙◌, ok_injective}
use libslinga.Prelude.Action.{◌>>=◌, lift, query}
use libslinga.Prelude.Ends.{Ends, Ends-ok, Ends-err, Ends-bind, Ends-if, EndsWith, Any}
use libslinga.Prelude.Ends.{EndsWith-bind, EndsWith-lift, EndsWith-pure, EndsWith-guard}
use libslinga.Prelude.Ends.{EndsWith-if, Ends-known, Ends-past}
use native.Mathlib.Decide.{ℕ_discrete}
use libslinga.Memory.{Memory, Io}
use libslinga.Sat.Partition.Bytes.{memset_partition_lem}
use libslinga.Sat.Blocks.Count.{valid_size, LeastBlocks, Holds, calc_num_blocks-LeastBlocks}
use libslinga.Sat.Header.{header_bytes, sat_start_block_tag, SaveMetadata, short_bytes}
use libslinga.Sat.Find.{find_save}
use libslinga.Sat.Find.Laws.{header_at, FirstSave, find_save-FirstSave}
use libslinga.Sat.Delete.Laws.{cleared, tag-Transfer, cleared-Deletes}
use libslinga.Sat.Bitmap.Count.{size_of-le}
use libslinga.Sat.Table.Ends.{calc_num_blocks-Ends, to_address-Ends, get_next-Ends}
use libslinga.Sat.Walk.Ends.{free_blocks_for-Ends}
use libslinga.Sat.Write.Free.{free_blocks_for-FreeBlocks}
use libslinga.Sat.Write.{header_to_write, free_blocks_for, write_checked, sat_write}
use libslinga.Sat.Write.{may_overwrite, WriteJob, IndexState, next_index, write_entries}
use libslinga.Sat.Write.{open_block, write_tables, write_block_indexes, DataJob, write_blocks}
use libslinga.Sat.Write.{write_data, write_header, write_save}
use libslinga.Sat.Partition.{PartitionInfo, write_to_partition, memset_partition, bad_skip}
use libslinga.Sat.Blocks.{convert_block_index_to_address, calc_num_blocks, min_block_size}
use libslinga.Sat.Bitmap.{Bitmap, get_next_block_bitmap}
use libslinga.Sat.Table.{adjusted_block_size}

write_to_partition-EndsWith :
    (dst offset : ℕ) (src : List ℕ) (size skip : ℕ)
    → EndsWith (λ t. size ≢ 0) (write_to_partition dst offset src size skip)
unfolding write_to_partition
write_to_partition-EndsWith dst offset src size skip = record {
  ends = λ m d. ground (arith, d);
  good = λ m t e none_left. ground (arith, e, none_left);
}

memset_partition-EndsWith :
    (dst offset val size skip : ℕ) → EndsWith Any (memset_partition dst offset val size skip)
unfolding memset_partition
memset_partition-EndsWith dst offset val size skip = record {
  ends = λ m d. ground (arith, d);
  good = λ m t e. tt;
}

module _ (job : WriteJob) (given : length job.bitmap ≢ 0) where
  next_index-Ends : (highest count : ℕ) → Ends (next_index job highest count)
  unfolding next_index
  next_index-Ends highest count =
      Ends-if (count == job.num_blocks) _ _ (λ e. Ends-ok _)
        λ e.
          Ends-bind (get_next_block_bitmap highest job.bitmap) _
            (get_next-Ends highest job.bitmap given) (λ next e'. Ends-ok _)

  -- No entry is lost, and one is written if there is room for it.
  abbrev Counted : IndexState → IndexState → Type 0
  Counted st st' =
      (st.indexes_written ≤ st'.indexes_written)
      × (st.offset < adjusted_block_size job.info → st.indexes_written < st'.indexes_written)

  write_entries-EndsWith :
      (fuel block : ℕ) (st : IndexState)
      → adjusted_block_size job.info < fuel + st.offset
      → adjusted_block_size job.info < 2 ^ 31
      → 1 ≤ fuel
      → st.indexes_written < job.num_blocks
      → job.num_blocks < 2 ^ 32
      → EndsWith (Counted st) (write_entries fuel job block st)
  unfolding write_entries
  write_entries-EndsWith zero block st f small pos more fits = absurd (omega arith)
  write_entries-EndsWith (suc fuel) block st f small pos more fits =
      EndsWith-if (ltb st.offset (adjusted_block_size job.info)) _ _
        (λ lt.
          let count : ℕ = u32 (st.indexes_written + 1) in
          let counted : count ≡ st.indexes_written + 1 = omega arith in
          EndsWith-bind (lift (next_index job st.highest_index_written count)) _
            (EndsWith-lift (next_index job st.highest_index_written count)
              (next_index-Ends st.highest_index_written count))
            λ x e1.
              EndsWith-bind
                (write_to_partition block st.offset (short_bytes x.0) 2 job.info.skip_bytes) _
                (write_to_partition-EndsWith block st.offset (short_bytes x.0) 2
                  job.info.skip_bytes)
                λ t e2.
                  let st' : IndexState = record {
                    highest_index_written = x.1;
                    indexes_written = count;
                    offset = u32 (st.offset + 2);
                  } in
                  EndsWith-if (leb job.num_blocks count) _ _
                    (λ last.
                      EndsWith-pure st' (omega (arith, counted), λ h. omega (arith, counted)))
                    λ more'. weaker st st' (omega (arith, counted)) (
                      write_entries-EndsWith fuel block st' (ground (arith, lt)) small
                        (ground (arith, lt)) (ground (arith, more')) fits))
        (λ ge. EndsWith-pure st (omega arith, λ h. absurd (ground (arith, ge, h))))
    where
      weaker :
          (st st' : IndexState) {act : Io IndexState}
          → st.indexes_written < st'.indexes_written
          → EndsWith (Counted st') act
          → EndsWith (Counted st) act
      weaker st st' lt h = record {
        ends = h.ends;
        good =
            λ m x e. (omega (arith, (h.good m x e).0), λ inside. omega (arith, (h.good m x e).0));
      }

  open_block-EndsWith :
      (cur block : ℕ) → EndsWith (λ at. (1 ≤ at) × (at ≤ 34)) (open_block job cur block)
  unfolding open_block
  open_block-EndsWith cur block =
      EndsWith-if (cur == job.save_start_block) _ _
        (λ e. EndsWith-pure 34 (omega arith, omega arith))
        (λ e.
          EndsWith-bind (memset_partition block 0 0 4 job.info.skip_bytes) _
            (memset_partition-EndsWith block 0 0 4 job.info.skip_bytes)
            (λ t e'. EndsWith-pure 4 (omega arith, omega arith)))

  module _ (wide : 64 ≤ adjusted_block_size job.info)
      (within : adjusted_block_size job.info ≤ job.info.block_size)
      (small : adjusted_block_size job.info < 2 ^ 31) (fits : job.num_blocks < 2 ^ 32) where
    write_tables-EndsWith :
        (fuel cur : ℕ) (st : IndexState)
        → job.num_blocks < fuel + st.indexes_written
        → 1 ≤ fuel
        → EndsWith Any (write_tables fuel job cur st)
    unfolding write_tables
    write_tables-EndsWith zero cur st f pos = absurd (omega arith)
    write_tables-EndsWith (suc fuel) cur st f pos =
        EndsWith-if (ltb st.indexes_written job.num_blocks) _ _
          (λ more.
            EndsWith-bind (lift (convert_block_index_to_address cur job.info)) _
              (EndsWith-lift (convert_block_index_to_address cur job.info)
                (to_address-Ends cur job.info))
              λ block e1.
                EndsWith-bind (open_block job cur block) _ (open_block-EndsWith cur block)
                  λ at bounds.
                    EndsWith-bind
                      (write_entries (suc job.info.block_size) job block
                        (record st { offset = at }))
                      _
                      (write_entries-EndsWith (suc job.info.block_size) block
                        (record st { offset = at }) (omega (arith, bounds.0)) small (omega arith)
                        (ground (arith, more)) fits)
                      λ st' counted.
                        EndsWith-if (ltb st'.indexes_written job.num_blocks) _ _
                          (λ more'.
                            EndsWith-bind (lift (get_next_block_bitmap cur job.bitmap)) _
                              (EndsWith-lift (get_next_block_bitmap cur job.bitmap)
                                (get_next-Ends cur job.bitmap given))
                              λ next e2.
                                write_tables-EndsWith fuel next st'
                                  (omega (arith, counted.1 (omega (arith, bounds.1))))
                                  (ground (arith, more', counted.1 (omega (arith, bounds.1)))))
                          (λ done. EndsWith-pure (cur, st') tt))
          (λ done. EndsWith-pure (cur, st) tt)

    write_block_indexes-EndsWith : EndsWith Any (write_block_indexes job)
    unfolding write_block_indexes
    write_block_indexes-EndsWith =
        EndsWith-guard (length job.bitmap == 0) Error.invalid_parameter _ λ e1.
          EndsWith-guard (job.num_blocks == 0) Error.invalid_parameter _ λ e2.
            let opening : IndexState = record {
              highest_index_written = job.save_start_block;
              indexes_written = 0;
              offset = 34;
            } in
            EndsWith-bind (write_tables (suc job.num_blocks) job job.save_start_block opening) _
              (write_tables-EndsWith (suc job.num_blocks) job.save_start_block opening (omega arith)
                (omega arith))
              λ x t.
                EndsWith-if (x.1.offset == adjusted_block_size job.info) _ _
                  (λ full.
                    EndsWith-bind (lift (get_next_block_bitmap x.0 job.bitmap)) _
                      (EndsWith-lift (get_next_block_bitmap x.0 job.bitmap)
                        (get_next-Ends x.0 job.bitmap given))
                      (λ next e3. EndsWith-pure (next, 4) tt))
                  (λ room. EndsWith-pure (x.0, x.1.offset) tt)

module _ (job : DataJob) (given : length job.bitmap ≢ 0) (fits : job.size ≤ 2 ^ 30) where
  -- Every round writes a byte, or fails.
  write_blocks-EndsWith :
      (fuel cur written : ℕ)
      → job.size < fuel + written
      → 1 ≤ fuel
      → EndsWith Any (write_blocks fuel job cur written)
  unfolding write_blocks
  write_blocks-EndsWith zero cur written f pos = absurd (omega arith)
  write_blocks-EndsWith (suc fuel) cur written f pos =
      EndsWith-if (ltb written job.size) _ _
        (λ more.
          EndsWith-bind (lift (convert_block_index_to_address cur job.info)) _
            (EndsWith-lift (convert_block_index_to_address cur job.info)
              (to_address-Ends cur job.info))
            λ block e1.
              EndsWith-bind
                (write_to_partition block offset (drop written job.bytes) amount
                  job.info.skip_bytes)
                _
                (write_to_partition-EndsWith block offset (drop written job.bytes) amount
                  job.info.skip_bytes)
                λ t some_byte.
                  EndsWith-if (leb (u32 (written + amount)) job.size) _ _
                    (λ e2.
                      EndsWith-bind (lift (get_next_block_bitmap cur job.bitmap)) _
                        (EndsWith-lift (get_next_block_bitmap cur job.bitmap)
                          (get_next-Ends cur job.bitmap given))
                        λ next e3.
                          write_blocks-EndsWith fuel next (u32 (written + amount))
                            (omega (arith, grown more some_byte))
                            (omega (arith, grown more some_byte)))
                    (λ e2.
                      write_blocks-EndsWith fuel cur (u32 (written + amount))
                        (omega (arith, grown more some_byte))
                        (omega (arith, grown more some_byte))))
        (λ done. EndsWith-pure tt tt)
    where
      offset : ℕ
      offset = if cur == job.save_data_start_block then job.save_data_start_offset else 4

      left : ℕ
      left = sub32 job.size written

      room : ℕ
      room = sub32 (adjusted_block_size job.info) offset

      amount : ℕ
      amount = if ltb room left then room else left

      grown :
          ltb written job.size ≡ true
          → amount ≢ 0
          → (written < u32 (written + amount)) × (u32 (written + amount) ≤ job.size)
      grown more some_byte =
          (omega (arith, inside more, below more), omega (arith, inside more, below more))
        where
          below : ltb written job.size ≡ true → written < job.size
          below more = ground arith

          inside : ltb written job.size ≡ true → amount ≤ job.size - written
          inside more = ground arith

  write_data-EndsWith : EndsWith Any (write_data job)
  unfolding write_data
  write_data-EndsWith = EndsWith-guard (length job.bitmap == 0) Error.invalid_parameter _ λ e1.
      EndsWith-guard
        (job.info.partition_buf == 0 || job.info.partition_size == 0 || job.info.block_size == 0)
        Error.invalid_parameter _
        λ e2. EndsWith-guard (job.size == 0) Error.invalid_parameter _ λ e3.
          write_blocks-EndsWith (suc job.size) job.save_data_start_block 0 (omega arith)
            (omega arith)

module _ {p : PartitionInfo} (v : IsPartition p) where
  write_header-EndsWith :
      (b size : ℕ) (metadata : SaveMetadata) → EndsWith Any (write_header b size metadata p)
  unfolding write_header
  write_header-EndsWith b size metadata = EndsWith-guard (size == 0) Error.invalid_parameter _ λ e1.
      EndsWith-bind (lift (convert_block_index_to_address b p)) _
        (EndsWith-lift (convert_block_index_to_address b p) (to_address-Ends b p))
        λ start e2.
          let bytes : List ℕ = header_bytes (header_to_write metadata size) in
          record {
            ends = (write_to_partition-EndsWith start 0 bytes 34 p.skip_bytes).ends;
            good = λ m t e. tt;
          }

  write_save-EndsWith :
      (metadata : SaveMetadata) (buffer : List ℕ) (size n : ℕ) (free : Bitmap)
      → length free ≢ 0
      → size ≤ 2 ^ 30
      → n < 2 ^ 32
      → EndsWith Any (write_save metadata buffer size p n free)
  unfolding write_save
  write_save-EndsWith metadata buffer size n free given small fits =
      EndsWith-bind (lift (get_next_block_bitmap 0 free)) _
        (EndsWith-lift (get_next_block_bitmap 0 free) (get_next-Ends 0 free given))
        λ start e1.
          EndsWith-bind (write_header start size metadata p) _
            (write_header-EndsWith start size metadata)
            λ t1 t2.
              let index_job : WriteJob = record {
                save_start_block = start;
                num_blocks = n;
                bitmap = free;
                info = p;
              } in
              EndsWith-bind (write_block_indexes index_job) _
                (write_block_indexes-EndsWith index_job given v.wide adjusted
                  (omega (arith, adjusted, block_size-small v)) fits)
                λ x t3.
                  write_data-EndsWith
                    (record {
                      save_data_start_block = x.0;
                      save_data_start_offset = x.1;
                      bytes = buffer;
                      size = size;
                      bitmap = free;
                      info = p;
                    })
                    given small
    where
      adjusted : adjusted_block_size p ≤ p.block_size
      adjusted = ground arith

  -- The sizes that the headers of saves name are at most 2^30.
  abbrev pub SmallSizes : Memory → Type 0
  SmallSizes m =
      (b : ℕ)
      → 2 ≤ b
      → b < v.count
      → (header_at m p b).tag ≡ sat_start_block_tag
      → (header_at m p b).data_size ≤ 2 ^ 30

  -- What follows the old save's removal.
  abbrev fill_blocks : SaveMetadata → List ℕ → ℕ → Io (Unit {0})
  fill_blocks metadata buffer size = lift (calc_num_blocks size p.block_size p.skip_bytes) >>= λ n.
      query (λ m. free_blocks_for m p n) >>= λ free. write_save metadata buffer size p n free

  module _ (metadata : SaveMetadata) (buffer : List ℕ) (size : ℕ) (fits : size ≤ 2 ^ 30)
      (positive : size ≢ 0) where
    blocks_bounds :
        (n : ℕ) → calc_num_blocks size p.block_size p.skip_bytes ≡ ok n → (1 ≤ n) × (n < 2 ^ 32)
    blocks_bounds n ran = found (
        calc_num_blocks-LeastBlocks size p.block_size p.skip_bytes positive fits v.good_skip
          v.valid_aligned (omega (arith, v.wide)) (ground (arith, block_size-small v)))
      where
        found :
            LeastBlocks size
              (valid_size p.block_size p.skip_bytes - 4)
              (calc_num_blocks size p.block_size p.skip_bytes)
            → (1 ≤ n) × (n < 2 ^ 32)
        found (k, e, holds, least) = (
          some_block k holds (ok_injective (sym ran ∙ e)),
          omega (arith, ok_injective (sym ran ∙ e), least (size + 1) (grind (arith, v.wide))),
        )
          where
            some_block :
                (k : ℕ) → Holds size (valid_size p.block_size p.skip_bytes - 4) k → n ≡ k → 1 ≤ n
            some_block zero h same = absurd (omega arith)
            some_block (suc k) h same = omega arith

    fill_blocks-Ends : (m : Memory) → SmallSizes m → Ends (fill_blocks metadata buffer size m).0
    fill_blocks-Ends m sizes =
        Ends-known (calc_num_blocks size p.block_size p.skip_bytes) _ m
          (calc_num_blocks-Ends v m size fits)
          λ n e1.
            Ends-known (free_blocks_for m p n) _ m (free_blocks_for-Ends v m sizes n) λ free e2.
              (write_save-EndsWith metadata buffer size n free
                  (omega (
                    arith,
                    (free_blocks_for-FreeBlocks v m n free e2).enough,
                    size_of-le free,
                    (blocks_bounds n e1).0,
                  ))
                  fits (blocks_bounds n e1).1).ends
                m

  removed-SmallSizes : (m : Memory) (b : ℕ) → SmallSizes m → SmallSizes (cleared v b m)
  removed-SmallSizes m b sizes c lo hi tag = elim (ℕ_discrete c b) [
    | yes same ↦ absurd (omega (arith, (cleared-Deletes v b m).no_tag, rw same at tag))
    | no other ↦
        let kept = (cleared-Deletes v b m).other_headers c other in
        rw kept (sizes c lo hi (rw kept at tag))
  ]

  module _ (flags : ℕ) (filename : List ℕ) (metadata : SaveMetadata) (buffer : List ℕ) (size : ℕ)
      (fits : size ≤ 2 ^ 30) (m : Memory) (sizes : SmallSizes m) where
    write_checked-Ends :
        size ≢ 0
        → FirstSave v m filename 2 (find_save m (some filename) p)
        → Ends (write_checked flags filename metadata buffer size p m).0
    unfolding write_checked
    write_checked-Ends ne (inl (b, e, lo, hi, hit, h)) = elim (Bool-cases (may_overwrite flags)) [
      | inl may ↦
          rw
            (
              e,
              may,
              memset_partition_lem (block_address p b) 0 0 4 p.skip_bytes m (tag-Transfer v b),
            )
            (fill_blocks-Ends metadata buffer size fits ne (cleared v b m)
              (removed-SmallSizes m b sizes))
      | inr may_not ↦ rw (e, may_not) (Ends-err Error.file_exists)
    ]
    write_checked-Ends ne (inr (e, h)) =
        rw e (fill_blocks-Ends metadata buffer size fits ne m sizes)

    -- On a well-formed partition `sat_write` of at most 2^30 bytes ends, whatever the memory holds and
    -- whatever its other arguments, so long as no header with the start tag says that its save has
    -- more than 2^30 bytes.
    pub sat_write-Ends :
        (sat_write flags (some filename) (some metadata) (some buffer) size p m).0 ≢ diverge
    unfolding sat_write
    sat_write-Ends = Ends-past (size == 0) Error.invalid_parameter _ m λ e1.
        Ends-past (p.block_size % min_block_size != 0) Error.invalid_parameter _ m λ e2.
          Ends-past (bad_skip p.skip_bytes) Error.invalid_parameter _ m
            λ e3. write_checked-Ends (ground (arith, e1)) (find_save-FirstSave v m filename)
