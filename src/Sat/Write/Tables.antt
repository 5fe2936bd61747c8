-- ===== src/Sat/Write/Tables.antt =====
-- devices/sat/sat.c: `write_block_indexes` stays within the free blocks.
use libslinga.Prelude.{ℕ, zero, suc, ◌+◌, ◌%◌, ◌≤◌, ◌<◌, ◌≡◌, refl, arith, true, ltb, leb, ◌==◌}
use libslinga.Prelude.{ok, diverge, Error, length, u32}
use libslinga.Prelude.Action.{lift}
use libslinga.Sat.Partition.{PartitionInfo, write_to_partition, memset_partition}
use libslinga.Sat.Blocks.{convert_block_index_to_address}
use libslinga.Sat.Blocks.Layout.{IsPartition, block_address}
use libslinga.Sat.Header.{short_bytes}
use libslinga.Sat.Bitmap.{Bitmap, is_set, get_next_block_bitmap}
use libslinga.Sat.Table.{adjusted_block_size}
use libslinga.Sat.Write.{WriteJob, IndexState, next_index, write_entries, open_block}
use libslinga.Sat.Write.{write_tables, write_block_indexes}
use libslinga.Sat.Write.Confined.{Confined, Any, Confined-bind, Confined-lift, Confined-pure}
use libslinga.Sat.Write.Confined.{Confined-guard, Confined-if}
use libslinga.Sat.Write.Room.{size_v, InFree, size_v-small, write-Confined, memset-Confined}
use libslinga.Sat.Write.Room.{address-Confined, next-Confined}

module _ {p : PartitionInfo} (v : IsPartition p) (free : Bitmap)
    (inside : (b : ℕ) → is_set free b ≡ true → b < v.count) where
  -- An offset at which a table entry can stand, or the end of the block.
  abbrev Fits : ℕ → Type 0
  Fits off = (off ≤ size_v v free) × (off % 2 ≡ 0)

  size_v-even : size_v v free % 2 ≡ 0
  size_v-even = omega (arith, v.valid_aligned)

  abbrev pub write_job : ℕ → ℕ → WriteJob
  write_job start n = record { save_start_block = start; num_blocks = n; bitmap = free; info = p }

  write_entries-Confined :
      (fuel start n b : ℕ) (st : IndexState)
      → is_set free b ≡ true
      → Fits st.offset
      → Confined
          (InFree v free)
          (λ (st' : IndexState). Fits st'.offset)
          (write_entries fuel (write_job start n) (block_address p b) st)
  unfolding write_entries
  write_entries-Confined zero start n b st hit fits = Confined-lift diverge (λ x e. cc e)
  write_entries-Confined (suc fuel) start n b st hit fits =
      Confined-if (ltb st.offset (adjusted_block_size p)) _ _
        (λ lt.
          Confined-bind
            (lift (
              next_index (write_job start n) st.highest_index_written
                (u32 (st.indexes_written + 1))))
            _ (Confined-lift {Good = Any} _ (λ x e. tt))
            λ x t.
              Confined-bind
                (write_to_partition (block_address p b) st.offset (short_bytes x.0) 2 p.skip_bytes)
                _ (write-Confined v free inside b st.offset 2 _ hit (room lt))
                λ t1 t2.
                  Confined-if (leb n (u32 (st.indexes_written + 1))) _ _
                    (λ done. Confined-pure _ (advanced lt))
                    (λ more.
                      write_entries-Confined fuel start n b
                        (record {
                          highest_index_written = x.1;
                          indexes_written = u32 (st.indexes_written + 1);
                          offset = u32 (st.offset + 2);
                        })
                        hit (advanced lt)))
        (λ ge. Confined-pure st fits)
    where
      room : ltb st.offset (size_v v free) ≡ true → st.offset + 2 ≤ size_v v free
      room lt = ground (arith, fits.1, size_v-even)

      advanced : ltb st.offset (size_v v free) ≡ true → Fits (u32 (st.offset + 2))
      advanced lt = (
        omega (arith, room lt, size_v-small v free inside),
        omega (arith, room lt, fits.1, size_v-small v free inside),
      )

  open_block-Confined :
      (start n b : ℕ)
      → is_set free b ≡ true
      → Confined (InFree v free) Fits (open_block (write_job start n) b (block_address p b))
  unfolding open_block
  open_block-Confined start n b hit =
      Confined-if (b == start) _ _ (λ first. Confined-pure 34 (omega (arith, v.wide), refl))
        (λ later.
          Confined-bind (memset_partition (block_address p b) 0 0 4 p.skip_bytes) _
            (memset-Confined v free inside b 0 4 hit (omega arith) (omega (arith, v.wide)))
            λ t1 t2. Confined-pure 4 (omega (arith, v.wide), refl))

  -- Where a table ends: a free block, and an offset in it.
  abbrev TableEnd : ℕ × IndexState → Type 0
  TableEnd x = (is_set free x.0 ≡ true) × Fits x.1.offset

  write_tables-Confined :
      (fuel start n cur : ℕ) (st : IndexState)
      → is_set free cur ≡ true
      → Fits st.offset
      → Confined (InFree v free) TableEnd (write_tables fuel (write_job start n) cur st)
  unfolding write_tables
  write_tables-Confined zero start n cur st hit fits = Confined-lift diverge (λ x e. cc e)
  write_tables-Confined (suc fuel) start n cur st hit fits =
      Confined-if (ltb st.indexes_written n) _ _
        (λ lt.
          Confined-bind (lift (convert_block_index_to_address cur p)) _
            (address-Confined v free inside cur hit)
            λ block at.
              Confined-bind (open_block (write_job start n) cur block) _
                (rw at (open_block-Confined start n cur hit))
                λ offset fits1.
                  Confined-bind
                    (write_entries (suc p.block_size) (write_job start n) block
                      (record st { offset = offset }))
                    _
                    (rw at (
                      write_entries-Confined (suc p.block_size) start n cur
                        (record st { offset = offset }) hit fits1))
                    λ st' fits2.
                      Confined-if (ltb st'.indexes_written n) _ _
                        (λ more.
                          Confined-bind (lift (get_next_block_bitmap cur free)) _
                            (next-Confined v free inside cur)
                            λ next hit'. write_tables-Confined fuel start n next st' hit' fits2)
                        (λ done. Confined-pure (cur, st') (hit, fits2)))
        (λ ge. Confined-pure (cur, st) (hit, fits))

  -- Where the data starts: a free block, and an offset in it.
  abbrev pub DataStart : ℕ × ℕ → Type 0
  DataStart x = (is_set free x.0 ≡ true) × (x.1 ≤ size_v v free)

  pub write_block_indexes-Confined :
      (start n : ℕ)
      → is_set free start ≡ true
      → Confined (InFree v free) DataStart (write_block_indexes (write_job start n))
  unfolding write_block_indexes
  write_block_indexes-Confined start n hit =
      Confined-bind (lift (ok (length free))) _ (Confined-lift {Good = Any} _ (λ x e. tt))
        λ bitmap_size t. Confined-guard (bitmap_size == 0) Error.invalid_parameter _ λ ne.
          Confined-guard (n == 0) Error.invalid_parameter _ λ ne'.
            Confined-bind (write_tables (suc n) (write_job start n) start opening) _
              (write_tables-Confined (suc n) start n start opening hit
                (omega (arith, v.wide), refl))
              λ x fits.
                Confined-if (x.1.offset == adjusted_block_size p) _ _
                  (λ full.
                    Confined-bind (lift (get_next_block_bitmap x.0 free)) _
                      (next-Confined v free inside x.0)
                      λ next hit'. Confined-pure (next, 4) (hit', omega (arith, v.wide)))
                  (λ room. Confined-pure (x.0, x.1.offset) (fits.0, fits.1.0))
    where
      opening : IndexState
      opening = record { highest_index_written = start; indexes_written = 0; offset = 34 }
