-- ===== src/Sat/Write/Parts.antt =====
-- devices/sat/sat.c: `write_data` stays within the free blocks, and so does the whole write.
use libslinga.Prelude.{ℕ, zero, suc, ◌+◌, ◌≤◌, ◌<◌, ◌≡◌, arith, true, ltb, leb, ◌==◌, ◌||◌}
use libslinga.Prelude.{if◌then◌else◌, diverge, Error, length, List, u32, sub32, drop}
use libslinga.Prelude.Action.{lift}
use libslinga.Sat.Partition.{PartitionInfo, write_to_partition}
use libslinga.Sat.Blocks.{convert_block_index_to_address}
use libslinga.Sat.Blocks.Layout.{IsPartition}
use libslinga.Sat.Header.{SaveMetadata}
use libslinga.Sat.Bitmap.{Bitmap, is_set, get_next_block_bitmap}
use libslinga.Sat.Table.{adjusted_block_size}
use libslinga.Sat.Write.{write_header, write_block_indexes, DataJob, write_blocks, write_data}
use libslinga.Sat.Write.{write_save}
use libslinga.Sat.Write.Confined.{Confined, Any, Confined-bind, Confined-lift, Confined-pure}
use libslinga.Sat.Write.Confined.{Confined-guard, Confined-if}
use libslinga.Sat.Write.Room.{size_v, InFree, size_v-small, write-Confined, address-Confined}
use libslinga.Sat.Write.Room.{next-Confined, write_header-Confined}
use libslinga.Sat.Write.Tables.{write_job, write_block_indexes-Confined}

module _ {p : PartitionInfo} (v : IsPartition p) (free : Bitmap)
    (inside : (b : ℕ) → is_set free b ≡ true → b < v.count) where
  abbrev pub data_job : ℕ → ℕ → List ℕ → ℕ → DataJob
  data_job start offset bytes size = record {
    save_data_start_block = start;
    save_data_start_offset = offset;
    bytes = bytes;
    size = size;
    bitmap = free;
    info = p;
  }

  module _ (start offset size : ℕ) (bytes : List ℕ) (fits : offset ≤ size_v v free) where
    abbrev job : DataJob
    job = data_job start offset bytes size

    write_blocks-Confined :
        (fuel cur bytes_written : ℕ)
        → is_set free cur ≡ true
        → Confined (InFree v free) Any (write_blocks fuel job cur bytes_written)
    unfolding write_blocks
    write_blocks-Confined zero cur bytes_written hit = Confined-lift diverge (λ x e. cc e)
    write_blocks-Confined (suc fuel) cur bytes_written hit =
        Confined-if (ltb bytes_written size) _ _
          (λ lt.
            Confined-bind (lift (convert_block_index_to_address cur p)) _
              (address-Confined v free inside cur hit)
              λ block at.
                Confined-bind {Good = Any}
                  (write_to_partition block first (drop bytes_written bytes) count p.skip_bytes) _
                  (rw at (
                    write-Confined v free inside cur first count (drop bytes_written bytes) hit
                      room))
                  λ t1 t2.
                    Confined-if (leb (u32 (bytes_written + count)) size) _ _
                      (λ more.
                        Confined-bind (lift (get_next_block_bitmap cur free)) _
                          (next-Confined v free inside cur)
                          λ next hit'.
                            write_blocks-Confined fuel next (u32 (bytes_written + count)) hit')
                      (λ over. write_blocks-Confined fuel cur (u32 (bytes_written + count)) hit))
          (λ ge. Confined-pure tt tt)
      where
        first : ℕ
        first = if cur == start then offset else 4

        left : ℕ
        left = sub32 (adjusted_block_size p) first

        count : ℕ
        count = if ltb left (sub32 size bytes_written) then left else sub32 size bytes_written

        room : first + count ≤ size_v v free
        room = ground (arith, fits, v.wide, size_v-small v free inside)

  write_data-Confined :
      (start offset size : ℕ) (bytes : List ℕ)
      → is_set free start ≡ true
      → offset ≤ size_v v free
      → Confined (InFree v free) Any (write_data (data_job start offset bytes size))
  unfolding write_data
  write_data-Confined start offset size bytes hit fits =
      Confined-guard (length free == 0) Error.invalid_parameter _ λ e1.
        Confined-guard (p.partition_buf == 0 || p.partition_size == 0 || p.block_size == 0)
          Error.invalid_parameter _
          λ e2.
            Confined-guard (size == 0) Error.invalid_parameter _
              λ e3. write_blocks-Confined start offset size bytes fits (suc size) start 0 hit

  pub write_save-Confined :
      (metadata : SaveMetadata) (buffer : List ℕ) (size n : ℕ)
      → Confined (InFree v free) Any (write_save metadata buffer size p n free)
  unfolding write_save
  write_save-Confined metadata buffer size n =
      Confined-bind (lift (get_next_block_bitmap 0 free)) _ (next-Confined v free inside 0)
        λ start hit.
          Confined-bind (write_header start size metadata p) _
            (write_header-Confined v free inside start size metadata hit)
            λ t1 t2.
              Confined-bind (write_block_indexes (write_job v free inside start n)) _
                (write_block_indexes-Confined v free inside start n hit)
                λ x at. write_data-Confined x.0 x.1 size buffer at.0 at.1
