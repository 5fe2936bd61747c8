-- ===== src/Sat/Write.antt =====
-- devices/sat/sat.c, "Write saves": `write_header`, `write_block_indexes`, `write_data`, `sat_write`.
pub mod Header
pub mod Free
pub mod Confined
pub mod Room
pub mod Tables
pub mod Parts
pub mod Safe
pub mod Ends
pub mod Guards
use libslinga.Prelude.{ℕ, zero, suc, ◌+◌, ◌%◌, List, Bool, ◌||◌, ◌==◌, ◌!=◌, ltb, leb}
use libslinga.Prelude.{if◌then◌else◌, u32, u16, sub32, Result, ok, err, diverge, Error, not}
use libslinga.Prelude.{Option, some, length, drop, bit_and}
use libslinga.Prelude
use libslinga.Prelude.Action.{◌>>=◌, ◌>>◌, lift, query, reject}
use libslinga.Memory.{Memory, Io}
use libslinga.Sat.Partition.{PartitionInfo, bad_skip, write_to_partition, memset_partition}
use libslinga.Sat.Bitmap.{Bitmap, get_bitmap_size, sat_max_bitmap, clear_bitmap, invert_bitmap}
use libslinga.Sat.Bitmap.{count_bitmap, get_next_block_bitmap}
use libslinga.Sat.Blocks.{min_block_size, tag_size, header_size, calc_num_blocks}
use libslinga.Sat.Blocks.{convert_block_index_to_address}
use libslinga.Sat.Header.{SaveMetadata, StartBlockHeader, metadata_to_header, header_bytes}
use libslinga.Sat.Header.{short_bytes}
use libslinga.Sat.Find.{find_save}
use libslinga.Sat.Table.{adjusted_block_size}
use libslinga.Sat.Walk.{walk_partition_bitmap}

-- The header that is written: the size is that of the data, whatever the metadata says.
abbrev pub header_to_write : SaveMetadata → ℕ → StartBlockHeader
header_to_write metadata size = let h = metadata_to_header metadata in record h { data_size = size }

unfoldable pub write_header : ℕ → ℕ → SaveMetadata → PartitionInfo → Io (Unit {0})
write_header save_start_block size metadata p = do
  reject (size == 0) Error.invalid_parameter
  save_start ← lift (convert_block_index_to_address save_start_block p)
  write_to_partition save_start 0 (header_bytes (header_to_write metadata size)) header_size
      p.skip_bytes

-- What stays the same while a save is written.
pub record WriteJob : Type 0 where
  pub save_start_block : ℕ
  pub num_blocks : ℕ
  pub bitmap : Bitmap
  pub info : PartitionInfo

-- `highest_index_written`, `indexes_written` and `offset`
pub record IndexState : Type 0 where
  pub highest_index_written : ℕ
  pub indexes_written : ℕ
  pub offset : ℕ

-- The index to write, and the new `highest_index_written`: 0 ends the table.
unfoldable pub next_index : WriteJob → ℕ → ℕ → Result (ℕ × ℕ)
next_index job highest indexes_written =
    if indexes_written == job.num_blocks
    then ok (0, highest)
    else Prelude.◌>>=◌ (get_next_block_bitmap highest job.bitmap) (λ next. ok (u16 next, u16 next))

-- for(; offset < adjusted_block_size; offset += 2)
unfoldable pub write_entries : ℕ → WriteJob → ℕ → IndexState → Io IndexState
unfolding next_index
write_entries zero job block st = lift diverge
write_entries (suc fuel) job block st =
    let again = write_entries fuel job block in
    let entry : Io IndexState = (do
      let indexes_written = u32 (st.indexes_written + 1)
      (index, highest) ← lift (next_index job st.highest_index_written indexes_written)
      write_to_partition block st.offset (short_bytes index) 2 job.info.skip_bytes
      let st' : IndexState = record {
        highest_index_written = highest;
        indexes_written = indexes_written;
        offset = u32 (st.offset + 2);
      }
      if leb job.num_blocks indexes_written then lift (ok st') else again st') in
    if ltb st.offset (adjusted_block_size job.info) then entry else lift (ok st)

-- Where the entries of a block begin; a block other than the first gets its tag cleared.
unfoldable pub open_block : WriteJob → ℕ → ℕ → Io ℕ
open_block job cur block =
    if cur == job.save_start_block
    then lift (ok header_size)
    else (memset_partition block 0 0 tag_size job.info.skip_bytes >> lift (ok tag_size))

-- while(indexes_written < num_blocks): the block written last, and the final state
unfoldable pub write_tables : ℕ → WriteJob → ℕ → IndexState → Io (ℕ × IndexState)
unfolding write_entries open_block
write_tables zero job cur st = lift diverge
write_tables (suc fuel) job cur st =
    let again = write_tables fuel job in
    let table : Io (ℕ × IndexState) = (do
      block ← lift (convert_block_index_to_address cur job.info)
      offset ← open_block job cur block
      st' ← write_entries (suc job.info.block_size) job block (record st { offset = offset })
      let next_block : Io (ℕ × IndexState) =
          (lift (get_next_block_bitmap cur job.bitmap) >>= λ next. again next st')
      if ltb st'.indexes_written job.num_blocks then next_block else lift (ok (cur, st'))) in
    if ltb st.indexes_written job.num_blocks then table else lift (ok (cur, st))

-- The block and the offset where the data starts. Each round of the loop writes an entry, so
-- `num_blocks + 1` rounds are enough.
unfoldable pub write_block_indexes : WriteJob → Io (ℕ × ℕ)
unfolding write_tables
write_block_indexes job = do
  bitmap_size ← lift (ok (length job.bitmap))
  reject (bitmap_size == 0) Error.invalid_parameter
  reject (job.num_blocks == 0) Error.invalid_parameter
  (cur, st) ← write_tables (suc job.num_blocks) job job.save_start_block (record {
    highest_index_written = job.save_start_block;
    indexes_written = 0;
    offset = header_size;
  })
  let full : Io (ℕ × ℕ) =
      (lift (get_next_block_bitmap cur job.bitmap) >>= λ next. lift (ok (next, tag_size)))
  if st.offset == adjusted_block_size job.info then full else lift (ok (cur, st.offset))

-- What stays the same while the data is written.
pub record DataJob : Type 0 where
  pub save_data_start_block : ℕ
  pub save_data_start_offset : ℕ
  pub bytes : List ℕ
  pub size : ℕ
  pub bitmap : Bitmap
  pub info : PartitionInfo

-- while(bytes_written < size). The test behind the copy, `bytes_written <= size`, always holds, so
-- a next block is looked for after the last one too.
unfoldable pub write_blocks : ℕ → DataJob → ℕ → ℕ → Io (Unit {0})
write_blocks zero job cur bytes_written = lift diverge
write_blocks (suc fuel) job cur bytes_written =
    let again = write_blocks fuel job in
    let block_data : Io (Unit {0}) = (do
      block ← lift (convert_block_index_to_address cur job.info)
      let offset = if cur == job.save_data_start_block then job.save_data_start_offset else tag_size
      let bytes_left = sub32 job.size bytes_written
      let room = sub32 (adjusted_block_size job.info) offset
      let bytes_to_write = if ltb room bytes_left then room else bytes_left
      write_to_partition block offset (drop bytes_written job.bytes) bytes_to_write
          job.info.skip_bytes
      let written = u32 (bytes_written + bytes_to_write)
      let next_block : Io (Unit {0}) =
          (lift (get_next_block_bitmap cur job.bitmap) >>= λ next. again next written)
      if leb written job.size then next_block else again cur written) in
    if ltb bytes_written job.size then block_data else lift (ok tt)

-- Each round writes a byte or fails, so `size + 1` rounds are enough.
unfoldable pub write_data : DataJob → Io (Unit {0})
unfolding write_blocks
write_data job = do
  reject (length job.bitmap == 0) Error.invalid_parameter
  reject (job.info.partition_buf == 0 || job.info.partition_size == 0 || job.info.block_size == 0)
      Error.invalid_parameter
  reject (job.size == 0) Error.invalid_parameter
  write_blocks (suc job.size) job job.save_data_start_block 0

-- `flags & OVERWRITE_EXISTING_SAVE`, which is 1 << 1
abbrev pub may_overwrite : ℕ → Bool
may_overwrite flags = bit_and flags 2 != 0

-- What follows `find_save`: a save that is there is refused or deleted; any failure goes on.
unfoldable pub clear_old_save : ℕ → PartitionInfo → Result ℕ → Io (Unit {0})
clear_old_save flags p (ok save_start) = do
  reject (not (may_overwrite flags)) Error.file_exists
  memset_partition save_start 0 0 tag_size p.skip_bytes
clear_old_save flags p (err e) = lift (ok tt)
clear_old_save flags p diverge = lift diverge

-- The free blocks of the partition, as a bitmap, if they are at least `blocks_needed`.
unfoldable pub free_blocks_for : Memory → PartitionInfo → ℕ → Result Bitmap
free_blocks_for m p blocks_needed = Prelude.◌>>=◌ (get_bitmap_size p sat_max_bitmap) λ bitmap_size.
    Prelude.◌>>=◌ (walk_partition_bitmap m (clear_bitmap bitmap_size) p) λ busy.
      Prelude.◌>>=◌ (invert_bitmap busy) λ free.
        Prelude.◌>>=◌ (count_bitmap free) λ free_blocks.
          if ltb free_blocks blocks_needed then err Error.not_enough_space else ok free

-- The three parts of a save, written into free blocks.
unfoldable pub write_save : SaveMetadata → List ℕ → ℕ → PartitionInfo → ℕ → Bitmap → Io (Unit {0})
unfolding write_header write_block_indexes write_data
write_save metadata buffer size p blocks_needed free = do
  save_start_block ← lift (get_next_block_bitmap 0 free)
  write_header save_start_block size metadata p
  (start_block, start_offset) ← write_block_indexes (record {
    save_start_block = save_start_block;
    num_blocks = blocks_needed;
    bitmap = free;
    info = p;
  })
  write_data (record {
    save_data_start_block = start_block;
    save_data_start_offset = start_offset;
    bytes = buffer;
    size = size;
    bitmap = free;
    info = p;
  })

-- Past the checks of the arguments.
unfoldable pub write_checked :
    ℕ → List ℕ → SaveMetadata → List ℕ → ℕ → PartitionInfo → Io (Unit {0})
unfolding clear_old_save free_blocks_for write_save
write_checked flags filename metadata buffer size p = do
  found ← query (λ m. ok (find_save m (some filename) p))
  clear_old_save flags p found
  blocks_needed ← lift (calc_num_blocks size p.block_size p.skip_bytes)
  free ← query (λ m. free_blocks_for m p blocks_needed)
  write_save metadata buffer size p blocks_needed free

-- `none` is a NULL pointer.
unfoldable pub sat_write :
    ℕ → Option (List ℕ) → Option SaveMetadata → Option (List ℕ) → ℕ → PartitionInfo → Io (Unit {0})
unfolding write_checked
sat_write flags (some filename) (some metadata) (some buffer) size p = do
  reject (size == 0) Error.invalid_parameter
  reject (p.block_size % min_block_size != 0) Error.invalid_parameter
  reject (bad_skip p.skip_bytes) Error.invalid_parameter
  write_checked flags filename metadata buffer size p
sat_write flags _ _ _ size p = lift (err Error.invalid_parameter)
