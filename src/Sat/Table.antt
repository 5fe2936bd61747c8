-- ===== src/Sat/Table.antt =====
-- devices/sat/sat.c, "SAT table": following a save's table of block indices into a bitmap.
pub mod Grows
pub mod Marks
pub mod Ends
use libslinga.Prelude.{ℕ, zero, suc, ◌+◌, ◌*◌, ◌/◌, ◌%◌, List, ◌||◌, ◌==◌, ◌!=◌, ltb, leb}
use libslinga.Prelude.{if◌then◌else◌, u32, Result, ok, err, diverge, Error, length}
use libslinga.Prelude.Action.{Action, ◌>>=◌, ◌>>◌, lift, query, update, reject}
use libslinga.Memory.{Memory}
use libslinga.Sat.Partition.{PartitionInfo, read_from_partition}
use libslinga.Sat.Bitmap.{Bitmap, set_bitmap, get_next_block_bitmap, count_bitmap}
use libslinga.Sat.Blocks.{calc_num_blocks, convert_address_to_block_index, min_block_size}
use libslinga.Sat.Blocks.{convert_block_index_to_address, header_size, tag_size}
use libslinga.Sat.Header.{read_header, short_at, sat_start_block_tag, sat_continue_block_tag}
use libslinga.Sat.Header.{StartBlockHeader}
use libslinga.Sat.Find.{outside}

-- What the table readers update through their pointers, on failure too.
pub record TableState : Type 0 where
  pub bitmap : Bitmap
  pub start_data_block : ℕ
  pub written_sat_entries : ℕ

-- `block_size`, or half of it where every other byte is valid
abbrev pub adjusted_block_size : PartitionInfo → ℕ
adjusted_block_size p = if p.skip_bytes == 1 then p.block_size / 2 else p.block_size

-- `set_bitmap(index, ..)` and `*written_sat_entries += 1`
unfoldable pub record_entry : ℕ → Action TableState (Unit {0})
record_entry index = do
  bitmap ← query (λ s. set_bitmap index s.bitmap)
  update (λ s. record s { bitmap = bitmap; written_sat_entries = u32 (s.written_sat_entries + 1) })

-- for(; start_byte < adjusted_block_size; start_byte += 2)
unfoldable pub read_entries : ℕ → Memory → PartitionInfo → ℕ → ℕ → ℕ → Action TableState (Unit {0})
read_entries zero m p block_index block start_byte = lift diverge
read_entries (suc fuel) m p block_index block start_byte =
    let rest = read_entries fuel m p block_index block (u32 (start_byte + 2)) in
    let entry = λ (raw : List ℕ).
      let index = short_at raw 0 in
      if index == 0
      then update (λ s. record s { start_data_block = block_index })
      else if leb index block_index
      then lift (err Error.sat_blocks_out_of_order)
      else (record_entry index >> rest) in
    if ltb start_byte (adjusted_block_size p)
    then (lift (read_from_partition m block start_byte 2 p.skip_bytes) >>= entry)
    else lift (err Error.more_data_available)

-- The first byte after the tag, or after the whole header in the save's first block.
unfoldable pub first_entry_byte : ℕ → ℕ → StartBlockHeader → Result ℕ
first_entry_byte block_index start_block h =
    if block_index == start_block
    then (if h.tag == sat_start_block_tag then ok header_size else err Error.sat_invalid_tag)
    else if h.tag == sat_continue_block_tag
    then ok tag_size
    else err Error.sat_invalid_tag

unfoldable pub read_sat_table_from_block :
    Memory → ℕ → PartitionInfo → ℕ → Action TableState (Unit {0})
unfolding read_entries first_entry_byte record_entry
read_sat_table_from_block m block_index p start_block = do
  bitmap_size ← query (λ s. ok (length s.bitmap))
  reject (block_index == 0 || bitmap_size == 0 || start_block == 0) Error.invalid_parameter
  reject (p.block_size % min_block_size != 0) Error.invalid_parameter
  reject (p.partition_size % p.block_size != 0) Error.invalid_parameter
  block ← lift (convert_block_index_to_address block_index p)
  reject (outside p block) Error.sat_invalid_partition
  header ← lift (read_header m block p.skip_bytes)
  start_byte ← lift (first_entry_byte block_index start_block header)
  read_entries (suc p.block_size) m p block_index block start_byte

-- `count_bitmap` after the loop, against the number of blocks that the save's size asks for
unfoldable pub check_count : ℕ → Action TableState (Unit {0})
check_count num_sat_blocks = do
  bitmap_count ← query (λ s. count_bitmap s.bitmap)
  reject (bitmap_count != num_sat_blocks) Error.sat_invalid_partition

-- What follows a look for the next block: on to it, or out of the loop.
unfoldable pub table_next :
    (ℕ → Action TableState (Unit {0})) → ℕ → Result ℕ → Action TableState (Unit {0})
table_next again num_sat_blocks (ok cur) = again cur
table_next again num_sat_blocks (err Error.not_found) = check_count num_sat_blocks
table_next again num_sat_blocks (err e) = lift (err e)
table_next again num_sat_blocks diverge = lift diverge

-- What follows the reading of a block: the end, if it held the terminator. Any other outcome, a
-- failure too, goes on with the next block of the bitmap.
unfoldable pub table_step :
    (ℕ → Action TableState (Unit {0})) → ℕ → ℕ → Result (Unit {0}) → Action TableState (Unit {0})
table_step again num_sat_blocks cur (ok t) s = (ok tt, s)
table_step again num_sat_blocks cur (err e) s =
    table_next again num_sat_blocks (get_next_block_bitmap cur s.bitmap) s
table_step again num_sat_blocks cur diverge s = (diverge, s)

-- do { .. } while(1)
unfoldable pub walk_table : ℕ → Memory → PartitionInfo → ℕ → ℕ → ℕ → Action TableState (Unit {0})
walk_table zero m p start_block num_sat_blocks cur s = (diverge, s)
walk_table (suc fuel) m p start_block num_sat_blocks cur s =
    let again = walk_table fuel m p start_block num_sat_blocks in
    let (r, s') = read_sat_table_from_block m cur p start_block s in
    if ltb num_sat_blocks s.written_sat_entries
    then (err Error.sat_too_many_blocks, s)
    else table_step again num_sat_blocks cur r s'

-- The result is the first block of the save; the state holds the rest. The block index grows in
-- each round, so `8 * bitmap_size + 1` rounds are enough.
unfoldable pub read_sat_table : Memory → PartitionInfo → ℕ → Action TableState ℕ
unfolding walk_table table_step table_next check_count read_sat_table_from_block
read_sat_table m p save_start = do
  bitmap_size ← query (λ s. ok (length s.bitmap))
  reject (save_start == 0 || bitmap_size == 0) Error.invalid_parameter
  reject (p.block_size % min_block_size != 0) Error.invalid_parameter
  reject (p.partition_size % p.block_size != 0) Error.invalid_parameter
  header ← lift (read_header m save_start p.skip_bytes)
  num_sat_blocks ← lift (calc_num_blocks header.data_size p.block_size p.skip_bytes)
  reject (ltb (u32 (bitmap_size * 8)) num_sat_blocks) Error.sat_save_out_of_range
  start_block ← lift (convert_address_to_block_index save_start p)
  bitmap ← query (λ s. set_bitmap start_block s.bitmap)
  update (λ s. record s { bitmap = bitmap; written_sat_entries = 1 })
  walk_table (suc (8 * bitmap_size)) m p start_block num_sat_blocks start_block
  lift (ok start_block)
