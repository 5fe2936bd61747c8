-- ===== src/Sat/Read.antt =====
-- devices/sat/sat.c: `read_save_from_sat_table`, `read_save_and_metadata` and its wrappers.
-- The bytes copied so far stand for the start of the caller's buffer, `bytes_written` being their
-- number: each copy goes right behind the last one.
pub mod Query
pub mod Ends
use libslinga.Prelude.{ℕ, zero, suc, ◌+◌, ◌-◌, ◌*◌, List, [], ◌++◌, ◌||◌, ◌&&◌, ◌==◌, not, ltb}
use libslinga.Prelude.{if◌then◌else◌, u32, sub32, Result, ok, err, diverge, Error, length, Option}
use libslinga.Prelude.{none, some, ◌>>=◌, ◌>>◌, reject}
use libslinga.Memory.{Memory}
use libslinga.Sat.Partition.{PartitionInfo, read_from_partition}
use libslinga.Sat.Bitmap.{Bitmap, get_next_block_bitmap, get_bitmap_size, sat_max_bitmap}
use libslinga.Sat.Bitmap.{clear_bitmap}
use libslinga.Sat.Blocks.{convert_block_index_to_address, tag_size, header_size}
use libslinga.Sat.Header.{SaveMetadata, read_header, copy_metadata, short_at}
use libslinga.Sat.Find.{find_save, outside}
use libslinga.Sat.Table.{read_sat_table, adjusted_block_size}

-- What stays the same in the loop.
pub record ReadJob : Type 0 where
  pub size : ℕ
  pub start_block : ℕ
  pub start_data_block : ℕ
  pub bitmap : Bitmap
  pub info : PartitionInfo

abbrev pub block_data_size : PartitionInfo → ℕ
block_data_size p = sub32 (adjusted_block_size p) tag_size

-- for(i = offset; i < block_data_size; i += 2): behind the terminator, or `start` if there is none.
unfoldable pub skip_entries : ℕ → Memory → PartitionInfo → ℕ → ℕ → ℕ → Result ℕ
skip_entries zero m p block start i = diverge
skip_entries (suc fuel) m p block start i =
    let rest = skip_entries fuel m p block start (u32 (i + 2)) in
    let entry = λ (raw : List ℕ). if short_at raw 0 == 0 then ok (u32 (i + 2)) else rest in
    if ltb i (block_data_size p)
    then (read_from_partition m block (u32 (i + tag_size)) 2 p.skip_bytes >>= entry)
    else ok start

-- A block of data alone.
unfoldable pub read_plain_block : Memory → ReadJob → ℕ → List ℕ → Result (List ℕ)
read_plain_block m job block out = do
  let left = sub32 job.size (length out)
  let bytes_to_copy = if ltb left (block_data_size job.info) then left else block_data_size job.info
  bytes ← read_from_partition m block tag_size bytes_to_copy job.info.skip_bytes
  ok (out ++ bytes)

-- Where the data starts: a block, its address and an offset into it.
abbrev pub DataStart : Type 0
DataStart = ℕ × ℕ × ℕ

-- The table's terminator fills its block, so the data starts in the next one. `none` is the `break`
-- when there is none; after any other failure `cur_sat_block` is as before.
unfoldable pub past_block : PartitionInfo → ℕ → Result ℕ → Result (Option DataStart)
past_block p cur (ok next) = do
  address ← convert_block_index_to_address next p
  ok (some (next, address, 0))
past_block p cur (err Error.not_found) = ok none
past_block p cur (err e) = do
  address ← convert_block_index_to_address cur p
  ok (some (cur, address, 0))
past_block p cur diverge = diverge

unfoldable pub data_start_at : ReadJob → ℕ → ℕ → ℕ → Result (Option DataStart)
unfolding past_block
data_start_at job cur block offset =
    if offset == block_data_size job.info
    then past_block job.info cur (get_next_block_bitmap cur job.bitmap)
    else ok (some (cur, block, offset))

-- The data behind the table, from `offset` in the block on; the result has the new
-- `cur_sat_block`.
unfoldable pub copy_first_data :
    Memory → ReadJob → List ℕ → Option DataStart → Result (Option ℕ × List ℕ)
copy_first_data m job out none = ok (none, out)
copy_first_data m job out (some (cur, block, offset)) = do
  let bds = block_data_size job.info
  let left = sub32 job.size (length out)
  let bytes_to_copy = if ltb left (sub32 bds offset) then left else sub32 bds offset
  reject (ltb bds bytes_to_copy) Error.sat_invalid_size
  reject (ltb job.size (u32 (length out + bytes_to_copy))) Error.sat_invalid_size
  bytes ← read_from_partition m block (u32 (offset + tag_size)) bytes_to_copy job.info.skip_bytes
  ok (some cur, out ++ bytes)

-- The block that ends the table.
unfoldable pub read_first_block : Memory → ReadJob → ℕ → ℕ → List ℕ → Result (Option ℕ × List ℕ)
unfolding skip_entries data_start_at copy_first_data
read_first_block m job cur block out = do
  let start = if cur == job.start_block then header_size - tag_size else 0
  offset ← skip_entries (suc (block_data_size job.info)) m job.info block start start
  at ← data_start_at job cur block offset
  copy_first_data m job out at

-- One round up to the look for the next block: `cur_sat_block`, `none` if the loop is left.
unfoldable pub read_block : Memory → ReadJob → ℕ → List ℕ → Result (Option ℕ × List ℕ)
unfolding read_plain_block read_first_block
read_block m job cur out = do
  block ← convert_block_index_to_address cur job.info
  reject (outside job.info block) Error.sat_invalid_partition
  if not (cur == job.start_block) && not (cur == job.start_data_block)
      then (read_plain_block m job block out >>= λ out'. ok (some cur, out'))
      else if cur == job.start_data_block
      then read_first_block m job cur block out
      else ok (some cur, out)

-- The look for the next block: on to it, or out of the loop.
unfoldable pub read_on : (ℕ → List ℕ → Result (List ℕ)) → List ℕ → Result ℕ → Result (List ℕ)
read_on again out (ok next) = again next out
read_on again out (err Error.not_found) = ok out
read_on again out (err e) = err e
read_on again out diverge = diverge

unfoldable pub read_next :
    (ℕ → List ℕ → Result (List ℕ)) → Bitmap → Option ℕ × List ℕ → Result (List ℕ)
unfolding read_on
read_next again bitmap (none, out) = ok out
read_next again bitmap (some cur, out) = read_on again out (get_next_block_bitmap cur bitmap)

-- while(1)
unfoldable pub read_blocks : ℕ → Memory → ReadJob → ℕ → List ℕ → Result (List ℕ)
unfolding read_block read_next
read_blocks zero m job cur out = diverge
read_blocks (suc fuel) m job cur out =
    let again = read_blocks fuel m job in read_block m job cur out >>= read_next again job.bitmap

-- The bytes read; `bytes_read` is their number. The block index grows in each round, so
-- `8 * bitmap_size + 1` rounds are enough.
unfoldable pub read_save_from_sat_table : Memory → ReadJob → Result (List ℕ)
unfolding read_blocks
read_save_from_sat_table m job = do
  reject (job.size == 0 || job.start_block == 0 || job.start_data_block == 0)
      Error.invalid_parameter
  reject (length job.bitmap == 0) Error.invalid_parameter
  reject (not (job.info.skip_bytes == 0) && not (job.info.skip_bytes == 1)) Error.invalid_parameter
  out ← read_blocks (suc (8 * length job.bitmap)) m job job.start_data_block []
  if length out == job.size then ok out else err Error.sat_invalid_read_size

-- `if(buffer) { .. }`: the data of the save at `save_start`.
unfoldable pub read_data : Memory → PartitionInfo → ℕ → ℕ → ℕ → Result (List ℕ)
unfolding read_save_from_sat_table
read_data m p save_start save_size size = do
  reject (ltb save_size size) Error.buffer_too_small
  bitmap_size ← get_bitmap_size p sat_max_bitmap
  let (r, s) =
      read_sat_table m p save_start (record {
        bitmap = clear_bitmap bitmap_size;
        start_data_block = 0;
        written_sat_entries = 0;
      })
  start_block ← r
  read_save_from_sat_table m (record {
    size = size;
    start_block = start_block;
    start_data_block = s.start_data_block;
    bitmap = s.bitmap;
    info = p;
  })

-- sat_query_file: `metadata` is wanted and `buffer` is NULL.
unfoldable pub sat_query_file :
    Memory → Option (List ℕ) → PartitionInfo → SaveMetadata → Result SaveMetadata
sat_query_file m filename p metadata = do
  save_start ← find_save m filename p
  header ← read_header m save_start p.skip_bytes
  copy_metadata metadata m save_start p.skip_bytes

-- sat_read: `buffer`, of `size` bytes, is wanted and `metadata` is NULL.
unfoldable pub sat_read : Memory → Option (List ℕ) → ℕ → PartitionInfo → Result (List ℕ)
unfolding read_data
sat_read m filename size p = do
  save_start ← find_save m filename p
  header ← read_header m save_start p.skip_bytes
  read_data m p save_start header.data_size size
