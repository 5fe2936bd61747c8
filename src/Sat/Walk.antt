-- ===== src/Sat/Walk.antt =====
-- devices/sat/sat.c: `walk_partition`, `walk_partition_bitmap` and the wrappers of the first.
pub mod Empty
pub mod Busy
pub mod Ends
pub mod Used
use libslinga.Prelude.{ℕ, zero, suc, ◌+◌, ◌*◌, ◌%◌, List, Bool, ◌||◌, ◌==◌, ◌!=◌, ltb, leb}
use libslinga.Prelude.{if◌then◌else◌, u32, Result, ok, err, diverge, Error, length, get_or, set}
use libslinga.Prelude.{Option, none, some, ◌>>=◌, ◌>>◌, reject, replicate}
use libslinga.Memory.{Memory}
use libslinga.Sat.Partition.{PartitionInfo, read_from_partition}
use libslinga.Sat.Bitmap.{Bitmap, set_bitmap}
use libslinga.Sat.Blocks.{calc_num_blocks, tag_size}
use libslinga.Sat.Header.{StartBlockHeader, SaveMetadata, read_header, copy_metadata, word_at}
use libslinga.Sat.Header.{sat_start_block_tag}
use libslinga.Sat.Find.{outside}
use libslinga.Sat.Table.{read_sat_table}

-- The loop's variables. `saves` is the caller's array, `none` for NULL.
pub record WalkState : Type 0 where
  pub saves : Option (List SaveMetadata)
  pub saves_found : ℕ
  pub blocks_found : ℕ

-- `SAVE_METADATA` with every byte zero, as for an array that holds nothing.
abbrev pub blank_metadata : SaveMetadata
blank_metadata = record {
  filename = replicate 33 0;
  savename = replicate 13 0;
  comment = replicate 13 0;
  language = 0;
  timestamp = 0;
  data_size = 0;
  block_size = 0;
}

-- `if(saves) { .. }`: room for one more, and its metadata.
unfoldable pub list_save :
    Memory
    → PartitionInfo
    → ℕ
    → ℕ
    → ℕ
    → Option (List SaveMetadata)
    → Result (Option (List SaveMetadata))
list_save m p num_saves block saves_found none = ok none
list_save m p num_saves block saves_found (some saves) = do
  reject (leb num_saves saves_found) Error.buffer_too_small
  metadata ← copy_metadata (get_or saves saves_found blank_metadata) m block p.skip_bytes
  ok (some (set saves saves_found metadata))

-- A failure of `calc_num_blocks` is reported as a bad partition.
unfoldable pub blocks_or_invalid : Result ℕ → Result ℕ
blocks_or_invalid (ok n) = ok n
blocks_or_invalid (err e) = err Error.sat_invalid_partition
blocks_or_invalid diverge = diverge

-- The body of the loop at a block whose header has been read.
unfoldable pub visit_block :
    Memory → PartitionInfo → ℕ → ℕ → WalkState → StartBlockHeader → Result WalkState
unfolding list_save blocks_or_invalid
visit_block m p num_saves block s h =
    let visited : Result WalkState = (do
      save_blocks ← blocks_or_invalid (calc_num_blocks h.data_size p.block_size p.skip_bytes)
      saves ← list_save m p num_saves block s.saves_found s.saves
      ok (record {
        saves = saves;
        saves_found = u32 (s.saves_found + 1);
        blocks_found = u32 (s.blocks_found + save_blocks);
      })) in
    if h.tag == sat_start_block_tag then visited else ok s

unfoldable pub walk_from : ℕ → Memory → PartitionInfo → ℕ → ℕ → WalkState → Result WalkState
walk_from zero m p num_saves i s = diverge
walk_from (suc fuel) m p num_saves i s =
    let block = p.partition_buf + i in
    let visit : Result WalkState = (do
      h ← read_header m block p.skip_bytes
      s' ← visit_block m p num_saves block s h
      walk_from fuel m p num_saves (u32 (i + p.block_size)) s') in
    if ltb i p.partition_size
    then (if outside p block then err Error.sat_invalid_partition else visit)
    else ok s

-- `block_size > partition_size || partition_size % block_size != 0`
abbrev pub bad_blocks : PartitionInfo → Bool
bad_blocks p = ltb p.partition_size p.block_size || p.partition_size % p.block_size != 0

-- The final state has `*saves_available` and `*used_blocks`.
unfoldable pub walk_partition :
    Memory → PartitionInfo → Option (List SaveMetadata) → ℕ → Result WalkState
unfolding walk_from visit_block
walk_partition m p saves num_saves = do
  reject (bad_blocks p) Error.invalid_parameter
  walk_from (suc p.partition_size) m p num_saves (u32 (2 * p.block_size))
      (record { saves = saves; saves_found = 0; blocks_found = 0 })

unfoldable pub sat_get_used_blocks : Memory → PartitionInfo → Result ℕ
unfolding walk_partition
sat_get_used_blocks m p = do s ← walk_partition m p none 0; ok s.blocks_found

unfoldable pub sat_list_saves :
    Memory → PartitionInfo → Option (List SaveMetadata) → ℕ → Result WalkState
unfolding walk_partition
sat_list_saves m p saves num_saves = walk_partition m p saves num_saves

-- The bitmap after one save's table.
unfoldable pub add_save : Memory → PartitionInfo → ℕ → Bitmap → Result Bitmap
add_save m p block bitmap =
    let (r, s) =
      read_sat_table m p block
        (record { bitmap = bitmap; start_data_block = 0; written_sat_entries = 0 }) in
    (r >>= λ _. ok s.bitmap)

unfoldable pub walk_bitmap_from : ℕ → Memory → PartitionInfo → ℕ → Bitmap → Result Bitmap
unfolding add_save
walk_bitmap_from zero m p i bitmap = diverge
walk_bitmap_from (suc fuel) m p i bitmap =
    let block = p.partition_buf + i in
    let visit : Result Bitmap = (do
      raw ← read_from_partition m block 0 tag_size p.skip_bytes
      bitmap' ←
          if word_at raw 0 == sat_start_block_tag then add_save m p block bitmap else ok bitmap
      walk_bitmap_from fuel m p (u32 (i + p.block_size)) bitmap') in
    if ltb i p.partition_size
    then (if outside p block then err Error.sat_invalid_partition else visit)
    else ok bitmap

unfoldable pub walk_partition_bitmap : Memory → Bitmap → PartitionInfo → Result Bitmap
unfolding walk_bitmap_from
walk_partition_bitmap m bitmap p = do
  reject (length bitmap == 0) Error.invalid_parameter
  reject (bad_blocks p) Error.invalid_parameter
  bitmap' ← set_bitmap 0 bitmap
  bitmap'' ← set_bitmap 1 bitmap'
  walk_bitmap_from (suc p.partition_size) m p (u32 (2 * p.block_size)) bitmap''
