-- ===== src/Sat/Blocks.antt =====
-- devices/sat/sat.c, "Block helper functions": sizes in blocks, and block indices as addresses.
pub mod Count
pub mod Endless
pub mod Layout
use libslinga.Prelude.{ℕ, zero, suc, ◌+◌, ◌-◌, ◌*◌, ◌/◌, ◌%◌, ◌||◌, ◌==◌, ltb, leb, ◌!=◌}
use libslinga.Prelude.{if◌then◌else◌, u32, sub32, Result, ok, diverge, Error, reject, ◌>>◌}
use libslinga.Sat.Partition.{PartitionInfo, bad_skip}

abbrev pub min_block_size : ℕ
min_block_size = 64

-- `sizeof(SAT_START_BLOCK_HEADER)` (packed) and SAT_TAG_SIZE
abbrev pub header_size : ℕ
header_size = 34

abbrev pub tag_size : ℕ
tag_size = 4

-- One round of the loop: the blocks that hold `fixed_bytes` and a table of `num_blocks` entries.
pub blocks_for : ℕ → ℕ → ℕ → ℕ
blocks_for fixed_bytes data_size num_blocks =
    let total_bytes = u32 (fixed_bytes + u32 ((num_blocks + 1) * 2)) in
    let num_blocks2 = total_bytes / data_size in
    if total_bytes % data_size != 0 then u32 (num_blocks2 + 1) else num_blocks2

-- do { .. } while(num_blocks != num_blocks2)
pub settle_blocks : ℕ → ℕ → ℕ → ℕ → Result ℕ
settle_blocks zero fixed_bytes data_size num_blocks = diverge
settle_blocks (suc fuel) fixed_bytes data_size num_blocks =
    let num_blocks2 = blocks_for fixed_bytes data_size num_blocks in
    let rest = settle_blocks fuel fixed_bytes data_size num_blocks2 in
    if num_blocks == num_blocks2 then ok num_blocks else rest

-- The first estimate of `num_blocks` is overwritten before it is read, so it is not computed here.
-- `save_size + 4` rounds are enough (Sat/Blocks/Count.antt).
unfoldable pub calc_num_blocks : ℕ → ℕ → ℕ → Result ℕ
unfolding settle_blocks blocks_for
calc_num_blocks save_size block_size skip_bytes = do
  reject (save_size == 0 || block_size == 0) Error.invalid_parameter
  reject (bad_skip skip_bytes) Error.invalid_parameter
  let valid_size = if skip_bytes == 1 then block_size / 2 else block_size
  reject (valid_size % min_block_size != 0) Error.invalid_parameter
  settle_blocks (save_size + 4) (u32 (header_size - tag_size + save_size))
      (sub32 valid_size tag_size) 0

unfoldable pub convert_address_to_block_index : ℕ → PartitionInfo → Result ℕ
convert_address_to_block_index address p = do
  reject (address == 0) Error.invalid_parameter
  reject (ltb address p.partition_buf) Error.invalid_parameter
  reject (leb (p.partition_buf + p.partition_size) address) Error.invalid_parameter
  ok ((address - p.partition_buf) / p.block_size)

unfoldable pub convert_block_index_to_address : ℕ → PartitionInfo → Result ℕ
convert_block_index_to_address block_index p = do
  reject (bad_skip p.skip_bytes) Error.invalid_parameter
  let address = p.partition_buf + u32 (block_index * p.block_size)
  reject (ltb address p.partition_buf) Error.invalid_parameter
  reject (leb (p.partition_buf + p.partition_size) address) Error.invalid_parameter
  ok address
