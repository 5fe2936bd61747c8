-- ===== src/Sat/Tests/Fragmented.antt =====
-- devices/sat/sat.c: `walk_partition_bitmap` on a partition where a block of one save lies between
-- those of another, whose table takes two blocks.
use libslinga.Prelude.{ℕ, ◌≡◌, refl, List, [], ◌∷◌, ok, get_or, replicate, length}
use libslinga.Memory.{Memory, store, memcpy_from}
use libslinga.Sat.Partition.{PartitionInfo, read_from_partition}
use libslinga.Sat.Partition.Bytes.{fill, view}
use libslinga.Sat.Bitmap.{set_bitmap, get_next_block_bitmap}
use libslinga.Sat.Blocks.{calc_num_blocks, convert_address_to_block_index}
use libslinga.Sat.Blocks.{convert_block_index_to_address}
use libslinga.Sat.Blocks.Layout.{block_address}
use libslinga.Sat.Header.{StartBlockHeader, header_bytes, read_header, header_of_bytes}
use libslinga.Sat.Table.{read_sat_table}
use libslinga.Sat.Walk.{walk_partition_bitmap}

abbrev half_full : PartitionInfo
half_full = record { partition_buf = 4096; partition_size = 2048; block_size = 64; skip_bytes = 0 }

abbrev header_of_size : ℕ → StartBlockHeader
header_of_size size = record {
  tag = 0x80000000;
  savename = replicate 11 65;
  language = 0;
  comment = replicate 10 0;
  timestamp = 0;
  data_size = size;
}

-- The bytes from offset `at` of block `b` on.
abbrev with_bytes : ℕ → ℕ → List ℕ → Memory → Memory
with_bytes b at bytes m =
    fill (block_address half_full b) 0 at (λ k. get_or bytes k 0) 0 (length bytes) m

abbrev blank : Memory
blank a = 0

-- A save of 100 bytes in blocks 2, 3 and 5, whose data are 0, and one of 1100 bytes in block 4 and in
-- blocks 6 to 24, the last four of which stand in the part of the table in block 6.
abbrev fragmented : Memory
fragmented = with_bytes 2 0 (header_bytes (header_of_size 100)) (
    with_bytes 2 34 (0 ∷ 3 ∷ 0 ∷ 5 ∷ []) (
      with_bytes 4 0 (header_bytes (header_of_size 1100)) (
        with_bytes 4 34
          (0 ∷ 6 ∷ 0 ∷ 7 ∷ 0 ∷ 8 ∷ 0 ∷ 9 ∷ 0 ∷ 10 ∷ 0 ∷ 11 ∷ 0 ∷ 12 ∷ 0 ∷ 13 ∷ 0 ∷ 14 ∷ 0 ∷ 15 ∷ 0
            ∷ 16 ∷ 0 ∷ 17 ∷ 0 ∷ 18 ∷ 0 ∷ 19 ∷ 0 ∷ 20 ∷ [])
          (with_bytes 6 4 (0 ∷ 21 ∷ 0 ∷ 22 ∷ 0 ∷ 23 ∷ 0 ∷ 24 ∷ []) blank))))

-- The blocks that the saves ask for.
first_blocks : calc_num_blocks 100 64 0 ≡ ok 3
unfolding calc_num_blocks
first_blocks = refl

second_blocks : calc_num_blocks 1100 64 0 ≡ ok 20
unfolding calc_num_blocks
second_blocks = refl

-- Blocks 21 to 24 are not found busy: the walk goes on from block 4 to block 5, the next one of the
-- bitmap, and takes the data there for the end of the table.
last_blocks_free :
    walk_partition_bitmap fragmented (0 ∷ 0 ∷ 0 ∷ 0 ∷ []) half_full ≡ ok (255 ∷ 255 ∷ 31 ∷ 0 ∷ [])
unfolding walk_partition_bitmap fill store header_bytes header_of_bytes view read_from_partition
    set_bitmap read_sat_table read_header calc_num_blocks convert_address_to_block_index
    convert_block_index_to_address memcpy_from get_next_block_bitmap
last_blocks_free = refl
