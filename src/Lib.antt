-- ===== src/Lib.antt =====
-- libslinga: save games of the Sega Saturn's backup devices.
--
-- The library (libslinga.h) dispatches each call to the driver of a device. The driver of the
-- internal memory and of backup cartridges, and that of the Action Replay cartridge, find the
-- partition of saves in memory and call the SAT functions (devices/sat/sat.c), which read and write
-- the saves on it. A partition is a run of blocks. The first is filled with a string when the
-- partition is formatted, the second is unused, and a save takes blocks from the third on: its first
-- block has a header with a start tag, then come a table of the save's further blocks, ended by 0,
-- and the data. Free blocks are kept nowhere; a bitmap of the busy ones is made by a walk.
--
-- Parts:
--   Memory.antt              the address space, memcpy and memset
--   Sat/Partition.antt       read_from_partition, write_to_partition, memset_partition
--   Sat/Bitmap.antt          the bitmap g_SAT_bitmap and its functions
--   Sat/Blocks.antt          calc_num_blocks, block indices and addresses
--   Sat/Header.antt          SAT_START_BLOCK_HEADER, SAVE_METADATA and their conversions
--   Sat/Find.antt            find_save
--   Sat/Table.antt           read_sat_table, read_sat_table_from_block
--   Sat/Walk.antt            walk_partition, walk_partition_bitmap, sat_list_saves,
--                            sat_get_used_blocks
--   Sat/Read.antt            read_save_and_metadata, read_save_from_sat_table, sat_query_file,
--                            sat_read
--   Sat/Write.antt           sat_write, write_header, write_block_indexes, write_data
--   Sat/Format.antt          sat_format, sat_check_formatted
--   Sat/Delete.antt          sat_delete
--   Timestamp.antt           libslinga/timestamp.c
--   Cartridge.antt           libslinga/saturn.c
--   Context.antt             the globals of libslinga/libslinga.c, and device types
--   Devices/Saturn.antt      devices/saturn.c
--   Devices/Ram.antt         devices/ram.c
--   Devices/ActionReplay.antt, Devices/Rle.antt   devices/action_replay.c
--   Metadata.antt            Slinga_SetSaveMetadata of libslinga/libslinga.c
--   Api.antt                 the other functions of libslinga/libslinga.c
--   Api/Session.antt         any sequence of the library's functions, and what its globals then hold
--   Sat/Stream.antt          the stream of bytes that a save's entries and data make up over its
--                            blocks, which write_block_indexes, write_data and the readers go
--                            through; its children follow each loop of the code along it
--   Sat/Directory.antt       a partition as a list of names and data, which format, write, delete and
--                            read keep to; its child History has any sequence of such calls
--   Sat/Session.antt         any sequence of format, write and delete, failures included
-- Proofs stand in the child modules of each part. Sat/RoundTrip.antt, Sat/Others.antt, Sat/Kept.antt
-- and Sat/Overwrite.antt have those on sat_write together with sat_read, with find_save for other
-- names, with the data of other saves, and with sat_delete. The children called Ends, with
-- Prelude/Ends.antt, are about the loops that read the partition, whatever is on it. The children of
-- Devices/Rle.antt have the format of decompress_RLE01 as a list of items. Tests.antt and Sat/Tests.antt
-- apply the theorems; Sat/Blocks/Endless.antt and Sat/Tests/Fragmented.antt run the code where it
-- fails.
-- Prelude/ has what all parts share: Boolean tests, list lemmas, 32-bit words, and results.
--
-- How the code is modelled:
--   A pointer is a number, NULL is 0, and the memory is a function from addresses to bytes. The CPU
--   is big-endian. An unsigned int wraps where it can, written as a remainder by 2^32; sums of a
--   pointer and an offset do not wrap. The bytes of an array in the library or of the caller are a
--   list of numbers.
--   A function returns a Result: ok with the out-parameters, or err with an error code. A function
--   that writes to memory or to the globals is an Action: it gives the new state with the result, and
--   what it wrote before a failure stays. An argument that may be NULL is an Option, or, for an
--   out-parameter, a Bool that says whether it is there.
--   A loop is a recursion on the number of rounds left where the code has a counter, and on fuel
--   elsewhere: partition_size + 1 rounds for walks over the blocks, 8 * bitmap_size + 1 for those over
--   the blocks of a save, save_size + 4 for calc_num_blocks, src_size + 1 for the decompression, a
--   year per 365 days and 13 months for dates. That is enough since each round of a walk goes on by a
--   block, each block of a save has a higher index than the one before, the count of calc_num_blocks
--   grows in each round and stays below save_size + 4 for sizes up to 2^30 (for some larger ones the
--   code's own loop never ends), each round of the decompression takes a byte, and no year is
--   shorter than 365 days. Out of fuel is the result diverge.
--   A bitmap is the list of those bytes of g_SAT_bitmap that the operation uses; each operation
--   clears them before it starts. The list has no bound of its own; the array has 1024 bytes, for 8192
--   blocks, and the drivers' partitions have 4096 blocks at most.
--
-- Not modelled:
--   the contents of output arrays after a failure; a block size of 0, for which the code divides by
--   zero (a well-formed partition, IsPartition of Sat/Blocks/Layout.antt, has none); the sample
--   programs; build configurations other than that of libslinga/libslinga_conf.h; the functions of
--   string.h and stdio.h, for which the model has the uses made of them: byte copies, comparisons
--   and the name with its extension .BUP.
--   The list of saves of Sat/Directory.antt is for tables that end in a save's first block: the
--   bitmap that walk_partition_bitmap hands to each save's table has other saves' blocks in it, which
--   the walk takes for blocks of a longer table.
pub mod Prelude
pub mod Memory
pub mod Sat
pub mod Timestamp
pub mod Cartridge
pub mod Context
pub mod Devices
pub mod Metadata
pub mod Api
pub mod Tests
