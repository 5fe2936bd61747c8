-- ===== src/Devices/ActionReplay.antt =====
-- devices/action_replay.c: the Action Replay cartridge, whose save partition is compressed.
pub mod Laws
use libslinga.Prelude.{sub32, ℕ, ◌+◌, ◌-◌, ◌*◌, ◌/◌, List, [], ◌∷◌, Bool, not, ◌||◌, ◌==◌, ◌!=◌}
use libslinga.Prelude.{ltb, leb, if◌then◌else◌, u32, get_or, take, Option, none, some, Result, ok}
use libslinga.Prelude.{err, diverge, Error}
use Prim.Native.String.{String}
use libslinga.Prelude.Action.{◌>>=◌, ◌>>◌, lift, query, update, reject}
use libslinga.Memory.{Memory, Io, memcpy_from, memset}
use libslinga.Context.{Call, on_memory, mark_present, BackupStat, device_action_replay}
use libslinga.Cartridge.{get_cartridge_type, cartridge_ram_4mb}
use libslinga.Sat.Partition.{PartitionInfo}
use libslinga.Sat.Header.{SaveMetadata, word_at, strncmp_eq}
use libslinga.Sat.Walk.{WalkState, sat_get_used_blocks, sat_list_saves}
use libslinga.Sat.Read.{sat_query_file, sat_read}
use libslinga.Sat.Delete.{is_null}
use libslinga.Sat.Format.{memcmp_eq}
use libslinga.Devices.Rle.{decompress_rle01}

abbrev pub cartridge_memory : ℕ
cartridge_memory = 0x02000000

abbrev pub saves_address : ℕ
saves_address = cartridge_memory + 0x20000

abbrev pub compressed_partition_max_size : ℕ
compressed_partition_max_size = 0x60000

abbrev pub uncompressed_max_size : ℕ
uncompressed_max_size = 0x80000

abbrev pub action_replay_block_size : ℕ
action_replay_block_size = 64

-- CARTRIDGE_RAM_BANK_1 and its size
abbrev pub cartridge_ram_bank_1 : ℕ
cartridge_ram_bank_1 = 0x22400000

abbrev pub cartridge_ram_bank_size : ℕ
cartridge_ram_bank_size = 0x80000

-- "ACTION REPLAY" and "RLE01"
abbrev pub action_replay_magic : List ℕ
action_replay_magic =
    b'A' ∷ b'C' ∷ b'T' ∷ b'I' ∷ b'O' ∷ b'N' ∷ b' ' ∷ b'R' ∷ b'E' ∷ b'P' ∷ b'L' ∷ b'A' ∷ b'Y' ∷ []

abbrev pub rle01_magic : List ℕ
rle01_magic = b'R' ∷ b'L' ∷ b'E' ∷ b'0' ∷ b'1' ∷ []

-- `RLE01_HEADER`, packed: compression_magic 5, rle_key 1, compressed_size 4
abbrev pub rle01_header_size : ℕ
rle01_header_size = 10

-- A failure of either decompression is the error given.
unfoldable pub or_else : Error → Result ℕ → Result ℕ
or_else e (ok n) = ok n
or_else e (err e') = err e
or_else e diverge = diverge

-- `decompress_rle01` with its failure renamed.
unfoldable pub decompress_or : Error → ℕ → ℕ → ℕ → Option ℕ → Io ℕ
unfolding or_else
decompress_or e rle_key src src_size dest m =
    let (r, m') = decompress_rle01 rle_key src src_size dest m in (or_else e r, m')

-- Past the checks of the arguments: the header, the size, and the decompression into RAM.
unfoldable pub decompress_checked : ℕ → ℕ → Io PartitionInfo
unfolding decompress_or
decompress_checked src src_size = do
  reject (ltb src_size rle01_header_size) Error.invalid_parameter
  header ← query (λ m. ok (memcpy_from m src rle01_header_size))
  let rle_key = get_or header 5 0
  let compressed_size = word_at header 6
  reject (not (memcmp_eq rle01_magic (take 5 header))) Error.action_replay_unsupported_compression
  reject (leb src_size compressed_size || ltb compressed_size rle01_header_size)
      Error.action_replay_corrupt_compression_header
  let packed = src + rle01_header_size
  let packed_size = compressed_size - rle01_header_size
  dest_size ← decompress_or Error.action_replay_failed_decompress_1 rle_key packed packed_size none
  reject (ltb uncompressed_max_size dest_size) Error.action_replay_partition_too_large
  update (memset cartridge_ram_bank_1 0 cartridge_ram_bank_size)
  dest_size' ←
      decompress_or Error.action_replay_failed_decompress_2 rle_key packed packed_size
        (some cartridge_ram_bank_1)
  lift (
      ok (record {
        partition_buf = cartridge_ram_bank_1;
        partition_size = dest_size';
        block_size = action_replay_block_size;
        skip_bytes = 0;
      }))

-- The locals `dest` (NULL) and `dest_size` (0) are tested before anything sets them.
unfoldable pub decompress_partition : ℕ → ℕ → Io PartitionInfo
unfolding decompress_checked
decompress_partition src src_size = do
  let dest : ℕ = 0
  let dest_size : ℕ = 0
  reject (src == 0 || src_size == 0 || dest == 0 || dest_size == 0) Error.invalid_parameter
  decompress_checked src src_size

-- The partition as every operation gets it.
unfoldable pub open_partition : Call PartitionInfo
unfolding decompress_partition
open_partition = on_memory (decompress_partition saves_address compressed_partition_max_size)

abbrev pub wrong_device : ℕ → Bool
wrong_device device_type = device_type != device_action_replay

unfoldable pub init : ℕ → Call (Unit {0})
init device_type = reject (wrong_device device_type) Error.invalid_device_type

unfoldable pub fini : ℕ → Call (Unit {0})
fini device_type = reject (wrong_device device_type) Error.invalid_device_type

unfoldable pub get_device_name : ℕ → Bool → Call String
get_device_name device_type has_out = do
  reject (wrong_device device_type) Error.invalid_device_type
  reject (not has_out) Error.invalid_parameter
  lift (ok "Action Replay Plus (Read-Only)")

-- A failure to detect the cartridge, and a cartridge without the RAM to decompress into.
unfoldable pub extended_ram : Result ℕ → Result (Unit {0})
extended_ram (ok cart_type) =
    if cart_type == cartridge_ram_4mb then ok tt else err Error.action_replay_extended_ram_missing
extended_ram (err e) = err Error.device_not_present
extended_ram diverge = diverge

-- strncmp of the signature in the cartridge's memory
unfoldable pub has_magic : Memory → Bool
has_magic m = strncmp_eq 13 (memcpy_from m (cartridge_memory + 0x50) 13) action_replay_magic

unfoldable pub is_present : ℕ → Call (Unit {0})
unfolding extended_ram has_magic
is_present device_type c =
    let detect : Call (Unit {0}) = (do
      reject (not (has_magic c.memory)) Error.device_not_present
      lift (extended_ram (get_cartridge_type c.memory))
      mark_present device_type) in
    if wrong_device device_type
    then (err Error.invalid_device_type, c)
    else if c.is_present device_type
    then (ok tt, c)
    else detect c

unfoldable pub is_readable : ℕ → Call (Unit {0})
is_readable device_type = reject (wrong_device device_type) Error.invalid_device_type

-- The operations that would write to the cartridge's flash memory.
abbrev pub not_supported : {A : Type 0} → ℕ → Call A
not_supported device_type = do
  reject (wrong_device device_type) Error.invalid_device_type
  lift (err Error.not_supported)

unfoldable pub is_writeable : ℕ → Call (Unit {0})
is_writeable device_type = not_supported device_type

unfoldable pub write : ℕ → Call (Unit {0})
write device_type = not_supported device_type

unfoldable pub delete : ℕ → Call (Unit {0})
delete device_type = not_supported device_type

unfoldable pub format : ℕ → Call (Unit {0})
format device_type = not_supported device_type

unfoldable pub stat_of : ℕ → BackupStat
stat_of used_blocks =
    let total_bytes = uncompressed_max_size - 2 * action_replay_block_size in
    let total_blocks = total_bytes / action_replay_block_size in
    let used = if ltb total_blocks used_blocks then total_blocks else used_blocks in
    let free_blocks = sub32 total_blocks used in
    record {
      total_bytes = total_bytes;
      total_blocks = total_blocks;
      block_size = action_replay_block_size;
      free_bytes = u32 (free_blocks * action_replay_block_size);
      free_blocks = free_blocks;
      max_saves_possible = free_blocks;
    }

unfoldable pub stat : ℕ → Bool → Call BackupStat
unfolding open_partition stat_of
stat device_type has_out = do
  reject (wrong_device device_type) Error.invalid_device_type
  reject (not has_out) Error.invalid_parameter
  p ← open_partition
  used_blocks ← query (λ c. sat_get_used_blocks c.memory p)
  lift (ok (stat_of used_blocks))

unfoldable pub query_file : ℕ → Option (List ℕ) → Option SaveMetadata → Call SaveMetadata
unfolding open_partition
query_file device_type filename none = do
  reject (wrong_device device_type) Error.invalid_device_type
  lift (err Error.invalid_parameter)
query_file device_type filename (some save) = do
  reject (wrong_device device_type) Error.invalid_device_type
  p ← open_partition
  query (λ c. sat_query_file c.memory filename p save)

unfoldable pub list_saves : ℕ → Option (List SaveMetadata) → ℕ → Call WalkState
unfolding open_partition
list_saves device_type saves num_saves = do
  reject (wrong_device device_type) Error.invalid_device_type
  p ← open_partition
  query (λ c. sat_list_saves c.memory p saves num_saves)

unfoldable pub read : ℕ → Option (List ℕ) → Bool → ℕ → Call (List ℕ)
unfolding open_partition
read device_type filename has_out size = do
  reject (wrong_device device_type) Error.invalid_device_type
  reject (is_null filename || not has_out || size == 0) Error.invalid_parameter
  p ← open_partition
  query (λ c. sat_read c.memory filename size p)
