-- ===== src/Devices/Saturn.antt =====
-- devices/saturn.c: the internal memory and the backup cartridge, over the SAT functions.
-- An out-parameter is the result; where the source tests it for NULL, it is an Option or a Bool.
pub mod Laws
use libslinga.Prelude.{ℕ, ◌*◌, ◌/◌, List, Bool, not, ◌&&◌, ◌||◌, ◌==◌, ltb, if◌then◌else◌, u32}
use libslinga.Prelude.{sub32, Option, none, some, Result, ok, err, diverge, Error}
use Prim.Native.String.{String}
use libslinga.Prelude.Action.{◌>>=◌, ◌>>◌, lift, query, update, reject}
use libslinga.Context.{Call, on_memory, mark_present, BackupStat, device_internal}
use libslinga.Context.{device_cartridge}
use libslinga.Cartridge.{get_cartridge_type, cartridge_backup_400_200_512k}
use libslinga.Cartridge.{cartridge_backup_800_200_1mb, cartridge_backup_1000_200_2mb}
use libslinga.Cartridge.{cartridge_backup_1000_400_4mb}
use libslinga.Sat.Partition.{PartitionInfo}
use libslinga.Sat.Header.{SaveMetadata}
use libslinga.Sat.Walk.{WalkState, sat_get_used_blocks, sat_list_saves}
use libslinga.Sat.Read.{sat_query_file, sat_read}
use libslinga.Sat.Write.{sat_write}
use libslinga.Sat.Delete.{sat_delete, is_null}
use libslinga.Sat.Format.{sat_check_formatted, sat_format}

abbrev pub internal_memory_skip_bytes : ℕ
internal_memory_skip_bytes = 1

-- The settings of the internal memory, and of a cartridge of `num_blocks` blocks.
abbrev pub internal_info : PartitionInfo
internal_info = record {
  partition_buf = 0x180000;
  partition_size = 0x10000;
  block_size = 0x80;
  skip_bytes = 1;
}

abbrev pub cartridge_info : ℕ → ℕ → PartitionInfo
cartridge_info num_blocks block_size = record {
  partition_buf = 0x04000000;
  partition_size = num_blocks * block_size;
  block_size = block_size;
  skip_bytes = 1;
}

-- `device_type != DEVICE_INTERNAL && device_type != DEVICE_CARTRIDGE`
abbrev pub not_saturn : ℕ → Bool
not_saturn device_type =
    not (device_type == device_internal) && not (device_type == device_cartridge)

unfoldable pub get_partition_info : ℕ → ℕ → Result PartitionInfo
get_partition_info device_type cart_type =
    if not_saturn device_type
    then err Error.invalid_device_type
    else if device_type == device_internal
    then ok internal_info
    else if cart_type == cartridge_backup_400_200_512k
    then ok (cartridge_info 0x400 (0x200 * 2))
    else if cart_type == cartridge_backup_800_200_1mb
    then ok (cartridge_info 0x800 (0x200 * 2))
    else if cart_type == cartridge_backup_1000_200_2mb
    then ok (cartridge_info 0x1000 (0x200 * 2))
    else if cart_type == cartridge_backup_1000_400_4mb
    then ok (cartridge_info 0x1000 (0x400 * 2))
    else err Error.invalid_device_type

-- The settings are looked up for their error alone.
unfoldable pub is_supported_backup_cartridge : ℕ → Call (Unit {0})
is_supported_backup_cartridge cart_type = do
  info ← lift (get_partition_info device_cartridge cart_type)
  lift (ok tt)

-- Any failure to detect a cartridge is a device that is not present.
unfoldable pub detected : Result ℕ → Result ℕ
detected (ok cart_type) = ok cart_type
detected (err e) = err Error.device_not_present
detected diverge = diverge

unfoldable pub probe_cartridge : Call (Unit {0})
unfolding detected is_supported_backup_cartridge
probe_cartridge = do
  cart_type ← query (λ c. detected (get_cartridge_type c.memory))
  is_supported_backup_cartridge cart_type
  update (λ c. record c { cartridge_type = cart_type })
  mark_present device_cartridge

unfoldable pub is_present : ℕ → Call (Unit {0})
unfolding probe_cartridge
is_present device_type c =
    if not_saturn device_type
    then (err Error.invalid_device_type, c)
    else if c.is_present device_type
    then (ok tt, c)
    else if device_type == device_internal
    then mark_present device_type c
    else probe_cartridge c

-- IsPresent, then the partition of the device.
unfoldable pub open_partition : ℕ → Call PartitionInfo
unfolding is_present get_partition_info
open_partition device_type = do
  is_present device_type
  query (λ c. get_partition_info device_type c.cartridge_type)

unfoldable pub init : ℕ → Call (Unit {0})
init device_type = reject (not_saturn device_type) Error.invalid_device_type

unfoldable pub fini : ℕ → Call (Unit {0})
fini device_type = reject (not_saturn device_type) Error.invalid_device_type

-- "Internal Memory" or "Cartridge Memory", where `device_name` is not NULL
unfoldable pub get_device_name : ℕ → Bool → Call String
get_device_name device_type has_out = do
  reject (not_saturn device_type) Error.invalid_device_type
  reject (not has_out) Error.invalid_parameter
  lift (ok (if device_type == device_internal then "Internal Memory" else "Cartridge Memory"))

unfoldable pub is_readable : ℕ → Call (Unit {0})
is_readable device_type = reject (not_saturn device_type) Error.invalid_device_type

unfoldable pub is_writeable : ℕ → Call (Unit {0})
is_writeable device_type = reject (not_saturn device_type) Error.invalid_device_type

-- The figures from the partition and the used blocks. Where every other byte is valid the sizes
-- are halved first.
unfoldable pub stat_of : PartitionInfo → ℕ → BackupStat
stat_of p used_blocks =
    let halved = p.skip_bytes == internal_memory_skip_bytes in
    let partition_size = if halved then p.partition_size / 2 else p.partition_size in
    let block_size = if halved then p.block_size / 2 else p.block_size in
    let total_bytes = sub32 partition_size (u32 (2 * block_size)) in
    let total_blocks = total_bytes / block_size in
    let used = if ltb total_blocks used_blocks then total_blocks else used_blocks in
    let free_blocks = sub32 total_blocks used in
    record {
      total_bytes = total_bytes;
      total_blocks = total_blocks;
      block_size = block_size;
      free_bytes = u32 (free_blocks * block_size);
      free_blocks = free_blocks;
      max_saves_possible = free_blocks;
    }

-- `has_out` says that `stat` is not NULL.
unfoldable pub stat : ℕ → Bool → Call BackupStat
unfolding open_partition stat_of
stat device_type has_out = do
  reject (not_saturn device_type) Error.invalid_device_type
  is_present device_type
  reject (not has_out) Error.invalid_parameter
  p ← query (λ c. get_partition_info device_type c.cartridge_type)
  used_blocks ← query (λ c. sat_get_used_blocks c.memory p)
  lift (ok (stat_of p used_blocks))

-- `save` is the caller's struct, `none` for NULL.
unfoldable pub query_file : ℕ → Option (List ℕ) → Option SaveMetadata → Call SaveMetadata
unfolding open_partition
query_file device_type filename none = do
  reject (not_saturn device_type) Error.invalid_device_type
  lift (err Error.invalid_parameter)
query_file device_type filename (some save) = do
  reject (not_saturn device_type) Error.invalid_device_type
  p ← open_partition device_type
  query (λ c. sat_query_file c.memory filename p save)

-- `list` of the source
unfoldable pub list_saves : ℕ → Option (List SaveMetadata) → ℕ → Call WalkState
unfolding open_partition
list_saves device_type saves num_saves = do
  reject (not_saturn device_type) Error.invalid_device_type
  p ← open_partition device_type
  query (λ c. sat_list_saves c.memory p saves num_saves)

-- `has_out` says that `buffer` is not NULL.
unfoldable pub read : ℕ → Option (List ℕ) → Bool → ℕ → Call (List ℕ)
unfolding open_partition
read device_type filename has_out size = do
  reject (not_saturn device_type) Error.invalid_device_type
  reject (is_null filename || not has_out || size == 0) Error.invalid_parameter
  p ← open_partition device_type
  query (λ c. sat_check_formatted c.memory p)
  query (λ c. sat_read c.memory filename size p)

unfoldable pub write :
    ℕ → ℕ → Option (List ℕ) → Option SaveMetadata → Option (List ℕ) → ℕ → Call (Unit {0})
unfolding open_partition
write device_type flags filename save_metadata buffer size = do
  reject (not_saturn device_type) Error.invalid_device_type
  p ← open_partition device_type
  on_memory (sat_write flags filename save_metadata buffer size p)

-- `delete` of the source
unfoldable pub delete : ℕ → Option (List ℕ) → Call (Unit {0})
unfolding open_partition
delete device_type filename = do
  reject (not_saturn device_type) Error.invalid_device_type
  p ← open_partition device_type
  on_memory (sat_delete filename p)

unfoldable pub format : ℕ → Call (Unit {0})
unfolding open_partition
format device_type = do
  reject (not_saturn device_type) Error.invalid_device_type
  p ← open_partition device_type
  on_memory (sat_format p)
