-- ===== src/Sat/Format.antt =====
-- devices/sat/sat.c: `sat_check_formatted`, `sat_format`.
pub mod Laws
use libslinga.Prelude.{ℕ, zero, suc, ◌+◌, ◌*◌, ◌/◌, ◌%◌, List, [], ◌∷◌, Bool, true, false, ◌&&◌}
use libslinga.Prelude.{◌==◌, ◌!=◌, ltb, if◌then◌else◌, u32, Result, ok, err, Error}
use libslinga.Prelude
use libslinga.Prelude.Action.{◌>>◌, lift, reject}
use libslinga.Memory.{Memory, Io}
use libslinga.Sat.Partition.{PartitionInfo, bad_skip, read_from_partition, write_to_partition}
use libslinga.Sat.Partition.{memset_partition}
use libslinga.Sat.Blocks.{min_block_size}

abbrev pub backup_ram_format_str_len : ℕ
backup_ram_format_str_len = 16

-- BACKUP_RAM_FORMAT_STR, "BackUpRam Format" and no terminator
abbrev pub backup_ram_format_str : List ℕ
backup_ram_format_str =
    b'B' ∷ b'a' ∷ b'c' ∷ b'k' ∷ b'U' ∷ b'p' ∷ b'R' ∷ b'a' ∷ b'm' ∷ b' ' ∷ b'F' ∷ b'o' ∷ b'r' ∷ b'm'
    ∷ b'a' ∷ b't' ∷ []

-- memcmp(a, b, n) == 0 on arrays of one length
unfoldable pub memcmp_eq : List ℕ → List ℕ → Bool
memcmp_eq [] [] = true
memcmp_eq (a ∷ as') (b ∷ bs) = a == b && memcmp_eq as' bs
memcmp_eq _ _ = false

-- Copies of the string in the first block, half as many where every other byte is valid.
abbrev pub num_lines : PartitionInfo → ℕ
num_lines p =
    let lines = p.block_size / backup_ram_format_str_len in
    if p.skip_bytes == 1 then lines / 2 else lines

-- for(i ..; i < num_lines; i++), with `left` lines to go
unfoldable pub check_lines : Memory → PartitionInfo → ℕ → ℕ → Result (Unit {0})
check_lines m p i zero = ok tt
check_lines m p i (suc left) =
    let rest = check_lines m p (i + 1) left in
    Prelude.◌>>=◌
      (read_from_partition m p.partition_buf (u32 (i * backup_ram_format_str_len))
        backup_ram_format_str_len p.skip_bytes)
      (λ temp. if memcmp_eq backup_ram_format_str temp then rest else err Error.sat_unformatted)

unfoldable pub sat_check_formatted : Memory → PartitionInfo → Result (Unit {0})
unfolding check_lines
sat_check_formatted m p =
    if p.block_size % min_block_size != 0
    then err Error.invalid_parameter
    else if bad_skip p.skip_bytes
    then err Error.invalid_parameter
    else if ltb p.partition_size p.block_size
    then err Error.invalid_parameter
    else check_lines m p 0 (num_lines p)

unfoldable pub write_lines : PartitionInfo → ℕ → ℕ → Io (Unit {0})
write_lines p i zero = lift (ok tt)
write_lines p i (suc left) = do
  write_to_partition p.partition_buf (u32 (i * backup_ram_format_str_len)) backup_ram_format_str
      backup_ram_format_str_len p.skip_bytes
  write_lines p (i + 1) left

unfoldable pub sat_format : PartitionInfo → Io (Unit {0})
unfolding write_lines
sat_format p = do
  reject (p.block_size % min_block_size != 0) Error.invalid_parameter
  reject (bad_skip p.skip_bytes) Error.invalid_parameter
  memset_partition p.partition_buf 0 0 (p.partition_size / 2) p.skip_bytes
  write_lines p 0 (num_lines p)
