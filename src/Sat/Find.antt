-- ===== src/Sat/Find.antt =====
-- devices/sat/sat.c: `find_save`.
pub mod Laws
pub mod Names
use libslinga.Prelude.{ℕ, zero, suc, ◌+◌, ◌*◌, List, Bool, ◌||◌, ◌&&◌, ◌==◌, ltb, leb}
use libslinga.Prelude.{if◌then◌else◌, u32, Option, none, some, Result, ok, err, diverge, Error}
use libslinga.Prelude.{◌>>=◌}
use libslinga.Memory.{Memory}
use libslinga.Sat.Partition.{PartitionInfo}
use libslinga.Sat.Header.{StartBlockHeader, read_header, strncmp_eq, sat_start_block_tag}
use libslinga.Sat.Header.{sat_max_save_name}

-- "validate range" of the loops over blocks
abbrev pub outside : PartitionInfo → ℕ → Bool
outside p block = ltb block p.partition_buf || leb (p.partition_buf + p.partition_size) block

-- Is this block the start of the save?
unfoldable pub starts_save : List ℕ → StartBlockHeader → Bool
starts_save filename h =
    h.tag == sat_start_block_tag && strncmp_eq sat_max_save_name filename h.savename

-- for(i = 2 * block_size; i < partition_size; i += block_size)
unfoldable pub find_from : ℕ → Memory → List ℕ → PartitionInfo → ℕ → Result ℕ
find_from zero m filename p i = diverge
find_from (suc fuel) m filename p i =
    let rest = find_from fuel m filename p (u32 (i + p.block_size)) in
    let block = p.partition_buf + i in
    let found = λ (h : StartBlockHeader). if starts_save filename h then ok block else rest in
    if ltb i p.partition_size
    then (if outside p block
        then err Error.invalid_parameter
        else read_header m block p.skip_bytes >>= found)
    else err Error.not_found

-- With blocks that are not empty, `partition_size` rounds are enough (Sat/Find/Laws.antt).
-- `none` is a NULL filename.
unfoldable pub find_save : Memory → Option (List ℕ) → PartitionInfo → Result ℕ
unfolding find_from starts_save
find_save m none p = err Error.invalid_parameter
find_save m (some filename) p =
    find_from (suc p.partition_size) m filename p (u32 (2 * p.block_size))
