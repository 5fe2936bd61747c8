-- ===== src/Sat/Delete.antt =====
-- devices/sat/sat.c: `sat_delete`. The flags are not used.
pub mod Laws
use libslinga.Prelude.{ℕ, ◌%◌, List, Bool, Option, none, some, ◌!=◌, Error}
use libslinga.Prelude.Action.{◌>>=◌, ◌>>◌, query, reject}
use libslinga.Memory.{Io}
use libslinga.Sat.Partition.{PartitionInfo, bad_skip, memset_partition}
use libslinga.Sat.Blocks.{min_block_size, tag_size}
use libslinga.Sat.Find.{find_save}

-- `!filename`
abbrev pub is_null {ℓ} : {A : Type ℓ} → Option A → Bool
is_null none = Bool.true
is_null (some a) = Bool.false

unfoldable pub sat_delete : Option (List ℕ) → PartitionInfo → Io (Unit {0})
sat_delete filename p = do
  reject (is_null filename) Error.invalid_parameter
  reject (p.block_size % min_block_size != 0) Error.invalid_parameter
  reject (bad_skip p.skip_bytes) Error.invalid_parameter
  save_start ← query (λ m. find_save m filename p)
  memset_partition save_start 0 0 tag_size p.skip_bytes
