-- ===== src/Sat/Partition.antt =====
-- devices/sat/sat.c, "Skip Bytes": the bytes of a partition, where all or every other byte is valid.
-- The arrays on the other side are lists; they are never NULL, as all callers pass real arrays.
pub mod Bytes
pub mod Laws
use libslinga.Prelude.{ℕ, zero, suc, ◌+◌, ◌*◌, List, [], ◌∷◌, Bool, not, ◌&&◌, ◌||◌, ◌==◌}
use libslinga.Prelude.{if◌then◌else◌, get_or, u32, Result, ok, err, Error}
use libslinga.Memory.{Memory, Io, store, memcpy_from, memcpy_to, memset}

-- `PARTITION_INFO`
pub record PartitionInfo : Type 0 where
  pub partition_buf : ℕ
  pub partition_size : ℕ
  pub block_size : ℕ
  pub skip_bytes : ℕ

-- `skip_bytes != 0 && skip_bytes != 1`
abbrev pub bad_skip : ℕ → Bool
bad_skip skip = not (skip == 0) && not (skip == 1)

-- `(i*2) + skip_bytes + offset` on `unsigned int`
abbrev pub slot : ℕ → ℕ → ℕ → ℕ
slot skip offset i = u32 (i * 2 + skip + offset)

-- for(i ..) dst[i - start] = src[slot i], with `left` rounds to go
pub read_slots : Memory → ℕ → ℕ → ℕ → ℕ → ℕ → List ℕ
read_slots m src skip offset i zero = []
read_slots m src skip offset i (suc left) =
    m (src + slot skip offset i) ∷ read_slots m src skip offset (i + 1) left

pub write_slots : ℕ → ℕ → ℕ → List ℕ → ℕ → ℕ → Memory → Memory
write_slots dst skip offset src i zero m = m
write_slots dst skip offset src i (suc left) m =
    write_slots dst skip offset src (i + 1) left
      (store m (dst + slot skip offset i) (get_or src i 0))

pub memset_slots : ℕ → ℕ → ℕ → ℕ → ℕ → ℕ → Memory → Memory
memset_slots dst skip offset val i zero m = m
memset_slots dst skip offset val i (suc left) m =
    memset_slots dst skip offset val (i + 1) left (store m (dst + slot skip offset i) val)

unfoldable pub read_from_partition : Memory → ℕ → ℕ → ℕ → ℕ → Result (List ℕ)
unfolding read_slots
read_from_partition m src src_offset size skip =
    if src == 0 || size == 0
    then err Error.invalid_parameter
    else if bad_skip skip
    then err Error.invalid_parameter
    else if skip == 0
    then ok (memcpy_from m (src + src_offset) size)
    else ok (read_slots m src skip (u32 (src_offset * 2)) 0 size)

unfoldable pub write_to_partition : ℕ → ℕ → List ℕ → ℕ → ℕ → Io (Unit {0})
unfolding write_slots
write_to_partition dst dst_offset src size skip m =
    if dst == 0 || size == 0
    then (err Error.invalid_parameter, m)
    else if bad_skip skip
    then (err Error.invalid_parameter, m)
    else if skip == 0
    then (ok tt, memcpy_to (dst + dst_offset) src 0 size m)
    else (ok tt, write_slots dst skip (u32 (dst_offset * 2)) src 0 size m)

unfoldable pub memset_partition : ℕ → ℕ → ℕ → ℕ → ℕ → Io (Unit {0})
unfolding memset_slots
memset_partition dst dst_offset val size skip m =
    if dst == 0 || size == 0
    then (err Error.invalid_parameter, m)
    else if bad_skip skip
    then (err Error.invalid_parameter, m)
    else if skip == 0
    then (ok tt, memset (dst + dst_offset) val size m)
    else (ok tt, memset_slots dst skip (u32 (dst_offset * 2)) val 0 size m)
