-- ===== src/Devices/Rle.antt =====
-- devices/action_replay.c: `decompress_RLE01`. The source's bytes and the destination lie in the
-- memory; `none` is a NULL destination, for which the size alone is counted.
pub mod Total
pub mod Decode
pub mod Source
pub mod Items
pub mod Reads
use libslinga.Prelude.{ℕ, zero, suc, ◌+◌, ◌==◌, leb, if◌then◌else◌, u32, u8, Option, none, some}
use libslinga.Prelude.{ok, err, diverge, Error}
use libslinga.Memory.{Memory, Io, store}

-- if(dest) { dest[j] = val; }
unfoldable pub put : Option ℕ → ℕ → ℕ → Memory → Memory
put none j val m = m
put (some dest) j val m = store m (dest + j) val

-- do { .. } while(k < count), with `left` bytes to go
unfoldable pub put_run : Option ℕ → ℕ → ℕ → ℕ → Memory → Memory
unfolding put
put_run dest j val zero m = m
put_run dest j val (suc left) m = put_run dest (u32 (j + 1)) val left (put dest j val m)

-- `i`, `j` and the memory after one round.
abbrev pub Round : Type 0
Round = ℕ × ℕ × Memory

-- The round at `src[i]`, which is one of three cases.
unfoldable pub rle_round : ℕ → ℕ → Option ℕ → ℕ → ℕ → Memory → Round
unfolding put put_run
rle_round rle_key src dest i j m =
    let count = u8 (m (src + (i + 1))) in
    if m (src + i) == rle_key
    then (if count == 0
        then (u32 (i + 2), u32 (j + 1), put dest j rle_key m)
        else (u32 (i + 3), u32 (j + count), put_run dest j (m (src + (i + 2))) count m))
    else (u32 (i + 1), u32 (j + 1), put dest j (m (src + i)) m)

-- do { .. } while(1): the number of bytes that the data expands to. `i` grows in each round, so
-- `src_size + 1` rounds are enough.
unfoldable pub rle_rounds : ℕ → ℕ → ℕ → ℕ → Option ℕ → ℕ → ℕ → Io ℕ
unfolding rle_round
rle_rounds zero rle_key src src_size dest i j m = (diverge, m)
rle_rounds (suc fuel) rle_key src src_size dest i j m =
    let (i', j', m') = rle_round rle_key src dest i j m in
    let rest = rle_rounds fuel rle_key src src_size dest i' j' m' in
    if leb src_size i' then (ok j', m') else rest

-- `bytes_needed` is the result; neither caller passes NULL for it.
unfoldable pub decompress_rle01 : ℕ → ℕ → ℕ → Option ℕ → Io ℕ
unfolding rle_rounds
decompress_rle01 rle_key src src_size dest m =
    if src == 0
    then (err Error.internal, m)
    else rle_rounds (suc src_size) rle_key src src_size dest 0 0 m
