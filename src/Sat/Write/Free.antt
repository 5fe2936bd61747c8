-- ===== src/Sat/Write/Free.antt =====
-- devices/sat/sat.c: the blocks that `sat_write` takes for free.
use libslinga.Prelude.{◌∙◌, sym, ap, ℕ, zero, suc, ◌/◌, ◌%◌, ◌≤◌, ◌<◌, ◌≡◌, ◌≢◌, refl, arith}
use libslinga.Prelude.{true, false, ltb, ◌!=◌, if◌then◌else◌, Result, ok, err, Error, length, inl}
use libslinga.Prelude.{inr, Bool-cases, ok_first, ok_injective, ◌>>=◌}
use native.Mathlib.Nat.{mul-mod_left, mul-div_cancel}
use native.Mathlib.Decide.{dec_lt}
use libslinga.Memory.{Memory}
use libslinga.Sat.Partition.{PartitionInfo}
use libslinga.Sat.Blocks.Layout.{IsPartition, block_size_pos, count-le}
use libslinga.Sat.Header.{sat_start_block_tag}
use libslinga.Sat.Find.Laws.{header_at}
use libslinga.Sat.Bitmap.{Bitmap, is_set, clear_bitmap, get_bitmap_size, invert_bitmap}
use libslinga.Sat.Bitmap.{count_bitmap, sat_max_bitmap}
use libslinga.Sat.Bitmap.Laws.{clear_bitmap-IsBytes, length-clear_bitmap, is_set-lt, IsBytes}
use libslinga.Sat.Bitmap.Laws.{capacity}
use libslinga.Sat.Bitmap.Count.{size_of, Complements, invert_bitmap-Complements}
use libslinga.Sat.Bitmap.Count.{count_bitmap-size_of}
use libslinga.Sat.Walk.{walk_partition_bitmap}
use libslinga.Sat.Walk.Busy.{Covers, walk_partition_bitmap-Covers}
use libslinga.Sat.Write.{free_blocks_for}

module _ {p : PartitionInfo} (v : IsPartition p) (m : Memory) where
  -- At least `n` blocks in a bitmap of the partition's size, all of them past the first two and without a start tag.
  pub record FreeBlocks (n : ℕ) (free : Bitmap) : Type 0 where
    pub enough : n ≤ size_of free
    pub bytes : IsBytes free
    pub sized : length free ≡ v.count / 8
    pub within : capacity free ≤ v.count
    pub not_first : (b : ℕ) → is_set free b ≡ true → 2 ≤ b
    pub inside : (b : ℕ) → is_set free b ≡ true → b < v.count
    pub untagged : (b : ℕ) → is_set free b ≡ true → (header_at m p b).tag ≢ sat_start_block_tag

  pub get_bitmap_size_lem : get_bitmap_size p sat_max_bitmap ≡ ok (v.count / 8)
  unfolding get_bitmap_size
  get_bitmap_size_lem = rw (eighth, whole', blocks) refl
    where
      eighth : (p.block_size % 8 != 0) ≡ false
      eighth = ground (arith, v.aligned)

      whole' : (p.partition_size % p.block_size != 0) ≡ false
      whole' = rw (v.whole, mul-mod_left v.count p.block_size) refl

      blocks : p.partition_size / p.block_size ≡ v.count
      blocks = rw v.whole (mul-div_cancel v.count (omega (arith, block_size_pos v)))

  -- From the bitmap of the blocks in use to that of the free ones.
  complement-FreeBlocks :
      (n : ℕ) (busy free : Bitmap)
      → Covers v m (clear_bitmap (v.count / 8)) busy
      → Complements busy free
      → n ≤ size_of free
      → FreeBlocks n free
  complement-FreeBlocks n busy free covers flips enough = record {
    enough = enough;
    bytes = flips.bytes;
    sized = sized;
    within = within;
    not_first = λ b hit. elim (dec_lt 1 b) [
      | yes h ↦ omega arith
      | no h ↦ absurd (low b (omega arith) hit)
    ];
    inside = λ b hit. omega (arith, is_set-lt free b hit, within);
    untagged = λ b hit t. elim (dec_lt 1 b) [
      | yes h ↦ cc (
        not_busy b hit,
        covers.starts b (omega arith) (omega (arith, is_set-lt free b hit, within)) t,
      )
      | no h ↦ low b (omega arith) hit
    ];
  }
    where
      sized : length free ≡ v.count / 8
      sized =
          omega (arith, flips.same_size, covers.grows.same_size, length-clear_bitmap (v.count / 8))

      within : capacity free ≤ v.count
      within =
          omega (arith, flips.same_size, covers.grows.same_size, length-clear_bitmap (v.count / 8))

      not_busy : (b : ℕ) → is_set free b ≡ true → is_set busy b ≡ false
      not_busy b hit =
          ground (arith, flips.bits b (omega (arith, is_set-lt free b hit, flips.same_size)), hit)

      low : (b : ℕ) → b ≤ 1 → is_set free b ≡ true → ⊥
      low zero h hit = cc (not_busy 0 hit, covers.first)
      low (suc zero) h hit = cc (not_busy 1 hit, covers.second)
      low (suc (suc b)) h hit = omega arith

  -- The test at the end.
  if_enough : ℕ → Bitmap → ℕ → Result Bitmap
  if_enough n free blocks = if ltb blocks n then err Error.not_enough_space else ok free

  counted : ℕ → Bitmap → Result Bitmap
  counted n free = count_bitmap free >>= if_enough n free

  if_enough-ok :
      (n : ℕ) (free' free : Bitmap) (blocks : ℕ)
      → if_enough n free' blocks ≡ ok free
      → (free' ≡ free) × (n ≤ blocks)
  unfolding if_enough
  if_enough-ok n free' free blocks e = elim (Bool-cases (ltb blocks n)) [
    | inl few ↦ cc (rw few at e)
    | inr many ↦ (ok_injective (rw many at e), ground arith)
  ]

  invert-FreeBlocks :
      (n : ℕ) (busy free : Bitmap)
      → Covers v m (clear_bitmap (v.count / 8)) busy
      → (invert_bitmap busy >>= counted n) ≡ ok free
      → FreeBlocks n free
  unfolding counted
  invert-FreeBlocks n busy free covers ran = go (
      invert_bitmap-Complements busy (omega (arith, is_set-lt busy 0 covers.first))
        covers.grows.bytes)
    where
      go :
          (free' : Bitmap) × (invert_bitmap busy ≡ ok free') × Complements busy free'
          → FreeBlocks n free
      go (free', e, flips) =
          let size =
            count_bitmap-size_of free'
              (omega (arith, is_set-lt busy 0 covers.first, flips.same_size)) flips.bytes
              (omega (
                arith,
                flips.same_size,
                covers.grows.same_size,
                length-clear_bitmap (v.count / 8),
                count-le v,
                v.small,
              )) in
          let last = if_enough-ok n free' free (size_of free') (rw (e, size) at ran) in
          rw (← last.0) (complement-FreeBlocks n busy free' covers flips last.1)

  -- When `free_blocks_for` finds room for `n` blocks on a well-formed partition, the blocks it gives
  -- are at least `n`; each of them is a block of the partition, is none of the first two, and has
  -- no header with the start tag, so no save begins in it.
  pub free_blocks_for-FreeBlocks :
      (n : ℕ) (free : Bitmap) → free_blocks_for m p n ≡ ok free → FreeBlocks n free
  unfolding free_blocks_for counted if_enough
  free_blocks_for-FreeBlocks n free e = go (
      ok_first (walk_partition_bitmap m (clear_bitmap (v.count / 8)) p)
        (λ busy. invert_bitmap busy >>= counted n) free (rw get_bitmap_size_lem at e))
    where
      go :
          (busy : Bitmap) × (walk_partition_bitmap m (clear_bitmap (v.count / 8)) p ≡ ok busy)
            × ((invert_bitmap busy >>= counted n) ≡ ok free)
          → FreeBlocks n free
      go (busy, walked, rest) =
          invert-FreeBlocks n busy free
            (walk_partition_bitmap-Covers v m _ busy (clear_bitmap-IsBytes (v.count / 8)) walked)
            rest

  -- Room for more blocks is room for fewer, and the same blocks are free.
  pub free_blocks_for-fewer :
      (n k : ℕ) (free : Bitmap)
      → n ≤ k
      → free_blocks_for m p k ≡ ok free
      → free_blocks_for m p n ≡ ok free
  unfolding free_blocks_for counted if_enough
  free_blocks_for-fewer n k free le e = go (
      ok_first (walk_partition_bitmap m (clear_bitmap (v.count / 8)) p)
        (λ busy. invert_bitmap busy >>= counted k) free (rw get_bitmap_size_lem at e))
    where
      go :
          (busy : Bitmap) × (walk_partition_bitmap m (clear_bitmap (v.count / 8)) p ≡ ok busy)
            × ((invert_bitmap busy >>= counted k) ≡ ok free)
          → free_blocks_for m p n ≡ ok free
      go (busy, walked, rest) = inverted (ok_first (invert_bitmap busy) (counted k) free rest)
        where
          inverted :
              (free' : Bitmap) × (invert_bitmap busy ≡ ok free') × (counted k free' ≡ ok free)
              → free_blocks_for m p n ≡ ok free
          inverted (free', flipped, rest') =
              sized (ok_first (count_bitmap free') (if_enough k free') free rest')
            where
              sized :
                  (blocks : ℕ) × (count_bitmap free' ≡ ok blocks)
                    × (if_enough k free' blocks ≡ ok free)
                  → free_blocks_for m p n ≡ ok free
              sized (blocks, size, last) =
                  let fits = if_enough-ok k free' free blocks last in
                  let room : ltb blocks n ≡ false = ground (arith, fits.1) in
                  rw (get_bitmap_size_lem, walked, flipped, size, room) (ap ok fits.0)

  -- The free blocks are those that the walk over the partition has not found busy.
  pub free_blocks_for-NotBusy :
      (n : ℕ) (free : Bitmap)
      → free_blocks_for m p n ≡ ok free
      → (busy : Bitmap) × Covers v m (clear_bitmap (v.count / 8)) busy
        × ((b : ℕ) → is_set free b ≡ true → is_set busy b ≡ false)
  unfolding free_blocks_for counted if_enough
  free_blocks_for-NotBusy n free e = go (
      ok_first (walk_partition_bitmap m (clear_bitmap (v.count / 8)) p)
        (λ busy. invert_bitmap busy >>= counted n) free (rw get_bitmap_size_lem at e))
    where
      NotBusy : Type 0
      NotBusy =
          (busy : Bitmap) × Covers v m (clear_bitmap (v.count / 8)) busy
          × ((b : ℕ) → is_set free b ≡ true → is_set busy b ≡ false)

      go :
          (busy : Bitmap) × (walk_partition_bitmap m (clear_bitmap (v.count / 8)) p ≡ ok busy)
            × ((invert_bitmap busy >>= counted n) ≡ ok free)
          → NotBusy
      go (busy, walked, rest) = inverted (ok_first (invert_bitmap busy) (counted n) free rest)
        where
          covers : Covers v m (clear_bitmap (v.count / 8)) busy
          covers =
              walk_partition_bitmap-Covers v m _ busy (clear_bitmap-IsBytes (v.count / 8)) walked

          inverted :
              (free' : Bitmap) × (invert_bitmap busy ≡ ok free') × (counted n free' ≡ ok free)
              → NotBusy
          inverted (free', flipped, rest') = flips (
              invert_bitmap-Complements busy (omega (arith, is_set-lt busy 0 covers.first))
                covers.grows.bytes)
            where
              same : free' ≡ free
              same = last (ok_first (count_bitmap free') (if_enough n free') free rest')
                where
                  last :
                      (blocks : ℕ) × (count_bitmap free' ≡ ok blocks)
                        × (if_enough n free' blocks ≡ ok free)
                      → free' ≡ free
                  last (blocks, size, fits) = (if_enough-ok n free' free blocks fits).0

              flips :
                  (flipped' : Bitmap) × (invert_bitmap busy ≡ ok flipped')
                    × Complements busy flipped'
                  → NotBusy
              flips (flipped', e', h) = (
                busy,
                covers,
                λ b hit.
                    let b_hit : is_set flipped' b ≡ true =
                      rw (ok_injective (sym e' ∙ flipped) ∙ same) hit in
                    ground (
                      arith,
                      h.bits b (omega (arith, is_set-lt flipped' b b_hit, h.same_size)),
                      b_hit,
                    ),
              )
