-- ===== src/Sat/Stream/Prefix.antt =====
-- devices/sat/sat.c: the bitmap that `read_sat_table` builds, as the first blocks of a save.
use libslinga.Sat.Stream.{block-below, block-small, Chain, blocks-lt}
use libslinga.Prelude.{u32, ℕ, ◌+◌, ◌≤◌, ◌<◌, ◌≡◌, ◌≢◌, arith, ok, err, Error, ◌∙◌, sym, ap}
use libslinga.Prelude.{length, inl, inr, true}
use native.Mathlib.Decide.{dec_lt, ℕ_discrete}
use libslinga.Sat.Partition.{PartitionInfo}
use libslinga.Sat.Blocks.Layout.{IsPartition}
use libslinga.Sat.Bitmap.{Bitmap, clear_bitmap, is_set, get_next_block_bitmap, set_bitmap}
use libslinga.Sat.Bitmap.Laws.{clear_bitmap-IsBytes, length-clear_bitmap, is_set-clear_bitmap}
use libslinga.Sat.Bitmap.Laws.{IsBytes, capacity, FirstSet, get_next_block_bitmap-FirstSet}
use libslinga.Sat.Bitmap.Laws.{SetOutcome, set_bitmap-Adds, is_set-lt}

module _ {p : PartitionInfo} {v : IsPartition p} {free : Bitmap} {block : ℕ → ℕ} {n : ℕ}
    (c : Chain v free block n) where
  -- The bitmap has the save's blocks 0, .., `w` and no other.
  pub record Prefix (w : ℕ) (bitmap : Bitmap) : Type 0 where
    pub size : length bitmap ≡ length free
    pub bytes : IsBytes bitmap
    pub has : (i : ℕ) → i ≤ w → is_set bitmap (block i) ≡ true
    pub only : (b : ℕ) → is_set bitmap b ≡ true → (i : ℕ) × (i ≤ w) × (block i ≡ b)

  module _ {w : ℕ} {bitmap : Bitmap} (h : Prefix w bitmap) (le : w ≤ n) where
    nonempty : length bitmap ≢ 0
    nonempty e = c.not_empty (omega (arith, h.size))

    -- A later block of the save has a later index, and the other way round.
    later : (i j : ℕ) → i ≤ n → j ≤ n → block i < block j → i < j
    later i j hi hj lt = elim (dec_lt i j) [
      | yes h ↦ h
      | no ge ↦ elim (ℕ_discrete i j) [
        | yes same ↦ absurd (omega (arith, ap block same))
        | no other ↦ absurd (omega (arith, blocks-lt c j i (omega arith) hi))
      ]
    ]

    pub Prefix-next : (j : ℕ) → j < w → get_next_block_bitmap (block j) bitmap ≡ ok (block (j + 1))
    Prefix-next j lt = found (get_next_block_bitmap-FirstSet (block j) bitmap nonempty)
      where
        found :
            FirstSet bitmap
              (u32 (block j + 1))
              (u32 (capacity bitmap))
              (get_next_block_bitmap (block j) bitmap)
            → get_next_block_bitmap (block j) bitmap ≡ ok (block (j + 1))
        found (inl (k, e, lo, hi, hit, clear)) = at_index (h.only k hit)
          where
            at_index :
                (i : ℕ) × (i ≤ w) × (block i ≡ k)
                → get_next_block_bitmap (block j) bitmap ≡ ok (block (j + 1))
            at_index (i, hi', same) = elim (ℕ_discrete i (j + 1)) [
              | yes next ↦ e ∙ ap ok (sym same ∙ ap block next)
              | no other ↦ cc (
                h.has (j + 1) (omega arith),
                clear (block (j + 1))
                    (omega (
                      arith,
                      block-small c j (omega arith),
                      blocks-lt c j (j + 1) (omega arith) (omega arith),
                    ))
                    (omega (
                      arith,
                      same,
                      blocks-lt c (j + 1) i
                          (omega (
                            arith,
                            later j i (omega arith) (omega arith)
                                (omega (arith, same, block-small c j (omega arith))),
                          ))
                          (omega arith),
                    )),
              )
            ]
        found (inr (e, clear)) = cc (
          h.has (j + 1) (omega arith),
          clear (block (j + 1))
              (omega (
                arith,
                block-small c j (omega arith),
                blocks-lt c j (j + 1) (omega arith) (omega arith),
              ))
              (omega (arith, h.size, block-below c (j + 1) (omega arith))),
        )

    pub Prefix-end : get_next_block_bitmap (block w) bitmap ≡ err Error.not_found
    Prefix-end = found (get_next_block_bitmap-FirstSet (block w) bitmap nonempty)
      where
        found :
            FirstSet bitmap
              (u32 (block w + 1))
              (u32 (capacity bitmap))
              (get_next_block_bitmap (block w) bitmap)
            → get_next_block_bitmap (block w) bitmap ≡ err Error.not_found
        found (inl (k, e, lo, hi, hit, clear)) = at_index (h.only k hit)
          where
            at_index :
                (i : ℕ) × (i ≤ w) × (block i ≡ k)
                → get_next_block_bitmap (block w) bitmap ≡ err Error.not_found
            at_index (i, hi', same) = absurd (
                omega (arith, later w i le (omega arith) (omega (arith, same, block-small c w le))))
        found (inr (e, clear)) = e

  -- One more block, of those that fit the bitmap.
  abbrev pub Next : ℕ → Bitmap → Type 0
  Next w bitmap = (bitmap' : Bitmap) × (set_bitmap (block w) bitmap ≡ ok bitmap') × Prefix w bitmap'

  pub Prefix-add :
      {w : ℕ} {bitmap : Bitmap}
      → Prefix w bitmap
      → is_set free (block (w + 1)) ≡ true
      → Next (w + 1) bitmap
  Prefix-add {w} {bitmap} h free_there = by_outcome (set_bitmap-Adds (block (w + 1)) bitmap h.bytes)
    where
      by_outcome : SetOutcome (block (w + 1)) bitmap → Next (w + 1) bitmap
      by_outcome (inl (lt, (bitmap', e, adds))) = (
        bitmap',
        e,
        record {
          size = adds.same_size ∙ h.size;
          bytes = adds.bytes;
          has = λ i le. elim (ℕ_discrete i (w + 1)) [
            | yes same ↦ rw same (ground (arith, adds.bits (block (w + 1)) lt))
            | no other ↦ ground (
              arith,
              adds.bits (block i) (is_set-lt bitmap (block i) (h.has i (omega arith))),
              h.has i (omega arith),
            )
          ];
          only = λ b hit. elim (ℕ_discrete b (block (w + 1))) [
            | yes same ↦ (w + 1, omega arith, sym same)
            | no other ↦ older (h.only b (ground (arith, adds.bits b (in_size b hit), hit)))
          ];
        },
      )
        where
          in_size : (b : ℕ) → is_set bitmap' b ≡ true → b < capacity bitmap
          in_size b hit = omega (arith, is_set-lt bitmap' b hit, adds.same_size)

          older :
              {b : ℕ} → (i : ℕ) × (i ≤ w) × (block i ≡ b) → (i : ℕ) × (i ≤ w + 1) × (block i ≡ b)
          older (i, le, same) = (i, omega arith, same)
      by_outcome (inr (ge, e)) =
          absurd (omega (arith, ge, h.size, is_set-lt free (block (w + 1)) free_there))

  -- The first block, in the cleared bitmap.
  pub Prefix-start :
      (size : ℕ)
      → size ≡ length free
      → is_set free (block 0) ≡ true
      → (bitmap : Bitmap) × (set_bitmap (block 0) (clear_bitmap size) ≡ ok bitmap) × Prefix 0 bitmap
  Prefix-start size e free_there =
      by_outcome (set_bitmap-Adds (block 0) (clear_bitmap size) (clear_bitmap-IsBytes size))
    where
      by_outcome :
          SetOutcome (block 0) (clear_bitmap size)
          → (bitmap : Bitmap) × (set_bitmap (block 0) (clear_bitmap size) ≡ ok bitmap)
            × Prefix 0 bitmap
      by_outcome (inl (lt, (bitmap, ran, adds))) = (
        bitmap,
        ran,
        record {
          size = omega (arith, adds.same_size, length-clear_bitmap size);
          bytes = adds.bytes;
          has = λ i le. there i (omega arith);
          only = λ b hit. (0, omega arith, only_block b hit);
        },
      )
        where
          there : (i : ℕ) → i ≡ 0 → is_set bitmap (block i) ≡ true
          there i zeroth = rw zeroth (ground (arith, adds.bits (block 0) lt))

          only_block : (b : ℕ) → is_set bitmap b ≡ true → block 0 ≡ b
          only_block b hit = ground (
            arith,
            adds.bits b (omega (arith, is_set-lt bitmap b hit, adds.same_size)),
            is_set-clear_bitmap size b,
            hit,
          )
      by_outcome (inr (ge, ran)) =
          absurd (omega (arith, ge, length-clear_bitmap size, is_set-lt free (block 0) free_there))
