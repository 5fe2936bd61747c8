-- ===== src/Sat/Stream/FreeChain.antt =====
-- devices/sat/sat.c: the blocks of a bitmap one after the other, when it has enough.
use libslinga.Prelude.{ℕ, zero, suc, ◌+◌, ◌-◌, ◌^◌, u32, ◌≤◌, ◌<◌, ◌≡◌, ◌≢◌, refl, arith, Bool}
use libslinga.Prelude.{ok, ◌∙◌, ap, length, inl, inr, true, false}
use libslinga.Sat.Partition.{PartitionInfo}
use libslinga.Sat.Blocks.Layout.{IsPartition}
use libslinga.Sat.Bitmap.{Bitmap, is_set, get_next_block_bitmap}
use libslinga.Sat.Bitmap.Bits.{count_from}
use libslinga.Sat.Bitmap.Laws.{capacity, FirstSet, NoneSet, get_next_block_bitmap-FirstSet}
use libslinga.Sat.Bitmap.Count.{size_of, count_from-split}
use libslinga.Sat.Walk.Used.{number}
use libslinga.Sat.Write.Room.{next_is_set}
use libslinga.Sat.Stream.{Chain}

-- The `i`-th block of a bitmap behind block 0.
unfoldable pub nth_block : Bitmap → ℕ → ℕ
nth_block bitmap zero = number (get_next_block_bitmap 0 bitmap)
nth_block bitmap (suc i) = number (get_next_block_bitmap (nth_block bitmap i) bitmap)

-- The blocks of a bitmap from `i` on.
abbrev from_on : Bitmap → ℕ → ℕ
from_on bitmap i = count_from (is_set bitmap) i (capacity bitmap - i)

count_from-NoneSet :
    (bitmap : Bitmap) (i n : ℕ) → NoneSet bitmap i (i + n) → count_from (is_set bitmap) i n ≡ 0
unfolding count_from
count_from-NoneSet bitmap i zero h = refl
count_from-NoneSet bitmap i (suc n) h = rw (h i (omega arith) (omega arith)) (
    omega (arith, count_from-NoneSet bitmap (i + 1) n (λ k lo hi. h k (omega arith) (omega arith))))

count_from_one :
    (f : ℕ → Bool) (i n : ℕ) → f i ≡ true → count_from f i (suc n) ≡ suc (count_from f (i + 1) n)
unfolding count_from
count_from_one f i n hit = rw hit (omega arith)

-- When blocks are left behind `i`, the next one is found, and one less is left behind it.
next_found :
    (bitmap : Bitmap) (i k : ℕ)
    → length bitmap ≢ 0
    → capacity bitmap < 2 ^ 32
    → i < 2 ^ 32 - 1
    → k < from_on bitmap (i + 1)
    → let next = number (get_next_block_bitmap i bitmap) in
      (get_next_block_bitmap i bitmap ≡ ok next)
      × (k ≤ from_on bitmap (next + 1))
      × (next < 2 ^ 32 - 1)
next_found bitmap i k ne fits low some_left =
    by_outcome (get_next_block_bitmap-FirstSet i bitmap ne)
  where
    Found : Type 0
    Found =
        (get_next_block_bitmap i bitmap ≡ ok (number (get_next_block_bitmap i bitmap)))
        × (k ≤ from_on bitmap (number (get_next_block_bitmap i bitmap) + 1))
        × (number (get_next_block_bitmap i bitmap) < 2 ^ 32 - 1)

    by_outcome :
        FirstSet bitmap (u32 (i + 1)) (u32 (capacity bitmap)) (get_next_block_bitmap i bitmap)
        → Found
    by_outcome (inl (j, e, lo, hi, hit, clear)) = rw e (refl, left, omega arith)
      where
        before : count_from (is_set bitmap) (i + 1) (j - (i + 1)) ≡ 0
        before =
            count_from-NoneSet bitmap (i + 1) (j - (i + 1))
              (λ k lo' hi'. clear k (omega arith) (omega arith))

        parts :
            from_on bitmap (i + 1)
            ≡ count_from (is_set bitmap) (i + 1) (j - (i + 1))
              + count_from (is_set bitmap) j (suc (capacity bitmap - (j + 1)))
        parts =
            count_from-split (is_set bitmap) (i + 1) j (j - (i + 1))
              (suc (capacity bitmap - (j + 1))) (capacity bitmap - (i + 1)) (omega arith)
              (omega arith)

        left : k ≤ from_on bitmap (j + 1)
        left = omega (
          arith,
          before,
          parts,
          count_from_one (is_set bitmap) j (capacity bitmap - (j + 1)) hit,
          some_left,
        )
    by_outcome (inr (e, clear)) = absurd (omega (arith, nothing, some_left))
      where
        nothing : from_on bitmap (i + 1) ≡ 0
        nothing =
            count_from-NoneSet bitmap (i + 1) (capacity bitmap - (i + 1))
              (λ k lo hi. clear k (omega arith) (omega arith))

module _ (bitmap : Bitmap) (ne : length bitmap ≢ 0) (fits : capacity bitmap < 2 ^ 32) where
  -- The blocks behind block 0, when block 0 is not in the bitmap.
  behind_first : is_set bitmap 0 ≡ false → size_of bitmap ≡ from_on bitmap (0 + 1)
  unfolding size_of
  behind_first clear =
      count_from-split (is_set bitmap) 0 1 1 (capacity bitmap - 1) (capacity bitmap) refl
        (omega arith)
      ∙ omega (arith, count_from-NoneSet bitmap 0 1 (λ k lo hi. first_clear k hi))
    where
      first_clear : (k : ℕ) → k < 0 + 1 → is_set bitmap k ≡ false
      first_clear zero h = clear
      first_clear (suc k) h = absurd (omega arith)

  -- After the first `i + 1` blocks at least `k` are left.
  blocks_left :
      (i k : ℕ)
      → is_set bitmap 0 ≡ false
      → i + suc k ≤ size_of bitmap
      → (k ≤ from_on bitmap (nth_block bitmap i + 1)) × (nth_block bitmap i < 2 ^ 32 - 1)
  unfolding nth_block
  blocks_left zero k clear enough =
      let first = next_found bitmap 0 k ne fits (omega arith) (omega (arith, behind_first clear)) in
      (first.1, first.2)
  blocks_left (suc i) k clear enough =
      let before = blocks_left i (suc k) clear (omega arith) in
      let next = next_found bitmap (nth_block bitmap i) k ne fits before.1 before.0 in
      (next.1, next.2)

  pub nth_block-next :
      (i : ℕ)
      → is_set bitmap 0 ≡ false
      → i + 2 ≤ size_of bitmap
      → get_next_block_bitmap (nth_block bitmap i) bitmap ≡ ok (nth_block bitmap (i + 1))
  nth_block-next i clear enough =
      (next_found bitmap (nth_block bitmap i) 0 ne fits (blocks_left i 1 clear (omega arith)).1
        (blocks_left i 1 clear (omega arith)).0).0
      ∙ ap ok (unfold nth_block in ap (nth_block bitmap) one_more)
    where
      one_more : suc i ≡ i + 1
      one_more = omega arith

  pub nth_block-first :
      is_set bitmap 0 ≡ false
      → 1 ≤ size_of bitmap
      → get_next_block_bitmap 0 bitmap ≡ ok (nth_block bitmap 0)
  unfolding nth_block
  nth_block-first clear enough =
      (next_found bitmap 0 0 ne fits (omega arith) (omega (arith, behind_first clear))).0

-- A bitmap of more than `n` blocks of the partition, block 0 not among them, has a chain of them.
pub nth_block-Chain :
    {p : PartitionInfo} (v : IsPartition p) (bitmap : Bitmap) (n : ℕ)
    → length bitmap ≢ 0
    → capacity bitmap < 2 ^ 32
    → is_set bitmap 0 ≡ false
    → n < size_of bitmap
    → ((b : ℕ) → is_set bitmap b ≡ true → b < v.count)
    → Chain v bitmap (nth_block bitmap) n
nth_block-Chain v bitmap n ne fits clear enough inside = record {
  not_empty = ne;
  first = nth_block-first bitmap ne fits clear (omega arith);
  next = λ i h. nth_block-next bitmap ne fits i clear (omega arith);
  inside = λ i le. inside (nth_block bitmap i) (there i le);
}
  where
    there : (i : ℕ) → i ≤ n → is_set bitmap (nth_block bitmap i) ≡ true
    there zero le =
        next_is_set 0 (nth_block bitmap 0) bitmap
          (nth_block-first bitmap ne fits clear (omega arith))
    there (suc i) le = rw (ap (nth_block bitmap) one_more) (
        next_is_set (nth_block bitmap i) (nth_block bitmap (i + 1)) bitmap
          (nth_block-next bitmap ne fits i clear (omega arith)))
      where
        one_more : suc i ≡ i + 1
        one_more = omega arith

-- The blocks of a chain are in its bitmap.
pub Chain-is_set :
    {p : PartitionInfo} {v : IsPartition p} {bitmap : Bitmap} {block : ℕ → ℕ} {n : ℕ}
    (c : Chain v bitmap block n) (i : ℕ)
    → i ≤ n
    → is_set bitmap (block i) ≡ true
Chain-is_set {bitmap} {block} c zero le = next_is_set 0 (block 0) bitmap c.first
Chain-is_set {bitmap} {block} c (suc i) le =
    rw (ap block one_more) (next_is_set (block i) (block (i + 1)) bitmap (c.next i (omega arith)))
  where
    one_more : suc i ≡ i + 1
    one_more = omega arith
