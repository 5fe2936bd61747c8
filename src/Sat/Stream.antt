-- ===== src/Sat/Stream.antt =====
-- devices/sat/sat.c: a save as one stream of bytes. Each of its blocks holds `room` bytes behind the
-- four of the tag; position `q * room + r` of the stream is byte `4 + r` of the save's block `q`.
pub mod Pieces
pub mod TableEntries
pub mod TableBlocks
pub mod Table
pub mod Data
pub mod Save
pub mod Prefix
pub mod Entries
pub mod Reading
pub mod Taken
pub mod Scan
pub mod Load
pub mod RoundTrip
pub mod FreeChain
pub mod Headers
pub mod Written
use libslinga.Sat.Blocks.Layout.{count-le, IsPartition, block_address}
use libslinga.Prelude.{u32, ◌^◌, ℕ, zero, suc, ◌+◌, ◌-◌, ◌*◌, ◌/◌, ◌%◌, ◌≤◌, ◌<◌, ◌≡◌, ◌≢◌, refl}
use libslinga.Prelude.{arith, List, ok, inl, inr, ◌∙◌, sym, ap, ok_injective, get_or, length, ◌⊎◌}
use libslinga.Prelude.{ltb, ◌==◌, if◌then◌else◌, true, false}
use native.Mathlib.Decide.{dec_lt}
use native.Mathlib.Nat.{mul-le-mul_right}
use libslinga.Sat.Header.{short_bytes}
use libslinga.Memory.{Memory}
use libslinga.Sat.Partition.{PartitionInfo}
use libslinga.Sat.Partition.Bytes.{byte_address}
use libslinga.Sat.Blocks.Count.{valid_size}
use libslinga.Sat.Bitmap.{Bitmap, get_next_block_bitmap}
use libslinga.Sat.Bitmap.Laws.{FirstSet, get_next_block_bitmap-FirstSet, capacity}

-- The blocks of `bitmap` in order: `n` of them from the first on, and one more.
pub record Chain {p : PartitionInfo} (v : IsPartition p) (bitmap : Bitmap) (block : ℕ → ℕ) (n : ℕ)
    : Type 0 where
  pub not_empty : length bitmap ≢ 0
  pub first : get_next_block_bitmap 0 bitmap ≡ ok (block 0)
  pub next : (i : ℕ) → i < n → get_next_block_bitmap (block i) bitmap ≡ ok (block (i + 1))
  pub inside : (i : ℕ) → i ≤ n → block i < v.count

-- The next block of a bitmap is a later one.
pub next_block-lt :
    (bitmap : Bitmap) (i j : ℕ)
    → length bitmap ≢ 0
    → i < 2 ^ 32 - 1
    → get_next_block_bitmap i bitmap ≡ ok j
    → i < j
next_block-lt bitmap i j ne low e = found (get_next_block_bitmap-FirstSet i bitmap ne)
  where
    found :
        FirstSet bitmap (u32 (i + 1)) (u32 (capacity bitmap)) (get_next_block_bitmap i bitmap)
        → i < j
    found (inl (k, e', lo, hi, hit, h)) = omega (arith, ok_injective (sym e ∙ e'))
    found (inr (e', h)) = cc (e, e')

-- It lies below the end of the scan.
next_block-below :
    (bitmap : Bitmap) (i j : ℕ)
    → length bitmap ≢ 0
    → get_next_block_bitmap i bitmap ≡ ok j
    → j < u32 (capacity bitmap)
next_block-below bitmap i j ne e = found (get_next_block_bitmap-FirstSet i bitmap ne)
  where
    found :
        FirstSet bitmap (u32 (i + 1)) (u32 (capacity bitmap)) (get_next_block_bitmap i bitmap)
        → j < u32 (capacity bitmap)
    found (inl (k, e', lo, hi, hit, h)) = omega (arith, ok_injective (sym e ∙ e'))
    found (inr (e', h)) = cc (e, e')

module _ {p : PartitionInfo} {v : IsPartition p} {bitmap : Bitmap} {block : ℕ → ℕ} {n : ℕ}
    (c : Chain v bitmap block n) where
  pub block-small : (i : ℕ) → i ≤ n → block i < 2 ^ 30
  block-small i h = omega (arith, c.inside i h, count-le v, v.small)

  pub block-below : (i : ℕ) → i ≤ n → block i < u32 (capacity bitmap)
  block-below zero h = next_block-below bitmap 0 (block 0) c.not_empty c.first
  block-below (suc i) h = omega (
    arith,
    ap block one_more,
    next_block-below bitmap (block i) (block (i + 1)) c.not_empty (c.next i (omega arith)),
  )
    where
      one_more : i + 1 ≡ suc i
      one_more = omega arith

  pub block_step-lt : (i : ℕ) → i < n → block i < block (i + 1)
  block_step-lt i h =
      next_block-lt bitmap (block i) (block (i + 1)) c.not_empty
        (omega (arith, block-small i (omega arith))) (c.next i h)

  pub blocks-lt : (i j : ℕ) → i < j → j ≤ n → block i < block j
  blocks-lt i zero h le = absurd (omega arith)
  blocks-lt i (suc j) h le = elim (dec_lt i j) [
    | yes lt ↦ omega (arith, blocks-lt i j lt (omega arith), step)
    | no ge ↦ omega (arith, step, ap block (same ge))
  ]
    where
      one_more : j + 1 ≡ suc j
      one_more = omega arith

      step : block j < block (suc j)
      step = omega (arith, block_step-lt j (omega arith), ap block one_more)

      same : ¬ (i < j) → i ≡ j
      same ge = omega arith

  pub blocks-ne : (i j : ℕ) → i ≢ j → i ≤ n → j ≤ n → block i ≢ block j
  blocks-ne i j ne hi hj e = elim (dec_lt i j) [
    | yes lt ↦ omega (arith, blocks-lt i j lt hj)
    | no ge ↦ omega (arith, blocks-lt j i (omega arith) hi)
  ]

-- Positions.
module _ {p : PartitionInfo} (v : IsPartition p) (block : ℕ → ℕ) where
  -- The bytes of a block behind its tag.
  abbrev pub room : ℕ
  room = valid_size p.block_size p.skip_bytes - 4

  abbrev pub tag_byte : ℕ → ℕ → ℕ
  tag_byte j i = byte_address (block_address p (block j)) p.skip_bytes i

  -- The address of byte `r` of block `q` behind the tag.
  abbrev pub stream_byte : ℕ → ℕ → ℕ
  stream_byte q r = byte_address (block_address p (block q)) p.skip_bytes (4 + r)

  -- A position determines its block.
  pub block_of_position :
      (q r q' r' : ℕ) → q * room + r ≡ q' * room + r' → r < room → r' < room → q ≡ q'
  block_of_position q r q' r' e h h' = elim (dec_lt q q') [
    | yes lt ↦ absurd (omega (arith, mul-le-mul_right {m = q + 1} {n = q'} room (omega arith)))
    | no ge ↦ elim (dec_lt q' q) [
      | yes lt ↦ absurd (omega (arith, mul-le-mul_right {m = q' + 1} {n = q} room (omega arith)))
      | no ge' ↦ omega arith
    ]
  ]

  -- No position from `lo` up to `hi` lies at address `a`.
  abbrev pub Avoids : ℕ → ℕ → ℕ → ℕ → Type 0
  Avoids n lo hi a =
      (q r : ℕ) → q ≤ n → r < room → lo ≤ q * room + r → q * room + r < hi → a ≢ stream_byte q r

  -- `a` is no byte of the tag of a block behind the first.
  abbrev pub NoTag : ℕ → ℕ → Type 0
  NoTag n a = (j i : ℕ) → 1 ≤ j → j ≤ n → i < 4 → a ≢ tag_byte j i

  -- The tag of block `j` is as before, or zero.
  abbrev pub TagOutcome : ℕ → Memory → Memory → Type 0
  TagOutcome j m m' =
      ((i : ℕ) → i < 4 → m' (tag_byte j i) ≡ m (tag_byte j i))
      ⊎ ((i : ℕ) → i < 4 → m' (tag_byte j i) ≡ 0)

  -- The bytes of `stream` from position `lo` up to `hi` have been written, and perhaps tags of blocks
  -- behind the first have been cleared; no other address has changed.
  pub record Extends (stream : ℕ → ℕ) (n lo hi : ℕ) (m m' : Memory) : Type 0 where
    pub written :
        (q r : ℕ)
        → q ≤ n
        → r < room
        → lo ≤ q * room + r
        → q * room + r < hi
        → m' (stream_byte q r) ≡ stream (q * room + r)
    pub tags : (j i : ℕ) → j ≤ n → i < 4 → m (tag_byte j i) ≡ 0 → m' (tag_byte j i) ≡ 0
    pub tag_outcome : (j : ℕ) → j ≤ n → TagOutcome j m m'
    pub others : (a : ℕ) → Avoids n lo hi a → NoTag n a → m' a ≡ m a

  pub Extends-refl : (stream : ℕ → ℕ) (n lo : ℕ) (m : Memory) → Extends stream n lo lo m m
  Extends-refl stream n lo m = record {
    written = λ q r hq hr h1 h2. absurd (omega arith);
    tags = λ j i hj hi e. e;
    tag_outcome = λ j hj. inl (λ i hi. refl);
    others = λ a h t. refl;
  }

-- The entries of a save's table: the blocks behind the first, and the terminator.
abbrev pub entry : (ℕ → ℕ) → ℕ → ℕ → ℕ
entry block n i = if i == n then 0 else block i

-- The stream of a save behind its header, which takes the first 30 positions: the table, then the
-- data.
unfoldable pub save_stream : (ℕ → ℕ) → ℕ → List ℕ → ℕ → ℕ
save_stream block n bytes k =
    if ltb k (30 + 2 * n)
    then get_or (short_bytes (entry block n ((k - 30) / 2 + 1))) ((k - 30) % 2) 0
    else get_or bytes (k - (30 + 2 * n)) 0

pub save_stream-entry :
    (block : ℕ → ℕ) (n : ℕ) (bytes : List ℕ) (w i : ℕ)
    → w < n
    → i < 2
    → save_stream block n bytes (30 + 2 * w + i) ≡ get_or (short_bytes (entry block n (w + 1))) i 0
unfolding save_stream
save_stream-entry block n bytes w i hw hi = rw (inside, which, side) refl
  where
    inside : ltb (30 + 2 * w + i) (30 + 2 * n) ≡ true
    inside = ground arith

    which : (30 + 2 * w + i - 30) / 2 ≡ w
    which = omega arith

    side : (30 + 2 * w + i - 30) % 2 ≡ i
    side = omega arith

pub save_stream-data :
    (block : ℕ → ℕ) (n : ℕ) (bytes : List ℕ) (t : ℕ)
    → save_stream block n bytes (30 + 2 * n + t) ≡ get_or bytes t 0
unfolding save_stream
save_stream-data block n bytes t = rw (behind, offset) refl
  where
    behind : ltb (30 + 2 * n + t) (30 + 2 * n) ≡ false
    behind = ground arith

    offset : 30 + 2 * n + t - (30 + 2 * n) ≡ t
    offset = omega arith
