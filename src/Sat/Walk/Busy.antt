-- ===== src/Sat/Walk/Busy.antt =====
-- devices/sat/sat.c: the blocks that `walk_partition_bitmap` puts into the bitmap.
use libslinga.Prelude.{ℕ, zero, suc, ◌+◌, ◌*◌, ◌≤◌, ◌<◌, ◌≡◌, arith, true, false, ltb, ◌==◌}
use libslinga.Prelude.{if◌then◌else◌, Result, ok, length, inl, inr, ◌∙◌, sym, Bool-cases, ◌>>=◌}
use libslinga.Prelude.{refl, ok_first, ok_injective}
use native.Mathlib.Decide.{dec_lt, ℕ_discrete}
use libslinga.Memory.{Memory}
use libslinga.Sat.Partition.{PartitionInfo}
use libslinga.Sat.Partition.Bytes.{view, read_from_partition_lem}
use libslinga.Sat.Blocks.Layout.{IsPartition, block_address, block-lt, block-ge, block_size_pos}
use libslinga.Sat.Blocks.Layout.{count-le}
use libslinga.Sat.Header.{sat_start_block_tag, word_at, header_of_bytes}
use libslinga.Sat.Find.Laws.{header_at, not_outside, next_block, first_block}
use libslinga.Sat.Delete.Laws.{tag-Transfer}
use libslinga.Sat.Bitmap.{Bitmap, is_set, set_bitmap}
use libslinga.Sat.Bitmap.Laws.{IsBytes, set_bitmap-Adds}
use libslinga.Sat.Table.{TableState, read_sat_table}
use libslinga.Sat.Table.Grows.{Grows, Grows-refl, Grows-trans, Adds-Grows}
use libslinga.Sat.Table.Marks.{GrowsWith, read_sat_table-Marks}
use libslinga.Sat.Walk.{add_save, walk_bitmap_from, walk_partition_bitmap}
use libslinga.Sat.Walk.Empty.{good_blocks}

module _ {p : PartitionInfo} (v : IsPartition p) (m : Memory) where
  -- The blocks from `b` on with a start tag are in the bitmap.
  abbrev StartsIn : ℕ → Bitmap → Type 0
  StartsIn b bitmap =
      (c : ℕ)
      → b ≤ c
      → c < v.count
      → (header_at m p c).tag ≡ sat_start_block_tag
      → is_set bitmap c ≡ true

  pub add_save-GrowsWith :
      (b : ℕ) (bitmap bitmap' : Bitmap)
      → b < v.count
      → IsBytes bitmap
      → add_save m p (block_address p b) bitmap ≡ ok bitmap'
      → GrowsWith b bitmap bitmap'
  unfolding add_save
  add_save-GrowsWith b bitmap bitmap' inside bytes e =
      let s : TableState = record {
        bitmap = bitmap;
        start_data_block = 0;
        written_sat_entries = 0;
      } in
      let out = read_sat_table m p (block_address p b) s in
      let ran = ok_first out.0 (λ a. ok out.1.bitmap) bitmap' e in
      rw (← ok_injective ran.2) ((read_sat_table-Marks v m b inside).marks s ran.0 bytes ran.1)

  -- One round of the loop, at a block with a start tag or without.
  visit : ℕ → Bitmap → Result Bitmap
  visit b bitmap =
      if word_at (view m (block_address p b) p.skip_bytes 0 4) 0 == sat_start_block_tag
      then add_save m p (block_address p b) bitmap
      else ok bitmap

  -- The save in block `c` has been added, to a bitmap of the size of `bitmap`.
  pub record Added (c : ℕ) (bitmap bitmap' : Bitmap) : Type 0 where
    pub before : Bitmap
    pub after : Bitmap
    pub bytes : IsBytes before
    pub same_size : length before ≡ length bitmap
    pub ran : add_save m p (block_address p c) before ≡ ok after
    pub grows : Grows after bitmap'

  -- The bitmap has grown, and the saves from block `b` on have been added.
  abbrev Walked : ℕ → Bitmap → Bitmap → Type 0
  Walked b bitmap bitmap' =
      Grows bitmap bitmap'
      × ((c : ℕ)
          → b ≤ c
          → c < v.count
          → (header_at m p c).tag ≡ sat_start_block_tag
          → Added c bitmap bitmap')

  Added-later :
      {c : ℕ} {bitmap next bitmap' : Bitmap}
      → length next ≡ length bitmap
      → Added c next bitmap'
      → Added c bitmap bitmap'
  Added-later same a = record {
    before = a.before;
    after = a.after;
    bytes = a.bytes;
    same_size = a.same_size ∙ same;
    ran = a.ran;
    grows = a.grows;
  }

  Added-is_set :
      {c : ℕ} {bitmap bitmap' : Bitmap}
      → c < v.count
      → Added c bitmap bitmap'
      → is_set bitmap' c ≡ true
  Added-is_set {c} inside a =
      let here = add_save-GrowsWith c a.before a.after inside a.bytes a.ran in
      a.grows.keeps c (omega (arith, here.1, here.0.same_size)) here.2

  visit-Grows :
      (b : ℕ) (bitmap bitmap' : Bitmap)
      → b < v.count
      → IsBytes bitmap
      → visit b bitmap ≡ ok bitmap'
      → Grows bitmap bitmap'
        × ((header_at m p b).tag ≡ sat_start_block_tag
            → add_save m p (block_address p b) bitmap ≡ ok bitmap')
  unfolding visit view header_of_bytes
  visit-Grows b bitmap bitmap' inside bytes e =
      elim (Bool-cases ((header_at m p b).tag == sat_start_block_tag)) [
        | inl start ↦
            let ran = rw start at e in
            ((add_save-GrowsWith b bitmap bitmap' inside bytes ran).0, λ t. ran)
        | inr other ↦ (
          rw (← ok_injective (rw other at e)) (Grows-refl bitmap bytes),
          λ t. absurd (ground (arith, t, other)),
        )
      ]

  walk-Walked :
      (fuel b : ℕ) (bitmap bitmap' : Bitmap)
      → b ≤ v.count
      → v.count < fuel + b
      → IsBytes bitmap
      → walk_bitmap_from fuel m p (b * p.block_size) bitmap ≡ ok bitmap'
      → Walked b bitmap bitmap'
  unfolding walk_bitmap_from visit view
  walk-Walked zero b bitmap bitmap' le f bytes e = absurd (omega arith)
  walk-Walked (suc fuel) b bitmap bitmap' le f bytes e = elim (dec_lt b v.count) [
    | yes h ↦
        at_block h
          (λ next bytes' rest.
            walk-Walked fuel (b + 1) next bitmap' (omega arith) (omega arith) bytes' rest)
          (rw
            (
              inside h,
              not_outside v m b h,
              read_from_partition_lem m (block_address p b) 0 4 p.skip_bytes (tag-Transfer v b),
              next_block v m b h,
            )
            at e)
    | no h ↦ (
      rw (← ok_injective (rw (past h) at e)) (Grows-refl bitmap bytes),
      λ c lo hi. absurd (omega arith),
    )
  ]
    where
      inside : b < v.count → ltb (b * p.block_size) p.partition_size ≡ true
      inside h = ground (arith, block-lt v b h, block_size_pos v)

      past : ¬ (b < v.count) → ltb (b * p.block_size) p.partition_size ≡ false
      past h = ground (arith, block-ge v b (omega arith))

      at_block :
          b < v.count
          → ((next : Bitmap)
              → IsBytes next
              → walk_bitmap_from fuel m p ((b + 1) * p.block_size) next ≡ ok bitmap'
              → Walked (b + 1) next bitmap')
          → (visit b bitmap >>= walk_bitmap_from fuel m p ((b + 1) * p.block_size)) ≡ ok bitmap'
          → Walked b bitmap bitmap'
      at_block h again ran =
          let first = ok_first (visit b bitmap) _ bitmap' ran in
          let here = visit-Grows b bitmap first.0 h bytes first.1 in
          let later = again first.0 here.0.bytes first.2 in
          (
            Grows-trans here.0 later.0,
            λ c lo hi t. elim (ℕ_discrete b c) [
              | yes same ↦ record {
                before = bitmap;
                after = first.0;
                bytes = bytes;
                same_size = refl;
                ran = rw (← same) (here.1 (rw same t));
                grows = later.0;
              }
              | no other ↦ Added-later here.0.same_size (later.1 c (omega arith) hi t)
            ],
          )

  -- `bitmap'` has the blocks of `bitmap`, the first two blocks of the partition and every other
  -- block with a start tag; and the table of each of these saves has been read into it.
  pub record Covers (bitmap bitmap' : Bitmap) : Type 0 where
    pub grows : Grows bitmap bitmap'
    pub first : is_set bitmap' 0 ≡ true
    pub second : is_set bitmap' 1 ≡ true
    pub starts : StartsIn 2 bitmap'
    pub added :
        (c : ℕ)
        → 2 ≤ c
        → c < v.count
        → (header_at m p c).tag ≡ sat_start_block_tag
        → Added c bitmap bitmap'

  pub set_bitmap-GrowsWith :
      (i : ℕ) (bitmap bitmap' : Bitmap)
      → IsBytes bitmap
      → set_bitmap i bitmap ≡ ok bitmap'
      → GrowsWith i bitmap bitmap'
  set_bitmap-GrowsWith i bitmap bitmap' bytes e = elim (set_bitmap-Adds i bitmap bytes) [
    | inl (lt, (added, ran, adds)) ↦
        rw (ok_injective (sym e ∙ ran)) (Adds-Grows adds, lt, ground (arith, adds.bits i lt))
    | inr (ge, failed) ↦ cc (e, failed)
  ]

  -- When `walk_partition_bitmap` succeeds on a well-formed partition, its bitmap is as large as the
  -- one it was given and still has that one's blocks; it has the first two blocks of the partition,
  -- and every other block whose header has the start tag, whose table has been read into it.
  pub walk_partition_bitmap-Covers :
      (bitmap bitmap' : Bitmap)
      → IsBytes bitmap
      → walk_partition_bitmap m bitmap p ≡ ok bitmap'
      → Covers bitmap bitmap'
  unfolding walk_partition_bitmap
  walk_partition_bitmap-Covers bitmap bitmap' bytes e = record {
    grows = Grows-trans one.0 (Grows-trans two.0 walked.0);
    first =
        walked.0.keeps 0 (omega (arith, one.1, one.0.same_size, two.0.same_size))
          (two.0.keeps 0 (omega (arith, one.1, one.0.same_size)) one.2);
    second = walked.0.keeps 1 (omega (arith, two.1, two.0.same_size)) two.2;
    starts = λ c lo hi t. Added-is_set hi (walked.1 c lo hi t);
    added = λ c lo hi t. Added-later (two.0.same_size ∙ one.0.same_size) (walked.1 c lo hi t);
  }
    where
      loop : Bitmap → Result Bitmap
      loop b = walk_bitmap_from (suc p.partition_size) m p (2 * p.block_size) b

      ran : (set_bitmap 0 bitmap >>= λ b. set_bitmap 1 b >>= loop) ≡ ok bitmap'
      ran = elim (Bool-cases (length bitmap == 0)) [
        | inl empty ↦ cc (rw empty at e)
        | inr given ↦ rw (given, good_blocks v, first_block v m) at e
      ]

      at_0 : (b : Bitmap) × (set_bitmap 0 bitmap ≡ ok b) × ((set_bitmap 1 b >>= loop) ≡ ok bitmap')
      at_0 = ok_first _ _ bitmap' ran

      at_1 : (b : Bitmap) × (set_bitmap 1 at_0.0 ≡ ok b) × (loop b ≡ ok bitmap')
      at_1 = ok_first _ _ bitmap' at_0.2

      one : GrowsWith 0 bitmap at_0.0
      one = set_bitmap-GrowsWith 0 bitmap at_0.0 bytes at_0.1

      two : GrowsWith 1 at_0.0 at_1.0
      two = set_bitmap-GrowsWith 1 at_0.0 at_1.0 one.0.bytes at_1.1

      walked : Walked 2 at_1.0 bitmap'
      walked =
          walk-Walked (suc p.partition_size) 2 at_1.0 bitmap' v.two_blocks
            (omega (arith, count-le v)) two.0.bytes at_1.2
