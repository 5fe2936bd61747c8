-- ===== src/Sat/Walk/Ends.antt =====
-- devices/sat/sat.c: `walk_partition_bitmap` and the look for free blocks end.
use libslinga.Prelude.{ℕ, zero, suc, ◌+◌, ◌*◌, ◌/◌, ◌^◌, ◌≤◌, ◌<◌, ◌≡◌, arith, true, false, ltb}
use libslinga.Prelude.{◌==◌, if◌then◌else◌, ok, Error, length, inl, inr, Bool-cases, ◌>>=◌}
use libslinga.Prelude.Ends.{Ends, Ends-ok, Ends-err, Ends-bind, Ends-guard, Ends-if}
use native.Mathlib.Decide.{dec_lt}
use libslinga.Memory.{Memory}
use libslinga.Sat.Partition.{PartitionInfo}
use libslinga.Sat.Partition.Bytes.{view, read_from_partition_lem}
use libslinga.Sat.Blocks.Layout.{IsPartition, block_address, block-lt, block-ge, block_size_pos}
use libslinga.Sat.Blocks.Layout.{count-le}
use libslinga.Sat.Header.{sat_start_block_tag, header_of_bytes}
use libslinga.Sat.Find.Laws.{header_at, not_outside, next_block, first_block}
use libslinga.Sat.Delete.Laws.{tag-Transfer}
use libslinga.Sat.Bitmap.{Bitmap, set_bitmap, clear_bitmap, invert_bitmap, count_bitmap}
use libslinga.Sat.Bitmap.Laws.{IsBytes, clear_bitmap-IsBytes}
use libslinga.Sat.Table.{read_sat_table}
use libslinga.Sat.Table.Ends.{read_sat_table-Ends, set_bitmap-Ends, count_bitmap-Ends}
use libslinga.Sat.Walk.{add_save, walk_bitmap_from, walk_partition_bitmap}
use libslinga.Sat.Walk.Empty.{good_blocks}
use libslinga.Sat.Walk.Busy.{add_save-GrowsWith, set_bitmap-GrowsWith}
use libslinga.Sat.Write.{free_blocks_for}
use libslinga.Sat.Write.Free.{get_bitmap_size_lem}

module _ {p : PartitionInfo} (v : IsPartition p) (m : Memory)
    (small : (b : ℕ)
      → 2 ≤ b
      → b < v.count
      → (header_at m p b).tag ≡ sat_start_block_tag
      → (header_at m p b).data_size ≤ 2 ^ 30) where
  add_save-Ends :
      (b : ℕ) (bitmap : Bitmap)
      → (header_at m p b).data_size ≤ 2 ^ 30
      → IsBytes bitmap
      → Ends (add_save m p (block_address p b) bitmap)
  unfolding add_save
  add_save-Ends b bitmap fits bytes =
      Ends-bind
        (read_sat_table m p (block_address p b)
          (record { bitmap = bitmap; start_data_block = 0; written_sat_entries = 0 })).0
        _
        (read_sat_table-Ends v m b
          (record { bitmap = bitmap; start_data_block = 0; written_sat_entries = 0 }) fits bytes)
        (λ start e. Ends-ok _)

  walk-Ends :
      (fuel b : ℕ) (bitmap : Bitmap)
      → 2 ≤ b
      → b ≤ v.count
      → v.count < fuel + b
      → IsBytes bitmap
      → Ends (walk_bitmap_from fuel m p (b * p.block_size) bitmap)
  unfolding walk_bitmap_from view header_of_bytes
  walk-Ends zero b bitmap lo le f bytes = absurd (omega arith)
  walk-Ends (suc fuel) b bitmap lo le f bytes = elim (dec_lt b v.count) [
    | yes h ↦
        rw
          (
            inside h,
            not_outside v m b h,
            read_from_partition_lem m (block_address p b) 0 4 p.skip_bytes (tag-Transfer v b),
            next_block v m b h,
          )
          (at_block h (λ next bytes'.
            walk-Ends fuel (b + 1) next (omega arith) (omega arith) (omega arith) bytes'))
    | no h ↦ rw (past h) (Ends-ok bitmap)
  ]
    where
      inside : b < v.count → ltb (b * p.block_size) p.partition_size ≡ true
      inside h = ground (arith, block-lt v b h, block_size_pos v)

      past : ¬ (b < v.count) → ltb (b * p.block_size) p.partition_size ≡ false
      past h = ground (arith, block-ge v b (omega arith))

      at_block :
          b < v.count
          → ((next : Bitmap)
              → IsBytes next
              → Ends (walk_bitmap_from fuel m p ((b + 1) * p.block_size) next))
          → Ends (
              (if (header_at m p b).tag == sat_start_block_tag
                then add_save m p (block_address p b) bitmap
                else ok bitmap)
              >>= walk_bitmap_from fuel m p ((b + 1) * p.block_size))
      at_block h again = elim (Bool-cases ((header_at m p b).tag == sat_start_block_tag)) [
        | inl start ↦ rw start (
            Ends-bind (add_save m p (block_address p b) bitmap) _
              (add_save-Ends b bitmap (small b lo h (ground (arith, start))) bytes)
              (λ next e. again next (add_save-GrowsWith v m b bitmap next h bytes e).0.bytes))
        | inr other ↦ rw other (again bitmap bytes)
      ]

  walk_partition_bitmap-Ends :
      (bitmap : Bitmap) → IsBytes bitmap → Ends (walk_partition_bitmap m bitmap p)
  unfolding walk_partition_bitmap
  walk_partition_bitmap-Ends bitmap bytes =
      Ends-guard (length bitmap == 0) Error.invalid_parameter _ λ e1.
        rw (good_blocks v, first_block v m)
          (Ends-bind (set_bitmap 0 bitmap) _ (set_bitmap-Ends 0 bitmap) λ b e2.
            Ends-bind (set_bitmap 1 b) _ (set_bitmap-Ends 1 b) λ b' e3.
              walk-Ends (suc p.partition_size) 2 b' (omega arith) v.two_blocks
                (omega (arith, count-le v))
                (set_bitmap-GrowsWith v m 1 b b'
                  (set_bitmap-GrowsWith v m 0 bitmap b bytes e2).0.bytes e3).0.bytes)

  pub free_blocks_for-Ends : (n : ℕ) → Ends (free_blocks_for m p n)
  unfolding free_blocks_for invert_bitmap
  free_blocks_for-Ends n = rw (get_bitmap_size_lem v m) (
      Ends-bind (walk_partition_bitmap m (clear_bitmap (v.count / 8)) p) _
        (walk_partition_bitmap-Ends (clear_bitmap (v.count / 8))
          (clear_bitmap-IsBytes (v.count / 8)))
        λ busy e1.
          Ends-bind (invert_bitmap busy) _
            (Ends-guard (length busy == 0) Error.invalid_parameter _ (λ e. Ends-ok _))
            λ free e2. Ends-bind (count_bitmap free) _ (count_bitmap-Ends free) λ blocks e3.
              Ends-if (ltb blocks n) _ _ (λ e. Ends-err Error.not_enough_space) (λ e. Ends-ok free))
