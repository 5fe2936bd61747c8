-- ===== src/Sat/Walk/Empty.antt =====
-- devices/sat/sat.c: partitions with no start tag past the first two blocks.
use libslinga.Prelude.{ℕ, zero, suc, ◌+◌, ◌*◌, ◌/◌, ◌%◌, ◌≤◌, ◌<◌, ◌≡◌, ◌≢◌, refl, arith, true}
use libslinga.Prelude.{false, ◌==◌, ltb, List, Option, some, none, ◌∙◌, ok, err, Error, inl, inr}
use libslinga.Prelude.{ap}
use native.Mathlib.Decide.{dec_lt}
use native.Mathlib.Nat.{mul-mod_left, mul-le-mul_right}
use libslinga.Memory.{Memory}
use libslinga.Sat.Partition.{PartitionInfo}
use libslinga.Sat.Partition.Bytes.{byte_address}
use libslinga.Sat.Blocks.Count.{valid_size}
use libslinga.Sat.Blocks.Layout.{IsPartition, block_address, block-lt, block-ge, block_size_pos}
use libslinga.Sat.Blocks.Layout.{count-le}
use libslinga.Sat.Header.{sat_start_block_tag, SaveMetadata}
use libslinga.Sat.Find.{starts_save, find_save}
use libslinga.Sat.Find.Laws.{header_at, tag-header_at, FirstSave, find_save-FirstSave}
use libslinga.Sat.Find.Laws.{not_outside, read_header_lem, next_block, first_block}
use libslinga.Sat.Format.{sat_format}
use libslinga.Sat.Format.Laws.{Formats, sat_format-Formats}
use libslinga.Sat.Walk.{WalkState, walk_from, visit_block, bad_blocks, walk_partition}
use libslinga.Sat.Walk.{sat_get_used_blocks, sat_list_saves}

module _ {p : PartitionInfo} (v : IsPartition p) where
  abbrev pub Untagged : Memory → Type 0
  Untagged m = (b : ℕ) → 2 ≤ b → b < v.count → (header_at m p b).tag ≢ sat_start_block_tag

  module _ (m : Memory) (num_saves : ℕ) (none_tagged : Untagged m) where
    walk_from-Untagged :
        (fuel b : ℕ) (s : WalkState)
        → 2 ≤ b
        → b ≤ v.count
        → v.count < fuel + b
        → walk_from fuel m p num_saves (b * p.block_size) s ≡ ok s
    unfolding walk_from visit_block
    walk_from-Untagged zero b s lo le f = absurd (omega arith)
    walk_from-Untagged (suc fuel) b s lo le f = elim (dec_lt b v.count) [
      | yes h ↦
          rw (inside h, not_outside v m b h, read_header_lem v m b, untagged h, next_block v m b h)
            (walk_from-Untagged fuel (b + 1) s (omega arith) (omega arith) (omega arith))
      | no h ↦ rw (past h) refl
    ]
      where
        inside : b < v.count → ltb (b * p.block_size) p.partition_size ≡ true
        inside h = ground (arith, block-lt v b h, block_size_pos v)

        past : ¬ (b < v.count) → ltb (b * p.block_size) p.partition_size ≡ false
        past h = ground (arith, block-ge v b (omega arith))

        untagged : b < v.count → ((header_at m p b).tag == sat_start_block_tag) ≡ false
        untagged h = ground (arith, none_tagged b lo h)

  pub good_blocks : bad_blocks p ≡ false
  good_blocks = ground (arith, whole', block-lt v 0 (omega (arith, v.two_blocks)))
    where
      whole' : p.partition_size % p.block_size ≡ 0
      whole' = rw v.whole (mul-mod_left v.count p.block_size)

  pub walk_partition-Untagged :
      (m : Memory) (saves : Option (List SaveMetadata)) (num_saves : ℕ)
      → Untagged m
      → walk_partition m p saves num_saves
        ≡ ok (record { saves = saves; saves_found = 0; blocks_found = 0 })
  unfolding walk_partition
  walk_partition-Untagged m saves num_saves none_tagged =
      rw (good_blocks, first_block v m)
        (walk_from-Untagged m num_saves none_tagged (suc p.partition_size) 2 _ (omega arith)
          v.two_blocks (omega (arith, count-le v)))

  pub find_save-Untagged :
      (m : Memory) (filename : List ℕ)
      → Untagged m
      → find_save m (some filename) p ≡ err Error.not_found
  find_save-Untagged m filename none_tagged = go (find_save-FirstSave v m filename)
    where
      go :
          FirstSave v m filename 2 (find_save m (some filename) p)
          → find_save m (some filename) p ≡ err Error.not_found
      go (inl (b, e, lo, hi, hit, h)) =
          absurd (none_tagged b lo hi (unfold starts_save in ground arith))
      go (inr (e, h)) = e

  module _ (skips : p.skip_bytes ≡ 1) where
    halves : valid_size p.block_size p.skip_bytes ≡ p.block_size / 2
    halves = rw skips refl

    -- A block's bytes among those of the partition.
    byte_of_block :
        (b k : ℕ)
        → byte_address (block_address p b) p.skip_bytes k
          ≡ byte_address p.partition_buf p.skip_bytes (b * (p.block_size / 2) + k)
    byte_of_block b k = rw skips (omega (arith, ap (λ (t : ℕ). b * t) whole'))
      where
        whole' : p.block_size ≡ 2 * (p.block_size / 2)
        whole' = omega (arith, v.aligned)

    format-zeros :
        (m m' : Memory) (b k : ℕ)
        → Formats v m m'
        → 2 ≤ b
        → b < v.count
        → k < 4
        → m' (byte_address (block_address p b) p.skip_bytes k) ≡ 0
    format-zeros m m' b k f lo hi h = ap m' (byte_of_block b k) ∙ f.zeros _ (rw halves above) below
      where
        whole' : p.block_size ≡ 2 * (p.block_size / 2)
        whole' = omega (arith, v.aligned)

        above : p.block_size / 2 ≤ b * (p.block_size / 2) + k
        above = omega (arith, mul-le-mul_right {m = 1} {n = b} (p.block_size / 2) (omega arith))

        below : b * (p.block_size / 2) + k < p.partition_size / 2
        below = omega (arith, ap (λ (t : ℕ). b * t) whole', block-lt v b hi, block_size_pos v)

    sat_format-Untagged : (m m' : Memory) → Formats v m m' → Untagged m'
    sat_format-Untagged m m' f b lo hi e = absurd (
        omega (
          arith,
          e,
          tag-header_at m' p b,
          format-zeros m m' b 0 f lo hi (omega arith),
          format-zeros m m' b 1 f lo hi (omega arith),
          format-zeros m m' b 2 f lo hi (omega arith),
          format-zeros m m' b 3 f lo hi (omega arith),
        ))

    -- On a well-formed partition where every other byte is valid, `sat_format` succeeds, and
    -- after it no name is found, and listing and counting give no saves and no used blocks.
    pub sat_format_empties :
        (m : Memory) (filename : List ℕ) (saves : Option (List SaveMetadata)) (num_saves : ℕ)
        → let (r, m') = sat_format p m in
          (r ≡ ok tt)
          × (find_save m' (some filename) p ≡ err Error.not_found)
          × (sat_list_saves m' p saves num_saves
              ≡ ok (record { saves = saves; saves_found = 0; blocks_found = 0 }))
          × (sat_get_used_blocks m' p ≡ ok 0)
    unfolding sat_list_saves sat_get_used_blocks
    sat_format_empties m filename saves num_saves = go (sat_format-Formats v m)
      where
        go :
            ((m' : Memory) × (sat_format p m ≡ (ok tt, m')) × Formats v m m')
            → let (r, m') = sat_format p m in
              (r ≡ ok tt)
              × (find_save m' (some filename) p ≡ err Error.not_found)
              × (sat_list_saves m' p saves num_saves
                  ≡ ok (record { saves = saves; saves_found = 0; blocks_found = 0 }))
              × (sat_get_used_blocks m' p ≡ ok 0)
        go (m', ran, f) =
            let none_tagged = sat_format-Untagged m m' f in
            rw ran (
              refl,
              find_save-Untagged m' filename none_tagged,
              walk_partition-Untagged m' saves num_saves none_tagged,
              rw (walk_partition-Untagged m' none 0 none_tagged) refl,
            )
