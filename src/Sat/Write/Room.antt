-- ===== src/Sat/Write/Room.antt =====
-- devices/sat/sat.c: the parts of a write stay within the free blocks.
use libslinga.Prelude.{u32, ℕ, ◌+◌, ◌^◌, ◌≤◌, ◌<◌, ◌≡◌, ◌≢◌, arith, true, ◌==◌, ok, Error, length}
use libslinga.Prelude.{inl, inr, ◌∙◌, sym, List, ok_injective}
use libslinga.Sat.Bitmap.Laws.{capacity, FirstSet, get_next_block_bitmap-FirstSet}
use libslinga.Prelude.Action.{lift}
use native.Mathlib.Decide.{ℕ_discrete}
use libslinga.Memory.{Memory}
use libslinga.Sat.Partition.{PartitionInfo, write_to_partition, memset_partition}
use libslinga.Sat.Partition.Bytes.{byte_address, fill, Transfer, write_to_partition_lem}
use libslinga.Sat.Partition.Bytes.{memset_partition_lem}
use libslinga.Sat.Partition.Laws.{fill_miss}
use libslinga.Sat.Blocks.{convert_block_index_to_address}
use libslinga.Sat.Blocks.Count.{valid_size}
use libslinga.Sat.Blocks.Layout.{IsPartition, block_address, to_address, block-lt}
use libslinga.Sat.Header.{SaveMetadata}
use libslinga.Sat.Bitmap.{Bitmap, is_set, get_next_block_bitmap}
use libslinga.Sat.Write.{write_header}
use libslinga.Sat.Write.Confined.{Confined, Any, Confined-bind, Confined-lift, Confined-guard}

-- A block that `get_next_block_bitmap` gives is in the bitmap.
pub next_is_set :
    (i n : ℕ) (bitmap : Bitmap) → get_next_block_bitmap i bitmap ≡ ok n → is_set bitmap n ≡ true
unfolding get_next_block_bitmap
next_is_set i n bitmap e = elim (ℕ_discrete (length bitmap) 0) [
  | yes empty ↦ cc (rw empty at e)
  | no ne ↦ found (get_next_block_bitmap-FirstSet i bitmap ne)
]
  where
    found :
        FirstSet bitmap (u32 (i + 1)) (u32 (capacity bitmap)) (get_next_block_bitmap i bitmap)
        → is_set bitmap n ≡ true
    found (inl (n', e', lo, hi, hit, h)) = rw (ok_injective (sym e ∙ e')) hit
    found (inr (e', h)) = cc (e, e')

module _ {p : PartitionInfo} (v : IsPartition p) (free : Bitmap) where
  abbrev pub size_v : ℕ
  size_v = valid_size p.block_size p.skip_bytes

  -- The addresses of the valid bytes of the blocks of `free`.
  abbrev pub InFree : ℕ → Type 0
  InFree a =
      (b : ℕ) × (k : ℕ) × (is_set free b ≡ true)
      × (k < size_v)
      × (a ≡ byte_address (block_address p b) p.skip_bytes k)

  module _ (inside : (b : ℕ) → is_set free b ≡ true → b < v.count) where
    pub size_v-small : size_v ≤ 2 ^ 30
    size_v-small = ground (arith, block-lt v 0 (omega (arith, v.two_blocks)), v.small)

    in_block :
        (b off n : ℕ)
        → is_set free b ≡ true
        → n ≢ 0
        → off + n ≤ size_v
        → Transfer (block_address p b) off n p.skip_bytes
    in_block b off n hit ne fits = record {
      not_null = omega (arith, v.not_null);
      not_empty = ne;
      good_skip = v.good_skip;
      in_range = omega (arith, size_v-small);
    }

    fill_elsewhere :
        (b off n : ℕ) (val : ℕ → ℕ) (m : Memory) (a : ℕ)
        → is_set free b ≡ true
        → off + n ≤ size_v
        → ¬ InFree a
        → fill (block_address p b) p.skip_bytes off val 0 n m a ≡ m a
    fill_elsewhere b off n val m a hit fits out =
        fill_miss (block_address p b) p.skip_bytes off val 0 n m a
          (λ k lo hi e. out (b, k, hit, omega arith, e))

    pub write-Confined :
        (b off n : ℕ) (src : List ℕ)
        → is_set free b ≡ true
        → off + n ≤ size_v
        → Confined InFree Any (write_to_partition (block_address p b) off src n p.skip_bytes)
    unfolding write_to_partition
    write-Confined b off n src hit fits = elim (ℕ_discrete n 0) [
      | yes empty ↦ rw empty (record { elsewhere = λ m a out. ground arith; good = λ m x e. tt })
      | no ne ↦ record {
        elsewhere = λ m a out.
            rw
              (write_to_partition_lem (block_address p b) off src n p.skip_bytes m
                (in_block b off n hit ne fits))
              (fill_elsewhere b off n _ m a hit fits out);
        good = λ m x e. tt;
      }
    ]

    pub memset-Confined :
        (b val n : ℕ)
        → is_set free b ≡ true
        → n ≢ 0
        → n ≤ size_v
        → Confined InFree Any (memset_partition (block_address p b) 0 val n p.skip_bytes)
    memset-Confined b val n hit ne fits = record {
      elsewhere = λ m a out.
          rw
            (memset_partition_lem (block_address p b) 0 val n p.skip_bytes m
              (in_block b 0 n hit ne (omega arith)))
            (fill_elsewhere b 0 n _ m a hit (omega arith) out);
      good = λ m x e. tt;
    }

    pub address-Confined :
        (b : ℕ)
        → is_set free b ≡ true
        → Confined InFree
            (λ (x : ℕ). x ≡ block_address p b)
            (lift (convert_block_index_to_address b p))
    address-Confined b hit =
        Confined-lift (convert_block_index_to_address b p)
          (λ x e. ok_injective (sym e ∙ to_address v b (inside b hit)))

    pub next-Confined :
        (i : ℕ)
        → Confined InFree (λ (x : ℕ). is_set free x ≡ true) (lift (get_next_block_bitmap i free))
    next-Confined i = Confined-lift (get_next_block_bitmap i free) (λ x e. next_is_set i x free e)

    pub write_header-Confined :
        (b size : ℕ) (metadata : SaveMetadata)
        → is_set free b ≡ true
        → Confined InFree Any (write_header b size metadata p)
    unfolding write_header
    write_header-Confined b size metadata hit =
        Confined-guard (size == 0) Error.invalid_parameter _ λ ne.
          Confined-bind (lift (convert_block_index_to_address b p)) _ (address-Confined b hit)
            λ x e. rw e (write-Confined b 0 34 _ hit (omega (arith, v.wide)))
