-- ===== src/Devices/Saturn/Laws.antt =====
-- devices/saturn.c: the partitions that the driver hands to the SAT functions, and its figures.
use libslinga.Sat.Blocks.Layout.{count-le, IsPartition}
use libslinga.Prelude.{ltb, ℕ, ◌+◌, ◌-◌, ◌*◌, ◌/◌, ◌^◌, ◌≤◌, ◌<◌, ◌≡◌, ◌⊎◌, refl, arith, inl, inr}
use libslinga.Prelude.{true, ◌==◌, if◌then◌else◌, u32, sub32, Result, ok, err, Error, Bool-cases}
use libslinga.Prelude.{◌∙◌, ap}
use native.Mathlib.Nat.{mul-div_cancel, mul-le-mul_right}
use libslinga.Sat.Partition.{PartitionInfo}
use libslinga.Sat.Bitmap.{get_bitmap_size, sat_max_bitmap}
use libslinga.Sat.Blocks.Count.{valid_size}
use libslinga.Context.{BackupStat, device_cartridge}
use libslinga.Devices.Saturn.{internal_info, cartridge_info, not_saturn, get_partition_info}
use libslinga.Devices.Saturn.{stat_of}

-- A partition that the SAT functions can work on: its bitmap fits the array.
pub record Fits (p : PartitionInfo) : Type 0 where
  pub partition : IsPartition p
  pub bitmap_size : ℕ
  pub bitmap : get_bitmap_size p sat_max_bitmap ≡ ok bitmap_size
  pub in_array : bitmap_size ≤ sat_max_bitmap

pub internal_info-Fits : Fits internal_info
unfolding get_bitmap_size
internal_info-Fits = record {
  partition = record {
    count = 512;
    two_blocks = omega arith;
    whole = refl;
    not_null = omega arith;
    good_skip = inr refl;
    aligned = refl;
    valid_aligned = refl;
    wide = omega arith;
    small = omega arith;
  };
  bitmap_size = 64;
  bitmap = refl;
  in_array = omega arith;
}

pub cartridge_info-Fits :
    (blocks size : ℕ)
    → 2 ≤ blocks
    → blocks ≤ 0x1000
    → (size ≡ 0x400) ⊎ (size ≡ 0x800)
    → Fits (cartridge_info blocks size)
unfolding get_bitmap_size
cartridge_info-Fits blocks size lo hi sizes = record {
  partition = record {
    count = blocks;
    two_blocks = lo;
    whole = refl;
    not_null = omega arith;
    good_skip = inr refl;
    aligned = ground (arith, sizes);
    valid_aligned = ground (arith, sizes);
    wide = ground (arith, sizes);
    small = elim sizes [ inl e ↦ rw e (omega arith) | inr e ↦ rw e (omega arith) ];
  };
  bitmap_size = blocks / 8;
  bitmap = elim sizes [ inl e ↦ rw e (ground arith) | inr e ↦ rw e (ground arith) ];
  in_array = omega arith;
}

-- The partition of a device and cartridge, or that there is none.
abbrev pub Partitioned : Result PartitionInfo → Type 0
Partitioned r = ((p : PartitionInfo) × (r ≡ ok p) × Fits p) ⊎ (r ≡ err Error.invalid_device_type)

by_type : (cart_type : ℕ) → Partitioned (get_partition_info device_cartridge cart_type)
unfolding get_partition_info
by_type cart_type = elim (Bool-cases (cart_type == 1)) [
  | inl e ↦
      rw e (inl (_, refl, cartridge_info-Fits 0x400 0x400 (omega arith) (omega arith) (inl refl)))
  | inr no_512k ↦ rw no_512k (elim (Bool-cases (cart_type == 2)) [
    | inl e ↦
        rw e (inl (_, refl, cartridge_info-Fits 0x800 0x400 (omega arith) (omega arith) (inl refl)))
    | inr no_1mb ↦ rw no_1mb (elim (Bool-cases (cart_type == 3)) [
      | inl e ↦
          rw e
            (inl (_, refl, cartridge_info-Fits 0x1000 0x400 (omega arith) (omega arith) (inl refl)))
      | inr no_2mb ↦ rw no_2mb (elim (Bool-cases (cart_type == 4)) [
        | inl e ↦
            rw e (
              inl
                (_, refl, cartridge_info-Fits 0x1000 0x800 (omega arith) (omega arith) (inr refl)))
        | inr unknown ↦ rw unknown (inr refl)
      ])
    ])
  ])
]

-- For every device type and cartridge type, `get_partition_info` gives a well-formed partition
-- whose bitmap fits the array, or says SLINGA_INVALID_DEVICE_TYPE.
pub get_partition_info-Fits :
    (device_type cart_type : ℕ) → Partitioned (get_partition_info device_type cart_type)
unfolding get_partition_info
get_partition_info-Fits device_type cart_type = elim (Bool-cases (not_saturn device_type)) [
  | inl other ↦ rw other (inr refl)
  | inr saturn ↦ rw saturn (elim (Bool-cases (device_type == 0)) [
    | inl internal ↦ rw internal (inl (internal_info, refl, internal_info-Fits))
    | inr cartridge ↦ rw cartridge (by_type cart_type)
  ])
]

-- The figures that `stat` reports agree: the blocks are all but the first two, those free and those
-- used make them up, as many as used are taken even when the count is too large, and the sizes in
-- bytes are those of the blocks.
pub record Consistent (count used : ℕ) (s : BackupStat) : Type 0 where
  pub all_blocks : s.total_blocks + 2 ≡ count
  pub total : s.total_bytes ≡ s.total_blocks * s.block_size
  pub free_bytes : s.free_bytes ≡ s.free_blocks * s.block_size
  pub saves : s.max_saves_possible ≡ s.free_blocks
  pub few : used ≤ s.total_blocks → s.free_blocks + used ≡ s.total_blocks
  pub many : s.total_blocks < used → s.free_blocks ≡ 0

-- For a well-formed partition the figures of `stat` agree: the blocks are all but the first two,
-- the sizes in bytes are those of the blocks, the free blocks and the used ones make up all of
-- them, and none is free when more are counted as used than there are.
pub stat_of-Consistent :
    {p : PartitionInfo} (v : IsPartition p) (used : ℕ) → Consistent v.count used (stat_of p used)
unfolding stat_of
stat_of-Consistent {p} v used =
    rw (sized, total, blocks, free)
      (record {
        all_blocks = omega (arith, counted);
        total = refl;
        free_bytes = fits _ (omega arith);
        saves = refl;
        few = λ h. ground arith;
        many = λ h. ground arith;
      })
  where
    V : ℕ
    V = valid_size p.block_size p.skip_bytes

    k : ℕ
    k = v.count - 2

    counted : v.count ≡ k + 2
    counted = omega (arith, v.two_blocks)

    even : p.block_size ≡ 2 * (p.block_size / 2)
    even = omega (arith, v.aligned)

    whole' : p.partition_size ≡ (k + 2) * p.block_size
    whole' = v.whole ∙ ap (λ x. x * p.block_size) counted

    halved : (p.skip_bytes == 1) ≡ true → p.partition_size / 2 ≡ (k + 2) * (p.block_size / 2)
    halved half = omega (arith, ap (λ (t : ℕ). (k + 2) * t) even, whole')

    sized : (if p.skip_bytes == 1 then p.partition_size / 2 else p.partition_size) ≡ (k + 2) * V
    sized = elim (Bool-cases (p.skip_bytes == 1)) [
      | inl half ↦ rw half (halved half)
      | inr all ↦ rw all whole'
    ]

    small : (k + 2) * V ≤ 2 ^ 30
    small = ground (arith, sized, v.small)

    total : sub32 ((k + 2) * V) (u32 (2 * V)) ≡ k * V
    total = omega (arith, small)

    blocks : k * V / V ≡ k
    blocks = mul-div_cancel k (omega (arith, v.wide))

    few_blocks : k < 2 ^ 32
    few_blocks = omega (arith, count-le v, v.small)

    free : sub32 k (if ltb k used then k else used) ≡ k - used
    free = elim (Bool-cases (ltb k used)) [
      | inl over ↦ rw over (ground (arith, few_blocks, over))
      | inr within ↦ rw within (ground (arith, few_blocks, within))
    ]

    fits : (n : ℕ) → n ≤ k → u32 (n * V) ≡ n * V
    fits n le = omega (arith, small, mul-le-mul_right {m = n} {n = k} V le)
