-- ===== src/Sat/Blocks/Layout.antt =====
-- devices/sat/sat.c: the blocks of a well-formed partition, and their indices and addresses.
use libslinga.Prelude.{ℕ, ◌+◌, ◌-◌, ◌*◌, ◌/◌, ◌%◌, ◌^◌, ◌≤◌, ◌<◌, ◌≡◌, ◌≢◌, ◌⊎◌, arith, false}
use libslinga.Prelude.{suc, u32, ok, err, Error, inl, inr}
use native.Mathlib.Nat.{mul-le-mul_right, div-eq_of_lt-le}
use native.Mathlib.Decide.{dec_lt}
use libslinga.Sat.Partition.{PartitionInfo, bad_skip}
use libslinga.Sat.Partition.Bytes.{GoodSkip, byte_address}
use libslinga.Sat.Blocks.{convert_address_to_block_index, convert_block_index_to_address}
use libslinga.Sat.Blocks.Count.{valid_size}

-- A partition of `count` whole blocks, as the drivers set them up.
pub record IsPartition (p : PartitionInfo) : Type 0 where
  pub count : ℕ
  pub two_blocks : 2 ≤ count
  pub whole : p.partition_size ≡ count * p.block_size
  pub not_null : p.partition_buf ≢ 0
  pub good_skip : GoodSkip p.skip_bytes
  pub aligned : p.block_size % 64 ≡ 0
  pub valid_aligned : valid_size p.block_size p.skip_bytes % 64 ≡ 0
  pub wide : 64 ≤ valid_size p.block_size p.skip_bytes
  pub small : p.partition_size ≤ 2 ^ 30

abbrev pub block_address : PartitionInfo → ℕ → ℕ
block_address p b = p.partition_buf + b * p.block_size

module _ {p : PartitionInfo} (v : IsPartition p) where
  -- A block lies within the partition exactly when its index is below the count.
  pub block-lt : (b : ℕ) → b < v.count → b * p.block_size + p.block_size ≤ p.partition_size
  block-lt b h =
      rw v.whole
        (omega (arith, mul-le-mul_right {m = b + 1} {n = v.count} p.block_size (omega arith)))

  pub block-ge : (b : ℕ) → v.count ≤ b → p.partition_size ≤ b * p.block_size
  block-ge b h = rw v.whole (mul-le-mul_right p.block_size h)

  pub block_size_pos : 64 ≤ p.block_size
  block_size_pos = ground (arith, v.wide)

  pub count-le : v.count ≤ p.partition_size
  count-le = grind (arith, block_size_pos, v.whole)

  pub block_size-small : 2 * p.block_size ≤ 2 ^ 30
  block_size-small = omega (arith, block-lt 1 v.two_blocks, v.small)

  pub skip_fits : bad_skip p.skip_bytes ≡ false
  skip_fits = ground (arith, v.good_skip)

  pub to_address :
      (b : ℕ) → b < v.count → convert_block_index_to_address b p ≡ ok (block_address p b)
  unfolding convert_block_index_to_address
  to_address b h = rw (skip_fits, no_wrap) (ground (arith, block-lt b h, block_size_pos))
    where
      no_wrap : u32 (b * p.block_size) ≡ b * p.block_size
      no_wrap = omega (arith, block-lt b h, v.small)

  to_address-outside :
      (b : ℕ)
      → v.count ≤ b
      → b * p.block_size < 2 ^ 32
      → convert_block_index_to_address b p ≡ err Error.invalid_parameter
  unfolding convert_block_index_to_address
  to_address-outside b h fits = rw (skip_fits, no_wrap) (ground (arith, block-ge b h))
    where
      no_wrap : u32 (b * p.block_size) ≡ b * p.block_size
      no_wrap = omega arith

  -- The offset of a byte in block `b`, divided by the block's size.
  offset-div :
      (b k : ℕ)
      → k < p.block_size
      → (p.partition_buf + b * p.block_size + k - p.partition_buf) / p.block_size ≡ b
  offset-div b k h = rw offset (div-eq_of_lt-le p.block_size (omega arith) (grind arith))
    where
      offset : p.partition_buf + b * p.block_size + k - p.partition_buf ≡ b * p.block_size + k
      offset = omega arith

  pub to_index :
      (b k : ℕ)
      → b < v.count
      → k < p.block_size
      → convert_address_to_block_index (block_address p b + k) p ≡ ok b
  unfolding convert_address_to_block_index
  to_index b k h q = rw (offset-div b k q) (ground (arith, block-lt b h, v.not_null))

  -- The valid bytes of a block lie within it.
  pub byte_in_block :
      (b k : ℕ)
      → k < valid_size p.block_size p.skip_bytes
      → (block_address p b ≤ byte_address (block_address p b) p.skip_bytes k)
        × (byte_address (block_address p b) p.skip_bytes k < block_address p b + p.block_size)
  byte_in_block b k h = ground (arith, v.good_skip)

  -- Different blocks share no byte.
  pub blocks_apart :
      (b c j k : ℕ)
      → b ≢ c
      → j < valid_size p.block_size p.skip_bytes
      → k < valid_size p.block_size p.skip_bytes
      → byte_address (block_address p b) p.skip_bytes j
        ≢ byte_address (block_address p c) p.skip_bytes k
  blocks_apart b c j k ne hj hk = elim (dec_lt b c) [
    | yes lt ↦ omega (
      arith,
      byte_in_block b j hj,
      byte_in_block c k hk,
      mul-le-mul_right {m = suc b} {n = c} p.block_size lt,
    )
    | no ge ↦ omega (
      arith,
      byte_in_block b j hj,
      byte_in_block c k hk,
      mul-le-mul_right {m = suc c} {n = b} p.block_size (omega arith),
    )
  ]

  -- What the two conversions give for index `b`.
  abbrev pub BlockIndex : ℕ → Type 0
  BlockIndex b =
      ((b < v.count)
        × (convert_block_index_to_address b p ≡ ok (block_address p b))
        × ((k : ℕ)
            → k < p.block_size
            → convert_address_to_block_index (block_address p b + k) p ≡ ok b))
      ⊎ ((v.count ≤ b)
          × (b * p.block_size < 2 ^ 32
              → convert_block_index_to_address b p ≡ err Error.invalid_parameter))

  -- On a well-formed partition `convert_block_index_to_address` gives the address of each block,
  -- and refuses every larger index whose offset does not wrap; `convert_address_to_block_index`
  -- takes any address within a block back to the block's index.
  pub convert_block_index_lem : (b : ℕ) → BlockIndex b
  convert_block_index_lem b = elim (dec_lt b v.count) [
    | yes h ↦ inl (h, to_address b h, λ k q. to_index b k h q)
    | no h ↦ inr (omega arith, to_address-outside b (omega arith))
  ]
