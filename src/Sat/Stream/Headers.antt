-- ===== src/Sat/Stream/Headers.antt =====
-- devices/sat/sat.c: the headers of the blocks after a save is stored.
use libslinga.Prelude.{ℕ, zero, suc, ◌+◌, ◌^◌, ◌≤◌, ◌<◌, ◌≡◌, ◌≢◌, ◌⊎◌, inl, inr, arith, List}
use libslinga.Prelude.{◌∙◌, sym, ap}
use native.Mathlib.Decide.{ℕ_discrete}
use libslinga.Memory.{Memory}
use libslinga.Sat.Partition.{PartitionInfo}
use libslinga.Sat.Partition.Bytes.{byte_address}
use libslinga.Sat.Partition.Laws.{view_cong}
use libslinga.Sat.Blocks.Count.{valid_size}
use libslinga.Sat.Blocks.Layout.{IsPartition, block_address, blocks_apart}
use libslinga.Sat.Bitmap.{Bitmap}
use libslinga.Sat.Header.{SaveMetadata, header_of_bytes, sat_start_block_tag}
use libslinga.Sat.Find.Laws.{header_at, tag-header_at}
use libslinga.Sat.Stream.{Chain, TagOutcome}
use libslinga.Sat.Stream.Save.{Stores}

-- The index of a block among the first `k` of a save, if it is one of them.
pub among :
    (block : ℕ → ℕ) (b k : ℕ)
    → ((j : ℕ) × (j < k) × (block j ≡ b)) ⊎ ((j : ℕ) → j < k → block j ≢ b)
among block b zero = inr (λ j h. absurd (omega arith))
among block b (suc k) = elim (ℕ_discrete (block k) b) [
  | yes same ↦ inl (k, omega arith, same)
  | no other ↦ more (among block b k) other
]
  where
    more :
        ((j : ℕ) × (j < k) × (block j ≡ b)) ⊎ ((j : ℕ) → j < k → block j ≢ b)
        → block k ≢ b
        → ((j : ℕ) × (j < suc k) × (block j ≡ b)) ⊎ ((j : ℕ) → j < suc k → block j ≢ b)
    more (inl (j, h, same)) other = inl (j, omega arith, same)
    more (inr none_before) other = inr (λ j h e. elim (ℕ_discrete j k) [
      | yes last ↦ other (ap block (sym last) ∙ e)
      | no earlier ↦ none_before j (omega arith) e
    ])

module _ {p : PartitionInfo} {v : IsPartition p} {free : Bitmap} {block : ℕ → ℕ} {n : ℕ}
    (c : Chain v free block n) (small : v.count ≤ 2 ^ 16) (md : SaveMetadata) (bytes : List ℕ)
    (size : ℕ) {m m' : Memory} (s : Stores c small md bytes size m m') where
  -- The header of a block that is none of the save's.
  pub header_elsewhere :
      (b : ℕ) → ((j : ℕ) → j < suc n → block j ≢ b) → header_at m' p b ≡ header_at m p b
  header_elsewhere b none_of = ap header_of_bytes (
      view_cong m' m (block_address p b) p.skip_bytes 0 34 (λ k lo hi.
        s.others _
          (λ i lo' hi'. apart 0 k i (omega arith) (omega (arith, v.wide)) (omega (arith, v.wide)))
          (λ q r hq hr lo' hi'.
            apart q k (4 + r) (omega arith) (omega (arith, v.wide)) (omega (arith, v.wide)))
          (λ j i pos hj hi'.
            apart j k i (omega arith) (omega (arith, v.wide)) (omega (arith, v.wide)))))
    where
      apart :
          (j k i : ℕ)
          → j < suc n
          → k < valid_size p.block_size p.skip_bytes
          → i < valid_size p.block_size p.skip_bytes
          → byte_address (block_address p b) p.skip_bytes k
            ≢ byte_address (block_address p (block j)) p.skip_bytes i
      apart j k i h hk hi = blocks_apart v b (block j) k i (λ e. none_of j h (sym e)) hk hi

  -- The save's other blocks get no start tag.
  pub no_new_tag :
      (j : ℕ)
      → 1 ≤ j
      → j ≤ n
      → (header_at m p (block j)).tag ≢ sat_start_block_tag
      → (header_at m' p (block j)).tag ≢ sat_start_block_tag
  no_new_tag j pos hj before = by_outcome (s.tags j pos hj)
    where
      by_outcome : TagOutcome v block j m m' → (header_at m' p (block j)).tag ≢ sat_start_block_tag
      by_outcome (inl same) e = before (
          omega (
            arith,
            e,
            tag-header_at m p (block j),
            tag-header_at m' p (block j),
            same 0 (omega arith),
            same 1 (omega arith),
            same 2 (omega arith),
            same 3 (omega arith),
          ))
      by_outcome (inr zero_at) e = absurd (
          omega (
            arith,
            e,
            tag-header_at m' p (block j),
            zero_at 0 (omega arith),
            zero_at 1 (omega arith),
            zero_at 2 (omega arith),
            zero_at 3 (omega arith),
          ))
