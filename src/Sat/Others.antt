-- ===== src/Sat/Others.antt =====
-- devices/sat/sat.c: saves of other names after `sat_write`.
use libslinga.Prelude.{ℕ, ◌+◌, ◌^◌, ◌≤◌, ◌<◌, ◌≡◌, ◌≢◌, ◌⊎◌, inl, inr, arith, List, some, ok, ◌∙◌}
use libslinga.Prelude.{sym, ap, length, take, false, suc, zero}
use native.Mathlib.Decide.{dec_lt}
use libslinga.Memory.{Memory}
use libslinga.Sat.Partition.{PartitionInfo}
use libslinga.Sat.Blocks.{calc_num_blocks}
use libslinga.Sat.Blocks.Layout.{IsPartition, block_address}
use libslinga.Sat.Bitmap.{Bitmap}
use libslinga.Sat.Header.{SaveMetadata, metadata_to_header, strncmp_eq, sat_max_save_name}
use libslinga.Sat.Find.{starts_save, find_save}
use libslinga.Sat.Find.Laws.{is_save, NoSave, FirstSave, find_save-FirstSave}
use libslinga.Sat.Write.{sat_write, free_blocks_for}
use libslinga.Sat.Write.Header.{IsMetadata}
use libslinga.Sat.Write.Free.{FreeBlocks}
use libslinga.Sat.Stream.Save.{Stores}
use libslinga.Sat.Stream.FreeChain.{nth_block}
use libslinga.Sat.Stream.Headers.{among, header_elsewhere, no_new_tag}
use libslinga.Sat.Stream.Written.{found_free, chain, there, sat_write-Stores}

-- Memories in which the same blocks start a save of a name have the same one found.
pub find_save_cong :
    {p : PartitionInfo} (v : IsPartition p) (m m' : Memory) (filename : List ℕ)
    → ((b : ℕ) → 2 ≤ b → b < v.count → is_save v m' filename b ≡ is_save v m filename b)
    → find_save m' (some filename) p ≡ find_save m (some filename) p
find_save_cong {p} v m m' filename same =
    both (find_save-FirstSave v m filename) (find_save-FirstSave v m' filename)
  where
    both :
        FirstSave v m filename 2 (find_save m (some filename) p)
        → FirstSave v m' filename 2 (find_save m' (some filename) p)
        → find_save m' (some filename) p ≡ find_save m (some filename) p
    both (inl (b, e, lo, hi, hit, h)) (inl (b', e', lo', hi', hit', h')) = elim (dec_lt b b') [
      | yes lt ↦ cc (hit, same b lo hi, h' b lo lt)
      | no ge ↦ elim (dec_lt b' b) [
        | yes lt ↦ cc (hit', same b' lo' hi', h b' lo' lt)
        | no ge' ↦ e' ∙ ap (λ x. ok (block_address p x)) (equal ge ge') ∙ sym e
      ]
    ]
      where
        equal : ¬ (b < b') → ¬ (b' < b) → b' ≡ b
        equal ge ge' = omega arith
    both (inl (b, e, lo, hi, hit, h)) (inr (e', h')) = cc (hit, same b lo hi, h' b lo hi)
    both (inr (e, h)) (inl (b, e', lo, hi, hit, h')) = cc (hit, same b lo hi, h b lo hi)
    both (inr (e, h)) (inr (e', h')) = e' ∙ sym e

module _ {p : PartitionInfo} (v : IsPartition p) (small : v.count ≤ 2 ^ 16) (m : Memory)
    (filename : List ℕ) (md : SaveMetadata) (bytes : List ℕ) (size n : ℕ) (free : Bitmap)
    (length_is : length bytes ≡ size) (size_small : size ≤ 2 ^ 30) (positive : size ≢ 0)
    (fits : IsMetadata md) (new_name : NoSave v m filename 2 v.count)
    (blocks : calc_num_blocks size p.block_size p.skip_bytes ≡ ok n)
    (space : free_blocks_for m p (n + 1) ≡ ok free) (other : List ℕ)
    (differs : strncmp_eq sat_max_save_name other (take 11 md.savename) ≡ false) where
  abbrev block : ℕ → ℕ
  block = nth_block free

  free_blocks : FreeBlocks v m (n + 1) free
  free_blocks = found_free v m n free space

  module _ {m' : Memory} (s : Stores (chain v m n free space) small md bytes size m m') where
    -- None of the save's blocks starts a save of the other name, before or after.
    none_before : (j : ℕ) → j ≤ n → is_save v m other (block j) ≡ false
    unfolding starts_save
    none_before j h =
        ground (arith, free_blocks.untagged (block j) (there v m n free space j (omega arith)))

    none_after : (j : ℕ) → j ≤ n → is_save v m' other (block j) ≡ false
    unfolding starts_save metadata_to_header
    none_after zero h = rw s.stored.header (ground (arith, differs))
    none_after (suc j) h = ground (
      arith,
      no_new_tag (chain v m n free space) small md bytes size s (suc j) (omega arith) (omega arith)
          (free_blocks.untagged (block (suc j)) (there v m n free space (suc j) (omega arith))),
    )

    pub same_saves : (b : ℕ) → 2 ≤ b → b < v.count → is_save v m' other b ≡ is_save v m other b
    same_saves b lo hi = by_index (among block b (suc n))
      where
        by_index :
            ((j : ℕ) × (j < suc n) × (block j ≡ b)) ⊎ ((j : ℕ) → j < suc n → block j ≢ b)
            → is_save v m' other b ≡ is_save v m other b
        by_index (inl (j, h, same)) =
            rw (← same) (none_after j (omega arith) ∙ sym (none_before j (omega arith)))
        by_index (inr none_of) =
            ap (starts_save other)
              (header_elsewhere (chain v m n free space) small md bytes size s b none_of)

  module _ (flags : ℕ) where
    -- On a well-formed partition of at most 2^16 blocks where no save has the name, for metadata that
    -- fit their fields, and data of 1 to 2^30 bytes: when there is room for one block more than
    -- `calc_num_blocks` asks for, `sat_write` succeeds, and `find_save` then gives for every name
    -- but that in the metadata what it gave before: the same block, or that there is none.
    pub find_save-sat_write :
        (m' : Memory) × (sat_write flags (some filename) (some md) (some bytes) size p m
          ≡ (ok tt, m'))
        × (find_save m' (some other) p ≡ find_save m (some other) p)
    find_save-sat_write = go (
        sat_write-Stores v small m filename md bytes size n free length_is size_small positive fits
          new_name blocks space flags)
      where
        go :
            (m' : Memory) × (sat_write flags (some filename) (some md) (some bytes) size p m
                ≡ (ok tt, m'))
              × Stores (chain v m n free space) small md bytes size m m'
            → (m' : Memory) × (sat_write flags (some filename) (some md) (some bytes) size p m
                ≡ (ok tt, m'))
              × (find_save m' (some other) p ≡ find_save m (some other) p)
        go (m', ran, s) = (m', ran, find_save_cong v m m' other (same_saves s))
