-- ===== src/Sat/RoundTrip.antt =====
-- devices/sat/sat.c: `sat_read` after `sat_write`.
use libslinga.Prelude.{ℕ, suc, ◌+◌, ◌^◌, ◌≤◌, ◌<◌, ◌≡◌, ◌≢◌, ◌⊎◌, inl, inr, refl, arith, List}
use libslinga.Prelude.{some, ok, ◌∙◌, sym, ap, length, take, true, false}
use native.Mathlib.Decide.{ℕ_discrete}
use libslinga.Memory.{Memory}
use libslinga.Sat.Partition.{PartitionInfo}
use libslinga.Sat.Blocks.{calc_num_blocks}
use libslinga.Sat.Blocks.Layout.{IsPartition, block_address}
use libslinga.Sat.Bitmap.{Bitmap, is_set}
use libslinga.Sat.Header.{SaveMetadata, metadata_to_header, strncmp_eq, sat_start_block_tag}
use libslinga.Sat.Header.{sat_max_save_name}
use libslinga.Sat.Find.{starts_save, find_save}
use libslinga.Sat.Find.Laws.{header_at, is_save, NoSave, FirstSave, find_save-FirstSave}
use libslinga.Sat.Find.Laws.{read_header_lem}
use libslinga.Sat.Read.Query.{QueryOutcome, Describes, sat_query_file-QueryOutcome}
use libslinga.Sat.Write.{header_to_write, sat_write, free_blocks_for}
use libslinga.Sat.Read.{sat_query_file, sat_read}
use libslinga.Sat.Write.Header.{IsMetadata}
use libslinga.Sat.Write.Free.{FreeBlocks}
use libslinga.Sat.Stream.{Chain}
use libslinga.Sat.Stream.Save.{Stores}
use libslinga.Sat.Stream.RoundTrip.{read_data-Stored}
use libslinga.Sat.Stream.FreeChain.{nth_block}
use libslinga.Sat.Stream.Written.{found_free, chain, there, sat_write-Stores}
use libslinga.Sat.Stream.Headers.{among, header_elsewhere, no_new_tag}

module _ {p : PartitionInfo} (v : IsPartition p) (small : v.count ≤ 2 ^ 16) (m : Memory)
    (filename : List ℕ) (md : SaveMetadata) (bytes : List ℕ) (size n : ℕ) (free : Bitmap)
    (length_is : length bytes ≡ size) (size_small : size ≤ 2 ^ 30) (positive : size ≢ 0)
    (fits : IsMetadata md)
    (named : strncmp_eq sat_max_save_name filename (take 11 md.savename) ≡ true)
    (new_name : NoSave v m filename 2 v.count)
    (blocks : calc_num_blocks size p.block_size p.skip_bytes ≡ ok n)
    (space : free_blocks_for m p (n + 1) ≡ ok free) where
  abbrev pub block : ℕ → ℕ
  block = nth_block free

  abbrev pub free_chain : Chain v free block n
  free_chain = chain v m n free space

  free_blocks : FreeBlocks v m (n + 1) free
  free_blocks = found_free v m n free space

  in_free : (i : ℕ) → i ≤ n → is_set free (block i) ≡ true
  in_free = there v m n free space

  module _ {m' : Memory} (s : Stores free_chain small md bytes size m m') where
    saved_there : is_save v m' filename (block 0) ≡ true
    unfolding starts_save metadata_to_header
    saved_there = rw s.stored.header (ground (arith, named))

    pub others_not : (b : ℕ) → 2 ≤ b → b < v.count → b ≢ block 0 → is_save v m' filename b ≡ false
    others_not b lo hi ne = by_index (among block b (suc n))
      where
        untagged : (j : ℕ) → j < suc n → block j ≡ b → (header_at m' p b).tag ≢ sat_start_block_tag
        untagged j h same e = elim (ℕ_discrete j 0) [
          | yes first ↦ ne (sym same ∙ ap block first)
          | no later ↦
              no_new_tag free_chain small md bytes size s j (omega arith) (omega arith)
                (free_blocks.untagged (block j) (in_free j (omega arith)))
                (ap (λ x. (header_at m' p x).tag) same ∙ e)
        ]

        by_index :
            ((j : ℕ) × (j < suc n) × (block j ≡ b)) ⊎ ((j : ℕ) → j < suc n → block j ≢ b)
            → is_save v m' filename b ≡ false
        by_index (inl (j, h, same)) = unfold starts_save in ground (arith, untagged j h same)
        by_index (inr none_of) =
            rw (header_elsewhere free_chain small md bytes size s b none_of) (new_name b lo hi)

    finds_it : find_save m' (some filename) p ≡ ok (block_address p (block 0))
    finds_it = by_first (find_save-FirstSave v m' filename)
      where
        by_first :
            FirstSave v m' filename 2 (find_save m' (some filename) p)
            → find_save m' (some filename) p ≡ ok (block_address p (block 0))
        by_first (inl (b, e, lo, hi, hit, h)) = elim (ℕ_discrete b (block 0)) [
          | yes same ↦ e ∙ ap (λ x. ok (block_address p x)) same
          | no other ↦ cc (hit, others_not b lo hi other)
        ]
        by_first (inr (e, h)) = cc (
          saved_there,
          h (block 0) (free_blocks.not_first (block 0) (in_free 0 (omega arith)))
              (free_chain.inside 0 (omega arith)),
        )

    reads_it : sat_read m' (some filename) size p ≡ ok bytes
    unfolding sat_read
    reads_it =
        rw
          (
            finds_it,
            read_header_lem v m' (block 0),
            size_is,
            read_data-Stored free_chain small md bytes size length_is size_small positive blocks
                free_blocks.sized s.stored,
          )
          refl
      where
        size_is : (header_at m' p (block 0)).data_size ≡ size
        size_is = ap (λ h. h.data_size) s.stored.header

    -- The metadata that are read back.
    abbrev Queried : SaveMetadata → Type 0
    Queried old =
        (md' : SaveMetadata) × (sat_query_file m' (some filename) p old ≡ ok md')
        × (md'.language ≡ md.language)
        × (md'.timestamp ≡ md.timestamp)
        × (md'.data_size ≡ size)

    queries_it : (old : SaveMetadata) → Queried old
    unfolding metadata_to_header
    queries_it old = by_outcome (sat_query_file-QueryOutcome v m' filename old size)
      where
        at_block :
            (b : ℕ) (md' : SaveMetadata)
            → b ≡ block 0
            → sat_query_file m' (some filename) p old ≡ ok md'
            → Describes v m' filename b md'
            → Queried old
        at_block b md' same ran (language, timestamp, data_size) = (
          md',
          ran,
          language ∙ ap (λ h. h.language) there,
          timestamp ∙ ap (λ h. h.timestamp) there,
          data_size ∙ ap (λ h. h.data_size) there,
        )
          where
            there : header_at m' p b ≡ header_to_write md size
            there = ap (header_at m' p) same ∙ s.stored.header

        by_outcome : QueryOutcome v m' filename old size → Queried old
        by_outcome (inl (b, lo, hi, hit, h, (md', ran, described), small')) =
            elim (ℕ_discrete b (block 0)) [
              | yes same ↦ at_block b md' same ran described
              | no other ↦ cc (hit, others_not b lo hi other)
            ]
        by_outcome (inr (h, e, e')) = cc (
          saved_there,
          h (block 0) (free_blocks.not_first (block 0) (in_free 0 (omega arith)))
              (free_chain.inside 0 (omega arith)),
        )

  module _ (flags : ℕ) where
    -- On a well-formed partition of at most 2^16 blocks where no save has the name, for metadata that
    -- fit their fields and have the same name, and data of 1 to 2^30 bytes: when there is room for
    -- one block more than `calc_num_blocks` asks for, `sat_write` succeeds, and `sat_read` of the
    -- name, into a buffer of the data's size, then gives back exactly the data.
    pub sat_read-sat_write :
        (m' : Memory) × (sat_write flags (some filename) (some md) (some bytes) size p m
          ≡ (ok tt, m'))
        × (sat_read m' (some filename) size p ≡ ok bytes)
    sat_read-sat_write = go (
        sat_write-Stores v small m filename md bytes size n free length_is size_small positive fits
          new_name blocks space flags)
      where
        go :
            (m' : Memory) × (sat_write flags (some filename) (some md) (some bytes) size p m
                ≡ (ok tt, m'))
              × Stores free_chain small md bytes size m m'
            → (m' : Memory) × (sat_write flags (some filename) (some md) (some bytes) size p m
                ≡ (ok tt, m'))
              × (sat_read m' (some filename) size p ≡ ok bytes)
        go (m', ran, s) = (m', ran, reads_it s)

    -- On a well-formed partition of at most 2^16 blocks where no save has the name, for metadata that
    -- fit their fields and have the same name, and data of 1 to 2^30 bytes: when there is room for
    -- one block more than `calc_num_blocks` asks for, `sat_write` succeeds, and `sat_query_file` of
    -- the name, whatever the caller's struct held, then succeeds and gives the language and the
    -- timestamp of the metadata that were written, and the size of the data.
    pub sat_query_file-sat_write :
        (old : SaveMetadata)
        → (m' : Memory) × (sat_write flags (some filename) (some md) (some bytes) size p m
            ≡ (ok tt, m'))
          × (md' : SaveMetadata) × (sat_query_file m' (some filename) p old ≡ ok md')
          × (md'.language ≡ md.language)
          × (md'.timestamp ≡ md.timestamp)
          × (md'.data_size ≡ size)
    sat_query_file-sat_write old = go (
        sat_write-Stores v small m filename md bytes size n free length_is size_small positive fits
          new_name blocks space flags)
      where
        go :
            (m' : Memory) × (sat_write flags (some filename) (some md) (some bytes) size p m
                ≡ (ok tt, m'))
              × Stores free_chain small md bytes size m m'
            → (m' : Memory) × (sat_write flags (some filename) (some md) (some bytes) size p m
                ≡ (ok tt, m'))
              × (md' : SaveMetadata) × (sat_query_file m' (some filename) p old ≡ ok md')
              × (md'.language ≡ md.language)
              × (md'.timestamp ≡ md.timestamp)
              × (md'.data_size ≡ size)
        go (m', ran, s) = let q = queries_it s old in (m', ran, q.0, q.1, q.2, q.3, q.4)
