-- ===== src/Sat/Read/Query.antt =====
-- devices/sat/sat.c: what `sat_query_file` and `sat_read` make of the header that they find.
use libslinga.Prelude.{ℕ, ◌≤◌, ◌<◌, ◌≡◌, ◌⊎◌, refl, arith, List, true, ltb, some, ok, err, Error}
use libslinga.Prelude.{inl, inr}
use libslinga.Memory.{Memory}
use libslinga.Sat.Partition.{PartitionInfo}
use libslinga.Sat.Partition.Bytes.{view, read_from_partition_lem}
use libslinga.Sat.Blocks.Layout.{IsPartition, block_address}
use libslinga.Sat.Header.{SaveMetadata, copy_metadata, metadata_of_raw}
use libslinga.Sat.Find.{find_save}
use libslinga.Sat.Find.Laws.{header_at, header-Transfer, read_header_lem, is_save, NoSave}
use libslinga.Sat.Find.Laws.{FirstSave, find_save-FirstSave}
use libslinga.Sat.Read.{sat_query_file, sat_read}

module _ {p : PartitionInfo} (v : IsPartition p) (m : Memory) (filename : List ℕ) where
  -- The numbers of the metadata are those of the header.
  abbrev pub Describes : ℕ → SaveMetadata → Type 0
  Describes b md =
      let h = header_at m p b in
      (md.language ≡ h.language) × (md.timestamp ≡ h.timestamp) × (md.data_size ≡ h.data_size)

  -- What `sat_query_file` and `sat_read` give.
  abbrev pub QueryOutcome : SaveMetadata → ℕ → Type 0
  QueryOutcome old size =
      ((b : ℕ) × (2 ≤ b)
        × (b < v.count)
        × (is_save v m filename b ≡ true)
        × NoSave v m filename 2 b
        × ((md : SaveMetadata) × (sat_query_file m (some filename) p old ≡ ok md) × Describes b md)
        × ((header_at m p b).data_size < size
            → sat_read m (some filename) size p ≡ err Error.buffer_too_small))
      ⊎ (NoSave v m filename 2 v.count
          × (sat_query_file m (some filename) p old ≡ err Error.not_found)
          × (sat_read m (some filename) size p ≡ err Error.not_found))

  -- On a well-formed partition, for the first save of the name: `sat_query_file` succeeds with the
  -- language, timestamp and size of its header, and `sat_read` says SLINGA_BUFFER_TOO_SMALL when
  -- the buffer is larger than the save. Without such a save both say SLINGA_NOT_FOUND.
  pub sat_query_file-QueryOutcome : (old : SaveMetadata) (size : ℕ) → QueryOutcome old size
  unfolding sat_query_file sat_read copy_metadata metadata_of_raw
  sat_query_file-QueryOutcome old size = by_case (find_save-FirstSave v m filename)
    where
      raw_at : ℕ → List ℕ
      raw_at b = view m (block_address p b) p.skip_bytes 0 34

      copied :
          (b : ℕ)
          → copy_metadata old m (block_address p b) p.skip_bytes
            ≡ ok (metadata_of_raw old (raw_at b))
      copied b =
          rw
            (read_from_partition_lem m (block_address p b) 0 34 p.skip_bytes
              (header-Transfer v m b))
            refl

      by_case : FirstSave v m filename 2 (find_save m (some filename) p) → QueryOutcome old size
      by_case (inl (b, e, lo, hi, hit, h)) = inl (
        b,
        lo,
        hi,
        hit,
        h,
        (
          metadata_of_raw old (raw_at b),
          rw (e, read_header_lem v m b, copied b) refl,
          (refl, refl, refl),
        ),
        λ small. rw (e, read_header_lem v m b, too_large b small) refl,
      )
        where
          too_large :
              (b : ℕ)
              → (header_at m p b).data_size < size
              → ltb (header_at m p b).data_size size ≡ true
          too_large b small = ground arith
      by_case (inr (e, h)) = inr (h, rw e refl, rw e refl)
