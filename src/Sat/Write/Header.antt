-- ===== src/Sat/Write/Header.antt =====
-- devices/sat/sat.c: the header that `write_header` leaves in a block, and what callers read of it.
use libslinga.Prelude.{ℕ, ◌/◌, ◌^◌, ◌<◌, ◌≡◌, ◌≢◌, refl, arith, List, [], ◌∷◌, ◌++◌, ◌==◌, length}
use libslinga.Prelude.{false, get_or, take, drop, length-take, u8, ap, ◌∙◌, ok}
use libslinga.Memory.{Memory}
use libslinga.Sat.Partition.{PartitionInfo, write_to_partition}
use libslinga.Sat.Partition.Bytes.{view, fill, read_from_partition_lem, write_to_partition_lem}
use libslinga.Sat.Partition.Laws.{Misses, fill_miss, view-fill}
use libslinga.Sat.Blocks.Layout.{IsPartition, block_address, to_address}
use libslinga.Sat.Find.Laws.{header_at, header-Transfer}
use libslinga.Sat.Header.{StartBlockHeader, SaveMetadata, header_bytes, header_of_bytes}
use libslinga.Sat.Header.{copy_metadata, metadata_of_raw, metadata_to_header}
use libslinga.Sat.Header.Laws.{IsHeader, length-header_bytes, header_of_bytes-header_bytes}
use libslinga.Sat.Header.Laws.{metadata_of_raw-header_bytes}
use libslinga.Sat.Write.{header_to_write, write_header}

-- The arrays of `SAVE_METADATA` have their lengths, and the numbers fit their fields.
pub record IsMetadata (md : SaveMetadata) : Type 0 where
  pub name_array : length md.savename ≡ 13
  pub comment_array : length md.comment ≡ 13
  pub language_fits : md.language < 256
  pub timestamp_fits : md.timestamp < 2 ^ 32

pub header_to_write-IsHeader :
    (md : SaveMetadata) (size : ℕ)
    → IsMetadata md
    → size < 2 ^ 32
    → IsHeader (header_to_write md size)
unfolding metadata_to_header
header_to_write-IsHeader md size w fits = record {
  tag_fits = omega arith;
  name_length = omega (arith, length-take {0} 11 md.savename, w.name_array);
  language_fits = w.language_fits;
  comment_length = omega (arith, length-take {0} 10 md.comment, w.comment_array);
  timestamp_fits = w.timestamp_fits;
  size_fits = fits;
}

module _ {p : PartitionInfo} (v : IsPartition p) where
  -- Block `b` has the header of the save and nothing else has changed; metadata copied from it
  -- show 11 characters of the name with the language behind them, and 10 of the comment with the
  -- first byte of the timestamp behind them.
  pub record Writes (b size : ℕ) (md : SaveMetadata) (m m' : Memory) : Type 0 where
    pub written : header_at m' p b ≡ header_to_write md size
    pub others : (a : ℕ) → Misses (block_address p b) p.skip_bytes 0 34 a → m' a ≡ m a
    pub read_back :
        (old : SaveMetadata)
        → (md' : SaveMetadata) × (copy_metadata old m' (block_address p b) p.skip_bytes ≡ ok md')
          × (md'.savename ≡ take 11 md.savename ++ (md.language ∷ 0 ∷ []))
          × (md'.comment
              ≡ take 10 md.comment ++ (u8 (md.timestamp / 2 ^ 24) ∷ 0 ∷ drop 12 old.comment))
          × (md'.language ≡ md.language)
          × (md'.timestamp ≡ md.timestamp)
          × (md'.data_size ≡ size)

  -- For a block of a well-formed partition, metadata that fit their fields and a size that is
  -- not 0, `write_header` succeeds: the block has the header of the save and no other address
  -- has changed. Metadata copied from it show the first 11 characters of the name with the
  -- language behind them, the first 10 of the comment with the first byte of the timestamp
  -- behind them, and the language, timestamp and size that were written.
  pub write_header-Writes :
      (b size : ℕ) (md : SaveMetadata) (m : Memory)
      → b < v.count
      → size ≢ 0
      → size < 2 ^ 32
      → IsMetadata md
      → (m' : Memory) × (write_header b size md p m ≡ (ok tt, m')) × Writes b size md m m'
  unfolding write_header copy_metadata metadata_to_header
  write_header-Writes b size md m inside ne fits w = (
    m',
    rw (given, to_address v b inside, ran) refl,
    record {
      written = ap header_of_bytes seen ∙ header_of_bytes-header_bytes h_fits;
      others = λ a o.
          fill_miss (block_address p b) p.skip_bytes 0 (λ k. get_or raw k 0) 0 34 m a
            (λ k lo hi. o k (omega arith) (omega arith));
      read_back = λ old.
          let copied = metadata_of_raw-header_bytes h_fits old in
          (
            metadata_of_raw old raw,
            rw
                (
                  read_from_partition_lem m' (block_address p b) 0 34 p.skip_bytes
                      (header-Transfer v m b),
                  seen,
                )
                refl,
            copied.0,
            copied.1,
            copied.2,
            copied.3,
            copied.4,
          );
    },
  )
    where
      h : StartBlockHeader
      h = header_to_write md size

      h_fits : IsHeader h
      h_fits = header_to_write-IsHeader md size w fits

      raw : List ℕ
      raw = header_bytes h

      raw_length : length raw ≡ 34
      raw_length = length-header_bytes h_fits

      m' : Memory
      m' = fill (block_address p b) p.skip_bytes 0 (λ k. get_or raw k 0) 0 34 m

      given : (size == 0) ≡ false
      given = ground arith

      seen : view m' (block_address p b) p.skip_bytes 0 34 ≡ raw
      seen = rw (← raw_length) (view-fill (block_address p b) p.skip_bytes 0 raw m)

      ran : write_to_partition (block_address p b) 0 raw 34 p.skip_bytes m ≡ (ok tt, m')
      ran =
          write_to_partition_lem (block_address p b) 0 raw 34 p.skip_bytes m (header-Transfer v m b)
