-- ===== src/Sat/Stream/Save.antt =====
-- devices/sat/sat.c: what `sat_write` stores, once it has free blocks: header, table and data.
use libslinga.Prelude.{ℕ, ◌+◌, ◌*◌, ◌^◌, ◌≤◌, ◌<◌, ◌≡◌, ◌≢◌, refl, arith, List, ok, ◌∙◌, ap, inl}
use libslinga.Prelude.{inr}
use native.Mathlib.Nat.{mul-le-mul_right}
use native.Mathlib.Decide.{dec_lt, ℕ_discrete}
use libslinga.Memory.{Memory}
use libslinga.Sat.Partition.{PartitionInfo}
use libslinga.Sat.Partition.Bytes.{byte_address}
use libslinga.Sat.Partition.Laws.{Misses, view_cong}
use libslinga.Sat.Blocks.Count.{Holds}
use libslinga.Sat.Blocks.Layout.{IsPartition, block_address}
use libslinga.Sat.Bitmap.{Bitmap}
use libslinga.Sat.Header.{SaveMetadata, header_of_bytes}
use libslinga.Sat.Find.Laws.{header_at}
use libslinga.Sat.Write.{header_to_write, write_header, write_block_indexes, write_data}
use libslinga.Sat.Write.{write_save}
use libslinga.Sat.Write.Header.{IsMetadata, Writes, write_header-Writes}
use libslinga.Sat.Stream.{Chain, room, tag_byte, stream_byte, Avoids, NoTag, TagOutcome, Extends}
use libslinga.Sat.Stream.{save_stream}
use libslinga.Sat.Stream.Pieces.{Extends-at, Extends-trans, bytes_apart}
use libslinga.Sat.Stream.TableEntries.{index_job}
use libslinga.Sat.Stream.Table.{Indexed, write_block_indexes-Indexed}
use libslinga.Sat.Stream.Data.{bytes_job, Rest, write_data-Rest}

-- A save of `size` bytes in `n` blocks: its header, its table and data behind that, and no tag in the
-- other blocks of the table.
pub record Stored {p : PartitionInfo} (v : IsPartition p) (block : ℕ → ℕ) (n : ℕ)
    (md : SaveMetadata) (bytes : List ℕ) (size : ℕ) (m : Memory) : Type 0 where
  pub header : header_at m p (block 0) ≡ header_to_write md size
  pub stream :
      (q r : ℕ)
      → q ≤ n
      → r < room v block
      → 30 ≤ q * room v block + r
      → q * room v block + r < 30 + 2 * n + size
      → m (stream_byte v block q r) ≡ save_stream block n bytes (q * room v block + r)
  pub untagged :
      (j i : ℕ) → 1 ≤ j → j * room v block < 30 + 2 * n → i < 4 → m (tag_byte v block j i) ≡ 0

module _ {p : PartitionInfo} {v : IsPartition p} {free : Bitmap} {block : ℕ → ℕ} {n : ℕ}
    (c : Chain v free block n) (small : v.count ≤ 2 ^ 16) (md : SaveMetadata) (bytes : List ℕ)
    (size : ℕ) where
  -- The header's bytes are not written again.
  header_kept :
      (lo hi : ℕ) (m m' : Memory)
      → 30 ≤ lo
      → Extends v block (save_stream block n bytes) n lo hi m m'
      → header_at m' p (block 0) ≡ header_at m p (block 0)
  header_kept lo hi m m' h e = ap header_of_bytes (
      view_cong m' m (block_address p (block 0)) p.skip_bytes 0 34 (λ k a b.
        e.others _ (away k b) (λ j i pos hj hi'.
          bytes_apart c 0 j k i (omega arith) hj (omega (arith, v.wide)) (omega arith)
            (inl (omega arith)))))
    where
      away :
          (k : ℕ)
          → k < 34
          → Avoids v block n lo hi (byte_address (block_address p (block 0)) p.skip_bytes k)
      away k b q r hq hr a' b' = elim (ℕ_discrete q 0) [
        | yes start ↦
            bytes_apart c 0 q k (4 + r) (omega arith) hq (omega (arith, v.wide)) (omega arith)
              (inr (omega (arith, ap (λ x. x * room v block) start)))
        | no later ↦
            bytes_apart c 0 q k (4 + r) (omega arith) hq (omega (arith, v.wide)) (omega arith)
              (inl (omega arith))
      ]

  -- The memory has the save, and nothing has changed but the header, the stream and tags of the save's
  -- other blocks.
  pub record Stores (m m' : Memory) : Type 0 where
    pub stored : Stored v block n md bytes size m'
    pub tags : (j : ℕ) → 1 ≤ j → j ≤ n → TagOutcome v block j m m'
    pub others :
        (a : ℕ)
        → Misses (block_address p (block 0)) p.skip_bytes 0 34 a
        → Avoids v block n 30 (30 + 2 * n + size) a
        → NoTag v block n a
        → m' a ≡ m a

  -- When the free blocks of a well-formed partition of at most 2^16 blocks begin with `n` blocks
  -- that hold a save of 1 to 2^30 bytes, and one more, and the metadata fit their fields, `write_save`
  -- succeeds: the first of the blocks has the header; behind it, across the blocks and past each
  -- block's tag, lie the indices of the other blocks, a zero and the data; the tags of the other
  -- blocks of that table are zero; the tag of each block but the first is
  -- as before or zero; and nothing else has changed.
  pub write_save-Stores :
      (m : Memory)
      → size ≢ 0
      → size ≤ 2 ^ 30
      → Holds size (room v block) n
      → IsMetadata md
      → (m' : Memory) × (write_save md bytes size p n free m ≡ (ok tt, m')) × Stores m m'
  unfolding write_save
  write_save-Stores m ne fits holds w =
      with_header
        (write_header-Writes v (block 0) size md m (c.inside 0 (omega arith)) ne (omega arith) w)
    where
      some_block : n ≢ 0
      some_block = ground arith

      Result : Type 0
      Result = (m' : Memory) × (write_save md bytes size p n free m ≡ (ok tt, m')) × Stores m m'

      module_table : 30 + 2 * n < n * room v block
      module_table = omega arith

      with_data :
          (m1 m2 : Memory)
          → write_header (block 0) size md p m ≡ (ok tt, m1)
          → Writes v (block 0) size md m m1
          → (t : Indexed c bytes small module_table m1
              (write_block_indexes (index_job c bytes small) m1))
          → Rest c bytes size fits
              (omega arith)
              t.q
              t.at
              0
              t.memory
              (write_data (bytes_job c bytes size fits (omega arith) t.q t.at) t.memory)
          → Result
      with_data m1 m2 ran h t (m3, ran3, rest) = (
        m3,
        rw (c.first, ran, t.ran, ran3) refl,
        record {
          stored = record {
            header =
                header_kept (30 + 2 * n + 0) (30 + 2 * n + size) t.memory m3 (omega arith) rest
                ∙ header_kept 30 (30 + 2 * n) m1 t.memory (omega arith) t.extends
                ∙ h.written;
            stream = whole.written;
            untagged = λ j i h1 h2 h3.
                rest.tags j i (omega (arith, block_in j h2)) h3 (t.cleared j i h1 h2 h3);
          };
          tags = λ j pos hj. from_header j pos hj (whole.tag_outcome j hj);
          others = λ a h1 h2 h3. whole.others a h2 h3 ∙ h.others a h1;
        },
      )
        where
          whole : Extends v block (save_stream block n bytes) n 30 (30 + 2 * n + size) m1 m3
          whole =
              Extends-trans c (omega arith) (omega arith) t.extends
                (Extends-at v block (omega arith) refl rest)

          from_header :
              (j : ℕ) → 1 ≤ j → j ≤ n → TagOutcome v block j m1 m3 → TagOutcome v block j m m3
          from_header j pos hj (inl same) = inl (λ i hi.
              same i hi
              ∙ h.others (tag_byte v block j i) (λ k a b.
                bytes_apart c j 0 i k hj (omega arith) (omega arith) (omega (arith, v.wide))
                  (inl (omega arith))))
          from_header j pos hj (inr zero_at) = inr zero_at

          block_in : (j : ℕ) → j * room v block < 30 + 2 * n → j < n
          block_in j h' = elim (dec_lt j n) [
            | yes lt ↦ lt
            | no ge ↦
                absurd
                  (omega (arith, mul-le-mul_right {m = n} {n = j} (room v block) (omega arith)))
          ]

      with_header :
          ((m1 : Memory) × (write_header (block 0) size md p m ≡ (ok tt, m1))
            × Writes v (block 0) size md m m1)
          → Result
      with_header (m1, ran, h) =
          let t = write_block_indexes-Indexed c bytes small module_table m1 some_block in
          with_data m1 m1 ran h t (
            write_data-Rest c bytes size fits (omega arith) t.q t.at t.memory t.inside t.position
              t.fits ne)
