-- ===== src/Sat/Stream/Scan.antt =====
-- devices/sat/sat.c: reads of a stored save's stream, and the scan for the end of its table.
use libslinga.Prelude.{ℕ, zero, suc, ◌+◌, ◌*◌, ◌^◌, ◌≤◌, ◌<◌, ◌≡◌, ◌≢◌, arith, List, ok, ◌∙◌, sym}
use libslinga.Prelude.{ap, get_or, length, take, drop, inl, inr, u32, ltb, ◌==◌, true, false}
use libslinga.Prelude.{if◌then◌else◌, Bool-cases, length-take, get_or-drop, get_or-take}
use libslinga.Prelude.{length-drop}
use libslinga.Memory.{Memory}
use libslinga.Sat.Partition.{PartitionInfo, read_from_partition}
use libslinga.Sat.Partition.Bytes.{byte_address, view, read_from_partition_lem}
use libslinga.Sat.Partition.Laws.{view_eq}
use libslinga.Sat.Blocks.Layout.{IsPartition, block_address}
use libslinga.Sat.Bitmap.{Bitmap}
use libslinga.Sat.Header.{SaveMetadata, short_at}
use libslinga.Sat.Read.{block_data_size, skip_entries}
use libslinga.Sat.Stream.{Chain, room, save_stream, save_stream-data}
use libslinga.Sat.Stream.Pieces.{in_block}
use libslinga.Sat.Stream.Save.{Stored}
use libslinga.Sat.Stream.Reading.{block_pos}
use libslinga.Sat.Stream.Entries.{entry_read, size_r-small}

module _ {p : PartitionInfo} {v : IsPartition p} {free : Bitmap} {block : ℕ → ℕ} {n : ℕ}
    (c : Chain v free block n) (small : v.count ≤ 2 ^ 16) (md : SaveMetadata) (bytes : List ℕ)
    (size : ℕ) (holds : 30 + 2 * n + size ≤ n * room v block) {m : Memory}
    (stored : Stored v block n md bytes size m) (length_is : length bytes ≡ size)
    (size_small : size ≤ 2 ^ 30) (positive : size ≢ 0) where
  abbrev size_r : ℕ
  size_r = room v block

  pub table_holds : 30 + 2 * n < n * size_r
  table_holds = omega arith

  pub size_r-fits : size_r < 2 ^ 30
  size_r-fits = size_r-small c small md bytes size table_holds stored

  pub data_room : block_data_size p ≡ size_r
  data_room = omega (arith, v.wide, size_r-fits)

  -- `k` bytes of the data, from byte `t` on, read where they lie in block `q`.
  pub read_piece :
      (q r t k : ℕ)
      → q ≤ n
      → 30 + 2 * n + t ≡ q * size_r + r
      → k ≢ 0
      → r + k ≤ size_r
      → t + k ≤ size
      → read_from_partition m (block_address p (block q)) (4 + r) k p.skip_bytes
        ≡ ok (take k (drop t bytes))
  read_piece q r t k hq at ne fits within =
      read_from_partition_lem m (block_address p (block q)) (4 + r) k p.skip_bytes
        (in_block c q (4 + r) k hq ne (omega arith))
      ∙ ap ok (
          ap (view m (block_address p (block q)) p.skip_bytes (4 + r)) (sym piece_length)
          ∙ view_eq piece m (block_address p (block q)) p.skip_bytes (4 + r)
              (λ j h. byte_at j (omega (arith, piece_length))))
    where
      piece : List ℕ
      piece = take k (drop t bytes)

      piece_length : length piece ≡ k
      piece_length = omega (arith, length-take k (drop t bytes), length-drop t bytes, length_is)

      byte_at :
          (j : ℕ)
          → j < k
          → m (byte_address (block_address p (block q)) p.skip_bytes (4 + r + j)) ≡ get_or piece j 0
      byte_at j h =
          ap (λ x. m (byte_address (block_address p (block q)) p.skip_bytes x)) (omega arith)
          ∙ stored.stream q (r + j) hq (omega arith) (omega arith) (omega arith)
          ∙ ap (save_stream block n bytes) (omega arith)
          ∙ save_stream-data block n bytes (t + j)
          ∙ sym (get_or-drop bytes t j)
          ∙ sym (get_or-take k (drop t bytes) j h)

  -- The scan of the block that ends the table finds the terminator.
  pub skip_entries_lem :
      (fuel last w i at start : ℕ)
      → last ≤ n
      → w < n
      → 30 + 2 * w ≡ last * size_r + i
      → 30 + 2 * n ≡ last * size_r + at
      → at ≤ size_r
      → size_r < fuel + i
      → skip_entries fuel m p (block_address p (block last)) start i ≡ ok at
  unfolding skip_entries
  skip_entries_lem zero last w i at start hq hw here end fits f = absurd (omega arith)
  skip_entries_lem (suc fuel) last w i at start hq hw here end fits f =
      one (entry_read c small md bytes size table_holds stored last w i hq hw here (omega arith))
        (λ more.
          skip_entries_lem fuel last (w + 1) (i + 2) at start hq more (omega arith) end fits
            (omega arith))
    where
      inside : ltb i (block_data_size p) ≡ true
      inside = ground (arith, data_room)

      offset : u32 (i + 4) ≡ 4 + i
      offset = omega (arith, size_r-fits)

      moved : u32 (i + 2) ≡ i + 2
      moved = omega (arith, size_r-fits)

      one :
          ((raw : List ℕ) × (read_from_partition m
                (block_address p (block last))
                (4 + i)
                2
                p.skip_bytes
              ≡ ok raw)
            × (short_at raw 0 ≡ (if w + 1 == n then 0 else block (w + 1))))
          → (w + 1 < n → skip_entries fuel m p (block_address p (block last)) start (i + 2) ≡ ok at)
          → skip_entries (suc fuel) m p (block_address p (block last)) start i ≡ ok at
      one (raw, ran, short) again = elim (Bool-cases (w + 1 == n)) [
        | inl last_one ↦ rw (inside, offset, ran, short, last_one, moved) (ap ok (ground arith))
        | inr more ↦
            rw (inside, offset, ran, short, more, not_zero more, moved) (again (ground arith))
      ]
        where
          not_zero : (w + 1 == n) ≡ false → (block (w + 1) == 0) ≡ false
          not_zero more =
              ground
                (arith, block_pos c small md bytes size table_holds stored (w + 1) (omega arith))
