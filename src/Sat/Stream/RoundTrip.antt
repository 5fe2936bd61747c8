-- ===== src/Sat/Stream/RoundTrip.antt =====
-- devices/sat/sat.c: `read_data` on a save that is stored as a stream.
use libslinga.Prelude.{ℕ, ◌+◌, ◌-◌, ◌*◌, ◌/◌, ◌^◌, ◌≤◌, ◌<◌, ◌≡◌, ◌≢◌, refl, arith, List, ok, ◌∙◌}
use libslinga.Prelude.{sym, length, ltb, ◌==◌, ◌||◌, ◌&&◌, not, true, false, ok_injective}
use native.Mathlib.Decide.{dec_lt}
use libslinga.Memory.{Memory}
use libslinga.Sat.Partition.{PartitionInfo}
use libslinga.Sat.Blocks.{calc_num_blocks}
use libslinga.Sat.Blocks.Count.{Holds, LeastBlocks, calc_num_blocks-LeastBlocks}
use libslinga.Sat.Blocks.Layout.{IsPartition, block_address, block_size-small}
use libslinga.Sat.Bitmap.{Bitmap, clear_bitmap}
use libslinga.Sat.Bitmap.Laws.{is_set-lt}
use libslinga.Sat.Header.{SaveMetadata}
use libslinga.Sat.Table.{read_sat_table}
use libslinga.Sat.Read.{read_save_from_sat_table, read_data}
use libslinga.Sat.Write.Free.{get_bitmap_size_lem}
use libslinga.Sat.Stream.{Chain, room}
use libslinga.Sat.Stream.Save.{Stored}
use libslinga.Sat.Stream.Prefix.{Prefix}
use libslinga.Sat.Stream.Entries.{is_free, index_below}
use libslinga.Sat.Stream.Reading.{SatTable, read_sat_table-SatTable, block_pos}
use libslinga.Sat.Stream.Load.{start_block-ok, last_below}

module _ {p : PartitionInfo} {v : IsPartition p} {free : Bitmap} {block : ℕ → ℕ} {n : ℕ}
    (c : Chain v free block n) (small : v.count ≤ 2 ^ 16) (md : SaveMetadata) (bytes : List ℕ)
    (size : ℕ) (length_is : length bytes ≡ size) (size_small : size ≤ 2 ^ 30) (positive : size ≢ 0)
    (blocks : calc_num_blocks size p.block_size p.skip_bytes ≡ ok n)
    (sized : length free ≡ v.count / 8) where
  abbrev size_r : ℕ
  size_r = room v block

  pub least : Holds size size_r n × ((k : ℕ) → Holds size size_r k → n ≤ k)
  least = of_least (
      calc_num_blocks-LeastBlocks size p.block_size p.skip_bytes positive size_small v.good_skip
        v.valid_aligned (omega (arith, v.wide)) (ground (arith, block_size-small v)))
    where
      of_least :
          LeastBlocks size size_r (calc_num_blocks size p.block_size p.skip_bytes)
          → Holds size size_r n × ((k : ℕ) → Holds size size_r k → n ≤ k)
      of_least (n', e, holds, below) = rw (ok_injective (sym blocks ∙ e)) (holds, below)

  pub some_block : n ≢ 0
  some_block e = ground (arith, least.0)

  holds : 30 + 2 * n + size ≤ n * size_r
  holds = omega (arith, least.0)

  table_holds : 30 + 2 * n < n * size_r
  table_holds = omega (arith, least.0)

  tight : (n - 1) * size_r < 30 + 2 * n + size
  tight = elim (dec_lt ((n - 1) * size_r) (30 + 2 * n + size)) [
    | yes lt ↦ lt
    | no ge ↦ absurd (omega (arith, least.1 (n - 1) (omega (arith, some_block)), some_block))
  ]

  module _ {m : Memory} (stored : Stored v block n md bytes size m) where
    read_save-ok :
        {bitmap : Bitmap} (pre : Prefix c (n - 1) bitmap) (last at : ℕ)
        → 30 + 2 * n ≡ last * size_r + at
        → at ≤ size_r
        → 1 ≤ at
        → read_save_from_sat_table m (record {
          size = size;
          start_block = block 0;
          start_data_block = block last;
          bitmap = bitmap;
          info = p;
        })
          ≡ ok bytes
    unfolding read_save_from_sat_table
    read_save-ok {bitmap} pre last at end fits some_entry =
        rw
          (
            given,
            nonempty,
            skip,
            start_block-ok c small md bytes size holds stored length_is size_small positive tight
                pre last at end fits some_entry (8 * length bitmap) enough,
            complete,
          )
          refl
      where
        below : last < n
        below =
            last_below c small md bytes size holds stored length_is size_small positive tight pre
              last at end fits some_entry

        given : (size == 0 || block 0 == 0 || block last == 0) ≡ false
        given = ground (
          arith,
          block_pos c small md bytes size table_holds stored 0 (omega arith),
          block_pos c small md bytes size table_holds stored last (omega (arith, below)),
        )

        nonempty : (length bitmap == 0) ≡ false
        nonempty = ground (arith, pre.size, c.not_empty)

        skip : (not (p.skip_bytes == 0) && not (p.skip_bytes == 1)) ≡ false
        skip = ground (arith, v.good_skip)

        enough : n < 8 * length bitmap + (last + 1)
        enough = omega (
          arith,
          pre.size,
          is_set-lt free (block n)
              (is_free c small md bytes size table_holds stored n (omega arith)),
          index_below c small md bytes size table_holds stored n (omega arith),
        )

        complete : (length bytes == size) ≡ true
        complete = ground arith

    pub read_data-Stored : read_data m p (block_address p (block 0)) size size ≡ ok bytes
    unfolding read_data
    read_data-Stored = go (
        read_sat_table-SatTable c small md bytes size table_holds stored (v.count / 8) (sym sized)
          (omega arith) some_block blocks)
      where
        enough_room : ltb size size ≡ false
        enough_room = ground arith

        go :
            SatTable c small md bytes size table_holds stored (
              read_sat_table m p (block_address p (block 0)) (record {
                bitmap = clear_bitmap (v.count / 8);
                start_data_block = 0;
                written_sat_entries = 0;
              }))
            → read_data m p (block_address p (block 0)) size size ≡ ok bytes
        go t =
            rw (enough_room, get_bitmap_size_lem v m, t.ran, t.start_data)
              (read_save-ok t.prefix t.last t.at t.position t.fits t.some_entry)
