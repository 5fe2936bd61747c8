-- ===== src/Sat/Stream/Taken.antt =====
-- devices/sat/sat.c: `read_sat_table` on a stored save whose table ends in its first block, with a
-- bitmap that other saves' blocks are in.
use libslinga.Prelude.{ok_injective, ok_injective, ℕ, zero, suc, ◌+◌, ◌*◌, ◌/◌, ◌%◌, ◌^◌, ◌≤◌}
use libslinga.Prelude.{◌<◌, ◌≡◌, refl, arith, List, ok, ap, length, inl, inr, Result, u32, ltb}
use libslinga.Prelude.{leb, ◌==◌, ◌!=◌, ◌||◌, true, false, Bool-cases, ◌∙◌}
use libslinga.Prelude.Action.{◌>>◌}
use native.Mathlib.Decide.{ℕ_discrete}
use native.Mathlib.Nat.{mul-mod_left, add-zero}
use libslinga.Memory.{Memory}
use libslinga.Sat.Partition.{PartitionInfo, read_from_partition}
use libslinga.Sat.Blocks.{calc_num_blocks, convert_address_to_block_index}
use libslinga.Sat.Blocks.Layout.{IsPartition, block_address, to_address, to_index, block_size_pos}
use libslinga.Sat.Bitmap.{Bitmap, set_bitmap, is_set}
use libslinga.Sat.Bitmap.Laws.{IsBytes, is_set-lt, capacity, set_bitmap-Adds}
use libslinga.Sat.Header.{SaveMetadata, metadata_to_header, short_at}
use libslinga.Sat.Find.Laws.{header_at, not_outside, read_header_lem}
use libslinga.Sat.Table.{TableState, adjusted_block_size, record_entry, read_entries}
use libslinga.Sat.Table.{first_entry_byte, read_sat_table_from_block, walk_table, table_step}
use libslinga.Sat.Table.{read_sat_table}
use libslinga.Sat.Table.Grows.{Grows, Grows-refl, Grows-trans, Adds-Grows}
use libslinga.Sat.Walk.{add_save}
use libslinga.Sat.Stream.{Chain, blocks-lt, room, entry}
use libslinga.Sat.Stream.Save.{Stored}
use libslinga.Sat.Stream.Entries.{entry_read, is_free, index_below, size_r-small}
use libslinga.Sat.Stream.Reading.{block_pos}

module _ {p : PartitionInfo} {v : IsPartition p} {free : Bitmap} {block : ℕ → ℕ} {n : ℕ}
    (c : Chain v free block n) (small : v.count ≤ 2 ^ 16) (md : SaveMetadata) (bytes : List ℕ)
    (size : ℕ) (holds : 30 + 2 * n < n * room v block) {m : Memory}
    (stored : Stored v block n md bytes size m) (sized : length free ≡ v.count / 8)
    (one_table : 30 + 2 * n ≤ room v block) where
  abbrev size_r : ℕ
  size_r = room v block

  -- `bitmap'` has grown out of `bitmap`, and has the blocks of the entries from `w` on.
  pub record Takes (w : ℕ) (bitmap bitmap' : Bitmap) : Type 0 where
    pub grows : Grows bitmap bitmap'
    pub taken : (j : ℕ) → w < j → j < n → is_set bitmap' (block j) ≡ true

  fits_bitmap : (j : ℕ) → j ≤ n → block j < capacity free
  fits_bitmap j h =
      omega (arith, is_set-lt free (block j) (is_free c small md bytes size holds stored j h))

  -- A block of the save is added to any bitmap of the partition's size.
  set_bitmap-taken :
      (j : ℕ) (bitmap : Bitmap)
      → j ≤ n
      → IsBytes bitmap
      → length bitmap ≡ length free
      → (bitmap' : Bitmap) × (set_bitmap (block j) bitmap ≡ ok bitmap')
        × Grows bitmap bitmap'
        × (is_set bitmap' (block j) ≡ true)
  set_bitmap-taken j bitmap h b same = elim (set_bitmap-Adds (block j) bitmap b) [
    | inl (lt, (bitmap', e, adds)) ↦
        (bitmap', e, Adds-Grows adds, ground (arith, adds.bits (block j) lt))
    | inr (ge, e) ↦ absurd (omega (arith, ge, fits_bitmap j h, same))
  ]

  record_entry-taken :
      (w : ℕ) (s : TableState)
      → w + 1 ≤ n
      → IsBytes s.bitmap
      → length s.bitmap ≡ length free
      → (s' : TableState) × (record_entry (block (w + 1)) s ≡ (ok tt, s'))
        × Grows s.bitmap s'.bitmap
        × (is_set s'.bitmap (block (w + 1)) ≡ true)
  unfolding record_entry
  record_entry-taken w s h b same = go (set_bitmap-taken (w + 1) s.bitmap h b same)
    where
      go :
          (bitmap' : Bitmap) × (set_bitmap (block (w + 1)) s.bitmap ≡ ok bitmap')
            × Grows s.bitmap bitmap'
            × (is_set bitmap' (block (w + 1)) ≡ true)
          → (s' : TableState) × (record_entry (block (w + 1)) s ≡ (ok tt, s'))
            × Grows s.bitmap s'.bitmap
            × (is_set s'.bitmap (block (w + 1)) ≡ true)
      go (bitmap', e, g, hit) = (
        record s { bitmap = bitmap'; written_sat_entries = u32 (s.written_sat_entries + 1) },
        rw e refl,
        g,
        hit,
      )

  -- The outcome of a look at the table from entry `w` on.
  abbrev TableEnd : ℕ → TableState → Result (Unit {0}) × TableState → Type 0
  TableEnd w st out = (s' : TableState) × (out ≡ (ok tt, s')) × Takes w st.bitmap s'.bitmap

  read_entries-Takes :
      (fuel w : ℕ) (st : TableState)
      → w < n
      → IsBytes st.bitmap
      → length st.bitmap ≡ length free
      → size_r < fuel + (30 + 2 * w)
      → TableEnd w st
          (read_entries fuel m p (block 0) (block_address p (block 0)) (4 + (30 + 2 * w)) st)
  unfolding read_entries
  read_entries-Takes zero w st hw b same f = absurd (omega arith)
  read_entries-Takes (suc fuel) w st hw b same f =
      one
        (entry_read c small md bytes size holds stored 0 w (30 + 2 * w) (omega arith) hw
          (omega arith) (omega arith))
        (λ st' more b' same'. read_entries-Takes fuel (w + 1) st' more b' same' (omega arith))
    where
      inside : ltb (4 + (30 + 2 * w)) (adjusted_block_size p) ≡ true
      inside = ground arith

      one :
          ((raw : List ℕ) × (read_from_partition m
                (block_address p (block 0))
                (4 + (30 + 2 * w))
                2
                p.skip_bytes
              ≡ ok raw)
            × (short_at raw 0 ≡ entry block n (w + 1)))
          → ((st' : TableState)
              → w + 1 < n
              → IsBytes st'.bitmap
              → length st'.bitmap ≡ length free
              → TableEnd (w + 1) st' (
                  read_entries fuel m p
                    (block 0)
                    (block_address p (block 0))
                    (4 + (30 + 2 * (w + 1)))
                    st'))
          → TableEnd w st (
              read_entries
                (suc fuel)
                m
                p
                (block 0)
                (block_address p (block 0))
                (4 + (30 + 2 * w))
                st)
      one (raw, ran, short) again = elim (Bool-cases (w + 1 == n)) [
        | inl last ↦
            rw (inside, ran, zero_entry last)
              (
                record st { start_data_block = block 0 },
                refl,
                record {
                  grows = Grows-refl st.bitmap b;
                  taken = λ j lo hi. absurd (ground (arith, last));
                },
              )
        | inr more ↦
            rw (inside, ran, block_entry more, not_zero more, in_order more, moved)
              (recorded more (record_entry-taken w st (omega arith) b same))
      ]
        where
          zero_entry : (w + 1 == n) ≡ true → short_at raw 0 ≡ 0
          zero_entry last = short ∙ rw last refl

          block_entry : (w + 1 == n) ≡ false → short_at raw 0 ≡ block (w + 1)
          block_entry more = short ∙ rw more refl

          follows : (w + 1 == n) ≡ false → block 0 < block (w + 1)
          follows more = blocks-lt c 0 (w + 1) (omega arith) (omega arith)

          not_zero : (w + 1 == n) ≡ false → (block (w + 1) == 0) ≡ false
          not_zero more = ground (arith, follows more)

          in_order : (w + 1 == n) ≡ false → leb (block (w + 1)) (block 0) ≡ false
          in_order more = ground (arith, follows more)

          moved : u32 (4 + (30 + 2 * w) + 2) ≡ 4 + (30 + 2 * (w + 1))
          moved = omega (arith, size_r-small c small md bytes size holds stored)

          recorded :
              (w + 1 == n) ≡ false
              → ((st' : TableState) × (record_entry (block (w + 1)) st ≡ (ok tt, st'))
                  × Grows st.bitmap st'.bitmap
                  × (is_set st'.bitmap (block (w + 1)) ≡ true))
              → TableEnd w st (
                  (record_entry (block (w + 1))
                      >> read_entries fuel m p
                          (block 0)
                          (block_address p (block 0))
                          (4 + (30 + 2 * (w + 1))))
                    st)
          recorded more (st', ran', g, hit) =
              rw ran' (on (again st' (ground arith) g.bytes (g.same_size ∙ same)))
            where
              on :
                  {out : Result (Unit {0}) × TableState}
                  → TableEnd (w + 1) st' out
                  → TableEnd w st out
              on (s', e, t) = (
                s',
                e,
                record {
                  grows = Grows-trans g t.grows;
                  taken = λ j lo hi. elim (ℕ_discrete j (w + 1)) [
                    | yes next ↦ rw next (
                        t.grows.keeps (block (w + 1))
                          (omega (arith, fits_bitmap (w + 1) (omega arith), g.same_size, same)) hit)
                    | no other ↦ t.taken j (omega arith) hi
                  ];
                },
              )

  start_entry : first_entry_byte (block 0) (block 0) (header_at m p (block 0)) ≡ ok 34
  unfolding first_entry_byte metadata_to_header
  start_entry = rw (ap (λ h. h.tag) stored.header) (ground arith)

  aligned : (p.block_size % 64 != 0) ≡ false
  aligned = ground (arith, v.aligned)

  whole_blocks : (p.partition_size % p.block_size != 0) ≡ false
  whole_blocks = rw (v.whole, mul-mod_left v.count p.block_size) refl

  some_block : 0 < n
  some_block = ground (arith, holds)

  read_block-Takes :
      (st : TableState)
      → IsBytes st.bitmap
      → length st.bitmap ≡ length free
      → TableEnd 0 st (read_sat_table_from_block m (block 0) p (block 0) st)
  unfolding read_sat_table_from_block
  read_block-Takes st b same =
      rw
        (
          given,
          aligned,
          whole_blocks,
          to_address v (block 0) (c.inside 0 (omega arith)),
          not_outside v m (block 0) (c.inside 0 (omega arith)),
          read_header_lem v m (block 0),
          start_entry,
        )
        (read_entries-Takes (suc p.block_size) 0 st some_block b same (ground (arith, v.wide)))
    where
      given : (block 0 == 0 || length st.bitmap == 0 || block 0 == 0) ≡ false
      given =
          ground
            (arith, block_pos c small md bytes size holds stored 0 (omega arith), same, c.not_empty)

  -- The bitmap that `add_save` gives has every block of the save.
  pub record AllTaken (bitmap bitmap' : Bitmap) : Type 0 where
    pub grows : Grows bitmap bitmap'
    pub all : (j : ℕ) → j < n → is_set bitmap' (block j) ≡ true

  pub add_save-AllTaken :
      (bitmap bitmap' : Bitmap)
      → IsBytes bitmap
      → length bitmap ≡ length free
      → length free * 8 ≤ v.count
      → calc_num_blocks size p.block_size p.skip_bytes ≡ ok n
      → add_save m p (block_address p (block 0)) bitmap ≡ ok bitmap'
      → AllTaken bitmap bitmap'
  unfolding add_save read_sat_table walk_table table_step
  add_save-AllTaken bitmap bitmap' b same in_range blocks ran =
      started (set_bitmap-taken 0 bitmap (omega arith) b same)
    where
      given : (block_address p (block 0) == 0 || length bitmap == 0) ≡ false
      given = ground (arith, v.not_null, same, c.not_empty)

      size_is : (header_at m p (block 0)).data_size ≡ size
      size_is = ap (λ h. h.data_size) stored.header

      room_for_all : ltb (u32 (length bitmap * 8)) n ≡ false
      room_for_all = ground (
        arith,
        fits_bitmap n (omega arith),
        index_below c small md bytes size holds stored n (omega arith),
      )

      start_index : convert_address_to_block_index (block_address p (block 0)) p ≡ ok (block 0)
      start_index =
          rw (← add-zero (block_address p (block 0)))
            (to_index v (block 0) 0 (c.inside 0 (omega arith)) (omega (arith, block_size_pos v)))

      within : ltb n 1 ≡ false
      within = ground (arith, some_block)

      started :
          (first : Bitmap) × (set_bitmap (block 0) bitmap ≡ ok first)
            × Grows bitmap first
            × (is_set first (block 0) ≡ true)
          → AllTaken bitmap bitmap'
      started (first, e, g, hit) = finished (
          read_block-Takes
            (record { bitmap = first; start_data_block = 0; written_sat_entries = 1 }) g.bytes
            (g.same_size ∙ same))
        where
          finished :
              TableEnd 0
                (record { bitmap = first; start_data_block = 0; written_sat_entries = 1 })
                (read_sat_table_from_block m
                  (block 0)
                  p
                  (block 0)
                  (record { bitmap = first; start_data_block = 0; written_sat_entries = 1 }))
              → AllTaken bitmap bitmap'
          finished (s', read, t) = rw (← result) (record {
            grows = Grows-trans g t.grows;
            all = λ j h. elim (ℕ_discrete j 0) [
              | yes start ↦ rw start (
                  t.grows.keeps (block 0)
                    (omega (arith, fits_bitmap 0 (omega arith), g.same_size, same)) hit)
              | no later ↦ t.taken j (omega arith) h
            ];
          })
            where
              result : s'.bitmap ≡ bitmap'
              result = ok_injective (
                  rw
                    (
                      given,
                      aligned,
                      whole_blocks,
                      read_header_lem v m (block 0),
                      size_is,
                      blocks,
                      room_for_all,
                      start_index,
                      e,
                      within,
                      read,
                    )
                    at ran)
