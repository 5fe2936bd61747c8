-- ===== src/Sat/Stream/Reading.antt =====
-- devices/sat/sat.c: `read_sat_table` on a save that is stored as a stream.
use libslinga.Sat.Stream.{blocks-lt, Chain, blocks-ne, next_block-lt, room}
use libslinga.Prelude.{ℕ, zero, suc, ◌+◌, ◌-◌, ◌*◌, ◌%◌, ◌^◌, ◌≤◌, ◌<◌, ◌≡◌, ◌≢◌, refl, arith}
use libslinga.Prelude.{List, ok, ap, length, ◌⊎◌, inl, inr, Result, u32, ltb, ◌==◌, ◌!=◌, ◌||◌}
use libslinga.Prelude.{true, false, if◌then◌else◌}
use native.Mathlib.Decide.{ℕ_discrete}
use native.Mathlib.Nat.{mul-mod_left, add-zero}
use libslinga.Memory.{Memory}
use libslinga.Sat.Partition.{PartitionInfo}
use libslinga.Sat.Blocks.Layout.{IsPartition, block_address, to_address, to_index, block_size_pos}
use libslinga.Sat.Bitmap.{Bitmap, set_bitmap, clear_bitmap}
use libslinga.Sat.Bitmap.Laws.{length-clear_bitmap, is_set-lt}
use libslinga.Sat.Blocks.{calc_num_blocks, convert_address_to_block_index}
use libslinga.Sat.Header.{SaveMetadata, metadata_to_header, sat_start_block_tag}
use libslinga.Sat.Find.Laws.{header_at, tag-header_at, not_outside, read_header_lem}
use libslinga.Sat.Table.{TableState, first_entry_byte, read_sat_table_from_block, walk_table}
use libslinga.Sat.Table.{table_step, table_next, read_sat_table}
use libslinga.Sat.Stream.Save.{Stored}
use libslinga.Sat.Stream.Prefix.{Prefix, Prefix-next, Prefix-start}
use libslinga.Sat.Stream.Entries.{Ended, Full, read_entries-Outcome, index-ge, index_below}
use libslinga.Sat.Stream.Entries.{is_free}

module _ {p : PartitionInfo} {v : IsPartition p} {free : Bitmap} {block : ℕ → ℕ} {n : ℕ}
    (c : Chain v free block n) (small : v.count ≤ 2 ^ 16) (md : SaveMetadata) (bytes : List ℕ)
    (size : ℕ) (holds : 30 + 2 * n < n * room v block) {m : Memory}
    (stored : Stored v block n md bytes size m) where
  abbrev size_r : ℕ
  size_r = room v block

  -- Where the entries of block `q` begin behind the tag.
  abbrev first_entry : ℕ → ℕ
  first_entry q = if q == 0 then 30 else 0

  pub block_pos : (q : ℕ) → q ≤ n → 0 < block q
  block_pos zero h = next_block-lt free 0 (block 0) c.not_empty (omega arith) c.first
  block_pos (suc q) h = omega (arith, blocks-lt c 0 (suc q) (omega arith) h)

  start_tag : (header_at m p (block 0)).tag ≡ sat_start_block_tag
  unfolding metadata_to_header
  start_tag = ap (λ h. h.tag) stored.header

  continue_tag : (q : ℕ) → 1 ≤ q → q * size_r < 30 + 2 * n → (header_at m p (block q)).tag ≡ 0
  continue_tag q pos h = omega (
    arith,
    tag-header_at m p (block q),
    stored.untagged q 0 pos h (omega arith),
    stored.untagged q 1 pos h (omega arith),
    stored.untagged q 2 pos h (omega arith),
    stored.untagged q 3 pos h (omega arith),
  )

  first_entry_byte_lem :
      (q : ℕ)
      → q ≤ n
      → q * size_r < 30 + 2 * n
      → first_entry_byte (block q) (block 0) (header_at m p (block q)) ≡ ok (4 + first_entry q)
  unfolding first_entry_byte
  first_entry_byte_lem q hq h = elim (ℕ_discrete q 0) [
    | yes start ↦ rw start (ground (arith, start_tag))
    | no later ↦ rw (other_block later, tagged later, behind later) refl
  ]
    where
      other_block : q ≢ 0 → (block q == block 0) ≡ false
      other_block later = ground (arith, blocks-ne c q 0 later hq (omega arith))

      tagged : q ≢ 0 → ((header_at m p (block q)).tag == 0) ≡ true
      tagged later = ground (arith, continue_tag q (omega arith) h)

      behind : q ≢ 0 → (q == 0) ≡ false
      behind later = ground arith

  pub read_block-Outcome :
      (q w : ℕ) (st : TableState)
      → q ≤ n
      → w < n
      → 30 + 2 * w ≡ q * size_r + first_entry q
      → Prefix c w st.bitmap
      → st.written_sat_entries ≡ w + 1
      → let out = read_sat_table_from_block m (block q) p (block 0) st in
        Ended c small md bytes size holds stored q out
        ⊎ Full c small md bytes size holds stored q w out
  unfolding read_sat_table_from_block
  read_block-Outcome q w st hq hw at pre count =
      rw
        (
          given,
          aligned,
          whole',
          to_address v (block q) (c.inside q hq),
          not_outside v m (block q) (c.inside q hq),
          read_header_lem v m (block q),
          first_entry_byte_lem q hq (omega arith),
        )
        (read_entries-Outcome c small md bytes size holds stored (suc p.block_size) q w
          (first_entry q) st hq hw at (ground (arith, v.wide)) (ground arith) pre count
          (ground arith))
    where
      given : (block q == 0 || length st.bitmap == 0 || block 0 == 0) ≡ false
      given = ground (arith, block_pos q hq, block_pos 0 (omega arith), pre.size, c.not_empty)

      aligned : (p.block_size % 64 != 0) ≡ false
      aligned = ground (arith, v.aligned)

      whole' : (p.partition_size % p.block_size != 0) ≡ false
      whole' = rw (v.whole, mul-mod_left v.count p.block_size) refl

  -- The table has been read up to its end, which lies in block `last`.
  pub record TableRead (out : Result (Unit {0}) × TableState) : Type 0 where
    pub last : ℕ
    pub at : ℕ
    pub state : TableState
    pub ran : out ≡ (ok tt, state)
    pub position : 30 + 2 * n ≡ last * size_r + at
    pub fits : at ≤ size_r
    pub some_entry : 1 ≤ at
    pub start_data : state.start_data_block ≡ block last
    pub prefix : Prefix c (n - 1) state.bitmap

  walk_table-TableRead :
      (fuel q w : ℕ) (st : TableState)
      → w < n
      → 30 + 2 * w ≡ q * size_r + first_entry q
      → Prefix c w st.bitmap
      → st.written_sat_entries ≡ w + 1
      → n < fuel + w
      → TableRead (walk_table fuel m p (block 0) n (block q) st)
  unfolding walk_table table_step table_next
  walk_table-TableRead zero q w st hw at pre count f = absurd (omega arith)
  walk_table-TableRead (suc fuel) q w st hw at pre count f =
      by_outcome (read_block-Outcome q w st (omega (arith, below)) hw at pre count)
        (λ w' st' more at' lt pre' count'.
          walk_table-TableRead fuel (q + 1) w' st' more at' pre' count' (omega arith))
    where
      below : q ≤ w
      below = index-ge c small md bytes size holds stored q w (omega arith)

      within : ltb n st.written_sat_entries ≡ false
      within = ground arith

      by_outcome :
          (let out = read_sat_table_from_block m (block q) p (block 0) st in
            Ended c small md bytes size holds stored q out
            ⊎ Full c small md bytes size holds stored q w out)
          → ((w' : ℕ) (st' : TableState)
              → w' < n
              → 30 + 2 * w' ≡ (q + 1) * size_r + first_entry (q + 1)
              → w < w'
              → Prefix c w' st'.bitmap
              → st'.written_sat_entries ≡ w' + 1
              → TableRead (walk_table fuel m p (block 0) n (block (q + 1)) st'))
          → TableRead (walk_table (suc fuel) m p (block 0) n (block q) st)
      by_outcome (inl (s', end, e, pos, fits, some, start, pre')) again =
          rw (within, e)
            (record {
              last = q;
              at = end;
              state = s';
              ran = refl;
              position = pos;
              fits = fits;
              some_entry = some;
              start_data = start;
              prefix = pre';
            })
      by_outcome (inr (s', w', e, le, more, pos, pre', count')) again =
          rw (within, e, Prefix-next c pre' (omega arith) q q_lt)
            (again w' s' more (ground arith) (ground (arith, v.wide)) pre' count')
        where
          q_lt : q < w'
          q_lt = omega (arith, index-ge c small md bytes size holds stored (q + 1) w' (omega arith))

  -- `read_sat_table` succeeds.
  pub record SatTable (out : Result ℕ × TableState) : Type 0 where
    pub last : ℕ
    pub at : ℕ
    pub state : TableState
    pub ran : out ≡ (ok (block 0), state)
    pub position : 30 + 2 * n ≡ last * size_r + at
    pub fits : at ≤ size_r
    pub some_entry : 1 ≤ at
    pub start_data : state.start_data_block ≡ block last
    pub prefix : Prefix c (n - 1) state.bitmap

  pub read_sat_table-SatTable :
      (bitmap_size : ℕ)
      → bitmap_size ≡ length free
      → bitmap_size * 8 ≤ v.count
      → n ≢ 0
      → calc_num_blocks size p.block_size p.skip_bytes ≡ ok n
      → SatTable (
          read_sat_table m p (block_address p (block 0)) (record {
            bitmap = clear_bitmap bitmap_size;
            start_data_block = 0;
            written_sat_entries = 0;
          }))
  unfolding read_sat_table
  read_sat_table-SatTable bitmap_size same in_range ne blocks =
      started (
        Prefix-start c bitmap_size same
          (is_free c small md bytes size holds stored 0 (omega arith)))
    where
      blank : TableState
      blank = record {
        bitmap = clear_bitmap bitmap_size;
        start_data_block = 0;
        written_sat_entries = 0;
      }

      given : (block_address p (block 0) == 0 || length (clear_bitmap bitmap_size) == 0) ≡ false
      given = ground (arith, v.not_null, length-clear_bitmap bitmap_size, c.not_empty)

      aligned : (p.block_size % 64 != 0) ≡ false
      aligned = ground (arith, v.aligned)

      whole' : (p.partition_size % p.block_size != 0) ≡ false
      whole' = rw (v.whole, mul-mod_left v.count p.block_size) refl

      size_is : (header_at m p (block 0)).data_size ≡ size
      size_is = ap (λ h. h.data_size) stored.header

      room_for_all : ltb (u32 (length (clear_bitmap bitmap_size) * 8)) n ≡ false
      room_for_all = ground (
        arith,
        length-clear_bitmap bitmap_size,
        is_set-lt free (block n) (is_free c small md bytes size holds stored n (omega arith)),
        index_below c small md bytes size holds stored n (omega arith),
      )

      start_index : convert_address_to_block_index (block_address p (block 0)) p ≡ ok (block 0)
      start_index =
          rw (← add-zero (block_address p (block 0)))
            (to_index v (block 0) 0 (c.inside 0 (omega arith)) (omega (arith, block_size_pos v)))

      started :
          (bitmap : Bitmap) × (set_bitmap (block 0) (clear_bitmap bitmap_size) ≡ ok bitmap)
            × Prefix c 0 bitmap
          → SatTable (read_sat_table m p (block_address p (block 0)) blank)
      started (bitmap, e, pre) =
          let walked =
            walk_table-TableRead (suc (8 * length (clear_bitmap bitmap_size))) 0 0
              (record { bitmap = bitmap; start_data_block = 0; written_sat_entries = 1 })
              (omega arith) (omega arith) pre refl
              (omega (
                arith,
                length-clear_bitmap bitmap_size,
                is_set-lt free (block n)
                    (is_free c small md bytes size holds stored n (omega arith)),
                index_below c small md bytes size holds stored n (omega arith),
              )) in
          finished e walked
        where
          finished :
              set_bitmap (block 0) (clear_bitmap bitmap_size) ≡ ok bitmap
              → TableRead (
                  walk_table
                    (suc (8 * length (clear_bitmap bitmap_size)))
                    m
                    p
                    (block 0)
                    n
                    (block 0)
                    (record { bitmap = bitmap; start_data_block = 0; written_sat_entries = 1 }))
              → SatTable (read_sat_table m p (block_address p (block 0)) blank)
          finished e t =
              rw
                (
                  given,
                  aligned,
                  whole',
                  read_header_lem v m (block 0),
                  size_is,
                  blocks,
                  room_for_all,
                  start_index,
                  e,
                  t.ran,
                )
                (record {
                  last = t.last;
                  at = t.at;
                  state = t.state;
                  ran = refl;
                  position = t.position;
                  fits = t.fits;
                  some_entry = t.some_entry;
                  start_data = t.start_data;
                  prefix = t.prefix;
                })
