-- ===== src/Sat/Stream/Load.antt =====
-- devices/sat/sat.c: `read_save_from_sat_table` on a save that is stored as a stream.
use libslinga.Prelude.{ℕ, zero, suc, ◌+◌, ◌-◌, ◌*◌, ◌/◌, ◌^◌, ◌≤◌, ◌<◌, ◌≡◌, ◌≢◌, refl, arith}
use libslinga.Prelude.{List, [], ok, err, Error, ◌∙◌, sym, ap, length, take, Result, u32, sub32}
use libslinga.Prelude.{ltb, ◌==◌, ◌&&◌, not, true, false, if◌then◌else◌, some, ◌>>=◌, length-take}
use libslinga.Prelude.{take-drop, take_all}
use native.Mathlib.Decide.{dec_lt, ℕ_discrete}
use native.Mathlib.Nat.{mul-le-mul_right}
use libslinga.Memory.{Memory}
use libslinga.Sat.Partition.{PartitionInfo}
use libslinga.Sat.Blocks.Layout.{IsPartition, block_address, to_address}
use libslinga.Sat.Bitmap.{Bitmap, get_next_block_bitmap}
use libslinga.Sat.Header.{SaveMetadata}
use libslinga.Sat.Find.Laws.{not_outside}
use libslinga.Sat.Find.{outside}
use libslinga.Sat.Blocks.{convert_block_index_to_address}
use libslinga.Sat.Read.{ReadJob, block_data_size, skip_entries, read_plain_block, past_block}
use libslinga.Sat.Read.{data_start_at, copy_first_data, read_first_block, read_block, read_on}
use libslinga.Sat.Read.{read_next, read_blocks}
use libslinga.Sat.Stream.{Chain, blocks-ne, room}
use libslinga.Sat.Stream.Save.{Stored}
use libslinga.Sat.Stream.Prefix.{Prefix, Prefix-next, Prefix-end}
use libslinga.Sat.Stream.Entries.{size_r-small}
use libslinga.Sat.Stream.Scan.{read_piece, skip_entries_lem}

module _ {p : PartitionInfo} {v : IsPartition p} {free : Bitmap} {block : ℕ → ℕ} {n : ℕ}
    (c : Chain v free block n) (small : v.count ≤ 2 ^ 16) (md : SaveMetadata) (bytes : List ℕ)
    (size : ℕ) (holds : 30 + 2 * n + size ≤ n * room v block) {m : Memory}
    (stored : Stored v block n md bytes size m) (length_is : length bytes ≡ size)
    (size_small : size ≤ 2 ^ 30) (positive : size ≢ 0)
    (tight : (n - 1) * room v block < 30 + 2 * n + size) where
  abbrev size_r : ℕ
  size_r = room v block

  table_holds : 30 + 2 * n < n * size_r
  table_holds = omega arith

  size_r-fits : size_r < 2 ^ 30
  size_r-fits = size_r-small c small md bytes size table_holds stored

  data_room : block_data_size p ≡ size_r
  data_room = omega (arith, v.wide, size_r-fits)

  module _ {bitmap : Bitmap} (pre : Prefix c (n - 1) bitmap) (last at : ℕ)
      (end : 30 + 2 * n ≡ last * size_r + at) (fits : at ≤ size_r) (some_entry : 1 ≤ at) where
    abbrev pub read_job : ReadJob
    read_job = record {
      size = size;
      start_block = block 0;
      start_data_block = block last;
      bitmap = bitmap;
      info = p;
    }

    block_below : (q : ℕ) → q * size_r < 30 + 2 * n + size → q < n
    block_below q h = elim (dec_lt q n) [
      | yes lt ↦ lt
      | no ge ↦ absurd (omega (arith, mul-le-mul_right {m = n} {n = q} size_r (omega arith)))
    ]

    -- What follows block `q`, when `t'` bytes have been read up to its end or to the data's.
    after_block :
        (q t' : ℕ) (again : ℕ → List ℕ → Result (List ℕ))
        → q < n
        → t' ≤ size
        → 30 + 2 * n + t' ≤ (q + 1) * size_r
        → (t' < size → 30 + 2 * n + t' ≡ (q + 1) * size_r)
        → (q + 1 < n → t' < size → again (block (q + 1)) (take t' bytes) ≡ ok bytes)
        → read_next again bitmap (some (block q), take t' bytes) ≡ ok bytes
    unfolding read_next read_on
    after_block q t' again hq le bound full later = elim (dec_lt t' size) [
      | yes more ↦
          let next : q + 1 < n = block_below (q + 1) (omega (arith, full more)) in
          rw (Prefix-next c pre (omega arith) q (omega arith)) (later next more)
      | no done ↦ rw (no_more (omega arith)) (all_of (omega arith))
    ]
      where
        all_of : t' ≡ size → ok (take t' bytes) ≡ ok bytes
        all_of e = ap (λ k. ok (take k bytes)) (e ∙ sym length_is) ∙ ap ok (take_all bytes)

        no_more : t' ≡ size → get_next_block_bitmap (block q) bitmap ≡ err Error.not_found
        no_more e = rw (is_last e) (Prefix-end c pre (omega arith))
          where
            is_last : t' ≡ size → q ≡ n - 1
            is_last e = elim (dec_lt (q + 1) n) [
              | yes lt ↦
                  absurd
                    (omega (arith, mul-le-mul_right {m = q + 1} {n = n - 1} size_r (omega arith)))
              | no ge ↦ omega arith
            ]

    -- The blocks behind the one where the data start.
    read_blocks-plain :
        (fuel q t : ℕ)
        → last < q
        → 1 ≤ q
        → q < n
        → 30 + 2 * n + t ≡ q * size_r
        → t < size
        → n < fuel + q
        → read_blocks fuel m read_job (block q) (take t bytes) ≡ ok bytes
    unfolding read_blocks read_block read_plain_block
    read_blocks-plain zero q t lo pos hq here more f = absurd (omega arith)
    read_blocks-plain (suc fuel) q t lo pos hq here more f =
        rw
          (
            to_address v (block q) (c.inside q (omega arith)),
            not_outside v m (block q) (c.inside q (omega arith)),
            not_start,
            not_start_data,
            left,
            data_room,
            read_piece c small md bytes size holds stored length_is size_small positive q 0 t amount
                (omega arith) (omega arith) amount_pos amount_fits within,
            take-drop t amount bytes,
          )
          (after_block q (t + amount) (read_blocks fuel m read_job) hq within
            (omega (arith, amount_fits)) full
            (λ next more'.
              read_blocks-plain fuel (q + 1) (t + amount) (omega arith) (omega arith) next
                (full more') more' (omega arith)))
      where
        not_start : (block q == block 0) ≡ false
        not_start = ground (arith, blocks-ne c q 0 (omega arith) (omega arith) (omega arith))

        not_start_data : (block q == block last) ≡ false
        not_start_data =
            ground (arith, blocks-ne c q last (omega arith) (omega arith) (omega arith))

        left : sub32 size (length (take t bytes)) ≡ size - t
        left = omega (arith, length-take t bytes, length_is)

        amount : ℕ
        amount = if ltb (size - t) size_r then size - t else size_r

        amount_pos : amount ≢ 0
        amount_pos = ground (arith, v.wide)

        amount_fits : 0 + amount ≤ size_r
        amount_fits = ground arith

        within : t + amount ≤ size
        within = ground arith

        full : t + amount < size → 30 + 2 * n + (t + amount) ≡ (q + 1) * size_r
        full more' = omega (arith, whole more')
          where
            whole : t + amount < size → amount ≡ size_r
            whole more' = ground arith

    -- From where the data start on.
    copy_first_data-ok :
        (fuel q r : ℕ)
        → last ≤ q
        → q < n
        → 30 + 2 * n ≡ q * size_r + r
        → r < size_r
        → n < fuel + (q + 1)
        → (copy_first_data m read_job [] (some (block q, block_address p (block q), r))
            >>= read_next (read_blocks fuel m read_job) bitmap)
          ≡ ok bytes
    unfolding copy_first_data
    copy_first_data-ok fuel q r lo hq here inside f =
        rw
          (
            data_room,
            left,
            room_left,
            in_room,
            in_size,
            offset,
            read_piece c small md bytes size holds stored length_is size_small positive q r 0 amount
                (omega arith) (omega arith) amount_pos amount_fits (omega (arith, within)),
          )
          (after_block q amount (read_blocks fuel m read_job) hq within (omega (arith, amount_fits))
            full
            (λ next more.
              read_blocks-plain fuel (q + 1) amount (omega arith) (omega arith) next (full more)
                more (omega arith)))
      where
        left : sub32 size 0 ≡ size
        left = omega arith

        room_left : sub32 size_r r ≡ size_r - r
        room_left = omega (arith, size_r-fits)

        offset : u32 (r + 4) ≡ 4 + r
        offset = omega (arith, size_r-fits)

        amount : ℕ
        amount = if ltb size (size_r - r) then size else size_r - r

        amount_pos : amount ≢ 0
        amount_pos = ground arith

        amount_fits : r + amount ≤ size_r
        amount_fits = ground arith

        within : amount ≤ size
        within = ground arith

        in_room : ltb size_r amount ≡ false
        in_room = ground (arith, amount_fits)

        in_size : ltb size (u32 (0 + amount)) ≡ false
        in_size = ground (arith, within)

        full : amount < size → 30 + 2 * n + amount ≡ (q + 1) * size_r
        full more = omega (arith, whole more)
          where
            whole : amount < size → r + amount ≡ size_r
            whole more = ground arith

    -- Where the scan of the block begins.
    abbrev scan_start : ℕ
    scan_start = if block last == block 0 then 30 else 0

    pub last_below : last < n
    last_below = block_below last (omega arith)

    -- The entry that stands there.
    first_scanned : (w : ℕ) × (w < n) × (30 + 2 * w ≡ last * size_r + scan_start)
    first_scanned = elim (ℕ_discrete last 0) [
      | yes zeroth ↦ (0, omega (arith, last_below), at_zero zeroth)
      | no later ↦
          ((last * size_r - 30) / 2, omega (arith, behind later, no_header later), behind later)
    ]
      where
        no_header : last ≢ 0 → scan_start ≡ 0
        no_header later = rw (other later) refl
          where
            other : last ≢ 0 → (block last == block 0) ≡ false
            other later =
                ground (arith, blocks-ne c last 0 later (omega (arith, last_below)) (omega arith))

        halves : last * size_r ≡ last * (2 * (size_r / 2))
        halves = ap (λ x. last * x) (omega (arith, v.valid_aligned, v.wide))

        at_zero : last ≡ 0 → 30 + 2 * 0 ≡ last * size_r + scan_start
        at_zero zeroth = rw zeroth (ground arith)

        behind : last ≢ 0 → 30 + 2 * ((last * size_r - 30) / 2) ≡ last * size_r + scan_start
        behind later = omega (
          arith,
          halves,
          no_header later,
          mul-le-mul_right {m = 1} {n = last} size_r (omega arith),
          v.wide,
        )

    pub start_block-ok :
        (fuel : ℕ)
        → n < fuel + (last + 1)
        → read_blocks (suc fuel) m read_job (block last) [] ≡ ok bytes
    unfolding read_blocks read_block read_first_block data_start_at past_block
    start_block-ok fuel f = elim (dec_lt at size_r) [
      | yes lt ↦
          rw (address, here, first_block, itself, scan_ends, room_left lt)
            (copy_first_data-ok fuel last at (omega arith) last_below end lt f)
      | no ge ↦
          rw
            (
              address,
              here,
              first_block,
              itself,
              scan_ends,
              block_full ge,
              Prefix-next c pre (omega arith) last (omega (arith, next_below ge)),
              to_address v (block (last + 1)) (c.inside (last + 1) (omega (arith, next_below ge))),
            )
            (copy_first_data-ok fuel (last + 1) 0 (omega arith) (next_below ge) (omega arith)
              (omega (arith, v.wide)) (omega arith))
    ]
      where
        next_below : ¬ (at < size_r) → last + 1 < n
        next_below ge = block_below (last + 1) (omega arith)

        address : convert_block_index_to_address (block last) p ≡ ok (block_address p (block last))
        address = to_address v (block last) (c.inside last (omega (arith, last_below)))

        here : outside p (block_address p (block last)) ≡ false
        here = not_outside v m (block last) (c.inside last (omega (arith, last_below)))

        scan_ends :
            skip_entries
              (suc (block_data_size p))
              m
              p
              (block_address p (block last))
              scan_start
              scan_start
            ≡ ok at
        scan_ends =
            skip_entries_lem c small md bytes size holds stored length_is size_small positive
              (suc (block_data_size p)) last first_scanned.0 scan_start at scan_start
              (omega (arith, last_below)) first_scanned.1 first_scanned.2 end fits
              (omega (arith, data_room))

        itself : (block last == block last) ≡ true
        itself = ground arith

        first_block : (not (block last == block 0) && not (block last == block last)) ≡ false
        first_block = ground (arith, itself)

        room_left : at < size_r → (at == block_data_size p) ≡ false
        room_left lt = ground (arith, data_room)

        block_full : ¬ (at < size_r) → (at == block_data_size p) ≡ true
        block_full ge = ground (arith, data_room)
