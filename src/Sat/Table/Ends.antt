-- ===== src/Sat/Table/Ends.antt =====
-- devices/sat/sat.c: `read_sat_table` ends, whatever the partition holds.
use libslinga.Sat.Blocks.Layout.{block_size_pos, block_address, IsPartition, block_size-small}
use libslinga.Sat.Bitmap.Laws.{set_bitmap-Adds, IsBytes, capacity, FirstSet}
use libslinga.Sat.Bitmap.Laws.{get_next_block_bitmap-FirstSet}
use libslinga.Prelude.{ok_injective, ℕ, zero, suc, ◌+◌, ◌-◌, ◌*◌, ◌/◌, ◌%◌, ◌^◌, ◌≤◌, ◌<◌, ◌≡◌}
use libslinga.Prelude.{◌≢◌, refl, arith, ltb, leb, ◌==◌, ◌!=◌, ◌||◌, u32, Result, ok, err}
use libslinga.Prelude.{diverge, Error, length, inl, inr, ◌∙◌, sym, Bool-cases}
use libslinga.Prelude.Action.{Action, ◌>>=◌, ◌>>◌, lift, query, update, continue_with}
use libslinga.Sat.Table.Grows.{read_sat_table_from_block-Keeps}
use libslinga.Memory.{Memory}
use libslinga.Prelude.Ends.{Ends, Ends-ok, Ends-err, Ends-bind, Ends-guard, Ends-if, EndsWith}
use libslinga.Prelude.Ends.{Any, EndsWith-bind, EndsWith-lift, EndsWith-err, EndsWith-query}
use libslinga.Prelude.Ends.{EndsWith-update, EndsWith-guard, EndsWith-if, EndsWith-reject}
use libslinga.Prelude.Ends.{Ends-known, Ends-past}
use native.Mathlib.Decide.{ℕ_discrete}
use libslinga.Sat.Find.Laws.{header_at, read_header_lem}
use libslinga.Sat.Blocks.Count.{LeastBlocks, calc_num_blocks-LeastBlocks, valid_size}
use libslinga.Sat.Partition.{PartitionInfo, read_from_partition, bad_skip}
use libslinga.Sat.Header.{short_at, read_header, sat_start_block_tag, sat_continue_block_tag}
use libslinga.Sat.Header.{StartBlockHeader}
use libslinga.Sat.Blocks.{convert_block_index_to_address, convert_address_to_block_index}
use libslinga.Sat.Blocks.{calc_num_blocks, min_block_size}
use libslinga.Sat.Find.{outside}
use libslinga.Sat.Bitmap.{Bitmap, get_next_block_bitmap, count_bitmap, set_bitmap}
use libslinga.Sat.Table.{TableState, record_entry, read_entries, read_sat_table_from_block}
use libslinga.Sat.Table.{adjusted_block_size, walk_table, table_step, table_next, check_count}
use libslinga.Sat.Table.{first_entry_byte, read_sat_table}

-- The parts without loops.
pub read_from_partition-Ends :
    (m : Memory) (src offset size skip : ℕ) → Ends (read_from_partition m src offset size skip)
unfolding read_from_partition
read_from_partition-Ends m src offset size skip =
    Ends-if (src == 0 || size == 0) _ _ (λ e. Ends-err Error.invalid_parameter)
      λ e.
        Ends-if (bad_skip skip) _ _ (λ e. Ends-err Error.invalid_parameter)
          λ e. Ends-if (skip == 0) _ _ (λ e. Ends-ok _) (λ e. Ends-ok _)

pub read_header-Ends : (m : Memory) (block skip : ℕ) → Ends (read_header m block skip)
unfolding read_header
read_header-Ends m block skip =
    Ends-bind (read_from_partition m block 0 34 skip) _ (read_from_partition-Ends m block 0 34 skip)
      (λ raw e. Ends-ok _)

pub to_address-Ends : (b : ℕ) (p : PartitionInfo) → Ends (convert_block_index_to_address b p)
unfolding convert_block_index_to_address
to_address-Ends b p =
    let address : ℕ = p.partition_buf + u32 (b * p.block_size) in
    Ends-guard (bad_skip p.skip_bytes) Error.invalid_parameter _ λ e1.
      Ends-guard (ltb address p.partition_buf) Error.invalid_parameter _ λ e2.
        Ends-guard (leb (p.partition_buf + p.partition_size) address) Error.invalid_parameter _
          (λ e3. Ends-ok address)

pub to_index-Ends : (a : ℕ) (p : PartitionInfo) → Ends (convert_address_to_block_index a p)
unfolding convert_address_to_block_index
to_index-Ends a p = Ends-guard (a == 0) Error.invalid_parameter _ λ e1.
    Ends-guard (ltb a p.partition_buf) Error.invalid_parameter _ λ e2.
      Ends-guard (leb (p.partition_buf + p.partition_size) a) Error.invalid_parameter _
        (λ e3. Ends-ok ((a - p.partition_buf) / p.block_size))

pub set_bitmap-Ends : (i : ℕ) (bitmap : Bitmap) → Ends (set_bitmap i bitmap)
unfolding set_bitmap
set_bitmap-Ends i bitmap =
    Ends-guard (length bitmap == 0) Error.invalid_parameter _
      λ e1. Ends-guard (leb (length bitmap) (i / 8)) Error.invalid_parameter _ (λ e2. Ends-ok _)

pub count_bitmap-Ends : (bitmap : Bitmap) → Ends (count_bitmap bitmap)
unfolding count_bitmap
count_bitmap-Ends bitmap =
    Ends-guard (length bitmap == 0) Error.invalid_parameter _ (λ e. Ends-ok _)

pub get_next-Ends :
    (i : ℕ) (bitmap : Bitmap) → length bitmap ≢ 0 → Ends (get_next_block_bitmap i bitmap)
get_next-Ends i bitmap ne = found (get_next_block_bitmap-FirstSet i bitmap ne)
  where
    found :
        FirstSet bitmap (u32 (i + 1)) (u32 (capacity bitmap)) (get_next_block_bitmap i bitmap)
        → Ends (get_next_block_bitmap i bitmap)
    found (inl (j, e, lo, hi, hit, h)) d = cc (e, d)
    found (inr (e, h)) d = cc (e, d)

-- A next block is below the bitmap's end, and a later one where the index behind does not wrap.
pub next-inside :
    (i j : ℕ) (bitmap : Bitmap)
    → length bitmap ≢ 0
    → get_next_block_bitmap i bitmap ≡ ok j
    → (i < 2 ^ 32 - 1 → i < j) × (j < capacity bitmap) × (j < 2 ^ 32 - 1)
next-inside i j bitmap ne ran = found (get_next_block_bitmap-FirstSet i bitmap ne)
  where
    found :
        FirstSet bitmap (u32 (i + 1)) (u32 (capacity bitmap)) (get_next_block_bitmap i bitmap)
        → (i < 2 ^ 32 - 1 → i < j) × (j < capacity bitmap) × (j < 2 ^ 32 - 1)
    found (inl (k, e, lo, hi, hit, h)) =
        let same = ok_injective (sym ran ∙ e) in
        (λ small. omega (arith, same), omega (arith, same), omega (arith, same))
    found (inr (e, h)) = cc (e, ran)

record_entry-EndsWith : (index : ℕ) → EndsWith Any (record_entry index)
unfolding record_entry
record_entry-EndsWith index =
    EndsWith-bind (query (λ (s : TableState). set_bitmap index s.bitmap)) _
      (EndsWith-query _ (λ s. set_bitmap-Ends index s.bitmap)) (λ bitmap t. EndsWith-update _)

read_entries-EndsWith :
    (fuel : ℕ) (m : Memory) (p : PartitionInfo) (block_index block start_byte : ℕ)
    → adjusted_block_size p < fuel + start_byte
    → adjusted_block_size p < 2 ^ 31
    → 1 ≤ fuel
    → EndsWith Any (read_entries fuel m p block_index block start_byte)
unfolding read_entries
read_entries-EndsWith zero m p block_index block start_byte f small pos = absurd (omega arith)
read_entries-EndsWith (suc fuel) m p block_index block start_byte f small pos =
    EndsWith-if (ltb start_byte (adjusted_block_size p)) _ _
      (λ lt.
        EndsWith-bind (lift (read_from_partition m block start_byte 2 p.skip_bytes)) _
          (EndsWith-lift (read_from_partition m block start_byte 2 p.skip_bytes)
            (read_from_partition-Ends m block start_byte 2 p.skip_bytes))
          λ raw e.
            EndsWith-if (short_at raw 0 == 0) _ _ (λ e1. EndsWith-update _)
              λ e1.
                EndsWith-if (leb (short_at raw 0) block_index) _ _
                  (λ e2. EndsWith-err Error.sat_blocks_out_of_order)
                  λ e2.
                    EndsWith-bind (record_entry (short_at raw 0)) _
                      (record_entry-EndsWith (short_at raw 0))
                      λ t t2.
                        read_entries-EndsWith fuel m p block_index block (u32 (start_byte + 2))
                          (ground (arith, lt)) small (ground (arith, lt)))
      (λ ge. EndsWith-err Error.more_data_available)

first_entry_byte-Ends : (b start : ℕ) (h : StartBlockHeader) → Ends (first_entry_byte b start h)
unfolding first_entry_byte
first_entry_byte-Ends b start h =
    Ends-if (b == start) _ _
      (λ e. Ends-if (h.tag == sat_start_block_tag) _ _ (λ e. Ends-ok _) (λ e. Ends-err _))
      (λ e. Ends-if (h.tag == sat_continue_block_tag) _ _ (λ e. Ends-ok _) (λ e. Ends-err _))

first_entry_byte-pos :
    (b start : ℕ) (h : StartBlockHeader) (at : ℕ) → first_entry_byte b start h ≡ ok at → 1 ≤ at
unfolding first_entry_byte
first_entry_byte-pos b start h at e = elim (Bool-cases (b == start)) [
  | inl first ↦ elim (Bool-cases (h.tag == sat_start_block_tag)) [
    | inl tagged ↦ omega (arith, ok_injective (rw (first, tagged) at e))
    | inr other ↦ cc (rw (first, other) at e)
  ]
  | inr later ↦ elim (Bool-cases (h.tag == sat_continue_block_tag)) [
    | inl tagged ↦ omega (arith, ok_injective (rw (later, tagged) at e))
    | inr other ↦ cc (rw (later, other) at e)
  ]
]

module _ {p : PartitionInfo} (v : IsPartition p) (m : Memory) where
  adjusted-small : adjusted_block_size p ≤ p.block_size
  adjusted-small = ground arith

  read_block-EndsWith : (b start : ℕ) → EndsWith Any (read_sat_table_from_block m b p start)
  unfolding read_sat_table_from_block
  read_block-EndsWith b start =
      EndsWith-bind (query (λ (s : TableState). ok (length s.bitmap))) _
        (EndsWith-query _ (λ s. Ends-ok (length s.bitmap)))
        λ bitmap_size t.
          EndsWith-guard (b == 0 || bitmap_size == 0 || start == 0) Error.invalid_parameter _ λ e1.
            EndsWith-guard (p.block_size % min_block_size != 0) Error.invalid_parameter _ λ e2.
              EndsWith-guard (p.partition_size % p.block_size != 0) Error.invalid_parameter _ λ e3.
                EndsWith-bind (lift (convert_block_index_to_address b p)) _
                  (EndsWith-lift (convert_block_index_to_address b p) (to_address-Ends b p))
                  λ block e4. EndsWith-guard (outside p block) Error.sat_invalid_partition _ λ e5.
                    EndsWith-bind (lift (read_header m block p.skip_bytes)) _
                      (EndsWith-lift (read_header m block p.skip_bytes)
                        (read_header-Ends m block p.skip_bytes))
                      λ header e6.
                        EndsWith-bind (lift (first_entry_byte b start header)) _
                          (EndsWith-lift (first_entry_byte b start header)
                            (first_entry_byte-Ends b start header))
                          λ at e7.
                            read_entries-EndsWith (suc p.block_size) m p b block at
                              (omega
                                (arith, adjusted-small, first_entry_byte-pos b start header at e7))
                              (omega (arith, adjusted-small, block_size-small v)) (omega arith)

  check_count-EndsWith : (n : ℕ) → EndsWith Any (check_count n)
  unfolding check_count
  check_count-EndsWith n =
      EndsWith-bind (query (λ (s : TableState). count_bitmap s.bitmap)) _
        (EndsWith-query _ (λ s. count_bitmap-Ends s.bitmap))
        λ bitmap_count t. EndsWith-reject (bitmap_count != n) Error.sat_invalid_partition

  table_next-Ends :
      (again : ℕ → Action TableState (Unit {0})) (n cur : ℕ) (next : Result ℕ) (s : TableState)
      → Ends next
      → ((b : ℕ) → next ≡ ok b → Ends (again b s).0)
      → Ends (table_next again n next s).0
  unfolding table_next
  table_next-Ends again n cur (ok b) s h k = k b refl
  table_next-Ends again n cur (err Error.not_found) s h k = (check_count-EndsWith n).ends s
  table_next-Ends again n cur (err e) s h k = Ends-err e
  table_next-Ends again n cur diverge s h k = absurd (h refl)

  table_step-Ends :
      (again : ℕ → Action TableState (Unit {0})) (n cur : ℕ) (r : Result (Unit {0}))
      (s : TableState)
      → Ends r
      → length s.bitmap ≢ 0
      → cur < 2 ^ 32 - 1
      → ((b : ℕ) → cur < b → b < capacity s.bitmap → b < 2 ^ 32 - 1 → Ends (again b s).0)
      → Ends (table_step again n cur r s).0
  unfolding table_step
  table_step-Ends again n cur (ok t) s h ne small k = Ends-ok tt
  table_step-Ends again n cur (err e) s h ne small k =
      table_next-Ends again n cur (get_next_block_bitmap cur s.bitmap) s
        (get_next-Ends cur s.bitmap ne)
        (λ b e'. let at = next-inside cur b s.bitmap ne e' in k b (at.0 small) at.1 at.2)
  table_step-Ends again n cur diverge s h ne small k = absurd (h refl)

  walk_table-Ends :
      (fuel start n cur : ℕ) (s : TableState)
      → IsBytes s.bitmap
      → length s.bitmap ≢ 0
      → cur < 2 ^ 32 - 1
      → capacity s.bitmap < fuel + cur
      → 1 ≤ fuel
      → Ends (walk_table fuel m p start n cur s).0
  unfolding walk_table
  walk_table-Ends zero start n cur s b ne low f pos = absurd (omega arith)
  walk_table-Ends (suc fuel) start n cur s b ne low f pos =
      elim (Bool-cases (ltb n s.written_sat_entries)) [
        | inl over ↦ rw over (Ends-err Error.sat_too_many_blocks)
        | inr within ↦
            let out = read_sat_table_from_block m cur p start s in
            let grown = (read_sat_table_from_block-Keeps m cur p start).grows s b in
            rw within (
              table_step-Ends (walk_table fuel m p start n) n cur out.0 out.1
                ((read_block-EndsWith cur start).ends s) (omega (arith, grown.same_size)) low
                (λ next lt inside low'.
                  walk_table-Ends fuel start n next out.1 grown.bytes
                    (omega (arith, grown.same_size)) low' (omega (arith, grown.same_size))
                    (omega (arith, grown.same_size))))
      ]

  then-Ends :
      (act : Action TableState (Unit {0})) (start : ℕ) (s : TableState)
      → Ends (act s).0
      → Ends ((act >> lift (ok start)) s).0
  then-Ends act start s h = by_outcome (act s).0 (act s).1 h
    where
      by_outcome :
          (r : Result (Unit {0})) (s' : TableState)
          → Ends r
          → Ends (continue_with (λ t. lift (ok start)) r s').0
      by_outcome (ok t) s' h = Ends-ok start
      by_outcome (err e) s' h = Ends-err e
      by_outcome diverge s' h = absurd (h refl)

  -- An address within the partition has a small index.
  to_index-small : (a i : ℕ) → convert_address_to_block_index a p ≡ ok i → i < 2 ^ 32 - 1
  unfolding convert_address_to_block_index
  to_index-small a i e = ground (arith, e, v.small, block_size_pos v)

  -- The state and the result of the loop in `read_sat_table`.
  started-Ends :
      (start n size : ℕ) (s : TableState)
      → IsBytes s.bitmap
      → length s.bitmap ≡ size
      → size ≢ 0
      → start < 2 ^ 32 - 1
      → Ends
          ((query (λ (s : TableState). set_bitmap start s.bitmap) >>= λ bitmap.
              update (λ s. record s { bitmap = bitmap; written_sat_entries = 1 })
              >> (walk_table (suc (8 * size)) m p start n start >> lift (ok start)))
            s).0
  started-Ends start n size s b same ne low = elim (set_bitmap-Adds start s.bitmap b) [
    | inl (lt, (bitmap', e, adds)) ↦ rw e (
        then-Ends (walk_table (suc (8 * size)) m p start n start) start _ (
          walk_table-Ends (suc (8 * size)) start n start
            (record s { bitmap = bitmap'; written_sat_entries = 1 }) adds.bytes
            (omega (arith, adds.same_size)) low (omega (arith, adds.same_size)) (omega arith)))
    | inr (ge, e) ↦ rw e (Ends-err Error.invalid_parameter)
  ]

  pub calc_num_blocks-Ends :
      (size : ℕ) → size ≤ 2 ^ 30 → Ends (calc_num_blocks size p.block_size p.skip_bytes)
  unfolding calc_num_blocks
  calc_num_blocks-Ends size small = elim (ℕ_discrete size 0) [
    | yes empty ↦ rw empty (Ends-err Error.invalid_parameter)
    | no ne ↦ found (
        calc_num_blocks-LeastBlocks size p.block_size p.skip_bytes ne small v.good_skip
          v.valid_aligned (omega (arith, v.wide)) (ground (arith, block_size-small v)))
  ]
    where
      found :
          LeastBlocks size
            (valid_size p.block_size p.skip_bytes - 4)
            (calc_num_blocks size p.block_size p.skip_bytes)
          → Ends (calc_num_blocks size p.block_size p.skip_bytes)
      found (n, e, holds, least) d = cc (e, d)

  -- On a well-formed partition the table of the save in block `b` is read in finitely many rounds,
  -- when its size is at most 2^30 bytes.
  pub read_sat_table-Ends :
      (b : ℕ) (s : TableState)
      → (header_at m p b).data_size ≤ 2 ^ 30
      → IsBytes s.bitmap
      → Ends (read_sat_table m p (block_address p b) s).0
  unfolding read_sat_table
  read_sat_table-Ends b s small bytes =
      Ends-past (block_address p b == 0 || length s.bitmap == 0) Error.invalid_parameter _ s λ e1.
        Ends-past (p.block_size % min_block_size != 0) Error.invalid_parameter _ s λ e2.
          Ends-past (p.partition_size % p.block_size != 0) Error.invalid_parameter _ s λ e3.
            Ends-known (read_header m (block_address p b) p.skip_bytes) _ s
              (read_header-Ends m (block_address p b) p.skip_bytes)
              λ header e4.
                Ends-known (calc_num_blocks header.data_size p.block_size p.skip_bytes) _ s
                  (calc_num_blocks-Ends header.data_size
                    (rw (ok_injective (sym e4 ∙ read_header_lem v m b)) small))
                  λ n e5.
                    Ends-past (ltb (u32 (length s.bitmap * 8)) n) Error.sat_save_out_of_range _ s
                      λ e6.
                        Ends-known (convert_address_to_block_index (block_address p b) p) _ s
                          (to_index-Ends (block_address p b) p)
                          λ start e7.
                            started-Ends start n (length s.bitmap) s bytes refl (ground (arith, e1))
                              (to_index-small (block_address p b) start e7)
