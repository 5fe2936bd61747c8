-- ===== src/Sat/Stream/Entries.antt =====
-- devices/sat/sat.c: `read_sat_table_from_block` on a save that is stored as a stream.
use libslinga.Prelude.{ℕ, zero, suc, ◌+◌, ◌-◌, ◌*◌, ◌/◌, ◌%◌, ◌^◌, ◌≤◌, ◌<◌, ◌≡◌, refl, arith}
use libslinga.Prelude.{List, ok, err, Error, ◌∙◌, ap, get_or, ◌⊎◌, inl, inr, Result, u32, ltb}
use libslinga.Prelude.{leb, ◌==◌, true, false, Bool-cases}
use libslinga.Prelude.Action.{◌>>◌}
use native.Mathlib.Decide.{dec_lt}
use native.Mathlib.Nat.{mul-le-mul_left}
use libslinga.Memory.{Memory}
use libslinga.Sat.Partition.{PartitionInfo, read_from_partition}
use libslinga.Sat.Partition.Bytes.{byte_address, view, read_from_partition_lem}
use libslinga.Sat.Blocks.Layout.{IsPartition, block_address, block-lt}
use libslinga.Sat.Bitmap.{Bitmap, is_set}
use libslinga.Sat.Header.{SaveMetadata, short_bytes, short_at}
use libslinga.Sat.Table.{TableState, adjusted_block_size, record_entry, read_entries}
use libslinga.Sat.Stream.{Chain, blocks-lt, room, stream_byte, entry, save_stream}
use libslinga.Sat.Stream.{save_stream-entry}
use libslinga.Sat.Stream.Pieces.{in_block}
use libslinga.Sat.Stream.Save.{Stored}
use libslinga.Sat.Stream.Prefix.{Prefix, Next, Prefix-add}
use libslinga.Sat.Write.Room.{next_is_set}

module _ {p : PartitionInfo} {v : IsPartition p} {free : Bitmap} {block : ℕ → ℕ} {n : ℕ}
    (c : Chain v free block n) (small : v.count ≤ 2 ^ 16) (md : SaveMetadata) (bytes : List ℕ)
    (size : ℕ) (holds : 30 + 2 * n < n * room v block) {m : Memory}
    (stored : Stored v block n md bytes size m) where
  abbrev pub size_r : ℕ
  size_r = room v block

  pub is_free : (i : ℕ) → i ≤ n → is_set free (block i) ≡ true
  is_free zero h = next_is_set 0 (block 0) free c.first
  is_free (suc i) h =
      rw (ap block one_more) (next_is_set (block i) (block (i + 1)) free (c.next i (omega arith)))
    where
      one_more : suc i ≡ i + 1
      one_more = omega arith

  -- What a look at one entry gives.
  pub entry_read :
      (q w s : ℕ)
      → q ≤ n
      → w < n
      → 30 + 2 * w ≡ q * size_r + s
      → s + 2 ≤ size_r
      → (raw : List ℕ) × (read_from_partition m (block_address p (block q)) (4 + s) 2 p.skip_bytes
          ≡ ok raw)
        × (short_at raw 0 ≡ entry block n (w + 1))
  unfolding view
  entry_read q w s hq hw at fits = (
    view m (block_address p (block q)) p.skip_bytes (4 + s) 2,
    read_from_partition_lem m (block_address p (block q)) (4 + s) 2 p.skip_bytes
        (in_block c q (4 + s) 2 hq (omega arith) (omega arith)),
    omega (arith, high, low, entry-small),
  )
    where
      byte_at :
          (i : ℕ)
          → i < 2
          → m (stream_byte v block q (s + i)) ≡ get_or (short_bytes (entry block n (w + 1))) i 0
      byte_at i h =
          stored.stream q (s + i) hq (omega arith) (omega arith) (omega arith)
          ∙ ap (save_stream block n bytes) (omega arith)
          ∙ save_stream-entry block n bytes w i hw h

      high :
          m (byte_address (block_address p (block q)) p.skip_bytes (4 + s))
          ≡ entry block n (w + 1) / 2 ^ 8 % 2 ^ 8
      high =
          ap (λ k. m (byte_address (block_address p (block q)) p.skip_bytes k)) (omega arith)
          ∙ byte_at 0 (omega arith)

      low :
          m (byte_address (block_address p (block q)) p.skip_bytes (4 + s + 1))
          ≡ entry block n (w + 1) % 2 ^ 8
      low =
          ap (λ k. m (byte_address (block_address p (block q)) p.skip_bytes k)) (omega arith)
          ∙ byte_at 1 (omega arith)

      entry-small : entry block n (w + 1) < 2 ^ 16
      entry-small = ground (arith, c.inside (w + 1) (omega arith))

  -- The table ends in block `q`.
  abbrev pub Ended : ℕ → Result (Unit {0}) × TableState → Type 0
  Ended q out =
      (s' : TableState) × (at : ℕ) × (out ≡ (ok tt, s'))
      × (30 + 2 * n ≡ q * size_r + at)
      × (at ≤ size_r)
      × (1 ≤ at)
      × (s'.start_data_block ≡ block q)
      × Prefix c (n - 1) s'.bitmap

  -- Block `q` is full, and entry `w'` comes next.
  abbrev pub Full : ℕ → ℕ → Result (Unit {0}) × TableState → Type 0
  Full q w out =
      (s' : TableState) × (w' : ℕ) × (out ≡ (err Error.more_data_available, s'))
      × (w ≤ w')
      × (w' < n)
      × (30 + 2 * w' ≡ q * size_r + size_r)
      × Prefix c w' s'.bitmap
      × (s'.written_sat_entries ≡ w' + 1)

  pub index-ge : (q w : ℕ) → q * size_r ≤ 30 + 2 * w → q ≤ w
  index-ge q w h = elim (dec_lt w q) [
    | yes lt ↦
        absurd (omega (arith, mul-le-mul_left {m = 60} {n = size_r} q (omega (arith, v.wide))))
    | no ge ↦ omega arith
  ]

  pub index_below : (i : ℕ) → i ≤ n → i ≤ block i
  index_below zero h = omega arith
  index_below (suc i) h =
      omega (arith, index_below i (omega arith), blocks-lt c i (suc i) (omega arith) h)

  pub n-small : n < 2 ^ 16
  n-small = omega (arith, index_below n (omega arith), c.inside n (omega arith))

  pub size_r-small : size_r < 2 ^ 30
  size_r-small = ground (arith, block-lt v 0 (omega (arith, v.two_blocks)), v.small)

  size_r-even : size_r % 2 ≡ 0
  size_r-even = omega (arith, v.valid_aligned, v.wide)

  -- The next entry is recorded.
  record_entry-Next :
      (w : ℕ) (s : TableState)
      → w + 1 ≤ n
      → Prefix c w s.bitmap
      → s.written_sat_entries ≡ w + 1
      → (s' : TableState) × (record_entry (block (w + 1)) s ≡ (ok tt, s'))
        × Prefix c (w + 1) s'.bitmap
        × (s'.written_sat_entries ≡ w + 2)
  unfolding record_entry
  record_entry-Next w s h pre count = go (Prefix-add c pre (is_free (w + 1) h))
    where
      go :
          Next c (w + 1) s.bitmap
          → (s' : TableState) × (record_entry (block (w + 1)) s ≡ (ok tt, s'))
            × Prefix c (w + 1) s'.bitmap
            × (s'.written_sat_entries ≡ w + 2)
      go (bitmap', e, pre') = (
        record s { bitmap = bitmap'; written_sat_entries = u32 (s.written_sat_entries + 1) },
        rw e refl,
        pre',
        omega (arith, n-small),
      )

  pub read_entries-Outcome :
      (fuel q w s : ℕ) (st : TableState)
      → q ≤ n
      → w < n
      → 30 + 2 * w ≡ q * size_r + s
      → s ≤ size_r
      → s % 2 ≡ 0
      → Prefix c w st.bitmap
      → st.written_sat_entries ≡ w + 1
      → size_r < fuel + s
      → let out = read_entries fuel m p (block q) (block_address p (block q)) (4 + s) st in
        Ended q out ⊎ Full q w out
  unfolding read_entries
  read_entries-Outcome zero q w s st hq hw at fits even pre count f = absurd (omega arith)
  read_entries-Outcome (suc fuel) q w s st hq hw at fits even pre count f = elim (dec_lt s size_r) [
    | yes lt ↦
        one lt (entry_read q w s hq hw at (omega (arith, even, size_r-even)))
          (λ st' more pre' count'.
            read_entries-Outcome fuel q (w + 1) (s + 2) st' hq more (omega arith)
              (omega (arith, even, size_r-even)) (omega arith) pre' (omega (arith, count'))
              (omega arith))
    | no ge ↦ rw (past ge) (inr (st, w, refl, omega arith, hw, omega arith, pre, count))
  ]
    where
      past : ¬ (s < size_r) → ltb (4 + s) (adjusted_block_size p) ≡ false
      past ge = ground arith

      inside : s < size_r → ltb (4 + s) (adjusted_block_size p) ≡ true
      inside lt = ground arith

      Outcome : Result (Unit {0}) × TableState → Type 0
      Outcome out = Ended q out ⊎ Full q w out

      weaken :
          {out : Result (Unit {0}) × TableState} → Ended q out ⊎ Full q (w + 1) out → Outcome out
      weaken (inl e) = inl e
      weaken (inr (s', w', e, h1, h2, h3, h4, h5)) = inr (s', w', e, omega arith, h2, h3, h4, h5)

      one :
          s < size_r
          → ((raw : List ℕ) × (read_from_partition m
                  (block_address p (block q))
                  (4 + s)
                  2
                  p.skip_bytes
                ≡ ok raw)
              × (short_at raw 0 ≡ entry block n (w + 1)))
          → ((st' : TableState)
              → w + 1 < n
              → Prefix c (w + 1) st'.bitmap
              → st'.written_sat_entries ≡ w + 2
              → let out =
                  read_entries fuel m p (block q) (block_address p (block q)) (4 + (s + 2)) st' in
                Ended q out ⊎ Full q (w + 1) out)
          → Outcome (read_entries (suc fuel) m p (block q) (block_address p (block q)) (4 + s) st)
      one lt (raw, ran, short) again = elim (Bool-cases (w + 1 == n)) [
        | inl last ↦
            rw (inside lt, ran, zero_entry last)
              (inl (
                record st { start_data_block = block q },
                s + 2,
                refl,
                ground arith,
                omega (arith, even, size_r-even),
                omega arith,
                refl,
                rw (last_is last) pre,
              ))
        | inr more ↦
            rw (inside lt, ran, block_entry more, not_zero, in_order, moved)
              (recorded more (record_entry-Next w st (omega arith) pre count))
      ]
        where
          zero_entry : (w + 1 == n) ≡ true → short_at raw 0 ≡ 0
          zero_entry last = short ∙ rw last refl

          last_is : (w + 1 == n) ≡ true → n - 1 ≡ w
          last_is last = ground arith

          block_entry : (w + 1 == n) ≡ false → short_at raw 0 ≡ block (w + 1)
          block_entry more = short ∙ rw more refl

          follows : block q < block (w + 1)
          follows = blocks-lt c q (w + 1) (omega (arith, index-ge q w (omega arith))) (omega arith)

          not_zero : (block (w + 1) == 0) ≡ false
          not_zero = ground (arith, follows)

          in_order : leb (block (w + 1)) (block q) ≡ false
          in_order = ground (arith, follows)

          moved : u32 (4 + s + 2) ≡ 4 + (s + 2)
          moved = omega (arith, size_r-small)

          recorded :
              (w + 1 == n) ≡ false
              → ((st' : TableState) × (record_entry (block (w + 1)) st ≡ (ok tt, st'))
                  × Prefix c (w + 1) st'.bitmap
                  × (st'.written_sat_entries ≡ w + 2))
              → Outcome (
                  (record_entry (block (w + 1))
                      >> read_entries fuel m p (block q) (block_address p (block q)) (4 + (s + 2)))
                    st)
          recorded more (st', ran', pre', count') =
              rw ran' (weaken (again st' (ground arith) pre' count'))
