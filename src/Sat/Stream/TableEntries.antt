-- ===== src/Sat/Stream/TableEntries.antt =====
-- devices/sat/sat.c: `write_block_indexes` writes the entries of one block of the table.
use libslinga.Prelude.{ℕ, zero, suc, ◌+◌, ◌*◌, ◌%◌, ◌^◌, ◌≤◌, ◌<◌, ◌≡◌, ◌≢◌, refl, arith, List}
use libslinga.Prelude.{ok, ◌∙◌, sym, ap, get_or, ◌⊎◌, inl, inr, Result, u16, u32, ltb, leb, ◌==◌}
use libslinga.Prelude.{true, false, if◌then◌else◌, Bool-cases}
use native.Mathlib.Decide.{dec_lt}
use libslinga.Memory.{Memory}
use libslinga.Sat.Partition.{PartitionInfo, write_to_partition}
use libslinga.Sat.Blocks.Layout.{IsPartition, block_address, block-lt}
use libslinga.Sat.Bitmap.{Bitmap}
use libslinga.Sat.Header.{short_bytes}
use libslinga.Sat.Table.{adjusted_block_size}
use libslinga.Sat.Write.{WriteJob, IndexState, next_index, write_entries}
use libslinga.Sat.Stream.{Chain, blocks-lt, room, Extends, Extends-refl, entry, save_stream}
use libslinga.Sat.Stream.{save_stream-entry}
use libslinga.Sat.Stream.Pieces.{Extends-at, Extends-trans, write-Extends}

module _ {p : PartitionInfo} {v : IsPartition p} {bitmap : Bitmap} {block : ℕ → ℕ} {n : ℕ}
    (c : Chain v bitmap block n) (bytes : List ℕ) (small : v.count ≤ 2 ^ 16) where
  abbrev size_r : ℕ
  size_r = room v block

  abbrev pub index_job : WriteJob
  index_job = record { save_start_block = block 0; num_blocks = n; bitmap = bitmap; info = p }

  -- What a run over one block's entries leaves.
  pub record Entries (q w : ℕ) (m : Memory) (out : Result IndexState × Memory) : Type 0 where
    pub highest : ℕ
    pub count : ℕ
    pub at : ℕ
    pub memory : Memory
    pub ran : out ≡ (
      ok (record { highest_index_written = highest; indexes_written = count; offset = 4 + at }),
      memory,
    )
    pub more : w ≤ count
    pub within : count ≤ n
    pub position : 30 + 2 * count ≡ q * size_r + at
    pub fits : at ≤ size_r
    pub even : at % 2 ≡ 0
    pub newest : count < n → highest ≡ block count
    pub ended : (count ≡ n) ⊎ (at ≡ size_r)
    pub extends :
        Extends v block (save_stream block n bytes) n (30 + 2 * w) (30 + 2 * count) m memory

  index_below : (i : ℕ) → i ≤ n → i ≤ block i
  index_below zero h = omega arith
  index_below (suc i) h =
      omega (arith, index_below i (omega arith), blocks-lt c i (suc i) (omega arith) h)

  n-small : n < 2 ^ 16
  n-small = omega (arith, index_below n (omega arith), c.inside n (omega arith))

  size_r-even : size_r % 2 ≡ 0
  size_r-even = omega (arith, v.valid_aligned, v.wide)

  size_r-small : size_r < 2 ^ 30
  size_r-small = ground (arith, block-lt v 0 (omega (arith, v.two_blocks)), v.small)

  -- The highest index after entry `w`.
  abbrev newest_after : ℕ → ℕ
  newest_after w = if w + 1 == n then block w else block (w + 1)

  next_index_lem :
      (w : ℕ)
      → w < n
      → next_index index_job (block w) (w + 1) ≡ ok (entry block n (w + 1), newest_after w)
  unfolding next_index
  next_index_lem w h = elim (Bool-cases (w + 1 == n)) [
    | inl last ↦ rw last refl
    | inr more ↦ rw (more, c.next w h, cut) refl
  ]
    where
      cut : u16 (block (w + 1)) ≡ block (w + 1)
      cut = omega (arith, c.inside (w + 1) (omega arith))

  -- The bytes of entry `w`, and its write.
  entry_bytes :
      (q w s i : ℕ)
      → w < n
      → 30 + 2 * w ≡ q * size_r + s
      → i < 2
      → get_or (short_bytes (entry block n (w + 1))) i 0
        ≡ save_stream block n bytes (q * size_r + s + i)
  entry_bytes q w s i hw at hi =
      sym (save_stream-entry block n bytes w i hw hi) ∙ ap (save_stream block n bytes) (omega arith)

  abbrev Piece : ℕ → ℕ → Memory → Memory → Type 0
  Piece lo hi m m' = Extends v block (save_stream block n bytes) n lo hi m m'

  Entries-more :
      {q w : ℕ} {m m' : Memory} {out : Result IndexState × Memory}
      → Piece (30 + 2 * w) (30 + 2 * (w + 1)) m m'
      → Entries q (w + 1) m' out
      → Entries q w m out
  Entries-more piece e = record {
    highest = e.highest;
    count = e.count;
    at = e.at;
    memory = e.memory;
    ran = e.ran;
    more = omega (arith, e.more);
    within = e.within;
    position = e.position;
    fits = e.fits;
    even = e.even;
    newest = e.newest;
    ended = e.ended;
    extends = Extends-trans c (omega arith) (omega (arith, e.more)) piece e.extends;
  }

  pub write_entries-Entries :
      (fuel q w s h : ℕ) (m : Memory)
      → q ≤ n
      → w < n
      → 30 + 2 * w ≡ q * size_r + s
      → s ≤ size_r
      → s % 2 ≡ 0
      → h ≡ block w
      → size_r < fuel + s
      → Entries q w m (
          write_entries fuel index_job
            (block_address p (block q))
            (record { highest_index_written = h; indexes_written = w; offset = 4 + s })
            m)
  unfolding write_entries
  write_entries-Entries zero q w s h m hq hw at fits even newest f = absurd (omega arith)
  write_entries-Entries (suc fuel) q w s h m hq hw at fits even newest f = elim (dec_lt s size_r) [
    | yes lt ↦
        one lt
          (write-Extends c (save_stream block n bytes) q s 2 (short_bytes (entry block n (w + 1))) m
            hq (omega arith) (omega (arith, even, size_r-even))
            (λ i hi. entry_bytes q w s i hw at hi))
          (λ m' more.
            write_entries-Entries fuel q (w + 1) (s + 2) (block (w + 1)) m' hq more (omega arith)
              (omega (arith, even, size_r-even)) (omega arith) refl (omega arith))
    | no ge ↦ rw (full ge) (record {
      highest = h;
      count = w;
      at = s;
      memory = m;
      ran = refl;
      more = omega arith;
      within = omega arith;
      position = at;
      fits = fits;
      even = even;
      newest = λ lt. newest;
      ended = inr (omega arith);
      extends = Extends-refl v block (save_stream block n bytes) n (30 + 2 * w) m;
    })
  ]
    where
      full : ¬ (s < size_r) → ltb (4 + s) (adjusted_block_size p) ≡ false
      full ge = ground arith

      inside : s < size_r → ltb (4 + s) (adjusted_block_size p) ≡ true
      inside lt = ground arith

      one :
          s < size_r
          → ((m' : Memory) × (write_to_partition
                  (block_address p (block q))
                  (4 + s)
                  (short_bytes (entry block n (w + 1)))
                  2
                  p.skip_bytes
                  m
                ≡ (ok tt, m'))
              × Piece (q * size_r + s) (q * size_r + s + 2) m m')
          → ((m' : Memory)
              → w + 1 < n
              → Entries q (w + 1) m' (
                  write_entries fuel index_job
                    (block_address p (block q))
                    (record {
                      highest_index_written = block (w + 1);
                      indexes_written = w + 1;
                      offset = 4 + (s + 2);
                    })
                    m'))
          → Entries q w m (
              write_entries
                (suc fuel)
                index_job
                (block_address p (block q))
                (record { highest_index_written = h; indexes_written = w; offset = 4 + s })
                m)
      one lt (m', ran, piece) again = elim (Bool-cases (w + 1 == n)) [
        | inl last ↦
            rw (inside lt, newest, counted, next_index_lem w hw, ran, moved, done (ground arith))
              (record {
                highest = newest_after w;
                count = w + 1;
                at = s + 2;
                memory = m';
                ran = refl;
                more = omega arith;
                within = omega arith;
                position = omega arith;
                fits = omega (arith, even, size_r-even);
                even = omega arith;
                newest = λ more. absurd (ground arith);
                ended = inl (ground arith);
                extends = here;
              })
        | inr more ↦
            rw
              (
                inside lt,
                newest,
                counted,
                next_index_lem w hw,
                ran,
                moved,
                not_done (ground arith),
                more,
              )
              (Entries-more here (again m' (ground arith)))
      ]
        where
          counted : u32 (w + 1) ≡ w + 1
          counted = omega (arith, n-small)

          moved : u32 (4 + s + 2) ≡ 4 + (s + 2)
          moved = omega (arith, size_r-small)

          done : w + 1 ≡ n → leb n (w + 1) ≡ true
          done e = ground arith

          not_done : w + 1 ≢ n → leb n (w + 1) ≡ false
          not_done ne = ground arith

          here : Piece (30 + 2 * w) (30 + 2 * (w + 1)) m m'
          here = Extends-at v block (omega arith) (omega arith) piece
