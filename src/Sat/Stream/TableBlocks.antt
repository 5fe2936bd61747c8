-- ===== src/Sat/Stream/TableBlocks.antt =====
-- devices/sat/sat.c: the loop of `write_block_indexes` over the blocks of the table.
use libslinga.Prelude.{ℕ, zero, suc, ◌+◌, ◌*◌, ◌%◌, ◌^◌, ◌≤◌, ◌<◌, ◌≡◌, ◌≢◌, refl, arith, List}
use libslinga.Prelude.{ok, ap, inl, inr, Result, ltb, ◌==◌, true, false, if◌then◌else◌}
use native.Mathlib.Decide.{dec_lt, ℕ_discrete}
use native.Mathlib.Nat.{mul-le-mul_right}
use libslinga.Memory.{Memory}
use libslinga.Sat.Partition.{PartitionInfo, memset_partition}
use libslinga.Sat.Blocks.Layout.{IsPartition, block_address, to_address}
use libslinga.Sat.Bitmap.{Bitmap}
use libslinga.Sat.Write.{WriteJob, IndexState, write_entries, open_block, write_tables}
use libslinga.Sat.Stream.{Chain, blocks-ne, room, tag_byte, Extends, Extends-refl, save_stream}
use libslinga.Sat.Stream.Pieces.{Extends-at, Extends-trans, clear_tag-Extends}
use libslinga.Sat.Stream.TableEntries.{index_job, Entries, write_entries-Entries}

module _ {p : PartitionInfo} {v : IsPartition p} {bitmap : Bitmap} {block : ℕ → ℕ} {n : ℕ}
    (c : Chain v bitmap block n) (bytes : List ℕ) (small : v.count ≤ 2 ^ 16) where
  abbrev size_r : ℕ
  size_r = room v block

  abbrev job : WriteJob
  job = index_job c bytes small

  abbrev Piece : ℕ → ℕ → Memory → Memory → Type 0
  Piece lo hi m m' = Extends v block (save_stream block n bytes) n lo hi m m'

  -- Where the entries of block `q` begin behind the tag.
  abbrev pub first_entry : ℕ → ℕ
  first_entry q = if q == 0 then 30 else 0

  open_block-Piece :
      (q lo : ℕ) (m : Memory)
      → q ≤ n
      → (m' : Memory) × (open_block job (block q) (block_address p (block q)) m
          ≡ (ok (4 + first_entry q), m'))
        × Piece lo lo m m'
        × ((i : ℕ) → 1 ≤ q → i < 4 → m' (tag_byte v block q i) ≡ 0)
  unfolding open_block
  open_block-Piece q lo m hq = elim (ℕ_discrete q 0) [
    | yes start ↦ rw start (
      m,
      same_block,
      Extends-refl v block (save_stream block n bytes) n lo m,
      λ i h. absurd (omega arith),
    )
    | no later ↦
        cleared later (clear_tag-Extends c (save_stream block n bytes) q lo m (omega arith) hq)
  ]
    where
      same_block : open_block job (block 0) (block_address p (block 0)) m ≡ (ok 34, m)
      same_block = ground arith

      cleared :
          q ≢ 0
          → ((m' : Memory) × (memset_partition (block_address p (block q)) 0 0 4 p.skip_bytes m
                ≡ (ok tt, m'))
              × Piece lo lo m m'
              × ((i : ℕ) → i < 4 → m' (tag_byte v block q i) ≡ 0))
          → (m' : Memory) × (open_block job (block q) (block_address p (block q)) m
              ≡ (ok (4 + first_entry q), m'))
            × Piece lo lo m m'
            × ((i : ℕ) → 1 ≤ q → i < 4 → m' (tag_byte v block q i) ≡ 0)
      cleared later (m', ran, piece, zero_at) =
          (m', rw (other_block, ran, behind) refl, piece, λ i pos h. zero_at i h)
        where
          other_block : (block q == block 0) ≡ false
          other_block = ground (arith, blocks-ne c q 0 later hq (omega arith))

          behind : (q == 0) ≡ false
          behind = ground arith

  -- What the loop over the blocks of the table leaves, from block `q` and entry `w` on.
  pub record Tables (q w : ℕ) (m : Memory) (out : Result (ℕ × IndexState) × Memory) : Type 0 where
    pub last : ℕ
    pub highest : ℕ
    pub at : ℕ
    pub memory : Memory
    pub ran : out ≡ (
      ok (
        block last,
        record { highest_index_written = highest; indexes_written = n; offset = 4 + at },
      ),
      memory,
    )
    pub later : q ≤ last
    pub position : 30 + 2 * n ≡ last * size_r + at
    pub fits : at ≤ size_r
    pub even : at % 2 ≡ 0
    pub some_entry : 1 ≤ at
    pub extends : Piece (30 + 2 * w) (30 + 2 * n) m memory
    pub cleared : (j i : ℕ) → q ≤ j → 1 ≤ j → j ≤ last → i < 4 → memory (tag_byte v block j i) ≡ 0

  module _ (holds : 30 + 2 * n < n * size_r) where
    pub block_below : (q w : ℕ) → w ≤ n → q * size_r ≤ 30 + 2 * w → q < n
    block_below q w hw h = elim (dec_lt q n) [
      | yes lt ↦ lt
      | no ge ↦ absurd (omega (arith, mul-le-mul_right {m = n} {n = q} size_r (omega arith)))
    ]

    pub write_tables-Tables :
        (fuel q w h o : ℕ) (m : Memory)
        → w < n
        → 30 + 2 * w ≡ q * size_r + first_entry q
        → h ≡ block w
        → n < fuel + w
        → Tables q w m (
            write_tables fuel job
              (block q)
              (record { highest_index_written = h; indexes_written = w; offset = o })
              m)
    unfolding write_tables
    write_tables-Tables zero q w h o m hw at newest f = absurd (omega arith)
    write_tables-Tables (suc fuel) q w h o m hw at newest f =
        opened (open_block-Piece q (30 + 2 * w) m (omega (arith, below)))
          (λ w' h' o' m' more at' newest' w<w'.
            write_tables-Tables fuel (q + 1) w' h' o' m' more at' newest' (omega arith))
      where
        below : q < n
        below = block_below q w (omega arith) (omega arith)

        enters : ltb w n ≡ true
        enters = ground arith

        Again : Type 0
        Again =
            (w' h' o' : ℕ) (m' : Memory)
            → w' < n
            → 30 + 2 * w' ≡ (q + 1) * size_r + first_entry (q + 1)
            → h' ≡ block w'
            → w < w'
            → Tables (q + 1) w' m' (
                write_tables fuel job (block (q + 1))
                  (record { highest_index_written = h'; indexes_written = w'; offset = o' }) m')

        Opened : Memory → Type 0
        Opened m' =
            (open_block job (block q) (block_address p (block q)) m ≡ (ok (4 + first_entry q), m'))
            × Piece (30 + 2 * w) (30 + 2 * w) m m'
            × ((i : ℕ) → 1 ≤ q → i < 4 → m' (tag_byte v block q i) ≡ 0)

        by_end :
            (m' : Memory)
            → Opened m'
            → (e : Entries c bytes small q w m' (
                write_entries
                  (suc p.block_size)
                  job
                  (block_address p (block q))
                  (record {
                    highest_index_written = h;
                    indexes_written = w;
                    offset = 4 + first_entry q;
                  })
                  m'))
            → Again
            → Dec (e.count < n)
            → Tables q w m (
                write_tables
                  (suc fuel)
                  job
                  (block q)
                  (record { highest_index_written = h; indexes_written = w; offset = o })
                  m)
        by_end m' o e again (no full) =
            rw
              (
                enters,
                to_address v (block q) (c.inside q (omega (arith, below))),
                o.0,
                e.ran,
                ended,
              )
              (record {
                last = q;
                highest = e.highest;
                at = e.at;
                memory = e.memory;
                ran =
                    ap
                      (λ x. (
                        ok (
                          block q,
                          record {
                            highest_index_written = e.highest;
                            indexes_written = x;
                            offset = 4 + e.at;
                          },
                        ),
                        e.memory,
                      ))
                      at_n;
                later = omega arith;
                position = omega (arith, e.position, at_n);
                fits = e.fits;
                even = e.even;
                some_entry = omega (arith, e.position, at_n);
                extends =
                    Extends-at v block refl (omega (arith, at_n))
                      (Extends-trans c (omega arith) (omega (arith, e.more)) o.1 e.extends);
                cleared = λ j i h1 h2 h3 h4. cleared_here j i (omega arith) h2 h4;
              })
          where
            at_n : e.count ≡ n
            at_n = omega (arith, e.within)

            ended : ltb e.count n ≡ false
            ended = ground arith

            cleared_here : (j i : ℕ) → j ≡ q → 1 ≤ j → i < 4 → e.memory (tag_byte v block j i) ≡ 0
            cleared_here j i same pos hi =
                e.extends.tags j i (omega (arith, below)) hi (rw same (o.2 i (omega arith) hi))
        by_end m' o e again (yes more) =
            rw
              (
                enters,
                to_address v (block q) (c.inside q (omega (arith, below))),
                o.0,
                e.ran,
                going,
                c.next q below,
              )
              (on (
                again e.count e.highest (4 + e.at) e.memory more at_next (e.newest more)
                  (ground (arith, e.position, full, v.wide))))
          where
            full : e.at ≡ size_r
            full = elim e.ended [ inl done ↦ absurd (omega arith) | inr end ↦ end ]

            at_next : 30 + 2 * e.count ≡ (q + 1) * size_r + first_entry (q + 1)
            at_next = ground (arith, e.position, full)

            going : ltb e.count n ≡ true
            going = ground arith

            on :
                {out : Result (ℕ × IndexState) × Memory}
                → Tables (q + 1) e.count e.memory out
                → Tables q w m out
            on t = record {
              last = t.last;
              highest = t.highest;
              at = t.at;
              memory = t.memory;
              ran = t.ran;
              later = omega (arith, t.later);
              position = t.position;
              fits = t.fits;
              even = t.even;
              some_entry = t.some_entry;
              extends =
                  Extends-trans c (omega arith) (omega arith) o.1
                    (Extends-trans c (omega (arith, e.more)) (omega arith) e.extends t.extends);
              cleared = λ j i h1 h2 h3 h4. elim (ℕ_discrete j q) [
                | yes same ↦
                    t.extends.tags j i (omega (arith, below)) h4 (cleared_at j i same h2 h4)
                | no other ↦ t.cleared j i (omega arith) h2 h3 h4
              ];
            }
              where
                cleared_at : (j i : ℕ) → j ≡ q → 1 ≤ j → i < 4 → e.memory (tag_byte v block j i) ≡ 0
                cleared_at j i same pos hi =
                    e.extends.tags j i (omega (arith, below)) hi (rw same (o.2 i (omega arith) hi))

        opened :
            (m' : Memory) × (open_block job (block q) (block_address p (block q)) m
                ≡ (ok (4 + first_entry q), m'))
              × Piece (30 + 2 * w) (30 + 2 * w) m m'
              × ((i : ℕ) → 1 ≤ q → i < 4 → m' (tag_byte v block q i) ≡ 0)
            → Again
            → Tables q w m (
                write_tables
                  (suc fuel)
                  job
                  (block q)
                  (record { highest_index_written = h; indexes_written = w; offset = o })
                  m)
        opened (m', o0, o1, o2) again =
            let e =
              write_entries-Entries c bytes small (suc p.block_size) q w (first_entry q) h m'
                (omega (arith, below)) hw at (ground (arith, v.wide)) (ground arith) newest
                (ground arith) in
            by_end m' (o0, o1, o2) e again (dec_lt e.count n)
