-- ===== src/Sat/Stream/Table.antt =====
-- devices/sat/sat.c: `write_block_indexes` writes the table's part of a save's stream.
use libslinga.Prelude.{ℕ, suc, ◌+◌, ◌*◌, ◌^◌, ◌≤◌, ◌<◌, ◌≡◌, ◌≢◌, refl, arith, List, ok, length}
use libslinga.Prelude.{Result, ◌==◌, true, false}
use native.Mathlib.Decide.{dec_lt}
use native.Mathlib.Nat.{mul-le-mul_right}
use libslinga.Memory.{Memory}
use libslinga.Sat.Partition.{PartitionInfo}
use libslinga.Sat.Blocks.Layout.{IsPartition}
use libslinga.Sat.Bitmap.{Bitmap}
use libslinga.Sat.Table.{adjusted_block_size}
use libslinga.Sat.Write.{WriteJob, IndexState, write_tables, write_block_indexes}
use libslinga.Sat.Stream.{Chain, room, tag_byte, Extends, save_stream}
use libslinga.Sat.Stream.TableEntries.{index_job}
use libslinga.Sat.Stream.TableBlocks.{Tables, write_tables-Tables, block_below}

module _ {p : PartitionInfo} {v : IsPartition p} {bitmap : Bitmap} {block : ℕ → ℕ} {n : ℕ}
    (c : Chain v bitmap block n) (bytes : List ℕ) (small : v.count ≤ 2 ^ 16) where
  abbrev size_r : ℕ
  size_r = room v block

  abbrev job : WriteJob
  job = index_job c bytes small

  abbrev Piece : ℕ → ℕ → Memory → Memory → Type 0
  Piece lo hi m m' = Extends v block (save_stream block n bytes) n lo hi m m'

  module _ (holds : 30 + 2 * n < n * size_r) where
    -- The table is in the stream, the data start right behind it, and no block of the table but the
    -- first has a tag.
    pub record Indexed (m : Memory) (out : Result (ℕ × ℕ) × Memory) : Type 0 where
      pub q : ℕ
      pub at : ℕ
      pub memory : Memory
      pub ran : out ≡ (ok (block q, 4 + at), memory)
      pub inside : q < n
      pub position : 30 + 2 * n ≡ q * size_r + at
      pub fits : at < size_r
      pub extends : Piece 30 (30 + 2 * n) m memory
      pub cleared :
          (j i : ℕ) → 1 ≤ j → j * size_r < 30 + 2 * n → i < 4 → memory (tag_byte v block j i) ≡ 0

    pub write_block_indexes-Indexed : (m : Memory) → n ≢ 0 → Indexed m (write_block_indexes job m)
    unfolding write_block_indexes
    write_block_indexes-Indexed m ne = by_end (
        write_tables-Tables c bytes small holds (suc n) 0 0 (block 0) 34 m (omega arith)
          (omega arith) refl (omega arith))
      where
        given : (n == 0) ≡ false
        given = ground arith

        nonempty : (length bitmap == 0) ≡ false
        nonempty = ground (arith, c.not_empty)

        opening : IndexState
        opening = record { highest_index_written = block 0; indexes_written = 0; offset = 34 }

        by_end :
            Tables c bytes small 0 0 m (
              write_tables
                (suc n)
                job
                (block 0)
                (record { highest_index_written = block 0; indexes_written = 0; offset = 34 })
                m)
            → Indexed m (write_block_indexes job m)
        by_end t = elim (dec_lt t.at size_r) [
          | yes lt ↦
              rw (nonempty, given, t.ran, room_left lt)
                (record {
                  q = t.last;
                  at = t.at;
                  memory = t.memory;
                  ran = refl;
                  inside =
                      block_below c bytes small holds t.last n (omega arith)
                        (omega (arith, t.position));
                  position = t.position;
                  fits = lt;
                  extends = t.extends;
                  cleared = λ j i h1 h2 h3. t.cleared j i (omega arith) h1 (at_most j h2) h3;
                })
          | no ge ↦
              rw
                (
                  nonempty,
                  given,
                  t.ran,
                  full ge,
                  c.next t.last (
                      block_below c bytes small holds t.last n (omega arith)
                        (omega (arith, t.position))),
                )
                (record {
                  q = t.last + 1;
                  at = 0;
                  memory = t.memory;
                  ran = refl;
                  inside =
                      block_below c bytes small holds (t.last + 1) n (omega arith)
                        (omega (arith, t.position, t.fits));
                  position = omega (arith, t.position, t.fits);
                  fits = omega (arith, v.wide);
                  extends = t.extends;
                  cleared = λ j i h1 h2 h3. t.cleared j i (omega arith) h1 (at_most j h2) h3;
                })
        ]
          where
            room_left : t.at < size_r → (4 + t.at == adjusted_block_size p) ≡ false
            room_left lt = ground arith

            full : ¬ (t.at < size_r) → (4 + t.at == adjusted_block_size p) ≡ true
            full ge = ground (arith, t.fits, v.wide)

            at_most : (j : ℕ) → j * size_r < 30 + 2 * n → j ≤ t.last
            at_most j h = elim (dec_lt t.last j) [
              | yes lt ↦ absurd (
                  omega (
                    arith,
                    t.position,
                    t.fits,
                    mul-le-mul_right {m = t.last + 1} {n = j} size_r (omega arith),
                  ))
              | no ge ↦ omega arith
            ]
