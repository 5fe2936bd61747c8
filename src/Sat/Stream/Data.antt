-- ===== src/Sat/Stream/Data.antt =====
-- devices/sat/sat.c: `write_data` writes the data's part of a save's stream.
use libslinga.Prelude.{get_or-drop, ℕ, zero, suc, ◌+◌, ◌-◌, ◌*◌, ◌^◌, ◌≤◌, ◌<◌, ◌≡◌, ◌≢◌, refl}
use libslinga.Prelude.{arith, List, ok, ◌∙◌, sym, ap, get_or, length, drop, Result, u32, sub32}
use libslinga.Prelude.{ltb, leb, ◌==◌, ◌||◌, true, false, if◌then◌else◌}
use native.Mathlib.Decide.{dec_lt}
use native.Mathlib.Nat.{mul-le-mul_right}
use libslinga.Memory.{Memory}
use libslinga.Sat.Partition.{PartitionInfo, write_to_partition}
use libslinga.Sat.Blocks.Layout.{IsPartition, block_address, block-lt, to_address, block_size_pos}
use libslinga.Sat.Bitmap.{Bitmap}
use libslinga.Sat.Table.{adjusted_block_size}
use libslinga.Sat.Write.{DataJob, write_blocks, write_data}
use libslinga.Sat.Stream.{Chain, blocks-ne, room, Extends, Extends-refl, save_stream}
use libslinga.Sat.Stream.{save_stream-data}
use libslinga.Sat.Stream.Pieces.{Extends-at, Extends-trans, write-Extends}

module _ {p : PartitionInfo} {v : IsPartition p} {bitmap : Bitmap} {block : ℕ → ℕ} {n : ℕ}
    (c : Chain v bitmap block n) (bytes : List ℕ) (size : ℕ) (small : size ≤ 2 ^ 30)
    (holds : 30 + 2 * n + size ≤ n * room v block) where
  abbrev size_r : ℕ
  size_r = room v block

  module _ (first r : ℕ) where
    abbrev pub bytes_job : DataJob
    bytes_job = record {
      save_data_start_block = block first;
      save_data_start_offset = 4 + r;
      bytes = bytes;
      size = size;
      bitmap = bitmap;
      info = p;
    }

    -- Where the data go on in block `q`.
    abbrev offset_in : ℕ → ℕ
    offset_in q = if block q == block first then 4 + r else 4

    abbrev pub Rest : ℕ → Memory → Result (Unit {0}) × Memory → Type 0
    Rest t m out =
        (m' : Memory) × (out ≡ (ok tt, m'))
        × Extends v block (save_stream block n bytes) n (30 + 2 * n + t) (30 + 2 * n + size) m m'

    size_r-small : size_r < 2 ^ 30
    size_r-small = ground (arith, block-lt v 0 (omega (arith, v.two_blocks)), v.small, v.wide)

    block_below : (q t : ℕ) → t < size → q * size_r ≤ 30 + 2 * n + t → q < n
    block_below q t ht h = elim (dec_lt q n) [
      | yes lt ↦ lt
      | no ge ↦ absurd (omega (arith, mul-le-mul_right {m = n} {n = q} size_r (omega arith)))
    ]

    write_blocks-Rest :
        (fuel q t s : ℕ) (m : Memory)
        → first ≤ q
        → q ≤ n
        → (t < size → 30 + 2 * n + t ≡ q * size_r + s)
        → s < size_r
        → offset_in q ≡ 4 + s
        → t ≤ size
        → size < fuel + t
        → Rest t m (write_blocks fuel bytes_job (block q) t m)
    unfolding write_blocks
    write_blocks-Rest zero q t s m lo hq at fits off le f = absurd (omega arith)
    write_blocks-Rest (suc fuel) q t s m lo hq at fits off le f = elim (dec_lt t size) [
      | yes lt ↦
          one lt
            (write-Extends c (save_stream block n bytes) q s amount (drop t bytes) m hq
              (amount_pos lt) amount_fits (source lt))
            (λ m'.
              write_blocks-Rest fuel (q + 1) (t + amount) 0 m' (omega arith)
                (omega (arith, below lt)) (next_at lt) (omega (arith, v.wide)) (later lt)
                (within lt) (omega (arith, amount_pos lt)))
      | no ge ↦ rw (ended ge) (
        m,
        refl,
        rw (t_is ge) (Extends-refl v block (save_stream block n bytes) n (30 + 2 * n + size) m),
      )
    ]
      where
        ended : ¬ (t < size) → ltb t size ≡ false
        ended ge = ground arith

        t_is : ¬ (t < size) → t ≡ size
        t_is ge = omega arith

        goes_on : t < size → ltb t size ≡ true
        goes_on lt = ground arith

        below : t < size → q < n
        below lt = block_below q t lt (omega (arith, at lt))

        amount : ℕ
        amount = if ltb (size_r - s) (size - t) then size_r - s else size - t

        amount_pos : t < size → amount ≢ 0
        amount_pos lt = ground arith

        amount_fits : s + amount ≤ size_r
        amount_fits = ground arith

        within : t < size → t + amount ≤ size
        within lt = ground arith

        next_at : t < size → t + amount < size → 30 + 2 * n + (t + amount) ≡ (q + 1) * size_r + 0
        next_at lt more = omega (arith, at lt, fills more)
          where
            fills : t + amount < size → s + amount ≡ size_r
            fills more = ground arith

        later : t < size → offset_in (q + 1) ≡ 4 + 0
        later lt = rw other refl
          where
            other : (block (q + 1) == block first) ≡ false
            other = ground (
              arith,
              blocks-ne c (q + 1) first (omega arith) (omega (arith, below lt)) (omega arith),
            )

        source :
            t < size
            → (i : ℕ) → i < amount
            → get_or (drop t bytes) i 0 ≡ save_stream block n bytes (q * size_r + s + i)
        source lt i h =
            get_or-drop bytes t i
            ∙ sym (save_stream-data block n bytes (t + i))
            ∙ ap (save_stream block n bytes) (omega (arith, at lt))

        one :
            t < size
            → ((m' : Memory) × (write_to_partition
                    (block_address p (block q))
                    (4 + s)
                    (drop t bytes)
                    amount
                    p.skip_bytes
                    m
                  ≡ (ok tt, m'))
                × Extends v block
                    (save_stream block n bytes)
                    n
                    (q * size_r + s)
                    (q * size_r + s + amount)
                    m
                    m')
            → ((m' : Memory)
                → Rest
                    (t + amount)
                    m'
                    (write_blocks fuel bytes_job (block (q + 1)) (t + amount) m'))
            → Rest t m (write_blocks (suc fuel) bytes_job (block q) t m)
        one lt (m', ran, piece) again =
            rw
              (
                goes_on lt,
                to_address v (block q) (c.inside q hq),
                off,
                room_left,
                size_left,
                ran,
                total,
                fitting,
                c.next q (below lt),
              )
              (on (again m'))
          where
            room_left : sub32 (adjusted_block_size p) (4 + s) ≡ size_r - s
            room_left = omega (arith, size_r-small)

            size_left : sub32 size t ≡ size - t
            size_left = omega arith

            total : u32 (t + amount) ≡ t + amount
            total = omega (arith, within lt)

            fitting : leb (t + amount) size ≡ true
            fitting = ground (arith, within lt)

            on : {out : Result (Unit {0}) × Memory} → Rest (t + amount) m' out → Rest t m out
            on (m'', ran', rest) = (
              m'',
              ran',
              Extends-trans c (omega arith) (omega (arith, within lt))
                  (Extends-at v block (omega (arith, at lt)) (omega (arith, at lt)) piece) rest,
            )

    pub write_data-Rest :
        (m : Memory)
        → first < n
        → 30 + 2 * n ≡ first * size_r + r
        → r < size_r
        → size ≢ 0
        → Rest 0 m (write_data bytes_job m)
    unfolding write_data
    write_data-Rest m inside at fits ne =
        rw (nonempty, partition, given)
          (write_blocks-Rest (suc size) first 0 r m (omega arith) (omega arith)
            (λ more. omega (arith, at)) fits starts (omega arith) (omega arith))
      where
        nonempty : (length bitmap == 0) ≡ false
        nonempty = ground (arith, c.not_empty)

        partition : (p.partition_buf == 0 || p.partition_size == 0 || p.block_size == 0) ≡ false
        partition =
            ground (arith, v.not_null, block-lt v 0 (omega (arith, v.two_blocks)), block_size_pos v)

        given : (size == 0) ≡ false
        given = ground arith

        starts : offset_in first ≡ 4 + r
        starts = ground arith
