-- ===== src/Sat/Format/Laws.antt =====
-- devices/sat/sat.c: `sat_format`, and `sat_check_formatted` after it.
use libslinga.Prelude.{ℕ, zero, suc, ◌+◌, ◌*◌, ◌/◌, ◌%◌, ◌^◌, ◌≤◌, ◌<◌, ◌≡◌, refl, arith, true}
use libslinga.Prelude.{false, ◌!=◌, ltb, u32, List, ok, ap, get_or, [], ◌∷◌, ◌∙◌}
use native.Mathlib.Decide.{dec_lt}
use libslinga.Memory.{Memory}
use libslinga.Sat.Partition.{PartitionInfo}
use libslinga.Sat.Partition.Bytes.{byte_address, view, fill, Transfer, read_from_partition_lem}
use libslinga.Sat.Partition.Bytes.{write_to_partition_lem, memset_partition_lem}
use libslinga.Sat.Partition.Laws.{Misses, fill_miss, fill_hit, fill_hit0, view_eq}
use libslinga.Sat.Partition.Laws.{byte_address_injective}
use libslinga.Sat.Blocks.Count.{valid_size}
use libslinga.Sat.Blocks.Layout.{IsPartition, block-lt, skip_fits}
use libslinga.Sat.Format.{backup_ram_format_str, memcmp_eq, num_lines, check_lines, write_lines}
use libslinga.Sat.Format.{sat_format, sat_check_formatted}

-- What the first block of a formatted partition holds at byte `k`.
abbrev pub format_byte : ℕ → ℕ
format_byte k = get_or backup_ram_format_str (k % 16) 0

memcmp_eq_refl : (xs : List ℕ) → memcmp_eq xs xs ≡ true
unfolding memcmp_eq
memcmp_eq_refl [] = refl
memcmp_eq_refl (x ∷ xs) = ground (arith, memcmp_eq_refl xs)

module _ {p : PartitionInfo} (v : IsPartition p) where
  abbrev pub at : ℕ → ℕ
  at k = byte_address p.partition_buf p.skip_bytes k

  pub line-Transfer : (i : ℕ) → i * 16 < 2 ^ 30 → Transfer p.partition_buf (i * 16) 16 p.skip_bytes
  line-Transfer i h = record {
    not_null = v.not_null;
    not_empty = omega arith;
    good_skip = v.good_skip;
    in_range = omega arith;
  }

  -- Lines `i`, .., `j - 1` hold the string, and nothing else has changed.
  record Lines (i j : ℕ) (m m' : Memory) : Type 0 where
    inside : (k : ℕ) → i * 16 ≤ k → k < j * 16 → m' (at k) ≡ format_byte k
    outside : (a : ℕ) → Misses p.partition_buf p.skip_bytes (i * 16) (j * 16) a → m' a ≡ m a

  line_step : (i : ℕ) → Memory → Memory
  line_step i m =
      fill p.partition_buf p.skip_bytes (i * 16) (λ k. get_or backup_ram_format_str k 0) 0 16 m

  line_step-at :
      (i k : ℕ) (m : Memory) → i * 16 ≤ k → k < i * 16 + 16 → line_step i m (at k) ≡ format_byte k
  unfolding line_step
  line_step-at i k m lo hi =
      ap (λ j. line_step i m (at j)) place
      ∙ fill_hit p.partition_buf p.skip_bytes (i * 16) (λ j. get_or backup_ram_format_str j 0) 0 16
          m (k % 16) (omega arith) (omega arith)
    where
      place : k ≡ i * 16 + k % 16
      place = omega arith

  write_lines-Lines :
      (left i j : ℕ) (m : Memory)
      → i + left ≡ j
      → j * 16 ≤ 2 ^ 30
      → (m' : Memory) × (write_lines p i left m ≡ (ok tt, m')) × Lines i j m m'
  unfolding write_lines line_step
  write_lines-Lines zero i j m e h =
      (m, refl, record { inside = λ k lo hi. absurd (omega arith); outside = λ a o. refl })
  write_lines-Lines (suc left) i j m e h =
      first (write_lines-Lines left (i + 1) j (line_step i m) (omega arith) h)
    where
      no_wrap : u32 (i * 16) ≡ i * 16
      no_wrap = omega arith

      first :
          ((m' : Memory) × (write_lines p (i + 1) left (line_step i m) ≡ (ok tt, m'))
            × Lines (i + 1) j (line_step i m) m')
          → (m' : Memory) × (write_lines p i (suc left) m ≡ (ok tt, m')) × Lines i j m m'
      first (m', runs, l) = (
        m',
        rw
            (
              no_wrap,
              write_to_partition_lem p.partition_buf (i * 16) backup_ram_format_str 16 p.skip_bytes
                  m (line-Transfer i (omega arith)),
            )
            runs,
        record {
          inside = λ k lo hi. elim (dec_lt k (i * 16 + 16)) [
            | yes near ↦
                l.outside (at k) (λ k' lo' hi' e'.
                  absurd
                    (omega (arith, byte_address_injective p.partition_buf p.skip_bytes k k' e')))
                ∙ line_step-at i k m lo near
            | no far ↦ l.inside k (omega arith) hi
          ];
          outside = λ a o.
              l.outside a (λ k lo hi. o k (omega arith) hi)
              ∙ fill_miss p.partition_buf p.skip_bytes (i * 16)
                  (λ j. get_or backup_ram_format_str j 0) 0 16 m a
                  (λ k lo hi. o k (omega arith) (omega arith));
        },
      )

  -- The valid bytes of the first block.
  abbrev pub valid : ℕ
  valid = valid_size p.block_size p.skip_bytes

  pub num_lines-valid : num_lines p * 16 ≡ valid
  num_lines-valid = ground (arith, v.aligned, v.valid_aligned)

  pub valid-le : 2 * valid ≤ p.partition_size
  valid-le = ground (arith, block-lt v 1 v.two_blocks)

  -- A formatted memory, as it was made from `m`: the string over and over in the first block, zeros
  -- in the other valid bytes of the first `partition_size / 2`, and no other change.
  pub record Formats (m m' : Memory) : Type 0 where
    pub string : (k : ℕ) → k < valid → m' (at k) ≡ format_byte k
    pub zeros : (k : ℕ) → valid ≤ k → k < p.partition_size / 2 → m' (at k) ≡ 0
    pub others :
        (a : ℕ) → Misses p.partition_buf p.skip_bytes 0 (p.partition_size / 2) a → m' a ≡ m a

  -- On a well-formed partition `sat_format` succeeds; then the valid bytes of the first block
  -- hold the string "BackUpRam Format" over and over, the others among the first `partition_size
  -- / 2` valid bytes are 0, and no other address has changed.
  pub sat_format-Formats :
      (m : Memory) → (m' : Memory) × (sat_format p m ≡ (ok tt, m')) × Formats m m'
  unfolding sat_format
  sat_format-Formats m = whole (
      write_lines-Lines (num_lines p) 0 (num_lines p) cleared (omega arith)
        (omega (arith, num_lines-valid, valid-le, v.small)))
    where
      cleared : Memory
      cleared = fill p.partition_buf p.skip_bytes 0 (λ k. 0) 0 (p.partition_size / 2) m

      erase : Transfer p.partition_buf 0 (p.partition_size / 2) p.skip_bytes
      erase = record {
        not_null = v.not_null;
        not_empty = omega (arith, valid-le, v.wide);
        good_skip = v.good_skip;
        in_range = omega (arith, v.small);
      }

      aligned' : (p.block_size % 64 != 0) ≡ false
      aligned' = ground (arith, v.aligned)

      whole :
          ((m' : Memory) × (write_lines p 0 (num_lines p) cleared ≡ (ok tt, m'))
            × Lines 0 (num_lines p) cleared m')
          → (m' : Memory) × (sat_format p m ≡ (ok tt, m')) × Formats m m'
      whole (m', runs, l) = (
        m',
        rw
            (
              aligned',
              skip_fits v,
              memset_partition_lem p.partition_buf 0 0 (p.partition_size / 2) p.skip_bytes m erase,
            )
            runs,
        record {
          string = λ k h. l.inside k (omega arith) (omega (arith, num_lines-valid));
          zeros = λ k lo hi.
              l.outside (at k) (λ k' lo' hi' e'. absurd (
                omega (
                  arith,
                  num_lines-valid,
                  byte_address_injective p.partition_buf p.skip_bytes k k' e',
                )))
              ∙ fill_hit0 p.partition_buf p.skip_bytes (λ j. 0) (p.partition_size / 2) m k hi;
          others = λ a o.
              l.outside a (λ k lo hi. o k (omega arith) (omega (arith, num_lines-valid, valid-le)))
              ∙ fill_miss p.partition_buf p.skip_bytes 0 (λ j. 0) 0 (p.partition_size / 2) m a
                  (λ k lo hi. o k (omega arith) (omega arith));
        },
      )

  line_view :
      (m : Memory) (i : ℕ)
      → ((k : ℕ) → k < valid → m (at k) ≡ format_byte k)
      → i < num_lines p
      → view m p.partition_buf p.skip_bytes (i * 16) 16 ≡ backup_ram_format_str
  line_view m i h lt = view_eq backup_ram_format_str m p.partition_buf p.skip_bytes (i * 16) (λ j q.
      h (i * 16 + j) (omega (arith, num_lines-valid))
      ∙ ap (λ k. get_or backup_ram_format_str k 0) (omega arith))

  check_lines-ok :
      (m : Memory) (left i : ℕ)
      → ((k : ℕ) → k < valid → m (at k) ≡ format_byte k)
      → i + left ≡ num_lines p
      → check_lines m p i left ≡ ok tt
  unfolding check_lines
  check_lines-ok m zero i h e = refl
  check_lines-ok m (suc left) i h e =
      rw
        (
          no_wrap,
          read_from_partition_lem m p.partition_buf (i * 16) 16 p.skip_bytes
              (line-Transfer i small),
          line_view m i h (omega arith),
          memcmp_eq_refl backup_ram_format_str,
        )
        (check_lines-ok m left (i + 1) h (omega arith))
    where
      small : i * 16 < 2 ^ 30
      small = omega (arith, num_lines-valid, valid-le, v.small, v.wide)

      no_wrap : u32 (i * 16) ≡ i * 16
      no_wrap = omega (arith, small)

  -- On a well-formed partition `sat_format` succeeds, and `sat_check_formatted` accepts what it
  -- has made of any memory.
  pub sat_check_formatted-sat_format :
      (m : Memory)
      → let (r, m') = sat_format p m in (r ≡ ok tt) × (sat_check_formatted m' p ≡ ok tt)
  unfolding sat_check_formatted
  sat_check_formatted-sat_format m = checked (sat_format-Formats m)
    where
      aligned' : (p.block_size % 64 != 0) ≡ false
      aligned' = ground (arith, v.aligned)

      fits : ltb p.partition_size p.block_size ≡ false
      fits = ground (arith, block-lt v 0 (omega (arith, v.two_blocks)))

      checked :
          ((m' : Memory) × (sat_format p m ≡ (ok tt, m')) × Formats m m')
          → let (r, m') = sat_format p m in (r ≡ ok tt) × (sat_check_formatted m' p ≡ ok tt)
      checked (m', runs, f) = rw runs (
        refl,
        rw (aligned', skip_fits v, fits) (check_lines-ok m' (num_lines p) 0 f.string (omega arith)),
      )
