-- ===== src/Sat/Session.antt =====
-- devices/sat/sat.c: any sequence of `sat_format`, `sat_write` and `sat_delete` on a partition.
use libslinga.Prelude.{◌^◌, ◌/◌, Result, ℕ, zero, suc, ◌+◌, ◌*◌, ◌≤◌, ◌<◌, ◌≡◌, ◌≢◌, refl, arith}
use libslinga.Prelude.{List, some, ok, u32, ◌∙◌, inl, inr}
use libslinga.Memory.{Memory}
use libslinga.Sat.Partition.{PartitionInfo}
use libslinga.Sat.Partition.Bytes.{byte_address, read_from_partition_lem}
use libslinga.Sat.Partition.Laws.{view_cong}
use libslinga.Sat.Blocks.Count.{valid_size}
use libslinga.Sat.Blocks.Layout.{IsPartition, block_address, block-lt, byte_in_block}
use libslinga.Sat.Blocks.Layout.{blocks_apart}
use libslinga.Sat.Header.{SaveMetadata}
use libslinga.Sat.Format.{num_lines, check_lines, sat_format, sat_check_formatted}
use libslinga.Sat.Format.Laws.{at, valid, valid-le, num_lines-valid, line-Transfer, Formats}
use libslinga.Sat.Format.Laws.{sat_format-Formats, sat_check_formatted-sat_format}
use libslinga.Sat.Write.{sat_write}
use libslinga.Sat.Write.Safe.{Leaves, sat_write-Leaves}
use libslinga.Sat.Delete.{sat_delete}
use libslinga.Sat.Delete.Laws.{DeleteOutcome, sat_delete_lem}

-- A call that may change the partition, with the memory before and after it, whether it succeeds
-- or fails.
pub data Step (p : PartitionInfo) : Memory → Memory → Type 0 where
  formats : (m : Memory) → Step p m (sat_format p m).1
  writes :
      (m : Memory) (flags : ℕ) (filename : List ℕ) (metadata : SaveMetadata) (buffer : List ℕ)
      (size : ℕ)
      → Step p m (sat_write flags (some filename) (some metadata) (some buffer) size p m).1
  deletes : (m : Memory) (filename : List ℕ) → Step p m (sat_delete (some filename) p m).1

-- Any number of such calls.
pub data Session (p : PartitionInfo) (m : Memory) : Memory → Type 0 where
  starts : Session p m m
  goes_on : {m' m'' : Memory} → Session p m m' → Step p m' m'' → Session p m m''

module _ {p : PartitionInfo} (v : IsPartition p) where
  -- The addresses of the partition.
  abbrev pub Within : ℕ → Type 0
  Within a = (p.partition_buf ≤ a) × (a < p.partition_buf + p.partition_size)

  block-Within :
      (b k : ℕ)
      → b < v.count
      → k < valid_size p.block_size p.skip_bytes
      → Within (byte_address (block_address p b) p.skip_bytes k)
  block-Within b k h q = omega (arith, byte_in_block v b k q, block-lt v b h)

  -- The bytes that `sat_format` writes.
  half-Within : (k : ℕ) → k < p.partition_size / 2 → Within (at v k)
  half-Within k h = ground (arith, v.good_skip)

  -- The first block's bytes are in no other block.
  first_block_apart :
      (b j k : ℕ)
      → 2 ≤ b
      → j < valid v
      → k < valid v
      → at v j ≢ byte_address (block_address p b) p.skip_bytes k
  first_block_apart b j k lo hj hk = ground (arith, blocks_apart v 0 b j k (omega arith) hj hk)

  -- Calls that leave the first block's bytes alone.
  abbrev SameFirst : Memory → Memory → Type 0
  SameFirst m m' = (k : ℕ) → k < valid v → m' (at v k) ≡ m (at v k)

  check_lines_cong :
      (m m' : Memory) (left i : ℕ)
      → SameFirst m m'
      → i + left ≡ num_lines p
      → check_lines m' p i left ≡ check_lines m p i left
  unfolding check_lines
  check_lines_cong m m' zero i same e = refl
  check_lines_cong m m' (suc left) i same e =
      rw
        (
          no_wrap,
          read_from_partition_lem m p.partition_buf (i * 16) 16 p.skip_bytes
              (line-Transfer v i small),
          read_from_partition_lem m' p.partition_buf (i * 16) 16 p.skip_bytes
              (line-Transfer v i small),
          view_cong m' m p.partition_buf p.skip_bytes (i * 16) 16
              (λ j lo hi. same j (omega (arith, num_lines-valid v))),
          check_lines_cong m m' left (i + 1) same (omega arith),
        )
        refl
    where
      small : i * 16 < 2 ^ 30
      small = omega (arith, num_lines-valid v, valid-le v, v.small, v.wide)

      no_wrap : u32 (i * 16) ≡ i * 16
      no_wrap = omega (arith, small)

  check_cong : (m m' : Memory) → SameFirst m m' → sat_check_formatted m' p ≡ sat_check_formatted m p
  unfolding sat_check_formatted
  check_cong m m' same = rw (check_lines_cong m m' (num_lines p) 0 same (omega arith)) refl

  -- What every call keeps.
  record Safe (m m' : Memory) : Type 0 where
    formatted : sat_check_formatted m p ≡ ok tt → sat_check_formatted m' p ≡ ok tt
    elsewhere : (a : ℕ) → ¬ Within a → m' a ≡ m a

  Leaves-Safe : {Kept : ℕ → Type 0} {m m' : Memory} → Leaves v Kept m m' → Safe m m'
  Leaves-Safe {m} {m'} l = record {
    formatted = λ e.
        check_cong m m' (λ k h. l.outside (at v k) (λ b j lo hi q. first_block_apart b k j lo h q))
        ∙ e;
    elsewhere = λ a out. l.outside a (λ b k lo hi q e. out (rw e (block-Within b k hi q)));
  }

  delete-Safe :
      (m : Memory) (filename : List ℕ) (out : Result (Unit {0}) × Memory)
      → DeleteOutcome v m filename out
      → Safe m out.1
  delete-Safe m filename out (inl (b, lo, hi, hit, h, ran, d)) = record {
    formatted = λ e.
        check_cong m out.1 (λ k h.
          d.others (at v k) (λ j lo' hi'. first_block_apart b k j lo h (omega (arith, v.wide))))
        ∙ e;
    elsewhere = λ a away.
        d.others a (λ j lo' hi' e. away (rw e (block-Within b j hi (omega (arith, v.wide)))));
  }
  delete-Safe m filename out (inr (none_there, same)) =
      rw same (record { formatted = λ e. e; elsewhere = λ a away. refl })

  format-Safe : (m : Memory) → Safe m (sat_format p m).1
  format-Safe m = record {
    formatted = λ e. (sat_check_formatted-sat_format v m).1;
    elsewhere = λ a away. away_from (sat_format-Formats v m) a away;
  }
    where
      away_from :
          ((m' : Memory) × (sat_format p m ≡ (ok tt, m')) × Formats v m m')
          → (a : ℕ) → ¬ Within a
          → (sat_format p m).1 a ≡ m a
      away_from (m', ran, f) a away =
          rw ran (f.others a (λ k lo hi e. away (rw e (half-Within k hi))))

  Step-Safe : {m m' : Memory} → Step p m m' → Safe m m'
  Step-Safe (formats m) = format-Safe m
  Step-Safe (writes m flags filename metadata buffer size) =
      Leaves-Safe (sat_write-Leaves v flags filename metadata buffer size m)
  Step-Safe (deletes m filename) = delete-Safe m filename _ (sat_delete_lem v m filename)

  Session-Safe : {m m' : Memory} → Session p m m' → Safe m m'
  Session-Safe starts = record { formatted = λ e. e; elsewhere = λ a away. refl }
  Session-Safe (goes_on s t) =
      let before = Session-Safe s in
      let last = Step-Safe t in
      record {
        formatted = λ e. last.formatted (before.formatted e);
        elsewhere = λ a away. last.elsewhere a away ∙ before.elsewhere a away;
      }

  -- On a well-formed partition, after `sat_format` and any number of calls of `sat_format`,
  -- `sat_write` and `sat_delete`, whatever their arguments and outcomes, `sat_check_formatted`
  -- accepts the partition, and no address outside of it has changed.
  pub sat_check_formatted-Session :
      (m m' : Memory)
      → Session p (sat_format p m).1 m'
      → (sat_check_formatted m' p ≡ ok tt) × ((a : ℕ) → ¬ Within a → m' a ≡ m a)
  sat_check_formatted-Session m m' s = (
    (Session-Safe s).formatted (sat_check_formatted-sat_format v m).1,
    λ a away. (Session-Safe s).elsewhere a away ∙ (format-Safe m).elsewhere a away,
  )
