-- ===== src/Sat/Stream/Pieces.antt =====
-- devices/sat/sat.c: single writes into a save's stream, and writes one after the other.
use libslinga.Prelude.{ℕ, ◌+◌, ◌-◌, ◌*◌, ◌≤◌, ◌<◌, ◌≡◌, ◌≢◌, arith, List, ok, ◌∙◌, sym, ap}
use libslinga.Prelude.{get_or, ◌⊎◌, inl, inr}
use native.Mathlib.Decide.{dec_lt, ℕ_discrete}
use libslinga.Memory.{Memory}
use libslinga.Sat.Partition.{PartitionInfo, write_to_partition, memset_partition}
use libslinga.Sat.Partition.Bytes.{byte_address, fill, Transfer, write_to_partition_lem}
use libslinga.Sat.Partition.Bytes.{memset_partition_lem}
use libslinga.Sat.Partition.Laws.{byte_address_injective, fill_miss, fill_hit, fill_hit0}
use libslinga.Sat.Blocks.Layout.{IsPartition, block_address, blocks_apart, block-lt}
use libslinga.Sat.Bitmap.{Bitmap}
use libslinga.Sat.Stream.{Chain, blocks-ne, room, tag_byte, stream_byte, block_of_position}
use libslinga.Sat.Stream.{TagOutcome, Extends}

pub Extends-at :
    {p : PartitionInfo} (v : IsPartition p) (block : ℕ → ℕ) {stream : ℕ → ℕ} {n lo lo' hi hi' : ℕ}
    {m m' : Memory}
    → lo ≡ lo'
    → hi ≡ hi'
    → Extends v block stream n lo hi m m'
    → Extends v block stream n lo' hi' m m'
Extends-at v block e e' h = rw (← e, ← e') h

module _ {p : PartitionInfo} {v : IsPartition p} {bitmap : Bitmap} {block : ℕ → ℕ} {n : ℕ}
    (c : Chain v bitmap block n) where
  pub bytes_apart :
      (q q' j k : ℕ)
      → q ≤ n
      → q' ≤ n
      → j < room v block + 4
      → k < room v block + 4
      → (q ≢ q') ⊎ (j ≢ k)
      → byte_address (block_address p (block q)) p.skip_bytes j
        ≢ byte_address (block_address p (block q')) p.skip_bytes k
  bytes_apart q q' j k hq hq' hj hk ne e = elim (ℕ_discrete q q') [
    | yes same ↦ same_block same ne
    | no other ↦
        blocks_apart v (block q) (block q') j k (blocks-ne c q q' other hq hq')
          (omega (arith, v.wide)) (omega (arith, v.wide)) e
  ]
    where
      same_block : q ≡ q' → (q ≢ q') ⊎ (j ≢ k) → ⊥
      same_block same (inl ne) = ne same
      same_block same (inr ne) = ne (
          byte_address_injective (block_address p (block q)) p.skip_bytes j k
            (e ∙ ap (λ x. byte_address (block_address p (block x)) p.skip_bytes k) (sym same)))

  -- Different positions have different addresses, and none is a tag's.
  pub stream_bytes-ne :
      (q r q' r' : ℕ)
      → q ≤ n
      → q' ≤ n
      → r < room v block
      → r' < room v block
      → q * room v block + r ≢ q' * room v block + r'
      → stream_byte v block q r ≢ stream_byte v block q' r'
  stream_bytes-ne q r q' r' hq hq' hr hr' ne =
      bytes_apart q q' (4 + r) (4 + r') hq hq' (omega arith) (omega arith)
        (differ (ℕ_discrete q q'))
    where
      differ : Dec (q ≡ q') → (q ≢ q') ⊎ (4 + r ≢ 4 + r')
      differ (no other) = inl other
      differ (yes same) = inr (λ e. ne (omega (arith, ap (λ x. x * room v block) same)))

  pub stream_byte-tag_byte :
      (q r j i : ℕ)
      → q ≤ n
      → j ≤ n
      → r < room v block
      → i < 4
      → stream_byte v block q r ≢ tag_byte v block j i
  stream_byte-tag_byte q r j i hq hj hr hi =
      bytes_apart q j (4 + r) i hq hj (omega arith) (omega arith) (inr (omega arith))

  pub Extends-trans :
      {stream : ℕ → ℕ} {lo mid hi : ℕ} {m m' m'' : Memory}
      → lo ≤ mid
      → mid ≤ hi
      → Extends v block stream n lo mid m m'
      → Extends v block stream n mid hi m' m''
      → Extends v block stream n lo hi m m''
  Extends-trans {stream} {lo} {mid} {hi} {m} {m'} {m''} h1 h2 f g = record {
    written = λ q r hq hr a b. elim (dec_lt (q * room v block + r) mid) [
      | yes before ↦
          g.others (stream_byte v block q r)
            (λ q' r' hq' hr' a' b'. stream_bytes-ne q r q' r' hq hq' hr hr' (omega arith))
            (λ j i hj hj' hi. stream_byte-tag_byte q r j i hq hj' hr hi)
          ∙ f.written q r hq hr a before
      | no after ↦ g.written q r hq hr (omega arith) b
    ];
    tags = λ j i hj hi e. g.tags j i hj hi (f.tags j i hj hi e);
    tag_outcome = λ j hj. both j hj (g.tag_outcome j hj) (f.tag_outcome j hj);
    others = λ a away t.
        g.others a (λ q r hq hr a' b'. away q r hq hr (omega arith) b') t
        ∙ f.others a (λ q r hq hr a' b'. away q r hq hr a' (omega arith)) t;
  }
    where
      both :
          (j : ℕ)
          → j ≤ n
          → TagOutcome v block j m' m''
          → TagOutcome v block j m m'
          → TagOutcome v block j m m''
      both j hj (inl same) (inl same') = inl (λ i hi. same i hi ∙ same' i hi)
      both j hj (inl same) (inr zero_at) = inr (λ i hi. same i hi ∙ zero_at i hi)
      both j hj (inr zero_at) before = inr zero_at

  pub in_block :
      (q off size : ℕ)
      → q ≤ n
      → size ≢ 0
      → off + size ≤ room v block + 4
      → Transfer (block_address p (block q)) off size p.skip_bytes
  in_block q off size hq ne fits = record {
    not_null = omega (arith, v.not_null);
    not_empty = ne;
    good_skip = v.good_skip;
    in_range = ground (arith, block-lt v 0 (omega (arith, v.two_blocks)), v.small, v.wide);
  }

  -- A write into one block.
  pub write-Extends :
      (stream : ℕ → ℕ) (q r size : ℕ) (src : List ℕ) (m : Memory)
      → q ≤ n
      → size ≢ 0
      → r + size ≤ room v block
      → ((i : ℕ) → i < size → get_or src i 0 ≡ stream (q * room v block + r + i))
      → (m' : Memory) × (write_to_partition
            (block_address p (block q))
            (4 + r)
            src
            size
            p.skip_bytes
            m
          ≡ (ok tt, m'))
        × Extends v block stream n (q * room v block + r) (q * room v block + r + size) m m'
  write-Extends stream q r size src m hq ne fits src_is = (
    filled,
    write_to_partition_lem (block_address p (block q)) (4 + r) src size p.skip_bytes m
        (in_block q (4 + r) size hq ne (omega arith)),
    record {
      written = λ q' r' hq' hr' a b. hit q' r' hr' a b;
      tags = λ j i hj hi e.
          missed (tag_byte v block j i)
            (λ k h e'. stream_byte-tag_byte q (r + k) j i hq hj (omega arith) hi (sym e'))
          ∙ e;
      tag_outcome = λ j hj. inl (λ i hi.
          missed (tag_byte v block j i)
            (λ k h e'. stream_byte-tag_byte q (r + k) j i hq hj (omega arith) hi (sym e')));
      others =
          λ a away t. missed a (λ k h. away q (r + k) hq (omega arith) (omega arith) (omega arith));
    },
  )
    where
      filled : Memory
      filled = fill (block_address p (block q)) p.skip_bytes (4 + r) (λ k. get_or src k 0) 0 size m

      missed : (a : ℕ) → ((k : ℕ) → k < size → a ≢ stream_byte v block q (r + k)) → filled a ≡ m a
      missed a out =
          fill_miss (block_address p (block q)) p.skip_bytes (4 + r) (λ k. get_or src k 0) 0 size m
            a
            (λ k lo hi e.
              out (k - (4 + r)) (omega arith)
                (e ∙ ap (byte_address (block_address p (block q)) p.skip_bytes) (omega arith)))

      hit_at :
          (r' i : ℕ)
          → i < size
          → r' ≡ r + i
          → filled (stream_byte v block q r') ≡ stream (q * room v block + r')
      hit_at r' i h e =
          ap (λ k. filled (byte_address (block_address p (block q)) p.skip_bytes k)) (omega arith)
          ∙ fill_hit (block_address p (block q)) p.skip_bytes (4 + r) (λ k. get_or src k 0) 0 size m
              i (omega arith) (omega arith)
          ∙ src_is i h
          ∙ ap stream (omega arith)

      hit :
          (q' r' : ℕ)
          → r' < room v block
          → q * room v block + r ≤ q' * room v block + r'
          → q' * room v block + r' < q * room v block + r + size
          → filled (stream_byte v block q' r') ≡ stream (q' * room v block + r')
      hit q' r' hr' a b =
          let k : ℕ = q' * room v block + r' - q * room v block in
          let same : q ≡ q' = block_of_position v block q k q' r' (omega arith) (omega arith) hr' in
          let here : q * room v block ≡ q' * room v block = ap (λ x. x * room v block) same in
          ap (λ x. filled (stream_byte v block x r')) (sym same)
          ∙ hit_at r' (r' - r) (omega arith) (omega arith)
          ∙ ap (λ x. stream (x * room v block + r')) same

  -- Clearing the tag of a block behind the first is no write into the stream.
  pub clear_tag-Extends :
      (stream : ℕ → ℕ) (j lo : ℕ) (m : Memory)
      → 1 ≤ j
      → j ≤ n
      → (m' : Memory) × (memset_partition (block_address p (block j)) 0 0 4 p.skip_bytes m
          ≡ (ok tt, m'))
        × Extends v block stream n lo lo m m'
        × ((i : ℕ) → i < 4 → m' (tag_byte v block j i) ≡ 0)
  clear_tag-Extends stream j lo m pos hj = (
    cleared,
    memset_partition_lem (block_address p (block j)) 0 0 4 p.skip_bytes m
        (in_block j 0 4 hj (omega arith) (omega arith)),
    record {
      written = λ q r hq hr a b. absurd (omega arith);
      tags = λ k i hk hi e. elim (ℕ_discrete k j) [
        | yes same ↦ ap (λ x. cleared (tag_byte v block x i)) same ∙ zero_at i hi
        | no other ↦
            missed (tag_byte v block k i)
              (λ i' h. bytes_apart k j i i' hk hj (omega arith) (omega arith) (inl other))
            ∙ e
      ];
      tag_outcome = λ k hk. elim (ℕ_discrete k j) [
        | yes same ↦ inr (λ i hi. ap (λ x. cleared (tag_byte v block x i)) same ∙ zero_at i hi)
        | no other ↦ inl (λ i hi.
            missed (tag_byte v block k i)
              (λ i' h. bytes_apart k j i i' hk hj (omega arith) (omega arith) (inl other)))
      ];
      others = λ a away t. missed a (λ i h. t j i pos hj h);
    },
    zero_at,
  )
    where
      cleared : Memory
      cleared = fill (block_address p (block j)) p.skip_bytes 0 (λ k. 0) 0 4 m

      zero_at : (i : ℕ) → i < 4 → cleared (tag_byte v block j i) ≡ 0
      zero_at i h = fill_hit0 (block_address p (block j)) p.skip_bytes (λ k. 0) 4 m i h

      missed : (a : ℕ) → ((i : ℕ) → i < 4 → a ≢ tag_byte v block j i) → cleared a ≡ m a
      missed a out =
          fill_miss (block_address p (block j)) p.skip_bytes 0 (λ k. 0) 0 4 m a
            (λ k lo' hi e. out k (omega arith) e)
