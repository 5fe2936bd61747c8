-- ===== src/Sat/Partition/Bytes.antt =====
-- devices/sat/sat.c, "Skip Bytes", seen through the valid bytes alone: byte `k` of a buffer lies at
-- `byte_address`, and the three functions read and write runs of such bytes.
use libslinga.Prelude.{ℕ, zero, suc, ◌+◌, ◌*◌, ◌^◌, ◌≤◌, ◌<◌, ◌≡◌, ◌≢◌, ◌⊎◌, refl, arith, List}
use libslinga.Prelude.{[], ◌∷◌, ◌==◌, if◌then◌else◌, get_or, u32, ok, inl, inr}
use native.Mathlib.Nat.{add_assoc}
use libslinga.Memory.{Memory, store, memcpy_from, memcpy_to, memset}
use libslinga.Sat.Partition.{slot, read_slots, write_slots, memset_slots, read_from_partition}
use libslinga.Sat.Partition.{write_to_partition, memset_partition}

abbrev pub byte_address : ℕ → ℕ → ℕ → ℕ
byte_address base skip k = base + (if skip == 0 then k else 2 * k + 1)

-- `n` valid bytes from byte `k` on.
unfoldable pub view : Memory → ℕ → ℕ → ℕ → ℕ → List ℕ
view m base skip k zero = []
view m base skip k (suc n) = m (byte_address base skip k) ∷ view m base skip (k + 1) n

-- The memory with bytes `off + i`, .., `off + i + n - 1` set to `val i`, ..
unfoldable pub fill : ℕ → ℕ → ℕ → (ℕ → ℕ) → ℕ → ℕ → Memory → Memory
fill base skip off val i zero m = m
fill base skip off val i (suc n) m =
    fill base skip off val (i + 1) n (store m (byte_address base skip (off + i)) (val i))

memcpy_from-view :
    (m : Memory) (a base k n : ℕ) → a ≡ base + k → memcpy_from m a n ≡ view m base 0 k n
unfolding memcpy_from view
memcpy_from-view m a base k zero e = refl
memcpy_from-view m a base k (suc n) e =
    rw (e, memcpy_from-view m (base + k + 1) base (k + 1) n (omega arith))

slot-lem : (off i : ℕ) → off + i < 2 ^ 31 → slot 1 (u32 (off * 2)) i ≡ 2 * (off + i) + 1
slot-lem off i h = omega arith

read_slots-view :
    (m : Memory) (src off i k n : ℕ)
    → k ≡ off + i
    → k + n ≤ 2 ^ 31
    → read_slots m src 1 (u32 (off * 2)) i n ≡ view m src 1 k n
unfolding read_slots view
read_slots-view m src off i k zero e h = refl
read_slots-view m src off i k (suc n) e h =
    rw
      (
        slot-lem off i (omega arith),
        ← e,
        read_slots-view m src off (i + 1) (k + 1) n (omega arith) (omega arith),
      )
      refl

memcpy_to-fill :
    (dst off : ℕ) (src : List ℕ) (i n : ℕ) (m : Memory)
    → memcpy_to (dst + off) src i n m ≡ fill dst 0 off (λ k. get_or src k 0) i n m
unfolding memcpy_to fill
memcpy_to-fill dst off src i zero m = refl
memcpy_to-fill dst off src i (suc n) m =
    rw (add_assoc dst off i) (memcpy_to-fill dst off src (i + 1) n _)

memset-fill :
    (dst off val i a n : ℕ) (m : Memory)
    → a ≡ dst + (off + i)
    → memset a val n m ≡ fill dst 0 off (λ k. val) i n m
unfolding memset fill
memset-fill dst off val i a zero m e = refl
memset-fill dst off val i a (suc n) m e =
    rw e (memset-fill dst off val (i + 1) (dst + (off + i) + 1) n _ (omega arith))

write_slots-fill :
    (dst off : ℕ) (src : List ℕ) (i n : ℕ) (m : Memory)
    → off + i + n ≤ 2 ^ 31
    → write_slots dst 1 (u32 (off * 2)) src i n m ≡ fill dst 1 off (λ k. get_or src k 0) i n m
unfolding write_slots fill
write_slots-fill dst off src i zero m h = refl
write_slots-fill dst off src i (suc n) m h =
    rw (slot-lem off i (omega arith)) (write_slots-fill dst off src (i + 1) n _ (omega arith))

memset_slots-fill :
    (dst off val i n : ℕ) (m : Memory)
    → off + i + n ≤ 2 ^ 31
    → memset_slots dst 1 (u32 (off * 2)) val i n m ≡ fill dst 1 off (λ k. val) i n m
unfolding memset_slots fill
memset_slots-fill dst off val i zero m h = refl
memset_slots-fill dst off val i (suc n) m h =
    rw (slot-lem off i (omega arith)) (memset_slots-fill dst off val (i + 1) n _ (omega arith))

-- `skip_bytes` is 0 or 1.
abbrev pub GoodSkip : ℕ → Type 0
GoodSkip skip = (skip ≡ 0) ⊎ (skip ≡ 1)

-- What the arguments of a call must be for it to go through.
pub record Transfer (base off size skip : ℕ) : Type 0 where
  pub not_null : base ≢ 0
  pub not_empty : size ≢ 0
  pub good_skip : GoodSkip skip
  pub in_range : off + size ≤ 2 ^ 31

-- A read gives the valid bytes from its offset on.
pub read_from_partition_lem :
    (m : Memory) (src off size skip : ℕ)
    → Transfer src off size skip
    → read_from_partition m src off size skip ≡ ok (view m src skip off size)
unfolding read_from_partition
read_from_partition_lem m src off size skip t = elim t.good_skip [
  | inl e ↦
      rw e
        (ground (arith, t.not_null, t.not_empty, memcpy_from-view m (src + off) src off size refl))
  | inr e ↦ rw e (
      ground (
        arith,
        t.not_null,
        t.not_empty,
        read_slots-view m src off 0 off size (omega arith) t.in_range,
      ))
]

-- A write sets the valid bytes from its offset on.
pub write_to_partition_lem :
    (dst off : ℕ) (src : List ℕ) (size skip : ℕ) (m : Memory)
    → Transfer dst off size skip
    → write_to_partition dst off src size skip m
      ≡ (ok tt, fill dst skip off (λ k. get_or src k 0) 0 size m)
unfolding write_to_partition
write_to_partition_lem dst off src size skip m t = elim t.good_skip [
  | inl e ↦ rw e (ground (arith, t.not_null, t.not_empty, memcpy_to-fill dst off src 0 size m))
  | inr e ↦ rw e (
      ground (
        arith,
        t.not_null,
        t.not_empty,
        write_slots-fill dst off src 0 size m (omega (arith, t.in_range)),
      ))
]

pub memset_partition_lem :
    (dst off val size skip : ℕ) (m : Memory)
    → Transfer dst off size skip
    → memset_partition dst off val size skip m ≡ (ok tt, fill dst skip off (λ k. val) 0 size m)
unfolding memset_partition
memset_partition_lem dst off val size skip m t = elim t.good_skip [
  | inl e ↦ rw e (
      ground (
        arith,
        t.not_null,
        t.not_empty,
        memset-fill dst off val 0 (dst + off) size m (omega arith),
      ))
  | inr e ↦ rw e (
      ground (
        arith,
        t.not_null,
        t.not_empty,
        memset_slots-fill dst off val 0 size m (omega (arith, t.in_range)),
      ))
]
