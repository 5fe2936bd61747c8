-- ===== src/Sat/Partition/Laws.antt =====
-- devices/sat/sat.c, "Skip Bytes": reading after writing, and the addresses that a write touches.
use libslinga.Prelude.{ℕ, zero, suc, ◌+◌, ◌≤◌, ◌<◌, ◌≡◌, ◌≢◌, refl, arith, List, [], ◌∷◌, ◌==◌}
use libslinga.Prelude.{get_or, length, ok, ap, inl, inr, Bool-cases, sym, ◌∙◌}
use mathlib.Core.Path.{ap₂}
use native.Mathlib.Nat.{add-zero, zero-add}
use libslinga.Memory.{Memory, store}
use libslinga.Sat.Partition.{read_from_partition, write_to_partition}
use libslinga.Sat.Partition.Bytes.{byte_address, view, fill, Transfer, read_from_partition_lem}
use libslinga.Sat.Partition.Bytes.{write_to_partition_lem}

pub store_self : (m : Memory) (a v : ℕ) → store m a v a ≡ v
unfolding store
store_self m a v = ground arith

pub store_ne : (m : Memory) (a v x : ℕ) → x ≢ a → store m a v x ≡ m x
unfolding store
store_ne m a v x h = ground arith

pub byte_address_injective :
    (base skip j k : ℕ) → byte_address base skip j ≡ byte_address base skip k → j ≡ k
byte_address_injective base skip j k h = ground arith

-- No byte of the run `from`, .., `to - 1` lies at `a`.
abbrev pub Misses : ℕ → ℕ → ℕ → ℕ → ℕ → Type 0
Misses base skip from to a = (k : ℕ) → from ≤ k → k < to → a ≢ byte_address base skip k

module _ (base skip off : ℕ) (val : ℕ → ℕ) where
  pub fill_miss :
      (i n : ℕ) (m : Memory) (a : ℕ)
      → Misses base skip (off + i) (off + i + n) a
      → fill base skip off val i n m a ≡ m a
  unfolding fill
  fill_miss i zero m a h = refl
  fill_miss i (suc n) m a h =
      fill_miss (i + 1) n (store m (byte_address base skip (off + i)) (val i)) a
        (λ k p q. h k (omega arith) (omega arith))
      ∙ store_ne m (byte_address base skip (off + i)) (val i) a
          (h (off + i) (omega arith) (omega arith))

  pub fill_hit :
      (i n : ℕ) (m : Memory) (k : ℕ)
      → i ≤ k
      → k < i + n
      → fill base skip off val i n m (byte_address base skip (off + k)) ≡ val k
  unfolding fill
  fill_hit i zero m k p q = absurd (omega arith)
  fill_hit i (suc n) m k p q = elim (Bool-cases (i == k)) [
    | inl e ↦
        let same : i ≡ k = ground arith in
        fill_miss (i + 1) n (store m (byte_address base skip (off + i)) (val i))
          (byte_address base skip (off + k))
          (λ j a b h. absurd (omega (arith, byte_address_injective base skip (off + k) j h)))
        ∙ rw same (store_self m (byte_address base skip (off + k)) (val k))
    | inr ne ↦ fill_hit (i + 1) n _ k (ground arith) (omega arith)
  ]

-- A run of bytes is the list that it agrees with.
pub view_eq :
    (xs : List ℕ) (m : Memory) (base skip k : ℕ)
    → ((j : ℕ) → j < length xs → m (byte_address base skip (k + j)) ≡ get_or xs j 0)
    → view m base skip k (length xs) ≡ xs
unfolding view
view_eq [] m base skip k h = refl
view_eq (x ∷ xs) m base skip k h =
    ap₂ ◌∷◌ (rw add-zero at (h 0 (omega arith)))
      (view_eq xs m base skip (k + 1) (λ j p. rw (← step j) at (h (suc j) (omega arith))))
  where
    step : (j : ℕ) → k + 1 + j ≡ k + suc j
    step j = omega arith

-- Two memories that agree on a run show the same bytes.
pub view_cong :
    (m m' : Memory) (base skip k n : ℕ)
    → ((j : ℕ) → k ≤ j → j < k + n → m (byte_address base skip j) ≡ m' (byte_address base skip j))
    → view m base skip k n ≡ view m' base skip k n
unfolding view
view_cong m m' base skip k zero h = refl
view_cong m m' base skip k (suc n) h =
    ap₂ ◌∷◌ (h k (omega arith) (omega arith))
      (view_cong m m' base skip (k + 1) n (λ j p q. h j (omega arith) (omega arith)))

pub length-view : (m : Memory) (base skip k n : ℕ) → length (view m base skip k n) ≡ n
unfolding view
length-view m base skip k zero = refl
length-view m base skip k (suc n) = ap suc (length-view m base skip (k + 1) n)

pub view-fill :
    (base skip off : ℕ) (src : List ℕ) (m : Memory)
    → view (fill base skip off (λ k. get_or src k 0) 0 (length src) m) base skip off (length src)
      ≡ src
view-fill base skip off src m = view_eq src _ base skip off (λ j p.
    fill_hit base skip off (λ k. get_or src k 0) 0 (length src) m j (omega arith) (omega arith))

-- For a buffer that is not NULL, `skip_bytes` 0 or 1, and a run of bytes that is not empty and
-- ends by 2^31: `write_to_partition` succeeds, `read_from_partition` then reads the same bytes
-- from the same place, and no address has changed but those of the bytes written.
pub read-write_to_partition :
    (dst off skip : ℕ) (src : List ℕ) (m : Memory)
    → Transfer dst off (length src) skip
    → let (r, m') = write_to_partition dst off src (length src) skip m in
      (r ≡ ok tt)
      × (read_from_partition m' dst off (length src) skip ≡ ok src)
      × ((a : ℕ) → Misses dst skip off (off + length src) a → m' a ≡ m a)
read-write_to_partition dst off skip src m t =
    rw (write_to_partition_lem dst off src (length src) skip m t) (
      refl,
      rw (read_from_partition_lem _ dst off (length src) skip t, view-fill dst skip off src m),
      λ a h.
          fill_miss dst skip off (λ k. get_or src k 0) 0 (length src) m a
            (λ k p q. h k (omega arith) (omega arith)),
    )

pub get_or-view :
    (m : Memory) (base skip k n i : ℕ)
    → i < n
    → get_or (view m base skip k n) i 0 ≡ m (byte_address base skip (k + i))
unfolding view
get_or-view m base skip k zero i h = absurd (omega arith)
get_or-view m base skip k (suc n) zero h = rw add-zero refl
get_or-view m base skip k (suc n) (suc i) h =
    get_or-view m base skip (k + 1) n i (omega arith)
    ∙ ap (λ j. m (byte_address base skip j)) (omega arith)

-- A hit at offset 0.
pub fill_hit0 :
    (base skip : ℕ) (val : ℕ → ℕ) (n : ℕ) (m : Memory) (k : ℕ)
    → k < n
    → fill base skip 0 val 0 n m (byte_address base skip k) ≡ val k
fill_hit0 base skip val n m k h =
    ap (λ j. fill base skip 0 val 0 n m (byte_address base skip j)) (sym (zero-add k))
    ∙ fill_hit base skip 0 val 0 n m k (omega arith) (omega arith)
