-- ===== src/Sat/Read/Ends.antt =====
-- devices/sat/sat.c: `sat_read` ends, whatever the partition holds.
use libslinga.Prelude.{◌-◌, ◌⊎◌, ◌⊎◌, sym, ◌/◌, reject, Bool-cases, ℕ, zero, suc, ◌+◌, ◌*◌, ◌^◌}
use libslinga.Prelude.{◌≤◌, ◌<◌, ◌≡◌, ◌≢◌, refl, arith, Bool, true, false, ltb, ◌==◌, ◌||◌, ◌&&◌}
use libslinga.Prelude.{not, u32, sub32, if◌then◌else◌, Result, ok, err, diverge, Error, List, []}
use libslinga.Prelude.{◌++◌, Option, none, some, ap, length, inl, inr, ◌∙◌, ok_first}
use libslinga.Prelude.{ok_injective, ◌>>=◌}
use libslinga.Prelude.Ends.{Ends, Ends-ok, Ends-err, Ends-bind, Ends-guard, Ends-if}
use libslinga.Memory.{Memory}
use libslinga.Sat.Partition.{PartitionInfo, read_from_partition}
use libslinga.Sat.Header.{short_at}
use libslinga.Sat.Blocks.{convert_block_index_to_address}
use libslinga.Sat.Blocks.Layout.{IsPartition, block_size-small, block_address}
use libslinga.Sat.Find.{outside, find_save}
use libslinga.Sat.Find.Laws.{header_at, read_header_lem, FirstSave, find_save-FirstSave, is_save}
use libslinga.Sat.Bitmap.{get_next_block_bitmap, clear_bitmap}
use libslinga.Sat.Bitmap.Laws.{capacity, clear_bitmap-IsBytes}
use libslinga.Sat.Table.{TableState, adjusted_block_size, read_sat_table}
use libslinga.Sat.Table.Ends.{read_from_partition-Ends, to_address-Ends, get_next-Ends}
use libslinga.Sat.Table.Ends.{next-inside, read_sat_table-Ends}
use libslinga.Sat.Write.Free.{get_bitmap_size_lem}
use libslinga.Sat.Read.{ReadJob, DataStart, block_data_size, skip_entries, read_plain_block}
use libslinga.Sat.Read.{past_block, data_start_at, copy_first_data, read_first_block, read_block}
use libslinga.Sat.Read.{read_on, read_next, read_blocks, read_save_from_sat_table, read_data}
use libslinga.Sat.Read.{sat_read}

skip_entries-Ends :
    (fuel : ℕ) (m : Memory) (p : PartitionInfo) (block start i : ℕ)
    → block_data_size p < fuel + i
    → block_data_size p < 2 ^ 31
    → 1 ≤ fuel
    → Ends (skip_entries fuel m p block start i)
unfolding skip_entries
skip_entries-Ends zero m p block start i f small pos = absurd (omega arith)
skip_entries-Ends (suc fuel) m p block start i f small pos =
    Ends-if (ltb i (block_data_size p)) _ _
      (λ lt.
        Ends-bind (read_from_partition m block (u32 (i + 4)) 2 p.skip_bytes) _
          (read_from_partition-Ends m block (u32 (i + 4)) 2 p.skip_bytes)
          λ raw e.
            Ends-if (short_at raw 0 == 0) _ _ (λ e1. Ends-ok (u32 (i + 2)))
              λ e1.
                skip_entries-Ends fuel m p block start (u32 (i + 2)) (ground (arith, lt)) small
                  (ground (arith, lt)))
      (λ ge. Ends-ok start)

-- A call that ends, and whose block index, if it gives one, is at least `cur`.
-- Not before `cur`, where the index behind `cur` does not wrap.
abbrev Later : ℕ → ℕ → Type 0
Later cur n = cur < 2 ^ 32 - 1 → (cur ≤ n) × (n < 2 ^ 32 - 1)

Later-here : (cur n : ℕ) → n ≡ cur → Later cur n
Later-here cur n e low = (omega arith, omega arith)

record Starts (cur : ℕ) (r : Result (Option DataStart)) : Type 0 where
  ends : Ends r
  later : (at : DataStart) → r ≡ ok (some at) → Later cur at.0

pub record Goes (cur : ℕ) (r : Result (Option ℕ × List ℕ)) : Type 0 where
  pub ends : Ends r
  pub later : (next : ℕ) (out : List ℕ) → r ≡ ok (some next, out) → Later cur next

abbrev index_or : ℕ → Option DataStart → ℕ
index_or d none = d
index_or d (some at) = at.0

-- The address of a block that is not before `cur`.
start_at-Starts :
    (cur b : ℕ) (p : PartitionInfo)
    → Later cur b
    → Starts cur (convert_block_index_to_address b p >>= λ address. ok (some (b, address, 0)))
start_at-Starts cur b p le = record {
  ends = Ends-bind (convert_block_index_to_address b p) _ (to_address-Ends b p) (λ a e. Ends-ok _);
  later = λ at e.
      let found = ok_first (convert_block_index_to_address b p) _ (some at) e in
      let same : b ≡ at.0 = ap (index_or 0) (ok_injective found.2) in
      λ low. (omega (arith, same, le low), omega (arith, same, le low));
}

past_block-Starts :
    (p : PartitionInfo) (cur : ℕ) (r : Result ℕ)
    → Ends r
    → ((n : ℕ) → r ≡ ok n → Later cur n)
    → Starts cur (past_block p cur r)
unfolding past_block
past_block-Starts p cur (ok next) h lt = start_at-Starts cur next p (lt next refl)
past_block-Starts p cur (err Error.not_found) h lt = record {
  ends = Ends-ok none;
  later = λ at e. cc e;
}
past_block-Starts p cur (err e) h lt = start_at-Starts cur cur p (Later-here cur cur refl)
past_block-Starts p cur diverge h lt = absurd (h refl)

module _ (m : Memory) (job : ReadJob) (given : length job.bitmap ≢ 0)
    (small : block_data_size job.info < 2 ^ 31) where
  next-Later : (cur n : ℕ) → get_next_block_bitmap cur job.bitmap ≡ ok n → Later cur n
  next-Later cur n e low =
      let at = next-inside cur n job.bitmap given e in (omega (arith, at.0 low), at.2)

  data_start_at-Starts : (cur block offset : ℕ) → Starts cur (data_start_at job cur block offset)
  unfolding data_start_at
  data_start_at-Starts cur block offset = elim (Bool-cases (offset == block_data_size job.info)) [
    | inl full ↦ rw full (
        past_block-Starts job.info cur (get_next_block_bitmap cur job.bitmap)
          (get_next-Ends cur job.bitmap given) (λ n e. next-Later cur n e))
    | inr room ↦ rw room (record {
      ends = Ends-ok _;
      later = λ at e. Later-here cur at.0 (ap (index_or 0) (sym (ok_injective e)));
    })
  ]

  abbrev next_or : ℕ → Option ℕ → ℕ
  next_or d none = d
  next_or d (some n) = n

  copy_first_data-Goes :
      (cur : ℕ) (out : List ℕ) (at : Option DataStart)
      → ((x : DataStart) → at ≡ some x → Later cur x.0)
      → Goes cur (copy_first_data m job out at)
  unfolding copy_first_data
  copy_first_data-Goes cur out none h = record { ends = Ends-ok _; later = λ n o e. cc e }
  copy_first_data-Goes cur out (some (c, block, offset)) h = record {
    ends = Ends-guard (ltb bds amount) Error.sat_invalid_size _ λ e1.
        Ends-guard (ltb job.size (u32 (length out + amount))) Error.sat_invalid_size _ λ e2.
          Ends-bind (read_from_partition m block (u32 (offset + 4)) amount job.info.skip_bytes) _
            (read_from_partition-Ends m block (u32 (offset + 4)) amount job.info.skip_bytes)
            (λ bytes e3. Ends-ok _);
    later = λ n o e. by_tests (ltb bds amount) (ltb job.size (u32 (length out + amount))) n o e;
  }
    where
      bds : ℕ
      bds = block_data_size job.info

      left : ℕ
      left = sub32 job.size (length out)

      amount : ℕ
      amount = if ltb left (sub32 bds offset) then left else sub32 bds offset

      copied : Result (Option ℕ × List ℕ)
      copied =
          read_from_partition m block (u32 (offset + 4)) amount job.info.skip_bytes >>= λ bytes.
          ok (some c, out ++ bytes)

      by_tests :
          (bad worse : Bool) (n : ℕ) (o : List ℕ)
          → (reject bad Error.sat_invalid_size >>= λ t1.
              reject worse Error.sat_invalid_size >>= λ t2. copied)
            ≡ ok (some n, o)
          → Later cur n
      by_tests true worse n o e = cc e
      by_tests false true n o e = cc e
      by_tests false false n o e =
          let found =
            ok_first (read_from_partition m block (u32 (offset + 4)) amount job.info.skip_bytes) _
              (some n, o) e in
          let same : c ≡ n = ap (λ x. next_or 0 x.0) (ok_injective found.2) in
          λ low. (
            omega (arith, same, h (c, block, offset) refl low),
            omega (arith, same, h (c, block, offset) refl low),
          )

  Goes-bind :
      {A : Type 0} (cur : ℕ) (r : Result A) (f : A → Result (Option ℕ × List ℕ))
      → Ends r
      → ((a : A) → r ≡ ok a → Goes cur (f a))
      → Goes cur (r >>= f)
  Goes-bind cur (ok a) f h k = k a refl
  Goes-bind cur (err code) f h k = record { ends = Ends-err code; later = λ n o e. cc e }
  Goes-bind cur diverge f h k = absurd (h refl)

  Goes-guard :
      (cur : ℕ) (bad : Bool) (code : Error) (r : Result (Option ℕ × List ℕ))
      → Goes cur r
      → Goes cur (reject bad code >>= λ t. r)
  Goes-guard cur true code r h = record { ends = Ends-err code; later = λ n o e. cc e }
  Goes-guard cur false code r h = h

  Goes-if :
      (cur : ℕ) (c : Bool) (x y : Result (Option ℕ × List ℕ))
      → Goes cur x
      → Goes cur y
      → Goes cur (if c then x else y)
  Goes-if cur true x y hx hy = hx
  Goes-if cur false x y hx hy = hy

  Goes-here : (cur : ℕ) (out : List ℕ) → Goes cur (ok (some cur, out))
  Goes-here cur out = record {
    ends = Ends-ok _;
    later = λ n o e. Later-here cur n (ap (λ x. next_or 0 x.0) (sym (ok_injective e)));
  }

  read_first_block-Goes :
      (cur block : ℕ) (out : List ℕ) → Goes cur (read_first_block m job cur block out)
  unfolding read_first_block
  read_first_block-Goes cur block out =
      let start : ℕ = if cur == job.start_block then 30 else 0 in
      let bds : ℕ = block_data_size job.info in
      Goes-bind cur (skip_entries (suc bds) m job.info block start start) _
        (skip_entries-Ends (suc bds) m job.info block start start (omega arith) small (omega arith))
        λ offset e1.
          let at = data_start_at-Starts cur block offset in
          Goes-bind cur (data_start_at job cur block offset) _ at.ends
            (λ x e2. copy_first_data-Goes cur out x (λ y e3. at.later y (e2 ∙ ap ok e3)))

  read_plain_block-Goes :
      (cur block : ℕ) (out : List ℕ)
      → Goes cur (read_plain_block m job block out >>= λ out'. ok (some cur, out'))
  unfolding read_plain_block
  read_plain_block-Goes cur block out =
      let left : ℕ = sub32 job.size (length out) in
      let amount : ℕ =
        if ltb left (block_data_size job.info) then left else block_data_size job.info in
      Goes-bind cur (read_plain_block m job block out) _
        (Ends-bind (read_from_partition m block 4 amount job.info.skip_bytes) _
          (read_from_partition-Ends m block 4 amount job.info.skip_bytes) (λ bytes e. Ends-ok _))
        (λ out' e. Goes-here cur out')

  read_block-Goes : (cur : ℕ) (out : List ℕ) → Goes cur (read_block m job cur out)
  unfolding read_block
  read_block-Goes cur out =
      Goes-bind cur (convert_block_index_to_address cur job.info) _ (to_address-Ends cur job.info)
        λ block e. Goes-guard cur (outside job.info block) Error.sat_invalid_partition _ (
          Goes-if cur (not (cur == job.start_block) && not (cur == job.start_data_block)) _ _
            (read_plain_block-Goes cur block out)
            (Goes-if cur (cur == job.start_data_block) _ _ (read_first_block-Goes cur block out)
              (Goes-here cur out)))

  read_on-Ends :
      (again : ℕ → List ℕ → Result (List ℕ)) (out : List ℕ) (next : Result ℕ)
      → Ends next
      → ((b : ℕ) → next ≡ ok b → Ends (again b out))
      → Ends (read_on again out next)
  unfolding read_on
  read_on-Ends again out (ok b) h k = k b refl
  read_on-Ends again out (err Error.not_found) h k = Ends-ok out
  read_on-Ends again out (err e) h k = Ends-err e
  read_on-Ends again out diverge h k = absurd (h refl)

  read_next-Ends :
      (again : ℕ → List ℕ → Result (List ℕ)) (cur : ℕ) (x : Option ℕ × List ℕ)
      → ((next : ℕ) → x.0 ≡ some next → Later cur next)
      → ((b : ℕ) (out : List ℕ)
          → (cur < 2 ^ 32 - 1 → cur < b)
          → b < capacity job.bitmap
          → b < 2 ^ 32 - 1
          → Ends (again b out))
      → Ends (read_next again job.bitmap x)
  unfolding read_next
  read_next-Ends again cur (none, out) h k = Ends-ok out
  read_next-Ends again cur (some c, out) h k =
      read_on-Ends again out (get_next_block_bitmap c job.bitmap) (get_next-Ends c job.bitmap given)
        (λ b e.
          let at = next-inside c b job.bitmap given e in
          k b out (λ low. omega (arith, at.0 (h c refl low).1, (h c refl low).0)) at.1 at.2)

  -- The rounds are enough from `cur` on. From an index whose next one wraps they start over.
  abbrev Enough : ℕ → ℕ → Type 0
  Enough fuel cur =
      (capacity job.bitmap < fuel)
      ⊎ ((cur < 2 ^ 32 - 1) × (capacity job.bitmap ≤ fuel + cur) × (1 ≤ fuel))

  Enough-next :
      (fuel cur b : ℕ)
      → Enough (suc fuel) cur
      → (cur < 2 ^ 32 - 1 → cur < b)
      → b < capacity job.bitmap
      → b < 2 ^ 32 - 1
      → Enough fuel b
  Enough-next fuel cur b (inl all) lt inside low = inr (low, omega arith, omega arith)
  Enough-next fuel cur b (inr (low', left, pos)) lt inside low =
      inr (low, omega (arith, lt low'), omega (arith, lt low'))

  read_blocks-Ends :
      (fuel cur : ℕ) (out : List ℕ) → Enough fuel cur → Ends (read_blocks fuel m job cur out)
  unfolding read_blocks
  read_blocks-Ends zero cur out (inl all) = absurd (omega arith)
  read_blocks-Ends zero cur out (inr (low, left, pos)) = absurd (omega arith)
  read_blocks-Ends (suc fuel) cur out enough =
      let here = read_block-Goes cur out in
      Ends-bind (read_block m job cur out) _ here.ends (λ x e.
        read_next-Ends (read_blocks fuel m job) cur x
          (λ next e'. here.later next x.1 (e ∙ ap (λ n. ok (n, x.1)) e'))
          (λ b out' lt inside low.
            read_blocks-Ends fuel b out' (Enough-next fuel cur b enough lt inside low)))

read_save-Ends :
    (m : Memory) (job : ReadJob)
    → block_data_size job.info < 2 ^ 31
    → Ends (read_save_from_sat_table m job)
unfolding read_save_from_sat_table
read_save-Ends m job small =
    Ends-guard (job.size == 0 || job.start_block == 0 || job.start_data_block == 0)
      Error.invalid_parameter _
      λ e1. Ends-guard (length job.bitmap == 0) Error.invalid_parameter _ λ e2.
        Ends-guard (not (job.info.skip_bytes == 0) && not (job.info.skip_bytes == 1))
          Error.invalid_parameter _
          λ e3.
            Ends-bind (read_blocks (suc (8 * length job.bitmap)) m job job.start_data_block []) _
              (read_blocks-Ends m job (ground (arith, e2)) small (suc (8 * length job.bitmap))
                job.start_data_block [] (inl (omega arith)))
              λ out e4.
                Ends-if (length out == job.size) _ _ (λ e5. Ends-ok out)
                  (λ e5. Ends-err Error.sat_invalid_read_size)

module _ {p : PartitionInfo} (v : IsPartition p) (m : Memory) where
  read_data-Ends :
      (b save_size size : ℕ)
      → (header_at m p b).data_size ≤ 2 ^ 30
      → Ends (read_data m p (block_address p b) save_size size)
  unfolding read_data
  read_data-Ends b save_size size small =
      Ends-guard (ltb save_size size) Error.buffer_too_small _ λ e1. rw (get_bitmap_size_lem v m) (
        Ends-bind out.0 _
          (read_sat_table-Ends v m b blank small (clear_bitmap-IsBytes (v.count / 8)))
          (λ start e2.
            read_save-Ends m
              (record {
                size = size;
                start_block = start;
                start_data_block = out.1.start_data_block;
                bitmap = out.1.bitmap;
                info = p;
              })
              block_room))
    where
      adjusted : adjusted_block_size p ≤ p.block_size
      adjusted = ground arith

      block_room : block_data_size p < 2 ^ 31
      block_room = omega (arith, adjusted, v.wide, block_size-small v)

      blank : TableState
      blank = record {
        bitmap = clear_bitmap (v.count / 8);
        start_data_block = 0;
        written_sat_entries = 0;
      }

      out : Result ℕ × TableState
      out = read_sat_table m p (block_address p b) blank

  -- On a well-formed partition `sat_read` ends, whatever the memory holds, so long as no header that
  -- starts a save of the name says that it has more than 2^30 bytes.
  pub sat_read-Ends :
      (filename : List ℕ) (size : ℕ)
      → ((b : ℕ)
          → b < v.count
          → is_save v m filename b ≡ true
          → (header_at m p b).data_size ≤ 2 ^ 30)
      → sat_read m (some filename) size p ≢ diverge
  unfolding sat_read
  sat_read-Ends filename size small = by_first (find_save-FirstSave v m filename)
    where
      by_first :
          FirstSave v m filename 2 (find_save m (some filename) p)
          → Ends (sat_read m (some filename) size p)
      by_first (inl (b, e, lo, hi, hit, h)) =
          rw (e, read_header_lem v m b)
            (read_data-Ends b (header_at m p b).data_size size (small b hi hit))
      by_first (inr (e, h)) = rw e (Ends-err Error.not_found)
