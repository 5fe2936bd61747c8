-- ===== src/Sat/Table/Grows.antt =====
-- devices/sat/sat.c: reading a save's table only adds to the bitmap.
use libslinga.Prelude.{ℕ, zero, suc, ◌+◌, ◌%◌, ◌<◌, ◌≡◌, refl, arith, Bool, true, false, ltb, leb}
use libslinga.Prelude.{◌==◌, ◌!=◌, ◌||◌, u32, if◌then◌else◌, Result, ok, err, diverge, Error}
use libslinga.Prelude.{length, inl, inr, ◌∙◌, Bool-cases}
use libslinga.Prelude.Action.{Action, ◌>>=◌, ◌>>◌, lift, query, reject, continue_with}
use libslinga.Memory.{Memory}
use libslinga.Sat.Partition.{PartitionInfo, read_from_partition}
use libslinga.Sat.Header.{short_at, read_header}
use libslinga.Sat.Blocks.{convert_block_index_to_address, min_block_size}
use libslinga.Sat.Find.{outside}
use libslinga.Sat.Bitmap.{Bitmap, is_set, get_next_block_bitmap, count_bitmap}
use libslinga.Sat.Bitmap.Laws.{IsBytes, capacity, Adds, set_bitmap-Adds}
use libslinga.Sat.Table.{TableState, record_entry, read_entries, read_sat_table_from_block}
use libslinga.Sat.Table.{adjusted_block_size, walk_table, table_step, table_next, check_count}
use libslinga.Sat.Table.{first_entry_byte}

-- Every block of `bitmap` is in `bitmap'`, of the same size.
pub record Grows (bitmap bitmap' : Bitmap) : Type 0 where
  pub same_size : length bitmap' ≡ length bitmap
  pub bytes : IsBytes bitmap'
  pub keeps : (j : ℕ) → j < capacity bitmap → is_set bitmap j ≡ true → is_set bitmap' j ≡ true

pub Grows-refl : (bitmap : Bitmap) → IsBytes bitmap → Grows bitmap bitmap
Grows-refl bitmap h = record { same_size = refl; bytes = h; keeps = λ j lt hit. hit }

pub Grows-trans : {a b c : Bitmap} → Grows a b → Grows b c → Grows a c
Grows-trans g h = record {
  same_size = h.same_size ∙ g.same_size;
  bytes = h.bytes;
  keeps = λ j lt hit. h.keeps j (omega (arith, g.same_size)) (g.keeps j lt hit);
}

pub Adds-Grows : {i : ℕ} {a b : Bitmap} → Adds i a b → Grows a b
Adds-Grows h = record {
  same_size = h.same_size;
  bytes = h.bytes;
  keeps = λ j lt hit. ground (arith, h.bits j lt, hit);
}

-- An operation on the table's state that only adds to the bitmap, on failure too.
pub record Keeps {A : Type 0} (act : Action TableState A) : Type 0 where
  pub grows : (s : TableState) → IsBytes s.bitmap → Grows s.bitmap (act s).1.bitmap

continue-Grows :
    {A B : Type 0} (f : A → Action TableState B) (r : Result A) (bitmap : Bitmap) (s : TableState)
    → Grows bitmap s.bitmap
    → ((a : A) → Keeps (f a))
    → Grows bitmap (continue_with f r s).1.bitmap
continue-Grows f (ok a) bitmap s g h = Grows-trans g ((h a).grows s g.bytes)
continue-Grows f (err e) bitmap s g h = g
continue-Grows f diverge bitmap s g h = g

pub Keeps-bind :
    {A B : Type 0} (act : Action TableState A) (f : A → Action TableState B)
    → Keeps act
    → ((a : A) → Keeps (f a))
    → Keeps (act >>= f)
Keeps-bind act f h k = record {
  grows = λ s b. continue-Grows f (act s).0 s.bitmap (act s).1 (h.grows s b) k;
}

pub Keeps-lift : {A : Type 0} (r : Result A) → Keeps (lift r)
Keeps-lift r = record { grows = λ s b. Grows-refl s.bitmap b }

pub Keeps-query : {A : Type 0} (f : TableState → Result A) → Keeps (query f)
Keeps-query f = record { grows = λ s b. Grows-refl s.bitmap b }

pub Keeps-reject : (bad : Bool) (e : Error) → Keeps (reject bad e)
Keeps-reject true e = Keeps-lift (err e)
Keeps-reject false e = Keeps-lift (ok tt)

Keeps-if :
    {A : Type 0} (c : Bool) (x y : Action TableState A)
    → Keeps x
    → Keeps y
    → Keeps (if c then x else y)
Keeps-if true x y hx hy = hx
Keeps-if false x y hx hy = hy

Keeps-guard :
    {A : Type 0} (bad : Bool) (e : Error) (act : Action TableState A)
    → Keeps act
    → Keeps (reject bad e >> act)
Keeps-guard bad e act h = Keeps-bind (reject bad e) (λ t. act) (Keeps-reject bad e) (λ t. h)

record_entry-Keeps : (index : ℕ) → Keeps (record_entry index)
unfolding record_entry
record_entry-Keeps index = record {
  grows = λ s b. elim (set_bitmap-Adds index s.bitmap b) [
    | inl (lt, (bitmap', e, adds)) ↦ rw e (Adds-Grows adds)
    | inr (ge, e) ↦ rw e (Grows-refl s.bitmap b)
  ];
}

read_entries-Keeps :
    (fuel : ℕ) (m : Memory) (p : PartitionInfo) (block_index block start_byte : ℕ)
    → Keeps (read_entries fuel m p block_index block start_byte)
unfolding read_entries
read_entries-Keeps zero m p block_index block start_byte = Keeps-lift diverge
read_entries-Keeps (suc fuel) m p block_index block start_byte =
    Keeps-if (ltb start_byte (adjusted_block_size p)) _ _
      (Keeps-bind (lift (read_from_partition m block start_byte 2 p.skip_bytes)) _ (Keeps-lift _)
        λ raw.
          Keeps-if (short_at raw 0 == 0) _ _ (record { grows = λ s b. Grows-refl s.bitmap b })
            (Keeps-if (leb (short_at raw 0) block_index) _ _ (Keeps-lift _) (
              Keeps-bind (record_entry (short_at raw 0)) _ (record_entry-Keeps (short_at raw 0))
                λ t. read_entries-Keeps fuel m p block_index block (u32 (start_byte + 2)))))
      (Keeps-lift _)

pub read_sat_table_from_block-Keeps :
    (m : Memory) (block_index : ℕ) (p : PartitionInfo) (start_block : ℕ)
    → Keeps (read_sat_table_from_block m block_index p start_block)
unfolding read_sat_table_from_block
read_sat_table_from_block-Keeps m block_index p start_block =
    Keeps-bind (query (λ (s : TableState). ok (length s.bitmap))) _ (Keeps-query _) λ bitmap_size.
      Keeps-guard (block_index == 0 || bitmap_size == 0 || start_block == 0) Error.invalid_parameter
        _
        (Keeps-guard (p.block_size % min_block_size != 0) Error.invalid_parameter _ (
          Keeps-guard (p.partition_size % p.block_size != 0) Error.invalid_parameter _ (
            Keeps-bind (lift (convert_block_index_to_address block_index p)) _ (Keeps-lift _)
              λ block. Keeps-guard (outside p block) Error.sat_invalid_partition _ (
                Keeps-bind (lift (read_header m block p.skip_bytes)) _ (Keeps-lift _) λ header.
                  Keeps-bind (lift (first_entry_byte block_index start_block header)) _
                    (Keeps-lift _)
                    λ start_byte.
                      read_entries-Keeps (suc p.block_size) m p block_index block start_byte))))

check_count-Keeps : (num_sat_blocks : ℕ) → Keeps (check_count num_sat_blocks)
unfolding check_count
check_count-Keeps num_sat_blocks =
    Keeps-bind (query (λ (s : TableState). count_bitmap s.bitmap)) _ (Keeps-query _)
      λ bitmap_count. Keeps-reject _ _

table_next-Keeps :
    (again : ℕ → Action TableState (Unit {0})) (num_sat_blocks : ℕ) (next : Result ℕ)
    → ((cur : ℕ) → Keeps (again cur))
    → Keeps (table_next again num_sat_blocks next)
unfolding table_next
table_next-Keeps again num_sat_blocks (ok cur) h = h cur
table_next-Keeps again num_sat_blocks (err Error.not_found) h = check_count-Keeps num_sat_blocks
table_next-Keeps again num_sat_blocks (err e) h = Keeps-lift _
table_next-Keeps again num_sat_blocks diverge h = Keeps-lift _

table_step-Keeps :
    (again : ℕ → Action TableState (Unit {0})) (num_sat_blocks cur : ℕ) (r : Result (Unit {0}))
    → ((cur : ℕ) → Keeps (again cur))
    → Keeps (table_step again num_sat_blocks cur r)
unfolding table_step
table_step-Keeps again num_sat_blocks cur (ok t) h = Keeps-lift (ok tt)
table_step-Keeps again num_sat_blocks cur (err e) h = record {
  grows =
      λ s. (table_next-Keeps again num_sat_blocks (get_next_block_bitmap cur s.bitmap) h).grows s;
}
table_step-Keeps again num_sat_blocks cur diverge h = Keeps-lift diverge

pub walk_table-Keeps :
    (fuel : ℕ) (m : Memory) (p : PartitionInfo) (start_block num_sat_blocks cur : ℕ)
    → Keeps (walk_table fuel m p start_block num_sat_blocks cur)
unfolding walk_table
walk_table-Keeps zero m p start_block num_sat_blocks cur = Keeps-lift diverge
walk_table-Keeps (suc fuel) m p start_block num_sat_blocks cur = record {
  grows = λ s b.
      let again = walk_table fuel m p start_block num_sat_blocks in
      let read = (read_sat_table_from_block-Keeps m cur p start_block).grows s b in
      let out = read_sat_table_from_block m cur p start_block s in
      elim (Bool-cases (ltb num_sat_blocks s.written_sat_entries)) [
        | inl over ↦ rw over (Grows-refl s.bitmap b)
        | inr within ↦ rw within (
            Grows-trans read (
              (table_step-Keeps again num_sat_blocks cur out.0
                  (walk_table-Keeps fuel m p start_block num_sat_blocks)).grows
                out.1 read.bytes))
      ];
}
