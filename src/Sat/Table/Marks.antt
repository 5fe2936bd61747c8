-- ===== src/Sat/Table/Marks.antt =====
-- devices/sat/sat.c: `read_sat_table` puts the save's first block into the bitmap.
use libslinga.Prelude.{ℕ, suc, ◌*◌, ◌%◌, ◌<◌, ◌≡◌, refl, arith, Bool, true, ltb, ◌==◌, ◌!=◌, ◌||◌}
use libslinga.Prelude.{u32, Result, ok, err, diverge, Error, length, inl, inr}
use libslinga.Prelude.Action.{Action, ◌>>=◌, ◌>>◌, lift, query, update, reject, continue_with}
use native.Mathlib.Nat.{add-zero}
use libslinga.Memory.{Memory}
use libslinga.Sat.Partition.{PartitionInfo}
use libslinga.Sat.Blocks.{convert_address_to_block_index, calc_num_blocks, min_block_size}
use libslinga.Sat.Blocks.Layout.{IsPartition, block_address, to_index, block_size_pos}
use libslinga.Sat.Header.{read_header}
use libslinga.Sat.Bitmap.{Bitmap, is_set, set_bitmap}
use libslinga.Sat.Bitmap.Laws.{IsBytes, capacity, set_bitmap-Adds}
use libslinga.Sat.Table.{TableState, walk_table, read_sat_table}
use libslinga.Sat.Table.Grows.{Grows, Grows-trans, Adds-Grows, Keeps, Keeps-bind, Keeps-lift}
use libslinga.Sat.Table.Grows.{Keeps-query, Keeps-reject, walk_table-Keeps}

-- `bitmap'` has the blocks of `bitmap`, and block `b`.
abbrev pub GrowsWith : ℕ → Bitmap → Bitmap → Type 0
GrowsWith b bitmap bitmap' =
    Grows bitmap bitmap' × (b < capacity bitmap) × (is_set bitmap' b ≡ true)

-- When the operation succeeds, the bitmap has grown, and block `b` is in it.
pub record Marks (b : ℕ) {A : Type 0} (act : Action TableState A) : Type 0 where
  pub marks :
      (s : TableState) (a : A)
      → IsBytes s.bitmap
      → (act s).0 ≡ ok a
      → GrowsWith b s.bitmap (act s).1.bitmap

continue-Marks :
    {A B : Type 0} (b : ℕ) (f : A → Action TableState B) (r : Result A) (bitmap : Bitmap)
    (s : TableState) (c : B)
    → Grows bitmap s.bitmap
    → ((a : A) → Marks b (f a))
    → (continue_with f r s).0 ≡ ok c
    → GrowsWith b bitmap (continue_with f r s).1.bitmap
continue-Marks b f (ok a) bitmap s c g h e =
    let hit = (h a).marks s c g.bytes e in
    (Grows-trans g hit.0, omega (arith, hit.1, g.same_size), hit.2)
continue-Marks b f (err e') bitmap s c g h e = cc e
continue-Marks b f diverge bitmap s c g h e = cc e

Marks-bind :
    {A B : Type 0} (b : ℕ) (act : Action TableState A) (f : A → Action TableState B)
    → Keeps act
    → ((a : A) → Marks b (f a))
    → Marks b (act >>= f)
Marks-bind b act f k h = record {
  marks = λ s c bytes e. continue-Marks b f (act s).0 s.bitmap (act s).1 c (k.grows s bytes) h e;
}

Marks-guard :
    {A : Type 0} (b : ℕ) (bad : Bool) (e : Error) (act : Action TableState A)
    → Marks b act
    → Marks b (reject bad e >> act)
Marks-guard b bad e act h = Marks-bind b (reject bad e) (λ t. act) (Keeps-reject bad e) (λ t. h)

Grows-start : {a a' b : Bitmap} → a' ≡ a → Grows a' b → Grows a b
Grows-start e g = rw (← e) g

-- The block that is set itself, and what follows.
Marks-set :
    {A : Type 0} (b : ℕ) (f : TableState → Bitmap → TableState) (rest : Action TableState A)
    → ((s : TableState) (bitmap : Bitmap) → (f s bitmap).bitmap ≡ bitmap)
    → Keeps rest
    → Marks b (
        query (λ (s : TableState). set_bitmap b s.bitmap) >>= λ bitmap.
        update (λ s. f s bitmap) >> rest)
Marks-set b f rest same k = record {
  marks = λ s a bytes e. elim (set_bitmap-Adds b s.bitmap bytes) [
    | inl (lt, (bitmap', ran, adds)) ↦
        let g = Grows-start (same s bitmap') (k.grows (f s bitmap') (rw same adds.bytes)) in
        let hit : is_set bitmap' b ≡ true = ground (arith, adds.bits b lt) in
        rw ran (Grows-trans (Adds-Grows adds) g, lt, g.keeps b (omega (arith, adds.same_size)) hit)
    | inr (ge, failed) ↦ cc (rw failed at e)
  ];
}

Marks-known :
    {A B : Type 0} (b : ℕ) (r : Result A) (a : A) (f : A → Action TableState B)
    → r ≡ ok a
    → Marks b (f a)
    → Marks b (lift r >>= f)
Marks-known b r a f e h = rw e h

module _ {p : PartitionInfo} (v : IsPartition p) (m : Memory) (b : ℕ) (inside : b < v.count) where
  start_index : convert_address_to_block_index (block_address p b) p ≡ ok b
  start_index =
      rw (← add-zero (block_address p b)) (to_index v b 0 inside (omega (arith, block_size_pos v)))

  -- What `read_sat_table` does once it knows the save's first block.
  abbrev walk_from_block : ℕ → ℕ → ℕ → Action TableState ℕ
  walk_from_block bitmap_size num_sat_blocks start_block =
      query (λ (s : TableState). set_bitmap start_block s.bitmap) >>= λ bitmap.
      update (λ s. record s { bitmap = bitmap; written_sat_entries = 1 })
      >> (walk_table (suc (8 * bitmap_size)) m p start_block num_sat_blocks start_block
          >> lift (ok start_block))

  pub read_sat_table-Marks : Marks b (read_sat_table m p (block_address p b))
  unfolding read_sat_table
  read_sat_table-Marks =
      Marks-bind b (query (λ (s : TableState). ok (length s.bitmap))) _ (Keeps-query _)
        λ bitmap_size.
          Marks-guard b (block_address p b == 0 || bitmap_size == 0) Error.invalid_parameter _ (
            Marks-guard b (p.block_size % min_block_size != 0) Error.invalid_parameter _ (
              Marks-guard b (p.partition_size % p.block_size != 0) Error.invalid_parameter _ (
                Marks-bind b (lift (read_header m (block_address p b) p.skip_bytes)) _
                  (Keeps-lift _)
                  λ header.
                    Marks-bind b (lift (calc_num_blocks header.data_size p.block_size p.skip_bytes))
                      _ (Keeps-lift _)
                      λ num_sat_blocks.
                        Marks-guard b (ltb (u32 (bitmap_size * 8)) num_sat_blocks)
                          Error.sat_save_out_of_range _
                          (Marks-known b _ b (walk_from_block bitmap_size num_sat_blocks)
                            start_index
                            (Marks-set b
                              (λ s bitmap. record s { bitmap = bitmap; written_sat_entries = 1 })
                              (walk_table (suc (8 * bitmap_size)) m p b num_sat_blocks b
                                >> lift (ok b))
                              (λ s bitmap. refl)
                              (Keeps-bind
                                (walk_table (suc (8 * bitmap_size)) m p b num_sat_blocks b) _
                                (walk_table-Keeps (suc (8 * bitmap_size)) m p b num_sat_blocks b)
                                (λ t. Keeps-lift (ok b))))))))
