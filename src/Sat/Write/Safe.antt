-- ===== src/Sat/Write/Safe.antt =====
-- devices/sat/sat.c: what `sat_write` leaves alone.
use libslinga.Prelude.{ℕ, ◌≤◌, ◌<◌, ◌≡◌, ◌≢◌, refl, arith, List, Bool, true, false, ◌==◌, ◌%◌}
use libslinga.Prelude.{◌!=◌, some, Result, ok, err, diverge, Error, inl, inr, ap, ◌∙◌, Bool-cases}
use libslinga.Prelude.Action.{◌>>=◌, ◌>>◌, lift, query, reject}
use libslinga.Memory.{Memory, Io}
use libslinga.Sat.Partition.{PartitionInfo, bad_skip}
use libslinga.Sat.Partition.Bytes.{memset_partition_lem, byte_address}
use libslinga.Sat.Partition.Laws.{view_cong}
use libslinga.Sat.Blocks.{calc_num_blocks, min_block_size}
use libslinga.Sat.Blocks.Count.{valid_size}
use libslinga.Sat.Blocks.Layout.{IsPartition, block_address, blocks_apart}
use libslinga.Sat.Header.{SaveMetadata, sat_start_block_tag, header_of_bytes}
use libslinga.Sat.Find.{find_save}
use libslinga.Sat.Find.Laws.{header_at, is_save, FirstSave, find_save-FirstSave}
use libslinga.Sat.Delete.Laws.{cleared, tag-Transfer, Deletes, cleared-Deletes}
use libslinga.Sat.Bitmap.{Bitmap}
use libslinga.Sat.Write.{may_overwrite, free_blocks_for, sat_write, write_checked, write_save}
use libslinga.Sat.Write.Free.{FreeBlocks, free_blocks_for-FreeBlocks}
use libslinga.Sat.Write.Room.{InFree}
use libslinga.Sat.Write.Parts.{write_save-Confined}

module _ {p : PartitionInfo} (v : IsPartition p) where
  -- Only valid bytes of the blocks past the first two have changed, and the headers of the blocks
  -- in `Kept` have not.
  pub record Leaves (Kept : ℕ → Type 0) (m m' : Memory) : Type 0 where
    pub outside :
        (a : ℕ)
        → ((b k : ℕ)
            → 2 ≤ b
            → b < v.count
            → k < valid_size p.block_size p.skip_bytes
            → a ≢ byte_address (block_address p b) p.skip_bytes k)
        → m' a ≡ m a
    pub headers : (c : ℕ) → 2 ≤ c → c < v.count → Kept c → header_at m' p c ≡ header_at m p c

  Leaves-refl : {Kept : ℕ → Type 0} (m : Memory) → Leaves Kept m m
  Leaves-refl m = record { outside = λ a out. refl; headers = λ c lo hi k. refl }

  -- The blocks with a start tag.
  abbrev Starts : Memory → ℕ → Type 0
  Starts m c = (header_at m p c).tag ≡ sat_start_block_tag

  -- Writing into free blocks.
  free-Leaves :
      (n : ℕ) (free : Bitmap) (m m' : Memory)
      → FreeBlocks v m n free
      → ((a : ℕ) → ¬ InFree v free a → m' a ≡ m a)
      → Leaves (Starts m) m m'
  free-Leaves n free m m' f same = record {
    outside = λ a out.
        same a (λ at. out at.0 at.1 (f.not_first at.0 at.2) (f.inside at.0 at.2) at.3 at.4);
    headers = λ c lo hi t. ap header_of_bytes (
        view_cong m' m (block_address p c) p.skip_bytes 0 34 (λ j lo' hi'. same _ (λ at.
          blocks_apart v c at.0 j at.1 (λ e. f.untagged at.0 at.2 (rw e at t))
            (omega (arith, v.wide)) at.3 at.4)));
  }

  write_free-Leaves :
      (metadata : SaveMetadata) (buffer : List ℕ) (size n : ℕ) (m : Memory)
      → Leaves
          (Starts m)
          m
          ((query (λ m. free_blocks_for m p n) >>= λ free. write_save metadata buffer size p n free)
            m).1
  write_free-Leaves metadata buffer size n m = go (free_blocks_for m p n) refl
    where
      go :
          (r : Result Bitmap)
          → free_blocks_for m p n ≡ r
          → Leaves
              (Starts m)
              m
              ((query (λ m. free_blocks_for m p n) >>= λ free.
                  write_save metadata buffer size p n free)
                m).1
      go (ok free) e =
          let f = free_blocks_for-FreeBlocks v m n free e in
          rw e (
            free-Leaves n free m _ f
              ((write_save-Confined v free f.inside metadata buffer size n).elsewhere m))
      go (err code) e = rw e (Leaves-refl m)
      go diverge e = rw e (Leaves-refl m)

  -- What follows the old save's removal.
  abbrev fill_blocks : SaveMetadata → List ℕ → ℕ → Io (Unit {0})
  fill_blocks metadata buffer size = lift (calc_num_blocks size p.block_size p.skip_bytes) >>= λ n.
      query (λ m. free_blocks_for m p n) >>= λ free. write_save metadata buffer size p n free

  fill_blocks-Leaves :
      (metadata : SaveMetadata) (buffer : List ℕ) (size : ℕ) (m : Memory)
      → Leaves (Starts m) m (fill_blocks metadata buffer size m).1
  fill_blocks-Leaves metadata buffer size m =
      go (calc_num_blocks size p.block_size p.skip_bytes) refl
    where
      go :
          (r : Result ℕ)
          → calc_num_blocks size p.block_size p.skip_bytes ≡ r
          → Leaves (Starts m) m (fill_blocks metadata buffer size m).1
      go (ok n) e = rw e (write_free-Leaves metadata buffer size n m)
      go (err code) e = rw e (Leaves-refl m)
      go diverge e = rw e (Leaves-refl m)

  -- The blocks with a start tag and another name.
  abbrev pub OtherSave : Memory → List ℕ → ℕ → Type 0
  OtherSave m filename c =
      ((header_at m p c).tag ≡ sat_start_block_tag) × (is_save v m filename c ≡ false)

  -- After the removal of the save in block `b`.
  removed-Leaves :
      (m m1 m2 : Memory) (filename : List ℕ) (b : ℕ)
      → 2 ≤ b
      → b < v.count
      → is_save v m filename b ≡ true
      → Deletes v b m m1
      → Leaves (Starts m1) m1 m2
      → Leaves (OtherSave m filename) m m2
  removed-Leaves m m1 m2 filename b lo hi hit d l = record {
    outside = λ a out.
        l.outside a out ∙ d.others a (λ k lo' hi' e. out b k lo hi (omega (arith, v.wide)) e);
    headers = λ c lo' hi' k.
        let same = d.other_headers c (apart c k.1) in l.headers c lo' hi' (rw same k.0) ∙ same;
  }
    where
      apart : (c : ℕ) → is_save v m filename c ≡ false → c ≢ b
      apart c other e = cc (hit, other, e)

  guard-Leaves :
      {Kept : ℕ → Type 0} (bad : Bool) (e : Error) (act : Io (Unit {0})) (m : Memory)
      → Leaves Kept m (act m).1
      → Leaves Kept m ((reject bad e >> act) m).1
  guard-Leaves true e act m l = Leaves-refl m
  guard-Leaves false e act m l = l

  module _ (flags : ℕ) (filename : List ℕ) (metadata : SaveMetadata) (buffer : List ℕ) (size : ℕ)
      (m : Memory) where
    weaken : {m' : Memory} → Leaves (Starts m) m m' → Leaves (OtherSave m filename) m m'
    weaken l = record { outside = l.outside; headers = λ c lo hi k. l.headers c lo hi k.0 }

    write_checked-Leaves :
        FirstSave v m filename 2 (find_save m (some filename) p)
        → Leaves (OtherSave m filename) m (write_checked flags filename metadata buffer size p m).1
    unfolding write_checked
    write_checked-Leaves (inl (b, e, lo, hi, hit, h)) = elim (Bool-cases (may_overwrite flags)) [
      | inl may ↦
          rw
            (
              e,
              may,
              memset_partition_lem (block_address p b) 0 0 4 p.skip_bytes m (tag-Transfer v b),
            )
            (removed-Leaves m (cleared v b m) _ filename b lo hi hit (cleared-Deletes v b m)
              (fill_blocks-Leaves metadata buffer size (cleared v b m)))
      | inr may_not ↦ rw (e, may_not) (Leaves-refl m)
    ]
    write_checked-Leaves (inr (e, h)) = rw e (weaken (fill_blocks-Leaves metadata buffer size m))

    -- On a well-formed partition `sat_write`, whatever its flags, its arguments and its outcome,
    -- changes no address but valid bytes of the blocks past the first two, and leaves the header of
    -- every block that starts a save of another name as it was.
    pub sat_write-Leaves :
        Leaves
          (OtherSave m filename)
          m
          (sat_write flags (some filename) (some metadata) (some buffer) size p m).1
    unfolding sat_write
    sat_write-Leaves = guard-Leaves (size == 0) Error.invalid_parameter _ m (
        guard-Leaves (p.block_size % min_block_size != 0) Error.invalid_parameter _ m (
          guard-Leaves (bad_skip p.skip_bytes) Error.invalid_parameter _ m
            (write_checked-Leaves (find_save-FirstSave v m filename))))
