-- ===== src/Sat/Directory/History.antt =====
-- devices/sat/sat.c: the directory after `sat_format` and any saves written and deleted since.
use libslinga.Prelude.{false, none, ℕ, ◌^◌, ◌≤◌, ◌≡◌, List, [], ◌∷◌, true, some, ok, err, Error}
use libslinga.Prelude.{◌≢◌, length, inl, inr}
use mathlib.Core.List.{Memᴰ}
use mathlib.Core.List.Memᴰ
use libslinga.Memory.{Memory}
use libslinga.Sat.Partition.{PartitionInfo}
use libslinga.Sat.Blocks.Layout.{IsPartition}
use libslinga.Sat.Header.{SaveMetadata}
use libslinga.Sat.Find.{find_save}
use libslinga.Sat.Find.Laws.{NoSave, FirstSave, find_save-FirstSave}
use libslinga.Sat.Format.{sat_format}
use libslinga.Sat.Walk.Empty.{sat_format_empties}
use libslinga.Sat.Write.{may_overwrite, sat_write, free_blocks_for}
use libslinga.Sat.Blocks.{calc_num_blocks}
use libslinga.Sat.Delete.{sat_delete}
use libslinga.Sat.Overwrite.{sat_write-sat_delete}
use libslinga.Sat.Read.{sat_read}
use libslinga.Sat.Directory.{Save, Fresh, Held, Directory, starts_it, first_inside, reads_held}
use libslinga.Sat.Directory.Refused.{not_found, refused_same, full_same, not_there_same}
use libslinga.Sat.Directory.Writes.{Fits, sat_write-Directory}
use libslinga.Sat.Directory.Deletes.{without, without-Mem, sat_delete-Directory}

-- A memory that calls have made, and the saves that they should have left.
pub data History {p : PartitionInfo} (v : IsPartition p) : Memory → List Save → Type 0 where
  formatted : (m : Memory) → History v (sat_format p m).1 []
  written :
      {m : Memory} {saves : List Save}
      → History v m saves
      → (flags : ℕ) (md : SaveMetadata) (save : Save) → Fits v m md save
      → Fresh save.filename saves
      → History v
          (sat_write flags
            (some save.filename)
            (some md)
            (some save.bytes)
            (length save.bytes)
            p
            m).1
          (save ∷ saves)
  overwritten :
      {m : Memory} {saves : List Save}
      → History v m saves
      → (flags : ℕ) (md : SaveMetadata) (save old : Save) → Memᴰ old saves
      → old.filename ≡ save.filename
      → may_overwrite flags ≡ true
      → Fits v (sat_delete (some save.filename) p m).1 md save
      → History v
          (sat_write flags
            (some save.filename)
            (some md)
            (some save.bytes)
            (length save.bytes)
            p
            m).1
          (save ∷ without save.filename saves)
  deleted :
      {m : Memory} {saves : List Save}
      → History v m saves
      → (save : Save) → Memᴰ save saves
      → History v (sat_delete (some save.filename) p m).1 (without save.filename saves)
  refused :
      {m : Memory} {saves : List Save}
      → History v m saves
      → (flags : ℕ) (md : SaveMetadata) (buffer : List ℕ) (size : ℕ) (old : Save) → Memᴰ old saves
      → size ≢ 0
      → may_overwrite flags ≡ false
      → History v (sat_write flags (some old.filename) (some md) (some buffer) size p m).1 saves
  full :
      {m : Memory} {saves : List Save}
      → History v m saves
      → (flags : ℕ) (filename : List ℕ) (md : SaveMetadata) (buffer : List ℕ) (size n : ℕ)
      → Fresh filename saves
      → calc_num_blocks size p.block_size p.skip_bytes ≡ ok n
      → (e : Error) → free_blocks_for m p n ≡ err e
      → History v (sat_write flags (some filename) (some md) (some buffer) size p m).1 saves
  not_there :
      {m : Memory} {saves : List Save}
      → History v m saves
      → (filename : List ℕ) → Fresh filename saves
      → History v (sat_delete (some filename) p m).1 saves

module _ {p : PartitionInfo} (v : IsPartition p) (small : v.count ≤ 2 ^ 16)
    (skips : p.skip_bytes ≡ 1) where
  sat_format-Directory : (m : Memory) → Directory v (sat_format p m).1 []
  sat_format-Directory m = record {
    held = λ save there. absurd (Memᴰ.not-nil there);
    complete = λ filename fresh.
        by_first (sat_format p m).1 filename (sat_format_empties v skips m filename none 0).1
          (find_save-FirstSave v (sat_format p m).1 filename);
  }
    where
      by_first :
          (m' : Memory) (filename : List ℕ)
          → find_save m' (some filename) p ≡ err Error.not_found
          → FirstSave v m' filename 2 (find_save m' (some filename) p)
          → NoSave v m' filename 2 v.count
      by_first m' filename e (inl (b, e', lo, hi, hit, h)) = cc (e, e')
      by_first m' filename e (inr (e', h)) = h

  sat_overwrite-Directory :
      {m : Memory} {saves : List Save}
      → Directory v m saves
      → (flags : ℕ) (md : SaveMetadata) (save old : Save) → Memᴰ old saves
      → old.filename ≡ save.filename
      → may_overwrite flags ≡ true
      → Fits v (sat_delete (some save.filename) p m).1 md save
      → Directory v
          (sat_write flags
            (some save.filename)
            (some md)
            (some save.bytes)
            (length save.bytes)
            p
            m).1
          (save ∷ without save.filename saves)
  sat_overwrite-Directory {m} {saves} d flags md save old there same may w =
      rw
        (sat_write-sat_delete v m save.filename (h.block 0) h.past_first (first_inside v small h)
          (rw same at (starts_it v small h)) (rw same at h.only) flags flags md save.bytes
          (length save.bytes) w.positive may)
        (sat_write-Directory v small after md save w
          (λ one left. (without-Mem save.filename one saves left).1) flags).1
    where
      h : Held v m old
      h = d.held old there

      after : Directory v (sat_delete (some save.filename) p m).1 (without save.filename saves)
      after = rw same at (sat_delete-Directory v small d old there).1

  History-Directory : {m : Memory} {saves : List Save} → History v m saves → Directory v m saves
  History-Directory (formatted m) = sat_format-Directory m
  History-Directory (written before flags md save w fresh) =
      (sat_write-Directory v small (History-Directory before) md save w fresh flags).1
  History-Directory (overwritten before flags md save old there same may w) =
      sat_overwrite-Directory (History-Directory before) flags md save old there same may w
  History-Directory (deleted before save there) =
      (sat_delete-Directory v small (History-Directory before) save there).1
  History-Directory (refused before flags md buffer size old there ne may_not) =
      let d = History-Directory before in
      rw (refused_same v small d flags md buffer size old there ne may_not) d
  History-Directory (full before flags filename md buffer size n fresh blocks e no_space) =
      let d = History-Directory before in
      rw (full_same v small d flags filename md buffer size n fresh blocks e no_space) d
  History-Directory (not_there before filename fresh) =
      let d = History-Directory before in rw (not_there_same v small d filename fresh) d

  -- Take a well-formed partition of at most 2^16 blocks where every other byte is valid, formatted
  -- by `sat_format`, and then any calls in any order of: `sat_write` for a name that no save on it
  -- has; `sat_write` with OVERWRITE_EXISTING_SAVE for a name that one has; `sat_delete` of a save on
  -- it; and writes and deletions that fail since a save of the name is there, none is there, or the
  -- blocks do not suffice. Each write that does not so fail has metadata that fit their fields and
  -- have the name, 1 to 2^30 bytes, a table that fits in the first block, and room for one block
  -- more than it takes, counted without the save that it replaces. Then `sat_read` gives back the
  -- data of each save written last for its name and not deleted since, and `find_save` says
  -- SLINGA_NOT_FOUND for every name whose text in 11 bytes is that of none of them.
  pub sat_read-History :
      (m : Memory) (saves : List Save)
      → History v m saves
      → ((save : Save)
          → Memᴰ save saves
          → sat_read m (some save.filename) (length save.bytes) p ≡ ok save.bytes)
        × ((filename : List ℕ)
            → Fresh filename saves
            → find_save m (some filename) p ≡ err Error.not_found)
  sat_read-History m saves calls = (
    λ save there. reads_held v small (d.held save there),
    λ filename fresh. not_found v m filename (d.complete filename fresh),
  )
    where
      d : Directory v m saves
      d = History-Directory calls
