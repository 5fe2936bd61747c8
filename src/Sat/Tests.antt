-- ===== src/Sat/Tests.antt =====
-- devices/sat/sat.c: runs on a small partition, and the theorems on SAT at concrete inputs.
pub mod Writing
pub mod Fragmented
pub mod Sessions
pub mod Histories
use libslinga.Sat.Overwrite.{sat_write-sat_delete}
use libslinga.Sat.Write.Ends.{sat_write-Ends}
use libslinga.Sat.Read.Ends.{sat_read-Ends}
use libslinga.Sat.Read.{sat_read}
use libslinga.Prelude.{diverge, leb, ◌≢◌, ℕ, ◌≡◌, ◌≤◌, ◌<◌, refl, arith, inr, true, List, [], ◌∷◌}
use libslinga.Prelude.{◌++◌, none, some, ok, err, Error, replicate, get_or, each_below}
use libslinga.Prelude.{each_below_at, same, ltb, ◌==◌, ◌||◌, ◌↔◌, not, u32, ◌^◌}
use libslinga.Sat.Write.{write_header, sat_write}
use libslinga.Sat.Bitmap.{Bitmap, get_next_block_bitmap, count_bitmap, invert_bitmap}
use libslinga.Sat.Header.{SaveMetadata, StartBlockHeader, header_bytes, header_of_bytes}
use libslinga.Sat.Header.{strncmp_eq}
use libslinga.Sat.Blocks.{calc_num_blocks}
use libslinga.Sat.Walk.{sat_list_saves, sat_get_used_blocks, walk_partition}
use libslinga.Sat.Read.Query.{QueryOutcome, sat_query_file-QueryOutcome}
use libslinga.Memory.{Memory, store}
use libslinga.Sat.Partition.{PartitionInfo, read_from_partition, write_to_partition}
use libslinga.Sat.Partition.Bytes.{fill, view}
use libslinga.Sat.Partition.Laws.{Misses, read-write_to_partition}
use libslinga.Sat.Bitmap.Laws.{IsBytes, SetOutcome, set_bitmap-Adds, FirstSet}
use libslinga.Sat.Bitmap.Laws.{get_next_block_bitmap-FirstSet}
use libslinga.Sat.Bitmap.Count.{size_of, Complements, count_bitmap-size_of}
use libslinga.Sat.Bitmap.Count.{invert_bitmap-Complements}
use libslinga.Sat.Blocks.Count.{LeastBlocks, calc_num_blocks-LeastBlocks}
use libslinga.Sat.Blocks.Layout.{IsPartition, block_address, BlockIndex, convert_block_index_lem}
use libslinga.Sat.Find.{starts_save, find_save}
use libslinga.Sat.Find.Laws.{header_at, FirstSave, find_save-FirstSave, NoSave}
use libslinga.Sat.Delete.{sat_delete}
use libslinga.Sat.Delete.Laws.{DeleteOutcome, sat_delete_lem}
use libslinga.Sat.Format.{sat_format}
use libslinga.Sat.Format.Laws.{Formats, sat_format-Formats}
use libslinga.Sat.Walk.Empty.{sat_format_empties}
use libslinga.Sat.Write.Header.{IsMetadata, Writes, write_header-Writes}
use libslinga.Sat.Find.Names.{text, starts_save_lem}
use libslinga.Sat.Write.Guards.{LosesOld, sat_write-file_exists, sat_write-LosesOld}
use libslinga.Sat.Walk.Used.{tagged, GoodSizes, counted, tally, save_at, blocks_at}
use libslinga.Sat.Walk.Used.{walk_partition-tally}

abbrev pub small : PartitionInfo
small = record { partition_buf = 4096; partition_size = 2048; block_size = 128; skip_bytes = 1 }

abbrev pub small_layout : IsPartition small
small_layout = record {
  count = 16;
  two_blocks = omega arith;
  whole = refl;
  not_null = omega arith;
  good_skip = inr refl;
  aligned = refl;
  valid_aligned = refl;
  wide = omega arith;
  small = omega arith;
}

abbrev blank : Memory
blank a = 0

abbrev pub name : List ℕ
name = 65 ∷ 66 ∷ []

abbrev pub note : SaveMetadata
note = record {
  filename = replicate 33 0;
  savename = 65 ∷ 66 ∷ replicate 11 0;
  comment = 67 ∷ replicate 12 0;
  language = 1;
  timestamp = 1000;
  data_size = 3;
  block_size = 0;
}

abbrev pub payload : List ℕ
payload = replicate 50 7 ++ (1 ∷ 2 ∷ 3 ∷ [])

abbrev first_header : StartBlockHeader
first_header = record {
  tag = 0x80000000;
  savename = 65 ∷ 66 ∷ replicate 9 0;
  language = 1;
  comment = 67 ∷ replicate 9 0;
  timestamp = 1000;
  data_size = 53;
}

-- A partition where block 2 starts a save of the name "AB".
abbrev pub saved : Memory
saved = fill (block_address small 2) 1 0 (λ k. get_or (header_bytes first_header) k 0) 0 34 blank

is_save_table :
    each_below 16 (λ c. ltb c 2 || same (starts_save name (header_at saved small c)) (c == 2))
    ≡ true
unfolding each_below fill store header_bytes header_of_bytes view starts_save strncmp_eq
is_save_table = refl

saved_once : (c : ℕ) → 2 ≤ c → c < 16 → starts_save name (header_at saved small c) ≡ true → c ≡ 2
saved_once c lo hi hit = ground (arith, each_below_at 16 _ c is_save_table hi, hit)

saved_there : starts_save name (header_at saved small 2) ≡ true
unfolding fill store header_bytes header_of_bytes view starts_save strncmp_eq
saved_there = refl

read-write_to_partition_example :
    let (r, m') = write_to_partition 4096 5 (7 ∷ 8 ∷ 9 ∷ []) 3 1 blank in
    (r ≡ ok tt)
    × (read_from_partition m' 4096 5 3 1 ≡ ok (7 ∷ 8 ∷ 9 ∷ []))
    × ((a : ℕ) → Misses 4096 1 5 8 a → m' a ≡ blank a)
read-write_to_partition_example = read-write_to_partition 4096 5 1 (7 ∷ 8 ∷ 9 ∷ []) blank (record {
  not_null = omega arith;
  not_empty = omega arith;
  good_skip = inr refl;
  in_range = omega arith;
})

find_save-FirstSave_example :
    FirstSave small_layout saved name 2 (find_save saved (some name) small)
find_save-FirstSave_example = find_save-FirstSave small_layout saved name

sat_delete_lem_example : DeleteOutcome small_layout saved name (sat_delete (some name) small saved)
sat_delete_lem_example = sat_delete_lem small_layout saved name

sat_format-Formats_example :
    (m' : Memory) × (sat_format small saved ≡ (ok tt, m')) × Formats small_layout saved m'
sat_format-Formats_example = sat_format-Formats small_layout saved

sat_format_empties_example :
    let (r, m') = sat_format small saved in
    (r ≡ ok tt)
    × (find_save m' (some name) small ≡ err Error.not_found)
    × (sat_list_saves m' small none 4
        ≡ ok (record { saves = none; saves_found = 0; blocks_found = 0 }))
    × (sat_get_used_blocks m' small ≡ ok 0)
sat_format_empties_example = sat_format_empties small_layout refl saved name none 4

calc_num_blocks-LeastBlocks_example : LeastBlocks 53 60 (calc_num_blocks 53 128 1)
calc_num_blocks-LeastBlocks_example =
    calc_num_blocks-LeastBlocks 53 128 1 (omega arith) (omega arith) (inr refl) refl (omega arith)
      (omega arith)

convert_block_index_lem_example : BlockIndex small_layout 3
convert_block_index_lem_example = convert_block_index_lem small_layout 3

abbrev some_blocks : Bitmap
some_blocks = 0 ∷ 5 ∷ []

some_blocks-IsBytes : IsBytes some_blocks
some_blocks-IsBytes = (omega arith, (omega arith, tt))

get_next_block_bitmap-FirstSet_example :
    FirstSet some_blocks 9 16 (get_next_block_bitmap 8 some_blocks)
get_next_block_bitmap-FirstSet_example = get_next_block_bitmap-FirstSet 8 some_blocks (omega arith)

set_bitmap-Adds_example : SetOutcome 9 some_blocks
set_bitmap-Adds_example = set_bitmap-Adds 9 some_blocks some_blocks-IsBytes

count_bitmap-size_of_example : count_bitmap some_blocks ≡ ok (size_of some_blocks)
count_bitmap-size_of_example =
    count_bitmap-size_of some_blocks (omega arith) some_blocks-IsBytes (omega arith)

invert_bitmap-Complements_example :
    (bitmap' : Bitmap) × (invert_bitmap some_blocks ≡ ok bitmap') × Complements some_blocks bitmap'
invert_bitmap-Complements_example =
    invert_bitmap-Complements some_blocks (omega arith) some_blocks-IsBytes

pub note-IsMetadata : IsMetadata note
note-IsMetadata = record {
  name_array = refl;
  comment_array = refl;
  language_fits = omega arith;
  timestamp_fits = omega arith;
}

write_header-Writes_example :
    (m' : Memory) × (write_header 2 53 note small blank ≡ (ok tt, m'))
    × Writes small_layout 2 53 note blank m'
write_header-Writes_example =
    write_header-Writes small_layout 2 53 note blank (omega arith) (omega arith) (omega arith)
      note-IsMetadata

starts_save_lem_example :
    (starts_save name first_header ≡ true)
    ↔ ((first_header.tag ≡ 0x80000000) × (text 11 name ≡ text 11 first_header.savename))
starts_save_lem_example = starts_save_lem name first_header

sat_write-file_exists_example :
    sat_write 0 (some name) (some note) (some payload) 53 small saved
    ≡ (err Error.file_exists, saved)
sat_write-file_exists_example =
    sat_write-file_exists small_layout saved name note payload 53 0 2 (omega arith) (omega arith)
      (omega arith) saved_there refl

pub two_blocks : calc_num_blocks 53 128 1 ≡ ok 2
unfolding calc_num_blocks
two_blocks = refl

none_before : NoSave small_layout saved name 2 2
none_before k lo hi = absurd (omega arith)

sat_write-LosesOld_example : LosesOld small_layout saved name note payload 53 2 2 2
sat_write-LosesOld_example =
    sat_write-LosesOld small_layout saved name note payload 53 2 2 2 (omega arith) (omega arith)
      (omega arith) saved_there none_before refl two_blocks

sizes_table :
    each_below 16
      (λ b. not (tagged small_layout saved b) || (header_at saved small b).data_size == 53)
    ≡ true
unfolding each_below fill store header_bytes header_of_bytes view
sizes_table = refl

saved-GoodSizes : GoodSizes small_layout saved
saved-GoodSizes b lo hi start = (not_zero known, not_large known)
  where
    known : (header_at saved small b).data_size ≡ 53
    known = ground (arith, each_below_at 16 _ b sizes_table hi, start)

    not_zero : {n : ℕ} → n ≡ 53 → n ≢ 0
    not_zero e = omega arith

    not_large : {n : ℕ} → n ≡ 53 → n ≤ 2 ^ 30
    not_large e = omega arith

walk_partition-tally_example :
    (walk_partition saved small none 0
      ≡ ok (
          counted small_layout saved
            (u32 (tally (save_at small_layout saved) 2 14))
            (u32 (tally (blocks_at small_layout saved) 2 14))))
    × (sat_get_used_blocks saved small ≡ ok (u32 (tally (blocks_at small_layout saved) 2 14)))
walk_partition-tally_example = walk_partition-tally small_layout saved saved-GoodSizes

sat_query_file-QueryOutcome_example : QueryOutcome small_layout saved name note 60
sat_query_file-QueryOutcome_example = sat_query_file-QueryOutcome small_layout saved name note 60

read_sizes_table : each_below 16 (λ b. leb (header_at saved small b).data_size (2 ^ 30)) ≡ true
unfolding each_below fill store header_bytes header_of_bytes view
read_sizes_table = refl

sat_read-Ends_example : sat_read saved (some name) 53 small ≢ diverge
sat_read-Ends_example =
    sat_read-Ends small_layout saved name 53
      (λ b h hit. ground (arith, each_below_at 16 _ b read_sizes_table h))

sat_write-Ends_example :
    (sat_write 2 (some name) (some note) (some payload) 53 small saved).0 ≢ diverge
sat_write-Ends_example =
    sat_write-Ends small_layout 2 name note payload 53 (omega arith) saved
      (λ b lo hi tag. ground (arith, each_below_at 16 _ b read_sizes_table hi))

sat_write-sat_delete_example :
    sat_write 2 (some name) (some note) (some payload) 53 small saved
    ≡ sat_write 0
        (some name)
        (some note)
        (some payload)
        53
        small
        (sat_delete (some name) small saved).1
sat_write-sat_delete_example =
    sat_write-sat_delete small_layout saved name 2 (omega arith) (omega arith) saved_there
      saved_once 2 0 note payload 53 (omega arith) refl
