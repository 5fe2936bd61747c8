-- ===== src/Sat/Tests/Writing.antt =====
-- devices/sat/sat.c: writes of saves on a small partition, and what is read after them.
use libslinga.Sat.Stream.{Chain}
use libslinga.Sat.Stream.Save.{Stores, write_save-Stores}
use libslinga.Sat.Read.{sat_query_file, sat_read}
use libslinga.Sat.Write.{write_save, free_blocks_for, sat_write}
use libslinga.Sat.Find.Laws.{header_at, NoSave}
use libslinga.Sat.Header.{read_header, SaveMetadata, header_bytes}
use libslinga.Sat.Header.{header_of_bytes, strncmp_eq}
use libslinga.Sat.RoundTrip.{sat_query_file-sat_write, sat_read-sat_write}
use libslinga.Prelude.{false, zero, suc, ◌+◌, ℕ, ◌≡◌, ◌<◌, refl, arith, true, [], ◌∷◌, some}
use libslinga.Prelude.{ok, replicate, each_below, each_below_at, not}
use libslinga.Sat.Bitmap.{set_bitmap, get_bitmap_size, get_next_block_bitmap, count_bitmap}
use libslinga.Sat.Bitmap.{invert_bitmap}
use libslinga.Sat.Table.{read_sat_table}
use libslinga.Sat.Blocks.{convert_address_to_block_index, convert_block_index_to_address}
use libslinga.Sat.Blocks.{calc_num_blocks}
use libslinga.Sat.Walk.Busy.{Covers, walk_partition_bitmap-Covers}
use libslinga.Sat.Write.Free.{FreeBlocks, free_blocks_for-FreeBlocks}
use libslinga.Sat.Write.Safe.{Leaves, OtherSave, sat_write-Leaves}
use libslinga.Sat.Walk.{walk_partition_bitmap}
use libslinga.Memory.{Memory, store}
use libslinga.Sat.Partition.{read_from_partition}
use libslinga.Sat.Partition.Bytes.{fill, view}
use libslinga.Sat.Find.{starts_save, find_save}
use libslinga.Sat.Write.Header.{IsMetadata}
use libslinga.Sat.Tests.{small, small_layout, name, note, payload, saved, note-IsMetadata}
use libslinga.Sat.Tests.{two_blocks}
use libslinga.Sat.Others.{find_save-sat_write}

-- The first two blocks and the save's.
busy_blocks : walk_partition_bitmap saved (0 ∷ 0 ∷ []) small ≡ ok (7 ∷ 0 ∷ [])
unfolding walk_partition_bitmap fill store header_bytes header_of_bytes view read_from_partition
    set_bitmap read_sat_table read_header calc_num_blocks convert_address_to_block_index
    convert_block_index_to_address
busy_blocks = refl

walk_partition_bitmap-Covers_example : Covers small_layout saved (0 ∷ 0 ∷ []) (7 ∷ 0 ∷ [])
walk_partition_bitmap-Covers_example =
    walk_partition_bitmap-Covers small_layout saved (0 ∷ 0 ∷ []) (7 ∷ 0 ∷ [])
      (omega arith, (omega arith, tt)) busy_blocks

room_for_two : free_blocks_for saved small 2 ≡ ok (248 ∷ 255 ∷ [])
unfolding free_blocks_for get_bitmap_size invert_bitmap count_bitmap
room_for_two = rw busy_blocks refl

free_blocks_for-FreeBlocks_example : FreeBlocks small_layout saved 2 (248 ∷ 255 ∷ [])
free_blocks_for-FreeBlocks_example =
    free_blocks_for-FreeBlocks small_layout saved 2 (248 ∷ 255 ∷ []) room_for_two

sat_write-Leaves_example :
    Leaves small_layout
      (OtherSave small_layout saved (67 ∷ []))
      saved
      (sat_write 0 (some (67 ∷ [])) (some note) (some payload) 53 small saved).1
sat_write-Leaves_example = sat_write-Leaves small_layout 0 (67 ∷ []) note payload 53 saved

-- The free blocks of `saved`, in order.
abbrev third : ℕ → ℕ
third i = 3 + i

third-Chain : Chain small_layout (248 ∷ 255 ∷ []) third 2
unfolding get_next_block_bitmap
third-Chain = record {
  not_empty = omega arith;
  first = refl;
  next = steps;
  inside = λ i le. omega arith;
}
  where
    steps : (i : ℕ) → i < 2 → get_next_block_bitmap (3 + i) (248 ∷ 255 ∷ []) ≡ ok (3 + (i + 1))
    steps zero h = refl
    steps (suc zero) h = refl
    steps (suc (suc i)) h = absurd (omega arith)

write_save-Stores_example :
    (m' : Memory) × (write_save note payload 53 small 2 (248 ∷ 255 ∷ []) saved ≡ (ok tt, m'))
    × Stores third-Chain (omega arith) note payload 53 saved m'
write_save-Stores_example =
    write_save-Stores third-Chain (omega arith) note payload 53 saved (omega arith) (omega arith)
      (omega arith) note-IsMetadata

-- A save of another name.
abbrev second_note : SaveMetadata
second_note = record note { savename = 67 ∷ replicate 12 0 }

second_note-IsMetadata : IsMetadata second_note
second_note-IsMetadata = record {
  name_array = refl;
  comment_array = refl;
  language_fits = omega arith;
  timestamp_fits = omega arith;
}

new_name_table : each_below 16 (λ c. not (starts_save (67 ∷ []) (header_at saved small c))) ≡ true
unfolding each_below fill store header_bytes header_of_bytes view starts_save strncmp_eq
new_name_table = refl

new_name : NoSave small_layout saved (67 ∷ []) 2 16
new_name c lo hi = ground (arith, each_below_at 16 _ c new_name_table hi)

room_for_three : free_blocks_for saved small (2 + 1) ≡ ok (248 ∷ 255 ∷ [])
unfolding free_blocks_for get_bitmap_size invert_bitmap count_bitmap
room_for_three = rw busy_blocks refl

same_name : strncmp_eq 11 (67 ∷ []) (67 ∷ replicate 10 0) ≡ true
unfolding strncmp_eq
same_name = refl

sat_read-sat_write_example :
    (m' : Memory) × (sat_write 0 (some (67 ∷ [])) (some second_note) (some payload) 53 small saved
      ≡ (ok tt, m'))
    × (sat_read m' (some (67 ∷ [])) 53 small ≡ ok payload)
sat_read-sat_write_example =
    sat_read-sat_write small_layout (omega arith) saved (67 ∷ []) second_note payload 53 2
      (248 ∷ 255 ∷ []) refl (omega arith) (omega arith) second_note-IsMetadata same_name new_name
      two_blocks room_for_three 0

other_name : strncmp_eq 11 name (67 ∷ replicate 10 0) ≡ false
unfolding strncmp_eq
other_name = refl

find_save-sat_write_example :
    (m' : Memory) × (sat_write 0 (some (67 ∷ [])) (some second_note) (some payload) 53 small saved
      ≡ (ok tt, m'))
    × (find_save m' (some name) small ≡ find_save saved (some name) small)
find_save-sat_write_example =
    find_save-sat_write small_layout (omega arith) saved (67 ∷ []) second_note payload 53 2
      (248 ∷ 255 ∷ []) refl (omega arith) (omega arith) second_note-IsMetadata new_name two_blocks
      room_for_three name other_name 0

sat_query_file-sat_write_example :
    (m' : Memory) × (sat_write 0 (some (67 ∷ [])) (some second_note) (some payload) 53 small saved
      ≡ (ok tt, m'))
    × (md' : SaveMetadata) × (sat_query_file m' (some (67 ∷ [])) small note ≡ ok md')
    × (md'.language ≡ 1)
    × (md'.timestamp ≡ 1000)
    × (md'.data_size ≡ 53)
sat_query_file-sat_write_example =
    sat_query_file-sat_write small_layout (omega arith) saved (67 ∷ []) second_note payload 53 2
      (248 ∷ 255 ∷ []) refl (omega arith) (omega arith) second_note-IsMetadata same_name new_name
      two_blocks room_for_three 0 note
