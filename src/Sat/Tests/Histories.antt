-- ===== src/Sat/Tests/Histories.antt =====
-- devices/sat/sat.c: a small partition that is formatted, and saves that are written and deleted.
use libslinga.Prelude.{take, ℕ, ◌≡◌, refl, arith, List, [], ◌∷◌, some, ok, err, Error, length}
use libslinga.Prelude.{true}
use mathlib.Core.List.{Memᴰ}
use mathlib.Core.List.Memᴰ
use libslinga.Memory.{Memory, store}
use libslinga.Sat.Partition.{read_from_partition, memset_partition, write_to_partition}
use libslinga.Sat.Bitmap.{set_bitmap, get_bitmap_size, count_bitmap, invert_bitmap}
use libslinga.Sat.Header.{read_header, strncmp_eq}
use libslinga.Sat.Find.{find_save}
use libslinga.Sat.Format.{sat_format}
use libslinga.Sat.Walk.{walk_partition_bitmap}
use libslinga.Sat.Read.{sat_read}
use libslinga.Sat.Write.{sat_write, free_blocks_for}
use libslinga.Sat.Directory.{Save, Fresh}
use libslinga.Sat.Directory.Writes.{Fits}
use libslinga.Sat.Directory.History.{History, sat_read-History}
use libslinga.Sat.Tests.{small, small_layout, name, note, payload, blank, note-IsMetadata}
use libslinga.Sat.Tests.{two_blocks}

abbrev formatted : Memory
formatted = (sat_format small blank).1

room_formatted : free_blocks_for formatted small 3 ≡ ok (252 ∷ 255 ∷ [])
unfolding free_blocks_for get_bitmap_size invert_bitmap count_bitmap walk_partition_bitmap
    read_from_partition set_bitmap read_header sat_format memset_partition write_to_partition store
room_formatted = refl

abbrev first_save : Save
first_save = record { filename = name; bytes = payload }

name_given : strncmp_eq 11 name (take 11 note.savename) ≡ true
unfolding strncmp_eq
name_given = refl

first_save-Fits : Fits small_layout formatted note first_save
first_save-Fits = record {
  n = 2;
  free = 252 ∷ 255 ∷ [];
  fits = note-IsMetadata;
  named = name_given;
  positive = omega arith;
  size_small = omega arith;
  blocks = two_blocks;
  space = room_formatted;
  one_table = omega arith;
}

abbrev with_first : Memory
with_first = (sat_write 0 (some name) (some note) (some payload) 53 small formatted).1

-- The save is written, and cannot be written again.
written_once :
    History small_layout
      (sat_write 0 (some name) (some note) (some payload) 1 small with_first).1
      (first_save ∷ [])
written_once =
    History.refused
      (History.written (History.formatted blank) 0 note first_save first_save-Fits
        (λ save there. absurd (Memᴰ.not-nil there)))
      0 note payload 1 first_save (Memᴰ.head refl) (omega arith) refl

sat_read-History_example :
    let m = (sat_write 0 (some name) (some note) (some payload) 1 small with_first).1 in
    ((save : Save)
      → Memᴰ save (first_save ∷ [])
      → sat_read m (some save.filename) (length save.bytes) small ≡ ok save.bytes)
    × ((filename : List ℕ)
        → Fresh filename (first_save ∷ [])
        → find_save m (some filename) small ≡ err Error.not_found)
sat_read-History_example =
    sat_read-History small_layout (omega arith) refl _ (first_save ∷ []) written_once
