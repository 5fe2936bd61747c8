-- ===== src/Sat/Bitmap.antt =====
-- devices/sat/sat.c, "SAT Bitmap": one bit for each block. The list is the part of g_SAT_bitmap
-- that is in use, so `bitmap_size` is its length. Every operation clears that part first
-- (`clear_bitmap`), so nothing of the global array's old contents is ever read. The array has 1024
-- bytes, enough for 8192 blocks; the largest partition of a driver has 4096.
pub mod Bits
pub mod Laws
pub mod Count
use libslinga.Prelude.{ℕ, zero, suc, ◌+◌, ◌-◌, ◌*◌, ◌/◌, ◌%◌, ◌^◌, List, [], ◌∷◌, Bool, ◌==◌}
use libslinga.Prelude.{if◌then◌else◌, get_or, set, length, replicate, u8, u32, bit_and, bit_or}
use libslinga.Prelude.{Result, ok, err, Error, ◌>>◌, reject, leb, ◌!=◌}
use libslinga.Sat.Partition.{PartitionInfo}

abbrev pub Bitmap : Type 0
Bitmap = List ℕ

-- memset(g_SAT_bitmap, 0, bitmap_size)
abbrev pub clear_bitmap : ℕ → Bitmap
clear_bitmap n = replicate n 0

-- `sizeof(g_SAT_bitmap)`, SAT_MAX_BITMAP
abbrev pub sat_max_bitmap : ℕ
sat_max_bitmap = 1024

unfoldable pub get_bitmap_size : PartitionInfo → ℕ → Result ℕ
get_bitmap_size p max_bitmap_size = do
  reject (max_bitmap_size == 0) Error.invalid_parameter
  reject (p.block_size % 8 != 0) Error.invalid_parameter
  reject (p.partition_size % p.block_size != 0) Error.invalid_parameter
  ok (p.partition_size / p.block_size / 8)

-- `bitmap[byte_index] | 1 << bit_index`, stored into an `unsigned char`
abbrev pub with_bit : ℕ → ℕ → ℕ
with_bit byte bit_index = u8 (bit_or byte (2 ^ bit_index))

unfoldable pub set_bitmap : ℕ → Bitmap → Result Bitmap
set_bitmap block_index bitmap = do
  reject (length bitmap == 0) Error.invalid_parameter
  reject (leb (length bitmap) (block_index / 8)) Error.invalid_parameter
  ok (set bitmap (block_index / 8) (with_bit (get_or bitmap (block_index / 8) 0) (block_index % 8)))

-- `(bitmap[i / 8] & (1 << i % 8)) != 0`
abbrev pub test_bit : ℕ → ℕ → Bool
test_bit byte bit_index = bit_and byte (2 ^ bit_index) != 0

abbrev pub is_set : Bitmap → ℕ → Bool
is_set bitmap i = test_bit (get_or bitmap (i / 8) 0) (i % 8)

-- for(i ..; i < bitmap_size * 8; i++), with `left` indices to go
pub scan_bitmap : Bitmap → ℕ → ℕ → Result ℕ
scan_bitmap bitmap i zero = err Error.not_found
scan_bitmap bitmap i (suc left) =
    let rest = scan_bitmap bitmap (i + 1) left in if is_set bitmap i then ok i else rest

unfoldable pub get_next_block_bitmap : ℕ → Bitmap → Result ℕ
unfolding scan_bitmap
get_next_block_bitmap block_index bitmap = do
  reject (length bitmap == 0) Error.invalid_parameter
  let i = u32 (block_index + 1)
  scan_bitmap bitmap i (u32 (length bitmap * 8) - i)

-- NIBBLE_LOOKUP_TABLE
abbrev pub nibble_lookup_table : List ℕ
nibble_lookup_table = 0 ∷ 1 ∷ 1 ∷ 2 ∷ 1 ∷ 2 ∷ 2 ∷ 3 ∷ 1 ∷ 2 ∷ 2 ∷ 3 ∷ 2 ∷ 3 ∷ 3 ∷ 4 ∷ []

abbrev pub count_byte : ℕ → ℕ
count_byte byte =
    get_or nibble_lookup_table (bit_and byte 0x0f) 0 + get_or nibble_lookup_table (byte / 2 ^ 4) 0

pub count_bytes : ℕ → List ℕ → ℕ
count_bytes count [] = count
count_bytes count (byte ∷ rest) = count_bytes (u32 (count + count_byte byte)) rest

unfoldable pub count_bitmap : Bitmap → Result ℕ
unfolding count_bytes
count_bitmap bitmap = do
  reject (length bitmap == 0) Error.invalid_parameter
  ok (count_bytes 0 bitmap)

-- `~byte` is taken on `int` and cut to an `unsigned char`.
abbrev pub invert_byte : ℕ → ℕ
invert_byte byte = u8 (2 ^ 32 - 1 - byte)

pub invert_bytes : List ℕ → List ℕ
invert_bytes [] = []
invert_bytes (byte ∷ rest) = invert_byte byte ∷ invert_bytes rest

unfoldable pub invert_bitmap : Bitmap → Result Bitmap
unfolding invert_bytes
invert_bitmap bitmap = do
  reject (length bitmap == 0) Error.invalid_parameter
  ok (invert_bytes bitmap)
