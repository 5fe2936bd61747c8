-- ===== src/Sat/Header.antt =====
-- devices/sat/sat.c, "Parsing Save and Metadata": the header of a save's first block, and the
-- metadata that callers see. The Saturn's CPU is big-endian, and the struct is packed, so a header
-- is 34 bytes: tag 4, savename 11, language 1, comment 10, timestamp 4, data_size 4.
pub mod Laws
use libslinga.Prelude.{ℕ, zero, suc, ◌+◌, ◌-◌, ◌*◌, ◌/◌, ◌^◌, List, [], ◌∷◌, ◌++◌, Bool, true}
use libslinga.Prelude.{false, ◌==◌, if◌then◌else◌, get_or, take, drop, length, u8, Result, ok}
use libslinga.Prelude.{◌>>=◌}
use libslinga.Memory.{Memory}
use libslinga.Sat.Partition.{read_from_partition}
use libslinga.Sat.Blocks.{header_size}

abbrev pub sat_max_save_name : ℕ
sat_max_save_name = 11

abbrev pub sat_max_save_comment : ℕ
sat_max_save_comment = 10

abbrev pub max_savename : ℕ
max_savename = 12

abbrev pub max_comment : ℕ
max_comment = 11

abbrev pub max_filename : ℕ
max_filename = 32

abbrev pub sat_start_block_tag : ℕ
sat_start_block_tag = 0x80000000

abbrev pub sat_continue_block_tag : ℕ
sat_continue_block_tag = 0

-- `SAT_START_BLOCK_HEADER`
pub record StartBlockHeader : Type 0 where
  pub tag : ℕ
  pub savename : List ℕ
  pub language : ℕ
  pub comment : List ℕ
  pub timestamp : ℕ
  pub data_size : ℕ

-- `SAVE_METADATA`; the arrays are 33, 13 and 13 bytes long.
pub record SaveMetadata : Type 0 where
  pub filename : List ℕ
  pub savename : List ℕ
  pub comment : List ℕ
  pub language : ℕ
  pub timestamp : ℕ
  pub data_size : ℕ
  pub block_size : ℕ

-- An `unsigned int` and an `unsigned short` in memory.
abbrev pub word_bytes : ℕ → List ℕ
word_bytes n = u8 (n / 2 ^ 24) ∷ u8 (n / 2 ^ 16) ∷ u8 (n / 2 ^ 8) ∷ u8 n ∷ []

abbrev pub word_at : List ℕ → ℕ → ℕ
word_at raw i =
    get_or raw i 0 * 2 ^ 24
    + get_or raw (i + 1) 0 * 2 ^ 16
    + get_or raw (i + 2) 0 * 2 ^ 8
    + get_or raw (i + 3) 0

abbrev pub short_bytes : ℕ → List ℕ
short_bytes n = u8 (n / 2 ^ 8) ∷ u8 n ∷ []

abbrev pub short_at : List ℕ → ℕ → ℕ
short_at raw i = get_or raw i 0 * 2 ^ 8 + get_or raw (i + 1) 0

-- The struct as the bytes it stands for, and back.
unfoldable pub header_bytes : StartBlockHeader → List ℕ
header_bytes h =
    word_bytes h.tag
    ++ (h.savename
        ++ (h.language ∷ (h.comment ++ (word_bytes h.timestamp ++ word_bytes h.data_size))))

unfoldable pub header_of_bytes : List ℕ → StartBlockHeader
header_of_bytes raw = record {
  tag = word_at raw 0;
  savename = take 11 (drop 4 raw);
  language = get_or raw 15 0;
  comment = take 10 (drop 16 raw);
  timestamp = word_at raw 26;
  data_size = word_at raw 30;
}

-- memcpy of `bytes` over the start of an array
abbrev pub overwrite : List ℕ → List ℕ → List ℕ
overwrite bytes old = bytes ++ drop (length bytes) old

-- the characters of a C string, up to its terminator
unfoldable pub c_string : List ℕ → List ℕ
c_string [] = []
c_string (c ∷ cs) = let rest = c_string cs in if c == 0 then [] else c ∷ rest

-- ".BUP"
abbrev pub bup : List ℕ
bup = b'.' ∷ b'B' ∷ b'U' ∷ b'P' ∷ []

-- snprintf(dst, MAX_FILENAME, "%s.BUP", savename)
abbrev pub bup_name : List ℕ → List ℕ
bup_name savename = take (max_filename - 1) (c_string savename ++ bup) ++ (0 ∷ [])

-- Both memcpys are one byte longer than the header's field, so the raw header is what is read.
unfoldable pub metadata_of_raw : SaveMetadata → List ℕ → SaveMetadata
metadata_of_raw old raw =
    let h = header_of_bytes raw in
    let savename = take max_savename (drop 4 raw) ++ (0 ∷ []) in
    record {
      filename = take max_filename (overwrite (bup_name savename) old.filename) ++ (0 ∷ []);
      savename = savename;
      comment = overwrite (take max_comment (drop 16 raw) ++ (0 ∷ [])) old.comment;
      language = h.language;
      timestamp = h.timestamp;
      data_size = h.data_size;
      block_size = 0;
    }

-- `old` is what the caller's struct held before.
unfoldable pub copy_metadata : SaveMetadata → Memory → ℕ → ℕ → Result SaveMetadata
copy_metadata old m save skip_bytes = do
  raw ← read_from_partition m save 0 header_size skip_bytes
  ok (metadata_of_raw old raw)

unfoldable pub metadata_to_header : SaveMetadata → StartBlockHeader
metadata_to_header metadata = record {
  tag = sat_start_block_tag;
  savename = take sat_max_save_name metadata.savename;
  language = metadata.language;
  comment = take sat_max_save_comment metadata.comment;
  timestamp = metadata.timestamp;
  data_size = metadata.data_size;
}

-- `read_from_partition` into a header struct
unfoldable pub read_header : Memory → ℕ → ℕ → Result StartBlockHeader
read_header m block skip_bytes = do
  raw ← read_from_partition m block 0 header_size skip_bytes
  ok (header_of_bytes raw)

-- the C library's strncmp(a, b, n) == 0; past its end a string reads as its terminator
unfoldable pub strncmp_eq : ℕ → List ℕ → List ℕ → Bool
strncmp_eq zero a b = true
strncmp_eq (suc n) a b =
    let rest = strncmp_eq n (drop 1 a) (drop 1 b) in
    if get_or a 0 0 == get_or b 0 0 then (if get_or a 0 0 == 0 then true else rest) else false
