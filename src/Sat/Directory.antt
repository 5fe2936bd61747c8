-- ===== src/Sat/Directory.antt =====
-- devices/sat/sat.c: the saves of a partition as a list of names and data.
pub mod Writes
pub mod Deletes
pub mod Refused
pub mod History
use libslinga.Prelude.{zero, suc, ℕ, ◌+◌, ◌*◌, ◌/◌, ◌^◌, ◌≤◌, ◌<◌, ◌≡◌, ◌≢◌, refl, arith, List}
use libslinga.Prelude.{true, false, some, ok, length, take, inl, inr, ap, sym, ◌∙◌, Bool-cases}
use mathlib.Core.List.{Memᴰ}
use libslinga.Memory.{Memory}
use libslinga.Sat.Partition.{PartitionInfo}
use libslinga.Sat.Partition.Laws.{view_cong}
use libslinga.Sat.Blocks.{calc_num_blocks}
use libslinga.Sat.Blocks.Layout.{IsPartition, block_address}
use libslinga.Sat.Bitmap.{Bitmap}
use libslinga.Sat.Header.{SaveMetadata, metadata_to_header, header_of_bytes, strncmp_eq}
use libslinga.Sat.Header.{sat_start_block_tag, sat_max_save_name}
use libslinga.Sat.Find.{starts_save}
use libslinga.Sat.Find.Laws.{header_at, is_save, NoSave, read_header_lem}
use libslinga.Sat.Find.Names.{text, strncmp_eq-text}
use libslinga.Sat.Read.{sat_read}
use libslinga.Sat.Overwrite.{finds_it}
use libslinga.Sat.Kept.{SameBlocks, Stored-same}
use libslinga.Sat.Stream.{Chain, room}
use libslinga.Sat.Stream.Save.{Stored}
use libslinga.Sat.Stream.RoundTrip.{least, read_data-Stored}

pub record Save : Type 0 where
  pub filename : List ℕ
  pub bytes : List ℕ

-- Names that differ where the library compares them.
abbrev pub Apart : List ℕ → List ℕ → Type 0
Apart a b = text 11 a ≢ text 11 b

-- None of the saves has the name.
abbrev pub Fresh : List ℕ → List Save → Type 0
Fresh filename saves = (save : Save) → Memᴰ save saves → Apart save.filename filename

-- A name that differs from a save's is not in the header of it.
pub name_differs :
    (a b savename : List ℕ)
    → Apart a b
    → strncmp_eq sat_max_save_name a savename ≡ true
    → strncmp_eq sat_max_save_name b savename ≡ false
name_differs a b savename apart e = elim (Bool-cases (strncmp_eq sat_max_save_name b savename)) [
  | inl hit ↦
      absurd (apart (strncmp_eq-text 11 a savename e ∙ sym (strncmp_eq-text 11 b savename hit)))
  | inr miss ↦ miss
]

module _ {p : PartitionInfo} (v : IsPartition p) where
  -- The save is on the partition: its blocks hold it, with a table that ends in the first of them,
  -- and no other block starts a save of its name.
  pub record Held (m : Memory) (save : Save) : Type 0 where
    pub bitmap : Bitmap
    pub block : ℕ → ℕ
    pub n : ℕ
    pub md : SaveMetadata
    pub chain : Chain v bitmap block n
    pub stored : Stored v block n md save.bytes (length save.bytes) m
    pub sized : length bitmap ≡ v.count / 8
    pub one_table : 30 + 2 * n ≤ room v block
    pub positive : length save.bytes ≢ 0
    pub size_small : length save.bytes ≤ 2 ^ 30
    pub blocks : calc_num_blocks (length save.bytes) p.block_size p.skip_bytes ≡ ok n
    pub past_first : 2 ≤ block 0
    pub named : strncmp_eq sat_max_save_name save.filename (take 11 md.savename) ≡ true
    pub untagged : (j : ℕ) → 1 ≤ j → j < n → (header_at m p (block j)).tag ≢ sat_start_block_tag
    pub only : (c : ℕ) → 2 ≤ c → c < v.count → is_save v m save.filename c ≡ true → c ≡ block 0

  -- The saves are on the partition, and no others are.
  pub record Directory (m : Memory) (saves : List Save) : Type 0 where
    pub held : (save : Save) → Memᴰ save saves → Held m save
    pub complete : (filename : List ℕ) → Fresh filename saves → NoSave v m filename 2 v.count

  module _ (small : v.count ≤ 2 ^ 16) {m : Memory} {save : Save} (h : Held m save) where
    pub space_enough : 30 + 2 * h.n + length save.bytes ≤ h.n * room v h.block
    space_enough = omega (
      arith,
      (least h.chain small h.md save.bytes (length save.bytes) refl h.size_small h.positive h.blocks
          h.sized).0,
    )

    pub some_block : 0 < h.n
    some_block = ground (arith, space_enough)

    pub first_inside : h.block 0 < v.count
    first_inside = h.chain.inside 0 (omega arith)

    pub starts_it : is_save v m save.filename (h.block 0) ≡ true
    unfolding starts_save metadata_to_header
    starts_it = rw h.stored.header (ground (arith, h.named))

    pub reads_held : sat_read m (some save.filename) (length save.bytes) p ≡ ok save.bytes
    unfolding sat_read metadata_to_header
    reads_held =
        rw
          (
            finds_it v m save.filename (h.block 0) h.past_first first_inside starts_it h.only,
            read_header_lem v m (h.block 0),
            size_is,
            read_data-Stored h.chain small h.md save.bytes (length save.bytes) refl h.size_small
                h.positive h.blocks h.sized h.stored,
          )
          refl
      where
        size_is : (header_at m p (h.block 0)).data_size ≡ length save.bytes
        size_is = ap (λ x. x.data_size) h.stored.header

    -- None of its blocks starts a save of another name.
    pub starts_no_other :
        (other : List ℕ)
        → Apart save.filename other
        → (j : ℕ) → j < h.n
        → is_save v m other (h.block j) ≡ false
    unfolding starts_save metadata_to_header
    starts_no_other other apart zero lt =
        rw h.stored.header
          (ground (arith, name_differs save.filename other (take 11 h.md.savename) apart h.named))
    starts_no_other other apart (suc j) lt = ground (arith, h.untagged (suc j) (omega arith) lt)

    -- What leaves its blocks, and the blocks with its name, leaves it held.
    pub Held-same :
        {m' : Memory}
        → SameBlocks h.chain small h.md save.bytes (length save.bytes) space_enough m m'
        → ((c : ℕ)
            → 2 ≤ c
            → c < v.count
            → is_save v m' save.filename c ≡ is_save v m save.filename c)
        → Held m' save
    Held-same {m'} same names = record {
      bitmap = h.bitmap;
      block = h.block;
      n = h.n;
      md = h.md;
      chain = h.chain;
      stored =
          Stored-same h.chain small h.md save.bytes (length save.bytes) space_enough same h.stored;
      sized = h.sized;
      one_table = h.one_table;
      positive = h.positive;
      size_small = h.size_small;
      blocks = h.blocks;
      past_first = h.past_first;
      named = h.named;
      untagged = λ j pos lt e. h.untagged j pos lt (sym (same_tag j lt) ∙ e);
      only = λ c lo hi hit. h.only c lo hi (sym (names c lo hi) ∙ hit);
    }
      where
        same_tag :
            (j : ℕ) → j < h.n → (header_at m' p (h.block j)).tag ≡ (header_at m p (h.block j)).tag
        same_tag j lt =
            ap (λ x. (header_of_bytes x).tag)
              (view_cong m' m (block_address p (h.block j)) p.skip_bytes 0 34
                (λ k lo hi. same j k lt (omega (arith, v.wide))))
