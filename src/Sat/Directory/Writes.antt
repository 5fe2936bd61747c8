-- ===== src/Sat/Directory/Writes.antt =====
-- devices/sat/sat.c: `sat_write` of a new save adds it to the directory.
use libslinga.Prelude.{Result, ℕ, ◌+◌, ◌*◌, ◌^◌, ◌≤◌, ◌<◌, ◌≡◌, ◌≢◌, refl, arith, List, ◌∷◌, true}
use libslinga.Prelude.{some, ok, length, take, ◌∙◌, sym}
use native.Mathlib.Decide.{ℕ_discrete}
use mathlib.Core.List.{Memᴰ}
use libslinga.Memory.{Memory}
use libslinga.Sat.Partition.{PartitionInfo}
use libslinga.Sat.Blocks.{calc_num_blocks}
use libslinga.Sat.Blocks.Layout.{IsPartition}
use libslinga.Sat.Bitmap.{Bitmap}
use libslinga.Sat.Header.{SaveMetadata, strncmp_eq, sat_max_save_name}
use libslinga.Sat.Find.Laws.{is_save, NoSave}
use libslinga.Sat.Write.{sat_write, free_blocks_for}
use libslinga.Sat.Write.Header.{IsMetadata}
use libslinga.Sat.Write.Free.{FreeBlocks}
use libslinga.Sat.Stream.{Chain, room}
use libslinga.Sat.Stream.Save.{Stores}
use libslinga.Sat.Stream.FreeChain.{nth_block}
use libslinga.Sat.Stream.Headers.{no_new_tag}
use libslinga.Sat.Stream.Written.{found_free, chain, there, sat_write-Stores}
use libslinga.Sat.RoundTrip.{others_not}
use libslinga.Sat.Others.{same_saves}
use libslinga.Sat.Kept.{sat_write-same}
use libslinga.Sat.Directory.{Save, Apart, Fresh, Held, Directory, name_differs, space_enough}
use libslinga.Sat.Directory.{starts_no_other, Held-same}

-- There is room for a save: for one block more than it takes, with a table that fits in the first.
-- The metadata have its name, and fit their fields.
pub record Fits {p : PartitionInfo} (v : IsPartition p) (m : Memory) (md : SaveMetadata)
    (save : Save) : Type 0 where
  pub n : ℕ
  pub free : Bitmap
  pub fits : IsMetadata md
  pub named : strncmp_eq sat_max_save_name save.filename (take 11 md.savename) ≡ true
  pub positive : length save.bytes ≢ 0
  pub size_small : length save.bytes ≤ 2 ^ 30
  pub blocks : calc_num_blocks (length save.bytes) p.block_size p.skip_bytes ≡ ok n
  pub space : free_blocks_for m p (n + 1) ≡ ok free
  pub one_table : 30 + 2 * n ≤ room v (nth_block free)

module _ {p : PartitionInfo} (v : IsPartition p) (small : v.count ≤ 2 ^ 16) {m : Memory}
    {saves : List Save} (d : Directory v m saves) (md : SaveMetadata) (save : Save)
    (w : Fits v m md save) (fresh : Fresh save.filename saves) (flags : ℕ) where
  abbrev new_name : NoSave v m save.filename 2 v.count
  new_name = d.complete save.filename fresh

  abbrev free_chain : Chain v w.free (nth_block w.free) w.n
  free_chain = chain v m w.n w.free w.space

  free_blocks : FreeBlocks v m (w.n + 1) w.free
  free_blocks = found_free v m w.n w.free w.space

  abbrev write : Result (Unit {0}) × Memory
  write = sat_write flags (some save.filename) (some md) (some save.bytes) (length save.bytes) p m

  module _ {m' : Memory} (ran : write ≡ (ok tt, m'))
      (s : Stores free_chain small md save.bytes (length save.bytes) m m') where
    -- The blocks that start a save of another name.
    names_same :
        (other : List ℕ)
        → Apart save.filename other
        → (c : ℕ) → 2 ≤ c
        → c < v.count
        → is_save v m' other c ≡ is_save v m other c
    names_same other apart =
        same_saves v small m save.filename md save.bytes (length save.bytes) w.n w.free refl
          w.size_small w.positive w.fits new_name w.blocks w.space other
          (name_differs save.filename other (take 11 md.savename) apart w.named) s

    new-Held : Held v m' save
    new-Held = record {
      bitmap = w.free;
      block = nth_block w.free;
      n = w.n;
      md = md;
      chain = free_chain;
      stored = s.stored;
      sized = free_blocks.sized;
      one_table = w.one_table;
      positive = w.positive;
      size_small = w.size_small;
      blocks = w.blocks;
      past_first =
          free_blocks.not_first (nth_block w.free 0) (there v m w.n w.free w.space 0 (omega arith));
      named = w.named;
      untagged = λ j pos lt.
          no_new_tag free_chain small md save.bytes (length save.bytes) s j pos (omega arith) (
            free_blocks.untagged (nth_block w.free j)
              (there v m w.n w.free w.space j (omega arith)));
      only = λ c lo hi hit. elim (ℕ_discrete c (nth_block w.free 0)) [
        | yes same ↦ same
        | no other ↦ cc (
          hit,
          others_not v small m save.filename md save.bytes (length save.bytes) w.n w.free refl
              w.size_small w.positive w.fits w.named new_name w.blocks w.space s c lo hi other,
        )
      ];
    }

    old-Held : (old : Save) → Memᴰ old saves → Held v m' old
    old-Held old there_before =
        Held-same v small h
          (rw ran at (
            sat_write-same h.chain small h.md old.bytes (length old.bytes) (space_enough v small h)
              h.sized h.one_table h.blocks h.past_first h.positive flags save.filename md save.bytes
              (length save.bytes) m h.stored (starts_no_other v small h save.filename apart)))
          (names_same old.filename (λ e. apart (sym e)))
      where
        h : Held v m old
        h = d.held old there_before

        apart : Apart old.filename save.filename
        apart = fresh old there_before

    written-Directory : Directory v m' (save ∷ saves)
    written-Directory = record {
      held = held_after;
      complete = λ other none_of c lo hi.
          names_same other (none_of save (Memᴰ.head refl)) c lo hi
          ∙ d.complete other (λ old before. none_of old (Memᴰ.tail before)) c lo hi;
    }
      where
        held_after : (one : Save) → Memᴰ one (save ∷ saves) → Held v m' one
        held_after one (Memᴰ.head e) = rw e new-Held
        held_after one (Memᴰ.tail before) = old-Held one before

  pub sat_write-Directory : (write.0 ≡ ok tt) × Directory v write.1 (save ∷ saves)
  sat_write-Directory = go (
      sat_write-Stores v small m save.filename md save.bytes (length save.bytes) w.n w.free refl
        w.size_small w.positive w.fits new_name w.blocks w.space flags)
    where
      go :
          (m' : Memory) × (write ≡ (ok tt, m'))
            × Stores free_chain small md save.bytes (length save.bytes) m m'
          → (write.0 ≡ ok tt) × Directory v write.1 (save ∷ saves)
      go (m', ran, s) = rw ran (refl, written-Directory ran s)
