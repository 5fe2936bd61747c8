-- ===== src/Tests.antt =====
-- The theorems on dates, devices and the library's functions at concrete inputs.
use libslinga.Prelude.{ltb, each_below_at, each_below, ap, get_or, ◌-◌, some, ℕ, ◌≡◌, refl, arith}
use libslinga.Prelude.{true, false, none, ok, [], ◌∷◌}
use libslinga.Memory.{Memory}
use libslinga.Devices.Rle.Decode.{decode}
use libslinga.Devices.Rle.Source.{Source}
use libslinga.Devices.Rle.Reads.{Written, decompress_rle01-decode}
use libslinga.Devices.Rle.{decompress_rle01}
use libslinga.Devices.Rle.Total.{Counts, decompress_rle01-Counts}
use libslinga.Timestamp.{BackupDate, convert_timestamp_to_date}
use libslinga.Timestamp.FromSeconds.{Splits, convert_timestamp_to_date-Splits}
use libslinga.Context.{Context, mark_present}
use libslinga.Devices.Saturn.{internal_info, stat_of, get_partition_info}
use libslinga.Devices.Saturn.Laws.{internal_info-Fits, Consistent, stat_of-Consistent}
use libslinga.Devices.Saturn.Laws.{Partitioned, get_partition_info-Fits}
use libslinga.Devices.ActionReplay
use libslinga.Devices.ActionReplay.Laws.{Fails, action_replay-Fails}
use libslinga.Api
use libslinga.Api.Laws.{Refused, Initialized, init_lem, driver_for, no_driver, no_driver_lem}
use libslinga.Cartridge.{get_cartridge_type}
use libslinga.Devices.Saturn
use libslinga.Api.Sound.{Ready}
use libslinga.Api.Session.{Step, Session, Session-Ready}
use libslinga.Sat.Walk.{blank_metadata}
use libslinga.Metadata.{set_save_metadata}
use libslinga.Metadata.Laws.{Outcome, set_save_metadata-Outcome}

convert_timestamp_to_date-Splits_example :
    (d : BackupDate) × (convert_timestamp_to_date 1000000000 ≡ ok d) × Splits 1000000000 d
convert_timestamp_to_date-Splits_example = convert_timestamp_to_date-Splits 1000000000 (omega arith)

get_partition_info-Fits_example : Partitioned (get_partition_info 1 3)
get_partition_info-Fits_example = get_partition_info-Fits 1 3

stat_of-Consistent_example :
    Consistent internal_info-Fits.partition.count 30 (stat_of internal_info 30)
stat_of-Consistent_example = stat_of-Consistent internal_info-Fits.partition 30

abbrev start : Context
start = record {
  is_init = false;
  is_present = λ d. false;
  handlers = λ d. none;
  cartridge_type = 0;
  memory = λ a. 0;
}

init_lem_example :
    let (r, c') = Api.init start in
    (r ≡ ok tt)
    × Initialized c'
    × ((d : ℕ) → c'.is_present d ≡ false)
    × (c'.memory ≡ start.memory)
    × (Api.init c' ≡ (ok tt, c'))
init_lem_example = init_lem start refl

abbrev started : Context
started = (Api.init start).1

started-Initialized : Initialized started
started-Initialized = (init_lem start refl).1

-- A cartridge of 512 KB is in the slot. The library is set up, and finds it.
abbrev with_cartridge : Context
with_cartridge = record start { memory = λ a. 0x21 }

abbrev set_up : Context
set_up = (Api.init with_cartridge).1

abbrev found : Context
found = (Api.is_present 1 set_up).1

set_up_and_found : Session with_cartridge found
set_up_and_found =
    Session.goes_on (Session.goes_on Session.starts (Step.init with_cartridge))
      (Step.is_present set_up 1)

in_use : found.is_init ≡ true
unfolding Api.init Api.is_present Saturn.is_present mark_present get_cartridge_type
    get_partition_info
in_use = refl

cartridge_there : found.is_present 1 ≡ true
unfolding Api.init Api.is_present Saturn.is_present mark_present get_cartridge_type
    get_partition_info
cartridge_there = refl

Session-Ready_example : Ready found
Session-Ready_example = Session-Ready with_cartridge found refl set_up_and_found in_use

no_driver_lem_example :
    let e = no_driver 4 in
    Refused e (Api.get_device_name 4 true) started
    × Refused e (Api.is_present 4) started
    × Refused e (Api.is_readable 4) started
    × Refused e (Api.is_writeable 4) started
    × Refused e (Api.stat 4 true) started
    × Refused e (Api.list_saves 4 none 9) started
    × Refused e (Api.query_file 4 none none) started
    × Refused e (Api.read 4 none true 9) started
    × Refused e (Api.write 4 2 none none none 9) started
    × Refused e (Api.delete 4 none) started
    × Refused e (Api.format 4) started
unfolding driver_for
no_driver_lem_example =
    no_driver_lem started 4 true none none none none 2 9 started-Initialized refl

action_replay-Fails_example :
    Fails start (ActionReplay.stat 5 true start)
    × Fails start (ActionReplay.list_saves 5 none 4 start)
    × Fails start (ActionReplay.query_file 5 none none start)
    × Fails start (ActionReplay.read 5 none true 9 start)
action_replay-Fails_example = action_replay-Fails 5 start none true 9 none none 4

set_save_metadata-Outcome_example : Outcome (65 ∷ []) (66 ∷ []) (67 ∷ []) 1 1000 53 (
    set_save_metadata true
      (some (65 ∷ []))
      (some (66 ∷ []))
      (some (67 ∷ []))
      1
      1000
      53
      blank_metadata)
set_save_metadata-Outcome_example =
    set_save_metadata-Outcome (65 ∷ []) (66 ∷ []) (67 ∷ []) 1 1000 53 blank_metadata
      (omega arith, tt) (omega arith, tt) (omega arith, tt)

-- Two bytes, the escaped key, and a run of three.
abbrev packed : Memory
packed a = get_or (1 ∷ 2 ∷ 9 ∷ 0 ∷ 9 ∷ 3 ∷ 4 ∷ []) (a - 100) 0

decompress_rle01-Counts_example : Counts packed none (decompress_rle01 9 100 7 none packed)
decompress_rle01-Counts_example =
    decompress_rle01-Counts 9 100 7 none packed (omega arith) (omega arith)

packed_bytes : each_below 7 (λ i. ltb (get_or (1 ∷ 2 ∷ 9 ∷ 0 ∷ 9 ∷ 3 ∷ 4 ∷ []) i 0) 256) ≡ true
unfolding each_below
packed_bytes = refl

packed-Source : Source (some 200) 0 6 packed 100 (1 ∷ 2 ∷ 9 ∷ 0 ∷ 9 ∷ 3 ∷ 4 ∷ [])
packed-Source = record {
  there = λ k h. ap (λ i. get_or (1 ∷ 2 ∷ 9 ∷ 0 ∷ 9 ∷ 3 ∷ 4 ∷ []) i 0) (omega arith);
  fits = λ k h. ground (
    arith,
    each_below_at 7 (λ i. ltb (get_or (1 ∷ 2 ∷ 9 ∷ 0 ∷ 9 ∷ 3 ∷ 4 ∷ []) i 0) 256) k packed_bytes h,
  );
  apart = λ k h i h'. omega arith;
}

unpacked : decode 9 (1 ∷ 2 ∷ 9 ∷ 0 ∷ 9 ∷ 3 ∷ 4 ∷ []) ≡ some (1 ∷ 2 ∷ 9 ∷ 4 ∷ 4 ∷ 4 ∷ [])
unfolding decode
unpacked = refl

decompress_rle01-decode_example :
    (m' : Memory) × (decompress_rle01 9 100 7 (some 200) packed ≡ (ok 6, m'))
    × Written 9 100 7 (some 200) (1 ∷ 2 ∷ 9 ∷ 4 ∷ 4 ∷ 4 ∷ []) packed m'
decompress_rle01-decode_example =
    decompress_rle01-decode 9 100 7 (some 200) (1 ∷ 2 ∷ 9 ∷ 0 ∷ 9 ∷ 3 ∷ 4 ∷ [])
      (1 ∷ 2 ∷ 9 ∷ 4 ∷ 4 ∷ 4 ∷ []) packed (omega arith) refl (omega arith) (omega arith) unpacked
      (omega arith) packed-Source

decompress_rle01_test : (decompress_rle01 9 100 7 none packed).0 ≡ ok 6
unfolding decompress_rle01
decompress_rle01_test = refl
