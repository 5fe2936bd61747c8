-- ===== src/Prelude/Status.antt =====
-- `SLINGA_ERROR` of libslinga.h: the codes, and a function's outcome as a value.
use mathlib.Core.Bool.{Bool, true, false}
use mathlib.Core.Path.{◌≡◌, refl}

-- The codes other than SLINGA_SUCCESS; `internal` is the bare `-1` of "should never get here".
pub data Error : Type 0 where
  not_initialized invalid_device_type not_enough_space device_not_present : Error
  not_formatted buffer_too_small device_type_not_compiled_in not_supported : Error
  invalid_parameter file_exists unknown_cartridge not_implemented not_found : Error
  more_data_available : Error
  sat_unformatted sat_save_out_of_range sat_invalid_partition sat_too_many_blocks : Error
  sat_blocks_out_of_order sat_invalid_size sat_invalid_read_size sat_invalid_tag : Error
  action_replay_unsupported_compression action_replay_corrupt_compression_header : Error
  action_replay_failed_decompress_1 action_replay_failed_decompress_2 : Error
  action_replay_partition_too_large action_replay_extended_ram_missing : Error
  internal : Error

-- `ok a` is SLINGA_SUCCESS with `a` in the out-parameters. `diverge` is no code: a loop of the
-- model has used up its fuel.
pub data Result {ℓA} (Out : Type ℓA) : Type ℓA where
  diverge : Result Out
  err : Error → Result Out
  ok : Out → Result Out

infixl 5 ◌>>=◌ ◌>>◌
-- A call whose failure ends the caller: `if(result != SLINGA_SUCCESS) return result;`
abbrev pub ◌>>=◌ {ℓA ℓB} :
    {Out : Type ℓA} {Final : Type ℓB} → Result Out → (Out → Result Final) → Result Final
diverge >>= rest = diverge
err code >>= rest = err code
ok out >>= rest = rest out

abbrev pub ◌>>◌ {ℓB} : {Final : Type ℓB} → Result (Unit {0}) → Result Final → Result Final
call >> rest = call >>= λ done. rest

-- An early return: `if(bad) return e;`
abbrev pub reject : Bool → Error → Result (Unit {0})
reject true e = err e
reject false e = ok tt

-- What came first when a call and its continuation succeed.
pub ok_first :
    {A B : Type 0} (r : Result A) (f : A → Result B) (c : B)
    → (r >>= f) ≡ ok c
    → (a : A) × (r ≡ ok a) × (f a ≡ ok c)
ok_first (ok a) f c e = (a, refl, e)
ok_first (err code) f c e = cc e
ok_first diverge f c e = cc e

pub ok_injective : {A : Type 0} {a b : A} → ok a ≡ ok b → a ≡ b
ok_injective e = cc e
