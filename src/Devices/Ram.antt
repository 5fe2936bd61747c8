-- ===== src/Devices/Ram.antt =====
-- devices/ram.c: the Saturn's own RAM. Nothing but its presence is supported. The arguments that
-- the source marks UNUSED are left out.
use libslinga.Prelude.{ℕ, Bool, not, ◌!=◌, List, if◌then◌else◌, ok, err, Error}
use Prim.Native.String.{String}
use libslinga.Prelude.Action.{◌>>◌, lift, reject}
use libslinga.Context.{Call, mark_present, BackupStat, device_ram}
use libslinga.Sat.Walk.{WalkState}

unfoldable pub init : ℕ → Call (Unit {0})
init device_type = reject (device_type != device_ram) Error.invalid_device_type

unfoldable pub fini : ℕ → Call (Unit {0})
fini device_type = reject (device_type != device_ram) Error.invalid_device_type

unfoldable pub get_device_name : ℕ → Bool → Call String
get_device_name device_type has_out = do
  reject (device_type != device_ram) Error.invalid_device_type
  reject (not has_out) Error.invalid_parameter
  lift (ok "RAM")

unfoldable pub is_present : ℕ → Call (Unit {0})
is_present device_type c =
    if device_type != device_ram
    then (err Error.invalid_device_type, c)
    else if c.is_present device_type
    then (ok tt, c)
    else mark_present device_type c

unfoldable pub is_readable : ℕ → Call (Unit {0})
is_readable device_type = reject (device_type != device_ram) Error.invalid_device_type

unfoldable pub is_writeable : ℕ → Call (Unit {0})
is_writeable device_type = reject (device_type != device_ram) Error.invalid_device_type

-- The operations that a RAM does not have.
abbrev pub refuse : {A : Type 0} → Error → ℕ → Call A
refuse e device_type = do reject (device_type != device_ram) Error.invalid_device_type; lift (err e)

unfoldable pub stat : ℕ → Call BackupStat
stat device_type = refuse Error.not_supported device_type

unfoldable pub list_saves : ℕ → Call WalkState
list_saves device_type = refuse Error.not_supported device_type

unfoldable pub read : ℕ → Call (List ℕ)
read device_type = refuse Error.not_implemented device_type

unfoldable pub write : ℕ → Call (Unit {0})
write device_type = refuse Error.not_implemented device_type

unfoldable pub delete : ℕ → Call (Unit {0})
delete device_type = refuse Error.not_supported device_type

unfoldable pub format : ℕ → Call (Unit {0})
format device_type = refuse Error.not_supported device_type
