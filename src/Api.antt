-- ===== src/Api.antt =====
-- libslinga/libslinga.c: the library's functions, which check the state and dispatch to a driver.
pub mod Laws
pub mod Sound
pub mod Present
pub mod Session
use libslinga.Sat.Header.{SaveMetadata}
use libslinga.Sat.Walk.{WalkState}
use libslinga.Prelude.{List, ℕ, zero, suc, ◌+◌, Bool, true, false, not, ◌||◌, ◌==◌, leb}
use libslinga.Prelude.{if◌then◌else◌, Option, none, some, Result, ok, err, Error}
use libslinga.Context.{BackupStat, Call, Driver, device_internal, device_cartridge, device_ram}
use libslinga.Context.{device_action_replay, max_device_type}
use Prim.Native.String.{String}
use libslinga.Prelude.Action.{◌>>=◌, ◌>>◌, lift, query, update, reject}
use libslinga.Devices.Saturn
use libslinga.Devices.Ram
use libslinga.Devices.ActionReplay

-- `*_RegisterHandler`: the handler for a device type, if the driver takes it.
unfoldable pub register_handler : Driver → ℕ → Option Driver
register_handler Driver.saturn device_type =
    if Saturn.not_saturn device_type then none else some Driver.saturn
register_handler Driver.ram device_type =
    if device_type == device_ram then some Driver.ram else none
register_handler Driver.action_replay device_type =
    if device_type == device_action_replay then some Driver.action_replay else none

-- The switch of `Slinga_Init`; all of libslinga_conf.h's four drivers are compiled in.
unfoldable pub handler_of : ℕ → Option Driver
unfolding register_handler
handler_of device_type =
    if device_type == device_internal || device_type == device_cartridge
    then register_handler Driver.saturn device_type
    else if device_type == device_ram
    then register_handler Driver.ram device_type
    else if device_type == device_action_replay
    then register_handler Driver.action_replay device_type
    else none

-- for(device_type = 0; device_type < MAX_DEVICE_TYPE; device_type++), with `left` types to go
unfoldable pub register_from : ℕ → ℕ → (ℕ → Option Driver) → ℕ → Option Driver
unfolding handler_of
register_from device_type zero handlers = handlers
register_from device_type (suc left) handlers =
    register_from (device_type + 1) left
      (λ d. if d == device_type then handler_of device_type else handlers d)

-- `Slinga_Init`: the globals but the cartridge's type and the memory are cleared.
unfoldable pub init : Call (Unit {0})
unfolding register_from
init c = if c.is_init then (ok tt, c) else (
  ok tt,
  record c {
    is_init = true;
    is_present = λ d. false;
    handlers = register_from 0 max_device_type (λ d. none);
  },
)

unfoldable pub fini : Call (Unit {0})
fini = do
  is_init ← query (λ c. ok c.is_init)
  reject (not is_init) Error.not_initialized
  update (λ c. record c { is_init = false })

-- `has_out` says that none of the three out-parameters is NULL.
unfoldable pub get_version : Bool → Call (ℕ × ℕ × ℕ)
get_version has_out = do
  is_init ← query (λ c. ok c.is_init)
  reject (not is_init) Error.not_initialized
  reject (not has_out) Error.invalid_parameter
  lift (ok (0, 0, 1))

-- A handler that is NULL is a device that is not compiled in.
unfoldable pub compiled_in : Option Driver → Result Driver
compiled_in none = err Error.device_type_not_compiled_in
compiled_in (some driver) = ok driver

-- `device_type >= MAX_DEVICE_TYPE`, then the handler; an enum is never negative here.
unfoldable pub find_handler : ℕ → Call Driver
unfolding compiled_in
find_handler device_type = do
  reject (leb max_device_type device_type) Error.invalid_device_type
  query (λ c. compiled_in (c.handlers device_type))

-- The same behind the test of `g_Context.isInit`, as the functions on devices begin, all but `is_readable`.
unfoldable pub checked_handler : ℕ → Call Driver
unfolding find_handler
checked_handler device_type = do
  is_init ← query (λ c. ok c.is_init)
  reject (not is_init) Error.not_initialized
  find_handler device_type

-- One function of a handler: that of the driver's own file. No function pointer of a handler is
-- NULL but `query_file` of the RAM's, so no other test of one can fail.
abbrev pub by_driver : {A : Type 0} → A → A → A → Driver → A
by_driver of_saturn of_ram of_action_replay Driver.saturn = of_saturn
by_driver of_saturn of_ram of_action_replay Driver.ram = of_ram
by_driver of_saturn of_ram of_action_replay Driver.action_replay = of_action_replay

unfoldable pub get_device_name : ℕ → Bool → Call String
unfolding checked_handler
get_device_name device_type has_out =
    checked_handler device_type
    >>= by_driver (Saturn.get_device_name device_type has_out)
        (Ram.get_device_name device_type has_out) (ActionReplay.get_device_name device_type has_out)

unfoldable pub is_present : ℕ → Call (Unit {0})
unfolding checked_handler
is_present device_type =
    checked_handler device_type
    >>= by_driver (Saturn.is_present device_type) (Ram.is_present device_type)
        (ActionReplay.is_present device_type)

-- `Slinga_IsReadable` does not test `g_Context.isInit`.
unfoldable pub is_readable : ℕ → Call (Unit {0})
unfolding find_handler
is_readable device_type =
    find_handler device_type
    >>= by_driver (Saturn.is_readable device_type) (Ram.is_readable device_type)
        (ActionReplay.is_readable device_type)

unfoldable pub is_writeable : ℕ → Call (Unit {0})
unfolding checked_handler
is_writeable device_type =
    checked_handler device_type
    >>= by_driver (Saturn.is_writeable device_type) (Ram.is_writeable device_type)
        (ActionReplay.is_writeable device_type)

unfoldable pub stat : ℕ → Bool → Call BackupStat
unfolding checked_handler
stat device_type has_out =
    checked_handler device_type
    >>= by_driver (Saturn.stat device_type has_out) (Ram.stat device_type)
        (ActionReplay.stat device_type has_out)

unfoldable pub list_saves : ℕ → Option (List SaveMetadata) → ℕ → Call WalkState
unfolding checked_handler
list_saves device_type saves num_saves =
    checked_handler device_type
    >>= by_driver (Saturn.list_saves device_type saves num_saves) (Ram.list_saves device_type)
        (ActionReplay.list_saves device_type saves num_saves)

-- The RAM's handler has no `query_file`.
unfoldable pub query_file : ℕ → Option (List ℕ) → Option SaveMetadata → Call SaveMetadata
unfolding checked_handler
query_file device_type filename metadata =
    checked_handler device_type
    >>= by_driver (Saturn.query_file device_type filename metadata) (lift (err Error.internal))
        (ActionReplay.query_file device_type filename metadata)

unfoldable pub read : ℕ → Option (List ℕ) → Bool → ℕ → Call (List ℕ)
unfolding checked_handler
read device_type filename has_out size =
    checked_handler device_type
    >>= by_driver (Saturn.read device_type filename has_out size) (Ram.read device_type)
        (ActionReplay.read device_type filename has_out size)

unfoldable pub write :
    ℕ → ℕ → Option (List ℕ) → Option SaveMetadata → Option (List ℕ) → ℕ → Call (Unit {0})
unfolding checked_handler
write device_type flags filename save_metadata buffer size =
    checked_handler device_type
    >>= by_driver (Saturn.write device_type flags filename save_metadata buffer size)
        (Ram.write device_type) (ActionReplay.write device_type)

unfoldable pub delete : ℕ → Option (List ℕ) → Call (Unit {0})
unfolding checked_handler
delete device_type filename =
    checked_handler device_type
    >>= by_driver (Saturn.delete device_type filename) (Ram.delete device_type)
        (ActionReplay.delete device_type)

unfoldable pub format : ℕ → Call (Unit {0})
unfolding checked_handler
format device_type =
    checked_handler device_type
    >>= by_driver (Saturn.format device_type) (Ram.format device_type)
        (ActionReplay.format device_type)
