-- ===== src/Context.antt =====
-- The library's globals: g_Context, g_Device_Handlers, g_Cartridge_Type, and the memory.
use libslinga.Prelude.{ℕ, Bool, true, if◌then◌else◌, ◌==◌, Option}
use libslinga.Prelude.Action.{Action, update}
use libslinga.Memory.{Memory, Io}

-- A `DEVICE_HANDLER` that has been registered; its functions are those of one file of devices/.
pub data Driver : Type 0 where
  saturn ram action_replay : Driver

-- `DEVICE_TYPE`
abbrev pub device_internal : ℕ
device_internal = 0

abbrev pub device_cartridge : ℕ
device_cartridge = 1

abbrev pub device_serial : ℕ
device_serial = 2

abbrev pub device_ram : ℕ
device_ram = 3

abbrev pub device_action_replay : ℕ
device_action_replay = 5

abbrev pub max_device_type : ℕ
max_device_type = 8

pub record Context : Type 0 where
  pub is_init : Bool
  pub is_present : ℕ → Bool
  pub handlers : ℕ → Option Driver
  pub cartridge_type : ℕ
  pub memory : Memory

abbrev pub Call : Type 0 → Type 0
Call A = Action Context A

-- An operation on the memory alone.
abbrev pub on_memory : {A : Type 0} → Io A → Call A
on_memory io c = let (r, m) = io c.memory in (r, record c { memory = m })

-- g_Context.isPresent[device_type] = 1
unfoldable pub mark_present : ℕ → Call (Unit {0})
mark_present device_type =
    update (λ c. record c { is_present = λ d. if d == device_type then true else c.is_present d })

-- `BACKUP_STAT`
pub record BackupStat : Type 0 where
  pub total_bytes : ℕ
  pub total_blocks : ℕ
  pub block_size : ℕ
  pub free_bytes : ℕ
  pub free_blocks : ℕ
  pub max_saves_possible : ℕ
