-- ===== src/Cartridge.antt =====
-- libslinga/saturn.c and saturn.h: which cartridge is in the slot, by one magic byte.
use libslinga.Prelude.{ℕ, ◌==◌, ◌||◌, if◌then◌else◌, bit_and, Result, ok, err, Error}
use libslinga.Memory.{Memory}

-- `SATURN_CARTRIDGE_TYPE`
abbrev pub cartridge_none : ℕ
cartridge_none = 0

abbrev pub cartridge_backup_400_200_512k : ℕ
cartridge_backup_400_200_512k = 1

abbrev pub cartridge_backup_800_200_1mb : ℕ
cartridge_backup_800_200_1mb = 2

abbrev pub cartridge_backup_1000_200_2mb : ℕ
cartridge_backup_1000_200_2mb = 3

abbrev pub cartridge_backup_1000_400_4mb : ℕ
cartridge_backup_1000_400_4mb = 4

abbrev pub cartridge_ram_1mb : ℕ
cartridge_ram_1mb = 0x5a

abbrev pub cartridge_ram_4mb : ℕ
cartridge_ram_4mb = 0x5c

-- The address of CARTRIDGE_TYPE_MAGIC
abbrev pub cartridge_type_magic : ℕ
cartridge_type_magic = 0x24FFFFFF

-- Of a byte whose backup bits are set.
unfoldable pub backup_type : ℕ → Result ℕ
backup_type cart_subtype =
    if cart_subtype == 0 || cart_subtype == 1
    then ok cartridge_backup_400_200_512k
    else if cart_subtype == 2
    then ok cartridge_backup_800_200_1mb
    else if cart_subtype == 3
    then ok cartridge_backup_1000_200_2mb
    else if cart_subtype == 4
    then ok cartridge_backup_1000_400_4mb
    else err Error.unknown_cartridge

unfoldable pub classify : ℕ → Result ℕ
unfolding backup_type
classify magic =
    if magic == cartridge_none
    then err Error.device_not_present
    else if magic == cartridge_ram_1mb || magic == cartridge_ram_4mb
    then ok magic
    else if bit_and magic 0xe0 == 0x20
    then backup_type (bit_and magic 0x7)
    else err Error.unknown_cartridge

-- The type is what goes through `cart_type`; on failure no caller reads it.
unfoldable pub get_cartridge_type : Memory → Result ℕ
unfolding classify
get_cartridge_type m = classify (m cartridge_type_magic)
