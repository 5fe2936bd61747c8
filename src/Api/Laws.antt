-- ===== src/Api/Laws.antt =====
-- libslinga/libslinga.c: what the state of the library decides before a driver is called.
use libslinga.Prelude.{ℕ, zero, suc, ◌+◌, ◌≡◌, ◌≤◌, ◌<◌, ◌⊎◌, inl, inr, refl, ok, err, Error}
use libslinga.Prelude.{List, Option, some, none, Bool, true, false, arith, ◌==◌, leb, ltb}
use libslinga.Prelude.{if◌then◌else◌, Bool-cases}
use libslinga.Context.{Context, Driver, Call}
use libslinga.Sat.Header.{SaveMetadata}
use libslinga.Api

-- A call that is refused, with all state as it was.
abbrev pub Refused : {A : Type 0} → Error → Call A → Context → Type 0
Refused e call c = call c ≡ (err e, c)

-- The driver of each device.
unfoldable pub driver_for : ℕ → Option Driver
driver_for d =
    if ltb d 2
    then some Driver.saturn
    else if d == 3
    then some Driver.ram
    else if d == 5
    then some Driver.action_replay
    else none

handler_of-driver_for : (d : ℕ) → Api.handler_of d ≡ driver_for d
unfolding Api.handler_of driver_for
handler_of-driver_for d = ground arith

register_from-driver_for :
    (left i d : ℕ) (handlers : ℕ → Option Driver)
    → ((d < i) × (handlers d ≡ driver_for d)) ⊎ ((i ≤ d) × (d < i + left))
    → Api.register_from i left handlers d ≡ driver_for d
unfolding Api.register_from
register_from-driver_for zero i d handlers (inl (lt, e)) = e
register_from-driver_for zero i d handlers (inr (le, lt)) = absurd (omega arith)
register_from-driver_for (suc left) i d handlers known =
    register_from-driver_for left (i + 1) d _ (elim (Bool-cases (d == i)) [
      | inl here ↦ inl (ground (arith, known), rw here (at_index here))
      | inr other ↦ elim known [
        | inl (lt, e) ↦ inl (omega arith, rw other e)
        | inr (le, lt) ↦ inr (ground arith, omega arith)
      ]
    ])
  where
    same_index : (d == i) ≡ true → d ≡ i
    same_index here = ground arith

    at_index : (d == i) ≡ true → Api.handler_of i ≡ driver_for d
    at_index here = rw (← same_index here) (handler_of-driver_for d)

-- The library is initialized, and every device type has its driver, or none.
pub record Initialized (c : Context) : Type 0 where
  pub is_init : c.is_init ≡ true
  pub drivers : (d : ℕ) → d < 8 → c.handlers d ≡ driver_for d

-- `init` of a library that is not initialized succeeds and registers, for device types 0 and 1, the
-- Saturn driver, for 3 the RAM's, for 5 the Action Replay's, and none for the others below 8; no
-- device is marked present and the memory is as it was; and a second `init` changes nothing.
pub init_lem :
    (c : Context)
    → c.is_init ≡ false
    → let (r, c') = Api.init c in
      (r ≡ ok tt)
      × Initialized c'
      × ((d : ℕ) → c'.is_present d ≡ false)
      × (c'.memory ≡ c.memory)
      × (Api.init c' ≡ (ok tt, c'))
unfolding Api.init
init_lem c off = rw off (
  refl,
  record {
    is_init = refl;
    drivers = λ d h. register_from-driver_for 8 0 d (λ d. none) (inr (omega arith, omega arith));
  },
  λ d. refl,
  refl,
  refl,
)

-- The error for a device that no driver was registered for.
abbrev pub no_driver : ℕ → Error
no_driver d = if leb 8 d then Error.invalid_device_type else Error.device_type_not_compiled_in

find_handler-none :
    (c : Context) (d : ℕ)
    → Initialized c
    → driver_for d ≡ none
    → Api.find_handler d c ≡ (err (no_driver d), c)
unfolding Api.find_handler Api.compiled_in
find_handler-none c d w unknown = elim (Bool-cases (leb 8 d)) [
  | inl out ↦ rw out refl
  | inr inside ↦ rw (inside, w.drivers d (ground arith), unknown) refl
]

checked_handler-none :
    (c : Context) (d : ℕ)
    → Initialized c
    → driver_for d ≡ none
    → Api.checked_handler d c ≡ (err (no_driver d), c)
unfolding Api.checked_handler
checked_handler-none c d w unknown = simp w.is_init (find_handler-none c d w unknown)

-- Once the library is initialized, every function that takes a device type refuses one without a
-- driver, with SLINGA_INVALID_DEVICE_TYPE from 8 on and SLINGA_DEVICE_TYPE_NOT_COMPILED_IN below,
-- and changes nothing.
pub no_driver_lem :
    (c : Context) (device_type : ℕ) (has_out : Bool) (filename : Option (List ℕ))
    (metadata : Option SaveMetadata) (saves : Option (List SaveMetadata)) (buffer : Option (List ℕ))
    (flags size : ℕ)
    → Initialized c
    → driver_for device_type ≡ none
    → let e = no_driver device_type in
      Refused e (Api.get_device_name device_type has_out) c
      × Refused e (Api.is_present device_type) c
      × Refused e (Api.is_readable device_type) c
      × Refused e (Api.is_writeable device_type) c
      × Refused e (Api.stat device_type has_out) c
      × Refused e (Api.list_saves device_type saves size) c
      × Refused e (Api.query_file device_type filename metadata) c
      × Refused e (Api.read device_type filename has_out size) c
      × Refused e (Api.write device_type flags filename metadata buffer size) c
      × Refused e (Api.delete device_type filename) c
      × Refused e (Api.format device_type) c
unfolding Api.get_device_name Api.is_present Api.is_readable Api.is_writeable Api.stat
    Api.list_saves Api.query_file Api.read Api.write Api.delete Api.format
no_driver_lem c device_type has_out filename metadata saves buffer flags size w unknown =
    rw (checked_handler-none c device_type w unknown, find_handler-none c device_type w unknown)
      (refl, refl, refl, refl, refl, refl, refl, refl, refl, refl, refl)
