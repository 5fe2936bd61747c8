-- ===== src/Api/Session.antt =====
-- libslinga/libslinga.c: the globals after any calls of the library.
use libslinga.Prelude.{inr, inl, Bool-cases, ℕ, ◌≡◌, List, Option, some, none, Bool, true, false}
use libslinga.Prelude.{not, ◌||◌, leb, ◌!=◌, ◌==◌, Error, ok, err}
use libslinga.Prelude.Action.{◌>>=◌, ◌>>◌, lift, query, reject}
use libslinga.Context.{Context, Driver, Call, device_cartridge}
use libslinga.Sat.Header.{SaveMetadata}
use libslinga.Sat.Walk.{sat_get_used_blocks, sat_list_saves}
use libslinga.Sat.Read.{sat_query_file, sat_read}
use libslinga.Sat.Write.{sat_write}
use libslinga.Sat.Delete.{is_null, sat_delete}
use libslinga.Sat.Format.{sat_check_formatted, sat_format}
use libslinga.Devices.Saturn
use libslinga.Devices.Ram
use libslinga.Devices.ActionReplay
use libslinga.Api
use libslinga.Api.Laws.{init_lem}
use libslinga.Api.Sound.{Ready, Sound, Keeps, Keeps-bind, Keeps-lift, Keeps-query, Keeps-guard}
use libslinga.Api.Sound.{Keeps-on_memory}
use libslinga.Api.Present.{saturn-Keeps, ram-Keeps, action_replay-Keeps}

-- A function on a device keeps the globals sound when those of the drivers do.
dispatch-Keeps :
    {A : Type 0} (d : ℕ) (of_saturn of_ram of_action_replay : Call A)
    → Keeps of_saturn
    → Keeps of_ram
    → Keeps of_action_replay
    → Keeps (Api.checked_handler d >>= Api.by_driver of_saturn of_ram of_action_replay)
unfolding Api.checked_handler Api.find_handler
dispatch-Keeps d of_saturn of_ram of_action_replay hs hr ha =
    Keeps-bind (Api.checked_handler d) _
      (Keeps-bind (query (λ c. ok c.is_init)) _ (Keeps-query _) λ is_init.
        Keeps-guard (not is_init) Error.not_initialized _ (
          Keeps-guard (leb 8 d) Error.invalid_device_type _
            (Keeps-query (λ c. Api.compiled_in (c.handlers d)))))
      by_case
  where
    by_case : (x : Driver) → Keeps (Api.by_driver of_saturn of_ram of_action_replay x)
    by_case Driver.saturn = hs
    by_case Driver.ram = hr
    by_case Driver.action_replay = ha

refuse-Keeps :
    {A : Type 0} (bad : Bool) (e e' : Error) → Keeps (reject bad e >> lift {A = A} (err e'))
refuse-Keeps bad e e' = Keeps-guard bad e (lift (err e')) (Keeps-lift (err e'))

-- The parts that the drivers' functions begin with.
saturn_open-Keeps : (d : ℕ) → Keeps (Saturn.open_partition d)
unfolding Saturn.open_partition
saturn_open-Keeps d =
    Keeps-bind (Saturn.is_present d) _ (saturn-Keeps d)
      (λ t. Keeps-query (λ c. Saturn.get_partition_info d c.cartridge_type))

action_replay_open-Keeps : Keeps ActionReplay.open_partition
unfolding ActionReplay.open_partition
action_replay_open-Keeps = Keeps-on_memory _

is_present-Keeps : (d : ℕ) → Keeps (Api.is_present d)
unfolding Api.is_present
is_present-Keeps d = dispatch-Keeps d _ _ _ (saturn-Keeps d) (ram-Keeps d) (action_replay-Keeps d)

stat-Keeps : (d : ℕ) (has_out : Bool) → Keeps (Api.stat d has_out)
unfolding Api.stat Saturn.stat Ram.stat ActionReplay.stat
stat-Keeps d has_out =
    dispatch-Keeps d _ _ _
      (Keeps-guard (Saturn.not_saturn d) Error.invalid_device_type _ (
        Keeps-bind (Saturn.is_present d) _ (saturn-Keeps d) λ t.
          Keeps-guard (not has_out) Error.invalid_parameter _ (
            Keeps-bind (query (λ c. Saturn.get_partition_info d c.cartridge_type)) _ (Keeps-query _)
              λ p.
                Keeps-bind (query (λ c. sat_get_used_blocks c.memory p)) _ (Keeps-query _)
                  (λ used. Keeps-lift (ok (Saturn.stat_of p used))))))
      (refuse-Keeps (d != 3) Error.invalid_device_type Error.not_supported)
      (Keeps-guard (ActionReplay.wrong_device d) Error.invalid_device_type _ (
        Keeps-guard (not has_out) Error.invalid_parameter _ (
          Keeps-bind ActionReplay.open_partition _ action_replay_open-Keeps λ p.
            Keeps-bind (query (λ c. sat_get_used_blocks c.memory p)) _ (Keeps-query _)
              (λ used. Keeps-lift (ok (ActionReplay.stat_of used))))))

list_saves-Keeps :
    (d : ℕ) (saves : Option (List SaveMetadata)) (num_saves : ℕ)
    → Keeps (Api.list_saves d saves num_saves)
unfolding Api.list_saves Saturn.list_saves Ram.list_saves ActionReplay.list_saves
list_saves-Keeps d saves num_saves =
    dispatch-Keeps d _ _ _
      (Keeps-guard (Saturn.not_saturn d) Error.invalid_device_type _ (
        Keeps-bind (Saturn.open_partition d) _ (saturn_open-Keeps d)
          (λ p. Keeps-query (λ c. sat_list_saves c.memory p saves num_saves))))
      (refuse-Keeps (d != 3) Error.invalid_device_type Error.not_supported)
      (Keeps-guard (ActionReplay.wrong_device d) Error.invalid_device_type _ (
        Keeps-bind ActionReplay.open_partition _ action_replay_open-Keeps
          (λ p. Keeps-query (λ c. sat_list_saves c.memory p saves num_saves))))

query_file-Keeps :
    (d : ℕ) (filename : Option (List ℕ)) (metadata : Option SaveMetadata)
    → Keeps (Api.query_file d filename metadata)
unfolding Api.query_file Saturn.query_file ActionReplay.query_file
query_file-Keeps d filename none =
    dispatch-Keeps d _ _ _
      (refuse-Keeps (Saturn.not_saturn d) Error.invalid_device_type Error.invalid_parameter)
      (Keeps-lift (err Error.internal))
      (refuse-Keeps (ActionReplay.wrong_device d) Error.invalid_device_type Error.invalid_parameter)
query_file-Keeps d filename (some save) =
    dispatch-Keeps d _ _ _
      (Keeps-guard (Saturn.not_saturn d) Error.invalid_device_type _ (
        Keeps-bind (Saturn.open_partition d) _ (saturn_open-Keeps d)
          (λ p. Keeps-query (λ c. sat_query_file c.memory filename p save))))
      (Keeps-lift (err Error.internal))
      (Keeps-guard (ActionReplay.wrong_device d) Error.invalid_device_type _ (
        Keeps-bind ActionReplay.open_partition _ action_replay_open-Keeps
          (λ p. Keeps-query (λ c. sat_query_file c.memory filename p save))))

read-Keeps :
    (d : ℕ) (filename : Option (List ℕ)) (has_out : Bool) (size : ℕ)
    → Keeps (Api.read d filename has_out size)
unfolding Api.read Saturn.read Ram.read ActionReplay.read
read-Keeps d filename has_out size =
    dispatch-Keeps d _ _ _
      (Keeps-guard (Saturn.not_saturn d) Error.invalid_device_type _ (
        Keeps-guard (is_null filename || not has_out || size == 0) Error.invalid_parameter _ (
          Keeps-bind (Saturn.open_partition d) _ (saturn_open-Keeps d) λ p.
            Keeps-bind (query (λ c. sat_check_formatted c.memory p)) _ (Keeps-query _)
              (λ t. Keeps-query (λ c. sat_read c.memory filename size p)))))
      (refuse-Keeps (d != 3) Error.invalid_device_type Error.not_implemented)
      (Keeps-guard (ActionReplay.wrong_device d) Error.invalid_device_type _ (
        Keeps-guard (is_null filename || not has_out || size == 0) Error.invalid_parameter _ (
          Keeps-bind ActionReplay.open_partition _ action_replay_open-Keeps
            (λ p. Keeps-query (λ c. sat_read c.memory filename size p)))))

write-Keeps :
    (d flags : ℕ) (filename : Option (List ℕ)) (metadata : Option SaveMetadata)
    (buffer : Option (List ℕ)) (size : ℕ)
    → Keeps (Api.write d flags filename metadata buffer size)
unfolding Api.write Saturn.write Ram.write ActionReplay.write
write-Keeps d flags filename metadata buffer size =
    dispatch-Keeps d _ _ _
      (Keeps-guard (Saturn.not_saturn d) Error.invalid_device_type _ (
        Keeps-bind (Saturn.open_partition d) _ (saturn_open-Keeps d)
          (λ p. Keeps-on_memory (sat_write flags filename metadata buffer size p))))
      (refuse-Keeps (d != 3) Error.invalid_device_type Error.not_implemented)
      (refuse-Keeps (ActionReplay.wrong_device d) Error.invalid_device_type Error.not_supported)

delete-Keeps : (d : ℕ) (filename : Option (List ℕ)) → Keeps (Api.delete d filename)
unfolding Api.delete Saturn.delete Ram.delete ActionReplay.delete
delete-Keeps d filename =
    dispatch-Keeps d _ _ _
      (Keeps-guard (Saturn.not_saturn d) Error.invalid_device_type _ (
        Keeps-bind (Saturn.open_partition d) _ (saturn_open-Keeps d)
          (λ p. Keeps-on_memory (sat_delete filename p))))
      (refuse-Keeps (d != 3) Error.invalid_device_type Error.not_supported)
      (refuse-Keeps (ActionReplay.wrong_device d) Error.invalid_device_type Error.not_supported)

format-Keeps : (d : ℕ) → Keeps (Api.format d)
unfolding Api.format Saturn.format Ram.format ActionReplay.format
format-Keeps d =
    dispatch-Keeps d _ _ _
      (Keeps-guard (Saturn.not_saturn d) Error.invalid_device_type _ (
        Keeps-bind (Saturn.open_partition d) _ (saturn_open-Keeps d)
          (λ p. Keeps-on_memory (sat_format p))))
      (refuse-Keeps (d != 3) Error.invalid_device_type Error.not_supported)
      (refuse-Keeps (ActionReplay.wrong_device d) Error.invalid_device_type Error.not_supported)

fini-Keeps : Keeps Api.fini
unfolding Api.fini
fini-Keeps = Keeps-bind (query (λ c. ok c.is_init)) _ (Keeps-query _) λ is_init.
    Keeps-guard (not is_init) Error.not_initialized _ (record { keeps = λ c s on. cc on })

init_again : (c : Context) → c.is_init ≡ true → (Api.init c).1 ≡ c
unfolding Api.init
init_again c on = simp on

-- `init` makes the globals sound whatever they were, when the library was not in use.
init-Keeps : Keeps Api.init
init-Keeps = record {
  keeps = λ c s. elim (Bool-cases c.is_init) [
    | inl on ↦ rw (init_again c on) s
    | inr off ↦
        let (ran, ready, none_present, same_memory, again) = init_lem c off in
        λ on. record {
          drivers = ready;
          has_driver = λ d present. cc (present, none_present d);
          has_partition = λ present. cc (present, none_present device_cartridge);
        }
  ];
}

-- A call of the library that may change its globals, with those before and after it. The functions
-- that are left out change none: get_version, get_device_name, is_readable and is_writeable.
pub data Step : Context → Context → Type 0 where
  init : (c : Context) → Step c (Api.init c).1
  fini : (c : Context) → Step c (Api.fini c).1
  is_present : (c : Context) (d : ℕ) → Step c (Api.is_present d c).1
  stat : (c : Context) (d : ℕ) (has_out : Bool) → Step c (Api.stat d has_out c).1
  list_saves :
      (c : Context) (d : ℕ) (saves : Option (List SaveMetadata)) (num_saves : ℕ)
      → Step c (Api.list_saves d saves num_saves c).1
  query_file :
      (c : Context) (d : ℕ) (filename : Option (List ℕ)) (metadata : Option SaveMetadata)
      → Step c (Api.query_file d filename metadata c).1
  read :
      (c : Context) (d : ℕ) (filename : Option (List ℕ)) (has_out : Bool) (size : ℕ)
      → Step c (Api.read d filename has_out size c).1
  write :
      (c : Context) (d flags : ℕ) (filename : Option (List ℕ)) (metadata : Option SaveMetadata)
      (buffer : Option (List ℕ)) (size : ℕ)
      → Step c (Api.write d flags filename metadata buffer size c).1
  delete : (c : Context) (d : ℕ) (filename : Option (List ℕ)) → Step c (Api.delete d filename c).1
  format : (c : Context) (d : ℕ) → Step c (Api.format d c).1

-- Any number of such calls.
pub data Session (c : Context) : Context → Type 0 where
  starts : Session c c
  goes_on : {c' c'' : Context} → Session c c' → Step c' c'' → Session c c''

Step-Sound : {c c' : Context} → Step c c' → Sound c → Sound c'
Step-Sound (Step.init c) = init-Keeps.keeps c
Step-Sound (Step.fini c) = fini-Keeps.keeps c
Step-Sound (Step.is_present c d) = (is_present-Keeps d).keeps c
Step-Sound (Step.stat c d has_out) = (stat-Keeps d has_out).keeps c
Step-Sound (Step.list_saves c d saves num_saves) = (list_saves-Keeps d saves num_saves).keeps c
Step-Sound (Step.query_file c d filename metadata) = (query_file-Keeps d filename metadata).keeps c
Step-Sound (Step.read c d filename has_out size) = (read-Keeps d filename has_out size).keeps c
Step-Sound (Step.write c d flags filename metadata buffer size) =
    (write-Keeps d flags filename metadata buffer size).keeps c
Step-Sound (Step.delete c d filename) = (delete-Keeps d filename).keeps c
Step-Sound (Step.format c d) = (format-Keeps d).keeps c

Session-Sound : {c c' : Context} → Session c c' → Sound c → Sound c'
Session-Sound starts s = s
Session-Sound (goes_on before last) s = Step-Sound last (Session-Sound before s)

-- From globals of a library that is not in use, whatever else they hold, and after any calls of
-- Slinga_Init, Slinga_Fini and the functions on devices, with any arguments and outcomes: when the
-- library is then in use, the device types below 8 have their drivers, every device that is
-- marked present has one, and a cartridge that is has, by the type that was detected, a well-formed
-- partition whose bitmap fits the array.
pub Session-Ready :
    (c c' : Context) → c.is_init ≡ false → Session c c' → c'.is_init ≡ true → Ready c'
Session-Ready c c' off calls = Session-Sound calls (λ on. cc (on, off))
