-- ===== src/Devices/ActionReplay/Laws.antt =====
-- devices/action_replay.c: `decompress_partition`, and the operations that begin with it.
use libslinga.Devices.ActionReplay.{is_null, wrong_device, decompress_partition, open_partition}
use libslinga.Devices.ActionReplay.{stat, list_saves, query_file, read}
use libslinga.Sat.Read.{sat_query_file}
use libslinga.Context.{Call, Context}
use libslinga.Prelude.{ℕ, ◌≡◌, refl, Result, err, Error, List, Option, some, none, Bool, true}
use libslinga.Prelude.{false, Bool-cases, not, inl, inr, ◌||◌, ◌==◌}
use libslinga.Prelude.Action.{query, ◌>>=◌, ◌>>◌, reject, lift}
use libslinga.Memory.{Memory}
use libslinga.Sat.Header.{SaveMetadata}

pub decompress_partition_lem :
    (src src_size : ℕ) (m : Memory)
    → decompress_partition src src_size m ≡ (err Error.invalid_parameter, m)
unfolding decompress_partition
decompress_partition_lem src src_size m = rw (always (src == 0) (src_size == 0)) refl
  where
    always : (a b : Bool) → (a || b || true || true) ≡ true
    always true b = refl
    always false true = refl
    always false false = refl

-- A call that fails and leaves all state as it was.
abbrev pub Fails : {A : Type 0} → Context → Result A × Context → Type 0
Fails c out = (e : Error) × (out ≡ (err e, c))

reject-Fails :
    {A : Type 0} (c : Context) (device_type : ℕ) (rest : Call A)
    → Fails c (rest c)
    → Fails c ((reject (wrong_device device_type) Error.invalid_device_type >> rest) c)
reject-Fails c device_type rest f = elim (Bool-cases (wrong_device device_type)) [
  | inl wrong ↦ rw wrong (Error.invalid_device_type, refl)
  | inr right ↦ rw right f
]

-- No save on an Action Replay cartridge can be counted, listed, looked up or read: whatever the
-- memory and the arguments, the four functions fail and change nothing, since
-- `decompress_partition` tests its two locals before it sets them.
pub action_replay-Fails :
    (device_type : ℕ) (c : Context) (filename : Option (List ℕ)) (has_out : Bool) (size : ℕ)
    (save : Option SaveMetadata) (saves : Option (List SaveMetadata)) (num_saves : ℕ)
    → Fails c (stat device_type has_out c)
      × Fails c (list_saves device_type saves num_saves c)
      × Fails c (query_file device_type filename save c)
      × Fails c (read device_type filename has_out size c)
unfolding stat list_saves query_file read
action_replay-Fails device_type c filename has_out size save saves num_saves = (
  reject-Fails c device_type _ (elim (Bool-cases (not has_out)) [
    | inl bad ↦ rw bad (Error.invalid_parameter, refl)
    | inr good ↦ rw good (Error.invalid_parameter, refl)
  ]),
  reject-Fails c device_type _ (Error.invalid_parameter, refl),
  queried save,
  reject-Fails c device_type _ (elim (Bool-cases (is_null filename || not has_out || size == 0)) [
    | inl bad ↦ rw bad (Error.invalid_parameter, refl)
    | inr good ↦ rw good (Error.invalid_parameter, refl)
  ]),
)
  where
    queried : (save : Option SaveMetadata) → Fails c (query_file device_type filename save c)
    queried none =
        reject-Fails c device_type (lift (err Error.invalid_parameter))
          (Error.invalid_parameter, refl)
    queried (some save) =
        reject-Fails c device_type
          (open_partition >>= λ p. query (λ c. sat_query_file c.memory filename p save))
          (Error.invalid_parameter, refl)
