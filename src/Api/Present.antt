-- ===== src/Api/Present.antt =====
-- devices/: `is_present` of each driver keeps the globals sound.
use libslinga.Prelude.{ℕ, ◌≡◌, arith, Bool, true, false, ◌==◌, ◌!=◌, not, Error, Result, inl, inr}
use libslinga.Prelude.{Bool-cases}
use libslinga.Prelude.Action.{◌>>◌, lift, reject}
use libslinga.Context.{Context, mark_present, device_internal, device_ram, device_action_replay}
use libslinga.Devices.Saturn
use libslinga.Devices.Ram
use libslinga.Devices.ActionReplay
use libslinga.Cartridge.{get_cartridge_type}
use libslinga.Api.Laws.{driver_for}
use libslinga.Api.Sound.{Sound, Keeps, Keeps-bind, Keeps-lift, Keeps-guard, Keeps-mark}
use libslinga.Api.Sound.{probe-Keeps}

pub saturn-Keeps : (d : ℕ) → Keeps (Saturn.is_present d)
unfolding Saturn.is_present driver_for
saturn-Keeps d = record { keeps = λ c s. by_test c s }
  where
    internal : (d == device_internal) ≡ true → Keeps (mark_present d)
    internal e = Keeps-mark d (ground arith) (ground arith)

    by_test : (c : Context) → Sound c → Sound (Saturn.is_present d c).1
    by_test c s = elim (Bool-cases (Saturn.not_saturn d)) [
      | inl other ↦ rw other s
      | inr ours ↦ rw ours (elim (Bool-cases (c.is_present d)) [
        | inl known ↦ rw known s
        | inr unknown ↦ rw unknown (elim (Bool-cases (d == device_internal)) [
          | inl first ↦ rw first ((internal first).keeps c s)
          | inr second ↦ rw second (probe-Keeps.keeps c s)
        ])
      ])
    ]

pub ram-Keeps : (d : ℕ) → Keeps (Ram.is_present d)
unfolding Ram.is_present driver_for
ram-Keeps d = record { keeps = λ c s. by_test c s }
  where
    marked : (d != device_ram) ≡ false → Keeps (mark_present d)
    marked e = Keeps-mark d (ground arith) (ground arith)

    by_test : (c : Context) → Sound c → Sound (Ram.is_present d c).1
    by_test c s = elim (Bool-cases (d != device_ram)) [
      | inl other ↦ rw other s
      | inr ours ↦ rw ours (elim (Bool-cases (c.is_present d)) [
        | inl known ↦ rw known s
        | inr unknown ↦ rw unknown ((marked ours).keeps c s)
      ])
    ]

pub action_replay-Keeps : (d : ℕ) → Keeps (ActionReplay.is_present d)
unfolding ActionReplay.is_present driver_for
action_replay-Keeps d = record { keeps = λ c s. by_test c s }
  where
    marked : (d != device_action_replay) ≡ false → Keeps (mark_present d)
    marked e = Keeps-mark d (ground arith) (ground arith)

    detect :
        (magic : Bool) (ram : Result (Unit {0}))
        → (d != device_action_replay) ≡ false
        → Keeps (reject (not magic) Error.device_not_present >> (lift ram >> mark_present d))
    detect magic ram ours =
        Keeps-guard (not magic) Error.device_not_present (lift ram >> mark_present d)
          (Keeps-bind (lift ram) (λ t. mark_present d) (Keeps-lift ram) (λ t. marked ours))

    by_test : (c : Context) → Sound c → Sound (ActionReplay.is_present d c).1
    by_test c s = elim (Bool-cases (d != device_action_replay)) [
      | inl other ↦ rw other s
      | inr ours ↦ rw ours (elim (Bool-cases (c.is_present d)) [
        | inl known ↦ rw known s
        | inr unknown ↦ rw unknown (
            (detect (ActionReplay.has_magic c.memory)
                (ActionReplay.extended_ram (get_cartridge_type c.memory)) ours).keeps
              c s)
      ])
    ]
