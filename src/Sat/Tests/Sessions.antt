-- ===== src/Sat/Tests/Sessions.antt =====
-- devices/sat/sat.c: calls one after the other on a small partition.
use libslinga.Sat.Write.{sat_write}
use libslinga.Sat.Delete.{sat_delete}
use libslinga.Prelude.{ℕ, ◌≡◌, some, ok}
use libslinga.Memory.{Memory}
use libslinga.Sat.Tests.{saved, small, small_layout, name, note, payload}
use libslinga.Sat.Format.{sat_format, sat_check_formatted}
use libslinga.Sat.Session.{Step, Session, Within, sat_check_formatted-Session}

abbrev formatted : Memory
formatted = (sat_format small saved).1

abbrev with_save : Memory
with_save = (sat_write 0 (some name) (some note) (some payload) 53 small formatted).1

abbrev without_save : Memory
without_save = (sat_delete (some name) small with_save).1

-- A save is written and deleted.
write_and_delete : Session small formatted without_save
write_and_delete =
    Session.goes_on (Session.goes_on Session.starts (Step.writes formatted 0 name note payload 53))
      (Step.deletes with_save name)

sat_check_formatted-Session_example :
    (sat_check_formatted without_save small ≡ ok tt)
    × ((a : ℕ) → ¬ Within small_layout a → without_save a ≡ saved a)
sat_check_formatted-Session_example =
    sat_check_formatted-Session small_layout saved without_save write_and_delete
