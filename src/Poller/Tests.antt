-- ===== src/Poller/Tests.antt =====
-- Polls of one suite, one of them without a status and one that fails: an instance of the theorem.
use building_controls.Prelude.{
  ℕ, ◌≡◌, ◌≢◌, refl, String, Option, none, some, List, [], ◌∷◌, nat_eq, string_eq, list_eq,
  option_eq, pair_eq,
}
use building_controls.Prelude.Int.{ℤ, pos}
use building_controls.Value.{number, Values}
use building_controls.Cache.{DeviceState, Cache, fresh}
use building_controls.Database.{Database, new_database}
use building_controls.Poller.{
  Answer, answered, unreachable, occupied, temporary, status, note_setpoint_change, moved,
}
use building_controls.Poller.Notes.{transitions}
use building_controls.Poller.Occupants.{run_polls, run_polls-transitions}

abbrev no_float : String → Option ℤ
no_float s = none

abbrev suite : DeviceState
suite = fresh 301 "Room 301" "floor-3" "192.168.1.101" 3

abbrev cache : Cache
cache = record { devices = (301, suite) ∷ []; stale_after = 90000; offline_after = 3 }

abbrev full_reading : Values
full_reading = ("setpoint_status", number (pos 1000)) ∷ ("heat_adjust", number (pos 0)) ∷ []

abbrev partial_reading : Values
partial_reading = ("heat_adjust", number (pos 2000)) ∷ []

abbrev polls : List (ℕ × Answer)
polls =
    (30000, answered full_reading 640)
    ∷ (60000, answered partial_reading 700)
    ∷ (90000, unreachable "timeout")
    ∷ (120000, answered full_reading 650)
    ∷ []

run_polls-transitions_example :
    (c' : Cache) × (db' : Database) × (run_polls no_float 301 "Room 301" polls cache new_database
      ≡ some (c', db'))
    × (transitions db' ≡ transitions new_database)
    × (occupied ≢ temporary → db' ≡ new_database)
unfolding status
run_polls-transitions_example =
    run_polls-transitions no_float 301 "Room 301" occupied polls cache new_database suite refl refl
      refl

-- a change of status between two full readings is logged, and is not when one lacks it
change_is_noted :
    note_setpoint_change no_float full_reading (("setpoint_status", number (pos 3000)) ∷ [])
    ≡ some (some "setpoint.temporary")
unfolding note_setpoint_change status moved
change_is_noted = refl
