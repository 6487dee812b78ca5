-- ===== src/Reconciler/Outdoor/Tests.antt =====
-- A building of two thermostats, one of them with the sensor: an instance of the theorem.
use building_controls.Prelude.{
  ℕ, Bool, true, String, Option, some, List, [], ◌∷◌, nat_eq, string_eq, list_eq, option_eq,
  pair_eq,
}
use building_controls.Prelude.Int.{ℤ, pos}
use building_controls.Value.{Values, number}
use building_controls.Reconciler.Outdoor.{Thermostat, Write}

abbrev two : List Thermostat
two =
    record { device_id = 301; name = "Room 301" }
    ∷ record { device_id = 302; name = "Room 302" }
    ∷ []

abbrev answers : ℕ → Option Values
answers id = some (("oa_temp", number (pos 81500)) ∷ [])

abbrev no_numbers : String → ℤ
no_numbers s = pos 0

abbrev all_good : Write → Bool
all_good w = true
