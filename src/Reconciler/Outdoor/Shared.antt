-- ===== src/Reconciler/Outdoor/Shared.antt =====
-- To whom the outdoor conditions are written.
use building_controls.Prelude.{
  ℕ, ◌≤◌, ◌≡◌, ◌≢◌, ◌⊎◌, Bool, true, ◌&&◌, Option, none, some, List, [], length, All, ◌==◌, nat_eq,
  string_eq, list_eq, option_eq, pair_eq,
}
use building_controls.Prelude.Table.{exists}
use building_controls.Database.{Database}
use building_controls.Reconciler.Outdoor.{Thermostat, Reading, Write, Outdoor}

-- A write of the reading to another device than the one it comes from.
abbrev pub IsOfReading : Reading → Write → Type 0
IsOfReading r w =
    (r.skip_id ≢ some w.device_id)
    × (((w.key ≡ "oa_temp_in") × (w.value ≡ r.temp))
        ⊎ ((w.key ≡ "oa_humidity_in") × (r.humidity ≡ some w.value)))

abbrev pub is_temp_of : ℕ → Write → Bool
is_temp_of id w = w.device_id == id && w.key == "oa_temp_in"

-- The reading comes from this device, or the temperature was sent to it.
abbrev pub IsServed : Reading → List Write → Thermostat → Type 0
IsServed r writes d =
    (r.skip_id ≡ some d.device_id) ⊎ (exists (is_temp_of d.device_id) writes ≡ true)

-- Every write is of the reading, every device is served, and no more of them are counted than there are.
abbrev pub IsShared : Reading → List Thermostat → ℕ × List Write → Type 0
IsShared r ds (shared, writes) =
    All (IsOfReading r) writes × All (IsServed r writes) ds × (shared ≤ length ds)

module _ (acknowledges : Write → Bool) where
  temp_write : ℕ → Reading → Write
  temp_write id r = record { device_id = id; key = "oa_temp_in"; value = r.temp }

-- What one pass of sharing does with a reading, or without one.
abbrev pub SharesOutdoor :
    List Thermostat → Option Reading → Database → Option Outdoor × List Write × Database → Type 0
SharesOutdoor devices none db (o, writes, db') = (o ≡ none) × (writes ≡ []) × (db' ≡ db)
SharesOutdoor devices (some r) db (o, writes, db') =
    (outdoor : Outdoor) × (o ≡ some outdoor)
    × IsShared r devices (outdoor.devices, writes)
    × ((outdoor.devices ≡ 0) → db' ≡ db)
