-- ===== src/Reconciler/Outdoor.antt =====
-- Sharing the outdoor conditions with the thermostats (bms/reconciler.py `_outdoor_reading`,
-- `_share_outdoor_air`). Real values are whole numbers of thousandths; the rounding of what is kept for
-- the page is left out.
pub mod Source
pub mod Shared
mod Tests
use building_controls.Prelude.{
  ℕ, suc, ap, Bool, true, false, String, Option, none, some, List, [], ◌∷◌, ◌++◌, ltb,
  if◌then◌else◌, Eq, ◌==◌, nat_eq, string_eq, list_eq, option_eq, pair_eq,
}
use building_controls.Prelude.Int.{ℤ, pos}
use building_controls.Prelude.Dict.{Dict, lookup}
use building_controls.Prelude.Table.{fetch_one}
use building_controls.Value.{Value, Values, number, flag, text, null, is_valid}
use building_controls.Database.{Database, log}
use building_controls.Weather.{Conditions}
use Prim.Native.String.{◌++◌ as str_append}

pub record Thermostat : Type 0 where
  pub device_id : ℕ
  pub name : String

pub record Reading : Type 0 where
  pub temp : ℤ
  pub humidity : Option ℤ
  pub label : String
  pub skip_id : Option ℕ

-- `float` of a value that is valid
abbrev pub float_of : Value → Option ℤ
float_of (number x) = some x
float_of (flag b) = some (if b then pos 1000 else pos 0)
float_of (text s) = none
float_of null = none

-- the value of a point where it is there and valid
abbrev pub valid_value : String → Values → Option ℤ
valid_value key values = elim (lookup key values) [
  | none ↦ none
  | some v ↦ if is_valid v then float_of v else none
]

-- the reading of the sensor: none where it is not in the inventory, does not answer, or has no value
unfoldable pub sensor_reading : List Thermostat → (ℕ → Option Values) → Option ℕ → Option Reading
sensor_reading devices read_points none = none
sensor_reading devices read_points (some source_id) =
    elim (fetch_one (λ (d : Thermostat). d.device_id == source_id) devices) [
      | none ↦ none
      | some source ↦ elim (read_points source_id) [
        | none ↦ none
        | some values ↦ elim (valid_value "oa_temp" values) [
          | none ↦ none
          | some temp ↦ some (record {
            temp = temp;
            humidity = valid_value "oa_humidity" values;
            label = str_append "sensor at " source.name;
            skip_id = some source_id;
          })
        ]
      ]
    ]

abbrev float_option : (String → ℤ) → Option String → Option ℤ
float_option float none = none
float_option float (some s) = some (float s)

-- the reading of the weather service, for the numbers that it gives as text
abbrev pub weather_reading : (String → ℤ) → Option Conditions → Option Reading
weather_reading float none = none
weather_reading float (some c) = some (record {
  temp = float c.temperature_f;
  humidity = float_option float c.humidity_pct;
  label = str_append "weather for " c.place;
  skip_id = none;
})

abbrev pub or_reading : Option Reading → Option Reading → Option Reading
or_reading none r = r
or_reading (some s) r = some s

unfoldable pub outdoor_reading :
    List Thermostat
    → (ℕ → Option Values)
    → Option ℕ
    → (String → ℤ)
    → Option Conditions
    → Option Reading
unfolding sensor_reading
outdoor_reading devices read_points source_id float conditions =
    or_reading (sensor_reading devices read_points source_id) (weather_reading float conditions)

-- a write to a thermostat
pub record Write : Type 0 where
  pub device_id : ℕ
  pub key : String
  pub value : ℤ

pub record Outdoor : Type 0 where
  pub temperature : ℤ
  pub humidity : Option ℤ
  pub source : String
  pub devices : ℕ

-- the device that the reading comes from
abbrev pub is_skipped : Option ℕ → ℕ → Bool
is_skipped none id = false
is_skipped (some skip) id = id == skip

module _ (acknowledges : Write → Bool) where
  abbrev pub humidity_writes : ℕ → Option ℤ → Bool × List Write
  humidity_writes id none = (true, [])
  humidity_writes id (some h) =
      let w : Write = record { device_id = id; key = "oa_humidity_in"; value = h } in
      (acknowledges w, w ∷ [])

  -- the writes to one device, and whether all of them were acknowledged
  abbrev pub share_to : ℕ → Reading → Bool × List Write
  share_to id r =
      let w : Write = record { device_id = id; key = "oa_temp_in"; value = r.temp } in
      let (done, more) = humidity_writes id r.humidity in
      if acknowledges w then (done, w ∷ more) else (false, w ∷ [])

  -- the loop: how many devices were reached, and all the writes that went out
  unfoldable pub share : Reading → List Thermostat → ℕ × List Write
  share r [] = (0, [])
  share r (d ∷ ds) =
      let (shared, writes) = share r ds in
      elim (is_skipped r.skip_id d.device_id) [
        | true ↦ (shared, writes)
        | false ↦
            let (done, first) = share_to d.device_id r in
            (if done then suc shared else shared, first ++ writes)
      ]

  -- what is kept for the page, the writes, and the database after it
  unfoldable pub share_outdoor_air :
      List Thermostat → String → Option Reading → Database → Option Outdoor × List Write × Database
  unfolding share
  share_outdoor_air devices actor none db = (none, [], db)
  share_outdoor_air devices actor (some r) db =
      let (shared, writes) = share r devices in
      (
        some (record {
          temperature = r.temp;
          humidity = r.humidity;
          source = r.label;
          devices = shared;
        }),
        writes,
        if ltb 0 shared then log actor "reconcile.outdoor_air" (some r.label) db else db,
      )
