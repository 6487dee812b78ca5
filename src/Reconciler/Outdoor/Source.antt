-- ===== src/Reconciler/Outdoor/Source.antt =====
-- Where the outdoor conditions come from.
use building_controls.Prelude.{
  ℕ, ◌≡◌, refl, ◌⊎◌, inl, inr, true, String, Option, none, some, List, arith, Option-cases, ◌==◌,
  nat_eq, string_eq, list_eq, option_eq, pair_eq, some-inj,
}
use mathlib.Core.Path.{subst}
use Prim.Native.String.{◌++◌ as str_append}
use building_controls.Prelude.Int.{ℤ}
use building_controls.Prelude.Table.{fetch_one, exists}
use building_controls.Value.{Values}
use building_controls.Weather.{Conditions}
use building_controls.Reconciler.Outdoor.{
  Thermostat, Reading, valid_value, sensor_reading, weather_reading, outdoor_reading,
}

-- where the reading comes from
abbrev pub ComesFrom :
    List Thermostat → (ℕ → Option Values) → (String → ℤ) → Option Conditions → Reading → Type 0
ComesFrom devices read_points float conditions r =
    ((id : ℕ) × (values : Values) × (r.skip_id ≡ some id)
      × (exists (λ (d : Thermostat). d.device_id == id) devices ≡ true)
      × (read_points id ≡ some values)
      × (valid_value "oa_temp" values ≡ some r.temp)
      × (r.humidity ≡ valid_value "oa_humidity" values))
    ⊎ ((r.skip_id ≡ none)
        × ((c : Conditions) × (conditions ≡ some c) × (r.temp ≡ float c.temperature_f)))

sensor_reading-ComesFrom :
    (devices : List Thermostat) (read_points : ℕ → Option Values) (source_id : Option ℕ)
    (float : String → ℤ) (conditions : Option Conditions)
    → (sensor_reading devices read_points source_id ≡ none)
      ⊎ ((r : Reading) × (sensor_reading devices read_points source_id ≡ some r)
          × ComesFrom devices read_points float conditions r)
unfolding sensor_reading
sensor_reading-ComesFrom devices read_points none float conditions = inl refl
sensor_reading-ComesFrom devices read_points (some id) float conditions =
    elim (Option-cases (fetch_one (λ (d : Thermostat). d.device_id == id) devices)) [
      | inl missing ↦ rw (missing, sensor_reading) (inl refl)
      | inr (source, found) ↦ elim (Option-cases (read_points id)) [
        | inl dark ↦ rw (found, dark, sensor_reading) (inl refl)
        | inr (values, read) ↦ elim (Option-cases (valid_value "oa_temp" values)) [
          | inl invalid ↦ rw (found, read, sensor_reading) (rw invalid (inl refl))
          | inr (temp, valid) ↦
              let r : Reading = record {
                temp = temp;
                humidity = valid_value "oa_humidity" values;
                label = str_append "sensor at " source.name;
                skip_id = some id;
              } in
              inr (
                r,
                rw (found, read, sensor_reading) (rw valid refl),
                inl (id, values, refl, rw found refl, read, valid, refl),
              )
        ]
      ]
    ]

weather_reading-ComesFrom :
    (devices : List Thermostat) (read_points : ℕ → Option Values) (float : String → ℤ)
    (conditions : Option Conditions) (r : Reading)
    → weather_reading float conditions ≡ some r
    → ComesFrom devices read_points float conditions r
weather_reading-ComesFrom devices read_points float none r h = ground arith
weather_reading-ComesFrom devices read_points float (some c) r h =
    subst (ComesFrom devices read_points float (some c)) (some-inj _ r h)
      (inr (refl, (c, refl, refl)))

pub outdoor_reading-ComesFrom :
    (devices : List Thermostat) (read_points : ℕ → Option Values) (source_id : Option ℕ)
    (float : String → ℤ) (conditions : Option Conditions) (r : Reading)
    → outdoor_reading devices read_points source_id float conditions ≡ some r
    → ComesFrom devices read_points float conditions r
unfolding outdoor_reading
outdoor_reading-ComesFrom devices read_points source_id float conditions r h =
    elim (sensor_reading-ComesFrom devices read_points source_id float conditions) [
      | inl none_ ↦
          weather_reading-ComesFrom devices read_points float conditions r
            (rw (none_, outdoor_reading) at h)
      | inr (s, some_, from) ↦
          subst (ComesFrom devices read_points float conditions)
            (some-inj s r (rw (some_, outdoor_reading) at h)) from
    ]
