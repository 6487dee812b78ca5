-- ===== src/Weather/Tests.antt =====
-- A source with a postcode: instances of the theorems.
use building_controls.Prelude.{
  none, some, List, [], ◌∷◌, nat_eq, string_eq, list_eq, option_eq, pair_eq,
}
use building_controls.Weather.{WeatherSource, Place, Current, Moment, run}
use building_controls.Weather.LookUps.{LookedUpFirst, run-LookedUpFirst}

abbrev encino : WeatherSource
encino = record {
  zip = some "91436";
  lat = none;
  lon = none;
  place_name = "";
  cached = none;
  fetched_at = 0;
}

abbrev place : Place
place = record { latitude = some "34.15"; longitude = some "-118.48"; label = some "Encino, CA" }

abbrev warm : Current
warm = record { temperature = some "81.5"; humidity = none; time = some "2026-08-04T12:00" }

-- the forecast fails at first
abbrev moments : List Moment
moments =
    record {
      places = λ zip. some place;
      forecasts = λ lat lon. none;
      now = 1000000;
      later = 1000100;
    }
    ∷ record {
      places = λ zip. some place;
      forecasts = λ lat lon. some warm;
      now = 1300000;
      later = 1300100;
    }
    ∷ []

run-LookedUpFirst_example : LookedUpFirst (run moments encino).1
run-LookedUpFirst_example = run-LookedUpFirst moments encino
