-- ===== src/Bacnet/Client/Tests.antt =====
-- The answers of one thermostat: instances of the theorems.
use building_controls.Prelude.{
  ◌≡◌, refl, String, none, some, List, [], ◌∷◌, nat_eq, string_eq, list_eq, option_eq, pair_eq,
}
use building_controls.Prelude.Int.{pos}
use building_controls.Prelude.Dict.{lookup}
use building_controls.Value.{Values, number}
use building_controls.Bacnet.Client.{
  by_objid, Answer, error, value, read_points, DeviceDate, DeviceTime,
}
use building_controls.Bacnet.Client.Points.{last_value, read_points_lem}

abbrev result : List (String × Answer)
result =
    ("analog-output,18", value (number (pos 72500)))
    ∷ ("analog-output,19", error)
    ∷ ("analog-input,1", value (number (pos 1000)))
    ∷ []

read_points_lem_example :
    (values : Values) × (read_points (some result) ≡ some values)
    × (lookup "space_temp" values ≡ last_value "analog-output,18" none result)
unfolding by_objid
read_points_lem_example = read_points_lem "analog-output,18" "space_temp" result refl

abbrev today : DeviceDate
today = record { year = 126; month = 8; day = 4 }

abbrev clock : DeviceTime
clock = record { hour = 13; minute = 5; second = 255 }
