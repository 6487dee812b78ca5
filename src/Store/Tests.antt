-- ===== src/Store/Tests.antt =====
-- The store on a small building: instances of the theorems.
use building_controls.Prelude.{
  ◌≡◌, refl, true, none, some, List, [], ◌∷◌, nat_eq, string_eq, list_eq, option_eq, pair_eq,
}
use building_controls.Prelude.Int.{pos}
use building_controls.Prelude.Dict.{lookup}
use building_controls.Prelude.Decimal.{str}
use building_controls.Database.{
  global, zone, device, SetpointIntent, Holiday, fixed, Database, new_database,
}
use building_controls.Store.Intent.{setpoints_for}
use building_controls.Store.Precedence.{intent, first_of, lookup-setpoints_for}

abbrev rows : List SetpointIntent
rows =
    record { scope = global; scope_ref = "*"; point_key = "occ_cool_sp"; value = pos 74000 }
    ∷ record { scope = device; scope_ref = "301"; point_key = "occ_cool_sp"; value = pos 71000 }
    ∷ []

abbrev building : Database
building = record new_database { setpoint_intent = rows }

lookup-setpoints_for_example :
    lookup "occ_cool_sp" (setpoints_for 301 "floor-3" building)
    ≡ first_of (intent device (str 301) "occ_cool_sp" building) (
        first_of
          (intent zone "floor-3" "occ_cool_sp" building)
          (intent global "*" "occ_cool_sp" building))
lookup-setpoints_for_example =
    lookup-setpoints_for 301 "floor-3" "occ_cool_sp" building (refl, (refl, tt))

abbrev christmas : Holiday
christmas = record {
  id = 0;
  name = "Christmas Day";
  rule_type = fixed;
  state = 1;
  enabled = true;
  year = none;
  month = some 12;
  day = some 25;
  end_month = none;
  end_day = none;
  week_of_month = none;
  day_of_week = none;
  scope = zone;
  scope_ref = "floor-3";
}

written_in_decimal : str 301 ≡ "301"
unfolding str
written_in_decimal = refl
