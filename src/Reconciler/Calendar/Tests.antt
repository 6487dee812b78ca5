-- ===== src/Reconciler/Calendar/Tests.antt =====
-- A device that keeps its calendar and its exceptions as they are written.
use building_controls.Prelude.{
  ◌↔◌, ◌≡◌, refl, true, Option, none, some, List, [], ◌∷◌, map, nat_eq, string_eq, list_eq,
  option_eq, pair_eq,
}
use building_controls.Prelude.Text.{Text, codes}
use building_controls.Prelude.Dates.{Date}
use building_controls.Database.{Database, Holiday, fixed, global, new_database}
use building_controls.Store.Calendar.{holidays, exceptions_for, add_holiday}
use building_controls.Prelude.Int.{pos}
use building_controls.Store.Calendar.{in_scope}
use building_controls.Prelude.Sort.{order_by}
use building_controls.Holidays.{
  CalendarEntry, on_date, date_range, week_n_day, to_calendar_entries, to_calendar_entry,
}
use building_controls.Schedules.Events.{SpecialEvent}
use building_controls.Reconciler.{Pass, fails, new_result, again}
use building_controls.Reconciler.Drift.{same, same_iff, occurs, Contents, leaf, fields, field, end}
use building_controls.Reconciler.Calendar.{CalendarClient, one_offs, reconcile_holidays}
use building_controls.Reconciler.Calendar.Laws.{
  IsFaithful, reconcile_holidays-converges, reconcile_holidays-malformed,
}

abbrev contents : CalendarEntry → Contents
contents (on_date d) = fields (field (codes "date") (leaf (d.month ∷ d.day ∷ [])) end)
contents (date_range a b) =
    fields (field (codes "dateRange") (leaf (a.month ∷ a.day ∷ b.month ∷ b.day ∷ [])) end)
contents (week_n_day m week weekday) =
    fields (field (codes "weekNDay") (leaf (m ∷ week ∷ weekday ∷ [])) end)

abbrev Device : Type 0
Device = List Contents × List SpecialEvent

abbrev keeper : CalendarClient Device
keeper = record {
  read_calendar = λ d. some d.0;
  write_calendar = λ es d. (true, (map contents es, d.1));
  write_exceptions = λ evs d. (true, (d.0, evs));
}

keeper-IsFaithful : IsFaithful contents keeper
keeper-IsFaithful = record {
  reads = λ d. (d.0, refl);
  acknowledges = λ es d. refl;
  lands = λ es d. (map contents es, refl, (λ k. refl));
  takes = λ evs d. refl;
  keeps = λ evs d. refl;
}

abbrev no_dates : Text → Option Date
no_dates t = none

abbrev christmas : Holiday
christmas = record {
  id = 1;
  name = "Christmas Day";
  rule_type = fixed;
  state = 1;
  enabled = true;
  year = none;
  month = some 12;
  day = some 25;
  end_month = none;
  end_day = none;
  week_of_month = none;
  day_of_week = none;
  scope = global;
  scope_ref = "*";
}

abbrev building : Database
building = record new_database { holiday = christmas ∷ []; next_holiday = 2 }

abbrev empty_device : Pass Device
empty_device = record { result = new_result; thermostat = ([], []); db = building }

reconcile_holidays-converges_example :
    let pass =
      reconcile_holidays no_dates keeper "reconciler" "Room 301"
        (codes "2026-08-05")
        contents
        301
        "floor-3" in
    let p' = pass empty_device in
    let p'' = pass (again p') in
    (p''.result ≡ record {
      changed = [];
      already_correct = "holidays" ∷ "exceptions" ∷ [];
      errors =
          (one_offs no_dates (exceptions_for 301 "floor-3" (some (codes "2026-08-05")) building)).1;
    })
    × (p''.db ≡ p'.db)
    × (some p''.thermostat.0 ≡ some p'.thermostat.0)
unfolding holidays to_calendar_entries to_calendar_entry order_by
reconcile_holidays-converges_example =
    reconcile_holidays-converges no_dates keeper "reconciler" "Room 301" (codes "2026-08-05")
      contents keeper-IsFaithful 301 "floor-3" empty_device
      (on_date (record { year = pos 255; month = 12; day = 25 }) ∷ []) refl

-- A fixed rule without its day.
abbrev dayless : Holiday
dayless = record christmas { day = none }

reconcile_holidays-malformed_example :
    let p' = record empty_device { db = (add_holiday dayless "api" building).1 } in
    reconcile_holidays no_dates keeper "reconciler" "Room 301"
      (codes "2026-08-05")
      contents
      301
      "floor-3"
      p'
    ≡ fails "holiday rules invalid" p'
unfolding to_calendar_entry in_scope
reconcile_holidays-malformed_example =
    reconcile_holidays-malformed no_dates keeper "reconciler" "Room 301" (codes "2026-08-05")
      contents dayless "api" 301 "floor-3" empty_device refl refl refl

abbrev summer_and_winter : List Contents
summer_and_winter =
    contents (week_n_day 7 1 1)
    ∷ contents (on_date (record { year = pos 255; month = 12; day = 25 }))
    ∷ []

abbrev winter_and_summer : List Contents
winter_and_summer =
    contents (on_date (record { year = pos 255; month = 12; day = 25 }))
    ∷ contents (week_n_day 7 1 1)
    ∷ []

same_iff_example :
    (same summer_and_winter winter_and_summer ≡ true)
    ↔ ((form : Text) → occurs form summer_and_winter ≡ occurs form winter_and_summer)
same_iff_example = same_iff summer_and_winter winter_and_summer
