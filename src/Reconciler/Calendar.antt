-- ===== src/Reconciler/Calendar.antt =====
-- Holidays and dated exceptions of a device (bms/reconciler.py `_reconcile_holidays` and
-- `_reconcile_exceptions`). The contents that bacpypes gives of an entry are a parameter.
pub mod Laws
mod Tests
use building_controls.Prelude.{
  ℕ, ap, Bool, true, String, Option, none, some, List, [], ◌∷◌, ◌++◌, map, if◌then◌else◌, Eq,
  nat_eq, string_eq, list_eq, option_eq, pair_eq,
}
use building_controls.Prelude.Text.{Text}
use building_controls.Prelude.Dates.{Date}
use building_controls.Database.{Database, Holiday, OccupancyException, log, log_as}
use building_controls.Store.Calendar.{holidays, exceptions_for}
use building_controls.Holidays.{CalendarEntry, to_calendar_entries}
use building_controls.Schedules.Events.{
  SpecialEvent, holiday_event, priority_holiday, exception_to_bacnet,
}
use building_controls.Reconciler.{Pass, fails, correct}
use building_controls.Reconciler.Drift.{Contents, same}

-- What the client offers for the calendar and the exceptions of one device; a read that fails is `none`.
pub record CalendarClient (D : Type 0) : Type 0 where
  pub read_calendar : D → Option (List Contents)
  pub write_calendar : List CalendarEntry → D → Bool × D
  pub write_exceptions : List SpecialEvent → D → Bool × D

abbrev pub holiday_calendar : String
holiday_calendar = "calendar,3"

-- the state of the first rule, if there are holidays at all
abbrev pub holiday_events : List Holiday → List SpecialEvent
holiday_events [] = []
holiday_events (h ∷ hs) = holiday_event holiday_calendar h.state priority_holiday ∷ []

-- the pass once the calendar has been written
abbrev pub pushed : {D : Type 0} → String → String → D → Pass D → Pass D
pushed actor name device p = record {
  result = record p.result { changed = p.result.changed ++ "holidays" ∷ [] };
  thermostat = device;
  db = log actor "reconcile.holidays" (some name) p.db;
}

module _ (fromisoformat : Text → Option Date) where
  -- the events that could be made, and an error for each that could not
  unfoldable pub one_offs : List OccupancyException → List SpecialEvent × List String
  one_offs [] = ([], [])
  one_offs (e ∷ es) =
      let rest = one_offs es in
      elim (exception_to_bacnet fromisoformat e) [
        | none ↦ (rest.0, e.name ∷ rest.1)
        | some event ↦ (event ∷ rest.0, rest.1)
      ]

  module _ {D : Type 0} (client : CalendarClient D) (actor name : String) (today : Text) where
    unfoldable pub reconcile_exceptions : List Holiday → List OccupancyException → Pass D → Pass D
    unfolding one_offs
    reconcile_exceptions hs es p =
        let made = one_offs es in
        let written = client.write_exceptions (holiday_events hs ++ made.0) p.thermostat in
        record p {
          result =
              if written.0
              then record p.result {
                errors = p.result.errors ++ made.1;
                already_correct = p.result.already_correct ++ "exceptions" ∷ [];
              }
              else record p.result {
                errors = p.result.errors ++ made.1 ++ "write exception schedule" ∷ [];
              };
          thermostat = written.1;
        }

    -- a refused write of the calendar ends the step
    unfoldable pub push_calendar :
        List CalendarEntry → List Holiday → List OccupancyException → Pass D → Pass D
    unfolding reconcile_exceptions
    push_calendar desired hs es p =
        let written = client.write_calendar desired p.thermostat in
        if written.0 then reconcile_exceptions hs es (pushed actor name written.1 p) else record {
          result = record p.result { errors = p.result.errors ++ "write calendar" ∷ [] };
          thermostat = written.1;
          db = log_as "error" actor "reconcile.holidays" (some name) p.db;
        }

    module _ (dict_contents : CalendarEntry → Contents) where
      -- the zone is what `Zones.of` answers for the device
      unfoldable pub reconcile_holidays : ℕ → String → Pass D → Pass D
      unfolding push_calendar
      reconcile_holidays device_id zone p =
          let hs = holidays (some device_id) (some zone) true p.db in
          let es = exceptions_for device_id zone (some today) p.db in
          elim (to_calendar_entries hs) [
            | none ↦ fails "holiday rules invalid" p
            | some desired ↦ elim (client.read_calendar p.thermostat) [
              | none ↦ fails "read calendar" p
              | some current ↦
                  if same current (map dict_contents desired)
                  then reconcile_exceptions hs es (correct "holidays" p)
                  else push_calendar desired hs es p
            ]
          ]
