-- ===== src/Schedules/Events.antt =====
-- Special events of a schedule: the holiday calendar (bms/bacnet.py `holiday_event`) and dated one-offs
-- (bms/schedules.py `exception_to_bacnet`). `date.fromisoformat` is a parameter; a `ValueError` is `none`.
use building_controls.Prelude.{
  ℕ, String, Option, none, some, List, [], ◌∷◌, map, if◌then◌else◌, nat_eq, string_eq, list_eq,
  option_eq, pair_eq,
}
use mathlib.Core.Option
use building_controls.Prelude.Int.{pos, sub_ℕ}
use building_controls.Prelude.Text.{Text}
use building_controls.Prelude.Dates.{Date, before}
use building_controls.Database.{Transition, OccupancyException}
use building_controls.Holidays.{BacnetDate, CalendarEntry, on_date, date_range}
use building_controls.Auth.Password.{ok}
use building_controls.Schedules.{TimeValue, Draft, validate_transitions, day_to_bacnet}

pub data Period : Type 0 where
  calendar_reference : String → Period
  calendar_entry : CalendarEntry → Period

pub record SpecialEvent : Type 0 where
  pub period : Period
  pub time_values : List TimeValue
  pub priority : ℕ

abbrev pub priority_one_off : ℕ
priority_one_off = 1

abbrev pub priority_holiday : ℕ
priority_holiday = 2

unfoldable pub holiday_event : String → ℕ → ℕ → SpecialEvent
holiday_event calendar_objid state priority = record {
  period = calendar_reference calendar_objid;
  time_values =
      record { time = record { hour = 0; minute = 0; second = 0 }; value = pos state } ∷ [];
  priority = priority;
}

abbrev pub wire_date : Date → BacnetDate
wire_date d = record { year = sub_ℕ d.year 1900; month = d.month; day = d.day }

-- a stored transition, as `validate_transitions` takes it
abbrev pub draft : Transition → Draft
draft t = record { time = some t.time; state = some (ok t.state) }

module _ (fromisoformat : Text → Option Date) where
  -- an end that is the empty text counts as none
  unfoldable pub dated_entry : Text → Option Text → Option CalendarEntry
  dated_entry start_date none = Option.map (λ s. on_date (wire_date s)) (fromisoformat start_date)
  dated_entry start_date (some []) =
      Option.map (λ s. on_date (wire_date s)) (fromisoformat start_date)
  dated_entry start_date (some (c ∷ end_raw)) = elim (fromisoformat start_date) [
    | none ↦ none
    | some start ↦ elim (fromisoformat (c ∷ end_raw)) [
      | none ↦ none
      | some end ↦
          if before end start then none else some (date_range (wire_date start) (wire_date end))
    ]
  ]

  unfoldable pub exception_to_bacnet : OccupancyException → Option SpecialEvent
  unfolding dated_entry
  exception_to_bacnet e = elim (dated_entry e.start_date e.end_date) [
    | none ↦ none
    | some entry ↦ elim (validate_transitions (map draft e.transitions)) [
      | none ↦ none
      | some day ↦
          Option.map
            (λ vs. record {
              period = calendar_entry entry;
              time_values = vs;
              priority = priority_one_off;
            })
            (day_to_bacnet day)
    ]
  ]
