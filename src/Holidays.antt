-- ===== src/Holidays.antt =====
-- Holiday rules as BACnet calendar entries, and the dates that they mean (bms/holidays.py). A field of an
-- entry that matches anything is 255. A call that raises is `none`.
pub mod Range
pub mod Floating
mod Tests
use mathlib.Core.Option
use building_controls.Prelude.{
  ℕ, zero, suc, ◌+◌, ◌-◌, ap, Bool, true, false, ◌&&◌, ◌||◌, not, Option, none, some, List, [], ◌∷◌,
  map, leb, if◌then◌else◌, is_some, get_elem?, Eq, ◌==◌, nat_eq, string_eq, list_eq, option_eq,
  pair_eq,
}
use building_controls.Prelude.Int.{ℤ, pos, sub_ℕ}
use building_controls.Prelude.Dates.{
  Date, date, days_in_month, isoweekday, ordinal, days_from, month_days, before,
}
use building_controls.Prelude.Table.{select}
use building_controls.Database.{Holiday, RuleType, fixed, range, floating}

-- `Date`, without its day of the week, which is always any
pub record BacnetDate : Type 0 where
  pub year : ℤ
  pub month : ℕ
  pub day : ℕ

pub data CalendarEntry : Type 0 where
  on_date : BacnetDate → CalendarEntry
  date_range : BacnetDate → BacnetDate → CalendarEntry
  week_n_day : (month week_of_month day_of_week : ℕ) → CalendarEntry

abbrev any_value : ℕ
any_value = 255

-- `if year`: none and 0 count as no year
abbrev pub truthy : Option ℕ → Bool
truthy none = false
truthy (some zero) = false
truthy (some (suc n)) = true

abbrev pub year_of : Option ℕ → ℤ
year_of none = pos any_value
year_of (some zero) = pos any_value
year_of (some (suc n)) = sub_ℕ (suc n) 1900

abbrev bacnet_date : Option ℕ → ℕ → ℕ → BacnetDate
bacnet_date year month day = record { year = year_of year; month = month; day = day }

-- two fields of a rule, where both are given
abbrev both : {A B : Type 0} → Option A → Option B → Option (A × B)
both none b = none
both (some a) none = none
both (some a) (some b) = some (a, b)

abbrev fixed_entry : Option ℕ → Option (ℕ × ℕ) → Option CalendarEntry
fixed_entry year none = none
fixed_entry year (some (m, d)) = some (on_date (bacnet_date year m d))

abbrev range_entry : Option ℕ → Option (ℕ × ℕ) → Option (ℕ × ℕ) → Option CalendarEntry
range_entry year none last = none
range_entry year (some first) none = none
range_entry year (some (m, d)) (some (em, ed)) =
    some (date_range (bacnet_date year m d) (bacnet_date year em ed))

-- `bytes` of the three fields raises above 255; the week and the day have been checked
abbrev floating_entry : Option ℕ → Option (ℕ × ℕ) → Option CalendarEntry
floating_entry none rest = none
floating_entry (some m) none = none
floating_entry (some m) (some (week, weekday)) =
    if leb 1 week && leb week 5 && leb 1 weekday && leb weekday 7 && leb m 255
    then some (week_n_day m week weekday)
    else none

unfoldable pub to_calendar_entry : Holiday → Option CalendarEntry
to_calendar_entry h = elim h.rule_type [
  | fixed ↦ fixed_entry h.year (both h.month h.day)
  | range ↦ range_entry h.year (both h.month h.day) (both h.end_month h.end_day)
  | floating ↦ floating_entry h.month (both h.week_of_month h.day_of_week)
]

unfoldable pub to_calendar_entries : List Holiday → Option (List CalendarEntry)
to_calendar_entries [] = some []
to_calendar_entries (h ∷ hs) =
    let rest = to_calendar_entries hs in
    elim (to_calendar_entry h) [ none ↦ none | some e ↦ Option.map (λ es. e ∷ es) rest ]

-- `h.year and h.year != year`
abbrev pub other_year : Option ℕ → ℕ → Bool
other_year y year = truthy y && not (y == some year)

abbrev date_of : ℕ → Option (ℕ × ℕ) → Option Date
date_of year none = none
date_of year (some (m, d)) = date year m d

abbrev through : Date → Date → List Date
through first last = days_from first (ordinal last + 1 - ordinal first)

-- the end of a range, in the next year if it would come before the start
abbrev pub end_of : ℕ → Option (ℕ × ℕ) → Date → Option Date
end_of year last first = elim (date_of year last) [
  | none ↦ none
  | some e ↦ if before e first then date_of (year + 1) last else some e
]

abbrev pub range_dates : ℕ → Option (ℕ × ℕ) → Option (ℕ × ℕ) → Option (List Date)
range_dates year first last = elim (date_of year first) [
  | none ↦ none
  | some start ↦ Option.map (through start) (end_of year last start)
]

-- `[xs[-1]]`, of a list that is not empty
abbrev pub last_of : {A : Type 0} → List A → List A
last_of [] = []
last_of (x ∷ []) = x ∷ []
last_of (x ∷ y ∷ xs) = last_of (y ∷ xs)

abbrev pub at_index : {A : Type 0} → List A → ℕ → List A
at_index xs i = elim (get_elem? xs i) [ none ↦ [] | some x ↦ x ∷ [] ]

-- `index = -1 if week_of_month == 5 else week_of_month - 1`, which is -1 for 0 too
abbrev pub pick_week : {A : Type 0} → ℕ → List A → List A
pick_week week xs = if week == 5 || week == 0 then last_of xs else at_index xs (week - 1)

-- the days of the month that fall on the weekday
abbrev pub on_weekday : ℕ → ℕ → Option ℕ → List Date
on_weekday year m weekday =
    select (λ d. some (isoweekday d) == weekday) (month_days year m 1 (days_in_month year m))

-- The month is looked at only where its first day is a date, and the week only where a day matches.
abbrev pub floating_dates : ℕ → Option ℕ → Option ℕ → Option ℕ → Option (List Date)
floating_dates year none week weekday = none
floating_dates year (some m) week weekday =
    if is_some (date year m 1)
    then elim (on_weekday year m weekday) [
      | [] ↦ some []
      | d ∷ ds ↦ Option.map (λ k. pick_week k (d ∷ ds)) week
    ]
    else none

unfoldable pub occurrences : Holiday → ℕ → Option (List Date)
unfolding date
occurrences h year = elim h.rule_type [
  | fixed ↦
      if other_year h.year year
      then some []
      else Option.map (λ d. d ∷ []) (date_of year (both h.month h.day))
  | range ↦
      if other_year h.year year
      then some []
      else range_dates year (both h.month h.day) (both h.end_month h.end_day)
  | floating ↦ floating_dates year h.month h.week_of_month h.day_of_week
]
