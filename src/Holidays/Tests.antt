-- ===== src/Holidays/Tests.antt =====
-- Thanksgiving and Memorial Day of 2026, and a range over the new year.
use building_controls.Prelude.{
  ℕ, ◌≤◌, ◌≡◌, refl, true, ◌&&◌, ◌||◌, none, some, [], ◌∷◌, arith, ltb, ◌==◌, nat_eq, string_eq,
  list_eq, option_eq, pair_eq,
}
use building_controls.Prelude.Dates.{
  Date, date, isoweekday, ordinal, days_in_month, month_days, days_from, tomorrow,
}
use building_controls.Database.{Holiday, floating, range, global}
use building_controls.Holidays.{week_n_day, to_calendar_entry, occurrences}
use building_controls.Holidays.Floating.{covered, in_week, floating-occurrences}

abbrev blank : Holiday
blank = record {
  id = 1;
  name = "Holiday";
  rule_type = floating;
  state = 1;
  enabled = true;
  year = none;
  month = none;
  day = none;
  end_month = none;
  end_day = none;
  week_of_month = none;
  day_of_week = none;
  scope = global;
  scope_ref = "*";
}

abbrev thanksgiving : Holiday
thanksgiving = record blank { month = some 11; week_of_month = some 4; day_of_week = some 4 }

thanksgiving_2026 :
    occurrences thanksgiving 2026 ≡ some (record { year = 2026; month = 11; day = 26 } ∷ [])
unfolding occurrences date isoweekday ordinal month_days
thanksgiving_2026 = refl

abbrev memorial_day : Holiday
memorial_day = record blank { month = some 5; week_of_month = some 5; day_of_week = some 1 }

-- In 2026 the last Monday of May is the 25th, which no entry for week 5 covers.
memorial_day_2026 :
    occurrences memorial_day 2026 ≡ some (record { year = 2026; month = 5; day = 25 } ∷ [])
unfolding occurrences date isoweekday ordinal month_days
memorial_day_2026 = refl

floating-occurrences_example :
    (day : ℕ) × (occurrences memorial_day 2026
      ≡ some (record { year = 2026; month = 5; day = day } ∷ []))
    × (isoweekday (record { year = 2026; month = 5; day = day }) ≡ 1)
    × (in_week (days_in_month 2026 5) 5 day ≡ true)
    × (to_calendar_entry memorial_day ≡ some (week_n_day 5 5 1))
    × ((x : ℕ)
        → 1 ≤ x
        → x ≤ days_in_month 2026 5
        → covered (week_n_day 5 5 1) (record { year = 2026; month = 5; day = x })
          ≡ (x == day && (ltb 5 5 || ltb 28 day)))
floating-occurrences_example =
    floating-occurrences memorial_day 2026 5 5 1 refl refl refl refl (omega arith) (omega arith)
      (omega arith) (omega arith)

abbrev winter_break : Holiday
winter_break = record blank {
  rule_type = range;
  month = some 12;
  day = some 30;
  end_month = some 1;
  end_day = some 2;
}

winter_break_days :
    occurrences winter_break 2026
    ≡ some (
        record { year = 2026; month = 12; day = 30 }
        ∷ record { year = 2026; month = 12; day = 31 }
        ∷ record { year = 2027; month = 1; day = 1 }
        ∷ record { year = 2027; month = 1; day = 2 }
        ∷ [])
unfolding occurrences date ordinal days_from tomorrow
winter_break_days = refl

abbrev winter_start : Date
winter_start = record { year = 2026; month = 12; day = 30 }

abbrev winter_end : Date
winter_end = record { year = 2027; month = 1; day = 2 }
