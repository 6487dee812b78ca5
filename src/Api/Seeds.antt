-- ===== src/Api/Seeds.antt =====
-- The rules and groups that a new building starts from (bms/holidays.py `US_FEDERAL_DEFAULTS`,
-- bms/schedules.py `DEFAULT_GROUPS`), and the loops of the routes that add those not there yet.
pub mod Idempotent
use mathlib.Core.Option
use building_controls.Prelude.{
  ℕ, suc, ap, true, false, String, Option, none, some, List, [], ◌∷◌, map, Eq, nat_eq, string_eq,
  contains, list_eq, option_eq, pair_eq,
}
use building_controls.Prelude.Dict.{Dict}
use building_controls.Prelude.Int.{pos}
use building_controls.Prelude.Text.{codes}
use building_controls.Database.{
  RuleType, fixed, floating, global, Holiday, Day, ScheduleGroup, Database,
}
use building_controls.Store.Calendar.{add_holiday, holidays}
use building_controls.Store.Week.{add_group, groups}
use building_controls.Schedules.{closed_day}

-- the defaults of the columns
abbrev pub blank_rule : String → RuleType → Holiday
blank_rule name rule = record {
  id = 0;
  name = name;
  rule_type = rule;
  state = 1;
  enabled = true;
  year = none;
  month = none;
  day = none;
  end_month = none;
  end_day = none;
  week_of_month = none;
  day_of_week = none;
  scope = global;
  scope_ref = "*";
}

abbrev pub fixed_rule : String → ℕ → ℕ → Holiday
fixed_rule name m d = record (blank_rule name fixed) { month = some m; day = some d }

abbrev pub floating_rule : String → ℕ → ℕ → ℕ → Holiday
floating_rule name m week weekday = record (blank_rule name floating) {
  month = some m;
  week_of_month = some week;
  day_of_week = some weekday;
}

unfoldable pub us_federal_defaults : List Holiday
us_federal_defaults =
    fixed_rule "New Year's Day" 1 1
    ∷ floating_rule "Martin Luther King Jr. Day" 1 3 1
    ∷ floating_rule "Presidents' Day" 2 3 1
    ∷ floating_rule "Memorial Day" 5 5 1
    ∷ fixed_rule "Juneteenth" 6 19
    ∷ fixed_rule "Independence Day" 7 4
    ∷ floating_rule "Labor Day" 9 1 1
    ∷ floating_rule "Thanksgiving" 11 4 4
    ∷ floating_rule "Day after Thanksgiving" 11 4 5
    ∷ fixed_rule "Christmas Day" 12 25
    ∷ []

-- occupied from one time to another
abbrev pub occupied : String → String → Day
occupied start finish =
    record { time = codes start; state = pos 0 }
    ∷ record { time = codes finish; state = pos 1 }
    ∷ []

abbrev pub day_or_closed : Option (String × String) → Day
day_or_closed none = closed_day
day_or_closed (some (start, finish)) = occupied start finish

abbrev pub weekday_week :
    String → String → Option (String × String) → Option (String × String) → Dict ℕ Day
weekday_week start finish saturday sunday =
    (1, occupied start finish)
    ∷ (2, occupied start finish)
    ∷ (3, occupied start finish)
    ∷ (4, occupied start finish)
    ∷ (5, occupied start finish)
    ∷ (6, day_or_closed saturday)
    ∷ (7, day_or_closed sunday)
    ∷ []

pub record GroupSpec : Type 0 where
  pub name : String
  pub description : String
  pub week : Dict ℕ Day

unfoldable pub default_groups : List GroupSpec
default_groups =
    record {
      name = "Standard weekday";
      description = "Mon-Fri 06:00-18:00, closed weekends";
      week = weekday_week "06:00" "18:00" none none;
    }
    ∷ record {
      name = "Extended evening";
      description = "Mon-Fri 06:00-21:00, closed weekends";
      week = weekday_week "06:00" "21:00" none none;
    }
    ∷ record {
      name = "Six-day";
      description = "Mon-Fri 06:00-18:00 plus Sat 08:00-13:00";
      week = weekday_week "06:00" "18:00" (some ("08:00", "13:00")) none;
    }
    ∷ record {
      name = "Seven-day";
      description = "Every day 07:00-19:00";
      week = weekday_week "07:00" "19:00" (some ("07:00", "19:00")) (some ("07:00", "19:00"));
    }
    ∷ []

abbrev pub names : List Holiday → List String
names hs = map (λ h. h.name) hs

-- the comprehension of `seed_us_federal`: how many are added, and the database after them
unfoldable pub add_new : List String → List Holiday → Database → ℕ × Database
add_new existing [] db = (0, db)
add_new existing (spec ∷ specs) db = elim (contains existing spec.name) [
  | true ↦ add_new existing specs db
  | false ↦ let rest = add_new existing specs (add_holiday spec "api" db).1 in (suc rest.0, rest.1)
]

-- `existing` is read once, before the loop
unfoldable pub add_missing : List Holiday → Database → ℕ × Database
unfolding add_new
add_missing specs db = add_new (names (holidays none none false db)) specs db

-- that of `seed_groups`; `none` where SQLite refuses a group
unfoldable pub add_new_groups : List String → List GroupSpec → Database → Option ℕ × Database
add_new_groups existing [] db = (some 0, db)
add_new_groups existing (spec ∷ specs) db = elim (contains existing spec.name) [
  | true ↦ add_new_groups existing specs db
  | false ↦
      let made = add_group spec.name spec.week spec.description "api" db in
      let rest = add_new_groups existing specs made.1 in
      elim made.0 [ none ↦ (none, made.1) | some id ↦ (Option.map (λ n. suc n) rest.0, rest.1) ]
]

unfoldable pub add_missing_groups : List GroupSpec → Database → Option ℕ × Database
unfolding add_new_groups
add_missing_groups specs db = add_new_groups (map (λ g. g.0.name) (groups db)) specs db
