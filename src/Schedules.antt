-- ===== src/Schedules.antt =====
-- Days and weeks of a schedule (bms/schedules.py). An exception is `none`, and
-- which one it is in `validate_transitions` is told apart. What bacpypes wraps as
-- `Time`, `Unsigned`, `TimeValue` and `DailySchedule` is the value inside.
pub mod Clock
pub mod Weeks
pub mod Device
pub mod Events
mod Tests
use building_controls.Prelude.{
  ℕ, ◌+◌, min, ap, Bool, true, false, ◌&&◌, ◌||◌, Option, none, some, List, [], ◌∷◌, ◌++◌, map, ltb,
  leb, if◌then◌else◌, length, is_nil, Eq, ◌==◌, nat_eq, string_eq, contains, list_eq, option_eq,
  pair_eq,
}
use building_controls.Prelude.Int.{ℤ, pos, int_eq}
use building_controls.Prelude.Dict.{Dict, lookup}
use building_controls.Prelude.Text.{Text, codes, split, two_digits}
use building_controls.Prelude.Sort.{order_by}
use building_controls.Auth.Password.{Error, value_error, Result, ok, raise}
use building_controls.Auth.Password.Hex.{parse_int}
use building_controls.Database.{Transition, Day}

abbrev pub colon : ℕ
colon = b':'

-- hundredths are always 0
pub record Time : Type 0 where
  pub hour : ℕ
  pub minute : ℕ
  pub second : ℕ

abbrev in_range : ℤ → ℤ → ℤ → Option Time
in_range (pos h) (pos m) (pos s) =
    if leb h 23 && leb m 59 && leb s 59
    then some (record { hour = h; minute = m; second = s })
    else none
in_range _ _ _ = none

abbrev cons : Option ℤ → Option (List ℤ) → Option (List ℤ)
cons none xs = none
cons (some x) none = none
cons (some x) (some xs) = some (x ∷ xs)

abbrev pub parse_parts : List Text → Option (List ℤ)
parse_parts [] = some []
parse_parts (w ∷ ws) = cons (parse_int w) (parse_parts ws)

-- missing parts are 0, and parts after the third are dropped once they have been read as numbers
abbrev pub first_three : Option (List ℤ) → Option Time
first_three none = none
first_three (some []) = in_range (pos 0) (pos 0) (pos 0)
first_three (some (h ∷ [])) = in_range h (pos 0) (pos 0)
first_three (some (h ∷ m ∷ [])) = in_range h m (pos 0)
first_three (some (h ∷ m ∷ s ∷ rest)) = in_range h m s

unfoldable pub parse_time : Text → Option Time
parse_time t = first_three (parse_parts (split colon t))

-- `f"{hour:02d}:{minute:02d}"`
abbrev pub clock : ℕ → ℕ → Text
clock h m = two_digits h ++ colon ∷ two_digits m

-- A transition as it comes in: each key may be missing, and `int` may raise on the state, a `ValueError`
-- on text and a `TypeError` on what is neither text nor a number.
pub record Draft : Type 0 where
  pub time : Option Text
  pub state : Option (Result ℤ)

abbrev pub is_state : ℤ → Bool
is_state s = s == pos 0 || s == pos 1 || s == pos 3

abbrev pub read_time : Option Text → Option Time
read_time none = none
read_time (some t) = parse_time t

abbrev pub read_state : Option (Result ℤ) → Option ℤ
read_state none = none
read_state (some (raise e)) = none
read_state (some (ok s)) = if is_state s then some s else none

-- what is raised where no state is read
abbrev pub state_error : Option (Result ℤ) → Error
state_error none = value_error
state_error (some (raise e)) = e
state_error (some (ok s)) = value_error

abbrev pub prepend : Transition → Option Day → Option Day
prepend t none = none
prepend t (some ts) = some (t ∷ ts)

-- one turn of the loop, when the time is read and new and the state is read
abbrev pub entry : Time → ℤ → Transition
entry t s = record { time = clock t.hour t.minute; state = s }

-- the loop of `validate_transitions`, with the times seen so far
unfoldable pub normalise : List (ℕ × ℕ) → List Draft → Option Day
normalise seen [] = some []
normalise seen (d ∷ ds) = elim (read_time d.time) [
  | none ↦ none
  | some t ↦ elim (contains seen (t.hour, t.minute)) [
    | true ↦ none
    | false ↦ elim (read_state d.state) [
      | none ↦ none
      | some s ↦ prepend (entry t s) (normalise ((t.hour, t.minute) ∷ seen) ds)
    ]
  ]
]

-- what the loop raises where it returns no day; a day of more than eight is a `ValueError` after it
unfoldable pub normalise_error : List (ℕ × ℕ) → List Draft → Error
normalise_error seen [] = value_error
normalise_error seen (d ∷ ds) = elim (read_time d.time) [
  | none ↦ value_error
  | some t ↦ elim (contains seen (t.hour, t.minute)) [
    | true ↦ value_error
    | false ↦ elim (read_state d.state) [
      | none ↦ state_error d.state
      | some s ↦ normalise_error ((t.hour, t.minute) ∷ seen) ds
    ]
  ]
]

abbrev pub at_most_eight : Option Day → Option Day
at_most_eight none = none
at_most_eight (some day) =
    if ltb 8 (length day) then none else some (order_by (λ (t : Transition). t.time) day)

unfoldable pub validate_transitions : List Draft → Option Day
unfolding normalise
validate_transitions drafts = if is_nil drafts then none else at_most_eight (normalise [] drafts)

-- the exception of `validate_transitions` where it returns no day
unfoldable pub validation_error : List Draft → Error
unfolding normalise_error
validation_error drafts = normalise_error [] drafts

-- `CLOSED_DAY`
abbrev pub closed_day : Day
closed_day = record { time = codes "00:00"; state = pos 1 } ∷ []

abbrev pub get_or_day : Day → Option Day → Day
get_or_day d none = d
get_or_day d (some e) = e

abbrev pub days : List ℕ
days = 1 ∷ 2 ∷ 3 ∷ 4 ∷ 5 ∷ 6 ∷ 7 ∷ []

unfoldable pub resolve_week : Dict ℕ Day → Dict ℕ Day → Dict ℕ Day
resolve_week group_week overrides =
    map (λ d. (d, get_or_day (get_or_day closed_day (lookup d group_week)) (lookup d overrides)))
      days

pub record TimeValue : Type 0 where
  pub time : Time
  pub value : ℤ

unfoldable pub day_to_bacnet : Day → Option (List TimeValue)
day_to_bacnet [] = some []
day_to_bacnet (t ∷ ts) = elim (parse_time t.time) [
  | none ↦ none
  | some time ↦ elim (day_to_bacnet ts) [
    | none ↦ none
    | some rest ↦ some (record { time = time; value = t.state } ∷ rest)
  ]
]

abbrev pub days_to_bacnet : List ℕ → Dict ℕ Day → Option (List (List TimeValue))
days_to_bacnet [] week = some []
days_to_bacnet (d ∷ ds) week = elim (day_to_bacnet (get_or_day closed_day (lookup d week))) [
  | none ↦ none
  | some day ↦ elim (days_to_bacnet ds week) [ none ↦ none | some rest ↦ some (day ∷ rest) ]
]

unfoldable pub week_to_bacnet : Dict ℕ Day → Option (List (List TimeValue))
week_to_bacnet week = days_to_bacnet days week

unfoldable pub normalise_week : Option ℤ → Dict ℕ Day → Dict ℕ Day
normalise_week none week = week
normalise_week (some default) week =
    map
      (λ e.
        (e.0, if is_nil e.1 then record { time = codes "00:00"; state = default } ∷ [] else e.1))
      week

abbrev pub day_from_bacnet : List TimeValue → Day
day_from_bacnet [] = []
day_from_bacnet (v ∷ vs) =
    record { time = clock v.time.hour v.time.minute; state = v.value } ∷ day_from_bacnet vs

abbrev pub numbered : ℕ → List (List TimeValue) → Dict ℕ Day
numbered i [] = []
numbered i (d ∷ ds) = (i, day_from_bacnet d) ∷ numbered (i + 1) ds

unfoldable pub bacnet_to_week : List (List TimeValue) → Dict ℕ Day
bacnet_to_week weekly = numbered 1 weekly
