-- ===== src/Store/Readings.antt =====
-- Sampled history (bms/store.py `reading`). The table is a list of its own: nothing else reads it.
use building_controls.Prelude.{
  ℕ, zero, suc, ◌+◌, Bool, true, false, ◌&&◌, String, Option, none, some, List, [], ◌∷◌, ◌++◌, ltb,
  leb, if◌then◌else◌, length, ◌==◌, nat_eq, string_eq, list_eq, option_eq, pair_eq,
}
use building_controls.Prelude.Int.{ℤ, pos}
use building_controls.Prelude.Dict.{Dict, lookup}
use building_controls.Prelude.Sort.{order_by}
use building_controls.Prelude.Table.{select, delete, count}
use building_controls.Value.{Value, number, flag, text, null, Values}

-- `READING_COLUMNS`
abbrev pub reading_columns : List String
reading_columns =
    "space_temp" ∷ "effective_sp" ∷ "heat_sp" ∷ "cool_sp" ∷ "setpoint_status" ∷ "heat_adjust"
    ∷ "cool_adjust" ∷ "heat_stages" ∷ "cool_stages" ∷ "fan_running" ∷ "oa_temp" ∷ []

-- `READING_FROM_POINT`
abbrev pub reading_from_point : Dict String String
reading_from_point =
    ("heat_sp", "effective_heat_sp")
    ∷ ("cool_sp", "effective_cool_sp")
    ∷ ("heat_stages", "active_heat_stages")
    ∷ ("cool_stages", "active_cool_stages")
    ∷ []

abbrev pub point_for : String → String
point_for column = elim (lookup column reading_from_point) [ none ↦ column | some key ↦ key ]

-- a Boolean counts as 0 or 1, and what is no number is stored as NULL
abbrev pub stored_value : Option Value → Option ℤ
stored_value none = none
stored_value (some (number x)) = some x
stored_value (some (flag true)) = some (pos 1000)
stored_value (some (flag false)) = some (pos 0)
stored_value (some (text s)) = none
stored_value (some null) = none

pub columns_of : List String → Values → Dict String (Option ℤ)
columns_of [] points = []
columns_of (c ∷ cs) points = (c, stored_value (lookup (point_for c) points)) ∷ columns_of cs points

unfoldable pub reading_row : Values → Dict String (Option ℤ)
unfolding columns_of
reading_row points = columns_of reading_columns points

pub record Reading : Type 0 where
  pub ts : ℕ
  pub device_id : ℕ
  pub row : Dict String (Option ℤ)

-- one row of the `INSERT OR REPLACE`
abbrev pub record_reading : ℕ → ℕ → Values → List Reading → List Reading
record_reading ts device_id points t =
    delete (λ r. r.device_id == device_id && r.ts == ts) t
    ++ record { ts = ts; device_id = device_id; row = reading_row points } ∷ []

unfoldable pub record_readings : ℕ → List (ℕ × Values) → List Reading → ℕ × List Reading
record_readings ts rows t = (length rows, insert_all rows t)
  where
    insert_all : List (ℕ × Values) → List Reading → List Reading
    insert_all [] t = t
    insert_all ((d, points) ∷ rows) t = insert_all rows (record_reading ts d points t)

abbrev pub within : Option ℕ → Option ℕ → Option ℕ → Reading → Bool
within device_id since until r =
    elim device_id [ none ↦ true | some d ↦ r.device_id == d ]
    && elim since [ none ↦ true | some a ↦ leb a r.ts ]
    && elim until [ none ↦ true | some b ↦ leb r.ts b ]

abbrev pub take : ℕ → List Reading → List Reading
take zero t = []
take (suc n) [] = []
take (suc n) (r ∷ t) = r ∷ take n t

unfoldable pub readings : Option ℕ → Option ℕ → Option ℕ → ℕ → List Reading → List Reading
readings device_id since until limit t =
    take limit (order_by (λ r. r.ts ∷ []) (select (within device_id since until) t))

-- The days of retention come as milliseconds; 0 stands for every number of days that is not positive.
unfoldable pub prune_readings : ℕ → ℕ → List Reading → ℕ × List Reading
prune_readings retention now t =
    if leb retention 0
    then (0, t)
    else (count (λ r. ltb (r.ts + retention) now) t, delete (λ r. ltb (r.ts + retention) now) t)
