-- ===== src/Schedules/Device.antt =====
-- A resolved week, on the way to a device and back.
use building_controls.Prelude.{
  ℕ, zero, suc, ◌+◌, ◌≡◌, refl, sym, ap, ◌∙◌, ◌⊎◌, inl, inr, true, false, ◌&&◌, String, Option,
  none, some, List, [], ◌∷◌, map, arith, if◌then◌else◌, Bool-cases, and-eq-true, All, ◌==◌, nat_eq,
  string_eq, beq_refl, eq_of_beq, list_eq, option_eq, pair_eq,
}
use building_controls.Prelude.Int.{int_eq}
use building_controls.Prelude.Dict.{Dict, lookup}
use building_controls.Prelude.Table.{
  select, fetch_one, upsert, fetch_one-upsert_self, fetch_one-upsert-apart,
}
use building_controls.Database.{Day, DeviceDayOverride, Database}
use building_controls.Store.Week.{
  is_day, set_day_override, day_overrides, override_days, override_of,
}
use building_controls.Schedules.{
  parse_time, closed_day, resolve_week, get_or_day, TimeValue, day_to_bacnet, days_to_bacnet,
  week_to_bacnet, day_from_bacnet, bacnet_to_week, numbered,
}
use building_controls.Schedules.Clock.{parse_time-clock}
use building_controls.Schedules.Weeks.{IsEntry}

-- every day of the week is one that `validate_transitions` could have returned
abbrev pub IsWeek : Dict ℕ Day → Type 0
IsWeek week = All (λ e. All IsEntry e.1) week

closed-IsDay : All IsEntry closed_day
closed-IsDay = (
  record {
    hour = 0;
    minute = 0;
    hour_bound = omega arith;
    minute_bound = omega arith;
    written = refl;
    state_known = refl;
  },
  tt,
)

lookup-IsWeek :
    (d : ℕ) (week : Dict ℕ Day) (default : Day)
    → IsWeek week
    → All IsEntry default
    → All IsEntry (get_or_day default (lookup d week))
lookup-IsWeek d [] default w c = c
lookup-IsWeek d ((k, day) ∷ week) default (here, rest) c = elim (Bool-cases (k == d)) [
  | inl same ↦ rw (same, get_or_day) here
  | inr apart ↦ rw (apart, get_or_day) (lookup-IsWeek d week default rest c)
]

resolved-IsDay :
    (d : ℕ) (group overrides : Dict ℕ Day)
    → IsWeek group
    → IsWeek overrides
    → All IsEntry (get_or_day (get_or_day closed_day (lookup d group)) (lookup d overrides))
resolved-IsDay d group overrides g o =
    lookup-IsWeek d overrides (get_or_day closed_day (lookup d group)) o
      (lookup-IsWeek d group closed_day g closed-IsDay)

day-roundtrip :
    (day : Day)
    → All IsEntry day
    → (vs : List TimeValue) × (day_to_bacnet day ≡ some vs) × (day_from_bacnet vs ≡ day)
unfolding day_to_bacnet
day-roundtrip [] a = ([], refl, refl)
day-roundtrip (t ∷ day) (e, a) =
    let (vs, sent, back) = day-roundtrip day a in
    let parsed : parse_time t.time
        ≡ some (record { hour = e.hour; minute = e.minute; second = 0 }) =
      ap parse_time e.written ∙ parse_time-clock e.hour e.minute e.hour_bound e.minute_bound in
    (
      record { time = record { hour = e.hour; minute = e.minute; second = 0 }; value = t.state }
          ∷ vs,
      rw (parsed, day_to_bacnet) (rw sent refl),
      rw (back, sym e.written) refl,
    )

abbrev from : ℕ → ℕ → List ℕ
from i zero = []
from i (suc n) = i ∷ from (i + 1) n

week-roundtrip :
    (i n : ℕ) (week : Dict ℕ Day)
    → ((d : ℕ) → All IsEntry (get_or_day closed_day (lookup d week)))
    → (ws : List (List TimeValue)) × (days_to_bacnet (from i n) week ≡ some ws)
      × (numbered i ws ≡ map (λ d. (d, get_or_day closed_day (lookup d week))) (from i n))
week-roundtrip i zero week a = ([], refl, refl)
week-roundtrip i (suc n) week a =
    let (vs, sent, back) = day-roundtrip (get_or_day closed_day (lookup i week)) (a i) in
    let (ws, others, same) = week-roundtrip (i + 1) n week a in
    (vs ∷ ws, rw (sent, days_to_bacnet) (rw others refl), rw (back, same) refl)

-- Where the days of the group and of the overrides are validated ones, the week that they resolve to can
-- be written to a device, and what is read back from the device is that week, all seven days of it.
pub resolved-roundtrip :
    (group overrides : Dict ℕ Day)
    → IsWeek group
    → IsWeek overrides
    → (ws : List (List TimeValue)) × (week_to_bacnet (resolve_week group overrides) ≡ some ws)
      × (bacnet_to_week ws ≡ resolve_week group overrides)
unfolding week_to_bacnet bacnet_to_week resolve_week
resolved-roundtrip group overrides g o =
    let week = resolve_week group overrides in
    let r = λ (d : ℕ). resolved-IsDay d group overrides g o in
    let all : IsWeek week = (r 1, (r 2, (r 3, (r 4, (r 5, (r 6, (r 7, tt))))))) in
    week-roundtrip 1 7 week (λ d. lookup-IsWeek d week closed_day all closed-IsDay)

day_of : Option DeviceDayOverride → Option Day
day_of none = none
day_of (some r) = some r.transitions

lookup-override_days :
    (device_id d : ℕ) (t : List DeviceDayOverride)
    → lookup d (override_days (select (λ r. r.device_id == device_id) t))
      ≡ day_of (fetch_one (override_of device_id d) t)
unfolding day_of
lookup-override_days device_id d [] = refl
lookup-override_days device_id d (r ∷ t) = elim (Bool-cases (r.device_id == device_id)) [
  | inr other ↦ rw other (lookup-override_days device_id d t)
  | inl mine ↦ elim (Bool-cases (r.day_of_week == d)) [
    | inl here ↦ rw (mine, here) refl
    | inr later ↦ rw (mine, later) (lookup-override_days device_id d t)
  ]
]

-- An override that is set for a day of the week is the device's override of that day afterwards, and
-- the overrides of every other day and device are what they were. It is refused exactly for a number
-- that is no day of the week.
pub day_overrides-set_day_override :
    (device_id d other day : ℕ) (transitions : Day) (actor : String) (db : Database)
    → ((db' : Database) × (set_day_override device_id d transitions actor db ≡ some db')
        × (is_day d ≡ true)
        × (lookup day (day_overrides other db') ≡ (
            if device_id == other && d == day
            then some transitions
            else lookup day (day_overrides other db))))
      ⊎ ((set_day_override device_id d transitions actor db ≡ none) × (is_day d ≡ false))
unfolding set_day_override day_overrides day_of
day_overrides-set_day_override device_id d other day transitions actor db =
    let t = db.device_day_override in
    let p = override_of device_id d in
    let q = override_of other day in
    let f = λ (r : DeviceDayOverride). record r { transitions = transitions } in
    let new : DeviceDayOverride = record {
      device_id = device_id;
      day_of_week = d;
      transitions = transitions;
    } in
    let self : p new ≡ true = rw (beq_refl device_id, beq_refl d) refl in
    let after : day_of (fetch_one q (upsert p f new t))
        ≡ (if device_id == other && d == day then some transitions else day_of (fetch_one q t)) =
      elim (Bool-cases (device_id == other && d == day)) [
        | inl same ↦
            let (e, k) = and-eq-true (device_id == other) (d == day) same in
            let e' = eq_of_beq device_id other e in
            let k' = eq_of_beq d day k in
            let moved = fetch_one-upsert_self p f new t (λ r h. h) self in
            rw same
              (rw (sym e', sym k') (elim moved [ inl (r, m) ↦ ap day_of m | inr m ↦ ap day_of m ]))
        | inr apart ↦
            let away : (r : DeviceDayOverride) → p r ≡ true → q r ≡ false =
              λ r h. ground (arith, apart) in
            rw apart (ap day_of (fetch_one-upsert-apart q p f new t away away apart))
      ] in
    elim (Bool-cases (is_day d)) [
      | inr no_day ↦ rw (no_day, set_day_override) (inr (refl, refl))
      | inl valid ↦
          rw (valid, set_day_override)
            (inl (
              _,
              refl,
              refl,
              lookup-override_days other day (upsert p f new t)
                  ∙ after
                  ∙ ap (λ o. if device_id == other && d == day then some transitions else o)
                      (sym (lookup-override_days other day t)),
            ))
    ]
