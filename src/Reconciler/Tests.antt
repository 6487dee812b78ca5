-- ===== src/Reconciler/Tests.antt =====
-- A thermostat that does as it is told: instances of the theorems.
use building_controls.Prelude.{
  ℕ, ◌+◌, ◌-◌, ◌≤◌, ◌≡◌, refl, ap, ◌∙◌, inl, inr, Bool-cases, ◌==◌, true, String, Option, none,
  some, List, [], ◌∷◌, All, arith, nat_eq, string_eq, list_eq, option_eq, pair_eq,
}
use building_controls.Prelude.Int.{ℤ, pos, abs}
use building_controls.Prelude.Dict.{insert, lookup}
use building_controls.Prelude.Decimal.{str, digits}
use building_controls.Value.{number, Values}
use building_controls.Database.{global, device, Database, new_database, log}
use building_controls.Store.Intent.{setpoints_for}
use building_controls.Reconciler.{
  again, Client, new_result, Pass, reconcile_setpoints, apply_all, apply, near, clamped, push,
}
use building_controls.Reconciler.InPlace.{IsInPlace}
use building_controls.Reconciler.Returns.{IsComparable}
use building_controls.Reconciler.Convergence.{
  IsFaithful, AllWritable, reconcile_setpoints-converges,
}
use building_controls.Prelude.Text.{codes}
use building_controls.Database.{Day}
use building_controls.Store.Week.{group_for_device, group_week, day_overrides}
use building_controls.Schedules.{TimeValue, resolve_week}
use building_controls.Reconciler.Clock.{
  ClockDevice, clock_client, whole_seconds, Moments, ClockPass, IsPunctual, reconcile_clock,
  send_time, recheck, reconcile_clock-InTime,
}
use building_controls.Reconciler.Weekly
use building_controls.Reconciler.Weekly.{
  ScheduleClient, reconcile_weekly, reconcile_weekly-converges,
}

abbrev no_float : String → Option ℤ
no_float s = none

abbrev obedient : Client Values
obedient = record {
  read_points = λ d. some d;
  write_point = λ key x d. (true, insert key (number x) d);
}

obedient-IsFaithful : IsFaithful obedient
obedient-IsFaithful = record {
  reads = λ d. (d, refl);
  acknowledges = λ key x d. refl;
  lands = λ key x d v h. (let e : d ≡ v = ground (arith, h) in rw e refl);
}

abbrev building : Database
building = record new_database {
  setpoint_intent =
      record { scope = global; scope_ref = "*"; point_key = "occ_cool_sp"; value = pos 99000 }
      ∷ record { scope = device; scope_ref = "301"; point_key = "occ_heat_sp"; value = pos 68000 }
      ∷ [];
}

abbrev start : Pass Values
start = record {
  result = new_result;
  thermostat = ("occ_cool_sp", number (pos 74000)) ∷ ("occ_heat_sp", number (pos 68050)) ∷ [];
  db = building;
}

-- 99 degrees is brought down to 85, and the heating set-point is close enough.
abbrev finish : Pass Values
finish = record {
  result = record new_result { changed = "occ_cool_sp" ∷ []; already_correct = "occ_heat_sp" ∷ [] };
  thermostat = ("occ_cool_sp", number (pos 85000)) ∷ ("occ_heat_sp", number (pos 68050)) ∷ [];
  db = log "reconciler" "reconcile.setpoint" (some "Room 301") building;
}

first_run :
    reconcile_setpoints no_float obedient "reconciler" "Room 301" 301 "floor-3" start ≡ some finish
unfolding reconcile_setpoints apply_all apply near clamped push setpoints_for str digits
first_run = refl

intended_writable : AllWritable (setpoints_for 301 "floor-3" building)
unfolding setpoints_for str digits
intended_writable = (refl, (refl, tt))

start-IsComparable :
    (v : Values) → obedient.read_points start.thermostat ≡ some v → IsComparable no_float v
unfolding near
start-IsComparable v reading key want raises =
    let e : start.thermostat ≡ v = ground (arith, reading) in
    let here : near no_float (lookup key start.thermostat) want ≡ none =
      ap (λ t. near no_float (lookup key t) want) e ∙ raises in
    elim (Bool-cases ("occ_cool_sp" == key)) [
      | inl cool ↦ let g = rw cool at here in ground arith
      | inr other ↦
          let g = rw other at here in
          elim (Bool-cases ("occ_heat_sp" == key)) [
            | inl heat ↦ let g' = rw heat at g in ground arith
            | inr absent ↦ let g' = rw absent at g in ground arith
          ]
    ]

reconcile_setpoints-converges_example :
    (p' : Pass Values) × (reconcile_setpoints no_float obedient "reconciler" "Room 301" 301
        "floor-3" start
      ≡ some p')
    × ((v' : Values) × (some p'.thermostat ≡ some v')
        × All
            (λ (e : String × ℤ). IsInPlace no_float v' e.0 e.1)
            (("occ_cool_sp", pos 99000) ∷ ("occ_heat_sp", pos 68000) ∷ []))
    × (reconcile_setpoints no_float obedient "reconciler" "Room 301" 301 "floor-3" (again p')
        ≡ some (record p' {
          result = record new_result { already_correct = "occ_cool_sp" ∷ "occ_heat_sp" ∷ [] };
        }))
unfolding setpoints_for str digits
reconcile_setpoints-converges_example =
    reconcile_setpoints-converges no_float obedient "reconciler" "Room 301" obedient-IsFaithful 301
      "floor-3" start intended_writable start-IsComparable

abbrev plain : ScheduleClient (List (List TimeValue))
plain = record {
  read_weekly = λ d. some d;
  read_default = λ d. some (pos 0);
  write_weekly = λ ws d. (true, ws);
}

plain-IsFaithful : Weekly.IsFaithful plain
plain-IsFaithful = record {
  reads = λ d. (d, refl);
  acknowledges = λ ws d. refl;
  lands = λ ws d. refl;
}

abbrev mornings : Day
mornings = record { time = codes "06:00"; state = pos 0 } ∷ []

abbrev scheduled : Pass (List (List TimeValue))
scheduled = record {
  result = new_result;
  thermostat = [];
  db = record new_database {
    schedule_group_day = record { group_id = 1; day_of_week = 2; transitions = mornings } ∷ [];
    device_schedule = record { device_id = 301; group_id = 1 } ∷ [];
  };
}

reconcile_weekly-converges_example :
    let p' = reconcile_weekly plain "reconciler" "Room 301" 301 scheduled in
    reconcile_weekly plain "reconciler" "Room 301" 301 (again p')
    ≡ record p' { result = record new_result { already_correct = "weekly schedule" ∷ [] } }
unfolding group_for_device group_week day_overrides resolve_week
reconcile_weekly-converges_example =
    reconcile_weekly-converges plain "reconciler" "Room 301" plain-IsFaithful 301 1 scheduled refl
      (
        (
          record {
            hour = 6;
            minute = 0;
            hour_bound = omega arith;
            minute_bound = omega arith;
            written = refl;
            state_known = refl;
          },
          tt,
        ),
        tt,
      )
      tt (refl, (refl, (refl, (refl, (refl, (refl, (refl, tt)))))))

-- A clock that was set to a time at a moment, eight minutes and twenty seconds fast, and a host that
-- takes half a second to send the time and two seconds to read it back.
abbrev wall_clock : ClockDevice (ℕ × ℕ)
wall_clock = record {
  local_time = λ m d. some (d.0 + (m - d.1));
  synchronize = λ t s d. (true, (t, s));
}

wall_clock-IsPunctual : IsPunctual wall_clock
wall_clock-IsPunctual = record {
  reads = λ m d. (d.0 + (m - d.1), refl);
  takes = λ t s d. refl;
  runs = λ t s m d h. refl;
}

abbrev fast : ClockPass (ℕ × ℕ)
fast = record {
  pass = record { result = new_result; thermostat = (500000, 0); db = building };
  drifts = [];
}

abbrev moments : Moments
moments = record {
  first_read = 1000000;
  now = 1000010;
  sent = 1000500;
  second_read = 1002600;
  checked = 1002620;
}

reconcile_clock-InTime_example :
    let c' =
      reconcile_clock
        (clock_client wall_clock)
        "reconciler"
        "Room 301"
        301
        30000
        moments
        true
        fast in
    (c'.pass.result.errors ≡ [])
    × ((drift : ℤ) × (lookup 301 c'.drifts ≡ some drift) × (abs drift ≤ 30000))
reconcile_clock-InTime_example =
    reconcile_clock-InTime wall_clock "reconciler" "Room 301" 301 30000 moments
      wall_clock-IsPunctual fast (omega arith) (omega arith) (omega arith) (omega arith)

fast_run :
    (reconcile_clock
      (clock_client wall_clock)
      "reconciler"
      "Room 301"
      301
      30000
      moments
      true
      fast).pass.result.changed
    ≡ "clock" ∷ []
unfolding reconcile_clock send_time recheck whole_seconds
fast_run = refl
