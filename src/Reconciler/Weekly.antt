-- ===== src/Reconciler/Weekly.antt =====
-- Pushing the weekly schedule onto a device (bms/reconciler.py `_reconcile_weekly`).
use building_controls.Prelude.{
  ℕ, ◌≡◌, refl, sym, ap, ◌∙◌, ◌↔◌, inl, inr, Bool, true, false, ◌&&◌, String, Option, none, some,
  List, [], ◌∷◌, ◌++◌, if◌then◌else◌, Bool-cases, and-eq-true, is_nil, All, Eq, ◌==◌, nat_eq,
  string_eq, beq_refl, eq_of_beq, list_eq, option_eq, pair_eq,
}
use building_controls.Prelude.Int.{ℤ, int_eq}
use building_controls.Prelude.Dict.{Dict}
use building_controls.Database.{Transition, Day, Database, log, log_as}
use building_controls.Store.Week.{group_for_device, group_week, day_overrides}
use building_controls.Schedules.{
  TimeValue, resolve_week, week_to_bacnet, bacnet_to_week, normalise_week,
}
use building_controls.Schedules.Device.{IsWeek, resolved-roundtrip}
use building_controls.Reconciler.{new_result, Pass, fails, correct, again}

-- What the client offers for the schedule of one device; a read that fails is `none`.
pub record ScheduleClient (D : Type 0) : Type 0 where
  pub read_weekly : D → Option (List (List TimeValue))
  pub read_default : D → Option ℤ
  pub write_weekly : List (List TimeValue) → D → Bool × D

transition_beq : Transition → Transition → Bool
transition_beq a b = a.time == b.time && a.state == b.state

transition_beq_iff : (a b : Transition) → (transition_beq a b ≡ true) ↔ (a ≡ b)
unfolding transition_beq
transition_beq_iff a b = (
  (λ h.
      let (t, s) = and-eq-true (a.time == b.time) (a.state == b.state) h in
      let t' = eq_of_beq a.time b.time t in
      let s' = eq_of_beq a.state b.state s in
      ap (λ x. record { time = x; state = a.state }) t'
      ∙ ap (λ x. record { time = b.time; state = x }) s'),
  (λ e. rw (sym e) (rw (beq_refl a.time, beq_refl a.state) refl)),
)

instance abbrev transition_eq : Eq Transition
transition_eq = record { equals = transition_beq; equals_iff = transition_beq_iff }

same_week : Dict ℕ Day → Dict ℕ Day → Bool
same_week v w = v == w

module _ {D : Type 0} (client : ScheduleClient D) (actor name : String) where
  push_week : List (List TimeValue) → Pass D → Pass D
  push_week desired p =
      let written = client.write_weekly desired p.thermostat in
      if written.0
      then record {
        result = record p.result { changed = p.result.changed ++ "weekly schedule" ∷ [] };
        thermostat = written.1;
        db = log actor "reconcile.weekly" (some name) p.db;
      }
      else record {
        result = record p.result { errors = p.result.errors ++ "write weekly schedule" ∷ [] };
        thermostat = written.1;
        db = log_as "unknown" actor "reconcile.weekly" (some name) p.db;
      }

  -- once the week of the device is resolved
  converge_week : Dict ℕ Day → Pass D → Pass D
  unfolding push_week same_week
  converge_week week p = elim (week_to_bacnet week) [
    | none ↦ fails "weekly schedule invalid" p
    | some desired ↦ elim (client.read_weekly p.thermostat) [
      | none ↦ fails "read weekly schedule" p
      | some raw ↦
          if same_week (normalise_week (client.read_default p.thermostat) (bacnet_to_week raw)) week
          then correct "weekly schedule" p
          else push_week desired p
    ]
  ]

  unfoldable pub reconcile_weekly : ℕ → Pass D → Pass D
  unfolding converge_week
  reconcile_weekly device_id p = elim (group_for_device device_id p.db) [
    | none ↦ p
    | some g ↦ converge_week (resolve_week (group_week g p.db) (day_overrides device_id p.db)) p
  ]

-- Every schedule can be read, a write is acknowledged, and what is written is read back.
pub record IsFaithful {D : Type 0} (client : ScheduleClient D) : Type 0 where
  pub reads : (d : D) → (ws : List (List TimeValue)) × (client.read_weekly d ≡ some ws)
  pub acknowledges : (ws : List (List TimeValue)) (d : D) → (client.write_weekly ws d).0 ≡ true
  pub lands :
      (ws : List (List TimeValue)) (d : D)
      → client.read_weekly (client.write_weekly ws d).1 ≡ some ws

-- no day of the week is left to the default of the device
abbrev pub NoEmptyDay : Dict ℕ Day → Type 0
NoEmptyDay week = All (λ e. is_nil e.1 ≡ false) week

normalise_week-same :
    (o : Option ℤ) (week : Dict ℕ Day) → NoEmptyDay week → normalise_week o week ≡ week
unfolding normalise_week
normalise_week-same none week h = refl
normalise_week-same (some s) [] h = refl
normalise_week-same (some s) ((d, day) ∷ week) (full, rest) =
    rw full (ap (λ w. (d, day) ∷ w) (normalise_week-same (some s) week rest))

module _ {D : Type 0} (client : ScheduleClient D) (actor name : String) where
  -- a device that reads back as the week wanted is left alone
  in_place :
      (week : Dict ℕ Day) (ws raw : List (List TimeValue)) (p : Pass D)
      → week_to_bacnet week ≡ some ws
      → client.read_weekly p.thermostat ≡ some raw
      → normalise_week (client.read_default p.thermostat) (bacnet_to_week raw) ≡ week
      → converge_week client actor name week p ≡ correct "weekly schedule" p
  unfolding converge_week same_week
  in_place week ws raw p sent reading same =
      rw (sent, converge_week) (rw (reading, converge_week) (rw same (rw (beq_refl week) refl)))

  -- what a first pass leaves: a device on which the week is in place, and the groups as they were
  abbrev Converged : Dict ℕ Day → Pass D → Pass D → Type 0
  Converged week p p' =
      ((raw : List (List TimeValue)) × (client.read_weekly p'.thermostat ≡ some raw)
        × (normalise_week (client.read_default p'.thermostat) (bacnet_to_week raw) ≡ week))
      × (p'.db.device_schedule ≡ p.db.device_schedule)
      × (p'.db.schedule_group_day ≡ p.db.schedule_group_day)
      × (p'.db.device_day_override ≡ p.db.device_day_override)

  converge_week-Converged :
      (faithful : IsFaithful client) (week : Dict ℕ Day) (ws : List (List TimeValue)) (p : Pass D)
      → NoEmptyDay week
      → week_to_bacnet week ≡ some ws
      → bacnet_to_week ws ≡ week
      → Converged week p (converge_week client actor name week p)
  unfolding converge_week push_week same_week
  converge_week-Converged faithful week ws p full sent back =
      let (raw, reading) = faithful.reads p.thermostat in
      let current = normalise_week (client.read_default p.thermostat) (bacnet_to_week raw) in
      elim (Bool-cases (current == week)) [
        | inl same ↦
            rw (in_place week ws raw p sent reading (eq_of_beq current week same))
              ((raw, reading, eq_of_beq current week same), refl, refl, refl)
        | inr differs ↦
            let d = (client.write_weekly ws p.thermostat).1 in
            rw (sent, converge_week)
              (rw (reading, converge_week)
                (rw differs (
                  rw (faithful.acknowledges ws p.thermostat) (
                    (
                      ws,
                      faithful.lands ws p.thermostat,
                      ap (normalise_week (client.read_default d)) back
                          ∙ normalise_week-same (client.read_default d) week full,
                    ),
                    refl,
                    refl,
                    refl,
                  ))))
      ]

  first_week :
      (id g : ℕ) (p : Pass D)
      → group_for_device id p.db ≡ some g
      → reconcile_weekly client actor name id p
        ≡ converge_week client actor name
            (resolve_week (group_week g p.db) (day_overrides id p.db))
            p
  unfolding reconcile_weekly
  first_week id g p assigned = rw (assigned, reconcile_weekly) refl

  second_week :
      (id g : ℕ) (week : Dict ℕ Day) (ws raw : List (List TimeValue)) (p : Pass D)
      → group_for_device id p.db ≡ some g
      → resolve_week (group_week g p.db) (day_overrides id p.db) ≡ week
      → week_to_bacnet week ≡ some ws
      → client.read_weekly p.thermostat ≡ some raw
      → normalise_week (client.read_default p.thermostat) (bacnet_to_week raw) ≡ week
      → reconcile_weekly client actor name id (again p)
        ≡ record p { result = record new_result { already_correct = "weekly schedule" ∷ [] } }
  second_week id g week ws raw p assigned e sent reading same =
      first_week id g (again p) assigned
      ∙ ap (λ w. converge_week client actor name w (again p)) e
      ∙ in_place week ws raw (again p) sent reading same

  group_for_device-same :
      (id : ℕ) (db db' : Database)
      → db'.device_schedule ≡ db.device_schedule
      → group_for_device id db' ≡ group_for_device id db
  unfolding group_for_device
  group_for_device-same id db db' e = rw e refl

  resolve_week-same :
      (id g : ℕ) (db db' : Database)
      → db'.schedule_group_day ≡ db.schedule_group_day
      → db'.device_day_override ≡ db.device_day_override
      → resolve_week (group_week g db') (day_overrides id db')
        ≡ resolve_week (group_week g db) (day_overrides id db)
  unfolding group_week day_overrides
  resolve_week-same id g db db' e k = rw (e, k) refl

  -- Where the device applies and reports what is written, and the days of the device's group and
  -- overrides are validated ones and not empty, one pass over the weekly schedule leaves the next one
  -- nothing to do, whatever the device held before and whatever its default is.
  pub reconcile_weekly-converges :
      (faithful : IsFaithful client) (id g : ℕ) (p : Pass D)
      → group_for_device id p.db ≡ some g
      → IsWeek (group_week g p.db)
      → IsWeek (day_overrides id p.db)
      → NoEmptyDay (resolve_week (group_week g p.db) (day_overrides id p.db))
      → let p' = reconcile_weekly client actor name id p in
        reconcile_weekly client actor name id (again p')
        ≡ record p' { result = record new_result { already_correct = "weekly schedule" ∷ [] } }
  reconcile_weekly-converges faithful id g p assigned gw ow full =
      let group = group_week g p.db in
      let overrides = day_overrides id p.db in
      let week = resolve_week group overrides in
      let (ws, sent, back) = resolved-roundtrip group overrides gw ow in
      let p' = converge_week client actor name week p in
      let ((raw, reading, same), s1, s2, s3) =
        converge_week-Converged faithful week ws p full sent back in
      rw (first_week id g p assigned) (
        second_week id g week ws raw p' (group_for_device-same id p.db p'.db s1 ∙ assigned)
          (resolve_week-same id g p.db p'.db s2 s3) sent reading same)
