-- ===== src/Reconciler/Calendar/Laws.antt =====
-- A pass over the holidays settles the calendar, unless a rule is malformed: then it does nothing.
use building_controls.Prelude.{
  ℕ, zero, suc, ◌<◌, ◌≡◌, refl, ap, ◌∙◌, inl, inr, Bool, true, ◌&&◌, not, String, Option, none,
  some, List, [], ◌∷◌, ◌++◌, map, arith, if◌then◌else◌, Bool-cases, Option-cases, is_some, nat_eq,
  string_eq, list_eq, option_eq, pair_eq,
}
use building_controls.Prelude.Text.{Text}
use building_controls.Prelude.Dates.{Date}
use building_controls.Prelude.Table.{select, count}
use building_controls.Prelude.Sort.{order_by}
use building_controls.Database.{Database, Holiday, OccupancyException}
use building_controls.Store.Calendar.{holidays, exceptions_for, add_holiday, in_scope, by_date}
use building_controls.Holidays.{CalendarEntry, to_calendar_entry, to_calendar_entries}
use building_controls.Schedules.Events.{SpecialEvent}
use building_controls.Store.Reach.{count-query}
use building_controls.Reconciler.{Pass, fails, correct, again}
use building_controls.Reconciler.Drift.{Contents, same, same_iff, occurs}
use building_controls.Reconciler.Calendar.{
  CalendarClient, holiday_events, one_offs, reconcile_exceptions, pushed, push_calendar,
  reconcile_holidays,
}

-- The calendar can be read, writes are acknowledged, and the entries written are read back, in whatever
-- order; the exceptions are another property.
pub record IsFaithful {D : Type 0} (dict_contents : CalendarEntry → Contents)
    (client : CalendarClient D) : Type 0 where
  pub reads : (d : D) → (cs : List Contents) × (client.read_calendar d ≡ some cs)
  pub acknowledges : (es : List CalendarEntry) (d : D) → (client.write_calendar es d).0 ≡ true
  pub lands :
      (es : List CalendarEntry) (d : D)
      → (cs : List Contents) × (client.read_calendar (client.write_calendar es d).1 ≡ some cs)
        × ((k : Text) → occurs k cs ≡ occurs k (map dict_contents es))
  pub takes : (evs : List SpecialEvent) (d : D) → (client.write_exceptions evs d).0 ≡ true
  pub keeps :
      (evs : List SpecialEvent) (d : D)
      → client.read_calendar (client.write_exceptions evs d).1 ≡ client.read_calendar d

holidays-same :
    (o : Option ℕ) (z : Option String) (e : Bool) (db db' : Database)
    → db'.holiday ≡ db.holiday
    → holidays o z e db' ≡ holidays o z e db
unfolding holidays
holidays-same o z e db db' h = rw h refl

exceptions_for-same :
    (d : ℕ) (z : String) (t : Option Text) (db db' : Database)
    → db'.occupancy_exception ≡ db.occupancy_exception
    → exceptions_for d z t db' ≡ exceptions_for d z t db
unfolding exceptions_for
exceptions_for-same d z t db db' h = rw h refl

module _ (fromisoformat : Text → Option Date) {D : Type 0} (client : CalendarClient D)
    (actor name : String) (today : Text) (dict_contents : CalendarEntry → Contents)
    (faithful : IsFaithful dict_contents client) where
  abbrev pass : ℕ → String → Pass D → Pass D
  pass = reconcile_holidays fromisoformat client actor name today dict_contents

  abbrev write_events : List Holiday → List OccupancyException → Pass D → Pass D
  write_events = reconcile_exceptions fromisoformat client actor name today

  -- the calendar on the device is the one wanted
  abbrev Settled : List CalendarEntry → Pass D → Type 0
  Settled desired p =
      (cs : List Contents) × (client.read_calendar p.thermostat ≡ some cs)
      × (same cs (map dict_contents desired) ≡ true)

  written-Settled :
      (desired : List CalendarEntry) (hs : List Holiday) (es : List OccupancyException) (p : Pass D)
      → Settled desired p
      → Settled desired (write_events hs es p)
  unfolding reconcile_exceptions
  written-Settled desired hs es p (cs, reading, same_as) = (
    cs,
    faithful.keeps (holiday_events hs ++ (one_offs fromisoformat es).0) p.thermostat ∙ reading,
    same_as,
  )

  -- what a first pass leaves
  abbrev Converged : List CalendarEntry → Pass D → Pass D → Type 0
  Converged desired p p' =
      Settled desired p'
      × (p'.db.holiday ≡ p.db.holiday)
      × (p'.db.occupancy_exception ≡ p.db.occupancy_exception)

  push-Converged :
      (desired : List CalendarEntry) (hs : List Holiday) (es : List OccupancyException) (p : Pass D)
      → Converged desired p (push_calendar fromisoformat client actor name today desired hs es p)
  unfolding push_calendar
  push-Converged desired hs es p =
      let (cs, reading, equal) = faithful.lands desired p.thermostat in
      rw (faithful.acknowledges desired p.thermostat, push_calendar)
        (
          written-Settled desired hs es
              (pushed actor name (client.write_calendar desired p.thermostat).1 p)
              (cs, reading, (same_iff cs (map dict_contents desired)).1 equal),
          refl,
          refl,
        )

  pass-Converged :
      (id : ℕ) (z : String) (p : Pass D) (desired : List CalendarEntry)
      → to_calendar_entries (holidays (some id) (some z) true p.db) ≡ some desired
      → Converged desired p (pass id z p)
  unfolding reconcile_holidays
  pass-Converged id z p desired valid =
      let hs = holidays (some id) (some z) true p.db in
      let es = exceptions_for id z (some today) p.db in
      let (current, reading) = faithful.reads p.thermostat in
      rw (valid, reconcile_holidays)
        (rw (reading, reconcile_holidays)
          (elim (Bool-cases (same current (map dict_contents desired))) [
            | inl in_place ↦ rw in_place (
              written-Settled desired hs es (correct "holidays" p) (current, reading, in_place),
              refl,
              refl,
            )
            | inr drift ↦ rw drift (push-Converged desired hs es p)
          ]))

  -- Where the device can be read, takes what it is sent and gives back the entries written, in whatever
  -- order, and every rule that applies to it is well formed, a pass over the holidays leaves the
  -- calendar in place: the next pass changes nothing on it, writes no audit row, writes the exceptions
  -- once more, and reports the exceptions that cannot be sent as its only errors.
  pub reconcile_holidays-converges :
      (id : ℕ) (z : String) (p : Pass D) (desired : List CalendarEntry)
      → to_calendar_entries (holidays (some id) (some z) true p.db) ≡ some desired
      → let p' = pass id z p in
        let p'' = pass id z (again p') in
        (p''.result ≡ record {
          changed = [];
          already_correct = "holidays" ∷ "exceptions" ∷ [];
          errors = (one_offs fromisoformat (exceptions_for id z (some today) p.db)).1;
        })
        × (p''.db ≡ p'.db)
        × (client.read_calendar p''.thermostat ≡ client.read_calendar p'.thermostat)
  unfolding reconcile_holidays reconcile_exceptions
  reconcile_holidays-converges id z p desired valid =
      let p' = pass id z p in
      let ((cs, reading, in_place), same_rules, same_exceptions) =
        pass-Converged id z p desired valid in
      let hs = holidays (some id) (some z) true p'.db in
      let es = exceptions_for id z (some today) p'.db in
      let evs = holiday_events hs ++ (one_offs fromisoformat es).0 in
      let valid' : to_calendar_entries (holidays (some id) (some z) true p'.db) ≡ some desired =
        ap to_calendar_entries (holidays-same (some id) (some z) true p.db p'.db same_rules)
        ∙ valid in
      let dates = exceptions_for-same id z (some today) p.db p'.db same_exceptions in
      let again_is : pass id z (again p') ≡ write_events hs es (correct "holidays" (again p')) =
        rw (valid', reconcile_holidays) (rw (reading, reconcile_holidays) (rw in_place refl)) in
      let sent = faithful.takes evs p'.thermostat in
      rw again_is (
        rw (sent, reconcile_exceptions)
            (ap
              (λ l. record {
                changed = [];
                already_correct = "holidays" ∷ "exceptions" ∷ [];
                errors = (one_offs fromisoformat l).1;
              })
              dates),
        refl,
        faithful.keeps evs p'.thermostat,
      )

abbrev is_malformed : Holiday → Bool
is_malformed h = not (is_some (to_calendar_entry h))

malformed-to_calendar_entries :
    (hs : List Holiday) → 0 < count is_malformed hs → to_calendar_entries hs ≡ none
unfolding to_calendar_entries
malformed-to_calendar_entries [] h = absurd (omega arith)
malformed-to_calendar_entries (x ∷ hs) h = elim (Option-cases (to_calendar_entry x)) [
  | inl bad ↦ rw (bad, to_calendar_entries) refl
  | inr (e, good) ↦
      let rest = malformed-to_calendar_entries hs (rw good at h) in
      rw (good, to_calendar_entries) (rw rest refl)
]

-- One rule that makes no calendar entry, such as a fixed one without its day, stops the holidays and
-- the exceptions of every device that it applies to, once it is stored and enabled: the pass writes
-- nothing to the device, whatever it holds and whatever else is stored, and reports one error.
-- `add_holiday` stores such a rule as any other.
pub reconcile_holidays-malformed :
    (fromisoformat : Text → Option Date) {D : Type 0} (client : CalendarClient D)
    (actor name : String) (today : Text) (dict_contents : CalendarEntry → Contents) (h : Holiday)
    (added_by : String) (id : ℕ) (z : String) (p : Pass D)
    → to_calendar_entry h ≡ none
    → h.enabled ≡ true
    → in_scope (some id) (some z) h.scope h.scope_ref ≡ true
    → let p' = record p { db = (add_holiday h added_by p.db).1 } in
      reconcile_holidays fromisoformat client actor name today dict_contents id z p'
      ≡ fails "holiday rules invalid" p'
unfolding reconcile_holidays add_holiday holidays to_calendar_entry
reconcile_holidays-malformed fromisoformat client actor name today dict_contents h added_by id z p
      bad on applies =
    let new = record h { id = p.db.next_holiday } in
    let applied : Holiday → Bool =
      λ r. r.enabled && in_scope (some id) (some z) r.scope r.scope_ref in
    let listed = order_by by_date (select applied (p.db.holiday ++ new ∷ [])) in
    let here : (applied new && is_malformed new) ≡ true =
      rw on (rw applies (ap (λ o. not (is_some o)) bad)) in
    let found : 0 < count is_malformed listed = omega (
      arith,
      count-query by_date applied is_malformed p.db.holiday new,
      ap (λ (b : Bool). if b then suc zero else zero) here,
    ) in
    rw (malformed-to_calendar_entries listed found, reconcile_holidays) refl
