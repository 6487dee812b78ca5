-- ===== src/Store/Week.antt =====
-- Schedule groups, the group of a device, and overrides of single days (bms/store.py). The schema
-- checks the day, the group that a row refers to, and the name of a group, which is unique.
use building_controls.Prelude.{
  ℕ, ◌+◌, Bool, true, false, ◌&&◌, not, String, Option, none, some, List, [], ◌∷◌, ◌++◌, ltb, leb,
  if◌then◌else◌, ◌==◌, nat_eq, string_eq, list_eq, option_eq, pair_eq,
}
use building_controls.Prelude.Dict.{Dict}
use building_controls.Prelude.Decimal.{str}
use building_controls.Prelude.Text.{codes}
use building_controls.Prelude.Sort.{order_by}
use building_controls.Prelude.Table.{select, fetch_one, delete, count, exists, upsert}
use building_controls.Database.{
  Day, ScheduleGroup, ScheduleGroupDay, DeviceDayOverride, Database, log,
}

-- `CHECK (day_of_week BETWEEN 1 AND 7)`
abbrev pub is_day : ℕ → Bool
is_day d = leb 1 d && leb d 7

abbrev pub has_group : ℕ → Database → Bool
has_group group_id db = exists (λ g. g.id == group_id) db.schedule_group

abbrev pub group_day : ℕ → ℕ → ScheduleGroupDay → Bool
group_day group_id d r = r.group_id == group_id && r.day_of_week == d

-- The rows that `add_group` inserts. A row that is refused leaves those before it in the transaction.
unfoldable pub insert_days : ℕ → Dict ℕ Day → Database → Bool × Database
insert_days group_id [] db = (true, db)
insert_days group_id ((d, transitions) ∷ week) db =
    elim (is_day d && not (exists (group_day group_id d) db.schedule_group_day)) [
      | false ↦ (false, db)
      | true ↦ insert_days group_id week (record db {
        schedule_group_day =
            db.schedule_group_day
            ++ record { group_id = group_id; day_of_week = d; transitions = transitions } ∷ [];
      })
    ]

unfoldable pub logged_group : String → String → ℕ → Bool × Database → Option ℕ × Database
logged_group name actor id (true, db) = (some id, log actor "group.add" (some name) db)
logged_group name actor id (false, db) = (none, db)

unfoldable pub add_group : String → Dict ℕ Day → String → String → Database → Option ℕ × Database
unfolding logged_group insert_days
add_group name week description actor db =
    if exists (λ g. g.name == name) db.schedule_group
    then (none, db)
    else logged_group name actor db.next_group (
        insert_days db.next_group week (record db {
          schedule_group =
              db.schedule_group
              ++ record { id = db.next_group; name = name; description = description } ∷ [];
          next_group = db.next_group + 1;
        }))

unfoldable pub set_group_day : ℕ → ℕ → Day → String → Database → Option Database
set_group_day group_id d transitions actor db =
    if is_day d && has_group group_id db
    then some (
        log actor "group.set_day" (some (str group_id)) (record db {
          schedule_group_day =
              upsert (group_day group_id d) (λ r. record r { transitions = transitions })
                (record { group_id = group_id; day_of_week = d; transitions = transitions })
                db.schedule_group_day;
        }))
    else none

abbrev pub group_days : List ScheduleGroupDay → Dict ℕ Day
group_days [] = []
group_days (r ∷ t) = (r.day_of_week, r.transitions) ∷ group_days t

unfoldable pub group_week : ℕ → Database → Dict ℕ Day
group_week group_id db = group_days (select (λ r. r.group_id == group_id) db.schedule_group_day)

-- `groups`: every group by name, with its week
unfoldable pub groups : Database → List (ScheduleGroup × Dict ℕ Day)
unfolding group_week
groups db = with_weeks (order_by (λ g. codes g.name) db.schedule_group)
  where
    with_weeks : List ScheduleGroup → List (ScheduleGroup × Dict ℕ Day)
    with_weeks [] = []
    with_weeks (g ∷ t) = (g, group_week g.id db) ∷ with_weeks t

unfoldable pub assign_group : ℕ → ℕ → String → Database → Option Database
assign_group device_id group_id actor db =
    if has_group group_id db
    then some (
        log actor "device.assign_group" (some (str device_id)) (record db {
          device_schedule =
              upsert (λ r. r.device_id == device_id) (λ r. record r { group_id = group_id })
                (record { device_id = device_id; group_id = group_id }) db.device_schedule;
        }))
    else none

unfoldable pub group_for_device : ℕ → Database → Option ℕ
group_for_device device_id db =
    elim (fetch_one (λ r. r.device_id == device_id) db.device_schedule) [
      | none ↦ none
      | some r ↦ some r.group_id
    ]

abbrev pub override_of : ℕ → ℕ → DeviceDayOverride → Bool
override_of device_id d r = r.device_id == device_id && r.day_of_week == d

unfoldable pub set_day_override : ℕ → ℕ → Day → String → Database → Option Database
set_day_override device_id d transitions actor db =
    if is_day d
    then some (
        log actor "device.day_override" (some (str device_id)) (record db {
          device_day_override =
              upsert (override_of device_id d) (λ r. record r { transitions = transitions })
                (record { device_id = device_id; day_of_week = d; transitions = transitions })
                db.device_day_override;
        }))
    else none

unfoldable pub clear_day_override : ℕ → ℕ → String → Database → Bool × Database
clear_day_override device_id d actor db =
    let db' = record db {
      device_day_override = delete (override_of device_id d) db.device_day_override;
    } in
    if ltb 0 (count (override_of device_id d) db.device_day_override)
    then (true, log actor "device.clear_override" (some (str device_id)) db')
    else (false, db')

abbrev pub override_days : List DeviceDayOverride → Dict ℕ Day
override_days [] = []
override_days (r ∷ t) = (r.day_of_week, r.transitions) ∷ override_days t

unfoldable pub day_overrides : ℕ → Database → Dict ℕ Day
day_overrides device_id db =
    override_days (select (λ r. r.device_id == device_id) db.device_day_override)
