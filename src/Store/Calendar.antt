-- ===== src/Store/Calendar.antt =====
-- Holidays and dated exceptions (bms/store.py).
use building_controls.Prelude.{
  ℕ, ◌+◌, Bool, true, false, ◌&&◌, ◌||◌, not, String, Option, none, some, List, [], ◌∷◌, ◌++◌, ltb,
  if◌then◌else◌, ◌==◌, nat_eq, string_eq, list_eq, option_eq, pair_eq,
}
use building_controls.Prelude.Decimal.{str}
use building_controls.Prelude.Text.{Text}
use building_controls.Prelude.Sort.{order_by, leb_text}
use building_controls.Prelude.Table.{select, delete, count}
use building_controls.Database.{
  Scope, global, zone, device, scope_eq, Day, Holiday, OccupancyException, Database, log,
}

-- `fields` comes with the id that it has not got yet; the schema checks nothing that the types here
-- do not say.
unfoldable pub add_holiday : Holiday → String → Database → ℕ × Database
add_holiday fields actor db = (
  db.next_holiday,
  log actor "holiday.add" (some (str db.next_holiday)) (record db {
    holiday = db.holiday ++ record fields { id = db.next_holiday } ∷ [];
    next_holiday = db.next_holiday + 1;
  }),
)

unfoldable pub delete_holiday : ℕ → String → Database → Bool × Database
delete_holiday holiday_id actor db =
    let db' = record db { holiday = delete (λ r. r.id == holiday_id) db.holiday } in
    if ltb 0 (count (λ r. r.id == holiday_id) db.holiday)
    then (true, log actor "holiday.delete" (some (str holiday_id)) db')
    else (false, db')

abbrev pub same_zone : Option String → Scope → String → Bool
same_zone none scope ref = false
same_zone (some z) scope ref = scope_eq scope zone && ref == z

abbrev pub same_device : Option ℕ → Scope → String → Bool
same_device none scope ref = false
same_device (some d) scope ref = scope_eq scope device && ref == str d

-- the `(scope = 'global' OR ...)` of `holidays`, absent when neither argument is given
unfoldable pub in_scope : Option ℕ → Option String → Scope → String → Bool
in_scope none none scope ref = true
in_scope (some d) z scope ref =
    scope_eq scope global || same_zone z scope ref || same_device (some d) scope ref
in_scope none (some z) scope ref = scope_eq scope global || same_zone (some z) scope ref

-- a column in an ordering: NULL comes first
abbrev pub nulls_first : Option ℕ → ℕ
nulls_first none = 0
nulls_first (some n) = n + 1

abbrev pub by_date : Holiday → List ℕ
by_date r = nulls_first r.month ∷ nulls_first r.day ∷ r.id ∷ []

unfoldable pub holidays : Option ℕ → Option String → Bool → Database → List Holiday
unfolding in_scope
holidays device_id z enabled_only db = order_by by_date (
    select (λ r. (not enabled_only || r.enabled) && in_scope device_id z r.scope r.scope_ref)
      db.holiday)

unfoldable pub add_exception :
    String → Text → Day → Option Text → Scope → String → String → Database → ℕ × Database
add_exception name start_date transitions end_date scope scope_ref actor db = (
  db.next_exception,
  log actor "exception.add" (some name) (record db {
    occupancy_exception =
        db.occupancy_exception
        ++ record {
          id = db.next_exception;
          name = name;
          scope = scope;
          scope_ref = scope_ref;
          start_date = start_date;
          end_date = end_date;
          transitions = transitions;
          enabled = true;
        }
          ∷ [];
    next_exception = db.next_exception + 1;
  }),
)

unfoldable pub delete_exception : ℕ → String → Database → Bool × Database
delete_exception exception_id actor db =
    let db' = record db {
      occupancy_exception = delete (λ r. r.id == exception_id) db.occupancy_exception;
    } in
    if ltb 0 (count (λ r. r.id == exception_id) db.occupancy_exception)
    then (true, log actor "exception.delete" (some (str exception_id)) db')
    else (false, db')

-- `COALESCE(end_date, start_date)`
abbrev pub last_date : OccupancyException → Text
last_date r = elim r.end_date [ none ↦ r.start_date | some e ↦ e ]

-- today's date is an argument, given when `upcoming_only` is set
unfoldable pub all_exceptions : Option Text → Database → List OccupancyException
all_exceptions none db = order_by (λ r. r.start_date) db.occupancy_exception
all_exceptions (some today) db =
    order_by (λ r. r.start_date) (select (λ r. leb_text today (last_date r)) db.occupancy_exception)

-- `if on_or_after`: an empty text counts as none
abbrev pub not_before : Option Text → OccupancyException → Bool
not_before none r = true
not_before (some []) r = true
not_before (some (c ∷ s)) r = leb_text (c ∷ s) (last_date r)

unfoldable pub exceptions_for : ℕ → String → Option Text → Database → List OccupancyException
unfolding in_scope
exceptions_for device_id z on_or_after db =
    order_by (λ r. r.start_date)
      (select
        (λ r.
          r.enabled
          && in_scope (some device_id) (some z) r.scope r.scope_ref
          && not_before on_or_after r)
        db.occupancy_exception)
