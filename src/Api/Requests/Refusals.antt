-- ===== src/Api/Requests/Refusals.antt =====
-- A request that is refused changes nothing.
use building_controls.Prelude.{
  ℕ, ◌≡◌, refl, ap, ◌≢◌, inl, inr, Bool, true, false, ◌&&◌, String, Option, none, some, List, arith,
  ltb, leb, if◌then◌else◌, Bool-cases, Option-cases, is_some, ◌==◌, nat_eq, string_eq, list_eq,
  option_eq, pair_eq,
}
use building_controls.Prelude.Dict.{lookup}
use building_controls.Prelude.Int.{ℤ}
use building_controls.Prelude.Text.{Text}
use building_controls.Prelude.Table.{delete-count_zero, update-count_zero, count, fetch_one}
use building_controls.Database.{Database, Holiday, OccupancyException}
use building_controls.Points.{setpoint_limits}
use building_controls.Store.Calendar
use building_controls.Store.Week
use building_controls.Schedules.{Draft, validate_transitions, validation_error}
use building_controls.Zones
use building_controls.Zones.{Zones}
use building_controls.Auth.User.{User, at_least}
use building_controls.Auth.Password.{Error, value_error, type_error, other_error, Result, Scrypt}
use building_controls.Auth.Accounts
use building_controls.Auth.Accounts.Refusals.{create_user-same, set_password-same}
use building_controls.Api.Seeds.{default_groups, add_missing_groups}
use building_controls.Auth.Accounts.{named}
use building_controls.Api.Caller.{ok, refused}
use building_controls.Api.Requests.{
  Hub, Body, Request, add_holiday, delete_holiday, seed_us_federal, seed_groups,
  set_setpoint_intent, set_device_zone, set_group_day, assign_group, set_override, clear_override,
  add_exception, delete_exception, create_user, set_password, set_zones, deactivate_user, role_of,
  parse_scope, parse_rule, in_bounds, Outcome, deny, status_of, stored, found_or_404, stored_or_500,
  post_holiday, put_setpoint, put_device_zone, put_group_day, put_override, post_exception,
  on_device, put_zones, delete_user, user_made, password_set, groups_seeded, move_cached, created,
  done, new_grant, post_user, put_password, serve, handle,
}

-- If the outcome is a refusal other than a failure of the server, the state is as it was.
abbrev pub Quiet : Hub → Outcome → Type 0
Quiet hub o = (status : ℕ) → o.0 ≡ refused status → status ≢ 500 → o.1 ≡ hub

deny-Quiet : (status : ℕ) (hub : Hub) → Quiet hub (deny status hub)
deny-Quiet status hub s h k = refl

stored-Quiet : (b : Body) (db : Database) (hub : Hub) → Quiet hub (stored b db hub)
stored-Quiet b db hub s h k = ground arith

same_db : (hub : Hub) (db : Database) → db ≡ hub.db → record hub { db = db } ≡ hub
same_db hub db e = ap (λ d. record hub { db = d }) e

found_or_404-Quiet :
    (r : Bool × Database) (hub : Hub)
    → (r.0 ≡ false → r.1 ≡ hub.db)
    → Quiet hub (found_or_404 r hub)
found_or_404-Quiet (true, db) hub e s h k = ground arith
found_or_404-Quiet (false, db) hub e s h k = same_db hub db (e refl)

stored_or_500-Quiet : (o : Option Database) (hub : Hub) → Quiet hub (stored_or_500 o hub)
stored_or_500-Quiet none hub s h k = refl
stored_or_500-Quiet (some db) hub s h k = ground arith

if-Quiet :
    (b : Bool) (hub : Hub) (o o' : Outcome)
    → Quiet hub o
    → Quiet hub o'
    → Quiet hub (if b then o else o')
if-Quiet true hub o o' q q' = q
if-Quiet false hub o o' q q' = q'

delete_holiday-same :
    (id : ℕ) (actor : String) (db : Database)
    → (Calendar.delete_holiday id actor db).0 ≡ false
    → (Calendar.delete_holiday id actor db).1 ≡ db
unfolding Calendar.delete_holiday
delete_holiday-same id actor db h =
    elim (Bool-cases (ltb 0 (count (λ (r : Holiday). r.id == id) db.holiday))) [
      | inl found ↦ let g = rw found at h in ground arith
      | inr missing ↦ rw missing (
          ap (λ t. record db { holiday = t })
            (delete-count_zero (λ (r : Holiday). r.id == id) db.holiday missing))
    ]

delete_exception-same :
    (id : ℕ) (actor : String) (db : Database)
    → (Calendar.delete_exception id actor db).0 ≡ false
    → (Calendar.delete_exception id actor db).1 ≡ db
unfolding Calendar.delete_exception
delete_exception-same id actor db h =
    elim (Bool-cases
      (ltb 0 (count (λ (r : OccupancyException). r.id == id) db.occupancy_exception))) [
        | inl found ↦ let g = rw found at h in ground arith
        | inr missing ↦ rw missing (
            ap (λ t. record db { occupancy_exception = t })
              (delete-count_zero (λ (r : OccupancyException). r.id == id) db.occupancy_exception
                missing))
      ]

clear_day_override-same :
    (id d : ℕ) (actor : String) (db : Database)
    → (Week.clear_day_override id d actor db).0 ≡ false
    → (Week.clear_day_override id d actor db).1 ≡ db
unfolding Week.clear_day_override
clear_day_override-same id d actor db h =
    elim (Bool-cases (ltb 0 (count (Week.override_of id d) db.device_day_override))) [
      | inl found ↦ let g = rw found at h in ground arith
      | inr missing ↦ rw missing (
          ap (λ t. record db { device_day_override = t })
            (delete-count_zero (Week.override_of id d) db.device_day_override missing))
    ]

deactivate-same :
    (username actor : String) (db : Database)
    → (Accounts.deactivate username actor db).0 ≡ false
    → (Accounts.deactivate username actor db).1 ≡ db
unfolding Accounts.deactivate
deactivate-same username actor db h =
    elim (Bool-cases (ltb 0 (count (named username) db.app_user))) [
      | inl found ↦ let g = rw found at h in ground arith
      | inr missing ↦ rw missing (
          ap (λ t. record db { app_user = t })
            (update-count_zero (named username) (λ r. record r { active = false }) db.app_user
              missing))
    ]

set_zones-same :
    (username : String) (zones : List String) (actor : String) (db : Database)
    → (Accounts.set_zones username zones actor db).0 ≡ false
    → (Accounts.set_zones username zones actor db).1 ≡ db
unfolding Accounts.set_zones
set_zones-same username zones actor db h =
    elim (Option-cases (fetch_one (named username) db.app_user)) [
      | inl missing ↦ rw (missing, Accounts.set_zones) refl
      | inr (r, found) ↦ let g = rw (found, Accounts.set_zones) at h in ground arith
    ]

user_made-Quiet :
    (password : Text) (r : Result ℕ × Database) (hub : Hub)
    → ((e : Error) → r.0 ≡ Result.raise e → r.1 ≡ hub.db)
    → Quiet hub (user_made password r hub)
user_made-Quiet password (Result.ok id, db) hub same s h k = ground arith
user_made-Quiet password (Result.raise value_error, db) hub same s h k =
    same_db hub db (same value_error refl)
user_made-Quiet password (Result.raise type_error, db) hub same s h k =
    same_db hub db (same type_error refl)
user_made-Quiet password (Result.raise other_error, db) hub same s h k =
    same_db hub db (same other_error refl)

password_set-Quiet :
    (password : Text) (r : Result Bool × Database) (hub : Hub)
    → (r.0 ≢ Result.ok true → r.1 ≡ hub.db)
    → Quiet hub (password_set password r hub)
password_set-Quiet password (Result.ok true, db) hub same s h k = ground arith
password_set-Quiet password (Result.ok false, db) hub same s h k = same_db hub db (same (λ e. cc))
password_set-Quiet password (Result.raise value_error, db) hub same s h k =
    same_db hub db (same (λ e. cc))
password_set-Quiet password (Result.raise type_error, db) hub same s h k =
    same_db hub db (same (λ e. cc))
password_set-Quiet password (Result.raise other_error, db) hub same s h k =
    same_db hub db (same (λ e. cc))

groups_seeded-Quiet : (r : Option ℕ × Database) (hub : Hub) → Quiet hub (groups_seeded r hub)
groups_seeded-Quiet (none, db) hub s h k = absurd (k (ground arith))
groups_seeded-Quiet (some n, db) hub s h k = ground arith

put_override-Quiet : (id d : ℕ) (ts : List Draft) (hub : Hub) → Quiet hub (put_override id d ts hub)
unfolding put_override
put_override-Quiet id d ts hub =
    if-Quiet (leb 1 d && leb d 7) hub _ _ (checked (validate_transitions ts)) (deny-Quiet 400 hub)
  where
    checked :
        (o : Option _)
        → Quiet hub (elim o [
          | none ↦ deny (status_of (validation_error ts)) hub
          | some day ↦ stored_or_500 (Week.set_day_override id d day "api" hub.db) hub
        ])
    checked none = deny-Quiet (status_of (validation_error ts)) hub
    checked (some day) = stored_or_500-Quiet (Week.set_day_override id d day "api" hub.db) hub

put_group_day-Quiet :
    (id d : ℕ) (ts : List Draft) (hub : Hub) → Quiet hub (put_group_day id d ts hub)
unfolding put_group_day
put_group_day-Quiet id d ts hub =
    if-Quiet (leb 1 d && leb d 7) hub _ _ (checked (validate_transitions ts)) (deny-Quiet 400 hub)
  where
    checked :
        (o : Option _)
        → Quiet hub (elim o [
          | none ↦ deny (status_of (validation_error ts)) hub
          | some day ↦ stored_or_500 (Week.set_group_day id d day "api" hub.db) hub
        ])
    checked none = deny-Quiet (status_of (validation_error ts)) hub
    checked (some day) = stored_or_500-Quiet (Week.set_group_day id d day "api" hub.db) hub

post_exception-Quiet :
    (name : String) (start : Text) (end : Option Text) (ts : List Draft) (scope ref : String)
    (hub : Hub)
    → Quiet hub (post_exception name start end ts scope ref hub)
unfolding post_exception
post_exception-Quiet name start end ts scope ref hub =
    elim (Option-cases (validate_transitions ts)) [
      | inl bad ↦ rw (bad, post_exception) (deny-Quiet (status_of (validation_error ts)) hub)
      | inr (day, good) ↦ elim (Option-cases (parse_scope scope)) [
        | inl bad ↦ rw (good, post_exception) (rw bad (deny-Quiet 500 hub))
        | inr (s, known) ↦ rw (good, post_exception) (rw known (stored-Quiet _ _ hub))
      ]
    ]

post_holiday-Quiet :
    (rule : String) (fields : Holiday) (hub : Hub) → Quiet hub (post_holiday rule fields hub)
unfolding post_holiday
post_holiday-Quiet rule fields hub =
    if-Quiet (in_bounds fields) hub _ _ (ruled (parse_rule rule)) (deny-Quiet 422 hub)
  where
    ruled :
        (o : Option _)
        → Quiet hub (elim o [
          | none ↦ deny 400 hub
          | some r ↦
              let made = Calendar.add_holiday (record fields { rule_type = r }) "api" hub.db in
              stored (created made.0) made.1 hub
        ])
    ruled none = deny-Quiet 400 hub
    ruled (some r) = stored-Quiet _ _ hub

put_setpoint-Quiet :
    (scope ref key : String) (value : ℤ) (hub : Hub)
    → Quiet hub (put_setpoint scope ref key value hub)
unfolding put_setpoint
put_setpoint-Quiet scope ref key value hub = elim (Option-cases (parse_scope scope)) [
  | inl bad ↦ rw (bad, put_setpoint) (deny-Quiet 400 hub)
  | inr (s, known) ↦
      rw (known, put_setpoint)
        (if-Quiet (is_some (lookup key setpoint_limits)) hub _ _ (stored-Quiet _ _ hub)
          (deny-Quiet 400 hub))
]

put_device_zone-Quiet :
    (zs : Zones) (id : ℕ) (z actor : String) (hub : Hub)
    → Quiet hub (put_device_zone zs id z actor hub)
unfolding put_device_zone
put_device_zone-Quiet zs id z actor hub = if-Quiet (z == "") hub _ _ (deny-Quiet 422 hub) (
    if-Quiet (is_some (lookup id zs.defaults)) hub _ _ (set_to (Zones.set id z actor hub.db))
      (deny-Quiet 404 hub))
  where
    set_to :
        (o : Option Database)
        → Quiet hub (elim o [
          | none ↦ deny 400 hub
          | some db ↦ (ok done, record hub { db = db; cache = move_cached id z hub.cache })
        ])
    set_to none = deny-Quiet 400 hub
    set_to (some db) = λ s h k. ground arith

on_device-Quiet :
    (zs : Zones) (id : ℕ) (hub : Hub) (o : Outcome)
    → Quiet hub o
    → Quiet hub (on_device zs id hub o)
on_device-Quiet zs id hub o q =
    if-Quiet (is_some (lookup id zs.defaults)) hub _ _ q (deny-Quiet 404 hub)

put_zones-Quiet :
    (zs : Zones) (username : String) (asked : List String) (actor : String) (hub : Hub)
    → Quiet hub (put_zones zs username asked actor hub)
unfolding put_zones
put_zones-Quiet zs username asked actor hub =
    elim (Option-cases (Zones.validate_grant asked zs hub.db)) [
      | inl bad ↦ rw (bad, put_zones) (deny-Quiet 400 hub)
      | inr (cleaned, good) ↦
          let set = Accounts.set_zones username cleaned actor hub.db in
          rw (good, put_zones)
            (elim (Bool-cases set.0) [
              | inl found ↦ rw found (stored-Quiet _ _ hub)
              | inr missing ↦ rw missing (λ s h k.
                  same_db hub set.1 (set_zones-same username cleaned actor hub.db missing))
            ])
    ]

delete_user-Quiet :
    (username : String) (u : User) (hub : Hub) → Quiet hub (delete_user username u hub)
unfolding delete_user
delete_user-Quiet username u hub = if-Quiet (username == u.username) hub _ _ (deny-Quiet 400 hub) (
    found_or_404-Quiet (Accounts.deactivate username u.username hub.db) hub
      (deactivate-same username u.username hub.db))

module _ (scrypt : Scrypt) (lower : String → String) (zs : Zones) where
  post_user-Quiet :
      (salt : List ℕ) (password : Text) (username role display_name : String) (asked : List String)
      (actor : String) (hub : Hub)
      → Quiet hub
          (post_user scrypt lower zs salt password username role display_name asked actor hub)
  unfolding post_user
  post_user-Quiet salt password username role display_name asked actor hub =
      elim (Option-cases (new_grant zs role asked hub.db)) [
        | inl bad ↦ rw (bad, post_user) (deny-Quiet 400 hub)
        | inr (grant, good) ↦
            rw (good, post_user)
              (user_made-Quiet password
                (Accounts.create_user scrypt salt username password role display_name grant actor
                  true hub.db)
                hub
                (create_user-same scrypt salt username password role display_name grant actor true
                  hub.db))
      ]

  serve-Quiet :
      (request : Request) (u : User) (hub : Hub) → Quiet hub (serve scrypt lower zs request u hub)
  unfolding serve put_password
  serve-Quiet (add_holiday rule fields) u hub = post_holiday-Quiet rule fields hub
  serve-Quiet (delete_holiday id) u hub =
      found_or_404-Quiet (Calendar.delete_holiday id "api" hub.db) hub
        (delete_holiday-same id "api" hub.db)
  serve-Quiet seed_us_federal u hub = stored-Quiet _ _ hub
  serve-Quiet seed_groups u hub = groups_seeded-Quiet (add_missing_groups default_groups hub.db) hub
  serve-Quiet (set_setpoint_intent scope ref key value) u hub =
      put_setpoint-Quiet scope ref key value hub
  serve-Quiet (set_device_zone id z) u hub = put_device_zone-Quiet zs id z u.username hub
  serve-Quiet (set_group_day id d ts) u hub = put_group_day-Quiet id d ts hub
  serve-Quiet (assign_group id group) u hub =
      on_device-Quiet zs id hub _
        (stored_or_500-Quiet (Week.assign_group id group "api" hub.db) hub)
  serve-Quiet (set_override id d ts) u hub =
      on_device-Quiet zs id hub _ (put_override-Quiet id d ts hub)
  serve-Quiet (clear_override id d) u hub = on_device-Quiet zs id hub _ (
      found_or_404-Quiet (Week.clear_day_override id d "api" hub.db) hub
        (clear_day_override-same id d "api" hub.db))
  serve-Quiet (add_exception name start end ts scope ref) u hub =
      post_exception-Quiet name start end ts scope ref hub
  serve-Quiet (delete_exception id) u hub =
      found_or_404-Quiet (Calendar.delete_exception id "api" hub.db) hub
        (delete_exception-same id "api" hub.db)
  serve-Quiet (create_user salt password username role display_name asked) u hub =
      post_user-Quiet salt password username role display_name asked u.username hub
  serve-Quiet (set_password salt password username) u hub =
      password_set-Quiet password
        (Accounts.set_password scrypt lower salt username password u.username none hub.db) hub
        (set_password-same scrypt lower salt username password u.username none hub.db)
  serve-Quiet (set_zones username asked) u hub = put_zones-Quiet zs username asked u.username hub
  serve-Quiet (deactivate_user username) u hub = delete_user-Quiet username u hub

  -- A request of a manager or an administrator that is refused, with whatever status but that of a
  -- failure in the server, leaves the database and the cache as they were, audit log included.
  pub handle-refused :
      (request : Request) (u : User) (hub : Hub) (status : ℕ)
      → (handle scrypt lower zs request u hub).0 ≡ refused status
      → status ≢ 500
      → (handle scrypt lower zs request u hub).1 ≡ hub
  unfolding handle
  handle-refused request u hub =
      if-Quiet (at_least u (role_of request)) hub _ _ (serve-Quiet request u hub)
        (deny-Quiet 403 hub)
