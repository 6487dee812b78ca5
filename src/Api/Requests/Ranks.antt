-- ===== src/Api/Requests/Ranks.antt =====
-- What each rank can change through the routes of `Request`.
use building_controls.Prelude.{
  ℕ, ◌+◌, ◌≡◌, refl, ◌∙◌, ◌≢◌, ◌⊎◌, inl, inr, Bool, true, false, ◌&&◌, not, String, Option, none,
  some, List, [], ◌∷◌, ◌++◌, arith, leb, if◌then◌else◌, Bool-cases, Option-cases, is_some, ◌==◌,
  nat_eq, string_eq, contains, list_eq, option_eq, pair_eq,
}
use building_controls.Prelude.Dict.{Dict, lookup}
use building_controls.Prelude.Int.{ℤ}
use building_controls.Prelude.Text.{Text}
use building_controls.Prelude.Table.{exists}
use building_controls.Database.{ScheduleGroup, Role, admin, manager, tenant, Database, Day, Holiday}
use building_controls.Points.{setpoint_limits}
use building_controls.Store.Calendar
use building_controls.Store.Week
use building_controls.Store.Intent
use building_controls.Schedules.{Draft, validate_transitions, validation_error}
use building_controls.Zones
use building_controls.Zones.{Zones}
use building_controls.Auth.User.{User, at_least, rank}
use building_controls.Auth.Password.{Scrypt}
use building_controls.Api.Caller.{ok}
use building_controls.Api.Seeds.{
  us_federal_defaults, default_groups, GroupSpec, add_new, add_missing, add_new_groups,
  add_missing_groups,
}
use building_controls.Api.Requests.{
  Hub, created, done, Request, add_holiday, delete_holiday, seed_us_federal, seed_groups,
  set_setpoint_intent, set_device_zone, set_group_day, assign_group, set_override, clear_override,
  add_exception, delete_exception, create_user, set_password, set_zones, deactivate_user, role_of,
  parse_scope, parse_rule, in_bounds, Outcome, deny, status_of, stored, found_or_404, stored_or_500,
  move_cached, post_holiday, put_setpoint, put_device_zone, put_group_day, put_override,
  post_exception, on_device, groups_seeded, serve, handle,
}

-- The accounts, their grants, their sessions and their passkeys are the same.
pub record SameAccounts (db db' : Database) : Type 0 where
  pub accounts : db'.app_user ≡ db.app_user
  pub grants : db'.user_zone ≡ db.user_zone
  pub sessions : db'.session ≡ db.session
  pub passkeys : db'.webauthn_credential ≡ db.webauthn_credential

same_accounts : (db : Database) → SameAccounts db db
same_accounts db = record { accounts = refl; grants = refl; sessions = refl; passkeys = refl }

SameAccounts-trans : (a b c : Database) → SameAccounts a b → SameAccounts b c → SameAccounts a c
SameAccounts-trans a b c h k = record {
  accounts = k.accounts ∙ h.accounts;
  grants = k.grants ∙ h.grants;
  sessions = k.sessions ∙ h.sessions;
  passkeys = k.passkeys ∙ h.passkeys;
}

abbrev Keeps : Hub → Outcome → Type 0
Keeps hub o = SameAccounts hub.db o.1.db

delete_holiday-SameAccounts :
    (id : ℕ) (actor : String) (db : Database)
    → SameAccounts db (Calendar.delete_holiday id actor db).1
unfolding Calendar.delete_holiday
delete_holiday-SameAccounts id actor db = ground arith

found_or_404-Keeps :
    (r : Bool × Database) (hub : Hub) → SameAccounts hub.db r.1 → Keeps hub (found_or_404 r hub)
found_or_404-Keeps (true, db) hub h = h
found_or_404-Keeps (false, db) hub h = h

insert_days-SameAccounts :
    (id : ℕ) (week : Dict ℕ Day) (db : Database) → SameAccounts db (Week.insert_days id week db).1
unfolding Week.insert_days
insert_days-SameAccounts id [] db = same_accounts db
insert_days-SameAccounts id ((d, ts) ∷ week) db =
    elim (Bool-cases (Week.is_day d && not (exists (Week.group_day id d) db.schedule_group_day))) [
      | inr refused_row ↦ rw (refused_row, Week.insert_days) (same_accounts db)
      | inl fits ↦
          let next = record db {
            schedule_group_day =
                db.schedule_group_day
                ++ record { group_id = id; day_of_week = d; transitions = ts } ∷ [];
          } in
          rw (fits, Week.insert_days)
            (SameAccounts-trans db next (Week.insert_days id week next).1
              (record { accounts = refl; grants = refl; sessions = refl; passkeys = refl })
              (insert_days-SameAccounts id week next))
    ]

logged_group-SameAccounts :
    (name actor : String) (id : ℕ) (db : Database) (r : Bool × Database)
    → SameAccounts db r.1
    → SameAccounts db (Week.logged_group name actor id r).1
unfolding Week.logged_group
logged_group-SameAccounts name actor id db (true, db') h = record {
  accounts = h.accounts;
  grants = h.grants;
  sessions = h.sessions;
  passkeys = h.passkeys;
}
logged_group-SameAccounts name actor id db (false, db') h = h

add_group-SameAccounts :
    (name : String) (week : Dict ℕ Day) (description actor : String) (db : Database)
    → SameAccounts db (Week.add_group name week description actor db).1
unfolding Week.add_group
add_group-SameAccounts name week description actor db =
    elim (Bool-cases (exists (λ (g : ScheduleGroup). g.name == name) db.schedule_group)) [
      | inl taken ↦ rw taken (same_accounts db)
      | inr free ↦
          let next = record db {
            schedule_group =
                db.schedule_group
                ++ record { id = db.next_group; name = name; description = description } ∷ [];
            next_group = db.next_group + 1;
          } in
          rw free (
            logged_group-SameAccounts name actor db.next_group db
              (Week.insert_days db.next_group week next)
              (SameAccounts-trans db next (Week.insert_days db.next_group week next).1
                (record { accounts = refl; grants = refl; sessions = refl; passkeys = refl })
                (insert_days-SameAccounts db.next_group week next)))
    ]

add_new_groups-SameAccounts :
    (existing : List String) (specs : List GroupSpec) (db : Database)
    → SameAccounts db (add_new_groups existing specs db).1
unfolding add_new_groups
add_new_groups-SameAccounts existing [] db = same_accounts db
add_new_groups-SameAccounts existing (spec ∷ specs) db =
    elim (Bool-cases (contains existing spec.name)) [
      | inl old ↦ rw (old, add_new_groups) (add_new_groups-SameAccounts existing specs db)
      | inr fresh ↦
          let made = Week.add_group spec.name spec.week spec.description "api" db in
          let one = add_group-SameAccounts spec.name spec.week spec.description "api" db in
          rw (fresh, add_new_groups)
            (elim (Option-cases made.0) [
              | inl fails ↦ rw (fails, add_new_groups) one
              | inr (id, made_id) ↦
                  rw (made_id, add_new_groups)
                    (SameAccounts-trans db made.1 (add_new_groups existing specs made.1).1 one
                      (add_new_groups-SameAccounts existing specs made.1))
            ])
    ]

add_new-SameAccounts :
    (existing : List String) (specs : List Holiday) (db : Database)
    → SameAccounts db (add_new existing specs db).1
unfolding add_new Calendar.add_holiday
add_new-SameAccounts existing [] db = same_accounts db
add_new-SameAccounts existing (spec ∷ specs) db = elim (Bool-cases (contains existing spec.name)) [
  | inl old ↦ rw (old, add_new) (add_new-SameAccounts existing specs db)
  | inr fresh ↦
      let made = Calendar.add_holiday spec "api" db in
      rw (fresh, add_new)
        (SameAccounts-trans db made.1 (add_new existing specs made.1).1
          (record { accounts = refl; grants = refl; sessions = refl; passkeys = refl })
          (add_new-SameAccounts existing specs made.1))
]

stored_or_500-Keeps :
    (o : Option Database) (hub : Hub)
    → ((db : Database) → o ≡ some db → SameAccounts hub.db db)
    → Keeps hub (stored_or_500 o hub)
stored_or_500-Keeps none hub h = same_accounts hub.db
stored_or_500-Keeps (some db) hub h = h db refl

if-Keeps :
    (b : Bool) (hub : Hub) (o o' : Outcome)
    → Keeps hub o
    → Keeps hub o'
    → Keeps hub (if b then o else o')
if-Keeps true hub o o' q q' = q
if-Keeps false hub o o' q q' = q'

set_group_day-SameAccounts :
    (id d : ℕ) (day : Day) (actor : String) (db db' : Database)
    → Week.set_group_day id d day actor db ≡ some db'
    → SameAccounts db db'
unfolding Week.set_group_day
set_group_day-SameAccounts id d day actor db db' h = ground arith

assign_group-SameAccounts :
    (id group : ℕ) (actor : String) (db db' : Database)
    → Week.assign_group id group actor db ≡ some db'
    → SameAccounts db db'
unfolding Week.assign_group
assign_group-SameAccounts id group actor db db' h = ground arith

set_day_override-SameAccounts :
    (id d : ℕ) (day : Day) (actor : String) (db db' : Database)
    → Week.set_day_override id d day actor db ≡ some db'
    → SameAccounts db db'
unfolding Week.set_day_override
set_day_override-SameAccounts id d day actor db db' h = ground arith

clear_day_override-SameAccounts :
    (id d : ℕ) (actor : String) (db : Database)
    → SameAccounts db (Week.clear_day_override id d actor db).1
unfolding Week.clear_day_override
clear_day_override-SameAccounts id d actor db = ground arith

delete_exception-SameAccounts :
    (id : ℕ) (actor : String) (db : Database)
    → SameAccounts db (Calendar.delete_exception id actor db).1
unfolding Calendar.delete_exception
delete_exception-SameAccounts id actor db = ground arith

set-SameAccounts :
    (id : ℕ) (z actor : String) (db db' : Database)
    → Zones.set id z actor db ≡ some db'
    → SameAccounts db db'
unfolding Zones.set Intent.set_device_zone
set-SameAccounts id z actor db db' h = ground arith

post_holiday-Keeps :
    (rule : String) (fields : Holiday) (hub : Hub) → Keeps hub (post_holiday rule fields hub)
unfolding post_holiday Calendar.add_holiday
post_holiday-Keeps rule fields hub =
    if-Keeps (in_bounds fields) hub _ _ (ruled (parse_rule rule)) (same_accounts hub.db)
  where
    ruled :
        (o : Option _)
        → Keeps hub (elim o [
          | none ↦ deny 400 hub
          | some r ↦
              let made = Calendar.add_holiday (record fields { rule_type = r }) "api" hub.db in
              stored (created made.0) made.1 hub
        ])
    ruled none = same_accounts hub.db
    ruled (some r) = record { accounts = refl; grants = refl; sessions = refl; passkeys = refl }

put_setpoint-Keeps :
    (scope ref key : String) (value : ℤ) (hub : Hub)
    → Keeps hub (put_setpoint scope ref key value hub)
unfolding put_setpoint Intent.set_setpoint
put_setpoint-Keeps scope ref key value hub = elim (Option-cases (parse_scope scope)) [
  | inl bad ↦ rw (bad, put_setpoint) (same_accounts hub.db)
  | inr (s, known) ↦
      rw (known, put_setpoint)
        (if-Keeps (is_some (lookup key setpoint_limits)) hub _ _
          (record { accounts = refl; grants = refl; sessions = refl; passkeys = refl })
          (same_accounts hub.db))
]

put_device_zone-Keeps :
    (zs : Zones) (id : ℕ) (z actor : String) (hub : Hub)
    → Keeps hub (put_device_zone zs id z actor hub)
unfolding put_device_zone
put_device_zone-Keeps zs id z actor hub = if-Keeps (z == "") hub _ _ (same_accounts hub.db) (
    if-Keeps (is_some (lookup id zs.defaults)) hub _ _
      (set_to (Zones.set id z actor hub.db) (λ db. set-SameAccounts id z actor hub.db db))
      (same_accounts hub.db))
  where
    set_to :
        (o : Option Database)
        → ((db : Database) → o ≡ some db → SameAccounts hub.db db)
        → Keeps hub (elim o [
          | none ↦ deny 400 hub
          | some db ↦ (ok done, record hub { db = db; cache = move_cached id z hub.cache })
        ])
    set_to none h = same_accounts hub.db
    set_to (some db) h = h db refl

put_group_day-Keeps :
    (id d : ℕ) (ts : List Draft) (hub : Hub) → Keeps hub (put_group_day id d ts hub)
unfolding put_group_day
put_group_day-Keeps id d ts hub =
    if-Keeps (leb 1 d && leb d 7) hub _ _ (checked (validate_transitions ts)) (same_accounts hub.db)
  where
    checked :
        (o : Option _)
        → Keeps hub (elim o [
          | none ↦ deny (status_of (validation_error ts)) hub
          | some day ↦ stored_or_500 (Week.set_group_day id d day "api" hub.db) hub
        ])
    checked none = same_accounts hub.db
    checked (some day) =
        stored_or_500-Keeps (Week.set_group_day id d day "api" hub.db) hub
          (λ db. set_group_day-SameAccounts id d day "api" hub.db db)

put_override-Keeps : (id d : ℕ) (ts : List Draft) (hub : Hub) → Keeps hub (put_override id d ts hub)
unfolding put_override
put_override-Keeps id d ts hub =
    if-Keeps (leb 1 d && leb d 7) hub _ _ (checked (validate_transitions ts)) (same_accounts hub.db)
  where
    checked :
        (o : Option _)
        → Keeps hub (elim o [
          | none ↦ deny (status_of (validation_error ts)) hub
          | some day ↦ stored_or_500 (Week.set_day_override id d day "api" hub.db) hub
        ])
    checked none = same_accounts hub.db
    checked (some day) =
        stored_or_500-Keeps (Week.set_day_override id d day "api" hub.db) hub
          (λ db. set_day_override-SameAccounts id d day "api" hub.db db)

post_exception-Keeps :
    (name : String) (start : Text) (end : Option Text) (ts : List Draft) (scope ref : String)
    (hub : Hub)
    → Keeps hub (post_exception name start end ts scope ref hub)
unfolding post_exception Calendar.add_exception
post_exception-Keeps name start end ts scope ref hub =
    elim (Option-cases (validate_transitions ts)) [
      | inl bad ↦ rw (bad, post_exception) (same_accounts hub.db)
      | inr (day, good) ↦ elim (Option-cases (parse_scope scope)) [
        | inl bad ↦ rw (good, post_exception) (rw bad (same_accounts hub.db))
        | inr (s, known) ↦
            rw (good, post_exception)
              (rw known
                (record { accounts = refl; grants = refl; sessions = refl; passkeys = refl }))
      ]
    ]

on_device-Keeps :
    (zs : Zones) (id : ℕ) (hub : Hub) (o : Outcome)
    → Keeps hub o
    → Keeps hub (on_device zs id hub o)
on_device-Keeps zs id hub o q =
    if-Keeps (is_some (lookup id zs.defaults)) hub _ _ q (same_accounts hub.db)

groups_seeded-Keeps :
    (r : Option ℕ × Database) (hub : Hub)
    → SameAccounts hub.db r.1
    → Keeps hub (groups_seeded r hub)
groups_seeded-Keeps (none, db) hub h = h
groups_seeded-Keeps (some n, db) hub h = h

role_of-cases : (q : Request) → (role_of q ≡ manager) ⊎ (role_of q ≡ admin)
unfolding role_of
role_of-cases (create_user _ _ _ _ _ _) = inr refl
role_of-cases (set_password _ _ _) = inr refl
role_of-cases (set_zones _ _) = inr refl
role_of-cases (deactivate_user _) = inr refl
role_of-cases _ = inl refl

below_admin : (r : Role) → r ≢ admin → leb (rank admin) (rank r) ≡ false
below_admin admin h = absurd (h refl)
below_admin manager h = refl
below_admin tenant h = refl

module _ (scrypt : Scrypt) (lower : String → String) (zs : Zones) where
  serve-Keeps :
      (request : Request) (u : User) (hub : Hub)
      → role_of request ≡ manager
      → Keeps hub (serve scrypt lower zs request u hub)
  unfolding serve role_of add_missing add_missing_groups
  serve-Keeps (add_holiday rule fields) u hub r = post_holiday-Keeps rule fields hub
  serve-Keeps (delete_holiday id) u hub r =
      found_or_404-Keeps (Calendar.delete_holiday id "api" hub.db) hub
        (delete_holiday-SameAccounts id "api" hub.db)
  serve-Keeps seed_us_federal u hub r = add_new-SameAccounts _ us_federal_defaults hub.db
  serve-Keeps seed_groups u hub r =
      groups_seeded-Keeps (add_missing_groups default_groups hub.db) hub
        (add_new_groups-SameAccounts _ default_groups hub.db)
  serve-Keeps (set_setpoint_intent scope ref key value) u hub r =
      put_setpoint-Keeps scope ref key value hub
  serve-Keeps (set_device_zone id z) u hub r = put_device_zone-Keeps zs id z u.username hub
  serve-Keeps (set_group_day id d ts) u hub r = put_group_day-Keeps id d ts hub
  serve-Keeps (assign_group id group) u hub r = on_device-Keeps zs id hub _ (
      stored_or_500-Keeps (Week.assign_group id group "api" hub.db) hub
        (λ db. assign_group-SameAccounts id group "api" hub.db db))
  serve-Keeps (set_override id d ts) u hub r =
      on_device-Keeps zs id hub _ (put_override-Keeps id d ts hub)
  serve-Keeps (clear_override id d) u hub r = on_device-Keeps zs id hub _ (
      found_or_404-Keeps (Week.clear_day_override id d "api" hub.db) hub
        (clear_day_override-SameAccounts id d "api" hub.db))
  serve-Keeps (add_exception name start end ts scope ref) u hub r =
      post_exception-Keeps name start end ts scope ref hub
  serve-Keeps (delete_exception id) u hub r =
      found_or_404-Keeps (Calendar.delete_exception id "api" hub.db) hub
        (delete_exception-SameAccounts id "api" hub.db)
  serve-Keeps (create_user salt password username role display_name asked) u hub r = ground arith
  serve-Keeps (set_password salt password username) u hub r = ground arith
  serve-Keeps (set_zones username asked) u hub r = ground arith
  serve-Keeps (deactivate_user username) u hub r = ground arith

  -- Through the routes that change the holidays, the set-points kept, the zones of devices, the
  -- schedules, the dated exceptions and the accounts of others (those of `Request`, and no others), a
  -- tenant is refused with 403 and changes nothing, and a user below an administrator changes no
  -- account, no grant of a zone, no session and no passkey; where the route is one for administrators,
  -- nothing at all.
  pub handle-ranks :
      (request : Request) (u : User) (hub : Hub)
      → (u.role ≡ tenant → handle scrypt lower zs request u hub ≡ deny 403 hub)
        × (u.role ≢ admin → SameAccounts hub.db (handle scrypt lower zs request u hub).1.db)
        × (u.role ≢ admin
            → role_of request ≡ admin
            → handle scrypt lower zs request u hub ≡ deny 403 hub)
  unfolding handle at_least
  handle-ranks request u hub = (
    (λ t. elim (role_of-cases request) [ inl m ↦ rw (m, t) refl | inr a ↦ rw (a, t) refl ]),
    (λ below. elim (role_of-cases request) [
      | inl m ↦
          if-Keeps (at_least u (role_of request)) hub _ _ (serve-Keeps request u hub m)
            (same_accounts hub.db)
      | inr a ↦ rw (a, below_admin u.role below) (same_accounts hub.db)
    ]),
    (λ below a. rw (a, below_admin u.role below) refl),
  )
