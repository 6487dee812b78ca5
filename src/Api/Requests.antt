-- ===== src/Api/Requests.antt =====
-- The routes of managers and administrators that change what is stored (bms/api.py): holidays, set-points,
-- zones, schedules, exceptions and accounts. An `HTTPException` is its status, an exception that nothing
-- catches is 500. The numbers in a path are natural ones, and a scope of a holiday is one of the three.
pub mod Refusals
pub mod Ranks
use building_controls.Prelude.{
  ℕ, ◌-◌, min, ap, Bool, true, false, ◌&&◌, String, Option, none, some, List, [], leb,
  if◌then◌else◌, is_some, length, Eq, ◌==◌, nat_eq, string_eq, list_eq, option_eq, pair_eq,
}
use building_controls.Prelude.Dict.{Dict, lookup}
use building_controls.Prelude.Int.{ℤ}
use building_controls.Prelude.Text.{Text}
use building_controls.Database.{
  Role, admin, manager, Scope, global, zone, device, RuleType, fixed, range, floating, Holiday, Day,
  Database,
}
use building_controls.Points.{setpoint_limits}
use building_controls.Cache.{Cache, DeviceState, modify}
use building_controls.Store.Intent
use building_controls.Store.Calendar
use building_controls.Store.Week
use building_controls.Schedules.{Draft, validate_transitions, validation_error}
use building_controls.Zones
use building_controls.Zones.{Zones}
use building_controls.Auth.User.{User, at_least}
use building_controls.Auth.Password.{Error, value_error, type_error, other_error, Result, Scrypt}
use building_controls.Auth.Accounts
use building_controls.Api.Caller.{Reply, ok, refused}
use building_controls.Api.Seeds.{
  us_federal_defaults, default_groups, add_missing, add_missing_groups,
}

pub record Hub : Type 0 where
  pub db : Database
  pub cache : Cache

-- what a reply carries beyond an echo of the request
pub data Body : Type 0 where
  done : Body
  created : ℕ → Body
  seeded : (added skipped : ℕ) → Body
  granted : List String → Body
  one_time : Text → Body

-- A route with its path and body; `fields` of a holiday has no id yet. The password and the salt of an
-- account are the ones that the route draws.
pub data Request : Type 0 where
  add_holiday : (rule_type : String) (fields : Holiday) → Request
  delete_holiday : (holiday_id : ℕ) → Request
  seed_us_federal seed_groups : Request
  set_setpoint_intent : (scope scope_ref point_key : String) (value : ℤ) → Request
  set_device_zone : (device_id : ℕ) (zone : String) → Request
  set_group_day : (group_id day_of_week : ℕ) (transitions : List Draft) → Request
  assign_group : (device_id group_id : ℕ) → Request
  set_override : (device_id day_of_week : ℕ) (transitions : List Draft) → Request
  clear_override : (device_id day_of_week : ℕ) → Request
  add_exception :
      (name : String) (start_date : Text) (end_date : Option Text) (transitions : List Draft)
      (scope scope_ref : String)
      → Request
  delete_exception : (exception_id : ℕ) → Request
  create_user :
      (salt : List ℕ) (password : Text) (username role display_name : String) (zones : List String)
      → Request
  set_password : (salt : List ℕ) (password : Text) (username : String) → Request
  set_zones : (username : String) (zones : List String) → Request
  deactivate_user : (username : String) → Request

-- the argument of `require` in each route
unfoldable pub role_of : Request → Role
role_of (create_user _ _ _ _ _ _) = admin
role_of (set_password _ _ _) = admin
role_of (set_zones _ _) = admin
role_of (deactivate_user _) = admin
role_of _ = manager

abbrev pub parse_scope : String → Option Scope
parse_scope s =
    if s == "global"
    then some global
    else if s == "zone"
    then some zone
    else if s == "device"
    then some device
    else none

abbrev pub parse_rule : String → Option RuleType
parse_rule s =
    if s == "fixed"
    then some fixed
    else if s == "range"
    then some range
    else if s == "floating"
    then some floating
    else none

-- `Field(default=None, ge=lo, le=hi)`
abbrev pub between : ℕ → ℕ → Option ℕ → Bool
between lo hi none = true
between lo hi (some n) = leb lo n && leb n hi

-- the bounds of `HolidayRequest`
abbrev pub in_bounds : Holiday → Bool
in_bounds h =
    between 1 12 h.month
    && between 1 31 h.day
    && between 1 12 h.end_month
    && between 1 31 h.end_day
    && between 1 5 h.week_of_month
    && between 1 7 h.day_of_week

abbrev pub Outcome : Type 0
Outcome = Reply Body × Hub

abbrev pub deny : ℕ → Hub → Outcome
deny status hub = (refused status, hub)

abbrev pub stored : Body → Database → Hub → Outcome
stored body db hub = (ok body, record hub { db = db })

-- a method that answers whether it found what it was asked to change
abbrev pub found_or_404 : Bool × Database → Hub → Outcome
found_or_404 (true, db) hub = stored done db hub
found_or_404 (false, db) hub = (refused 404, record hub { db = db })

-- `except ValueError`
abbrev pub status_of : Error → ℕ
status_of value_error = 400
status_of type_error = 500
status_of other_error = 500

-- a statement that SQLite may refuse
abbrev pub stored_or_500 : Option Database → Hub → Outcome
stored_or_500 none hub = deny 500 hub
stored_or_500 (some db) hub = stored done db hub

unfoldable pub post_holiday : String → Holiday → Hub → Outcome
post_holiday rule_type fields hub =
    if in_bounds fields
    then elim (parse_rule rule_type) [
      | none ↦ deny 400 hub
      | some rule ↦
          let made = Calendar.add_holiday (record fields { rule_type = rule }) "api" hub.db in
          stored (created made.0) made.1 hub
    ]
    else deny 422 hub

unfoldable pub put_setpoint : String → String → String → ℤ → Hub → Outcome
put_setpoint scope ref key value hub = elim (parse_scope scope) [
  | none ↦ deny 400 hub
  | some s ↦
      if is_some (lookup key setpoint_limits)
      then stored done (Intent.set_setpoint s ref key value "api" hub.db) hub
      else deny 400 hub
]

-- `if state is not None: state.zone = body.zone`
abbrev pub move_cached : ℕ → String → Cache → Cache
move_cached device_id z c = elim (modify device_id (λ s. record s { zone = z }) c) [
  | none ↦ c
  | some c' ↦ c'
]

unfoldable pub put_device_zone : Zones → ℕ → String → String → Hub → Outcome
put_device_zone zs device_id z actor hub =
    if z == ""
    then deny 422 hub
    else if is_some (lookup device_id zs.defaults)
    then elim (Zones.set device_id z actor hub.db) [
      | none ↦ deny 400 hub
      | some db ↦ (ok done, record hub { db = db; cache = move_cached device_id z hub.cache })
    ]
    else deny 404 hub

unfoldable pub put_group_day : ℕ → ℕ → List Draft → Hub → Outcome
put_group_day group_id d transitions hub =
    if leb 1 d && leb d 7
    then elim (validate_transitions transitions) [
      | none ↦ deny (status_of (validation_error transitions)) hub
      | some day ↦ stored_or_500 (Week.set_group_day group_id d day "api" hub.db) hub
    ]
    else deny 400 hub

unfoldable pub put_override : ℕ → ℕ → List Draft → Hub → Outcome
put_override device_id d transitions hub =
    if leb 1 d && leb d 7
    then elim (validate_transitions transitions) [
      | none ↦ deny (status_of (validation_error transitions)) hub
      | some day ↦ stored_or_500 (Week.set_day_override device_id d day "api" hub.db) hub
    ]
    else deny 400 hub

unfoldable pub post_exception :
    String → Text → Option Text → List Draft → String → String → Hub → Outcome
post_exception name start_date end_date transitions scope ref hub =
    elim (validate_transitions transitions) [
      | none ↦ deny (status_of (validation_error transitions)) hub
      | some day ↦ elim (parse_scope scope) [
        | none ↦ deny 500 hub
        | some s ↦
            let made = Calendar.add_exception name start_date day end_date s ref "api" hub.db in
            stored (created made.0) made.1 hub
      ]
    ]

-- `_device(device_id)`
abbrev pub on_device : Zones → ℕ → Hub → Outcome → Outcome
on_device zs device_id hub rest =
    if is_some (lookup device_id zs.defaults) then rest else deny 404 hub

unfoldable pub put_zones : Zones → String → List String → String → Hub → Outcome
put_zones zs username requested actor hub = elim (Zones.validate_grant requested zs hub.db) [
  | none ↦ deny 400 hub
  | some cleaned ↦
      let set = Accounts.set_zones username cleaned actor hub.db in
      if set.0 then stored (granted cleaned) set.1 hub else (refused 404, record hub { db = set.1 })
]

unfoldable pub delete_user : String → User → Hub → Outcome
delete_user username user hub =
    if username == user.username
    then deny 400 hub
    else found_or_404 (Accounts.deactivate username user.username hub.db) hub

-- a `ValueError` is the client's fault, and any other exception of `create_user` a clash
abbrev pub user_made : Text → Result ℕ × Database → Hub → Outcome
user_made password (Result.ok id, db) hub = stored (one_time password) db hub
user_made password (Result.raise value_error, db) hub = (refused 400, record hub { db = db })
user_made password (Result.raise type_error, db) hub = (refused 409, record hub { db = db })
user_made password (Result.raise other_error, db) hub = (refused 409, record hub { db = db })

abbrev pub password_set : Text → Result Bool × Database → Hub → Outcome
password_set password (Result.ok true, db) hub = stored (one_time password) db hub
password_set password (Result.ok false, db) hub = (refused 404, record hub { db = db })
password_set password (Result.raise value_error, db) hub = (refused 400, record hub { db = db })
password_set password (Result.raise type_error, db) hub = (refused 500, record hub { db = db })
password_set password (Result.raise other_error, db) hub = (refused 500, record hub { db = db })

abbrev pub groups_seeded : Option ℕ × Database → Hub → Outcome
groups_seeded (none, db) hub = (refused 500, record hub { db = db })
groups_seeded (some added, db) hub = stored (seeded added (length default_groups - added)) db hub

-- the zones that a new account is granted: a tenant's are checked, and others get none
abbrev pub new_grant : Zones → String → List String → Database → Option (List String)
new_grant zs role requested db =
    if role == "tenant" then Zones.validate_grant requested zs db else some []

module _ (scrypt : Scrypt) (lower : String → String) (zs : Zones) where
  unfoldable pub post_user :
      List ℕ → Text → String → String → String → List String → String → Hub → Outcome
  post_user salt password username role display_name requested actor hub =
      elim (new_grant zs role requested hub.db) [
        | none ↦ deny 400 hub
        | some grant ↦
            user_made password
              (Accounts.create_user scrypt salt username password role display_name grant actor true
                hub.db)
              hub
      ]

  unfoldable pub put_password : List ℕ → Text → String → String → Hub → Outcome
  put_password salt password username actor hub =
      password_set password
        (Accounts.set_password scrypt lower salt username password actor none hub.db) hub

  unfoldable pub serve : Request → User → Hub → Outcome
  serve (add_holiday rule_type fields) user hub = post_holiday rule_type fields hub
  serve (delete_holiday holiday_id) user hub =
      found_or_404 (Calendar.delete_holiday holiday_id "api" hub.db) hub
  serve seed_us_federal user hub =
      let seeded_db = add_missing us_federal_defaults hub.db in
      stored (seeded seeded_db.0 (length us_federal_defaults - seeded_db.0)) seeded_db.1 hub
  serve seed_groups user hub = groups_seeded (add_missing_groups default_groups hub.db) hub
  serve (set_setpoint_intent scope ref key value) user hub = put_setpoint scope ref key value hub
  serve (set_device_zone device_id z) user hub = put_device_zone zs device_id z user.username hub
  serve (set_group_day group_id d transitions) user hub = put_group_day group_id d transitions hub
  serve (assign_group device_id group_id) user hub =
      on_device zs device_id hub
        (stored_or_500 (Week.assign_group device_id group_id "api" hub.db) hub)
  serve (set_override device_id d transitions) user hub =
      on_device zs device_id hub (put_override device_id d transitions hub)
  serve (clear_override device_id d) user hub =
      on_device zs device_id hub
        (found_or_404 (Week.clear_day_override device_id d "api" hub.db) hub)
  serve (add_exception name start_date end_date transitions scope ref) user hub =
      post_exception name start_date end_date transitions scope ref hub
  serve (delete_exception exception_id) user hub =
      found_or_404 (Calendar.delete_exception exception_id "api" hub.db) hub
  serve (create_user salt password username role display_name requested) user hub =
      post_user salt password username role display_name requested user.username hub
  serve (set_password salt password username) user hub =
      put_password salt password username user.username hub
  serve (set_zones username requested) user hub = put_zones zs username requested user.username hub
  serve (deactivate_user username) user hub = delete_user username user hub

  -- once `current_user` has admitted the caller
  unfoldable pub handle : Request → User → Hub → Outcome
  unfolding role_of serve
  handle request user hub =
      if at_least user (role_of request) then serve request user hub else deny 403 hub
