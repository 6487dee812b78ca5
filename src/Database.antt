-- ===== src/Database.antt =====
-- The SQLite schema (bms/store.py `SCHEMA`) as one record of tables. Times are milliseconds. A row's
-- `updated_at`, `updated_by`, `created_at` and `created_by` are left out where no code reads them, and
-- so are the JSON detail of an audit row and the old `zone` column of a holiday. The table `reading` is
-- not in the record: Store/Readings models it as a list of its own.
use building_controls.Prelude.{
  ℕ, ◌+◌, Bool, true, false, ◌&&◌, String, Option, List, [], ◌∷◌, ◌++◌, leb, if◌then◌else◌, ◌==◌,
  nat_eq, string_eq, list_eq, option_eq, pair_eq,
}
use building_controls.Prelude.Int.{ℤ}
use building_controls.Prelude.Text.{Text, codes}

pub data Role : Type 0 where
  admin manager tenant : Role

pub data Scope : Type 0 where
  global zone device : Scope

pub data Purpose : Type 0 where
  registering authenticating : Purpose

pub data RuleType : Type 0 where
  fixed range floating : RuleType

pub record AppUser : Type 0 where
  pub id : ℕ
  pub username : String
  pub display_name : String
  pub password_hash : Text
  pub role : Role
  pub active : Bool
  pub last_login : Option ℕ
  pub must_change_password : Bool

pub record UserZone : Type 0 where
  pub user_id : ℕ
  pub zone : String

pub record Session : Type 0 where
  pub token_hash : String
  pub user_id : ℕ
  pub expires_at : ℕ
  pub user_agent : Option String

pub record WebauthnCredential : Type 0 where
  pub credential_id : String
  pub user_id : ℕ
  pub public_key : String
  pub sign_count : ℕ
  pub label : String
  pub created_at : ℕ
  pub last_used_at : Option ℕ

pub record WebauthnChallenge : Type 0 where
  pub challenge : String
  pub user_id : ℕ
  pub purpose : Purpose
  pub expires_at : ℕ

-- one entry of a day: the time as "HH:MM", and 0 Occupied, 1 Unoccupied or 3 Standby
pub record Transition : Type 0 where
  pub time : Text
  pub state : ℤ

abbrev pub Day : Type 0
Day = List Transition

pub record Holiday : Type 0 where
  pub id : ℕ
  pub name : String
  pub rule_type : RuleType
  pub state : ℕ
  pub enabled : Bool
  pub year : Option ℕ
  pub month : Option ℕ
  pub day : Option ℕ
  pub end_month : Option ℕ
  pub end_day : Option ℕ
  pub week_of_month : Option ℕ
  pub day_of_week : Option ℕ
  pub scope : Scope
  pub scope_ref : String

pub record SetpointIntent : Type 0 where
  pub scope : Scope
  pub scope_ref : String
  pub point_key : String
  pub value : ℤ

pub record ScheduleGroup : Type 0 where
  pub id : ℕ
  pub name : String
  pub description : String

pub record ScheduleGroupDay : Type 0 where
  pub group_id : ℕ
  pub day_of_week : ℕ
  pub transitions : Day

pub record DeviceSchedule : Type 0 where
  pub device_id : ℕ
  pub group_id : ℕ

pub record DeviceDayOverride : Type 0 where
  pub device_id : ℕ
  pub day_of_week : ℕ
  pub transitions : Day

pub record OccupancyException : Type 0 where
  pub id : ℕ
  pub name : String
  pub scope : Scope
  pub scope_ref : String
  pub start_date : Text
  pub end_date : Option Text
  pub transitions : Day
  pub enabled : Bool

pub record DeviceZone : Type 0 where
  pub device_id : ℕ
  pub zone : String

pub record Audit : Type 0 where
  pub actor : String
  pub action : String
  pub target : Option String
  pub outcome : String

-- The tables, and the next value of each `AUTOINCREMENT` key.
pub record Database : Type 0 where
  pub app_user : List AppUser
  pub next_user : ℕ
  pub user_zone : List UserZone
  pub session : List Session
  pub webauthn_credential : List WebauthnCredential
  pub webauthn_challenge : List WebauthnChallenge
  pub holiday : List Holiday
  pub next_holiday : ℕ
  pub setpoint_intent : List SetpointIntent
  pub schedule_group : List ScheduleGroup
  pub next_group : ℕ
  pub schedule_group_day : List ScheduleGroupDay
  pub device_schedule : List DeviceSchedule
  pub device_day_override : List DeviceDayOverride
  pub occupancy_exception : List OccupancyException
  pub next_exception : ℕ
  pub device_zone : List DeviceZone
  pub audit : List Audit

abbrev pub new_database : Database
new_database = record {
  app_user = [];
  next_user = 1;
  user_zone = [];
  session = [];
  webauthn_credential = [];
  webauthn_challenge = [];
  holiday = [];
  next_holiday = 1;
  setpoint_intent = [];
  schedule_group = [];
  next_group = 1;
  schedule_group_day = [];
  device_schedule = [];
  device_day_override = [];
  occupancy_exception = [];
  next_exception = 1;
  device_zone = [];
  audit = [];
}

-- `Store.log`
abbrev pub log_as : String → String → String → Option String → Database → Database
log_as outcome actor action target db = record db {
  audit =
      db.audit
      ++ record { actor = actor; action = action; target = target; outcome = outcome } ∷ [];
}

abbrev pub log : String → String → Option String → Database → Database
log = log_as "ok"

-- The ASCII fold of SQLite's NOCASE collation.
abbrev pub fold_case : Text → Text
fold_case [] = []
fold_case (c ∷ s) = (if leb b'A' c && leb c b'Z' then c + 32 else c) ∷ fold_case s

-- `username = ?` on the column that is declared `COLLATE NOCASE`
abbrev pub same_name : String → String → Bool
same_name a b = fold_case (codes a) == fold_case (codes b)

abbrev pub role_eq : Role → Role → Bool
role_eq admin admin = true
role_eq manager manager = true
role_eq tenant tenant = true
role_eq _ _ = false

abbrev pub scope_eq : Scope → Scope → Bool
scope_eq global global = true
scope_eq zone zone = true
scope_eq device device = true
scope_eq _ _ = false

abbrev pub purpose_eq : Purpose → Purpose → Bool
purpose_eq registering registering = true
purpose_eq authenticating authenticating = true
purpose_eq _ _ = false
