-- ===== src/Bacnet/Client.antt =====
-- What the client makes of the answers of a device (bms/bacnet.py). An answer of the protocol is given:
-- a fault of a request is `none`, and a value is the plain one that `_unwrap` leaves.
pub mod Points
pub mod Time
mod Tests
use building_controls.Prelude.{
  ℕ, suc, ◌+◌, ◌/◌, min, Bool, ◌&&◌, not, String, Option, none, some, List, [], ◌∷◌, leb,
  if◌then◌else◌, Eq, nat_eq, string_eq, contains, list_eq, option_eq, pair_eq,
}
use building_controls.Prelude.Int.{ℤ, pos, negsuc, sub_ℕ}
use building_controls.Prelude.Dict.{Dict, lookup, insert}
use building_controls.Prelude.Dates.{Date, date}
use building_controls.Prelude.Text.{codes}
use building_controls.Auth.Password.Hex.{parse_int}
use building_controls.Value.{Value, Values, number, flag, text, null}

-- `BY_OBJID`, by the key of the point
unfoldable pub by_objid : Dict String String
by_objid =
    ("analog-output,18", "space_temp")
    ∷ ("analog-output,19", "space_humidity")
    ∷ ("analog-output,5", "effective_sp")
    ∷ ("analog-output,3", "effective_heat_sp")
    ∷ ("analog-output,4", "effective_cool_sp")
    ∷ ("multi-state-output,7", "setpoint_status")
    ∷ ("multi-state-output,20", "effective_occupancy")
    ∷ ("multi-state-output,6", "temp_mode")
    ∷ ("analog-output,7", "active_heat_stages")
    ∷ ("analog-output,11", "active_cool_stages")
    ∷ ("analog-output,8", "active_aux_heat_stages")
    ∷ ("binary-output,19", "fan_running")
    ∷ ("binary-output,22", "economizer_enabled")
    ∷ ("analog-value,4", "occ_cool_sp")
    ∷ ("analog-value,7", "occ_heat_sp")
    ∷ ("analog-value,5", "standby_cool_sp")
    ∷ ("analog-value,8", "standby_heat_sp")
    ∷ ("analog-value,6", "unocc_cool_sp")
    ∷ ("analog-value,9", "unocc_heat_sp")
    ∷ ("multi-state-value,4", "occupancy_override")
    ∷ ("binary-value,1", "bypass_enable")
    ∷ ("analog-value,2", "bypass_minutes")
    ∷ ("analog-value,10", "bypass_duration_cfg")
    ∷ ("binary-value,135", "network_override_enable")
    ∷ ("analog-value,257", "heat_adjust")
    ∷ ("analog-value,256", "cool_adjust")
    ∷ ("analog-value,3", "adjust")
    ∷ ("analog-value,102", "occupant_adjust_limit")
    ∷ ("binary-output,1", "bypass_active")
    ∷ ("analog-output,65", "bypass_remaining_minutes")
    ∷ ("analog-output,16", "oa_temp")
    ∷ ("analog-output,17", "oa_humidity")
    ∷ ("analog-value,89", "oa_temp_in")
    ∷ ("analog-value,194", "oa_humidity_in")
    ∷ ("schedule,2", "schedule_state")
    ∷ []

-- the answer for one object of a multiple read
pub data Answer : Type 0 where
  error : Answer
  value : Value → Answer

-- the loop of `read_points_timed` over the answers, with the table of points
unfoldable pub gather : Dict String String → Values → List (String × Answer) → Values
gather table values [] = values
gather table values ((objid, answer) ∷ rest) = elim (lookup objid table) [
  | none ↦ gather table values rest
  | some key ↦ elim answer [
    | error ↦ gather table values rest
    | value v ↦ gather table (insert key v values) rest
  ]
]

-- `read_points`; none for `DeviceUnreachable`
unfoldable pub read_points : Option (List (String × Answer)) → Option Values
unfolding gather
read_points none = none
read_points (some result) = some (gather by_objid [] result)

-- `_write` of a point: the guard, and the acknowledgement
pub data Written : Type 0 where
  read_only unreachable acknowledged : Written

-- `write_point`, with the requests that went out
unfoldable pub write_point :
    String × Bool → Value → (String → Value → Bool) → Written × List (String × Value)
write_point (objid, writable) v answers =
    if not writable
    then (read_only, [])
    else (if answers objid v then acknowledged else unreachable, (objid, v) ∷ [])

-- the date and the time of a device, as their four fields
pub record DeviceDate : Type 0 where
  pub year : ℕ
  pub month : ℕ
  pub day : ℕ

pub record DeviceTime : Type 0 where
  pub hour : ℕ
  pub minute : ℕ
  pub second : ℕ

pub record Moment : Type 0 where
  pub day : Date
  pub time : DeviceTime

-- `dt.datetime(...)`, none for a `ValueError`
abbrev pub datetime : ℕ → ℕ → ℕ → DeviceTime → Option Moment
datetime year month day t = elim (date year month day) [
  | none ↦ none
  | some d ↦
      if (leb t.hour 23 && leb t.minute 59) && leb t.second 59
      then some (record { day = d; time = t })
      else none
]

-- `255 in (...)`
abbrev pub unspecified : DeviceDate → DeviceTime → Bool
unspecified d t = contains (d.year ∷ d.month ∷ d.day ∷ t.hour ∷ t.minute ∷ []) 255

unfoldable pub read_device_time : Option DeviceDate → Option DeviceTime → Option Moment
read_device_time none clock = none
read_device_time (some d) none = none
read_device_time (some d) (some t) =
    if unspecified d t
    then none
    else datetime (d.year + 1900) d.month d.day (record t { second = min t.second 59 })

-- `read_device_id`: the objects asked for, and the first id that comes back
abbrev pub read_device_id : (ℕ → Option ℕ) → ℕ → Option ℕ × List ℕ
read_device_id answers configured = elim (answers configured) [
  | some id ↦ (some id, configured ∷ [])
  | none ↦ (answers 4194303, configured ∷ 4194303 ∷ [])
]

-- `int` of a number, which cuts off its thousandths
abbrev whole : ℤ → ℤ
whole (pos n) = pos (n / 1000)
whole (negsuc n) = sub_ℕ 0 (suc n / 1000)

-- `read_schedule_default`
abbrev pub read_schedule_default : Option Value → Option ℤ
read_schedule_default none = none
read_schedule_default (some (number x)) = some (whole x)
read_schedule_default (some (flag b)) = some (if b then pos 1 else pos 0)
read_schedule_default (some (text s)) = parse_int (codes s)
read_schedule_default (some null) = none
