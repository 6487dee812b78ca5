-- ===== src/Poller.antt =====
-- The poll loop (bms/poller.py): what one poll of a device does to the cache and to the audit log, and
-- the sampled history. What the device answers is an argument. Python's `float` of a text is a
-- parameter; a call that raises is `none`.
pub mod Notes
pub mod Occupants
mod Tests
use building_controls.Prelude.{
  ℕ, suc, ◌+◌, ◌/◌, ap, Bool, true, false, ◌&&◌, ◌||◌, not, String, Option, none, some, List, [],
  ◌∷◌, ltb, leb, if◌then◌else◌, is_nil, Eq, ◌==◌, nat_eq, string_eq, list_eq, option_eq, pair_eq,
}
use building_controls.Prelude.Int.{ℤ, pos, abs, ◌-ℤ◌}
use building_controls.Prelude.Dict.{Dict, lookup}
use building_controls.Prelude.Text.{codes}
use building_controls.Auth.Password.Hex.{parse_int}
use building_controls.Value.{Value, number, flag, text, null, Values}
use building_controls.Cache.{DeviceState, Cache, get, all, online, record_success, record_failure}
use building_controls.Database.{Database, log}
use building_controls.Store.Readings.{Reading, record_readings, prune_readings}

-- `SetpointStatus`
pub data SetpointStatus : Type 0 where
  occupied unoccupied temporary standby : SetpointStatus

-- `SetpointStatus(n)`, where anything else is a `ValueError`
abbrev pub status_of : ℕ → Option SetpointStatus
status_of n =
    if n == 1
    then some occupied
    else if n == 2
    then some unoccupied
    else if n == 3
    then some temporary
    else if n == 4
    then some standby
    else none

-- `int(x)` of a number of thousandths drops the fraction, towards zero
abbrev pub status_of_int : Option ℤ → Option SetpointStatus
status_of_int none = none
status_of_int (some (pos n)) = status_of n
status_of_int (some _) = none

abbrev pub status_of_value : Option Value → Option SetpointStatus
status_of_value (some (number (pos n))) = status_of (n / 1000)
status_of_value (some (number _)) = none
status_of_value (some (flag true)) = status_of 1
status_of_value (some (flag false)) = none
status_of_value (some (text s)) = status_of_int (parse_int (codes s))
status_of_value (some null) = none
status_of_value none = none

unfoldable pub status : Values → Option SetpointStatus
status points = status_of_value (lookup "setpoint_status" points)

abbrev pub status_beq : SetpointStatus → SetpointStatus → Bool
status_beq occupied occupied = true
status_beq unoccupied unoccupied = true
status_beq temporary temporary = true
status_beq standby standby = true
status_beq _ _ = false

-- what `read_points_timed` comes back with: values and a time, `DeviceUnreachable`, or another fault
pub data Answer : Type 0 where
  answered : Values → ℕ → Answer
  unreachable : String → Answer
  fault : Answer

abbrev pub points_of : Option DeviceState → Values
points_of none = []
points_of (some s) = s.points

abbrev pub offset_keys : List String
offset_keys = "heat_adjust" ∷ "cool_adjust" ∷ "adjust" ∷ []

-- The action that is logged, if one is: the last part of `_note_setpoint_change`, for a status that
-- was read now.
abbrev pub action : Bool → Option SetpointStatus → SetpointStatus → Bool → Option String
action first was now m =
    if first
    then (if status_beq now temporary then some "setpoint.temporary.observed" else none)
    else elim was [
      | none ↦ none
      | some w ↦
          if status_beq w now
          then (if m && status_beq now temporary then some "setpoint.temporary.changed" else none)
          else some
              (if status_beq now temporary then "setpoint.temporary" else "setpoint.scheduled")
    ]

module _ (float : String → Option ℤ) where
  -- `float(values.get(k) or 0.0)`
  abbrev pub offset : Option Value → Option ℤ
  offset none = some (pos 0)
  offset (some (number x)) = some x
  offset (some (flag true)) = some (pos 1000)
  offset (some (flag false)) = some (pos 0)
  offset (some (text s)) = if s == "" then some (pos 0) else float s
  offset (some null) = some (pos 0)

  abbrev pub apart : Option ℤ → Option ℤ → Option Bool
  apart none y = none
  apart (some x) none = none
  apart (some x) (some y) = some (ltb 50 (abs (x -ℤ y)))

  -- the `any(...)`, which stops at the first offset that moved
  unfoldable pub moved : List String → Values → Values → Option Bool
  moved [] previous current = some false
  moved (k ∷ ks) previous current =
      elim (apart (offset (lookup k current)) (offset (lookup k previous))) [
        | none ↦ none
        | some b ↦ elim b [ true ↦ some true | false ↦ moved ks previous current ]
      ]

  unfoldable pub note_setpoint_change : Values → Values → Option (Option String)
  unfolding moved
  note_setpoint_change previous current = elim (status current) [
    | none ↦ some none
    | some now ↦ elim (moved offset_keys previous current) [
      | none ↦ none
      | some m ↦ some (action (is_nil previous) (status previous) now m)
    ]
  ]

  -- what happens once the success is in the cache
  pub noted : ℕ → String → ℕ → Option (Option String) → Cache → Database → Option (Cache × Database)
  noted device_id name now none c db = elim (record_failure device_id "internal error" now c) [
    | none ↦ none
    | some c' ↦ some (c', db)
  ]
  noted device_id name now (some none) c db = some (c, db)
  noted device_id name now (some (some a)) c db = some (c, log "occupant" a (some name) db)

  -- `_poll_device`. A device that is not registered makes both the call and its handler raise.
  unfoldable pub poll_device :
      ℕ → String → ℕ → Answer → Cache → Database → Option (Cache × Database)
  unfolding noted
  poll_device device_id name now (answered points elapsed) c db =
      elim (record_success device_id points (some elapsed) now c) [
        | none ↦ none
        | some c' ↦
            noted device_id name now (note_setpoint_change (points_of (get device_id c)) points) c'
              db
      ]
  poll_device device_id name now (unreachable err) c db =
      elim (record_failure device_id err now c) [ none ↦ none | some c' ↦ some (c', db) ]
  poll_device device_id name now fault c db =
      elim (record_failure device_id "internal error" now c) [
        | none ↦ none
        | some c' ↦ some (c', db)
      ]

-- The times that `_record_history` keeps; `interval` and `retention` are the configuration's, 0 for a
-- value that is not positive.
pub record History : Type 0 where
  pub interval : ℕ
  pub retention : ℕ
  pub last_sample : ℕ
  pub last_prune : ℕ
  pub readings : List Reading

abbrev pub sampled : List DeviceState → List (ℕ × Values)
sampled [] = []
sampled (s ∷ t) =
    if online s && not (is_nil s.points) then (s.device_id, s.points) ∷ sampled t else sampled t

-- one day, in milliseconds
abbrev pub day : ℕ
day = 86400000

pub pruned : ℕ → History → History
pruned now h =
    if leb (h.last_prune + day) now
    then record h { last_prune = now; readings = (prune_readings h.retention now h.readings).1 }
    else h

-- `_record_history`, where the database does not fail
unfoldable pub record_history : ℕ → Cache → History → History
unfolding pruned
record_history now c h =
    if leb h.interval 0 || ltb now (h.last_sample + h.interval)
    then h
    else pruned now (record h {
      last_sample = now;
      readings = (record_readings now (sampled (all c)) h.readings).1;
    })
