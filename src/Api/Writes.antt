-- ===== src/Api/Writes.antt =====
-- Writing a point of a device (bms/api.py `write_point`). The writes sent to devices are kept, those that
-- were not acknowledged too; whether one is acknowledged is a parameter.
use building_controls.Prelude.{
  ℕ, Bool, String, Option, none, some, List, [], ◌∷◌, ◌++◌, if◌then◌else◌, is_some, nat_eq,
  string_eq, list_eq, option_eq, pair_eq,
}
use building_controls.Prelude.Int.{ℤ, pos}
use building_controls.Prelude.Dict.{Dict, lookup}
use building_controls.Value.{Value, number, flag, text, null}
use building_controls.Points.{points, setpoint_limits}
use building_controls.Database.{manager, Database}
use building_controls.Auth.User.{User}
use building_controls.Cache.{Cache, apply_local_write}
use building_controls.Reconciler.{clamped}
use building_controls.Api.Caller.{Reply, ok, refused, require, require_device}

pub record Write : Type 0 where
  pub device_id : ℕ
  pub key : String
  pub value : Value

pub record Plant : Type 0 where
  pub cache : Cache
  pub writes : List Write

-- `float(value)` of a number or a Boolean, the only types that the request admits
abbrev pub as_float : Value → Option ℤ
as_float (number x) = some x
as_float (flag b) = some (if b then pos 1000 else pos 0)
as_float (text s) = none
as_float null = none

-- the value that is written: clamped where the key has limits, and else as it came
unfoldable pub written_value : String → Value → Option Value
written_value key value = elim (as_float value) [
  | none ↦ none
  | some x ↦ some (if is_some (lookup key setpoint_limits) then number (clamped key x) else value)
]

module _ (acknowledges : Write → Bool) where
  abbrev pub reflect : Option Cache → Plant → Reply Value → Reply Value × Plant
  reflect none w reply = (refused 500, w)
  reflect (some c) w reply = (reply, record w { cache = c })

  unfoldable pub send : ℕ → String → Value → Plant → Reply Value × Plant
  send device_id key v w =
      let write : Write = record { device_id = device_id; key = key; value = v } in
      let sent = record w { writes = w.writes ++ write ∷ [] } in
      if acknowledges write
      then reflect (apply_local_write device_id key v w.cache) sent (ok v)
      else (refused 503, sent)

  -- once the caller and the device are settled
  unfoldable pub write_known : ℕ → String → Value → Plant → Reply Value × Plant
  unfolding written_value send
  write_known device_id key value w = elim (lookup key points) [
    | none ↦ (refused 404, w)
    | some writable ↦
        if writable
        then elim (written_value key value) [
          | none ↦ (refused 422, w)
          | some v ↦ send device_id key v w
        ]
        else (refused 400, w)
  ]

  unfoldable pub write_point :
      Dict ℕ String → ℕ → String → Value → User → Database → Plant → Reply Value × Plant
  unfolding write_known
  write_point inventory device_id key value u db w = elim (require manager u) [
    | refused e ↦ (refused e, w)
    | ok _ ↦ elim (require_device inventory device_id u db) [
      | refused e ↦ (refused e, w)
      | ok _ ↦ write_known device_id key value w
    ]
  ]
