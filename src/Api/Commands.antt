-- ===== src/Api/Commands.antt =====
-- Commands that take several writes (bms/api.py `override`, `bypass`, `settle_and_refresh`). The points
-- written are constants, all of them writable. What the device reads as afterwards, and the time, are
-- arguments, and `str.upper` is a parameter; a read that fails is `none`.
pub mod Order
use building_controls.Prelude.{
  ℕ, suc, ◌*◌, min, ap, Bool, true, false, String, Option, none, some, List, [], ◌∷◌, ◌++◌, ltb,
  leb, if◌then◌else◌, Eq, ◌==◌, nat_eq, string_eq, list_eq, option_eq, pair_eq,
}
use building_controls.Prelude.Int.{pos}
use building_controls.Prelude.Dict.{Dict}
use building_controls.Value.{Value, Values, number}
use building_controls.Database.{manager, Database}
use building_controls.Auth.User.{User}
use building_controls.Cache.{Cache, apply_local_write, record_success}
use building_controls.Api.Caller.{Reply, ok, refused, require, require_device}
use building_controls.Api.Writes.{Write, Plant}

abbrev pub Command : Type 0
Command = String × Value

abbrev pub write_to : ℕ → Command → Write
write_to device_id c = record { device_id = device_id; key = c.0; value = c.1 }

-- the whole number, in thousandths
abbrev pub whole : ℕ → Value
whole n = number (pos (n * 1000))

-- `OccupancyState[name]`
abbrev pub occupancy_state : String → Option ℕ
occupancy_state s =
    if s == "OCCUPIED"
    then some 1
    else if s == "UNOCCUPIED"
    then some 2
    else if s == "BYPASS"
    then some 3
    else if s == "STANDBY"
    then some 4
    else if s == "NO_OVERRIDE"
    then some 5
    else none

abbrev pub no_override : ℕ
no_override = 5

-- The gate is opened before the command, and closed after it when control is handed back.
abbrev pub override_commands : ℕ → List Command
override_commands state =
    if state == no_override
    then ("occupancy_override", whole state) ∷ ("network_override_enable", whole 0) ∷ []
    else ("network_override_enable", whole 1) ∷ ("occupancy_override", whole state) ∷ []

abbrev pub enabled : ℕ → ℕ
enabled minutes = if ltb 0 minutes then 1 else 0

-- The duration goes before the timer that it is for.
abbrev pub bypass_commands : ℕ → List Command
bypass_commands minutes =
    let rest =
      ("bypass_minutes", whole minutes) ∷ ("bypass_enable", whole (enabled minutes)) ∷ [] in
    if ltb 0 minutes then ("bypass_duration_cfg", whole minutes) ∷ rest else rest

-- what the cache is told when the writes are acknowledged
abbrev pub override_cached : ℕ → List Command
override_cached state =
    ("occupancy_override", whole state)
    ∷ ("network_override_enable", whole (if state == no_override then 0 else 1))
    ∷ []

abbrev pub bypass_cached : ℕ → List Command
bypass_cached minutes =
    ("bypass_minutes", whole minutes) ∷ ("bypass_enable", whole (enabled minutes)) ∷ []

unfoldable pub apply_commands : ℕ → List Command → Cache → Option Cache
apply_commands device_id [] c = some c
apply_commands device_id ((key, v) ∷ cs) c = elim (apply_local_write device_id key v c) [
  | none ↦ none
  | some c' ↦ apply_commands device_id cs c'
]

-- `settle_and_refresh`: a failed read leaves the cache to the next poll
unfoldable pub settle_and_refresh : ℕ → Option Values → ℕ → Cache → Option Cache
settle_and_refresh device_id none now c = some c
settle_and_refresh device_id (some values) now c = record_success device_id values none now c

module _ (acknowledges : Write → Bool) where
  -- the writes of the `try` block, up to the first that is not acknowledged
  unfoldable pub send_all : ℕ → List Command → Plant → Bool × Plant
  send_all device_id [] w = (true, w)
  send_all device_id (c ∷ cs) w =
      let sent = record w { writes = w.writes ++ write_to device_id c ∷ [] } in
      let rest = send_all device_id cs sent in
      if acknowledges (write_to device_id c) then rest else (false, sent)

  -- once the cache is brought up to date, or a device is missing from it
  abbrev pub answered : ℕ → Option Cache → Plant → Reply ℕ × Plant
  answered device_id none w = (refused 500, w)
  answered device_id (some c) w = (ok device_id, record w { cache = c })

  abbrev pub refreshed : ℕ → Option Values → ℕ → Option Cache → Option Cache
  refreshed device_id reading now none = none
  refreshed device_id reading now (some c) = settle_and_refresh device_id reading now c

  -- send, then record what was sent, then read back
  unfoldable pub perform :
      ℕ → List Command → List Command → Option Values → ℕ → Plant → Reply ℕ × Plant
  unfolding send_all apply_commands settle_and_refresh
  perform device_id commands cached reading now w =
      let sent = send_all device_id commands w in
      if sent.0
      then answered device_id
          (refreshed device_id reading now (apply_commands device_id cached sent.1.cache)) sent.1
      else (refused 503, sent.1)

  unfoldable pub override :
      (String → String)
      → Dict ℕ String
      → ℕ
      → String
      → User
      → Database
      → Option Values
      → ℕ
      → Plant
      → Reply ℕ × Plant
  unfolding perform
  override upper inventory device_id name u db reading now w = elim (require manager u) [
    | refused e ↦ (refused e, w)
    | ok _ ↦ elim (require_device inventory device_id u db) [
      | refused e ↦ (refused e, w)
      | ok _ ↦ elim (occupancy_state (upper name)) [
        | none ↦ (refused 400, w)
        | some state ↦
            perform device_id (override_commands state) (override_cached state) reading now w
      ]
    ]
  ]

  -- `BypassRequest` bounds the minutes
  unfoldable pub bypass :
      Dict ℕ String → ℕ → ℕ → User → Database → Option Values → ℕ → Plant → Reply ℕ × Plant
  unfolding perform
  bypass inventory device_id minutes u db reading now w =
      if leb minutes 1080
      then elim (require_device inventory device_id u db) [
        | refused e ↦ (refused e, w)
        | ok _ ↦ perform device_id (bypass_commands minutes) (bypass_cached minutes) reading now w
      ]
      else (refused 422, w)
