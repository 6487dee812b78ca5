-- ===== src/Cache.antt =====
-- The in-memory state cache (bms/cache.py). Times are milliseconds, and a moving average is rounded
-- down to the unit of its samples. `KeyError` on a device that is not registered is `none`.
pub mod Online
pub mod Records
mod Tests
use building_controls.Prelude.{
  ℕ, suc, ◌+◌, ◌*◌, ◌/◌, ap, Bool, true, ◌&&◌, String, Option, none, some, List, [], ltb,
  if◌then◌else◌, is_some, Eq, nat_eq, string_eq, list_eq, option_eq, pair_eq,
}
use building_controls.Prelude.Dict.{Dict, lookup, insert, values}
use building_controls.Value.{Value, Values}

pub record DeviceState : Type 0 where
  pub device_id : ℕ
  pub name : String
  pub zone : String
  pub address : String
  pub points : Values
  pub last_success : Option ℕ
  pub last_attempt : Option ℕ
  pub last_error : Option String
  pub consecutive_failures : ℕ
  pub last_poll_ms : Option ℕ
  pub avg_poll_ms : Option ℕ
  pub total_failures : ℕ
  pub total_polls : ℕ
  pub offline_after : ℕ

unfoldable pub online : DeviceState → Bool
online s = ltb s.consecutive_failures s.offline_after && is_some s.last_success

unfoldable pub unstable : DeviceState → Bool
unstable s = ltb 0 s.consecutive_failures && ltb s.consecutive_failures s.offline_after

-- failures and attempts, whose quotient is the rate
unfoldable pub failure_rate : DeviceState → Option (ℕ × ℕ)
failure_rate s =
    let attempts = s.total_polls + s.total_failures in
    if ltb 0 attempts then some (s.total_failures, attempts) else none

-- the entry "stale" of `to_dict`: `age is None or age > stale_after`, the age being
-- `now - last_success`
unfoldable pub stale : ℕ → ℕ → DeviceState → Bool
stale stale_after now s = elim s.last_success [ none ↦ true | some at ↦ ltb (at + stale_after) now ]

pub record Cache : Type 0 where
  pub devices : Dict ℕ DeviceState
  pub stale_after : ℕ
  pub offline_after : ℕ

abbrev pub empty : ℕ → ℕ → Cache
empty stale_after offline_after = record {
  devices = [];
  stale_after = stale_after;
  offline_after = offline_after;
}

abbrev pub fresh : ℕ → String → String → String → ℕ → DeviceState
fresh device_id name zone address offline_after = record {
  device_id = device_id;
  name = name;
  zone = zone;
  address = address;
  points = [];
  last_success = none;
  last_attempt = none;
  last_error = none;
  consecutive_failures = 0;
  last_poll_ms = none;
  avg_poll_ms = none;
  total_failures = 0;
  total_polls = 0;
  offline_after = offline_after;
}

unfoldable pub register : ℕ → String → String → String → Cache → Cache
register device_id name zone address c = record c {
  devices = insert device_id (fresh device_id name zone address c.offline_after) c.devices;
}

-- the weights 0.8 and 0.2 of `_EMA_ALPHA`
unfoldable pub smooth : Option ℕ → ℕ → ℕ
smooth none elapsed = elapsed
smooth (some avg) elapsed = (avg * 4 + elapsed) / 5

abbrev timed : Option ℕ → DeviceState → DeviceState
timed none s = s
timed (some elapsed) s = record s {
  last_poll_ms = some elapsed;
  avg_poll_ms = some (smooth s.avg_poll_ms elapsed);
}

-- what `record_success` does to the state that it looks up
unfoldable pub succeeded : Values → Option ℕ → ℕ → DeviceState → DeviceState
unfolding smooth
succeeded points elapsed now s = timed elapsed (record s {
  points = points;
  last_success = some now;
  last_attempt = some now;
  last_error = none;
  consecutive_failures = 0;
  total_polls = s.total_polls + 1;
})

-- what `record_failure` does to it
unfoldable pub failed : String → ℕ → DeviceState → DeviceState
failed error now s = record s {
  last_attempt = some now;
  last_error = some error;
  consecutive_failures = s.consecutive_failures + 1;
  total_failures = s.total_failures + 1;
}

-- `self._devices[device_id]`, mutated in place
unfoldable pub modify : ℕ → (DeviceState → DeviceState) → Cache → Option Cache
modify device_id f c = elim (lookup device_id c.devices) [
  | none ↦ none
  | some s ↦ some (record c { devices = insert device_id (f s) c.devices })
]

unfoldable pub record_success : ℕ → Values → Option ℕ → ℕ → Cache → Option Cache
record_success device_id points elapsed now = modify device_id (succeeded points elapsed now)

unfoldable pub record_failure : ℕ → String → ℕ → Cache → Option Cache
record_failure device_id error now = modify device_id (failed error now)

abbrev wrote : String → Value → DeviceState → DeviceState
wrote key value s = record s { points = insert key value s.points }

unfoldable pub apply_local_write : ℕ → String → Value → Cache → Option Cache
apply_local_write device_id key value = modify device_id (wrote key value)

abbrev pub get : ℕ → Cache → Option DeviceState
get device_id c = lookup device_id c.devices

abbrev pub all : Cache → List DeviceState
all c = values c.devices
