-- ===== src/Config.antt =====
-- Reading the configuration (bms/config.py): the fields that have a bound, and the validators. The file
-- is given as `yaml` reads it, a field that is not in it as `none`; a `ValidationError` is `none`. Times
-- are milliseconds.
pub mod Accepted
mod Tests
use building_controls.Prelude.{
  ℕ, suc, ◌+◌, ◌*◌, ◌%◌, max, ap, ◌&&◌, not, String, Option, none, some, List, [], ◌∷◌, ltb, leb,
  if◌then◌else◌, Eq, nat_eq, string_eq, list_eq, option_eq, pair_eq,
}
use building_controls.Prelude.Int.{ℤ, pos, negsuc}
use building_controls.Prelude.Dict.{Dict, lookup, insert}

infixl 5 ◌>>=◌
abbrev pub ◌>>=◌ {ℓ κ} : {A : Type ℓ} {B : Type κ} → Option A → (A → Option B) → Option B
none >>= f = none
some a >>= f = f a

-- a device as it stands in the file, and once it is read
pub record RawDevice : Type 0 where
  pub device_id : ℤ
  pub address : String
  pub name : String
  pub zone : Option String
  pub mac : Option String

pub record DeviceConfig : Type 0 where
  pub device_id : ℕ
  pub address : String
  pub name : String
  pub zone : String
  pub mac : Option String

-- `_sane_device_id`
unfoldable pub sane_device_id : ℤ → Option ℕ
sane_device_id (negsuc n) = none
sane_device_id (pos v) =
    if not (leb v 4194303) then none else if leb 4194302 v then none else some v

abbrev pub or_default : String → Option String → String
or_default d none = d
or_default d (some s) = s

abbrev pub read_device : RawDevice → Option DeviceConfig
read_device r = sane_device_id r.device_id >>= λ id. some (record {
  device_id = id;
  address = r.address;
  name = r.name;
  zone = or_default "default" r.zone;
  mac = r.mac;
})

unfoldable pub read_devices : List RawDevice → Option (List DeviceConfig)
read_devices [] = some []
read_devices (r ∷ rs) = do d ← read_device r; ds ← read_devices rs; some (d ∷ ds)

-- The loop of `_unique` over one field, with the devices seen so far: the names of the first two that
-- share a value of it.
unfoldable pub duplicate {ℓ} :
    {A : Type ℓ} ⦃e : Eq A⦄
    → (DeviceConfig → A)
    → Dict A String
    → List DeviceConfig
    → Option (String × String)
duplicate field seen [] = none
duplicate field seen (d ∷ ds) = elim (lookup (field d) seen) [
  | some other ↦ some (other, d.name)
  | none ↦ duplicate field (insert (field d) d.name seen) ds
]

-- `_unique`
unfoldable pub unique : List DeviceConfig → Option (List DeviceConfig)
unfolding duplicate
unique devices = elim (duplicate (λ d. d.device_id) [] devices) [
  | some names ↦ none
  | none ↦ elim (duplicate (λ d. d.address) [] devices) [ some names ↦ none | none ↦ some devices ]
]

-- a number with its default and its bounds
abbrev pub number : ℕ → ℕ → Option ℕ → Option ℤ → Option ℕ
number default low high none = some default
number default low high (some (negsuc n)) = none
number default low none (some (pos n)) = if leb low n then some n else none
number default low (some high) (some (pos n)) = if leb low n && leb n high then some n else none

pub record RawConfig : Type 0 where
  pub apdu_timeout_ms : Option ℤ
  pub apdu_retries : Option ℤ
  pub devices : List RawDevice
  pub poll_interval : Option ℤ
  pub offline_after_failures : Option ℤ
  pub poll_concurrency : Option ℤ
  pub history_interval : Option ℤ
  pub history_retention : Option ℤ
  pub max_clock_drift : Option ℤ
  pub reconcile_interval : Option ℤ

pub record Config : Type 0 where
  pub apdu_timeout_ms : ℕ
  pub apdu_retries : ℕ
  pub devices : List DeviceConfig
  pub poll_interval : ℕ
  pub offline_after_failures : ℕ
  pub poll_concurrency : ℕ
  pub history_interval : ℕ
  pub history_retention : ℕ
  pub max_clock_drift : ℕ
  pub reconcile_interval : ℕ

-- the fields of the datalink, and the devices
unfoldable pub load : RawConfig → Option Config
unfolding read_devices unique
load raw = do
  timeout ← number 1500 250 none raw.apdu_timeout_ms
  retries ← number 3 0 none raw.apdu_retries
  read ← read_devices raw.devices
  devices ← unique read
  poll_interval ← number 10000 1000 none raw.poll_interval
  offline_after ← number 3 1 none raw.offline_after_failures
  concurrency ← number 1 1 (some 32) raw.poll_concurrency
  history ← number 300000 0 none raw.history_interval
  retention ← number 7776000000 0 none raw.history_retention
  drift ← number 30000 1000 none raw.max_clock_drift
  reconcile ← number 300000 10000 none raw.reconcile_interval
  some (record {
    apdu_timeout_ms = timeout;
    apdu_retries = retries;
    devices = devices;
    poll_interval = poll_interval;
    offline_after_failures = offline_after;
    poll_concurrency = concurrency;
    history_interval = history;
    history_retention = retention;
    max_clock_drift = drift;
    reconcile_interval = reconcile;
  })

-- `retry_budget_seconds`, in milliseconds
abbrev pub retry_budget : Config → ℕ
retry_budget c = c.apdu_timeout_ms * (c.apdu_retries + 1)

-- `check_permissions`: the mode that the message names, from what `stat` gives
abbrev pub check_permissions : Option ℕ → Option ℕ
check_permissions none = none
check_permissions (some st_mode) =
    let mode = st_mode % 512 in if ltb 0 (mode % 64) then some mode else none
