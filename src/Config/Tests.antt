-- ===== src/Config/Tests.antt =====
-- A building of two units: an instance of the theorem, and tests.
use building_controls.Prelude.{
  ◌≡◌, refl, String, none, some, List, [], ◌∷◌, nat_eq, string_eq, list_eq, option_eq, pair_eq,
}
use building_controls.Prelude.Int.{ℤ, pos}
use building_controls.Config.{
  RawDevice, RawConfig, Config, sane_device_id, read_devices, duplicate, unique, load, retry_budget,
  check_permissions,
}
use building_controls.Config.Accepted.{IsValid, load-IsValid}

abbrev unit : ℤ → String → RawDevice
unit id address = record {
  device_id = id;
  address = address;
  name = address;
  zone = none;
  mac = none;
}

abbrev raw : List RawDevice → RawConfig
raw devices = record {
  apdu_timeout_ms = none;
  apdu_retries = none;
  devices = devices;
  poll_interval = some (pos 30000);
  offline_after_failures = none;
  poll_concurrency = some (pos 4);
  history_interval = none;
  history_retention = none;
  max_clock_drift = none;
  reconcile_interval = none;
}

abbrev two_units : List RawDevice
two_units = unit (pos 301) "192.168.1.101" ∷ unit (pos 302) "192.168.1.102" ∷ []

same_address_refused :
    load (raw (unit (pos 301) "192.168.1.101" ∷ unit (pos 302) "192.168.1.101" ∷ [])) ≡ none
unfolding load read_devices sane_device_id unique duplicate
same_address_refused = refl

abbrev accepted : Config
accepted = record {
  apdu_timeout_ms = 1500;
  apdu_retries = 3;
  devices =
      record {
        device_id = 301;
        address = "192.168.1.101";
        name = "192.168.1.101";
        zone = "default";
        mac = none;
      }
      ∷ record {
        device_id = 302;
        address = "192.168.1.102";
        name = "192.168.1.102";
        zone = "default";
        mac = none;
      }
      ∷ [];
  poll_interval = 30000;
  offline_after_failures = 3;
  poll_concurrency = 4;
  history_interval = 300000;
  history_retention = 7776000000;
  max_clock_drift = 30000;
  reconcile_interval = 300000;
}

-- Four attempts of a second and a half are within the seven seconds that a request may take.
default_budget : retry_budget accepted ≡ 6000
default_budget = refl

-- 0644 is said to be too open, 0600 is not.
open_modes : (check_permissions (some 33188) ≡ some 420) × (check_permissions (some 33152) ≡ none)
open_modes = (refl, refl)

load-IsValid_example : IsValid (raw two_units) accepted
unfolding load read_devices sane_device_id unique duplicate
load-IsValid_example = load-IsValid (raw two_units) accepted refl
