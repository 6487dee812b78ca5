-- ===== src/Store/Intent.antt =====
-- The zones of devices and the intended set-points (bms/store.py).
use building_controls.Prelude.{
  ℕ, Bool, ◌&&◌, String, Option, none, some, List, [], ◌∷◌, ◌==◌, nat_eq, string_eq, list_eq,
  option_eq, pair_eq,
}
use building_controls.Prelude.Int.{ℤ}
use building_controls.Prelude.Dict.{Dict, insert}
use building_controls.Prelude.Decimal.{str}
use building_controls.Prelude.Table.{select, fetch_one, upsert}
use building_controls.Database.{
  Scope, global, zone, device, scope_eq, DeviceZone, SetpointIntent, Database, log,
}
use Prim.Native.String.{◌++◌ as concat}

unfoldable pub device_zone : ℕ → Database → Option String
device_zone device_id db = elim (fetch_one (λ r. r.device_id == device_id) db.device_zone) [
  | none ↦ none
  | some r ↦ some r.zone
]

unfoldable pub device_zones : Database → Dict ℕ String
device_zones db = to_dict db.device_zone
  where
    to_dict : List DeviceZone → Dict ℕ String
    to_dict [] = []
    to_dict (r ∷ t) = (r.device_id, r.zone) ∷ to_dict t

unfoldable pub set_device_zone : ℕ → String → String → Database → Database
set_device_zone device_id z actor db =
    log actor "device.set_zone" (some (str device_id)) (record db {
      device_zone =
          upsert (λ r. r.device_id == device_id) (λ r. record r { zone = z })
            (record { device_id = device_id; zone = z }) db.device_zone;
    })

abbrev pub scope_name : Scope → String
scope_name global = "global"
scope_name zone = "zone"
scope_name device = "device"

abbrev pub scoped : Scope → String → SetpointIntent → Bool
scoped scope ref r = scope_eq r.scope scope && r.scope_ref == ref

-- the conflict of `UNIQUE (scope, scope_ref, point_key)`
abbrev pub intends : Scope → String → String → SetpointIntent → Bool
intends scope ref key r = scoped scope ref r && r.point_key == key

unfoldable pub set_setpoint : Scope → String → String → ℤ → String → Database → Database
set_setpoint scope ref key value actor db =
    log actor "setpoint.set" (some (concat (scope_name scope) (concat ":" ref))) (record db {
      setpoint_intent =
          upsert (intends scope ref key) (λ r. record r { value = value })
            (record { scope = scope; scope_ref = ref; point_key = key; value = value })
            db.setpoint_intent;
    })

-- the inner loop of `setpoints_for`
abbrev pub resolve_rows : List SetpointIntent → Dict String ℤ → Dict String ℤ
resolve_rows [] resolved = resolved
resolve_rows (r ∷ t) resolved = resolve_rows t (insert r.point_key r.value resolved)

unfoldable pub setpoints_for : ℕ → String → Database → Dict String ℤ
setpoints_for device_id z db =
    let t = db.setpoint_intent in
    resolve_rows (select (scoped device (str device_id)) t)
      (resolve_rows (select (scoped zone z) t) (resolve_rows (select (scoped global "*") t) []))
