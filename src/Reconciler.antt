-- ===== src/Reconciler.antt =====
-- Pushing the intended set-points onto a device (bms/reconciler.py `_reconcile_setpoints`). The device
-- is a state that the BACnet client reads and writes. In a result a line is its key; the texts of the
-- messages are left out. `float` of a text is a parameter, and a call that raises is `none`.
mod Returns
pub mod Clock
pub mod Drift
pub mod Calendar
pub mod Outdoor
pub mod Distinct
pub mod InPlace
pub mod Convergence
pub mod Weekly
mod Tests
use building_controls.Prelude.{
  ℕ, min, max, ap, Bool, false, String, Option, none, some, List, [], ◌∷◌, ◌++◌, ltb, leb,
  if◌then◌else◌, is_nil, Eq, nat_eq, string_eq, list_eq, option_eq, pair_eq,
}
use building_controls.Prelude.Int.{ℤ, pos, abs, ◌-ℤ◌, leb_ℤ}
use building_controls.Prelude.Dict.{Dict, lookup}
use building_controls.Value.{Value, number, flag, text, null, Values}
use building_controls.Points.{points, setpoint_limits}
use building_controls.Database.{Database, log, log_as}
use building_controls.Store.Intent.{setpoints_for}

-- What the client offers for one device. A read is `none` where the device is unreachable, and a write
-- is acknowledged or not; the device after it comes back in both cases.
pub record Client (D : Type 0) : Type 0 where
  pub read_points : D → Option Values
  pub write_point : String → ℤ → D → Bool × D

-- `DeviceResult`, the lists of it
pub record DeviceResult : Type 0 where
  pub changed : List String
  pub already_correct : List String
  pub errors : List String

abbrev pub new_result : DeviceResult
new_result = record { changed = []; already_correct = []; errors = [] }

pub record Pass (D : Type 0) : Type 0 where
  pub result : DeviceResult
  pub thermostat : D
  pub db : Database

abbrev pub max_ℤ : ℤ → ℤ → ℤ
max_ℤ a b = if leb_ℤ a b then b else a

abbrev pub min_ℤ : ℤ → ℤ → ℤ
min_ℤ a b = if leb_ℤ a b then a else b

-- `min(hi, max(lo, want))`, under limits that are infinite for a key that has none
unfoldable pub clamped : String → ℤ → ℤ
clamped key want = elim (lookup key setpoint_limits) [
  | none ↦ want
  | some l ↦ min_ℤ l.1 (max_ℤ l.0 want)
]

abbrev pub within_tenth : ℤ → ℤ → Bool
within_tenth have want = ltb (abs (have -ℤ want)) 100

abbrev pub fails : {D : Type 0} → String → Pass D → Pass D
fails key p = record p { result = record p.result { errors = p.result.errors ++ key ∷ [] } }

abbrev pub correct : {D : Type 0} → String → Pass D → Pass D
correct key p = record p {
  result = record p.result { already_correct = p.result.already_correct ++ key ∷ [] };
}

-- the device and the database as a pass left them, and a new result
abbrev pub again : {D : Type 0} → Pass D → Pass D
again p = record p { result = new_result }

module _ (float : String → Option ℤ) where
  -- `have is not None and abs(float(have) - want) < 0.1`
  unfoldable pub near : Option Value → ℤ → Option Bool
  near none want = some false
  near (some null) want = some false
  near (some (number x)) want = some (within_tenth x want)
  near (some (flag b)) want = some (within_tenth (if b then pos 1000 else pos 0) want)
  near (some (text s)) want = elim (float s) [ none ↦ none | some x ↦ some (within_tenth x want) ]

  module _ {D : Type 0} (client : Client D) (actor name : String) where
    unfoldable pub push : String → ℤ → Pass D → Pass D
    push key want p =
        let written = client.write_point key want p.thermostat in
        if written.0
        then record {
          result = record p.result { changed = p.result.changed ++ key ∷ [] };
          thermostat = written.1;
          db = log actor "reconcile.setpoint" (some name) p.db;
        }
        else record {
          result = record p.result { errors = p.result.errors ++ key ∷ [] };
          thermostat = written.1;
          db = log_as "unknown" actor "reconcile.setpoint" (some name) p.db;
        }

    -- one turn of the loop; `actual` was read before it
    unfoldable pub apply : Values → String → ℤ → Pass D → Option (Pass D)
    unfolding push near
    apply actual key want p = elim (lookup key points) [
      | none ↦ some (fails key p)
      | some writable ↦
          if writable
          then elim (near (lookup key actual) (clamped key want)) [
            | none ↦ none
            | some same ↦ some (if same then correct key p else push key (clamped key want) p)
          ]
          else some (fails key p)
    ]

    unfoldable pub apply_all : Values → Dict String ℤ → Pass D → Option (Pass D)
    unfolding apply
    apply_all actual [] p = some p
    apply_all actual ((key, want) ∷ intended) p = elim (apply actual key want p) [
      | none ↦ none
      | some p' ↦ apply_all actual intended p'
    ]

    -- the zone is what `Zones.of` answers for the device
    unfoldable pub reconcile_setpoints : ℕ → String → Pass D → Option (Pass D)
    unfolding apply_all
    reconcile_setpoints device_id zone p =
        let intended = setpoints_for device_id zone p.db in
        if is_nil intended then some p else elim (client.read_points p.thermostat) [
          | none ↦ some (fails "read points" p)
          | some actual ↦ apply_all actual intended p
        ]
