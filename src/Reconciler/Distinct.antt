-- ===== src/Reconciler/Distinct.antt =====
-- The intent for a device (bms/store.py `setpoints_for`) holds each point once.
use building_controls.Prelude.{
  ℕ, ◌≡◌, refl, inl, inr, String, none, List, [], ◌∷◌, arith, eq_iff, Bool-cases, ◌==◌, nat_eq,
  string_eq, list_eq, option_eq, pair_eq,
}
use building_controls.Prelude.Int.{ℤ}
use building_controls.Prelude.Dict.{Dict, lookup, insert, lookup-insert}
use building_controls.Prelude.Decimal.{str}
use building_controls.Prelude.Table.{select}
use building_controls.Database.{Database, SetpointIntent, global, zone, device}
use building_controls.Store.Intent.{setpoints_for, resolve_rows, scoped}

-- The dictionary holds a key once.
abbrev pub DistinctKeys : Dict String ℤ → Type 0
DistinctKeys [] = Unit
DistinctKeys ((k, v) ∷ d) = (lookup k d ≡ none) × DistinctKeys d

insert-DistinctKeys :
    (k : String) (v : ℤ) (d : Dict String ℤ) → DistinctKeys d → DistinctKeys (insert k v d)
insert-DistinctKeys k v [] h = (refl, tt)
insert-DistinctKeys k v ((j, w) ∷ d) (a, h) = elim (Bool-cases (j == k)) [
  | inl same ↦ rw (same, DistinctKeys) (a, h)
  | inr apart ↦
      rw (apart, DistinctKeys)
        (
          ground (arith, lookup-insert k j v d, eq_iff k j, eq_iff j k, a),
          insert-DistinctKeys k v d h,
        )
]

resolve_rows-DistinctKeys :
    (t : List SetpointIntent) (d : Dict String ℤ) → DistinctKeys d → DistinctKeys (resolve_rows t d)
resolve_rows-DistinctKeys [] d h = h
resolve_rows-DistinctKeys (r ∷ t) d h =
    resolve_rows-DistinctKeys t (insert r.point_key r.value d)
      (insert-DistinctKeys r.point_key r.value d h)

pub setpoints_for-DistinctKeys :
    (id : ℕ) (z : String) (db : Database) → DistinctKeys (setpoints_for id z db)
unfolding setpoints_for
setpoints_for-DistinctKeys id z db =
    let t = db.setpoint_intent in
    let bottom = resolve_rows (select (scoped global "*") t) [] in
    resolve_rows-DistinctKeys (select (scoped device (str id)) t)
      (resolve_rows (select (scoped zone z) t) bottom)
      (resolve_rows-DistinctKeys (select (scoped zone z) t) bottom
        (resolve_rows-DistinctKeys (select (scoped global "*") t) [] tt))
