-- ===== src/Reconciler/Returns.antt =====
-- When a pass over the set-points returns: `float` is what can raise in it, on a reading that is a text.
use building_controls.Prelude.{
  ℕ, ◌≡◌, refl, ◌≢◌, inl, inr, true, false, String, Option, none, some, [], ◌∷◌, if◌then◌else◌,
  Bool-cases, Option-cases, is_nil, nat_eq, string_eq, list_eq, option_eq, pair_eq,
}
use building_controls.Prelude.Int.{ℤ}
use building_controls.Prelude.Dict.{Dict, lookup}
use building_controls.Value.{Values}
use building_controls.Points.{points}
use building_controls.Store.Intent.{setpoints_for}
use building_controls.Reconciler.{
  Client, Pass, clamped, near, correct, push, fails, apply, apply_all, reconcile_setpoints,
}

module _ (float : String → Option ℤ) where
  -- Every reading is one that the loop can compare with a number.
  abbrev pub IsComparable : Values → Type 0
  IsComparable v = (key : String) (want : ℤ) → near float (lookup key v) want ≢ none

  module _ {D : Type 0} (client : Client D) (actor name : String) where
    apply-returns :
        (actual : Values) (key : String) (want : ℤ) (p : Pass D)
        → IsComparable actual
        → (p' : Pass D) × (apply float client actor name actual key want p ≡ some p')
    unfolding apply
    apply-returns actual key want p c = elim (Option-cases (lookup key points)) [
      | inl unknown ↦ rw (unknown, apply) (fails key p, refl)
      | inr (false, fixed) ↦ rw (fixed, apply) (fails key p, refl)
      | inr (true, writable) ↦
          elim (Option-cases (near float (lookup key actual) (clamped key want))) [
            | inl raises ↦ elim (c key (clamped key want) raises) [ ]
            | inr (same, compared) ↦
                rw (writable, apply)
                  (rw compared (
                    if same
                        then correct key p
                        else push float client actor name key (clamped key want) p,
                    refl,
                  ))
          ]
    ]

    apply_all-returns :
        (actual : Values) (intended : Dict String ℤ) (p : Pass D)
        → IsComparable actual
        → (p' : Pass D) × (apply_all float client actor name actual intended p ≡ some p')
    unfolding apply_all
    apply_all-returns actual [] p c = (p, refl)
    apply_all-returns actual ((key, want) ∷ rest) p c =
        let (p1, turned) = apply-returns actual key want p c in
        let (p', done) = apply_all-returns actual rest p1 c in (p', rw (turned, apply_all) done)

    pub reconcile_setpoints-returns :
        (id : ℕ) (z : String) (p : Pass D)
        → ((v : Values) → client.read_points p.thermostat ≡ some v → IsComparable v)
        → (p' : Pass D) × (reconcile_setpoints float client actor name id z p ≡ some p')
    unfolding reconcile_setpoints
    reconcile_setpoints-returns id z p c = elim (Bool-cases (is_nil (setpoints_for id z p.db))) [
      | inl empty ↦ rw (empty, reconcile_setpoints) (p, refl)
      | inr some_intent ↦ elim (Option-cases (client.read_points p.thermostat)) [
        | inl unreachable ↦
            rw (some_intent, reconcile_setpoints)
              (rw (unreachable, reconcile_setpoints) (fails "read points" p, refl))
        | inr (v, reading) ↦
            rw (some_intent, reconcile_setpoints)
              (rw (reading, reconcile_setpoints)
                (apply_all-returns v (setpoints_for id z p.db) p (c v reading)))
      ]
    ]
