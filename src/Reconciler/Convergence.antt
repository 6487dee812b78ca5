-- ===== src/Reconciler/Convergence.antt =====
-- A pass over the set-points leaves nothing for the next one to do.
use building_controls.Prelude.{
  ℕ, ◌≡◌, refl, sym, ap, ◌∙◌, inl, inr, true, false, String, Option, none, some, List, [], ◌∷◌,
  ◌++◌, map, arith, if◌then◌else◌, Bool-cases, Option-cases, All, ◌==◌, nat_eq, string_eq, beq_refl,
  eq_of_beq, list_eq, option_eq, pair_eq,
}
use building_controls.Prelude.Int.{ℤ, pos, negsuc}
use building_controls.Prelude.Dict.{Dict, lookup, insert, lookup-insert, lookup-insert_self}
use building_controls.Value.{number, Values}
use building_controls.Points.{points}
use building_controls.Database.{Database}
use building_controls.Store.Intent.{setpoints_for}
use building_controls.Reconciler.Distinct.{DistinctKeys, setpoints_for-DistinctKeys}
use building_controls.Reconciler.InPlace.{IsInPlace, All-IsInPlace}
use building_controls.Reconciler.{
  again, Client, new_result, Pass, clamped, within_tenth, near, correct, push, apply, apply_all,
  reconcile_setpoints,
}
use building_controls.Reconciler.Returns.{IsComparable, reconcile_setpoints-returns}

within_self : (x : ℤ) → within_tenth x x ≡ true
within_self (pos n) = ground arith
within_self (negsuc n) = ground arith

-- Every write is acknowledged and read back, and nothing but its point changes.
pub record IsFaithful {D : Type 0} (client : Client D) : Type 0 where
  pub reads : (d : D) → (v : Values) × (client.read_points d ≡ some v)
  pub acknowledges : (key : String) (x : ℤ) (d : D) → (client.write_point key x d).0 ≡ true
  pub lands :
      (key : String) (x : ℤ) (d : D) (v : Values)
      → client.read_points d ≡ some v
      → client.read_points (client.write_point key x d).1 ≡ some (insert key (number x) v)

abbrev pub AllWritable : Dict String ℤ → Type 0
AllWritable intended = All (λ e. lookup e.0 points ≡ some true) intended

module _ (float : String → Option ℤ) {D : Type 0} (client : Client D) (actor name : String) where
  abbrev Settled : Values → Dict String ℤ → Type 0
  Settled v intended = All (λ e. near float (lookup e.0 v) (clamped e.0 e.1) ≡ some true) intended

  -- what one turn leaves: the point is settled, and every other point is as it was
  abbrev Turned : String → ℤ → Values → Pass D → Type 0
  Turned key want v p1 =
      (v1 : Values) × (client.read_points p1.thermostat ≡ some v1)
      × (near float (lookup key v1) (clamped key want) ≡ some true)
      × ((k : String) → (key == k) ≡ false → lookup k v1 ≡ lookup k v)

  apply-Turned :
      (faithful : IsFaithful client) (actual : Values) (key : String) (want : ℤ) (p p1 : Pass D)
      (v : Values)
      → lookup key points ≡ some true
      → client.read_points p.thermostat ≡ some v
      → lookup key v ≡ lookup key actual
      → apply float client actor name actual key want p ≡ some p1
      → Turned key want v p1 × (p1.db.setpoint_intent ≡ p.db.setpoint_intent)
  unfolding apply push
  apply-Turned faithful actual key want p p1 v writable reading same done =
      let g = rw (writable, apply) at done in
      elim (Option-cases (near float (lookup key actual) (clamped key want))) [
        | inl raises ↦ let g' = rw raises at g in ground arith
        | inr (true, settled) ↦
            let g' = rw settled at g in
            let e : correct key p ≡ p1 = ground arith in
            rw (sym e) (
              (v, reading, ap (λ o. near float o (clamped key want)) same ∙ settled, (λ k h. refl)),
              refl,
            )
        | inr (false, differs) ↦
            let g' = rw differs at g in
            let cl = clamped key want in
            let e : push float client actor name key cl p ≡ p1 = ground arith in
            let now = insert key (number cl) v in
            let back : near float (lookup key now) cl ≡ some true =
              ap (λ o. near float o cl) (lookup-insert_self key (number cl) v)
              ∙ ap some (within_self cl) in
            let others : (k : String) → (key == k) ≡ false → lookup k now ≡ lookup k v = λ k h.
              lookup-insert key k (number cl) v
              ∙ ap (λ b. if b then some (number cl) else lookup k v) h in
            rw (sym e) (
              rw (faithful.acknowledges key cl p.thermostat, push)
                ((now, faithful.lands key cl p.thermostat v reading, back, others), refl))
      ]

  fresh_apart :
      (key k : String) (want : ℤ) (d : Dict String ℤ)
      → lookup key d ≡ none
      → lookup k d ≡ some want
      → (key == k) ≡ false
  fresh_apart key k want d a b = elim (Bool-cases (key == k)) [
    | inr apart ↦ apart
    | inl same ↦ let e = eq_of_beq key k same in ground (arith, e, a, b)
  ]

  -- the keys of `intended` read in `v` as they read in `actual`
  Unread : Values → Values → Dict String ℤ → Type 0
  Unread v actual intended =
      (k : String) (want : ℤ) → lookup k intended ≡ some want → lookup k v ≡ lookup k actual

  apply_all-settles :
      (faithful : IsFaithful client) (actual : Values) (intended : Dict String ℤ) (p p' : Pass D)
      (v : Values)
      → AllWritable intended
      → DistinctKeys intended
      → client.read_points p.thermostat ≡ some v
      → Unread v actual intended
      → apply_all float client actor name actual intended p ≡ some p'
      → ((v' : Values) × (client.read_points p'.thermostat ≡ some v')
          × Settled v' intended
          × ((k : String) → lookup k intended ≡ none → lookup k v' ≡ lookup k v))
        × (p'.db.setpoint_intent ≡ p.db.setpoint_intent)
  unfolding apply_all Unread
  apply_all-settles faithful actual [] p p' v w d reading u done =
      let e : p ≡ p' = ground arith in rw (sym e) ((v, reading, tt, (λ k h. refl)), refl)
  apply_all-settles faithful actual ((key, want) ∷ rest) p p' v (w, ws) (d, ds) reading u done =
      elim (Option-cases (apply float client actor name actual key want p)) [
        | inl raises ↦ let g = rw (raises, apply_all) at done in ground arith
        | inr (p1, turned) ↦
            let g = rw (turned, apply_all) at done in
            let here : lookup key v ≡ lookup key actual = u key want (rw (beq_refl key) refl) in
            let ((v1, reading1, settled, others), same_db) =
              apply-Turned faithful actual key want p p1 v w reading here turned in
            let u1 : Unread v1 actual rest = λ k x h.
              let apart = fresh_apart key k x rest d h in others k apart ∙ u k x (rw apart h) in
            let ((v', reading', all, kept), same_db') =
              apply_all-settles faithful actual rest p1 p' v1 ws ds reading1 u1 g in
            (
              (
                v',
                reading',
                (ap (λ o. near float o (clamped key want)) (kept key d) ∙ settled, all),
                λ k h. elim (Bool-cases (key == k)) [
                  | inl hit ↦ let h' = rw hit at h in ground arith
                  | inr apart ↦ kept k (rw apart at h) ∙ others k apart
                ],
              ),
              same_db' ∙ same_db,
            )
      ]

  -- a pass in which every point is in place
  settled_pass : List String → Pass D → Pass D
  settled_pass keys p = record p {
    result = record p.result { already_correct = p.result.already_correct ++ keys };
  }

  settled_pass-nil : (p : Pass D) → settled_pass [] p ≡ p
  unfolding settled_pass
  settled_pass-nil p =
      ap (λ l. record p { result = record p.result { already_correct = l } })
        (append_nil p.result.already_correct)
    where
      append_nil : (l : List String) → l ++ [] ≡ l
      append_nil [] = refl
      append_nil (x ∷ l) = ap (λ t. x ∷ t) (append_nil l)

  settled_pass-cons :
      (key : String) (keys : List String) (p : Pass D)
      → settled_pass keys (correct key p) ≡ settled_pass (key ∷ keys) p
  unfolding settled_pass
  settled_pass-cons key keys p =
      ap (λ l. record p { result = record p.result { already_correct = l } })
        (append_assoc p.result.already_correct)
    where
      append_assoc : (l : List String) → (l ++ key ∷ []) ++ keys ≡ l ++ key ∷ keys
      append_assoc [] = refl
      append_assoc (x ∷ l) = ap (λ t. x ∷ t) (append_assoc l)

  apply_all-Settled :
      (actual : Values) (intended : Dict String ℤ) (p : Pass D)
      → AllWritable intended
      → Settled actual intended
      → apply_all float client actor name actual intended p
        ≡ some (settled_pass (map (λ e. e.0) intended) p)
  unfolding apply_all apply
  apply_all-Settled actual [] p w s = ap some (sym (settled_pass-nil p))
  apply_all-Settled actual ((key, want) ∷ rest) p (w, ws) (s, ss) =
      rw (w, apply_all)
        (rw (s, apply_all)
          (apply_all-Settled actual rest (correct key p) ws ss
            ∙ ap some (settled_pass-cons key (map (λ e. e.0) rest) p)))

  setpoints_for-same :
      (id : ℕ) (z : String) (db db' : Database)
      → db'.setpoint_intent ≡ db.setpoint_intent
      → setpoints_for id z db' ≡ setpoints_for id z db
  unfolding setpoints_for
  setpoints_for-same id z db db' e = rw e refl

  first_pass :
      (faithful : IsFaithful client) (id : ℕ) (z : String) (p p' : Pass D)
      (intended : Dict String ℤ)
      → setpoints_for id z p.db ≡ intended
      → AllWritable intended
      → DistinctKeys intended
      → reconcile_setpoints float client actor name id z p ≡ some p'
      → (v' : Values) × (client.read_points p'.thermostat ≡ some v')
        × Settled v' intended
        × (p'.db.setpoint_intent ≡ p.db.setpoint_intent)
  unfolding reconcile_setpoints Unread
  first_pass faithful id z p p' [] e w d done =
      let g = rw (e, reconcile_setpoints) at done in
      let same : p ≡ p' = ground arith in
      let (v, reading) = faithful.reads p'.thermostat in
      (v, reading, tt, ap (λ (q : Pass D). q.db.setpoint_intent) (sym same))
  first_pass faithful id z p p' (i ∷ rest) e w d done =
      let (actual, reading) = faithful.reads p.thermostat in
      let g = rw (e, reconcile_setpoints) at done in
      let g' = rw (reading, reconcile_setpoints) at g in
      let ((v', reading', settled, _), same) =
        apply_all-settles faithful actual (i ∷ rest) p p' actual w d reading (λ k want h. refl)
          (rw e at g') in
      (v', reading', settled, same)

  second_pass :
      (id : ℕ) (z : String) (p : Pass D) (intended : Dict String ℤ) (v : Values)
      → setpoints_for id z p.db ≡ intended
      → client.read_points p.thermostat ≡ some v
      → AllWritable intended
      → Settled v intended
      → reconcile_setpoints float client actor name id z (again p)
        ≡ some
            (record p { result = record new_result { already_correct = map (λ e. e.0) intended } })
  unfolding reconcile_setpoints settled_pass
  second_pass id z p [] v e reading w s = rw (e, reconcile_setpoints) refl
  second_pass id z p (i ∷ rest) v e reading w s =
      rw (e, reconcile_setpoints)
        (rw (reading, reconcile_setpoints) (rw e (apply_all-Settled v (i ∷ rest) (again p) w s)))

  -- Where the device applies and reports what is written and keeps its other readings, every intended
  -- point is writable, and what
  -- the device reads as at first can be compared with a number, a pass over the set-points returns.
  -- After it every intended point reads, within the tolerance, as a value within the limits of the point,
  -- and as the intended one where that is within them. The next pass has nothing to do: it finds every
  -- intended point in place, within the tolerance and after clamping, and neither writes nor fails.
  pub reconcile_setpoints-converges :
      (faithful : IsFaithful client) (id : ℕ) (z : String) (p : Pass D)
      → AllWritable (setpoints_for id z p.db)
      → ((v : Values) → client.read_points p.thermostat ≡ some v → IsComparable float v)
      → (p' : Pass D) × (reconcile_setpoints float client actor name id z p ≡ some p')
        × ((v' : Values) × (client.read_points p'.thermostat ≡ some v')
            × All (λ e. IsInPlace float v' e.0 e.1) (setpoints_for id z p.db))
        × (reconcile_setpoints float client actor name id z (again p')
            ≡ some (record p' {
              result = record new_result {
                already_correct = map (λ e. e.0) (setpoints_for id z p.db);
              };
            }))
  reconcile_setpoints-converges faithful id z p w c =
      let intended = setpoints_for id z p.db in
      let (p', done) = reconcile_setpoints-returns float client actor name id z p c in
      let (v', reading', settled, same) =
        first_pass faithful id z p p' intended refl w (setpoints_for-DistinctKeys id z p.db) done in
      let still = setpoints_for-same id z p.db p'.db same in
      (
        p',
        done,
        (v', reading', All-IsInPlace float v' intended settled),
        second_pass id z p' intended v' still reading' w settled,
      )
