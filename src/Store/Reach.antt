-- ===== src/Store/Reach.antt =====
-- Which devices an exception or a holiday reaches.
use building_controls.Prelude.{
  ℕ, ◌+◌, ◌≡◌, refl, sym, ap, ◌∙◌, inl, inr, Bool, true, ◌&&◌, ◌||◌, not, String, Option, some,
  List, [], ◌∷◌, ◌++◌, arith, if◌then◌else◌, Bool-cases, ◌==◌, nat_eq, string_eq, beq_refl,
  eq_of_beq, ne_of_beq, beq_of_ne, list_eq, option_eq, pair_eq,
}
use building_controls.Prelude.Decimal.{str, str-inj}
use building_controls.Prelude.Text.{Text}
use building_controls.Prelude.Sort.{order_by, in_order, count-order_by, order_by-in_order}
use building_controls.Prelude.Table.{select, count}
use building_controls.Database.{
  Scope, global, zone, device, Day, Holiday, OccupancyException, Database,
}
use building_controls.Store.Calendar.{
  in_scope, add_exception, exceptions_for, not_before, add_holiday, holidays, by_date,
}

-- what a rule can be meant for, and the columns that say so
pub data Target : Type 0 where
  everywhere : Target
  in_zone : String → Target
  on_device : ℕ → Target

abbrev pub scope_of : Target → Scope
scope_of everywhere = global
scope_of (in_zone z) = zone
scope_of (on_device d) = device

abbrev pub ref_of : Target → String
ref_of everywhere = "*"
ref_of (in_zone z) = z
ref_of (on_device d) = str d

abbrev pub covers : Target → ℕ → String → Bool
covers everywhere d z = true
covers (in_zone a) d z = a == z
covers (on_device e) d z = e == d

str_beq : (e d : ℕ) → (str e == str d) ≡ (e == d)
str_beq e d = elim (Bool-cases (e == d)) [
  | inl same ↦ let k = eq_of_beq e d same in rw (k, beq_refl (str d)) (sym (beq_refl d))
  | inr apart ↦ rw apart (beq_of_ne (str e) (str d) (λ k. ne_of_beq e d apart (str-inj e d k)))
]

in_scope-covers :
    (t : Target) (d : ℕ) (z : String)
    → in_scope (some d) (some z) (scope_of t) (ref_of t) ≡ covers t d z
unfolding in_scope
in_scope-covers everywhere d z = refl
in_scope-covers (in_zone a) d z = ground arith
in_scope-covers (on_device e) d z = str_beq e d

module _ {ℓ} {R : Type ℓ} where
  count-select : (q p : R → Bool) (t : List R) → count p (select q t) ≡ count (λ r. q r && p r) t
  count-select q p [] = refl
  count-select q p (r ∷ t) = ground (arith, count-select q p t)

  count-append :
      (p : R → Bool) (t : List R) (r : R)
      → count p (t ++ r ∷ []) ≡ count p t + (if p r then 1 else 0)
  count-append p [] r = ground arith
  count-append p (x ∷ t) r = ground (arith, count-append p t r)

  pub count-query :
      (key : R → List ℕ) (q p : R → Bool) (t : List R) (r : R)
      → count p (order_by key (select q (t ++ r ∷ [])))
        ≡ count p (order_by key (select q t)) + (if q r && p r then 1 else 0)
  count-query key q p t r =
      count-order_by key p (select q (t ++ r ∷ []))
      ∙ count-select q p (t ++ r ∷ [])
      ∙ count-append (λ x. q x && p x) t r
      ∙ ap (λ n. n + (if q r && p r then 1 else 0))
          (sym (count-order_by key p (select q t) ∙ count-select q p t))

-- A new exception is listed, once, for exactly the devices that it is meant for (all of them, those of
-- its zone, or the one it names) and only while its last day is not before the day asked from; nothing
-- else in any list changes, and each list is in the order of the start dates.
pub exceptions_for-add_exception :
    (name : String) (start_date : Text) (transitions : Day) (end_date : Option Text)
    (target : Target) (actor : String) (device_id : ℕ) (z : String) (from_date : Option Text)
    (p : OccupancyException → Bool) (db : Database)
    → let (id, db') =
        add_exception name start_date transitions end_date
          (scope_of target)
          (ref_of target)
          actor
          db in
      let new : OccupancyException = record {
        id = id;
        name = name;
        scope = scope_of target;
        scope_ref = ref_of target;
        start_date = start_date;
        end_date = end_date;
        transitions = transitions;
        enabled = true;
      } in
      (count p (exceptions_for device_id z from_date db')
        ≡ count p (exceptions_for device_id z from_date db)
          + (if covers target device_id z && not_before from_date new && p new then 1 else 0))
      × (in_order (λ r. r.start_date) (exceptions_for device_id z from_date db') ≡ true)
unfolding add_exception exceptions_for
exceptions_for-add_exception name start_date transitions end_date target actor device_id z from_date
      p db =
    let new : OccupancyException = record {
      id = db.next_exception;
      name = name;
      scope = scope_of target;
      scope_ref = ref_of target;
      start_date = start_date;
      end_date = end_date;
      transitions = transitions;
      enabled = true;
    } in
    let key = λ (r : OccupancyException). r.start_date in
    let q = λ (r : OccupancyException).
      r.enabled
      && in_scope (some device_id) (some z) r.scope r.scope_ref
      && not_before from_date r in
    let t = db.occupancy_exception in
    (
      count-query key q p t new
          ∙ ap
              (λ b.
                count p (order_by key (select q t))
                + (if (b && not_before from_date new) && p new then 1 else 0))
              (in_scope-covers target device_id z)
          ∙ assoc (covers target device_id z) (not_before from_date new) (p new)
              (count p (order_by key (select q t))),
      order_by-in_order key (select q (t ++ new ∷ [])),
    )
  where
    assoc :
        (a b c : Bool) (n : ℕ)
        → n + (if (a && b) && c then 1 else 0) ≡ n + (if a && b && c then 1 else 0)
    assoc a b c n = ground arith

-- A new holiday is listed for exactly the devices that it is meant for, once; where only enabled ones
-- are asked for, only if it is enabled. Nothing else in any list changes, and each list is in the order
-- of month, day and id.
pub holidays-add_holiday :
    (fields : Holiday) (target : Target) (actor : String) (device_id : ℕ) (z : String)
    (enabled_only : Bool) (p : Holiday → Bool) (db : Database)
    → let scoped = record fields { scope = scope_of target; scope_ref = ref_of target } in
      let (id, db') = add_holiday scoped actor db in
      let new = record scoped { id = id } in
      (count p (holidays (some device_id) (some z) enabled_only db')
        ≡ count p (holidays (some device_id) (some z) enabled_only db)
          + (if (not enabled_only || fields.enabled) && covers target device_id z && p new
              then 1
              else 0))
      × (in_order by_date (holidays (some device_id) (some z) enabled_only db') ≡ true)
unfolding add_holiday holidays
holidays-add_holiday fields target actor device_id z enabled_only p db =
    let new : Holiday = record fields {
      id = db.next_holiday;
      scope = scope_of target;
      scope_ref = ref_of target;
    } in
    let q = λ (r : Holiday).
      (not enabled_only || r.enabled) && in_scope (some device_id) (some z) r.scope r.scope_ref in
    let t = db.holiday in
    let on = not enabled_only || fields.enabled in
    let before = count p (order_by by_date (select q t)) in
    (
      count-query by_date q p t new
          ∙ ap (λ b. before + (if (on && b) && p new then 1 else 0))
              (in_scope-covers target device_id z)
          ∙ regroup on (covers target device_id z) (p new) before,
      order_by-in_order by_date (select q (t ++ new ∷ [])),
    )
  where
    regroup :
        (a b c : Bool) (n : ℕ)
        → n + (if (a && b) && c then 1 else 0) ≡ n + (if a && b && c then 1 else 0)
    regroup a b c n = ground arith
