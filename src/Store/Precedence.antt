-- ===== src/Store/Precedence.antt =====
-- Which intended set-point a device resolves.
use building_controls.Prelude.{
  ℕ, ◌≡◌, refl, sym, ap, ◌∙◌, ◌↔◌, ◌⊎◌, inl, inr, Bool, true, false, String, Option, none, some,
  List, [], ◌∷◌, ◌++◌, arith, eq_iff, Bool-cases, and-eq-true, ◌==◌, nat_eq, string_eq, beq_refl,
  eq_of_beq, list_eq, option_eq, pair_eq,
}
use building_controls.Prelude.Int.{ℤ, pos}
use building_controls.Prelude.Dict.{Dict, insert, lookup, lookup-insert}
use building_controls.Prelude.Decimal.{str}
use building_controls.Prelude.Table.{
  select, fetch_one, exists, update, fetch_one-append, fetch_one-update-none, fetch_one-upsert_self,
  fetch_one-upsert-apart,
}
use building_controls.Database.{Scope, global, zone, device, scope_eq, SetpointIntent, Database}
use building_controls.Store.Intent.{scoped, intends, resolve_rows, setpoints_for, set_setpoint}

scope_eq_iff : (a b : Scope) → (scope_eq a b ≡ true) ↔ (a ≡ b)
scope_eq_iff global global = ground arith
scope_eq_iff global zone = ground arith
scope_eq_iff global device = ground arith
scope_eq_iff zone global = ground arith
scope_eq_iff zone zone = ground arith
scope_eq_iff zone device = ground arith
scope_eq_iff device global = ground arith
scope_eq_iff device zone = ground arith
scope_eq_iff device device = ground arith

-- `UNIQUE (scope, scope_ref, point_key)`
abbrev pub DistinctIntents : List SetpointIntent → Type 0
DistinctIntents [] = Unit
DistinctIntents (r ∷ t) =
    (fetch_one (intends r.scope r.scope_ref r.point_key) t ≡ none) × DistinctIntents t

abbrev pub value_of : Option SetpointIntent → Option ℤ
value_of none = none
value_of (some r) = some r.value

-- the value that is intended under one scope
abbrev pub intent : Scope → String → String → Database → Option ℤ
intent scope ref key db = value_of (fetch_one (intends scope ref key) db.setpoint_intent)

abbrev pub first_of : Option ℤ → Option ℤ → Option ℤ
first_of none y = y
first_of (some x) y = some x

keyed : String → SetpointIntent → Bool
keyed key r = r.point_key == key

fetch_one-select :
    (scope : Scope) (ref key : String) (t : List SetpointIntent)
    → fetch_one (λ r. r.point_key == key) (select (scoped scope ref) t)
      ≡ fetch_one (intends scope ref key) t
fetch_one-select scope ref key [] = refl
fetch_one-select scope ref key (r ∷ t) = ground (arith, fetch_one-select scope ref key t)

abbrev DistinctKeys : List SetpointIntent → Type 0
DistinctKeys [] = Unit
DistinctKeys (r ∷ t) = (fetch_one (λ x. x.point_key == r.point_key) t ≡ none) × DistinctKeys t

select-DistinctKeys :
    (scope : Scope) (ref : String) (t : List SetpointIntent)
    → DistinctIntents t
    → DistinctKeys (select (scoped scope ref) t)
select-DistinctKeys scope ref [] d = tt
select-DistinctKeys scope ref (r ∷ t) d = elim (Bool-cases (scoped scope ref r)) [
  | inr out ↦ rw out (select-DistinctKeys scope ref t d.1)
  | inl here ↦
      let (same_scope, same_ref) = and-eq-true (scope_eq r.scope scope) (r.scope_ref == ref) here in
      let s : r.scope ≡ scope = (scope_eq_iff r.scope scope).0 same_scope in
      let f : r.scope_ref ≡ ref = eq_of_beq r.scope_ref ref same_ref in
      let apart : fetch_one (intends scope ref r.point_key) t ≡ none =
        ap (λ x. fetch_one (intends x ref r.point_key) t) (sym s)
        ∙ ap (λ x. fetch_one (intends r.scope x r.point_key) t) (sym f)
        ∙ d.0 in
      rw here
        (fetch_one-select scope ref r.point_key t ∙ apart, select-DistinctKeys scope ref t d.1)
]

lookup-resolve_rows :
    (key : String) (t : List SetpointIntent) (base : Dict String ℤ)
    → DistinctKeys t
    → lookup key (resolve_rows t base)
      ≡ first_of (value_of (fetch_one (λ r. r.point_key == key) t)) (lookup key base)
lookup-resolve_rows key [] base d = refl
lookup-resolve_rows key (r ∷ t) base d =
    lookup-resolve_rows key t (insert r.point_key r.value base) d.1
    ∙ elim (Bool-cases (r.point_key == key)) [
      | inl here ↦
          let e = eq_of_beq r.point_key key here in
          let gone : fetch_one (λ x. x.point_key == key) t ≡ none =
            ap (λ k. fetch_one (λ x. x.point_key == k) t) (sym e) ∙ d.0 in
          rw (gone, here) (ground (arith, lookup-insert r.point_key key r.value base))
      | inr apart ↦ rw apart (rw (lookup-insert r.point_key key r.value base) (rw apart refl))
    ]

layer :
    (scope : Scope) (ref key : String) (db : Database) (base : Dict String ℤ)
    → DistinctIntents db.setpoint_intent
    → lookup key (resolve_rows (select (scoped scope ref) db.setpoint_intent) base)
      ≡ first_of (intent scope ref key db) (lookup key base)
layer scope ref key db base d =
    lookup-resolve_rows key (select (scoped scope ref) db.setpoint_intent) base
      (select-DistinctKeys scope ref db.setpoint_intent d)
    ∙ ap (λ o. first_of (value_of o) (lookup key base))
        (fetch_one-select scope ref key db.setpoint_intent)

first_of-none : (o : Option ℤ) → first_of o none ≡ o
first_of-none none = refl
first_of-none (some x) = refl

-- Where the rows of intent are unique, a device resolves for each point the value that is intended for
-- the device itself, else the one for its zone, else the global one, and none where there is none of
-- the three.
pub lookup-setpoints_for :
    (device_id : ℕ) (z key : String) (db : Database)
    → DistinctIntents db.setpoint_intent
    → lookup key (setpoints_for device_id z db)
      ≡ first_of
          (intent device (str device_id) key db)
          (first_of (intent zone z key db) (intent global "*" key db))
unfolding setpoints_for
lookup-setpoints_for device_id z key db d =
    let t = db.setpoint_intent in
    let bottom = resolve_rows (select (scoped global "*") t) [] in
    let middle = resolve_rows (select (scoped zone z) t) bottom in
    layer device (str device_id) key db middle d
    ∙ ap (first_of (intent device (str device_id) key db)) (
        layer zone z key db bottom d
        ∙ ap (first_of (intent zone z key db))
            (layer global "*" key db [] d ∙ first_of-none (intent global "*" key db)))

scope_eq_sym : (a b : Scope) → scope_eq a b ≡ scope_eq b a
scope_eq_sym global global = refl
scope_eq_sym global zone = refl
scope_eq_sym global device = refl
scope_eq_sym zone global = refl
scope_eq_sym zone zone = refl
scope_eq_sym zone device = refl
scope_eq_sym device global = refl
scope_eq_sym device zone = refl
scope_eq_sym device device = refl

text_sym : (a b : String) → (a == b) ≡ (b == a)
text_sym a b = ground (arith, eq_iff a b, eq_iff b a)

same_triple : SetpointIntent → SetpointIntent → Bool
same_triple r = intends r.scope r.scope_ref r.point_key

same_triple_sym :
    (r x : SetpointIntent)
    → intends r.scope r.scope_ref r.point_key x ≡ intends x.scope x.scope_ref x.point_key r
same_triple_sym r x =
    rw
      (
        scope_eq_sym x.scope r.scope,
        text_sym x.scope_ref r.scope_ref,
        text_sym x.point_key r.point_key,
      )
      refl

append-DistinctIntents :
    (t : List SetpointIntent) (new : SetpointIntent)
    → exists (intends new.scope new.scope_ref new.point_key) t ≡ false
    → DistinctIntents t
    → DistinctIntents (t ++ new ∷ [])
append-DistinctIntents [] new h d = (refl, tt)
append-DistinctIntents (r ∷ t) new h d = (
  ground (
    arith,
    same_triple_sym r new,
    fetch_one-append (intends r.scope r.scope_ref r.point_key) t (new ∷ []),
    d.0,
  ),
  append-DistinctIntents t new (ground arith) d.1,
)

update-DistinctIntents :
    (p : SetpointIntent → Bool) (v : ℤ) (t : List SetpointIntent)
    → DistinctIntents t
    → DistinctIntents (update p (λ r. record r { value = v }) t)
update-DistinctIntents p v [] d = tt
update-DistinctIntents p v (r ∷ t) d =
    let rest =
      fetch_one-update-none (intends r.scope r.scope_ref r.point_key) p
        (λ r. record r { value = v }) t (λ x. refl) d.0 in
    elim (Bool-cases (p r)) [
      | inl here ↦ rw here (rest, update-DistinctIntents p v t d.1)
      | inr apart ↦ rw apart (rest, update-DistinctIntents p v t d.1)
    ]

intends_fields :
    (scope : Scope) (ref key : String) (r : SetpointIntent)
    → intends scope ref key r ≡ true
    → (r.scope ≡ scope) × (r.scope_ref ≡ ref) × (r.point_key ≡ key)
intends_fields scope ref key r h =
    let (outer, k) = and-eq-true (scoped scope ref r) (r.point_key == key) h in
    let (s, f) = and-eq-true (scope_eq r.scope scope) (r.scope_ref == ref) outer in
    ((scope_eq_iff r.scope scope).0 s, eq_of_beq r.scope_ref ref f, eq_of_beq r.point_key key k)

intends_self :
    (scope : Scope) (ref key : String) (v : ℤ)
    → intends scope ref key (record { scope = scope; scope_ref = ref; point_key = key; value = v })
      ≡ true
intends_self scope ref key v =
    rw ((scope_eq_iff scope scope).1 refl, beq_refl ref, beq_refl key) refl

apart_or_same :
    (scope scope' : Scope) (ref ref' key key' : String)
    → ((r : SetpointIntent) → intends scope ref key r ≡ true → intends scope' ref' key' r ≡ false)
      ⊎ ((scope' ≡ scope) × (ref' ≡ ref) × (key' ≡ key))
apart_or_same scope scope' ref ref' key key' =
    let probe : SetpointIntent = record {
      scope = scope';
      scope_ref = ref';
      point_key = key';
      value = pos 0;
    } in
    elim (Bool-cases (intends scope ref key probe)) [
      | inl same ↦ inr (intends_fields scope ref key probe same)
      | inr differs ↦ inl (λ r h. elim (Bool-cases (intends scope' ref' key' r)) [
        | inr no_ ↦ no_
        | inl yes_ ↦
            let (s, f, k) = intends_fields scope' ref' key' r yes_ in
            let other : intends scope ref key r ≡ intends scope ref key probe = rw (s, f, k) refl in
            absurd (true-false (sym h ∙ other ∙ differs))
      ])
    ]
  where
    true-false : true ≡ false → ⊥
    true-false e = ground arith

-- `set_setpoint` keeps the rows of intent unique, and afterwards the value given is what is intended
-- under its scope for its point; under every other scope or point the intent is what it was.
pub set_setpoint-intent :
    (scope : Scope) (ref key : String) (v : ℤ) (actor : String) (db : Database) (scope' : Scope)
    (ref' key' : String)
    → DistinctIntents db.setpoint_intent
    → let db' = set_setpoint scope ref key v actor db in
      DistinctIntents db'.setpoint_intent
      × (intent scope ref key db' ≡ some v)
      × ((intent scope' ref' key' db' ≡ intent scope' ref' key' db)
          ⊎ ((scope' ≡ scope) × (ref' ≡ ref) × (key' ≡ key)))
unfolding set_setpoint
set_setpoint-intent scope ref key v actor db scope' ref' key' d =
    let t = db.setpoint_intent in
    let p = intends scope ref key in
    let f = λ (r : SetpointIntent). record r { value = v } in
    let new : SetpointIntent = record {
      scope = scope;
      scope_ref = ref;
      point_key = key;
      value = v;
    } in
    let self = intends_self scope ref key v in
    (
      elim (Bool-cases (exists p t)) [
        | inl old ↦ rw old (update-DistinctIntents p v t d)
        | inr fresh ↦ rw fresh (append-DistinctIntents t new fresh d)
      ],
      elim (fetch_one-upsert_self p f new t (λ r h. h) self) [
        | inl (r, moved) ↦ ap value_of moved
        | inr added ↦ ap value_of added
      ],
      elim (apart_or_same scope scope' ref ref' key key') [
        | inr same ↦ inr same
        | inl apart ↦ inl (
            ap value_of (
              fetch_one-upsert-apart (intends scope' ref' key') p f new t apart apart
                (apart new self)))
      ],
    )
