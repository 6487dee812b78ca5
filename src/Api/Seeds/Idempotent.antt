-- ===== src/Api/Seeds/Idempotent.antt =====
-- Loading the federal holidays a second time.
use building_controls.Prelude.{
  ℕ, ◌≤◌, ◌≡◌, refl, sym, ap, ◌∙◌, ◌⊎◌, inl, inr, Bool, true, false, ◌&&◌, ◌||◌, not, String, none,
  List, [], ◌∷◌, ◌++◌, arith, ltb, ltb→lt, lt→ltb, Bool-cases, All, ◌==◌, nat_eq, string_eq,
  beq_refl, contains, list_eq, option_eq, pair_eq,
}
use mathlib.Core.Path.{subst}
use building_controls.Prelude.Table.{select, count}
use building_controls.Prelude.Sort.{count-order_by}
use building_controls.Database.{Holiday, Database}
use building_controls.Store.Calendar.{add_holiday, holidays, in_scope, by_date}
use building_controls.Api.Seeds.{names, add_new, add_missing}

abbrev named : String → Holiday → Bool
named n h = h.name == n

contains-names : (n : String) (l : List Holiday) → contains (names l) n ≡ ltb 0 (count (named n) l)
contains-names n [] = refl
contains-names n (h ∷ l) = elim (Bool-cases (h.name == n)) [
  | inl here ↦ rw here (ground arith)
  | inr apart ↦ rw apart (contains-names n l)
]

select-all : (q : Holiday → Bool) (t : List Holiday) → ((h : Holiday) → q h ≡ true) → select q t ≡ t
select-all q [] e = refl
select-all q (h ∷ t) e = rw (e h) (ap (λ l. h ∷ l) (select-all q t e))

-- whether a rule of that name is stored, whichever it is
known_iff :
    (n : String) (db : Database)
    → contains (names (holidays none none false db)) n ≡ ltb 0 (count (named n) db.holiday)
unfolding holidays in_scope
known_iff n db =
    contains-names n (holidays none none false db)
    ∙ ap (λ (k : ℕ). ltb 0 k)
        (count-order_by by_date (named n) (
            select
              (λ (r : Holiday). (not false || r.enabled) && in_scope none none r.scope r.scope_ref)
              db.holiday)
          ∙ ap (count (named n)) (
              select-all
                (λ (r : Holiday).
                  (not false || r.enabled) && in_scope none none r.scope r.scope_ref)
                db.holiday (λ h. refl)))

count-append :
    (n : String) (t : List Holiday) (h : Holiday)
    → count (named n) t ≤ count (named n) (t ++ h ∷ [])
count-append n [] h = omega arith
count-append n (x ∷ t) h = ground (arith, count-append n t h)

count-last : (t : List Holiday) (h : Holiday) → 1 ≤ count (named h.name) (t ++ h ∷ [])
count-last [] h = rw (beq_refl h.name) (omega arith)
count-last (x ∷ t) h = ground (arith, count-last t h)

add_new-grows :
    (n : String) (existing : List String) (specs : List Holiday) (db : Database)
    → count (named n) db.holiday ≤ count (named n) (add_new existing specs db).1.holiday
unfolding add_new add_holiday
add_new-grows n existing [] db = omega arith
add_new-grows n existing (s ∷ specs) db = elim (Bool-cases (contains existing s.name)) [
  | inl old ↦ rw (old, add_new) (add_new-grows n existing specs db)
  | inr fresh ↦
      let db' = (add_holiday s "api" db).1 in
      rw (fresh, add_new)
        (omega (
          arith,
          add_new-grows n existing specs db',
          count-append n db.holiday (record s { id = db.next_holiday }),
        ))
]

add_new-old :
    (existing : List String) (s : Holiday) (specs : List Holiday) (db : Database)
    → contains existing s.name ≡ true
    → (add_new existing (s ∷ specs) db).1 ≡ (add_new existing specs db).1
unfolding add_new
add_new-old existing s specs db h = rw (h, add_new) refl

add_new-fresh :
    (existing : List String) (s : Holiday) (specs : List Holiday) (db : Database)
    → contains existing s.name ≡ false
    → (add_new existing (s ∷ specs) db).1 ≡ (add_new existing specs (add_holiday s "api" db).1).1
unfolding add_new
add_new-fresh existing s specs db h = rw (h, add_new) refl

stored_once :
    (s : Holiday) (db : Database) → 1 ≤ count (named s.name) (add_holiday s "api" db).1.holiday
unfolding add_holiday
stored_once s db = count-last db.holiday (record s { id = db.next_holiday })

-- every rule is known before, or stored under its name in a database
abbrev Covered : List String → List Holiday → Database → Type 0
Covered existing specs d =
    All (λ s. (contains existing s.name ≡ true) ⊎ (1 ≤ count (named s.name) d.holiday)) specs

add_new-Covered :
    (existing : List String) (specs : List Holiday) (db : Database)
    → Covered existing specs (add_new existing specs db).1
add_new-Covered existing [] db = tt
add_new-Covered existing (s ∷ specs) db = elim (Bool-cases (contains existing s.name)) [
  | inl old ↦
      subst (Covered existing (s ∷ specs)) (sym (add_new-old existing s specs db old))
        (inl old, add_new-Covered existing specs db)
  | inr fresh ↦
      let db' = (add_holiday s "api" db).1 in
      subst (Covered existing (s ∷ specs)) (sym (add_new-fresh existing s specs db fresh)) (
        inr (omega (arith, add_new-grows s.name existing specs db', stored_once s db)),
        add_new-Covered existing specs db',
      )
]

add_new-none :
    (existing : List String) (specs : List Holiday) (db : Database)
    → All (λ s. contains existing s.name ≡ true) specs
    → add_new existing specs db ≡ (0, db)
unfolding add_new
add_new-none existing [] db h = refl
add_new-none existing (s ∷ specs) db (here, h) =
    rw (here, add_new) (add_new-none existing specs db h)

-- Loading a set of rules, in whatever building, leaves a rule stored under each of their names; and
-- loading them once more adds none and changes nothing, audit log included.
pub add_missing-twice :
    (specs : List Holiday) (db : Database)
    → let db' = (add_missing specs db).1 in
      All (λ s. 1 ≤ count (λ (h : Holiday). h.name == s.name) db'.holiday) specs
      × (add_missing specs db' ≡ (0, db'))
unfolding add_missing
add_missing-twice specs db =
    let existing = names (holidays none none false db) in
    let db' = (add_new existing specs db).1 in
    let all = stored_all specs (add_new-Covered existing specs db) in
    (all, add_new-none (names (holidays none none false db')) specs db' (known_all db' specs all))
  where
    stored_all :
        (l : List Holiday)
        → All
            (λ s.
              (contains (names (holidays none none false db)) s.name ≡ true)
              ⊎ (1 ≤ count (named s.name) (add_missing specs db).1.holiday))
            l
        → All (λ s. 1 ≤ count (named s.name) (add_missing specs db).1.holiday) l
    stored_all [] h = tt
    stored_all (s ∷ l) (inr there, h) = (there, stored_all l h)
    stored_all (s ∷ l) (inl old, h) = (
      omega (
        arith,
        ltb→lt 0 (count (named s.name) db.holiday) (known_iff_of s.name old),
        add_new-grows s.name (names (holidays none none false db)) specs db,
      ),
      stored_all l h,
    )
      where
        known_iff_of :
            (n : String)
            → contains (names (holidays none none false db)) n ≡ true
            → ltb 0 (count (named n) db.holiday) ≡ true
        known_iff_of n h = sym (known_iff n db) ∙ h

    known_all :
        (d : Database) (l : List Holiday)
        → All (λ s. 1 ≤ count (named s.name) d.holiday) l
        → All (λ s. contains (names (holidays none none false d)) s.name ≡ true) l
    known_all d [] h = tt
    known_all d (s ∷ l) (one, h) = (
      known_iff s.name d ∙ lt→ltb 0 (count (named s.name) d.holiday) (omega arith),
      known_all d l h,
    )
