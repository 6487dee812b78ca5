-- ===== src/UserAdmin/Again.antt =====
-- Importing the same file once more.
use building_controls.Prelude.{
  ◌≡◌, refl, ap, ◌∙◌, inl, inr, Bool, true, false, ◌||◌, String, List, [], ◌∷◌, ◌++◌, map, arith,
  eq_iff, Bool-cases, nat_eq, string_eq, beq_refl, contains, list_eq, option_eq, pair_eq,
}
use building_controls.Prelude.Dict.{Dict}
use building_controls.Database.{AppUser, Database}
use building_controls.UserAdmin.Rows.{Row, fails, rows, read_rows, Parsed}
use building_controls.UserAdmin.Commands.{
  Terminal, Report, End, finished, failed, exits, raised, names, report_of, import_rows, import_csv,
}
use building_controls.UserAdmin.Import.{MadeForAll, Added, missing, Imported, import_csv_lem}

abbrev names_of : List Row → List String
names_of = map (λ r. r.username)

contains-append :
    (xs ys : List String) (x : String) → contains (xs ++ ys) x ≡ (contains xs x || contains ys x)
contains-append [] ys x = refl
contains-append (z ∷ xs) ys x = ground (arith, contains-append xs ys x)

map-append :
    (l m : List AppUser)
    → map (λ u. u.username) (l ++ m) ≡ map (λ u. u.username) l ++ map (λ u. u.username) m
map-append [] m = refl
map-append (u ∷ l) m = ap (λ t. u.username ∷ t) (map-append l m)

made_names :
    (rs : List Row) (us : List AppUser) → MadeForAll rs us → map (λ u. u.username) us ≡ names_of rs
made_names [] [] h = refl
made_names [] (u ∷ us) h = elim h [ ]
made_names (r ∷ rs) [] h = elim h [ ]
made_names (r ∷ rs) (u ∷ us) ((e, _, _, _), h) = ground (arith, made_names rs us h)

-- a name of the file was known, or belongs to a new row
split_names :
    (db : Database) (rs : List Row) (x : String)
    → contains (names_of rs) x ≡ true
    → contains (names db ++ names_of (missing db rs)) x ≡ true
split_names db rs x h = contains-append (names db) (names_of (missing db rs)) x ∙ go rs h
  where
    go :
        (l : List Row)
        → contains (names_of l) x ≡ true
        → (contains (names db) x || contains (names_of (missing db l)) x) ≡ true
    go [] h = ground arith
    go (r ∷ l) h = elim (Bool-cases (contains (names db) r.username)) [
      | inl old ↦ rw old (ground (arith, go l, eq_iff r.username x))
      | inr fresh ↦ rw fresh (ground (arith, go l))
    ]

none_missing :
    (db : Database) (rs : List Row)
    → ((x : String) → contains (names_of rs) x ≡ true → contains (names db) x ≡ true)
    → missing db rs ≡ []
none_missing db [] h = refl
none_missing db (r ∷ rs) h =
    rw (h r.username (ground (arith, beq_refl r.username)))
      (none_missing db rs (λ x k. h x (ground arith)))

Added-missing :
    (db db' : Database) (rs : List Row) → Added (missing db rs) db db' → missing db' rs ≡ []
Added-missing db db' rs (us, grown, made) =
    let all : names db' ≡ names db ++ names_of (missing db rs) =
      ap (map (λ u. u.username)) grown
      ∙ map-append db.app_user us
      ∙ ap (λ l. names db ++ l) (made_names (missing db rs) us made) in
    none_missing db' rs (λ x h. ap (λ l. contains l x) all ∙ split_names db rs x h)

finished-Added :
    (rs : List Row) (db : Database) (end : End) (db' : Database) (report : Report)
    → end ≡ finished report
    → Imported false (rows rs) db (end, db')
    → Added (missing db rs) db db'
finished-Added rs db (finished r) db' report e h = h.1
finished-Added rs db (exits n) db' report e h = elim h [ ]
finished-Added rs db (failed f) db' report e h = elim h [ ]
finished-Added rs db (raised x) db' report e h = ground arith

import_nothing :
    (t : Terminal) (dry_run : Bool) (rs : List Row) (db : Database)
    → missing db rs ≡ []
    → import_rows t dry_run rs db ≡ (finished (report_of t db rs), db)
unfolding import_rows
import_nothing t true rs db h = refl
import_nothing t false rs db h = rw (h, import_rows) refl

-- After an import that finished, and was not a dry run, importing the file once more writes nothing and
-- reports no row as new: the accounts and the audit log stay as the first import left them.
pub import_csv-twice :
    (t : Terminal) (dry_run : Bool) (fieldnames : List String) (lines : List (Dict String String))
    (db : Database) (report : Report)
    → (import_csv t false fieldnames lines db).0 ≡ finished report
    → let db' = (import_csv t false fieldnames lines db).1 in
      (report' : Report) × (report'.new ≡ [])
      × (import_csv t dry_run fieldnames lines db' ≡ (finished report', db'))
unfolding import_csv
import_csv-twice t dry_run fieldnames lines db report done =
    go (read_rows t.lower fieldnames lines) refl (import_csv t false fieldnames lines db) done
      (import_csv_lem t false fieldnames lines db)
  where
    go :
        (parsed : Parsed)
        → read_rows t.lower fieldnames lines ≡ parsed
        → (outcome : End × Database) → outcome.0 ≡ finished report
        → Imported false (read_rows t.lower fieldnames lines) db outcome
        → (report' : Report) × (report'.new ≡ [])
          × (import_csv t dry_run fieldnames lines outcome.1 ≡ (finished report', outcome.1))
    go (fails f) e outcome done h = let (end, _) = rw e at h in ground arith
    go (rows rs) e (end, db') done h =
        let none_new : missing db' rs ≡ [] =
          Added-missing db db' rs (finished-Added rs db end db' report done (rw e at h)) in
        (
          report_of t db' rs,
          ap names_of none_new,
          rw (e, import_csv) (import_nothing t dry_run rs db' none_new),
        )
