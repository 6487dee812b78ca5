-- ===== src/UserAdmin/Ends.antt =====
-- Commands that end without doing what they were asked.
use building_controls.Prelude.{
  ℕ, ◌≡◌, refl, ap, ◌≢◌, inl, inr, Bool, true, false, not, String, some, List, arith, ltb,
  Bool-cases, Option-cases, nat_eq, string_eq, list_eq, option_eq, pair_eq,
}
use building_controls.Prelude.Text.{Text}
use building_controls.Prelude.Table.{count, fetch_one, update-count_zero}
use building_controls.Database.{Database}
use building_controls.Auth.Password.{Result, ok, raise}
use building_controls.Auth.Accounts.{named, set_zones, deactivate}
use building_controls.Auth.Accounts.Refusals.{set_password-same}
use building_controls.UserAdmin.Rows.{fails, rows, read_rows, Parsed}
use building_controls.UserAdmin.Commands.{
  Terminal, End, finished, exits, failed, raised, prompt_password, import_rows, import_csv, Command,
  add, passwd, zones, import, role_name, shown, created, updated, found_or_1, run, ended,
}
use building_controls.UserAdmin.Commands
use building_controls.UserAdmin.Import.{Imported, import_csv_lem}

-- a status, or a file that is refused
abbrev pub IsRefusal : End → Type 0
IsRefusal (exits n) = Unit
IsRefusal (failed f) = Unit
IsRefusal (finished report) = ⊥
IsRefusal (raised e) = ⊥

shown-finished : (username : String) (p : Text × Bool) → IsRefusal (shown username p) → ⊥
shown-finished username (password, true) h = h
shown-finished username (password, false) h = h

created-same :
    (username : String) (p : Text × Bool) (r : Result ℕ × Database) (db : Database)
    → IsRefusal (created username p r).0
    → (created username p r).1 ≡ db
created-same username p (ok id, db') db h = absurd (shown-finished username p h)
created-same username p (raise e, db') db h = absurd h

updated-same :
    (username : String) (p : Text × Bool) (r : Result Bool × Database) (db : Database)
    → (r.0 ≢ ok true → r.1 ≡ db)
    → IsRefusal (updated username p r).0
    → (updated username p r).1 ≡ db
updated-same username p (ok true, db') db k h = absurd (shown-finished username p h)
updated-same username p (ok false, db') db k h = k (λ e. ground arith)
updated-same username p (raise e, db') db k h = absurd h

found_or_1-same :
    (r : Bool × Database) (db : Database)
    → (r.0 ≡ false → r.1 ≡ db)
    → IsRefusal (found_or_1 r).0
    → (found_or_1 r).1 ≡ db
found_or_1-same (true, db') db k h = absurd h
found_or_1-same (false, db') db k h = k refl

set_zones-same :
    (username : String) (granted : List String) (actor : String) (db : Database)
    → (set_zones username granted actor db).0 ≡ false
    → (set_zones username granted actor db).1 ≡ db
unfolding set_zones
set_zones-same username granted actor db h =
    elim (Option-cases (fetch_one (named username) db.app_user)) [
      | inl absent ↦ rw (absent, set_zones) refl
      | inr (r, found) ↦ let g = rw (found, set_zones) at h in ground arith
    ]

deactivate-same :
    (username actor : String) (db : Database)
    → (deactivate username actor db).0 ≡ false
    → (deactivate username actor db).1 ≡ db
unfolding deactivate
deactivate-same username actor db h =
    elim (Bool-cases (ltb 0 (count (named username) db.app_user))) [
      | inl found ↦ let g = rw (found, deactivate) at h in ground arith
      | inr absent ↦
          rw (absent, deactivate)
            (ap (λ l. record db { app_user = l })
              (update-count_zero (named username) (λ r. record r { active = false }) db.app_user
                absent))
    ]

Imported-same :
    (dry_run : Bool) (parsed : Parsed) (db : Database) (end : End) (db' : Database)
    → Imported dry_run parsed db (end, db')
    → IsRefusal end
    → db' ≡ db
Imported-same dry_run (fails f) db end db' h refusal = h.1
Imported-same true (rows rs) db end db' h refusal = h.1
Imported-same false (rows rs) db (finished report) db' h refusal = elim refusal [ ]
Imported-same false (rows rs) db (exits n) db' h refusal = elim h [ ]
Imported-same false (rows rs) db (failed f) db' h refusal = elim h [ ]
Imported-same false (rows rs) db (raised e) db' h refusal = elim refusal [ ]

-- A command that ends with a status other than success, because the password typed is too short or not
-- repeated, or because there is no such account, or that refuses the file to import, leaves the whole
-- database as it was, the audit log included.
pub run-IsRefusal :
    (t : Terminal) (c : Command) (db : Database) → IsRefusal (run t c db).0 → (run t c db).1 ≡ db
unfolding run
run-IsRefusal t (add role username name granted no_change) db h =
    elim (Option-cases (prompt_password t)) [
      | inl bad ↦ rw (bad, run) refl
      | inr (p, good) ↦
          let g = rw (good, run) at h in rw (good, run) (created-same username p _ db g)
    ]
run-IsRefusal t (passwd username no_change) db h = elim (Option-cases (prompt_password t)) [
  | inl bad ↦ rw (bad, run) refl
  | inr (p, good) ↦
      let g = rw (good, run) at h in
      rw (good, run)
        (updated-same username p _ db
          (set_password-same t.scrypt t.lower (t.salt 0) username p.0 "cli" (some (not no_change))
            db)
          g)
]
run-IsRefusal t (zones username granted) db h =
    found_or_1-same (set_zones username granted "cli" db) db
      (set_zones-same username granted "cli" db) h
run-IsRefusal t (Commands.deactivate username) db h =
    found_or_1-same (deactivate username "cli" db) db (deactivate-same username "cli" db) h
run-IsRefusal t (import dry_run fieldnames lines) db h =
    Imported-same dry_run (read_rows t.lower fieldnames lines) db
      (run t (import dry_run fieldnames lines) db).0 (run t (import dry_run fieldnames lines) db).1
      (import_csv_lem t dry_run fieldnames lines db) h
