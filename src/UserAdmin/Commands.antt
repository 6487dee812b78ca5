-- ===== src/UserAdmin/Commands.antt =====
-- The commands for accounts (bms/useradmin.py `main`, but for `list`, which only prints). What is typed
-- and what is generated are given, and so are the zones of the configuration. A command ends with what
-- it prints of the import and of passwords, with a status, or with an exception.
use building_controls.Prelude.{
  ℕ, suc, Bool, true, false, ◌&&◌, ◌||◌, not, String, Option, none, some, List, [], ◌∷◌, ◌++◌, map,
  ltb, if◌then◌else◌, length, is_nil, ◌==◌, nat_eq, string_eq, contains, list_eq, option_eq,
  pair_eq,
}
use building_controls.Prelude.Dict.{Dict}
use building_controls.Prelude.Text.{Text}
use building_controls.Prelude.Table.{select}
use building_controls.Database.{Role, admin, manager, tenant, Database}
use building_controls.Auth.Password.{Error, Result, ok, raise, Scrypt}
use building_controls.Auth.Accounts
use building_controls.Auth.Accounts.{Action, ◌>>=◌, pure}
use building_controls.UserAdmin.Rows.{Row, Failure, fails, rows, read_rows}

-- The surroundings of a run: the key derivation, `str.lower`, the salt and the password generated for
-- the account of each number, what is typed at the two prompts, and the zones in use.
pub record Terminal : Type 0 where
  pub scrypt : Scrypt
  pub lower : String → String
  pub salt : ℕ → List ℕ
  pub generated : ℕ → Text
  pub first : Text
  pub repeat : Text
  pub zones_in_use : Option (List String)

pub record Report : Type 0 where
  pub warned : List (String × List String)
  pub new : List String
  pub skipped : List String
  pub issued : List (String × Text)

pub data End : Type 0 where
  finished : Report → End
  exits : ℕ → End
  failed : Failure → End
  raised : Error → End

-- the password, and whether it was generated; none where the command ends with status 2
unfoldable pub prompt_password : Terminal → Option (Text × Bool)
prompt_password t =
    if is_nil t.first
    then some (t.generated 0, true)
    else if ltb (length t.first) 8
    then none
    else if not (t.first == t.repeat)
    then none
    else some (t.first, false)

-- the zones of the devices, of the triggers and of the doors
abbrev pub known_zones : List String → List String → List (List String) → List String
known_zones devices triggers [] = devices ++ select (λ z. not (z == "*")) triggers
known_zones devices triggers (door ∷ doors) =
    select (λ z. not (z == "*")) door ++ known_zones devices triggers doors

abbrev pub stray : List String → Row → List String
stray in_use r = select (λ z. not (contains in_use z) && not (z == "*")) r.zones

abbrev pub warnings : List String → List Row → List (String × List String)
warnings in_use [] = []
warnings in_use (r ∷ rs) =
    let rest = warnings in_use rs in
    if r.role == "tenant" && not (is_nil (stray in_use r))
    then (r.username, stray in_use r) ∷ rest
    else rest

abbrev pub warnings_of : Option (List String) → List Row → List (String × List String)
warnings_of none rs = []
warnings_of (some in_use) rs = warnings in_use rs

-- the accounts of a database, and whether a row of the file is one of them
abbrev pub names : Database → List String
names db = map (λ u. u.username) db.app_user

abbrev pub existing : Database → Row → Bool
existing db r = contains (names db) r.username

abbrev pub nothing : Report
nothing = record { warned = []; new = []; skipped = []; issued = [] }

abbrev pub ended : Report → Result (List (String × Text)) × Database → End × Database
ended report (ok issued, db) = (finished (record report { issued = issued }), db)
ended report (raise e, db) = (raised e, db)

module _ (t : Terminal) where
  -- `r["password"] or generate_password()`
  abbrev pub password_of : ℕ → Row → Text
  password_of k r = if is_nil r.password then t.generated k else r.password

  abbrev pub issue : ℕ → Row → List (String × Text)
  issue k r = if is_nil r.password then (r.username, t.generated k) ∷ [] else []

  -- the loop over the rows to create, with the number of the next one
  unfoldable pub create_all : ℕ → List Row → Action (List (String × Text))
  create_all k [] = pure []
  create_all k (r ∷ rs) =
      Accounts.create_user t.scrypt (t.salt k) r.username (password_of k r) r.role r.display_name
        r.zones "cli" true
      >>= λ _. create_all (suc k) rs >>= λ issued. pure (issue k r ++ issued)

  -- what is printed before anything is written
  abbrev pub report_of : Database → List Row → Report
  report_of db rs =
      let new = select (λ r. not (existing db r)) rs in
      record {
        warned = warnings_of t.zones_in_use new;
        new = map (λ r. r.username) new;
        skipped = map (λ r. r.username) (select (existing db) rs);
        issued = [];
      }

  -- what an import does with the rows of the file
  unfoldable pub import_rows : Bool → List Row → Database → End × Database
  unfolding create_all
  import_rows dry_run rs db =
      let new = select (λ r. not (existing db r)) rs in
      if dry_run || is_nil new
      then (finished (report_of db rs), db)
      else ended (report_of db rs) (create_all 0 new db)

  unfoldable pub import_csv :
      Bool → List String → List (Dict String String) → Database → End × Database
  unfolding import_rows
  import_csv dry_run fieldnames lines db = elim (read_rows t.lower fieldnames lines) [
    | fails f ↦ (failed f, db)
    | rows rs ↦ import_rows dry_run rs db
  ]

pub data Command : Type 0 where
  add : Role → String → String → List String → Bool → Command
  passwd : String → Bool → Command
  zones : String → List String → Command
  deactivate : String → Command
  import : Bool → List String → List (Dict String String) → Command

abbrev pub role_name : Role → String
role_name admin = "admin"
role_name manager = "manager"
role_name tenant = "tenant"

-- the password that is shown, if it was generated
abbrev pub shown : String → Text × Bool → End
shown username (password, true) = finished (record nothing { issued = (username, password) ∷ [] })
shown username (password, false) = finished nothing

abbrev pub created : String → Text × Bool → Result ℕ × Database → End × Database
created username p (ok id, db) = (shown username p, db)
created username p (raise e, db) = (raised e, db)

abbrev pub updated : String → Text × Bool → Result Bool × Database → End × Database
updated username p (ok true, db) = (shown username p, db)
updated username p (ok false, db) = (exits 1, db)
updated username p (raise e, db) = (raised e, db)

-- a call that says whether there is such an account
abbrev pub found_or_1 : Bool × Database → End × Database
found_or_1 (true, db) = (finished nothing, db)
found_or_1 (false, db) = (exits 1, db)

unfoldable pub run : Terminal → Command → Database → End × Database
unfolding prompt_password
run t (add role username name granted no_change) db = elim (prompt_password t) [
  | none ↦ (exits 2, db)
  | some p ↦ created username p (
      Accounts.create_user t.scrypt (t.salt 0) username p.0 (role_name role) name granted "cli"
        (not no_change) db)
]
run t (passwd username no_change) db = elim (prompt_password t) [
  | none ↦ (exits 2, db)
  | some p ↦ updated username p (
      Accounts.set_password t.scrypt t.lower (t.salt 0) username p.0 "cli" (some (not no_change))
        db)
]
run t (zones username granted) db = found_or_1 (Accounts.set_zones username granted "cli" db)
run t (deactivate username) db = found_or_1 (Accounts.deactivate username "cli" db)
run t (import dry_run fieldnames lines) db = import_csv t dry_run fieldnames lines db
