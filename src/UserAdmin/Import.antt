-- ===== src/UserAdmin/Import.antt =====
-- What an import leaves in the database.
use building_controls.Prelude.{
  ℕ, suc, ◌≡◌, refl, sym, ap, ◌∙◌, inl, inr, Bool, true, false, not, String, some, List, [], ◌∷◌,
  ◌++◌, map, arith, Bool-cases, is_nil, nat_eq, string_eq, list_eq, option_eq, pair_eq, append_nil,
  append_one,
}
use mathlib.Core.Path.{subst}
use building_controls.Prelude.Dict.{Dict}
use building_controls.Prelude.Text.{Text}
use building_controls.Prelude.Table.{select}
use building_controls.Database.{AppUser, Database}
use building_controls.Auth.User.{parse_role}
use building_controls.Auth.Password.{Error, Result, ok, raise}
use building_controls.Auth.Accounts.{Action, ◌>>=◌, pure, create_user, new_row}
use building_controls.Auth.Accounts.Changes.{create_user_lem}
use building_controls.UserAdmin.Rows.{Row, fails, rows, read_rows, Parsed}
use building_controls.UserAdmin.Commands.{
  Terminal, Report, End, finished, failed, raised, existing, password_of, issue, report_of,
  create_all, ended, exits, import_rows, import_csv,
}

-- an account made for a row: a name, a role, and a password to be replaced
abbrev pub MadeFor : Row → AppUser → Type 0
MadeFor r u =
    (u.username ≡ r.username)
    × (parse_role r.role ≡ some u.role)
    × (u.must_change_password ≡ true)
    × (u.active ≡ true)

abbrev pub MadeForAll : List Row → List AppUser → Type 0
MadeForAll [] [] = Unit
MadeForAll (r ∷ rs) (u ∷ us) = MadeFor r u × MadeForAll rs us
MadeForAll _ _ = ⊥

-- The accounts that were there, and after them one for each of these rows.
abbrev pub Added : List Row → Database → Database → Type 0
Added rs db db' = (us : List AppUser) × (db'.app_user ≡ db.app_user ++ us) × MadeForAll rs us

Added-none : (db : Database) → Added [] db db
Added-none db = ([], sym (append_nil db.app_user), tt)

Added-cons :
    (r : Row) (rs : List Row) (u : AppUser) (db db' db'' : Database)
    → MadeFor r u
    → db'.app_user ≡ db.app_user ++ u ∷ []
    → Added rs db' db''
    → Added (r ∷ rs) db db''
Added-cons r rs u db db' db'' made one (us, more, all) =
    (u ∷ us, more ∙ ap (λ l. l ++ us) one ∙ append_one db.app_user u us, (made, all))

-- Every row was made, or a first part of them was and the next one failed.
abbrev pub Loaded : List Row → Database → Result (List (String × Text)) × Database → Type 0
Loaded rs db (ok issued, db') = Added rs db db'
Loaded rs db (raise e, db') =
    (before : List Row) × (refused : Row) × (after : List Row) × (rs ≡ before ++ refused ∷ after)
    × Added before db db'

bind_raise {ℓ κ} :
    {A : Type ℓ} {B : Type κ} (m : Action A) (f : A → Action B) (db : Database) (e : Error)
    → (m db).0 ≡ raise e
    → (m >>= f) db ≡ (raise e, (m db).1)
bind_raise m f db e h = rw (h, ◌>>=◌) refl

bind_ok {ℓ κ} :
    {A : Type ℓ} {B : Type κ} (m : Action A) (f : A → Action B) (db : Database) (a : A)
    → (m db).0 ≡ ok a
    → (m >>= f) db ≡ f a (m db).1
bind_ok m f db a h = rw (h, ◌>>=◌) refl

-- one more row in front
Loaded-cons :
    (r : Row) (rs : List Row) (u : AppUser) (db db' : Database) (issued : List (String × Text))
    (rest : Result (List (String × Text)) × Database)
    → MadeFor r u
    → db'.app_user ≡ db.app_user ++ u ∷ []
    → Loaded rs db' rest
    → Loaded (r ∷ rs) db (((λ _. rest) >>= λ more. pure (issued ++ more)) db')
Loaded-cons r rs u db db' issued (ok more, db'') made one h =
    Added-cons r rs u db db' db'' made one h
Loaded-cons r rs u db db' issued (raise e, db'') made one (before, refused, after, split, h) = (
  r ∷ before,
  refused,
  after,
  ap (λ l. r ∷ l) split,
  Added-cons r before u db db' db'' made one h,
)

create_all-Loaded :
    (t : Terminal) (k : ℕ) (rs : List Row) (db : Database) → Loaded rs db (create_all t k rs db)
unfolding create_all
create_all-Loaded t k [] db = Added-none db
create_all-Loaded t k (r ∷ rs) db =
    let m : Action ℕ =
      create_user t.scrypt (t.salt k) r.username (password_of t k r) r.role r.display_name r.zones
        "cli" true in
    let f : ℕ → Action (List (String × Text)) =
      λ _. create_all t (suc k) rs >>= λ more. pure (issue t k r ++ more) in
    elim (create_user_lem t.scrypt (t.salt k) r.username (password_of t k r) r.role r.display_name
      r.zones "cli" true db) [
        | inr ((e, refused), same) ↦
            subst (Loaded (r ∷ rs) db) (sym (bind_raise m f db e refused))
              ([], r, rs, refl, subst (Added [] db) (sym same) (Added-none db))
        | inl (id, made, (role, hashed, known, _, _, _, grown)) ↦
            subst (Loaded (r ∷ rs) db) (sym (bind_ok m f db id made)) (
              Loaded-cons r rs (new_row id r.username r.display_name hashed role true) db (m db).1
                (issue t k r) (create_all t (suc k) rs (m db).1) (refl, known, refl, refl) grown
                (create_all-Loaded t (suc k) rs (m db).1))
      ]

-- the rows of a file whose accounts are still to be made
abbrev pub missing : Database → List Row → List Row
missing db rs = select (λ r. not (existing db r)) rs

-- What an import did: it read no file and wrote nothing; or it made an account for each of the rows
-- that had none, or for none of them on a dry run; or the creation of one raised.
abbrev pub Imported : Bool → Parsed → Database → End × Database → Type 0
Imported dry_run (fails f) db (end, db') = (end ≡ failed f) × (db' ≡ db)
Imported true (rows rs) db (end, db') = ((report : Report) × (end ≡ finished report)) × (db' ≡ db)
Imported false (rows rs) db (finished report, db') =
    (report.new ≡ map (λ r. r.username) (missing db rs)) × Added (missing db rs) db db'
Imported false (rows rs) db (raised e, db') =
    (before : List Row) × (refused : Row) × (after : List Row) × (missing db rs
      ≡ before ++ refused ∷ after)
    × Added before db db'
Imported false (rows rs) db (exits n, db') = ⊥
Imported false (rows rs) db (failed f, db') = ⊥

ended-Imported :
    (rs : List Row) (db : Database) (report : Report)
    (result : Result (List (String × Text)) × Database)
    → report.new ≡ map (λ r. r.username) (missing db rs)
    → Loaded (missing db rs) db result
    → Imported false (rows rs) db (ended report result)
ended-Imported rs db report (ok issued, db') new h = (new, h)
ended-Imported rs db report (raise e, db') new h = h

nil_of_is_nil : (rs : List Row) → is_nil rs ≡ true → rs ≡ []
nil_of_is_nil [] h = refl
nil_of_is_nil (r ∷ rs) h = ground arith

import_rows-Imported :
    (t : Terminal) (dry_run : Bool) (rs : List Row) (db : Database)
    → Imported dry_run (rows rs) db (import_rows t dry_run rs db)
unfolding import_rows
import_rows-Imported t true rs db = ((_, refl), refl)
import_rows-Imported t false rs db = elim (Bool-cases (is_nil (missing db rs))) [
  | inl none_new ↦
      rw (none_new, import_rows)
        (refl, subst (λ l. Added l db db) (sym (nil_of_is_nil _ none_new)) (Added-none db))
  | inr some_new ↦
      rw (some_new, import_rows)
        (ended-Imported rs db (report_of t db rs) (create_all t 0 (missing db rs) db) refl
          (create_all-Loaded t 0 (missing db rs) db))
]

-- An import keeps every account that there was, as it was. A file that is refused writes nothing, and
-- neither does a dry run. Otherwise the rows whose names no account has are the new ones: the import
-- either makes an active account for each of them, in their order, with the role of the row and a
-- password that its owner has to replace, and reports exactly them as new; or the creation of one of
-- them raises, and then just the ones before it have been made.
pub import_csv_lem :
    (t : Terminal) (dry_run : Bool) (fieldnames : List String) (lines : List (Dict String String))
    (db : Database)
    → Imported dry_run
        (read_rows t.lower fieldnames lines)
        db
        (import_csv t dry_run fieldnames lines db)
unfolding import_csv
import_csv_lem t dry_run fieldnames lines db = go (read_rows t.lower fieldnames lines) refl
  where
    go :
        (parsed : Parsed)
        → read_rows t.lower fieldnames lines ≡ parsed
        → Imported dry_run parsed db (import_csv t dry_run fieldnames lines db)
    go (fails f) e = rw (e, import_csv) (refl, refl)
    go (rows rs) e = rw (e, import_csv) (import_rows-Imported t dry_run rs db)
