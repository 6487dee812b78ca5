-- ===== src/Auth/Accounts/Refusals.antt =====
-- Calls on an account that do not succeed leave the database as it was.
use building_controls.Prelude.{
  ℕ, ◌≡◌, refl, ap, ◌≢◌, inl, inr, Bool, true, not, String, Option, List, arith, ltb, Bool-cases,
  Option-cases, ◌==◌, nat_eq, string_eq, list_eq, option_eq, pair_eq,
}
use building_controls.Prelude.Text.{Text}
use building_controls.Prelude.Table.{count, exists, update-count_zero}
use building_controls.Database.{Database}
use building_controls.Auth.User.{parse_role}
use building_controls.Auth.Password.{Error, ok, raise, Result-cases, Scrypt, hash_password}
use building_controls.Auth.Accounts.{named, create_user, write_password, set_password, get_or}

pub create_user-same :
    (scrypt : Scrypt) (salt : List ℕ) (username : String) (password : Text)
    (role display_name : String) (zones : List String) (actor : String) (must : Bool)
    (db : Database) (e : Error)
    → (create_user scrypt salt username password role display_name zones actor must db).0 ≡ raise e
    → (create_user scrypt salt username password role display_name zones actor must db).1 ≡ db
unfolding create_user
create_user-same scrypt salt username password role display_name zones actor must db e h =
    elim (Option-cases (parse_role role)) [
      | inl unknown ↦ rw (unknown, create_user) refl
      | inr (r, known) ↦ elim (Result-cases (hash_password scrypt salt password)) [
        | inr (f, fails) ↦ rw (known, create_user) (rw (fails, create_user) refl)
        | inl (hashed, hashes) ↦
            let g = rw (hashes, create_user) at (rw (known, create_user) at h) in
            rw (known, create_user)
              (rw (hashes, create_user)
                (elim (Bool-cases (exists (named username) db.app_user)) [
                  | inl taken ↦ rw taken refl
                  | inr free ↦ let g' = rw free at g in ground arith
                ]))
      ]
    ]

write_password-same :
    (scrypt : Scrypt) (username : String) (hashed : Text) (must : Bool) (actor : String)
    (db : Database)
    → (write_password scrypt username hashed must actor db).0 ≢ ok true
    → (write_password scrypt username hashed must actor db).1 ≡ db
unfolding write_password
write_password-same scrypt username hashed must actor db h =
    elim (Bool-cases (ltb 0 (count (named username) db.app_user))) [
      | inl found ↦ absurd (h (rw found refl))
      | inr missing ↦ rw missing (
          ap (λ t. record db { app_user = t })
            (update-count_zero (named username)
              (λ r. record r { password_hash = hashed; must_change_password = must }) db.app_user
              missing))
    ]

pub set_password-same :
    (scrypt : Scrypt) (lower : String → String) (salt : List ℕ) (username : String)
    (password : Text) (actor : String) (must : Option Bool) (db : Database)
    → (set_password scrypt lower salt username password actor must db).0 ≢ ok true
    → (set_password scrypt lower salt username password actor must db).1 ≡ db
unfolding set_password
set_password-same scrypt lower salt username password actor must db h =
    elim (Result-cases (hash_password scrypt salt password)) [
      | inr (e, fails) ↦ rw (fails, set_password) refl
      | inl (hashed, hashes) ↦
          let change = get_or (not (lower actor == lower username)) must in
          rw (hashes, set_password)
            (write_password-same scrypt username hashed change actor db
              (λ done. h (rw (hashes, set_password) done)))
    ]
