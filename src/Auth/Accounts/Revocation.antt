-- ===== src/Auth/Accounts/Revocation.antt =====
-- A change of password and a deactivation end every session of the account.
use building_controls.Prelude.{
  ℕ, ◌≡◌, refl, ◌≢◌, ◌⊎◌, inl, inr, Bool, true, false, ◌&&◌, not, String, Option, none, some, List,
  [], ◌∷◌, arith, ltb, Bool-cases, Option-cases, ne_of_beq, is_some, ◌==◌, nat_eq, string_eq,
  list_eq, option_eq, pair_eq,
}
use building_controls.Prelude.Text.{Text}
use building_controls.Prelude.Table.{fetch_one, delete, update, count, exists, fetch_one-holds}
use building_controls.Database.{AppUser, Session, Database, same_name, log}
use building_controls.Auth.User.{User}
use building_controls.Auth.Password.{
  Result, ok, Scrypt, hash_password, verify_password, Result-cases,
}
use building_controls.Auth.Accounts.{
  named, owner, get_or, revoke_all_sessions, deactivate, set_password, write_password,
  change_own_password, replace_password, resolve_session,
}

abbrev pub belongs : String → Option User → Bool
belongs username none = false
belongs username (some u) = same_name u.username username

-- no token resolves to an account of this name, at any time
abbrev pub Revoked : String → Database → Type 0
Revoked username db =
    (hash_token : String → String) (token : String) (now : ℕ)
    → belongs username (resolve_session hash_token token now db).0 ≡ false

-- no session of the table leads to an active row of this name
abbrev NoneLeft : String → Database → Type 0
NoneLeft username db =
    (q : Session → Bool) (s : Session) (r : AppUser)
    → fetch_one q db.session ≡ some s
    → owner db s ≡ some r
    → named username r ≡ false

NoneLeft-Revoked : (username : String) (db : Database) → NoneLeft username db → Revoked username db
unfolding resolve_session
NoneLeft-Revoked username db h hash_token token now =
    let q = λ (s : Session). s.token_hash == hash_token token && is_some (owner db s) in
    elim (Option-cases (fetch_one q db.session)) [
      | inl absent ↦ ground arith
      | inr (s, found) ↦ elim (Option-cases (owner db s)) [
        | inl none_ ↦ ground (arith, fetch_one-holds q db.session s found)
        | inr (r, owns) ↦ ground (arith, h q s r found owns)
      ]
    ]

fetch_one-delete_fails :
    (q p : Session → Bool) (t : List Session) (s : Session)
    → fetch_one q (delete p t) ≡ some s
    → p s ≡ false
fetch_one-delete_fails q p [] s h = ground arith
fetch_one-delete_fails q p (x ∷ t) s h = ground (arith, fetch_one-delete_fails q p t s)

found-exists :
    (p q : AppUser → Bool) (t : List AppUser) (r : AppUser)
    → fetch_one p t ≡ some r
    → q r ≡ true
    → exists q t ≡ true
found-exists p q [] r h k = ground arith
found-exists p q (x ∷ t) r h k = ground (arith, found-exists p q t r)

revoke_all-NoneLeft :
    (username : String) (db : Database) → NoneLeft username (revoke_all_sessions username db)
unfolding revoke_all_sessions
revoke_all-NoneLeft username db q s r found owns =
    let p = λ (u : AppUser). u.id == s.user_id && named username u in
    let gone =
      fetch_one-delete_fails q
        (λ s. exists (λ u. u.id == s.user_id && named username u) db.app_user) db.session s found in
    let mine = fetch_one-holds (λ u. u.id == s.user_id && u.active) db.app_user r owns in
    let still = found-exists (λ u. u.id == s.user_id && u.active) p db.app_user r owns in
    ground arith

write_password-Revoked :
    (scrypt : Scrypt) (username : String) (hashed : Text) (must : Bool) (actor : String)
    (db : Database)
    → (write_password scrypt username hashed must actor db).0 ≡ ok true
    → Revoked username (write_password scrypt username hashed must actor db).1
unfolding write_password
write_password-Revoked scrypt username hashed must actor db h =
    elim (Bool-cases (ltb 0 (count (named username) db.app_user))) [
      | inl some_row ↦
          let db' : Database = record db {
            app_user =
                update (named username)
                  (λ r. record r { password_hash = hashed; must_change_password = must })
                  db.app_user;
          } in
          rw some_row (
            NoneLeft-Revoked username
              (log actor "user.set_password" (some username) (revoke_all_sessions username db'))
              (revoke_all-NoneLeft username db'))
      | inr no_row ↦ ground arith
    ]

-- When `set_password` returns true, no session, whatever its token and the time, leads to an account
-- of that name any more.
pub set_password-Revoked :
    (scrypt : Scrypt) (lower : String → String) (salt : List ℕ) (username : String)
    (password : Text) (actor : String) (must_change : Option Bool) (db : Database)
    → (set_password scrypt lower salt username password actor must_change db).0 ≡ ok true
    → Revoked username (set_password scrypt lower salt username password actor must_change db).1
unfolding set_password
set_password-Revoked scrypt lower salt username password actor must_change db h =
    elim (Result-cases (hash_password scrypt salt password)) [
      | inl (hashed, made) ↦
          let must = get_or (not (lower actor == lower username)) must_change in
          rw (made, set_password)
            (write_password-Revoked scrypt username hashed must actor db
              (rw (made, set_password) at h))
      | inr (e, failed) ↦ ground arith
    ]

abbrev pub held_by : String → Database → Session → Bool
held_by username db s = exists (λ u. u.id == s.user_id && named username u) db.app_user

count-delete_self : (p : Session → Bool) (t : List Session) → count p (delete p t) ≡ 0
count-delete_self p [] = refl
count-delete_self p (s ∷ t) = ground (arith, count-delete_self p t)

none_active :
    (username : String) (t : List AppUser)
    → fetch_one
        (λ r. named username r && r.active)
        (update (named username) (λ r. record r { active = false }) t)
      ≡ none
none_active username [] = refl
none_active username (r ∷ t) = elim (Bool-cases (named username r)) [
  | inl mine ↦ rw (mine, fetch_one) (rw (mine, fetch_one) (none_active username t))
  | inr other ↦ rw (other, fetch_one) (rw (other, fetch_one) (none_active username t))
]

-- When `deactivate` returns true, no session of an account of that name is stored any more, none leads
-- to one, and no active account of that name is left to sign in to.
pub deactivate-Revoked :
    (username actor : String) (db : Database)
    → (deactivate username actor db).0 ≡ true
    → let db' = (deactivate username actor db).1 in
      Revoked username db'
      × (count (held_by username db') db'.session ≡ 0)
      × (fetch_one (λ r. named username r && r.active) db'.app_user ≡ none)
unfolding deactivate revoke_all_sessions
deactivate-Revoked username actor db h =
    elim (Bool-cases (ltb 0 (count (named username) db.app_user))) [
      | inl some_row ↦
          let db' : Database = record db {
            app_user = update (named username) (λ r. record r { active = false }) db.app_user;
          } in
          rw some_row (
            NoneLeft-Revoked username
                (log actor "user.deactivate" (some username) (revoke_all_sessions username db'))
                (revoke_all-NoneLeft username db'),
            count-delete_self (held_by username db') db.session,
            none_active username db.app_user,
          )
      | inr no_row ↦ ground arith
    ]

-- the ways in which `replace_password` and `change_own_password` can end
abbrev pub Unchanged : Result Bool × Database → Database → Type 0
Unchanged (result, db') db = (result ≢ ok true) × (db' ≡ db)

abbrev pub Replaced : String → Result Bool × Database → Type 0
Replaced username (result, db') = (result ≡ ok true) × Revoked username db'

replace_password_lem :
    (scrypt : Scrypt) (salt : List ℕ) (user : User) (current new : Text) (db : Database)
    → ((current ≢ new) × Replaced user.username (replace_password scrypt salt user current new db))
      ⊎ Unchanged (replace_password scrypt salt user current new db) db
unfolding replace_password
replace_password_lem scrypt salt user current new db = elim (Bool-cases (current == new)) [
  | inl same ↦ rw (same, replace_password) (inr ((λ h. ground arith), refl))
  | inr differs ↦ elim (Result-cases (hash_password scrypt salt new)) [
    | inr (e, failed) ↦
        rw (differs, replace_password)
          (rw (failed, replace_password) (inr ((λ h. ground arith), refl)))
    | inl (hashed, made) ↦
        let db' : Database = record db {
          app_user =
              update (λ r. r.id == user.id)
                (λ r. record r { password_hash = hashed; must_change_password = false })
                db.app_user;
        } in
        rw (differs, replace_password)
          (rw (made, replace_password)
            (inl (
              ne_of_beq current new differs,
              (
                refl,
                NoneLeft-Revoked user.username
                    (log user.username "user.password_changed" none
                      (revoke_all_sessions user.username db'))
                    (revoke_all-NoneLeft user.username db'),
              ),
            )))
  ]
]

-- `change_own_password` returns true only if the account exists, the current password verifies against
-- its stored hash and the new one differs, and then no session of the account is left. In every other
-- case, whether it returns false or raises, the database is unchanged.
pub change_own_password_lem :
    (scrypt : Scrypt) (salt : List ℕ) (user : User) (current new : Text) (db : Database)
    → ((r : AppUser) × (fetch_one (λ u. u.id == user.id) db.app_user ≡ some r)
        × (verify_password scrypt current r.password_hash ≡ ok true)
        × (current ≢ new)
        × Replaced user.username (change_own_password scrypt salt user current new db))
      ⊎ Unchanged (change_own_password scrypt salt user current new db) db
unfolding change_own_password
change_own_password_lem scrypt salt user current new db =
    elim (Option-cases (fetch_one (λ u. u.id == user.id) db.app_user)) [
      | inl absent ↦ rw (absent, change_own_password) (inr ((λ h. ground arith), refl))
      | inr (r, found) ↦ elim (Result-cases (verify_password scrypt current r.password_hash)) [
        | inr (e, failed) ↦
            rw (found, change_own_password)
              (rw (failed, change_own_password) (inr ((λ h. ground arith), refl)))
        | inl (false, bad) ↦
            rw (found, change_own_password)
              (rw (bad, change_own_password) (inr ((λ h. ground arith), refl)))
        | inl (true, good) ↦
            rw (found, change_own_password)
              (rw (good, change_own_password)
                (elim (replace_password_lem scrypt salt user current new db) [
                  | inl (differs, done) ↦ inl (r, refl, good, differs, done)
                  | inr kept ↦ inr kept
                ]))
      ]
    ]
