-- ===== src/Api/Account/Renewed.antt =====
-- A change of one's own password.
use building_controls.Prelude.{
  ℕ, ◌+◌, ◌≡◌, refl, sym, ap, ◌∙◌, ◌≢◌, ◌⊎◌, inl, inr, Bool, true, false, ◌&&◌, String, Option,
  none, some, List, arith, leb, if◌then◌else◌, ◌==◌, nat_eq, string_eq, list_eq, option_eq, pair_eq,
}
use mathlib.Core.Path.{subst}
use building_controls.Prelude.Text.{Text}
use building_controls.Prelude.Table.{fetch_one}
use building_controls.Database.{AppUser, Database}
use building_controls.Auth.User.{User}
use building_controls.Auth.Password.{
  Error, value_error, type_error, other_error, Result, ok, raise, Scrypt, Result-cases,
}
use building_controls.Auth.Accounts
use building_controls.Auth.Accounts.{create_session, resolve_session, session_ttl, load}
use building_controls.Auth.Accounts.Revocation.{belongs, Revoked, change_own_password_lem}
use building_controls.Auth.Accounts.Sessions.{create-resolve}
use building_controls.Auth.Accounts.Renewal.{other-create_session, change_own_password-IsRenewed}
use building_controls.Api.Caller.{Reply, refused}
use building_controls.Api.Account.{renewed, change_own_password}

-- The new token is the account's for thirty days, without a forced change; no other token is.
abbrev pub OnlySession : (String → String) → String → ℕ → String → AppUser → Database → Type 0
OnlySession hash_token token now username r db =
    ((user : User) × (user.username ≡ r.username)
      × (user.must_change_password ≡ false)
      × ((later : ℕ)
          → (resolve_session hash_token token later db).0
            ≡ (if leb later (now + session_ttl) then some user else none)))
    × ((other : String) (later : ℕ)
        → hash_token other ≢ hash_token token
        → belongs username (resolve_session hash_token other later db).0 ≡ false)

-- A change that was refused left the accounts and the sessions as they were. One that was made, and after
-- which the storing of the new session raised on the database that it left, is a 500 and leaves no session.
abbrev pub IsSafe :
    (String → String)
    → String
    → ℕ
    → User
    → Option String
    → Result Bool × Database
    → ℕ
    → Database
    → Database
    → Type 0
IsSafe hash_token token now u agent (outcome, changed) status db db' =
    ((outcome ≢ ok true) × (db'.app_user ≡ db.app_user) × (db'.session ≡ db.session))
    ⊎ ((outcome ≡ ok true)
        × ((e : Error) × ((create_session hash_token token now u agent changed).0 ≡ raise e))
        × (status ≡ 500)
        × Revoked u.username db')

token_returned :
    (hash_token : String → String) (token : String) (now : ℕ) (user : User) (agent : Option String)
    (db : Database) (t : String)
    → (create_session hash_token token now user agent db).0 ≡ ok t
    → t ≡ token
unfolding create_session
token_returned hash_token token now user agent db t h = ground arith

create_session-same :
    (hash_token : String → String) (token : String) (now : ℕ) (user : User) (agent : Option String)
    (db : Database) (e : Error)
    → (create_session hash_token token now user agent db).0 ≡ raise e
    → (create_session hash_token token now user agent db).1 ≡ db
unfolding create_session
create_session-same hash_token token now user agent db e h = ground arith

-- what a route does after the call has returned or raised
abbrev Ends :
    (String → String)
    → String
    → ℕ
    → User
    → Option String
    → AppUser
    → Database
    → Result Bool × Database
    → Reply String × Database
    → Type 0
Ends hash_token token now u agent r db change (reply, db') =
    ((reply ≡ Reply.ok token) × OnlySession hash_token token now u.username r db')
    ⊎ ((e : ℕ) × (reply ≡ refused e) × IsSafe hash_token token now u agent change e db db')

module _ (hash_token : String → String) (token : String) (now : ℕ) (u : User)
    (agent : Option String) (ip : String) where
  unchanged-Ends :
      (r : AppUser) (db : Database) (o : Result Bool × Database)
      → o.0 ≢ ok true
      → o.1 ≡ db
      → Ends hash_token token now u agent r db o (renewed hash_token token now u agent ip o)
  unchanged-Ends r db (ok true, db') not_done same = absurd (not_done refl)
  unchanged-Ends r db (ok false, db') not_done same =
      inr (403, refl, inl (not_done, ap (λ d. d.app_user) same, ap (λ d. d.session) same))
  unchanged-Ends r db (raise value_error, db') not_done same =
      inr (400, refl, inl (not_done, ap (λ d. d.app_user) same, ap (λ d. d.session) same))
  unchanged-Ends r db (raise type_error, db') not_done same =
      inr (500, refl, inl (not_done, ap (λ d. d.app_user) same, ap (λ d. d.session) same))
  unchanged-Ends r db (raise other_error, db') not_done same =
      inr (500, refl, inl (not_done, ap (λ d. d.app_user) same, ap (λ d. d.session) same))

  done-Ends :
      (r r' : AppUser) (db db1 : Database)
      → Revoked u.username db1
      → fetch_one (λ x. x.id == u.id && x.active) db1.app_user ≡ some r'
      → r'.username ≡ r.username
      → r'.must_change_password ≡ false
      → Ends hash_token token now u agent r db
          (ok true, db1)
          (renewed hash_token token now u agent ip (ok true, db1))
  done-Ends r r' db db1 revoked active name settled =
      elim (Result-cases (create_session hash_token token now u agent db1).0) [
        | inr (e, failed) ↦
            rw (failed, renewed)
              (inr (
                500,
                refl,
                inr (
                  refl,
                  (e, refl),
                  refl,
                  subst (Revoked u.username)
                      (sym (create_session-same hash_token token now u agent db1 e failed)) revoked,
                ),
              ))
        | inl (t, made) ↦
            let own = made ∙ ap ok (token_returned hash_token token now u agent db1 t made) in
            rw (own, renewed)
              (inl (
                refl,
                (
                  (
                    load r' db1,
                    name,
                    settled,
                    (λ later. create-resolve hash_token token now later u agent db1 r' active own),
                  ),
                  (λ other later apart.
                      ap (belongs u.username) (
                        other-create_session hash_token token other now later u agent db1 own apart)
                      ∙ revoked hash_token other later),
                ),
              ))
      ]

-- A change of one's own password that succeeds ends every session of the account but the new one that it
-- returns: its token resolves to the account for thirty days, with no change forced any more. Where it is
-- answered with a status, either the change was not made, and the accounts and the sessions are as they
-- were; or it was made, the storing of the new session raised, the status is 500, and no session of the
-- account is left.
pub change_own_password-Ends :
    (scrypt : Scrypt) (hash_token : String → String) (salt : List ℕ) (token : String) (now : ℕ)
    (u : User) (agent : Option String) (ip : String) (current new : Text) (db : Database)
    (r : AppUser)
    → fetch_one (λ x. x.id == u.id && x.active) db.app_user ≡ some r
    → let (reply, db') =
        change_own_password scrypt hash_token salt token now u agent ip current new db in
      ((reply ≡ Reply.ok token) × OnlySession hash_token token now u.username r db')
      ⊎ ((e : ℕ) × (reply ≡ refused e)
          × IsSafe hash_token token now u agent
              (Accounts.change_own_password scrypt salt u current new db)
              e
              db
              db')
unfolding change_own_password
change_own_password-Ends scrypt hash_token salt token now u agent ip current new db r active =
    let o = Accounts.change_own_password scrypt salt u current new db in
    elim (change_own_password_lem scrypt salt u current new db) [
      | inr (not_done, same) ↦ unchanged-Ends hash_token token now u agent ip r db o not_done same
      | inl (_, _, _, _, (done, revoked)) ↦
          let (r', active', (_, name, settled)) =
            change_own_password-IsRenewed scrypt salt u current new db r done active in
          rw done
            (done-Ends hash_token token now u agent ip r r' db o.1 revoked active' name settled)
    ]
