-- ===== src/Auth/Accounts.antt =====
-- `AuthStore` (bms/auth.py): users and sessions over the database. A call returns or raises, and the
-- database comes back beside either. The derivation of keys, the digest of tokens and `str.lower` are
-- parameters; the salt, the token and the clock of a call are its arguments. An `IntegrityError` of
-- SQLite is `other_error`.
pub mod Revocation
pub mod Sessions
pub mod Changes
pub mod Refusals
pub mod Renewal
use building_controls.Prelude.{
  ℕ, ◌+◌, min, ap, Bool, true, false, ◌&&◌, ◌||◌, not, String, Option, none, some, List, [], ◌∷◌,
  ◌++◌, map, ltb, if◌then◌else◌, is_some, Eq, ◌==◌, nat_eq, string_eq, list_eq, option_eq, pair_eq,
}
use building_controls.Prelude.Text.{Text, codes}
use building_controls.Prelude.Table.{select, fetch_one, delete, update, count, exists}
use building_controls.Database.{Role, AppUser, UserZone, Session, Database, log, same_name}
use building_controls.Auth.User.{User, parse_role}
use building_controls.Auth.Password.{
  Error, value_error, other_error, Result, ok, raise, Scrypt, hash_password, verify_password,
  needs_rehash,
}

-- 30 days
abbrev pub session_ttl : ℕ
session_ttl = 2592000000

abbrev pub Action {ℓ} : Type ℓ → Type ℓ
Action A = Database → Result A × Database

infixl 5 ◌>>=◌
abbrev pub ◌>>=◌ {ℓ κ} : {A : Type ℓ} {B : Type κ} → Action A → (A → Action B) → Action B
◌>>=◌ m f db = let (r, db') = m db in elim r [ ok a ↦ f a db' | raise e ↦ (raise e, db') ]

abbrev pub pure {ℓ} : {A : Type ℓ} → A → Action A
pure a db = (ok a, db)

abbrev pub throw {ℓ} : {A : Type ℓ} → Error → Action A
throw e db = (raise e, db)

abbrev pub lift {ℓ} : {A : Type ℓ} → Result A → Action A
lift r db = (r, db)

-- `INSERT OR IGNORE INTO user_zone`
abbrev pub insert_zone : ℕ → String → List UserZone → List UserZone
insert_zone user_id zone t =
    if exists (λ r. r.user_id == user_id && r.zone == zone) t
    then t
    else t ++ record { user_id = user_id; zone = zone } ∷ []

abbrev pub insert_zones : ℕ → List String → List UserZone → List UserZone
insert_zones user_id [] t = t
insert_zones user_id (z ∷ zs) t = insert_zones user_id zs (insert_zone user_id z t)

abbrev pub named : String → AppUser → Bool
named username r = same_name r.username username

abbrev pub get_or : Bool → Option Bool → Bool
get_or b none = b
get_or b (some c) = c

abbrev pub or_else : String → String → String
or_else a b = if a == "" then b else a

-- the values of the `INSERT` into `app_user`, with the column defaults
abbrev pub new_row : ℕ → String → String → Text → Role → Bool → AppUser
new_row id username display_name hashed role must_change = record {
  id = id;
  username = username;
  display_name = or_else display_name username;
  password_hash = hashed;
  role = role;
  active = true;
  last_login = none;
  must_change_password = must_change;
}

abbrev pub load : AppUser → Database → User
load r db = record {
  id = r.id;
  username = r.username;
  display_name = r.display_name;
  role = r.role;
  zones = map (λ z. z.zone) (select (λ z. z.user_id == r.id) db.user_zone);
  must_change_password = r.must_change_password;
}

abbrev pub loaded : Option AppUser → Database → Option User
loaded none db = none
loaded (some r) db = some (load r db)

-- the row of the join of `session` and `app_user` for one session
abbrev pub owner : Database → Session → Option AppUser
owner db s = fetch_one (λ u. u.id == s.user_id && u.active) db.app_user

unfoldable pub revoke_all_sessions : String → Database → Database
revoke_all_sessions username db = record db {
  session =
      delete (λ s. exists (λ u. u.id == s.user_id && named username u) db.app_user) db.session;
}

unfoldable pub purge_expired_sessions : ℕ → Database → ℕ × Database
purge_expired_sessions now db =
    let expired = λ (s : Session). ltb s.expires_at now in
    (count expired db.session, record db { session = delete expired db.session })

unfoldable pub set_zones : String → List String → String → Database → Bool × Database
set_zones username zones actor db = elim (fetch_one (named username) db.app_user) [
  | none ↦ (false, db)
  | some r ↦ (
    true,
    log actor "user.set_zones" (some username) (record db {
      user_zone = insert_zones r.id zones (delete (λ z. z.user_id == r.id) db.user_zone);
    }),
  )
]

unfoldable pub deactivate : String → String → Database → Bool × Database
unfolding revoke_all_sessions
deactivate username actor db =
    let db' = record db {
      app_user = update (named username) (λ r. record r { active = false }) db.app_user;
    } in
    if ltb 0 (count (named username) db.app_user)
    then (true, log actor "user.deactivate" (some username) (revoke_all_sessions username db'))
    else (false, db')

module _ (scrypt : Scrypt) where
  unfoldable pub create_user :
      List ℕ → String → Text → String → String → List String → String → Bool → Action ℕ
  create_user salt username password role display_name zones actor must_change db =
      elim (parse_role role) [
        | none ↦ (raise value_error, db)
        | some r ↦ elim (hash_password scrypt salt password) [
          | raise e ↦ (raise e, db)
          | ok hashed ↦ if exists (named username) db.app_user then (raise other_error, db) else (
            ok db.next_user,
            log actor "user.create" (some username) (record db {
              app_user =
                  db.app_user
                  ++ new_row db.next_user username display_name hashed r must_change ∷ [];
              next_user = db.next_user + 1;
              user_zone = insert_zones db.next_user zones db.user_zone;
            }),
          )
        ]
      ]

  -- the `UPDATE` of `set_password`, and what follows it
  write_password : String → Text → Bool → String → Action Bool
  unfolding revoke_all_sessions
  write_password username hashed must_change actor db =
      let db' = record db {
        app_user =
            update (named username)
              (λ r. record r { password_hash = hashed; must_change_password = must_change })
              db.app_user;
      } in
      if ltb 0 (count (named username) db.app_user)
      then (
        ok true,
        log actor "user.set_password" (some username) (revoke_all_sessions username db'),
      )
      else (ok false, db')

  unfoldable pub set_password :
      (String → String) → List ℕ → String → Text → String → Option Bool → Action Bool
  unfolding write_password
  set_password lower salt username password actor must_change db =
      let must = get_or (not (lower actor == lower username)) must_change in
      elim (hash_password scrypt salt password) [
        | raise e ↦ (raise e, db)
        | ok hashed ↦ write_password username hashed must actor db
      ]

  -- the body of `change_own_password` once the current password is verified
  replace_password : List ℕ → User → Text → Text → Action Bool
  unfolding revoke_all_sessions
  replace_password salt user current new db =
      if current == new then (raise value_error, db) else elim (hash_password scrypt salt new) [
        | raise e ↦ (raise e, db)
        | ok hashed ↦ (
          ok true,
          log user.username "user.password_changed" none (
              revoke_all_sessions user.username (record db {
                app_user =
                    update (λ r. r.id == user.id)
                      (λ r. record r { password_hash = hashed; must_change_password = false })
                      db.app_user;
              })),
        )
      ]

  unfoldable pub change_own_password : List ℕ → User → Text → Text → Action Bool
  unfolding replace_password
  change_own_password salt user current new db =
      elim (fetch_one (λ r. r.id == user.id) db.app_user) [
        | none ↦ (ok false, db)
        | some r ↦ elim (verify_password scrypt current r.password_hash) [
          | raise e ↦ (raise e, db)
          | ok verified ↦
              if verified then replace_password salt user current new db else (ok false, db)
        ]
      ]

  -- the upgrade of a hash that predates the current cost
  unfoldable pub upgrade : List ℕ → AppUser → Text → Action (Unit {0})
  upgrade salt r password db = elim (needs_rehash r.password_hash) [
    | raise e ↦ (raise e, db)
    | ok old ↦
        if old
        then elim (hash_password scrypt salt password) [
          | raise e ↦ (raise e, db)
          | ok hashed ↦ (
            ok tt,
            record db {
              app_user =
                  update (λ u. u.id == r.id) (λ u. record u { password_hash = hashed }) db.app_user;
            },
          )
        ]
        else (ok tt, db)
  ]

  abbrev pub admitted : AppUser → ℕ → Database → Result (Option User) × Database
  admitted r now db =
      let db' = record db {
        app_user = update (λ u. u.id == r.id) (λ u. record u { last_login = some now }) db.app_user;
      } in
      (ok (some (load r db')), db')

  -- the row that was read before the updates is the one that `_load` gets
  unfoldable pub authenticate : List ℕ → ℕ → String → Text → Action (Option User)
  unfolding upgrade
  authenticate salt now username password db =
      elim (fetch_one (λ r. named username r && r.active) db.app_user) [
        | none ↦ elim (hash_password scrypt salt (codes "timing-equalising-dummy-value")) [
          | raise e ↦ (raise e, db)
          | ok _ ↦ (ok none, db)
        ]
        | some r ↦ elim (verify_password scrypt password r.password_hash) [
          | raise e ↦ (raise e, db)
          | ok verified ↦
              if verified
              then (upgrade salt r password >>= λ _. admitted r now) db
              else (ok none, db)
        ]
      ]

module _ (hash_token : String → String) where
  -- The user is a row of `app_user`, as the foreign key asks, and the digest is new, as the primary
  -- key does; else SQLite raises.
  unfoldable pub create_session : String → ℕ → User → Option String → Action String
  create_session token now user user_agent db =
      if exists (λ s. s.token_hash == hash_token token) db.session
        || not (exists (λ u. u.id == user.id) db.app_user)
      then (raise other_error, db)
      else (
        ok token,
        record db {
          session =
              db.session
              ++ record {
                token_hash = hash_token token;
                user_id = user.id;
                expires_at = now + session_ttl;
                user_agent = user_agent;
              }
                ∷ [];
        },
      )

  unfoldable pub revoke_session : String → Database → Database
  revoke_session token db = record db {
    session = delete (λ s. s.token_hash == hash_token token) db.session;
  }

  unfoldable pub resolve_session : String → ℕ → Database → Option User × Database
  unfolding revoke_session
  resolve_session token now db =
      elim (fetch_one (λ s. s.token_hash == hash_token token && is_some (owner db s)) db.session) [
        | none ↦ (none, db)
        | some s ↦
            if ltb s.expires_at now
            then (none, revoke_session token db)
            else (loaded (owner db s) db, db)
      ]
