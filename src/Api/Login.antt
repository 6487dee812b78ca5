-- ===== src/Api/Login.antt =====
-- Signing in (bms/api.py `login`): the throttle, the check of the password, the session and where the
-- browser is sent. The page for a refused login is its status.
pub mod Entry
use building_controls.Prelude.{
  ℕ, Bool, false, ◌&&◌, not, String, Option, none, some, List, [], ◌∷◌, nat_beq, if◌then◌else◌, Eq,
  nat_eq, string_eq, list_eq, option_eq, pair_eq,
}
use building_controls.Prelude.Text.{Text, codes}
use building_controls.Database.{Database, log, log_as}
use building_controls.Auth.User.{User}
use building_controls.Auth.Throttle.{LoginThrottle, blocked, record_failure, clear}
use building_controls.Auth.Password.{Error, Result, Scrypt}
use building_controls.Auth.Accounts.{authenticate, create_session}

pub record Gate : Type 0 where
  pub throttle : LoginThrottle
  pub db : Database

pub data Login : Type 0 where
  -- the session's token and the target of the redirect
  signed_in : String → Text → Login
  turned_away : ℕ → Login
  raised : Error → Login

abbrev pub slash : ℕ
slash = b'/'

-- `next.startswith("/") and not next.startswith("//")`
abbrev pub is_relative : Text → Bool
is_relative [] = false
is_relative (c ∷ []) = nat_beq c slash
is_relative (c ∷ d ∷ s) = nat_beq c slash && not (nat_beq d slash)

unfoldable pub target_of : Text → User → Text
target_of next u =
    if u.must_change_password
    then codes "/ui/password"
    else (if is_relative next then next else codes "/")

module _ (lower hash_token : String → String) (username client : String) (next : Text) where
  -- once the session is created, or not
  unfoldable pub enter : User → LoginThrottle → Result String × Database → Login × Gate
  unfolding target_of
  enter u t (Result.ok token, db) = (
    signed_in token (target_of next u),
    record { throttle = t; db = log u.username "login.ok" (some client) db },
  )
  enter u t (Result.raise e, db) = (raised e, record { throttle = t; db = db })

  -- once the password is checked
  unfoldable pub checked :
      String → ℕ → Option String → LoginThrottle → Result (Option User) × Database → Login × Gate
  unfolding enter
  checked token now agent t (Result.raise e, db) = (raised e, record { throttle = t; db = db })
  checked token now agent t (Result.ok none, db) = (
    turned_away 401,
    record {
      throttle = record_failure lower username client now t;
      db = log_as "error" username "login.failed" (some client) db;
    },
  )
  checked token now agent t (Result.ok (some u), db) =
      enter u (clear lower username client t) (create_session hash_token token now u agent db)

  unfoldable pub login : Scrypt → List ℕ → String → ℕ → Option String → Text → Gate → Login × Gate
  unfolding checked
  login scrypt salt token now agent password g =
      let asked = blocked lower username client now g.throttle in
      if asked.0
      then (
        turned_away 429,
        record {
          throttle = asked.1;
          db = log_as "error" username "login.throttled" (some client) g.db;
        },
      )
      else checked token now agent asked.1 (authenticate scrypt salt now username password g.db)
