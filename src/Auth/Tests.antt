-- ===== src/Auth/Tests.antt =====
-- Accounts, sessions and the throttle on a small database: instances of the theorems.
use building_controls.Prelude.{
  ℕ, ◌%◌, ◌≤◌, ◌<◌, ◌≡◌, refl, sym, ◌↔◌, true, false, String, none, some, List, [], ◌∷◌, arith, leb,
  length, All, nat_eq, string_eq, list_eq, option_eq, pair_eq,
}
use building_controls.Prelude.Int.{ℤ}
use building_controls.Prelude.Text.{Text, codes}
use building_controls.Database.{admin, manager, tenant, AppUser, Session, Database, new_database}
use building_controls.Auth.User.{User, at_least, at_least_order, at_least-admin_iff, parse_role}
use building_controls.Auth.Throttle.{new_throttle, blocked, key_of}
use building_controls.Auth.Throttle.History.{
  Event, asked, failed, run, history, younger, blocked-run,
}
use building_controls.Auth.Password.Hex.{Byte, hex, hex_digit, from_hex, from_hex-hex}
use building_controls.Auth.Password.{
  Result, ok, Scrypt, hash_password, verify_password, needs_rehash, scrypt_n, scrypt_r, scrypt_p,
  dklen,
}
use building_controls.Auth.Password.Laws.{hash-verify}
use building_controls.Auth.Accounts.{
  load, create_user, set_password, authenticate, create_session, resolve_session,
}
use building_controls.Auth.Accounts.Revocation.{Revoked, set_password-Revoked}
use building_controls.Auth.Accounts.Sessions.{create-resolve}
use building_controls.Auth.Accounts.Changes.{create-authenticate}

-- a derivation of one byte
abbrev toy_scrypt : Scrypt
toy_scrypt password salt n r p len = ok (length password % 256 ∷ [])

toy_bytes :
    (password : Text) (salt : List ℕ) (n r p : ℤ) (len : ℕ) (key : List ℕ)
    → toy_scrypt password salt n r p len ≡ ok key
    → All Byte key
toy_bytes password salt n r p len key h =
    one key (length password % 256) (omega arith) (ground arith)
  where
    one : (k : List ℕ) (b : ℕ) → b < 256 → b ∷ [] ≡ k → All Byte k
    one k b lt e = rw (sym e) (lt, tt)

abbrev toy_digest : String → String
toy_digest s = s

abbrev password : Text
password = codes "longenough"

abbrev salt : List ℕ
salt = 1 ∷ 255 ∷ []

abbrev stored : Text
stored = codes "scrypt$131072$8$1$01ff$0a"

abbrev ann : AppUser
ann = record {
  id = 7;
  username = "Ann";
  display_name = "Ann";
  password_hash = stored;
  role = tenant;
  active = true;
  last_login = none;
  must_change_password = false;
}

abbrev session : Session
session = record { token_hash = "tok"; user_id = 7; expires_at = 5000; user_agent = none }

abbrev db : Database
db = record new_database { app_user = ann ∷ []; next_user = 8; session = session ∷ [] }

abbrev ann_user : User
ann_user = load ann db

at_least_order_example : at_least (record ann_user { role = admin }) tenant ≡ true
unfolding at_least
at_least_order_example =
    at_least_order (record ann_user { role = admin }) manager tenant (omega arith) refl

at_least-admin_iff_example : (at_least ann_user admin ≡ true) ↔ (tenant ≡ admin)
at_least-admin_iff_example = at_least-admin_iff ann_user

abbrev same_case : String → String
same_case s = s

abbrev guesses : List Event
guesses =
    failed "ann" "10.0.0.9" 1000 ∷ asked "ann" "10.0.0.9" 2000 ∷ failed "ann" "10.0.0.9" 2500 ∷ []

blocked-run_example :
    (blocked same_case "ann" "10.0.0.9" 3000 (run same_case guesses (new_throttle 2 5000))).0
    ≡ leb 2 (younger 5000 3000 (history same_case (key_of same_case "ann" "10.0.0.9") guesses []))
blocked-run_example =
    blocked-run same_case 2 5000 guesses "ann" "10.0.0.9" 3000
      (omega arith, (omega arith, (omega arith, omega arith)))

from_hex-hex_example : from_hex (hex salt) ≡ some salt
from_hex-hex_example = from_hex-hex salt (omega arith, (omega arith, tt))

hash-verify_example :
    (8 ≤ length password)
    × (needs_rehash stored ≡ ok false)
    × (verify_password toy_scrypt password stored ≡ ok true)
    × ((other : Text)
        → (verify_password toy_scrypt other stored ≡ ok true) ↔ (
            toy_scrypt other salt scrypt_n scrypt_r scrypt_p dklen
            ≡ toy_scrypt password salt scrypt_n scrypt_r scrypt_p dklen))
unfolding hash_password hex hex_digit
hash-verify_example =
    hash-verify toy_scrypt toy_bytes salt password stored (omega arith, (omega arith, tt)) refl

set_password-Revoked_example :
    Revoked "ann" (set_password toy_scrypt same_case salt "ann" password "root" none db).1
unfolding hash_password set_password
set_password-Revoked_example =
    set_password-Revoked toy_scrypt same_case salt "ann" password "root" none db refl

create-resolve_example :
    (resolve_session toy_digest "new" 9000
      (create_session toy_digest "new" 2000 ann_user none db).1).0
    ≡ some (load ann db)
unfolding create_session
create-resolve_example = create-resolve toy_digest "new" 2000 9000 ann_user none db ann refl refl

abbrev created : Result ℕ × Database
created = create_user toy_scrypt salt "Bob" password "manager" "" ("floor-3" ∷ []) "root" true db

create-authenticate_example :
    (user : User) × ((authenticate toy_scrypt salt 1000 "Bob" password created.1).0
      ≡ ok (some user))
    × (user.id ≡ 8)
    × (user.username ≡ "Bob")
    × (some manager ≡ some user.role)
    × (user.must_change_password ≡ true)
unfolding create_user hash_password parse_role
create-authenticate_example =
    create-authenticate toy_scrypt toy_bytes salt salt "Bob" password "manager" "" ("floor-3" ∷ [])
      "root" true 1000 8 db (omega arith, (omega arith, tt)) refl
