-- ===== src/Api/Account.antt =====
-- The routes of a user's own account (bms/api.py `client_ip`, `_same_origin`, `guard_mutations`,
-- `logout`, `change_own_password`). The server answers 500 to what a route raises.
pub mod Renewed
mod Tests
use building_controls.Prelude.{
  ℕ, Bool, true, false, ◌&&◌, not, String, Option, none, some, List, [], ◌∷◌, if◌then◌else◌, Eq,
  ◌==◌, nat_eq, string_eq, contains, list_eq, option_eq, pair_eq,
}
use building_controls.Prelude.Text.{Text, codes, split, strip}
use building_controls.Database.{Database, log, log_as}
use building_controls.Auth.User.{User}
use building_controls.Auth.Password.{Error, value_error, Result, ok, raise, Scrypt}
use building_controls.Auth.Accounts
use building_controls.Auth.Accounts.{create_session, resolve_session, revoke_session}
use building_controls.Api.Caller.{Reply, refused}
use mathlib.Core.List.{reverse}

abbrev first_part : List Text → Text
first_part [] = []
first_part (w ∷ ws) = w

-- `client_ip`: the forwarded address only behind a proxy
unfoldable pub client_ip : Bool → Option Text → Option Text → Text
unfolding strip
client_ip true (some (c ∷ s)) host = strip (first_part (split b',' (c ∷ s)))
client_ip behind_proxy header none = codes "unknown"
client_ip behind_proxy header (some host) = host

abbrev drop_slashes : Text → Text
drop_slashes [] = []
drop_slashes (c ∷ s) = if c == b'/' then drop_slashes s else c ∷ s

-- `text.rstrip("/")`
abbrev pub rstrip_slash : Text → Text
rstrip_slash s = reverse (drop_slashes (reverse s))

abbrev pub same_origin : Option Text → Text → Bool
same_origin none base_url = true
same_origin (some origin) base_url = rstrip_slash origin == rstrip_slash base_url

abbrev pub mutates : String → Bool
mutates method = contains ("POST" ∷ "PUT" ∷ "DELETE" ∷ "PATCH" ∷ []) method

-- `guard_mutations`, before a route
abbrev pub guard_mutations {ℓ} :
    {S : Type ℓ}
    → String
    → Option Text
    → Text
    → (S → Reply (Unit {0}) × S)
    → S
    → Reply (Unit {0}) × S
guard_mutations method origin base_url route s =
    if mutates method && not (same_origin origin base_url) then (refused 403, s) else route s

abbrev left_by : Option User → String → Database → Database
left_by none ip db = db
left_by (some u) ip db = log u.username "logout" (some ip) db

-- `logout`, for a browser that has a cookie
unfoldable pub logout : (String → String) → String → ℕ → String → Database → Database
logout hash_token token now ip db =
    let (user, db1) = resolve_session hash_token token now db in
    left_by user ip (revoke_session hash_token token db1)

-- once the password is changed, or not
abbrev pub renewed :
    (String → String)
    → String
    → ℕ
    → User
    → Option String
    → String
    → Result Bool × Database
    → Reply String × Database
renewed hash_token token now u agent ip (raise value_error, db) = (refused 400, db)
renewed hash_token token now u agent ip (raise e, db) = (refused 500, db)
renewed hash_token token now u agent ip (ok false, db) =
    (refused 403, log_as "error" u.username "user.password_change.failed" (some ip) db)
renewed hash_token token now u agent ip (ok true, db) =
    let (result, db') = create_session hash_token token now u agent db in
    elim result [ ok t ↦ (Reply.ok t, db') | raise e ↦ (refused 500, db') ]

-- `change_own_password`: the token of the new session
unfoldable pub change_own_password :
    Scrypt
    → (String → String)
    → List ℕ
    → String
    → ℕ
    → User
    → Option String
    → String
    → Text
    → Text
    → Database
    → Reply String × Database
change_own_password scrypt hash_token salt token now u agent ip current new db =
    renewed hash_token token now u agent ip
      (Accounts.change_own_password scrypt salt u current new db)
