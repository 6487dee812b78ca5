-- ===== src/Api/Account/Tests.antt =====
-- A tenant who changes the password: an instance of the theorem, and tests.
use building_controls.Prelude.{
  ℕ, ◌≡◌, refl, ◌⊎◌, true, false, String, none, some, [], ◌∷◌, nat_eq, string_eq, list_eq,
  option_eq, pair_eq,
}
use building_controls.Prelude.Text.{codes, strip}
use building_controls.Database.{AppUser, Database, tenant, new_database}
use building_controls.Auth.User.{User}
use building_controls.Auth.Password.{Result, Scrypt}
use building_controls.Auth.Accounts
use building_controls.Api.Caller.{Reply, refused}
use building_controls.Api.Account.{client_ip, same_origin, change_own_password}
use building_controls.Api.Account.Renewed.{OnlySession, IsSafe, change_own_password-Ends}

abbrev no_scrypt : Scrypt
no_scrypt password salt n r p len = Result.ok []

abbrev as_is : String → String
as_is s = s

abbrev row : AppUser
row = record {
  id = 7;
  username = "ann";
  display_name = "Ann";
  password_hash = [];
  role = tenant;
  active = true;
  last_login = none;
  must_change_password = true;
}

abbrev ann : User
ann = record {
  id = 7;
  username = "ann";
  display_name = "Ann";
  role = tenant;
  zones = [];
  must_change_password = true;
}

abbrev db : Database
db = record new_database { app_user = row ∷ [] }

-- The leftmost address of a chain counts behind a proxy, and none that is sent counts without one.
addresses :
    (client_ip true (some (codes " 10.0.0.7 , 10.0.0.1")) (some (codes "127.0.0.1"))
      ≡ codes "10.0.0.7")
    × (client_ip false (some (codes "10.0.0.7")) (some (codes "127.0.0.1")) ≡ codes "127.0.0.1")
unfolding client_ip strip
addresses = (refl, refl)

origins :
    (same_origin (some (codes "https://a.example")) (codes "https://a.example/") ≡ true)
    × (same_origin (some (codes "https://b.example")) (codes "https://a.example/") ≡ false)
origins = (refl, refl)

change_own_password-Ends_example :
    let (reply, db') =
      change_own_password no_scrypt as_is [] "t1" 1000 ann none "127.0.0.1"
        (codes "old")
        (codes "new")
        db in
    ((reply ≡ Reply.ok "t1") × OnlySession as_is "t1" 1000 "ann" row db')
    ⊎ ((e : ℕ) × (reply ≡ refused e)
        × IsSafe as_is "t1" 1000 ann none
            (Accounts.change_own_password no_scrypt [] ann (codes "old") (codes "new") db)
            e
            db
            db')
change_own_password-Ends_example =
    change_own_password-Ends no_scrypt as_is [] "t1" 1000 ann none "127.0.0.1" (codes "old")
      (codes "new") db row refl
