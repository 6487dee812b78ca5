-- ===== src/Api/Tests.antt =====
-- A tenant with a phone at the front door: instances of the theorems.
use building_controls.Prelude.{
  ℕ, ◌%◌, ◌≡◌, refl, ◌⊎◌, Bool, true, false, String, Option, none, some, List, [], ◌∷◌, is_some,
  length, nat_eq, string_eq, list_eq, option_eq, pair_eq,
}
use building_controls.Prelude.Text.{codes}
use building_controls.Database.{tenant, AppUser, Session, Database, new_database}
use building_controls.Auth.User.{User}
use building_controls.Auth.Accounts.{load, resolve_session}
use building_controls.Passkeys.{has_passkey, recently_verified, credentials_for}
use building_controls.Api.Caller.{
  Reply, refused, current_user, Admits, current_user_lem, session_user,
}
use building_controls.Api.Doors.{
  Door, Command, grant_access, execute_trigger, Site, World, find_door, may_open, unlock_door,
  door_for, require_recent_verification, grant, fire_zone_lights,
}
use building_controls.Api.Unlock.{OwnLights, unlock_door_lem}
use building_controls.Auth.User.{at_least}
use building_controls.Database.{manager}
use building_controls.Prelude.Int.{pos}
use building_controls.Prelude.Dict.{Dict, lookup}
use building_controls.Value.{number}
use building_controls.Points.{points}
use building_controls.Cache.{fresh}
use building_controls.Api.Writes.{Write, Plant, write_point}
use building_controls.Api.Limits.{Sent, write_point_lem}
use building_controls.Auth.Throttle.{new_throttle, blocked}
use building_controls.Auth.Password.{Result, Scrypt}
use building_controls.Auth.Accounts.{authenticate}
use building_controls.Api.Login.{Gate, login}
use building_controls.Api.Login.Entry.{Owns, Entered, Kept, login_lem}

abbrev ann : AppUser
ann = record {
  id = 7;
  username = "ann";
  display_name = "Ann";
  password_hash = codes "x";
  role = tenant;
  active = true;
  last_login = none;
  must_change_password = false;
}

abbrev db : Database
db = record new_database {
  app_user = ann ∷ [];
  user_zone = record { user_id = 7; zone = "floor-3" } ∷ [];
  session = record { token_hash = "tok"; user_id = 7; expires_at = 500000; user_agent = none } ∷ [];
  webauthn_credential =
      record {
        credential_id = "cred";
        user_id = 7;
        public_key = "key";
        sign_count = 4;
        label = "phone";
        created_at = 0;
        last_used_at = none;
      }
      ∷ [];
}

abbrev user : User
user = load ann db

abbrev digest : String → String
digest s = s

current_user_lem_example :
    ((token : String) × (s : Session) × (r : AppUser) × (some "tok" ≡ some token)
      × Admits digest token "/doors/1/unlock" 1000 db user s r)
    × ((current_user digest (some "tok") "/doors/1/unlock" 1000 db).1 ≡ db)
unfolding current_user session_user resolve_session
current_user_lem_example = current_user_lem digest (some "tok") "/doors/1/unlock" 1000 db user refl

abbrev site : Site
site = record {
  truportal = true;
  doors = record { id = 1; name = "Front door"; zones = "floor-3" ∷ "floor-2" ∷ [] } ∷ [];
  lighting_triggers =
      record { id = 20; zone = "floor-2"; role = tenant }
      ∷ record { id = 30; zone = "floor-3"; role = tenant }
      ∷ [];
  configured = true;
}

abbrev world : World
world = record { passkeys = record { db = db; verified_at = (7, 100000) ∷ [] }; commands = [] }

abbrev works : Command → Bool
works c = true

abbrev unlocked : Reply (Option String) × World
unlocked = unlock_door works site 150000 1 user world

unlock_door_lem_example :
    ((d : Door) × (lights : List Command) × (find_door 1 site.doors ≡ some d)
      × (may_open d user ≡ true)
      × ((true ≡ false)
          ⊎ ((has_passkey 7 db ≡ true) × (recently_verified 150000 7 world.passkeys ≡ true)))
      × (unlocked.1.commands ≡ grant_access d.id ∷ lights)
      × OwnLights user lights)
    ⊎ (((e : ℕ) × (unlocked.0 ≡ refused e)) × (unlocked.1 ≡ world))
unlock_door_lem_example = unlock_door_lem works site 150000 1 user world

lights_of_the_floor : unlocked.1.commands ≡ grant_access 1 ∷ execute_trigger 30 ∷ []
unfolding unlock_door door_for may_open at_least require_recent_verification has_passkey
    credentials_for recently_verified grant fire_zone_lights
lights_of_the_floor = refl

-- ninety seconds later the verification no longer counts
too_late : (unlock_door works site 200000 1 user world).0 ≡ refused 401
unfolding unlock_door door_for may_open at_least require_recent_verification has_passkey
    credentials_for recently_verified
too_late = refl

abbrev plant : Plant
plant = record {
  cache = record {
    devices = (301, fresh 301 "Room 301" "floor-3" "192.168.1.101" 3) ∷ [];
    stale_after = 90000;
    offline_after = 3;
  };
  writes = [];
}

abbrev acked : Write → Bool
acked w = true

abbrev inventory : Dict ℕ String
inventory = (301, "floor-3") ∷ []

abbrev boss : User
boss = record user { role = manager }

write_point_lem_example :
    let reply = write_point acked inventory 301 "occ_cool_sp" (number (pos 40000)) boss db plant in
    ((at_least boss manager ≡ true)
      × (is_some (lookup 301 inventory) ≡ true)
      × (lookup "occ_cool_sp" points ≡ some true)
      × Sent acked 301 "occ_cool_sp" plant reply)
    ⊎ (((e : ℕ) × (reply.0 ≡ refused e)) × (reply.1 ≡ plant))
write_point_lem_example =
    write_point_lem acked inventory 301 "occ_cool_sp" (number (pos 40000)) boss db plant

-- a derivation of one byte, the length of the password
abbrev toy_scrypt : Scrypt
toy_scrypt given salt n r p len = Result.ok (length given % 256 ∷ [])

abbrev gate : Gate
gate = record {
  throttle = new_throttle 8 300000;
  db = record db {
    app_user = record ann { password_hash = codes "scrypt$131072$8$1$01ff$0a" } ∷ [];
  };
}

login_lem_example :
    let r =
      login digest digest "ann" "10.0.0.9"
        (codes "//elsewhere")
        toy_scrypt
        (1 ∷ [])
        "new"
        1000
        none
        (codes "longenough")
        gate in
    ((u : User) × ((blocked digest "ann" "10.0.0.9" 1000 gate.throttle).0 ≡ false)
      × ((authenticate toy_scrypt (1 ∷ []) 1000 "ann" (codes "longenough") gate.db).0
          ≡ Result.ok (some u))
      × Owns toy_scrypt "ann" (codes "longenough") gate.db u
      × Entered digest digest "ann" "10.0.0.9"
          (codes "//elsewhere")
          "new"
          1000
          none
          gate.db.session
          u
          r)
    ⊎ Kept digest digest "ann" "10.0.0.9" (codes "//elsewhere") gate.db r
login_lem_example =
    login_lem digest digest "ann" "10.0.0.9" (codes "//elsewhere") toy_scrypt (1 ∷ []) "new" 1000
      none (codes "longenough") gate
