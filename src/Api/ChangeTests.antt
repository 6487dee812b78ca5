-- ===== src/Api/ChangeTests.antt =====
-- A manager and a tenant at the routes that change something: instances of the theorems.
use building_controls.Prelude.{
  ℕ, ◌≤◌, ◌≡◌, refl, ◌≢◌, ◌⊎◌, Bool, true, false, not, String, none, some, [], ◌∷◌, arith, ◌==◌,
  nat_eq, string_eq, list_eq, option_eq, pair_eq,
}
use building_controls.Prelude.Dict.{Dict, lookup}
use building_controls.Database.{admin, manager, tenant, new_database}
use building_controls.Auth.User.{User, at_least, may_access_zone}
use building_controls.Auth.Password.{Result, Scrypt}
use building_controls.Cache.{register}
use building_controls.Zones.{Zones, of_device}
use building_controls.Store.Intent.{device_zone}
use building_controls.Store.Calendar
use building_controls.Api.Caller.{refused, require_device}
use building_controls.Api.Writes.{Write, Plant}
use building_controls.Api.Requests.{Hub, delete_holiday, set_zones, role_of, deny, serve, handle}
use building_controls.Api.Requests.Refusals.{handle-refused}
use building_controls.Api.Requests.Ranks.{SameAccounts, handle-ranks}
use building_controls.Api.Commands.{write_to, whole, occupancy_state, override, bypass}
use building_controls.Api.Commands.Order.{
  timer, forcing, handing_back, Performed, override_lem, bypass_lem,
}

abbrev no_scrypt : Scrypt
no_scrypt password salt n r p len = Result.ok []

abbrev as_is : String → String
as_is s = s

abbrev inventory : Dict ℕ String
inventory = (301, "floor-3") ∷ []

abbrev zones : Zones
zones = record { defaults = inventory; extra = [] }

abbrev bob : User
bob = record {
  id = 1;
  username = "bob";
  display_name = "Bob";
  role = manager;
  zones = [];
  must_change_password = false;
}

abbrev hub : Hub
hub = record {
  db = new_database;
  cache = record { devices = []; stale_after = 90000; offline_after = 3 };
}

-- There is no such holiday.
handle-refused_example : (handle no_scrypt as_is zones (delete_holiday 5) bob hub).1 ≡ hub
unfolding handle serve at_least Calendar.delete_holiday
handle-refused_example =
    handle-refused no_scrypt as_is zones (delete_holiday 5) bob hub 404 refl (omega arith)

-- A manager may not grant zones.
handle-ranks_example :
    (manager ≡ tenant → handle no_scrypt as_is zones (set_zones "ann" []) bob hub ≡ deny 403 hub)
    × (manager ≢ admin
        → SameAccounts hub.db (handle no_scrypt as_is zones (set_zones "ann" []) bob hub).1.db)
    × (manager ≢ admin
        → role_of (set_zones "ann" []) ≡ admin
        → handle no_scrypt as_is zones (set_zones "ann" []) bob hub ≡ deny 403 hub)
handle-ranks_example = handle-ranks no_scrypt as_is zones (set_zones "ann" []) bob hub

abbrev plant : Plant
plant = record { cache = register 301 "Room 301" "floor-3" "192.168.1.101" hub.cache; writes = [] }

-- The second write of a bypass is not acknowledged.
abbrev second_lost : Write → Bool
second_lost w = not (w.key == "bypass_minutes")

bypass_lem_example :
    let (reply, w') = bypass second_lost inventory 301 120 bob new_database none 5000 plant in
    ((120 ≤ 1080)
      × ((own : String) × (lookup 301 inventory ≡ some own)
          × (may_access_zone bob (of_device 301 own new_database) ≡ true))
      × Performed second_lost 301 (timer 120) plant (reply, w'))
    ⊎ (((e : ℕ) × (reply ≡ refused e)) × (w' ≡ plant))
bypass_lem_example = bypass_lem second_lost inventory 301 120 bob new_database none 5000 plant

bypass_stops :
    let (reply, w') = bypass second_lost inventory 301 120 bob new_database none 5000 plant in
    (reply ≡ refused 503)
    × (w'.writes
        ≡ write_to 301 ("bypass_duration_cfg", whole 120)
          ∷ write_to 301 ("bypass_minutes", whole 120)
          ∷ [])
unfolding bypass may_access_zone of_device device_zone require_device
bypass_stops = (refl, refl)

abbrev all_good : Write → Bool
all_good w = true

override_lem_example :
    let (reply, w') =
      override all_good as_is inventory 301 "NO_OVERRIDE" bob new_database none 5000 plant in
    ((at_least bob manager ≡ true)
      × ((own : String) × (lookup 301 inventory ≡ some own))
      × (((occupancy_state "NO_OVERRIDE" ≡ some 5)
            × Performed all_good 301 handing_back plant (reply, w'))
          ⊎ ((state : ℕ) × (occupancy_state "NO_OVERRIDE" ≡ some state)
              × (state ≢ 5)
              × Performed all_good 301 (forcing state) plant (reply, w'))))
    ⊎ (((e : ℕ) × (reply ≡ refused e)) × (w' ≡ plant))
override_lem_example =
    override_lem all_good as_is inventory 301 "NO_OVERRIDE" bob new_database none 5000 plant
