-- ===== src/Api/Buttons/Tests.antt =====
-- A tenant of the third floor before a panel of one action: an instance of the theorem.
use building_controls.Prelude.{
  ◌≡◌, refl, true, false, none, some, [], ◌∷◌, All, nat_eq, string_eq, list_eq, option_eq, pair_eq,
}
use building_controls.Database.{tenant}
use building_controls.Auth.User.{User, at_least}
use building_controls.Api.Doors.{Site, may_fire}
use building_controls.Api.Buttons.{light_buttons, access_buttons}
use building_controls.Api.Buttons.Offered.{CanOpen, CanFire, IsLabelled, access_buttons_lem}
use building_controls.TruPortal.Panel.{Inventory}

abbrev ann : User
ann = record {
  id = 2;
  username = "ann";
  display_name = "Ann";
  role = tenant;
  zones = "floor-3" ∷ [];
  must_change_password = false;
}

abbrev site : Site
site = record {
  truportal = true;
  doors =
      record { id = 4; name = "Front entrance"; zones = "*" ∷ [] }
      ∷ record { id = 9; name = "Test door"; zones = [] }
      ∷ [];
  lighting_triggers = record { id = 12; zone = "floor-3"; role = tenant } ∷ [];
  configured = true;
}

abbrev inventory : Inventory
inventory = record {
  doors = [];
  outputs = [];
  triggers =
      record {
        id = 12;
        name = "Floor 3 lights";
        enabled = true;
        duration_seconds = some 21600;
        outputs = 7 ∷ [];
        self_firing = false;
      }
      ∷ [];
}

-- Without the panel the action is still there, and claims no duration.
generic_label :
    (access_buttons site ann none).1 ≡ record { id = 12; name = "Lights on"; duration = none } ∷ []
unfolding access_buttons light_buttons may_fire at_least
generic_label = refl

access_buttons_lem_example :
    let (doors, lighting) = access_buttons site ann (some inventory) in
    All (CanOpen ann site.doors) doors
    × All (λ b. CanFire ann site.lighting_triggers b × IsLabelled (some inventory) b) lighting
access_buttons_lem_example = access_buttons_lem site ann (some inventory)
