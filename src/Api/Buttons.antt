-- ===== src/Api/Buttons.antt =====
-- The doors and lighting actions that a page offers to a user (bms/api.py `access_buttons`,
-- `list_lighting`). The inventory of the panel is `none` where the panel does not answer in time.
pub mod Offered
mod Tests
use building_controls.Prelude.{
  ℕ, ap, Bool, not, String, Option, none, some, List, [], ◌∷◌, map, if◌then◌else◌, Eq, nat_eq,
  string_eq, list_eq, option_eq, pair_eq,
}
use building_controls.Prelude.Dict.{Dict, lookup, insert}
use building_controls.Prelude.Table.{select}
use building_controls.Auth.User.{User}
use building_controls.Api.Caller.{Reply, ok, refused}
use building_controls.Api.Doors.{Door, Trigger, Site, may_fire, visible_doors}
use building_controls.TruPortal.Panel
use building_controls.TruPortal.Panel.{Inventory}
use building_controls.TruPortal.Durations.{describe_duration}

pub record DoorButton : Type 0 where
  pub id : ℕ
  pub name : String

pub record LightButton : Type 0 where
  pub id : ℕ
  pub name : String
  pub duration : Option String

-- `{t.id: t for t in ...}`
abbrev pub add_ids : Dict ℕ Panel.Trigger → List Panel.Trigger → Dict ℕ Panel.Trigger
add_ids d [] = d
add_ids d (t ∷ ts) = add_ids (insert t.id t d) ts

abbrev pub by_id : Option Inventory → Dict ℕ Panel.Trigger
by_id none = []
by_id (some inventory) = add_ids [] inventory.triggers

-- `_visible_triggers`
abbrev pub visible_triggers : User → List Trigger → List Trigger
visible_triggers u ts = select (λ t. may_fire t u) ts

abbrev pub labelled : Trigger → Panel.Trigger → LightButton
labelled t device = record {
  id = t.id;
  name = device.name;
  duration = some (describe_duration device.duration_seconds);
}

-- the button of an action, where there is one: without an answer of the panel, under a generic label
abbrev pub light_button : Option Inventory → Trigger → Option LightButton
light_button none t = some (record { id = t.id; name = "Lights on"; duration = none })
light_button (some inventory) t = elim (lookup t.id (by_id (some inventory))) [
  | none ↦ none
  | some device ↦ some (labelled t device)
]

abbrev pub and_rest : Option LightButton → List LightButton → List LightButton
and_rest none bs = bs
and_rest (some b) bs = b ∷ bs

unfoldable pub light_buttons : Option Inventory → List Trigger → List LightButton
light_buttons o [] = []
light_buttons o (t ∷ ts) = and_rest (light_button o t) (light_buttons o ts)

abbrev pub door_button : Door → DoorButton
door_button d = record { id = d.id; name = d.name }

unfoldable pub access_buttons : Site → User → Option Inventory → List DoorButton × List LightButton
unfolding light_buttons
access_buttons site u o = if not site.truportal then ([], []) else (
  map door_button (visible_doors u site.doors),
  light_buttons o (visible_triggers u site.lighting_triggers),
)

-- what the list of actions says of one
pub record LightingAction : Type 0 where
  pub button : LightButton
  pub zone : String
  pub self_firing : Bool

abbrev pub actions : Inventory → List Trigger → List LightingAction
actions inventory [] = []
actions inventory (t ∷ ts) =
    let rest = actions inventory ts in
    elim (lookup t.id (by_id (some inventory))) [
      | none ↦ rest
      | some device ↦
          record { button = labelled t device; zone = t.zone; self_firing = device.self_firing }
          ∷ rest
    ]

-- `list_lighting`
abbrev pub list_lighting : Site → User → Option Inventory → Reply (List LightingAction)
list_lighting site u o = if not site.truportal then refused 503 else elim o [
  | none ↦ refused 503
  | some inventory ↦ ok (actions inventory (visible_triggers u site.lighting_triggers))
]
