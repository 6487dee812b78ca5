-- ===== src/Api/Doors.antt =====
-- Unlocking a door and the lights that go with it (bms/api.py `_door`, `_visible_doors`,
-- `_visible_triggers`, `require_recent_verification`, `unlock_door`, `_fire_zone_lights`,
-- `fire_lighting`). The panel answers a command or fails; the commands sent to it are kept, failed ones
-- too.
use building_controls.Prelude.{
  ℕ, Bool, true, false, ◌&&◌, ◌||◌, not, String, Option, none, some, List, [], ◌∷◌, ◌++◌,
  if◌then◌else◌, ◌==◌, nat_eq, string_eq, contains, list_eq, option_eq, pair_eq,
}
use building_controls.Database.{Role, manager, tenant, role_eq, log, log_as}
use building_controls.Auth.User.{User, at_least}
use building_controls.Passkeys.{State, has_passkey, recently_verified}
use building_controls.Api.Caller.{Reply, ok, refused}

pub record Door : Type 0 where
  pub id : ℕ
  pub name : String
  pub zones : List String

pub record Trigger : Type 0 where
  pub id : ℕ
  pub zone : String
  pub role : Role

pub data Command : Type 0 where
  grant_access execute_trigger : ℕ → Command

-- the configuration of the panel: absent when none is enabled
pub record Site : Type 0 where
  pub truportal : Bool
  pub doors : List Door
  pub lighting_triggers : List Trigger
  -- `passkeys.configured`
  pub configured : Bool

pub record World : Type 0 where
  pub passkeys : State
  pub commands : List Command

abbrev pub logged : String → String → Option String → World → World
logged actor what target w = record w {
  passkeys = record w.passkeys { db = log actor what target w.passkeys.db };
}

abbrev pub any_held : List String → List String → Bool
any_held [] held = false
any_held (z ∷ zs) held = contains held z || any_held zs held

unfoldable pub may_open : Door → User → Bool
may_open d u = at_least u manager || contains d.zones "*" || any_held u.zones d.zones

abbrev pub find_door : ℕ → List Door → Option Door
find_door i [] = none
find_door i (d ∷ ds) = if d.id == i then some d else find_door i ds

-- `_door`, whose test of the user `_visible_doors` repeats
unfoldable pub door_for : Site → ℕ → User → Reply Door
door_for site i u = elim (find_door i site.doors) [
  | none ↦ refused 404
  | some d ↦ if may_open d u then ok d else refused 404
]

unfoldable pub visible_doors : User → List Door → List Door
visible_doors u [] = []
visible_doors u (d ∷ ds) = let rest = visible_doors u ds in if may_open d u then d ∷ rest else rest

-- whom a trigger is shown to, in `_visible_triggers`
unfoldable pub may_fire : Trigger → User → Bool
may_fire t u = at_least u t.role && (at_least u manager || t.zone == "*" || contains u.zones t.zone)

-- `None` where the action may go on
unfoldable pub require_recent_verification : Site → ℕ → User → World → Option ℕ
require_recent_verification site now u w =
    if not site.configured
    then none
    else if has_passkey u.id w.passkeys.db
    then (if recently_verified now u.id w.passkeys then none else some 401)
    else some 403

module _ (panel : Command → Bool) where
  -- `_fire_zone_lights`
  unfoldable pub fire_zone_lights : List Trigger → User → World → Option String × World
  fire_zone_lights [] u w = (none, w)
  fire_zone_lights (t ∷ ts) u w =
      elim (role_eq t.role tenant && not (t.zone == "*") && contains u.zones t.zone) [
        | false ↦ fire_zone_lights ts u w
        | true ↦
            let sent = record w { commands = w.commands ++ execute_trigger t.id ∷ [] } in
            if panel (execute_trigger t.id)
            then (some t.zone, logged u.username "lighting.on" (some t.zone) sent)
            else (none, sent)
      ]

  -- the panel's part of `unlock_door`
  unfoldable pub grant : Site → User → World → Door → Reply (Option String) × World
  unfolding fire_zone_lights
  grant site u w d =
      let sent = record w { commands = w.commands ++ grant_access d.id ∷ [] } in
      if panel (grant_access d.id)
      then (let lit =
            fire_zone_lights site.lighting_triggers u
              (logged u.username "door.unlock" (some d.name) sent) in
          (ok lit.0, lit.1))
      else (
        refused 503,
        record sent {
          passkeys = record w.passkeys {
            db = log_as "error" u.username "door.unlock" (some d.name) w.passkeys.db;
          };
        },
      )

  unfoldable pub unlock_door : Site → ℕ → ℕ → User → World → Reply (Option String) × World
  unfolding grant
  unlock_door site now i u w =
      if not site.truportal then (refused 503, w) else elim (door_for site i u) [
        | refused e ↦ (refused e, w)
        | ok d ↦ elim (require_recent_verification site now u w) [
          | some e ↦ (refused e, w)
          | none ↦ grant site u w d
        ]
      ]

abbrev pub find_trigger : ℕ → User → List Trigger → Option Trigger
find_trigger i u [] = none
find_trigger i u (t ∷ ts) = if may_fire t u && t.id == i then some t else find_trigger i u ts

unfoldable pub fire_lighting : (Command → Bool) → Site → ℕ → User → World → Reply ℕ × World
fire_lighting panel site i u w =
    if not site.truportal
    then (refused 503, w)
    else elim (find_trigger i u site.lighting_triggers) [
      | none ↦ (refused 404, w)
      | some t ↦
          let sent = record w { commands = w.commands ++ execute_trigger i ∷ [] } in
          if panel (execute_trigger i)
          then (ok i, logged u.username "lighting.on" (some t.zone) sent)
          else (refused 503, sent)
    ]
