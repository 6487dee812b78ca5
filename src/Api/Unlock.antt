-- ===== src/Api/Unlock.antt =====
-- What has to hold before a door is opened.
use building_controls.Prelude.{
  ℕ, ◌≡◌, refl, ◌∙◌, ◌⊎◌, inl, inr, Bool, true, false, ◌&&◌, not, Option, none, some, List, [], ◌∷◌,
  ◌++◌, arith, if◌then◌else◌, Bool-cases, and-eq-true, Option-cases, ◌==◌, nat_eq, string_eq,
  contains, list_eq, option_eq, pair_eq, append_nil, append_one, sym,
}
use building_controls.Database.{Role, admin, manager, tenant, role_eq}
use building_controls.Auth.User.{User}
use building_controls.Passkeys.{has_passkey, recently_verified}
use building_controls.Api.Caller.{refused}
use building_controls.Api.Doors.{
  Door, Trigger, Command, grant_access, execute_trigger, Site, World, find_door, may_open, door_for,
  require_recent_verification, fire_zone_lights, grant, unlock_door,
}

-- at most one action, and it is a tenant's action for a zone that the user holds
abbrev pub OwnLights : User → List Command → Type 0
OwnLights u lights =
    (lights ≡ [])
    ⊎ ((t : Trigger) × (lights ≡ execute_trigger t.id ∷ [])
        × (t.role ≡ tenant)
        × (contains u.zones t.zone ≡ true))

role_is : (r : Role) → role_eq r tenant ≡ true → r ≡ tenant
role_is admin h = ground arith
role_is manager h = ground arith
role_is tenant h = refl

module _ (panel : Command → Bool) where
  lights_sent :
      (ts : List Trigger) (u : User) (w : World)
      → (lights : List Command) × ((fire_zone_lights panel ts u w).1.commands
          ≡ w.commands ++ lights)
        × OwnLights u lights
  unfolding fire_zone_lights
  lights_sent [] u w = ([], sym (append_nil w.commands), inl refl)
  lights_sent (t ∷ ts) u w =
      let own = role_eq t.role tenant && not (t.zone == "*") && contains u.zones t.zone in
      elim (Bool-cases own) [
        | inr other ↦ rw (other, fire_zone_lights) (lights_sent ts u w)
        | inl mine ↦
            let (first, held) =
              and-eq-true (role_eq t.role tenant && not (t.zone == "*")) (contains u.zones t.zone)
                mine in
            let (role, _) = and-eq-true (role_eq t.role tenant) (not (t.zone == "*")) first in
            let lit : OwnLights u (execute_trigger t.id ∷ []) =
              inr (t, refl, role_is t.role role, held) in
            rw (mine, fire_zone_lights)
              (elim (Bool-cases (panel (execute_trigger t.id))) [
                | inl done ↦ rw done (execute_trigger t.id ∷ [], refl, lit)
                | inr failed ↦ rw failed (execute_trigger t.id ∷ [], refl, lit)
              ])
      ]

  grant_sent :
      (site : Site) (u : User) (w : World) (d : Door)
      → (lights : List Command) × ((grant panel site u w d).1.commands
          ≡ w.commands ++ grant_access d.id ∷ lights)
        × OwnLights u lights
  unfolding grant
  grant_sent site u w d = elim (Bool-cases (panel (grant_access d.id))) [
    | inr failed ↦ rw (failed, grant) ([], refl, inl refl)
    | inl done ↦
        rw (done, grant)
          (let (lights, sent, own) = lights_sent site.lighting_triggers u _ in
            (lights, sent ∙ append_one w.commands (grant_access d.id) lights, own))
  ]

  Verified : Site → ℕ → User → World → Type 0
  Verified site now u w =
      (site.configured ≡ false)
      ⊎ ((has_passkey u.id w.passkeys.db ≡ true) × (recently_verified now u.id w.passkeys ≡ true))

  abbrev answer : Bool → Bool → Bool → Option ℕ
  answer c p r = if not c then none else if p then (if r then none else some 401) else some 403

  require_recent_verification-Verified :
      (site : Site) (now : ℕ) (u : User) (w : World)
      → require_recent_verification site now u w ≡ none
      → Verified site now u w
  unfolding require_recent_verification Verified
  require_recent_verification-Verified site now u w h =
      by_cases site.configured (has_passkey u.id w.passkeys.db)
        (recently_verified now u.id w.passkeys) h
    where
      by_cases : (c p r : Bool) → answer c p r ≡ none → (c ≡ false) ⊎ ((p ≡ true) × (r ≡ true))
      by_cases c p r h = ground arith

  -- A command is sent to the panel only for a door that is configured, that the user may open, and after
  -- a verification of the user within the window by a user with a passkey, unless passkeys are not
  -- configured; and then the command for that door comes first, followed by at most one lighting action, a
  -- tenant's one for a zone that the user holds. In every other case the call is refused and nothing
  -- changes.
  pub unlock_door_lem :
      (site : Site) (now i : ℕ) (u : User) (w : World)
      → let (reply, w') = unlock_door panel site now i u w in
        ((d : Door) × (lights : List Command) × (find_door i site.doors ≡ some d)
          × (may_open d u ≡ true)
          × ((site.configured ≡ false)
              ⊎ ((has_passkey u.id w.passkeys.db ≡ true)
                  × (recently_verified now u.id w.passkeys ≡ true)))
          × (w'.commands ≡ w.commands ++ grant_access d.id ∷ lights)
          × OwnLights u lights)
        ⊎ (((e : ℕ) × (reply ≡ refused e)) × (w' ≡ w))
  unfolding unlock_door door_for Verified
  unlock_door_lem site now i u w = elim (Bool-cases (site.truportal)) [
    | inr off ↦ rw (off, unlock_door) (inr ((_, refl), refl))
    | inl on ↦
        rw (on, unlock_door)
          (elim (Option-cases (find_door i site.doors)) [
            | inl absent ↦ rw (absent, unlock_door) (inr ((_, refl), refl))
            | inr (d, found) ↦
                rw (found, unlock_door)
                  (elim (Bool-cases (may_open d u)) [
                    | inr hidden ↦ rw (hidden, unlock_door) (inr ((_, refl), refl))
                    | inl open_ ↦
                        rw (open_, unlock_door)
                          (elim (Option-cases (require_recent_verification site now u w)) [
                            | inr (e, stopped) ↦ rw (stopped, unlock_door) (inr ((_, refl), refl))
                            | inl through ↦
                                let (lights, sent, own) = grant_sent site u w d in
                                rw (through, unlock_door)
                                  (inl (
                                    d,
                                    lights,
                                    refl,
                                    open_,
                                    require_recent_verification-Verified site now u w through,
                                    sent,
                                    own,
                                  ))
                          ])
                  ])
          ])
  ]
