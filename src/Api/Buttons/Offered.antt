-- ===== src/Api/Buttons/Offered.antt =====
-- What is offered can be done.
use building_controls.Prelude.{
  ◌≡◌, refl, sym, ◌∙◌, ◌⊎◌, inl, inr, true, ◌&&◌, Option, none, some, List, [], ◌∷◌, map, arith,
  Bool-cases, Option-cases, is_some, All, ◌==◌, nat_eq, string_eq, beq_refl, list_eq, option_eq,
  pair_eq, All-weaken, some-inj,
}
use mathlib.Core.Path.{subst}
use building_controls.Prelude.Dict.{lookup}
use building_controls.Prelude.Table.{exists}
use building_controls.Auth.User.{User}
use building_controls.Api.Doors.{
  Door, Trigger, Site, may_open, may_fire, visible_doors, find_trigger,
}
use building_controls.TruPortal.Panel
use building_controls.TruPortal.Panel.{Inventory}
use building_controls.TruPortal.Durations.{describe_duration}
use building_controls.Api.Buttons.{
  DoorButton, LightButton, by_id, visible_triggers, labelled, light_button, and_rest, light_buttons,
  door_button, access_buttons,
}

-- The label of an action: the panel's own name and duration, or a generic one that claims none.
abbrev pub IsLabelled : Option Inventory → LightButton → Type 0
IsLabelled none b = (b.name ≡ "Lights on") × (b.duration ≡ none)
IsLabelled (some inventory) b =
    (device : Panel.Trigger) × (lookup b.id (by_id (some inventory)) ≡ some device)
    × (b.name ≡ device.name)
    × (b.duration ≡ some (describe_duration device.duration_seconds))

-- The user's request for this action is not refused.
abbrev pub CanFire : User → List Trigger → LightButton → Type 0
CanFire u ts b = is_some (find_trigger b.id u ts) ≡ true

abbrev pub CanOpen : User → List Door → DoorButton → Type 0
CanOpen u ds b = exists (λ d. d.id == b.id && may_open d u) ds ≡ true

CanFire-cons :
    (u : User) (t : Trigger) (ts : List Trigger) (b : LightButton)
    → CanFire u ts b
    → CanFire u (t ∷ ts) b
CanFire-cons u t ts b h = ground arith

light_button-IsLabelled :
    (o : Option Inventory) (t : Trigger)
    → (light_button o t ≡ none)
      ⊎ ((b : LightButton) × (light_button o t ≡ some b) × (b.id ≡ t.id) × IsLabelled o b)
light_button-IsLabelled none t = inr (_, refl, refl, (refl, refl))
light_button-IsLabelled (some inventory) t =
    elim (Option-cases (lookup t.id (by_id (some inventory)))) [
      | inl unknown ↦ inl (rw (unknown, light_button) refl)
      | inr (device, known) ↦
          inr (labelled t device, rw (known, light_button) refl, refl, (device, known, refl, refl))
    ]

abbrev IsOffered : Option Inventory → User → List Trigger → LightButton → Type 0
IsOffered o u ts b = CanFire u ts b × IsLabelled o b

and_rest-All :
    (P : LightButton → Type 0) (o : Option LightButton) (rest : List LightButton)
    → ((b : LightButton) → o ≡ some b → P b)
    → All P rest
    → All P (and_rest o rest)
and_rest-All P none rest f h = h
and_rest-All P (some b) rest f h = (f b refl, h)

-- the button of an action that is shown
light_button-IsOffered :
    (o : Option Inventory) (u : User) (t : Trigger) (ts : List Trigger)
    → may_fire t u ≡ true
    → (b : LightButton) → light_button o t ≡ some b
    → IsOffered o u (t ∷ ts) b
light_button-IsOffered o u t ts shown b e = elim (light_button-IsLabelled o t) [
  | inl none_ ↦ ground arith
  | inr (b', some_, same, label) ↦
      let one : b' ≡ b = some-inj b' b (sym some_ ∙ e) in
      let own : CanFire u (t ∷ ts) b' = rw (same, shown) (rw (beq_refl t.id) refl) in
      subst (IsOffered o u (t ∷ ts)) one (own, label)
]

light_buttons-IsOffered :
    (o : Option Inventory) (u : User) (ts : List Trigger)
    → All (IsOffered o u ts) (light_buttons o (visible_triggers u ts))
unfolding light_buttons
light_buttons-IsOffered o u [] = tt
light_buttons-IsOffered o u (t ∷ ts) =
    let rest = light_buttons o (visible_triggers u ts) in
    let later : All (IsOffered o u (t ∷ ts)) rest =
      All-weaken (IsOffered o u ts) (IsOffered o u (t ∷ ts)) rest
        (λ b h. (CanFire-cons u t ts b h.0, h.1)) (light_buttons-IsOffered o u ts) in
    let whole = λ (l : List Trigger). All (IsOffered o u (t ∷ ts)) (light_buttons o l) in
    elim (Bool-cases (may_fire t u)) [
      | inr hidden ↦
          let fewer : visible_triggers u (t ∷ ts) ≡ visible_triggers u ts = rw hidden refl in
          subst whole (sym fewer) later
      | inl shown ↦
          let more : visible_triggers u (t ∷ ts) ≡ t ∷ visible_triggers u ts = rw shown refl in
          subst whole (sym more) (
            and_rest-All (IsOffered o u (t ∷ ts)) (light_button o t) rest
              (light_button-IsOffered o u t ts shown) later)
    ]

door_buttons-CanOpen :
    (u : User) (ds : List Door) → All (CanOpen u ds) (map door_button (visible_doors u ds))
unfolding visible_doors
door_buttons-CanOpen u [] = tt
door_buttons-CanOpen u (d ∷ ds) =
    let rest = map door_button (visible_doors u ds) in
    let later : All (CanOpen u (d ∷ ds)) rest =
      All-weaken (CanOpen u ds) (CanOpen u (d ∷ ds)) rest (λ b h. ground arith)
        (door_buttons-CanOpen u ds) in
    elim (Bool-cases (may_open d u)) [
      | inr hidden ↦ rw hidden later
      | inl shown ↦
          let own : CanOpen u (d ∷ ds) (door_button d) = rw (beq_refl d.id, shown) refl in
          rw shown (own, later)
    ]

-- Every door offered to a user is a door of that id that the user may open. Every lighting action offered
-- is one whose request by that user finds it. It has the name and the duration that the panel gives it;
-- where the panel does not answer, it has a generic name and claims no duration.
pub access_buttons_lem :
    (site : Site) (u : User) (o : Option Inventory)
    → let (doors, lighting) = access_buttons site u o in
      All (CanOpen u site.doors) doors
      × All (λ b. CanFire u site.lighting_triggers b × IsLabelled o b) lighting
unfolding access_buttons
access_buttons_lem site u o = elim (Bool-cases site.truportal) [
  | inr absent ↦ rw (absent, access_buttons) (tt, tt)
  | inl there ↦
      rw (there, access_buttons)
        (door_buttons-CanOpen u site.doors, light_buttons-IsOffered o u site.lighting_triggers)
]
