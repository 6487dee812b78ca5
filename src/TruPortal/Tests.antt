-- ===== src/TruPortal/Tests.antt =====
-- A panel of one door: instances of the theorems, and tests.
use building_controls.Prelude.{
  ◌+◌, ◌<◌, ◌≡◌, refl, ap, ◌⊎◌, false, none, some, [], ◌∷◌, map, Eq, nat_eq, string_eq, list_eq,
  option_eq, pair_eq,
}
use building_controls.Prelude.Text.{codes}
use building_controls.TruPortal.Durations.{describe_duration, parse_timespan}
use building_controls.TruPortal.Panel.{TruPortal, Inventory, Answers, inventory_of, longest}
use building_controls.TruPortal.Inventory.{IsStale, Read, Unread, inventory_of_lem}

seven_days : describe_duration (some 604800) ≡ "7 days"
unfolding describe_duration building_controls.Prelude.Decimal.str
    building_controls.Prelude.Decimal.digits
seven_days = refl

-- the pulse of a map that starts with a command of a second
the_pulse :
    longest (map parse_timespan (codes "Tms1s" ∷ codes "Tms10m" ∷ codes "TmsNone" ∷ [])) ≡ some 600
unfolding longest parse_timespan
the_pulse = refl

abbrev panel : TruPortal
panel = record { inventory_ttl = 300000; inventory = none; inventory_at = 0; sent = [] }

abbrev answers : Answers
answers = record {
  doors = some (record { dev_id = some 4; name = some "Front"; grant = none } ∷ []);
  outputs = some [];
  triggers = some [];
}

inventory_of_lem_example :
    let (o, p') = inventory_of false answers 1000 panel in
    ((false ≡ false)
      × ((inventory : Inventory) × (o ≡ some inventory) × (panel.inventory ≡ some inventory))
      × (1000 < panel.inventory_at + panel.inventory_ttl)
      × (p' ≡ panel))
    ⊎ (IsStale false 1000 panel × (Read answers 1000 panel (o, p') ⊎ Unread answers panel (o, p')))
inventory_of_lem_example = inventory_of_lem false answers 1000 panel
