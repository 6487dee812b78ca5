-- ===== src/Schedules/Tests.antt =====
-- Days and weeks on concrete times: instances of the theorems.
use building_controls.Prelude.{
  ℕ, ◌≤◌, ◌≡◌, refl, true, some, List, [], ◌∷◌, arith, length, All, ◌==◌, nat_eq, string_eq,
  list_eq, option_eq, pair_eq,
}
use building_controls.Prelude.Int.{pos}
use building_controls.Prelude.Dict.{Dict}
use building_controls.Prelude.Text.{Text, codes}
use building_controls.Prelude.Table.{count}
use building_controls.Prelude.Sort.{in_order, order_by, insert_by}
use building_controls.Auth.Password.Hex.{parse_int, signed, parse_digits}
use building_controls.Database.{Day}
use building_controls.Auth.Password.{ok}
use building_controls.Schedules.{
  Draft, TimeValue, parse_time, validate_transitions, normalise, resolve_week, week_to_bacnet,
  bacnet_to_week,
}
use building_controls.Schedules.Weeks.{IsEntry, validate_transitions_lem}
use building_controls.Schedules.Device.{resolved-roundtrip}

abbrev drafts : List Draft
drafts =
    record { time = some (codes "18:00"); state = some (ok (pos 1)) }
    ∷ record { time = some (codes "6:00"); state = some (ok (pos 0)) }
    ∷ []

abbrev office : Day
office =
    record { time = codes "06:00"; state = pos 0 }
    ∷ record { time = codes "18:00"; state = pos 1 }
    ∷ []

validate_transitions_lem_example :
    All IsEntry office
    × (in_order (λ t. t.time) office ≡ true)
    × (length office ≡ length drafts)
    × (1 ≤ length office)
    × (length office ≤ 8)
    × ((x : Text) → count (λ t. t.time == x) office ≤ 1)
unfolding validate_transitions normalise parse_time parse_int signed parse_digits order_by insert_by
validate_transitions_lem_example = validate_transitions_lem drafts office refl

abbrev group : Dict ℕ Day
group = (1, office) ∷ (2, office) ∷ []

office_entries : All IsEntry office
office_entries = (
  record {
    hour = 6;
    minute = 0;
    hour_bound = omega arith;
    minute_bound = omega arith;
    written = refl;
    state_known = refl;
  },
  (
    record {
      hour = 18;
      minute = 0;
      hour_bound = omega arith;
      minute_bound = omega arith;
      written = refl;
      state_known = refl;
    },
    tt,
  ),
)

resolved-roundtrip_example :
    (ws : List (List TimeValue)) × (week_to_bacnet (resolve_week group []) ≡ some ws)
    × (bacnet_to_week ws ≡ resolve_week group [])
resolved-roundtrip_example = resolved-roundtrip group [] (office_entries, (office_entries, tt)) tt
