-- ===== src/Zones/Tests.antt =====
-- Zones of a small building: instances of the theorems.
use building_controls.Prelude.{
  ◌≡◌, ◌≢◌, ◌⊎◌, true, false, ◌&&◌, not, String, none, some, List, [], ◌∷◌, map, ◌==◌, nat_eq,
  string_eq, contains, list_eq, option_eq, pair_eq,
}
use building_controls.Prelude.Text.{strip_str}
use building_controls.Database.{new_database}
use building_controls.Zones.{Zones, known, validate_grant}
use building_controls.Zones.Grants.{validate_grant_lem}

abbrev zones : Zones
zones = record { defaults = (301, "suite 301") ∷ (302, "suite 302") ∷ []; extra = "floor-3" ∷ [] }

abbrev requested : List String
requested = " suite 301 " ∷ "" ∷ "floor-3" ∷ []

validate_grant_lem_example :
    ((grants : List String) × (validate_grant requested zones new_database ≡ some grants)
      × ((zone : String)
          → (contains grants zone ≡ (not (zone == "") && contains (map strip_str requested) zone))
            × (contains grants zone
                ≡ (contains (known zones new_database) zone && contains grants zone))))
    ⊎ ((validate_grant requested zones new_database ≡ none)
        × ((zone : String) × (zone ≢ "")
            × (contains (map strip_str requested) zone ≡ true)
            × (contains (known zones new_database) zone ≡ false)))
validate_grant_lem_example = validate_grant_lem requested zones new_database
