-- ===== src/Zones.antt =====
-- Resolving the zone of a device, and the zones that can be granted (bms/zones.py). A `ValueError` is
-- `none`.
pub mod Grants
mod Tests
use building_controls.Prelude.{
  ℕ, ap, Bool, true, false, ◌&&◌, ◌||◌, String, Option, none, some, List, [], ◌∷◌, ◌++◌, map, leb,
  nat_beq, if◌then◌else◌, length, is_nil, Eq, ◌==◌, nat_eq, string_eq, contains, list_eq, option_eq,
  pair_eq,
}
use building_controls.Prelude.Dict.{Dict, lookup, values}
use building_controls.Prelude.Text.{Text, codes, is_digit, strip_str}
use building_controls.Prelude.Sort.{order_by}
use building_controls.Database.{Database}
use building_controls.Store.Intent.{device_zone, device_zones, set_device_zone}

pub record Zones : Type 0 where
  -- `_defaults`: the zone that each device is configured with
  pub defaults : Dict ℕ String
  -- `_extra`: zones that only doors and lights are configured with
  pub extra : List String

abbrev extra_of : List String → List String
extra_of [] = []
extra_of (z ∷ zs) =
    if strip_str z == "" || strip_str z == "*" then extra_of zs else strip_str z ∷ extra_of zs

unfoldable pub new_zones : Dict ℕ String → List String → Zones
new_zones devices extra_zones = record { defaults = devices; extra = extra_of extra_zones }

-- `if override: return override`, and what is returned without one
abbrev pub override_or : String → Option String → String
override_or default none = default
override_or default (some z) = if z == "" then default else z

abbrev pub configured : ℕ → Zones → String
configured device_id zs = elim (lookup device_id zs.defaults) [ none ↦ "default" | some z ↦ z ]

-- `of` on an id; on a configured device its own zone takes the place of the default
unfoldable pub of_id : ℕ → Zones → Database → String
of_id device_id zs db = override_or (configured device_id zs) (device_zone device_id db)

unfoldable pub of_device : ℕ → String → Database → String
of_device device_id own db = override_or own (device_zone device_id db)

abbrev is_alnum : ℕ → Bool
is_alnum c = is_digit c || leb b'A' c && leb c b'Z' || leb b'a' c && leb c b'z'

abbrev all_named : Text → Bool
all_named [] = true
all_named (c ∷ s) =
    (is_alnum c || nat_beq c b' ' || nat_beq c b'_' || nat_beq c b'-') && all_named s

-- `_VALID`, on a text that is stripped
unfoldable pub valid_name : Text → Bool
valid_name [] = false
valid_name (c ∷ s) = is_alnum c && leb (length s) 63 && all_named s

unfoldable pub set : ℕ → String → String → Database → Option Database
set device_id zone actor db =
    let z = strip_str zone in
    if z == ""
    then none
    else if valid_name (codes z)
    then some (set_device_zone device_id z actor db)
    else none

abbrev pub dedupe : List String → List String
dedupe [] = []
dedupe (x ∷ xs) = if contains xs x then dedupe xs else x ∷ dedupe xs

-- `sorted({...})`
unfoldable pub sorted_set : List String → List String
sorted_set xs = order_by codes (dedupe xs)

unfoldable pub known : Zones → Database → List String
known zs db = sorted_set (values zs.defaults ++ values (device_zones db) ++ zs.extra)

-- the loop of `validate_grant`: the cleaned and the unknown ones
pub sort_out : List String → List String → List String × List String
sort_out known_zones [] = ([], [])
sort_out known_zones (z ∷ zs) =
    let (cleaned, unknown) = sort_out known_zones zs in
    if strip_str z == ""
    then (cleaned, unknown)
    else if contains known_zones (strip_str z)
    then (strip_str z ∷ cleaned, unknown)
    else (cleaned, strip_str z ∷ unknown)

pub answer : List String × List String → Option (List String)
answer (cleaned, unknown) = if is_nil unknown then some (sorted_set cleaned) else none

unfoldable pub validate_grant : List String → Zones → Database → Option (List String)
unfolding sort_out answer
validate_grant requested zs db = answer (sort_out (known zs db) requested)

-- `map`
unfoldable pub zone_map : Zones → Database → Dict ℕ String
zone_map zs db = with_overrides zs.defaults
  where
    with_overrides : Dict ℕ String → Dict ℕ String
    with_overrides [] = []
    with_overrides ((d, z) ∷ rest) =
        (d, elim (lookup d (device_zones db)) [ none ↦ z | some o ↦ o ]) ∷ with_overrides rest
