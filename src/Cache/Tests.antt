-- ===== src/Cache/Tests.antt =====
-- The cache on concrete devices: tests, and instances of the theorems.
use building_controls.Prelude.{
  ℕ, ◌≡◌, refl, String, none, some, List, [], ◌∷◌, nat_eq, string_eq, list_eq, option_eq, pair_eq,
}
use building_controls.Value.{Values, number}
use building_controls.Prelude.Int.{pos}
use building_controls.Cache.{DeviceState, Cache, fresh, empty, succeeded, smooth, modify, register}
use building_controls.Cache.Records.{
  Op, register_, success, failure, local_write, apply, run, AllConsistent, run-AllConsistent,
}

abbrev suite : DeviceState
suite = fresh 301 "Room 301" "floor-3" "192.168.1.101" 3

abbrev reading : Values
reading = ("space_temp", number (pos 71500)) ∷ []

abbrev misses : List (String × ℕ)
misses = ("timeout", 60000) ∷ ("timeout", 90000) ∷ ("timeout", 120000) ∷ []

abbrev operations : List Op
operations =
    register_ 301 "Room 301" "floor-3" "192.168.1.101"
    ∷ failure 301 "timeout" 1000
    ∷ success 301 reading (some 640) 31000
    ∷ success 301 reading (some 740) 61000
    ∷ local_write 301 "occ_cool_sp" (number (pos 72000))
    ∷ failure 301 "timeout" 91000
    ∷ []

abbrev cached : Cache
cached = record {
  devices = (301, suite) ∷ (302, fresh 302 "Room 302" "floor-3" "192.168.1.102" 3) ∷ [];
  stale_after = 90000;
  offline_after = 3;
}

abbrev after_operations : Cache
after_operations = elim (run operations (empty 90000 3)) [ none ↦ cached | some c ↦ c ]

run-AllConsistent_example : AllConsistent after_operations
unfolding run apply succeeded modify register
run-AllConsistent_example = run-AllConsistent 90000 3 operations after_operations refl

abbrev after_failure : Cache
after_failure = elim (apply (failure 301 "timeout" 5) cached) [ none ↦ cached | some c ↦ c ]

averages : smooth (some 640) 740 ≡ 660
unfolding smooth
averages = refl
