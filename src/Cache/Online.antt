-- ===== src/Cache/Online.antt =====
-- When a device counts as online, unstable and stale (bms/cache.py `DeviceState`).
use building_controls.Prelude.{
  ℕ, ◌+◌, ◌≤◌, ◌<◌, min, max, ◌≡◌, refl, ◌↔◌, true, false, String, Option, none, some, List, [],
  ◌∷◌, arith, ltb, if◌then◌else◌, length, nat_eq, string_eq, list_eq, option_eq, pair_eq,
}
use building_controls.Value.{Values}
use building_controls.Cache.{DeviceState, online, unstable, stale, succeeded, failed, smooth}

-- one missed poll after another
abbrev pub fail_all : List (String × ℕ) → DeviceState → DeviceState
fail_all [] s = s
fail_all ((error, now) ∷ misses) s = fail_all misses (failed error now s)

fail_all-counts :
    (misses : List (String × ℕ)) (s : DeviceState)
    → ((fail_all misses s).consecutive_failures ≡ s.consecutive_failures + length misses)
      × ((fail_all misses s).offline_after ≡ s.offline_after)
      × ((fail_all misses s).last_success ≡ s.last_success)
      × ((fail_all misses s).points ≡ s.points)
unfolding failed
fail_all-counts [] s = (omega arith, refl, refl, refl)
fail_all-counts (m ∷ misses) s = ground (arith, fail_all-counts misses (failed m.0 m.1 s))

-- After a successful poll followed by any run of missed polls, the device is online exactly while
-- the number of misses is below `offline_after`, it is unstable exactly when it is online and at
-- least one poll was missed, and the last values read stay in place.
pub online-after-misses :
    (points : Values) (elapsed : Option ℕ) (now : ℕ) (misses : List (String × ℕ)) (s : DeviceState)
    → let t = fail_all misses (succeeded points elapsed now s) in
      (online t ≡ ltb (length misses) s.offline_after)
      × (unstable t ≡ (if ltb 0 (length misses) then online t else false))
      × (t.points ≡ points)
unfolding online unstable succeeded
online-after-misses points none now misses s =
    ground (arith, fail_all-counts misses (succeeded points none now s))
online-after-misses points (some e) now misses s =
    ground (arith, fail_all-counts misses (succeeded points (some e) now s))

-- A device that has never answered is offline, whatever it missed.
pub online-never :
    (misses : List (String × ℕ)) (s : DeviceState)
    → s.last_success ≡ none
    → online (fail_all misses s) ≡ false
unfolding online
online-never misses s h = ground (arith, fail_all-counts misses s)

-- The smoothed round trip lies between the old average and the new sample.
pub smooth_bounds :
    (avg elapsed : ℕ)
    → (min avg elapsed ≤ smooth (some avg) elapsed) × (smooth (some avg) elapsed ≤ max avg elapsed)
unfolding smooth
smooth_bounds avg elapsed = omega arith

-- Staleness is decided by the last success alone: a reading taken at `at` is stale exactly when more
-- than `stale_after` has passed, and missed polls make nothing fresh.
pub stale_iff :
    (stale_after now : ℕ) (points : Values) (elapsed : Option ℕ) (at : ℕ)
    (misses : List (String × ℕ)) (s : DeviceState)
    → (stale stale_after now (fail_all misses (succeeded points elapsed at s)) ≡ true)
      ↔ (at + stale_after < now)
unfolding stale succeeded
stale_iff stale_after now points none at misses s =
    ground (arith, fail_all-counts misses (succeeded points none at s))
stale_iff stale_after now points (some e) at misses s =
    ground (arith, fail_all-counts misses (succeeded points (some e) at s))
