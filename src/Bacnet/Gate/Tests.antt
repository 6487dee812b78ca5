-- ===== src/Bacnet/Gate/Tests.antt =====
-- Two tasks that ask for one thermostat, and one that asks for another, with room for one request.
use building_controls.Prelude.{
  ◌+◌, ◌≤◌, ◌≡◌, refl, ◌⊎◌, true, false, String, [], ◌∷◌, All, nat_eq, string_eq, list_eq,
  option_eq, pair_eq,
}
use building_controls.Prelude.Table.{count}
use building_controls.Bacnet.Gate.{
  idle, queued, locked, inside, Gate, Move, take_lock, enter, moves, spawn, ask, Reach, start,
  later,
}
use building_controls.Bacnet.Gate.Invariant.{holds, is_inside, requests_bounded}
use building_controls.Bacnet.Gate.Drain.{is_idle, Run, done, step, requests_finish}

abbrev room_301 : String
room_301 = "192.168.1.101"

abbrev room_302 : String
room_302 = "192.168.1.102"

abbrev asked : Gate
asked = record {
  device_locks = (room_301, false) ∷ (room_302, false) ∷ [];
  gate = 1;
  tasks = queued room_301 ∷ queued room_301 ∷ queued room_302 ∷ [];
}

asked-Reach : Reach 1 asked
asked-Reach =
    let three = later (later (later start (spawn _)) (spawn _)) (spawn _) in
    let first = later three (ask [] (idle ∷ idle ∷ []) room_301) in
    let second = later first (ask (queued room_301 ∷ []) (idle ∷ []) room_301) in
    later second (ask (queued room_301 ∷ queued room_301 ∷ []) [] room_302)

abbrev busy : Gate
busy = record {
  device_locks = (room_301, true) ∷ (room_302, true) ∷ [];
  gate = 0;
  tasks = inside room_301 ∷ queued room_301 ∷ locked room_302 ∷ [];
}

busy-Run : Run asked 3 busy
busy-Run =
    let one = step done (take_lock [] (queued room_301 ∷ queued room_302 ∷ []) room_301 refl) in
    let two = step one (take_lock (locked room_301 ∷ queued room_301 ∷ []) [] room_302 refl) in
    step two (enter [] (queued room_301 ∷ locked room_302 ∷ []) room_301)

busy-Reach : Reach 1 busy
busy-Reach =
    let one =
      later asked-Reach
        (moves (take_lock [] (queued room_301 ∷ queued room_302 ∷ []) room_301 refl)) in
    let two =
      later one (moves (take_lock (locked room_301 ∷ queued room_301 ∷ []) [] room_302 refl)) in
    later two (moves (enter [] (queued room_301 ∷ locked room_302 ∷ []) room_301))

requests_bounded_example :
    ((a : String) → count (holds a) busy.tasks ≤ 1) × (count is_inside busy.tasks + 0 ≡ 1)
requests_bounded_example = requests_bounded busy-Reach

requests_finish_example :
    (3 ≤ 9) × (All (λ p. is_idle p ≡ true) busy.tasks ⊎ ((u : Gate) × Move busy u))
requests_finish_example = requests_finish asked-Reach busy-Run
