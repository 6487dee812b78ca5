-- ===== src/Bacnet/Gate.antt =====
-- Who may talk to a device (bms/bacnet.py `BacnetClient._request`): a lock for each address, and a
-- semaphore over all of them, taken in this order. The tasks of the event loop interleave at every
-- `await`; a step of one task runs up to its next one.
pub mod Invariant
pub mod Drain
mod Tests
use building_controls.Prelude.{
  ℕ, suc, max, ◌≡◌, ap, Bool, true, false, String, none, some, List, [], ◌∷◌, ◌++◌, if◌then◌else◌,
  is_some, Eq, nat_eq, string_eq, list_eq, option_eq, pair_eq,
}
use building_controls.Prelude.Dict.{Dict, lookup, insert}

-- Where a task stands in `_request`: outside, waiting for the lock of the address, holding it and
-- waiting for the semaphore, or at the `yield`.
pub data Task : Type 0 where
  idle : Task
  queued : String → Task
  locked : String → Task
  inside : String → Task

pub record Gate : Type 0 where
  pub device_locks : Dict String Bool
  pub gate : ℕ
  pub tasks : List Task

-- `max(1, concurrency)`
abbrev pub capacity : ℕ → ℕ
capacity concurrency = max 1 concurrency

abbrev pub new_gate : ℕ → Gate
new_gate concurrency = record { device_locks = []; gate = capacity concurrency; tasks = [] }

-- `setdefault(address, asyncio.Lock())`
abbrev pub set_default : String → Dict String Bool → Dict String Bool
set_default address locks =
    if is_some (lookup address locks) then locks else insert address false locks

abbrev pub is_locked : String → Dict String Bool → Bool
is_locked address locks = elim (lookup address locks) [ none ↦ false | some b ↦ b ]

-- What a task in a request can do by itself: take the lock, take the semaphore, or leave and release
-- both.
pub data Move : Gate → Gate → Type 0 where
  take_lock :
      {locks : Dict String Bool} {g : ℕ} (before after : List Task) (a : String)
      → is_locked a locks ≡ false
      → Move
          (record { device_locks = locks; gate = g; tasks = before ++ queued a ∷ after })
          (record {
            device_locks = insert a true locks;
            gate = g;
            tasks = before ++ locked a ∷ after;
          })
  enter :
      {locks : Dict String Bool} {g : ℕ} (before after : List Task) (a : String)
      → Move
          (record { device_locks = locks; gate = suc g; tasks = before ++ locked a ∷ after })
          (record { device_locks = locks; gate = g; tasks = before ++ inside a ∷ after })
  leave :
      {locks : Dict String Bool} {g : ℕ} (before after : List Task) (a : String)
      → Move
          (record { device_locks = locks; gate = g; tasks = before ++ inside a ∷ after })
          (record {
            device_locks = insert a false locks;
            gate = suc g;
            tasks = before ++ idle ∷ after;
          })

-- A step of the loop: such a move, a new task, a task that asks for a device, or one that is cancelled
-- while it waits, and gives back what it holds.
pub data Step : Gate → Gate → Type 0 where
  moves : {s t : Gate} → Move s t → Step s t
  spawn : (s : Gate) → Step s (record s { tasks = s.tasks ++ idle ∷ [] })
  ask :
      {locks : Dict String Bool} {g : ℕ} (before after : List Task) (a : String)
      → Step
          (record { device_locks = locks; gate = g; tasks = before ++ idle ∷ after })
          (record {
            device_locks = set_default a locks;
            gate = g;
            tasks = before ++ queued a ∷ after;
          })
  cancel_queued :
      {locks : Dict String Bool} {g : ℕ} (before after : List Task) (a : String)
      → Step
          (record { device_locks = locks; gate = g; tasks = before ++ queued a ∷ after })
          (record { device_locks = locks; gate = g; tasks = before ++ idle ∷ after })
  cancel_locked :
      {locks : Dict String Bool} {g : ℕ} (before after : List Task) (a : String)
      → Step
          (record { device_locks = locks; gate = g; tasks = before ++ locked a ∷ after })
          (record { device_locks = insert a false locks; gate = g; tasks = before ++ idle ∷ after })

pub data Reach (concurrency : ℕ) : Gate → Type 0 where
  start : Reach concurrency (new_gate concurrency)
  later : {s t : Gate} → Reach concurrency s → Step s t → Reach concurrency t
