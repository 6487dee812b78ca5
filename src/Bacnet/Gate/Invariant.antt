-- ===== src/Bacnet/Gate/Invariant.antt =====
-- One request to a device at a time, and a bound on the requests in flight.
use building_controls.Prelude.{
  ℕ, ◌+◌, ◌≤◌, max, ◌≡◌, refl, inl, inr, Bool, true, false, String, List, [], ◌∷◌, ◌++◌, arith,
  eq_iff, if◌then◌else◌, Option-cases, ◌==◌, nat_eq, string_eq, list_eq, option_eq, pair_eq,
}
use building_controls.Prelude.Dict.{Dict, lookup, insert, lookup-insert}
use building_controls.Prelude.Table.{count}
use building_controls.Bacnet.Gate.{
  Task, idle, queued, locked, inside, Gate, capacity, set_default, is_locked, take_lock, enter,
  leave, Step, moves, spawn, ask, cancel_queued, cancel_locked, Reach, start, later,
}

-- The task holds the lock of the address.
abbrev pub holds : String → Task → Bool
holds a idle = false
holds a (queued b) = false
holds a (locked b) = b == a
holds a (inside b) = b == a

abbrev pub is_inside : Task → Bool
is_inside (inside a) = true
is_inside _ = false

abbrev as_number : Bool → ℕ
as_number b = if b then 1 else 0

count-append : (p : Task → Bool) (xs ys : List Task) → count p (xs ++ ys) ≡ count p xs + count p ys
count-append p [] ys = omega arith
count-append p (x ∷ xs) ys = ground (arith, count-append p xs ys)

-- A lock is taken exactly when one task holds it, and the semaphore counts the tasks inside.
pub record IsSound (limit : ℕ) (s : Gate) : Type 0 where
  pub owned : (a : String) → count (holds a) s.tasks ≡ as_number (is_locked a s.device_locks)
  pub counted : count is_inside s.tasks + s.gate ≡ limit

-- A task goes from `p` to `q` in the list.
count-moved :
    (f : Task → Bool) (before after : List Task) (p q : Task)
    → count f (before ++ q ∷ after) + as_number (f p)
      ≡ count f (before ++ p ∷ after) + as_number (f q)
count-moved f before after p q =
    ground (arith, count-append f before (p ∷ after), count-append f before (q ∷ after))

is_locked-insert :
    (a b : String) (v : Bool) (locks : Dict String Bool)
    → is_locked b (insert a v locks) ≡ (if a == b then v else is_locked b locks)
is_locked-insert a b v locks = ground (arith, lookup-insert a b v locks)

is_locked-set_default :
    (a b : String) (locks : Dict String Bool)
    → is_locked b (set_default a locks) ≡ is_locked b locks
is_locked-set_default a b locks = elim (Option-cases (lookup a locks)) [
  | inl fresh ↦ rw fresh (ground (arith, lookup-insert a b false locks, eq_iff a b))
  | inr (v, old) ↦ rw old refl
]

pub Step-IsSound : {limit : ℕ} {s t : Gate} → Step s t → IsSound limit s → IsSound limit t
Step-IsSound (moves (take_lock {locks} before after a free)) v = record {
  owned = λ b. ground (
    arith,
    count-moved (holds b) before after (queued a) (locked a),
    is_locked-insert a b true locks,
    eq_iff a b,
    v.owned b,
  );
  counted = ground (arith, count-moved is_inside before after (queued a) (locked a), v.counted);
}
Step-IsSound (moves (enter before after a)) v = record {
  owned = λ b. ground (arith, count-moved (holds b) before after (locked a) (inside a), v.owned b);
  counted = ground (arith, count-moved is_inside before after (locked a) (inside a), v.counted);
}
Step-IsSound (moves (leave {locks} before after a)) v = record {
  owned = λ b. ground (
    arith,
    count-moved (holds b) before after (inside a) idle,
    is_locked-insert a b false locks,
    eq_iff a b,
    v.owned b,
  );
  counted = ground (arith, count-moved is_inside before after (inside a) idle, v.counted);
}
Step-IsSound (spawn s) v = record {
  owned = λ b. ground (arith, count-append (holds b) s.tasks (idle ∷ []), v.owned b);
  counted = ground (arith, count-append is_inside s.tasks (idle ∷ []), v.counted);
}
Step-IsSound (ask {locks} before after a) v = record {
  owned = λ b. ground (
    arith,
    count-moved (holds b) before after idle (queued a),
    is_locked-set_default a b locks,
    v.owned b,
  );
  counted = ground (arith, count-moved is_inside before after idle (queued a), v.counted);
}
Step-IsSound (cancel_queued before after a) v = record {
  owned = λ b. ground (arith, count-moved (holds b) before after (queued a) idle, v.owned b);
  counted = ground (arith, count-moved is_inside before after (queued a) idle, v.counted);
}
Step-IsSound (cancel_locked {locks} before after a) v = record {
  owned = λ b. ground (
    arith,
    count-moved (holds b) before after (locked a) idle,
    is_locked-insert a b false locks,
    eq_iff a b,
    v.owned b,
  );
  counted = ground (arith, count-moved is_inside before after (locked a) idle, v.counted);
}

pub Reach-IsSound : {n : ℕ} {s : Gate} → Reach n s → IsSound (capacity n) s
Reach-IsSound start = record { owned = λ a. refl; counted = omega arith }
Reach-IsSound (later r st) = Step-IsSound st (Reach-IsSound r)

-- In every reachable state at most one task holds the lock of an address, so that no two requests to
-- one device overlap, and the requests in flight and the free places of the semaphore are together the
-- concurrency, which is one at least.
pub requests_bounded :
    {n : ℕ} {s : Gate}
    → Reach n s
    → ((a : String) → count (holds a) s.tasks ≤ 1) × (count is_inside s.tasks + s.gate ≡ max 1 n)
requests_bounded r = let v = Reach-IsSound r in ((λ a. ground (arith, v.owned a)), v.counted)
