-- ===== src/Bacnet/Gate/Drain.antt =====
-- No deadlock: the requests that are under way finish.
use building_controls.Prelude.{
  ℕ, suc, ◌+◌, ◌-◌, ◌*◌, ◌≤◌, ◌<◌, max, ◌≡◌, refl, ap, ◌⊎◌, inl, inr, Bool, true, false, String,
  List, [], ◌∷◌, ◌++◌, arith, Bool-cases, length, All, nat_eq, string_eq, list_eq, option_eq,
  pair_eq,
}
use native.Mathlib.Decide.{dec_lt}
use building_controls.Prelude.Dict.{Dict}
use building_controls.Prelude.Table.{count}
use building_controls.Bacnet.Gate.{
  Task, idle, queued, locked, inside, Gate, is_locked, Move, take_lock, enter, leave, Reach, later,
  moves,
}
use building_controls.Bacnet.Gate.Invariant.{holds, is_inside, IsSound, Reach-IsSound}

-- the moves that a task has before it
abbrev stage : Task → ℕ
stage idle = 0
stage (inside a) = 1
stage (locked a) = 2
stage (queued a) = 3

abbrev pub work : List Task → ℕ
work [] = 0
work (p ∷ l) = stage p + work l

abbrev pub is_idle : Task → Bool
is_idle idle = true
is_idle _ = false

-- `k` moves, in any order
pub data Run : Gate → ℕ → Gate → Type 0 where
  done : {s : Gate} → Run s 0 s
  step : {s t u : Gate} {k : ℕ} → Run s k t → Move t u → Run s (suc k) u

work-append : (xs ys : List Task) → work (xs ++ ys) ≡ work xs + work ys
work-append [] ys = omega arith
work-append (x ∷ xs) ys = omega (arith, work-append xs ys)

work-moved :
    (before after : List Task) (p q : Task)
    → work (before ++ q ∷ after) + stage p ≡ work (before ++ p ∷ after) + stage q
work-moved before after p q =
    omega (arith, work-append before (p ∷ after), work-append before (q ∷ after))

Move-work : {s t : Gate} → Move s t → work s.tasks ≡ suc (work t.tasks)
Move-work (take_lock before after a free) =
    omega (arith, work-moved before after (queued a) (locked a))
Move-work (enter before after a) = omega (arith, work-moved before after (locked a) (inside a))
Move-work (leave before after a) = omega (arith, work-moved before after (inside a) idle)

Run-work : {s t : Gate} {k : ℕ} → Run s k t → work s.tasks ≡ k + work t.tasks
Run-work done = omega arith
Run-work (step r m) = omega (arith, Run-work r, Move-work m)

work-le : (l : List Task) → work l ≤ 3 * length l
work-le [] = omega arith
work-le (idle ∷ l) = omega (arith, work-le l)
work-le (inside a ∷ l) = omega (arith, work-le l)
work-le (locked a ∷ l) = omega (arith, work-le l)
work-le (queued a ∷ l) = omega (arith, work-le l)

Run-Reach : {n k : ℕ} {s t : Gate} → Reach n s → Run s k t → Reach n t
Run-Reach r done = r
Run-Reach r (step run m) = later (Run-Reach r run) (moves m)

-- A place in the list where the test holds.
record Found (p : Task → Bool) (l : List Task) : Type 0 where
  before : List Task
  task : Task
  after : List Task
  here : l ≡ before ++ task ∷ after
  holds_there : p task ≡ true

find : (p : Task → Bool) (l : List Task) → 0 < count p l → Found p l
find p [] h = absurd (omega arith)
find p (x ∷ l) h = elim (Bool-cases (p x)) [
  | inl yes_ ↦ record { before = []; task = x; after = l; here = refl; holds_there = yes_ }
  | inr no_ ↦
      let f = find p l (ground arith) in
      record {
        before = x ∷ f.before;
        task = f.task;
        after = f.after;
        here = ap (λ t. x ∷ t) f.here;
        holds_there = f.holds_there;
      }
]

abbrev is_waiting_gate : Task → Bool
is_waiting_gate (locked a) = true
is_waiting_gate _ = false

abbrev is_queued : Task → Bool
is_queued (queued a) = true
is_queued _ = false

abbrev Moves : Dict String Bool → ℕ → List Task → Type 0
Moves locks g tasks = (u : Gate) × Move (record { device_locks = locks; gate = g; tasks = tasks }) u

leaves :
    (locks : Dict String Bool) (g : ℕ) (before after : List Task) (p : Task)
    → is_inside p ≡ true
    → Moves locks g (before ++ p ∷ after)
leaves locks g before after idle h = ground arith
leaves locks g before after (queued a) h = ground arith
leaves locks g before after (locked a) h = ground arith
leaves locks g before after (inside a) h = (_, leave before after a)

enters :
    (locks : Dict String Bool) (g : ℕ) (before after : List Task) (p : Task)
    → is_waiting_gate p ≡ true
    → Moves locks (suc g) (before ++ p ∷ after)
enters locks g before after idle h = ground arith
enters locks g before after (queued a) h = ground arith
enters locks g before after (locked a) h = (_, enter before after a)
enters locks g before after (inside a) h = ground arith

takes :
    (locks : Dict String Bool) (g : ℕ) (before after : List Task) (p : Task)
    → ((a : String) → is_locked a locks ≡ false)
    → is_queued p ≡ true
    → Moves locks g (before ++ p ∷ after)
takes locks g before after idle free h = ground arith
takes locks g before after (queued a) free h = (_, take_lock before after a (free a))
takes locks g before after (locked a) free h = ground arith
takes locks g before after (inside a) free h = ground arith

none_held :
    (a : String) (l : List Task)
    → count is_inside l ≡ 0
    → count is_waiting_gate l ≡ 0
    → count (holds a) l ≡ 0
none_held a [] h k = refl
none_held a (idle ∷ l) h k = none_held a l h k
none_held a (queued b ∷ l) h k = none_held a l h k
none_held a (locked b ∷ l) h k = absurd (omega arith)
none_held a (inside b ∷ l) h k = absurd (omega arith)

work-eq-zero :
    (l : List Task)
    → count is_inside l ≡ 0
    → count is_waiting_gate l ≡ 0
    → count is_queued l ≡ 0
    → All (λ p. is_idle p ≡ true) l
work-eq-zero [] a b c = tt
work-eq-zero (idle ∷ l) a b c = (refl, work-eq-zero l a b c)
work-eq-zero (queued x ∷ l) a b c = absurd (omega arith)
work-eq-zero (locked x ∷ l) a b c = absurd (omega arith)
work-eq-zero (inside x ∷ l) a b c = absurd (omega arith)

moved_at :
    (locks : Dict String Bool) (g : ℕ) {l l' : List Task}
    → l ≡ l'
    → Moves locks g l'
    → Moves locks g l
moved_at locks g e m = rw e m

progress :
    {limit : ℕ} (locks : Dict String Bool) (g : ℕ) (l : List Task)
    → 0 < limit
    → IsSound limit (record { device_locks = locks; gate = g; tasks = l })
    → All (λ p. is_idle p ≡ true) l ⊎ Moves locks g l
progress locks g l pos v = elim (dec_lt 0 (count is_inside l)) [
  | yes busy ↦
      let f = find is_inside l busy in
      inr (moved_at locks g f.here (leaves locks g f.before f.after f.task f.holds_there))
  | no quiet ↦ elim (dec_lt 0 (count is_waiting_gate l)) [
    | yes waiting ↦
        let f = find is_waiting_gate l waiting in
        let e : g ≡ suc (g - 1) = omega (arith, v.counted) in
        inr (
          rw e (
            moved_at locks (suc (g - 1)) f.here
              (enters locks (g - 1) f.before f.after f.task f.holds_there)))
    | no none_waiting ↦ elim (dec_lt 0 (count is_queued l)) [
      | yes asking ↦
          let f = find is_queued l asking in
          let free : (a : String) → is_locked a locks ≡ false =
            λ a. ground (arith, v.owned a, none_held a l (omega arith) (omega arith)) in
          inr (moved_at locks g f.here (takes locks g f.before f.after f.task free f.holds_there))
      | no nobody ↦ inl (work-eq-zero l (omega arith) (omega arith) (omega arith))
    ]
  ]
]

-- From every reachable state, in whatever order the tasks go on, and as long as nobody asks anew or
-- gives up: no more than three moves for each task are possible, and after any number of them either
-- every task is outside, or another move is possible. So no set of waiting tasks blocks itself.
pub requests_finish :
    {n k : ℕ} {s t : Gate}
    → Reach n s
    → Run s k t
    → (k ≤ 3 * length s.tasks) × (All (λ p. is_idle p ≡ true) t.tasks ⊎ ((u : Gate) × Move t u))
requests_finish {n} {s = s} {t = t} r run = (
  omega (arith, Run-work run, work-le s.tasks),
  progress {limit = max 1 n} t.device_locks t.gate t.tasks (omega arith)
      (Reach-IsSound (Run-Reach r run)),
)
