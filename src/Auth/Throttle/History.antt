-- ===== src/Auth/Throttle/History.antt =====
-- The throttle forgets attempts as it goes. It decides as if it had kept every one, and counted those
-- after which less than the window has gone by.
use building_controls.Prelude.{
  ℕ, ◌<◌, ◌+◌, ap, lt→ltb, ◌≤◌, ◌≡◌, refl, String, List, [], ◌∷◌, ◌++◌, arith, eq_iff, leb,
  if◌then◌else◌, length, ◌==◌, nat_eq, string_eq, list_eq, option_eq, pair_eq,
}
use Prim.Native.Nat.{suc}
use native.Mathlib.Decide.{dec_lt}
use building_controls.Prelude.Dict.{insert, erase, lookup-insert, lookup-erase}
use building_controls.Auth.Throttle.{
  LoginThrottle, new_throttle, recent, attempts_of, prune, key_of, blocked, record_failure, clear,
}

module _ (window : ℕ) where
  length-recent-le : (now : ℕ) (ts : List ℕ) → length (recent window now ts) ≤ length ts
  unfolding recent
  length-recent-le now [] = omega arith
  length-recent-le now (t ∷ ts) = ground (arith, length-recent-le now ts)

  -- how many of these times lie less than the window before `now`
  pub younger : ℕ → List ℕ → ℕ
  younger now [] = 0
  younger now (t ∷ ts) = elim (dec_lt now (t + window)) [
    | yes young ↦ suc (younger now ts)
    | no old ↦ younger now ts
  ]

  pub length-recent : (now : ℕ) (ts : List ℕ) → length (recent window now ts) ≡ younger now ts
  unfolding recent younger
  length-recent now [] = refl
  length-recent now (t ∷ ts) = counted (length-recent now ts) (dec_lt now (t + window))
    where
      counted :
          length (recent window now ts) ≡ younger now ts
          → (d : Dec (now < t + window))
          → length (recent window now (t ∷ ts))
            ≡ (elim d [ yes young ↦ suc (younger now ts) | no old ↦ younger now ts ])
      counted ih (yes young) = rw (lt→ltb _ _ young, recent) (ap suc ih)
      counted ih (no old) = ground (arith, ih)

  -- What an earlier prune drops, a later one would have dropped.
  pub recent-recent :
      (early late : ℕ) (ts : List ℕ)
      → early ≤ late
      → recent window late (recent window early ts) ≡ recent window late ts
  unfolding recent
  recent-recent early late [] h = refl
  recent-recent early late (t ∷ ts) h = ground (arith, recent-recent early late ts h)

  pub recent-append :
      (now : ℕ) (ts us : List ℕ)
      → recent window now (ts ++ us) ≡ recent window now ts ++ recent window now us
  unfolding recent
  recent-append now [] us = refl
  recent-append now (t ∷ ts) us = ground (arith, recent-append now ts us)

pub data Event : Type 0 where
  asked failed : String → String → ℕ → Event
  cleared : String → String → Event

module _ (lower : String → String) where
  -- the calls of the login handler, in their order
  unfoldable pub step : Event → LoginThrottle → LoginThrottle
  unfolding blocked record_failure clear
  step (asked username client now) t = (blocked lower username client now t).1
  step (failed username client now) t = record_failure lower username client now t
  step (cleared username client) t = clear lower username client t

  pub run : List Event → LoginThrottle → LoginThrottle
  unfolding step
  run [] t = t
  run (e ∷ es) t = run es (step e t)

  -- every failure on the key since it was last cleared, with none forgotten
  unfoldable pub remember : String → Event → List ℕ → List ℕ
  remember key (asked username client now) h = h
  remember key (failed username client now) h =
      if key_of lower username client == key then h ++ now ∷ [] else h
  remember key (cleared username client) h = if key_of lower username client == key then [] else h

  pub history : String → List Event → List ℕ → List ℕ
  unfolding remember
  history key [] h = h
  history key (e ∷ es) h = history key es (remember key e h)

  -- the clock never runs backwards, and shows at most `now` at the end
  abbrev pub InOrder : ℕ → List Event → ℕ → Type 0
  InOrder last [] now = last ≤ now
  InOrder last (asked _ _ t ∷ es) now = (last ≤ t) × InOrder t es now
  InOrder last (failed _ _ t ∷ es) now = (last ≤ t) × InOrder t es now
  InOrder last (cleared _ _ ∷ es) now = InOrder last es now

  -- From `last` on the stored attempts count as the remembered ones do.
  abbrev Agrees : ℕ → ℕ → String → LoginThrottle → List ℕ → Type 0
  Agrees window last key t h =
      (t.window ≡ window)
      × ((now : ℕ) → last ≤ now → recent window now (attempts_of t key) ≡ recent window now h)

  attempts-insert :
      (k key : String) (v : List ℕ) (t : LoginThrottle)
      → attempts_of (record t { attempts = insert k v t.attempts }) key
        ≡ (if k == key then v else attempts_of t key)
  attempts-insert k key v t = ground (arith, lookup-insert k key v t.attempts)

  attempts-erase :
      (k key : String) (t : LoginThrottle)
      → attempts_of (record t { attempts = erase k t.attempts }) key
        ≡ (if k == key then [] else attempts_of t key)
  attempts-erase k key t = ground (arith, lookup-erase k key t.attempts)

  prune-attempts :
      (k key : String) (now : ℕ) (t : LoginThrottle)
      → attempts_of (prune k now t).1 key
        ≡ (if k == key then recent t.window now (attempts_of t key) else attempts_of t key)
  unfolding prune
  prune-attempts k key now t =
      ground (arith, eq_iff k key, attempts-insert k key (recent t.window now (attempts_of t k)) t)

  record-attempts :
      (username client key : String) (now : ℕ) (t : LoginThrottle)
      → attempts_of (record_failure lower username client now t) key ≡ (
          if key_of lower username client == key
          then recent t.window now (attempts_of t key) ++ now ∷ []
          else attempts_of t key)
  unfolding record_failure
  record-attempts username client key now t =
      let k = key_of lower username client in
      ground (
        arith,
        eq_iff k key,
        attempts-insert k key ((prune k now t).0 ++ now ∷ []) (prune k now t).1,
        prune-attempts k key now t,
      )

  module _ (window : ℕ) (key : String) where
    asked-Agrees :
        (username client : String) (last now : ℕ) (t : LoginThrottle) (h : List ℕ)
        → last ≤ now
        → Agrees window last key t h
        → Agrees window now key (blocked lower username client now t).1 h
    unfolding blocked
    asked-Agrees username client last now t h le (same, agree) = (
      same,
      λ later at. ground (
        arith,
        prune-attempts (key_of lower username client) key now t,
        recent-recent window now later (attempts_of t key),
        agree later,
        same,
      ),
    )

    failed-Agrees :
        (username client : String) (last now : ℕ) (t : LoginThrottle) (h : List ℕ)
        → last ≤ now
        → Agrees window last key t h
        → Agrees window now key
            (record_failure lower username client now t)
            (remember key (failed username client now) h)
    unfolding remember
    failed-Agrees username client last now t h le (same, agree) = (
      kept,
      λ later at. ground (
        arith,
        record-attempts username client key now t,
        recent-recent window now later (attempts_of t key),
        agree later,
        same,
        recent-append window later (recent window now (attempts_of t key)) (now ∷ []),
        recent-append window later h (now ∷ []),
      ),
    )
      where
        kept : (record_failure lower username client now t).window ≡ window
        kept = unfold record_failure in same

    cleared-Agrees :
        (username client : String) (last : ℕ) (t : LoginThrottle) (h : List ℕ)
        → Agrees window last key t h
        → Agrees window last key
            (clear lower username client t)
            (remember key (cleared username client) h)
    unfolding clear remember
    cleared-Agrees username client last t h (same, agree) = (
      same,
      λ later at. ground (arith, attempts-erase (key_of lower username client) key t, agree later),
    )

    run-Agrees :
        (es : List Event) (last now : ℕ) (t : LoginThrottle) (h : List ℕ)
        → InOrder last es now
        → Agrees window last key t h
        → (recent window now (attempts_of (run es t) key) ≡ recent window now (history key es h))
          × ((run es t).max_attempts ≡ t.max_attempts)
          × ((run es t).window ≡ window)
    unfolding run history step remember
    run-Agrees [] last now t h o (same, agree) = (agree now o, refl, same)
    run-Agrees (asked username client at ∷ es) last now t h o agree =
        run-Agrees es at now (blocked lower username client at t).1 h o.1
          (asked-Agrees username client last at t h o.0 agree)
    run-Agrees (failed username client at ∷ es) last now t h o agree =
        run-Agrees es at now (record_failure lower username client at t)
          (remember key (failed username client at) h) o.1
          (failed-Agrees username client last at t h o.0 agree)
    run-Agrees (cleared username client ∷ es) last now t h o agree =
        run-Agrees es last now (clear lower username client t)
          (remember key (cleared username client) h) o
          (cleared-Agrees username client last t h agree)

  -- Over any sequence of calls in the order of a clock that does not run backwards, starting with
  -- no attempts stored, the throttle refuses a login exactly when, of the failures recorded under the
  -- same user name and client since they were last cleared, there are at least `max_attempts` after which
  -- less than the window has gone by (`younger` counts them by the order of the numbers). Each failure counts once, and calls under another key do not count.
  pub blocked-run :
      (max_attempts window : ℕ) (es : List Event) (username client : String) (now : ℕ)
      → InOrder 0 es now
      → (blocked lower username client now (run es (new_throttle max_attempts window))).0
        ≡ leb max_attempts (younger window now (history (key_of lower username client) es []))
  unfolding blocked
  blocked-run max_attempts window es username client now o =
      let start = new_throttle max_attempts window in
      let key = key_of lower username client in
      let (counts, cap, same) =
        run-Agrees window key es 0 now start [] o (refl, λ later at. refl) in
      rw (cap, same, counts) (ap (leb max_attempts) (length-recent window now (history key es [])))
