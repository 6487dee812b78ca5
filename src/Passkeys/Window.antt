-- ===== src/Passkeys/Window.antt =====
-- The times of verification over a sequence of calls.
use building_controls.Prelude.{
  ℕ, ◌+◌, ◌≡◌, refl, ap, ◌∙◌, inl, inr, Bool, true, false, ◌&&◌, String, Option, none, some, List,
  [], ◌∷◌, arith, leb, if◌then◌else◌, Option-cases, ◌==◌, nat_eq, string_eq, list_eq, option_eq,
  pair_eq,
}
use building_controls.Prelude.Dict.{lookup, lookup-insert, lookup-erase}
use building_controls.Passkeys.{
  Result, ok, raise, Assertion, Webauthn, State, presented, verify, recently_verified,
  clear_verification, verification_window,
}
use building_controls.Passkeys.Challenges.{verify_lem}

-- a call of `verify`, with the two readings of the clock, the user, the answer and the actor; and a
-- call of `clear_verification`
pub data Event : Type 0 where
  verified : ℕ → ℕ → ℕ → Assertion → String → Event
  cleared : ℕ → Event

abbrev pub succeeds : Result (Unit {0}) → Bool
succeeds (ok _) = true
succeeds (raise _) = false

module _ (w : Webauthn) where
  unfoldable pub step : Event → State → State
  unfolding verify clear_verification
  step (verified now done user_id a actor) s = (verify w now done user_id a actor s).1
  step (cleared user_id) s = clear_verification user_id s

  unfoldable pub run : List Event → State → State
  unfolding step
  run [] s = s
  run (e ∷ es) s = run es (step e s)

  -- the time of the last successful verification of a user since that user was last cleared
  unfoldable pub mark : ℕ → Event → State → Option ℕ → Option ℕ
  unfolding verify
  mark key (verified now done user_id a actor) s last =
      if user_id == key && succeeds (verify w now done user_id a actor s).0 then some done else last
  mark key (cleared user_id) s last = if user_id == key then none else last

  unfoldable pub last_success : ℕ → List Event → State → Option ℕ → Option ℕ
  unfolding mark step
  last_success key [] s last = last
  last_success key (e ∷ es) s last = last_success key es (step e s) (mark key e s last)

  abbrev pub within : ℕ → Option ℕ → Bool
  within now none = false
  within now (some done) = leb now (done + verification_window)

  verified-mark :
      (key now done user_id : ℕ) (a : Assertion) (actor : String) (s : State)
      → lookup key (verify w now done user_id a actor s).1.verified_at
        ≡ mark key (verified now done user_id a actor) s (lookup key s.verified_at)
  unfolding mark verify
  verified-mark key now done user_id a actor s = elim (Option-cases (presented a)) [
    | inl missing ↦ rw (missing, verify) (ground arith)
    | inr (c, given) ↦ elim (verify_lem w now done user_id a actor s c given).0 [
      | inl (_, _, _, fine, _, _, _, adv) ↦
          rw (fine, adv.noted) (ground (arith, lookup-insert user_id key done s.verified_at))
      | inr ((e, failed), same, _) ↦ rw (failed, same) (ground arith)
    ]
  ]

  step-mark :
      (key : ℕ) (e : Event) (s : State)
      → lookup key (step e s).verified_at ≡ mark key e s (lookup key s.verified_at)
  unfolding step mark clear_verification
  step-mark key (verified now done user_id a actor) s = verified-mark key now done user_id a actor s
  step-mark key (cleared user_id) s = lookup-erase user_id key s.verified_at

  run-last :
      (key : ℕ) (es : List Event) (s : State) (last : Option ℕ)
      → lookup key s.verified_at ≡ last
      → lookup key (run es s).verified_at ≡ last_success key es s last
  unfolding run last_success
  run-last key [] s last h = h
  run-last key (e ∷ es) s last h =
      run-last key es (step e s) (mark key e s last) (step-mark key e s ∙ ap (mark key e s) h)

  -- Over any sequence of verifications and clearances that starts with no time of verification, a user
  -- counts as recently verified exactly when that user's last successful verification since the user
  -- was last cleared ended no more than ninety seconds ago. Failed attempts, the attempts of other
  -- users and the uses of the window neither extend it nor end it.
  pub recently_verified-run :
      (es : List Event) (s : State) (user_id now : ℕ)
      → s.verified_at ≡ []
      → recently_verified now user_id (run es s) ≡ within now (last_success user_id es s none)
  unfolding recently_verified
  recently_verified-run es s user_id now start =
      let reached = run-last user_id es s none (rw start refl) in
      rw (reached, recently_verified)
        (elim (Option-cases (last_success user_id es s none)) [
          | inl never ↦ rw never refl
          | inr (done, at) ↦ rw at refl
        ])
