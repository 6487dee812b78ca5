-- ===== src/Passkeys/Challenges.antt =====
-- A challenge serves one verification, of the user that it was issued to.
use building_controls.Prelude.{
  ℕ, ◌≤◌, ◌<◌, ◌≡◌, refl, ◌⊎◌, inl, inr, false, ◌&&◌, String, Option, none, some, arith, ltb, leb,
  Bool-cases, Option-cases, ◌==◌, nat_eq, string_eq, list_eq, option_eq, pair_eq,
}
use building_controls.Prelude.Dict.{insert}
use building_controls.Prelude.Table.{fetch_one, delete, update, fetch_one-delete_covered}
use building_controls.Database.{authenticating, WebauthnCredential, WebauthnChallenge}
use building_controls.Passkeys.{
  PasskeyError, expired, Result, ok, raise, Assertion, Webauthn, State, matching, consume_challenge,
  presented, id_or_empty, stored, settle, assess, verify,
}

module _ (w : Webauthn) where
  -- What a refusal leaves: the credentials and the times of verification as they were.
  abbrev pub Refused : State → Result (Unit {0}) × State → Type 0
  Refused s (result, s') =
      ((e : PasskeyError) × (result ≡ raise e))
      × (s'.verified_at ≡ s.verified_at)
      × (s'.db.webauthn_credential ≡ s.db.webauthn_credential)

  -- What a verification that succeeds does, when the library answers with a count.
  pub record Advances (done user_id : ℕ) (a : Assertion) (row : WebauthnCredential) (count : ℕ)
      (s s' : State) : Type 0 where
    pub advanced : (row.sign_count ≡ 0) ⊎ (row.sign_count < count)
    pub updated :
        s'.db.webauthn_credential
        ≡ update
            (λ x. x.credential_id == id_or_empty w a.id)
            (λ x. record x { sign_count = count; last_used_at = some done })
            s.db.webauthn_credential
    pub noted : s'.verified_at ≡ insert user_id done s.verified_at

  settle_lem :
      (done user_id : ℕ) (a : Assertion) (actor : String) (row : WebauthnCredential) (s : State)
      (answer : Option ℕ)
      → let (result, s') = settle w done user_id a actor row s answer in
        (((count : ℕ) × (answer ≡ some count)
            × (result ≡ ok tt)
            × Advances done user_id a row count s s')
          ⊎ Refused s (result, s'))
        × (s'.db.webauthn_challenge ≡ s.db.webauthn_challenge)
  unfolding settle
  settle_lem done user_id a actor row s none = (inr ((_, refl), refl, refl), refl)
  settle_lem done user_id a actor row s (some count) =
      elim (Bool-cases (ltb 0 row.sign_count && leb count row.sign_count)) [
        | inl stale ↦ rw stale (inr ((_, refl), refl, refl), refl)
        | inr fine ↦ rw fine (
          inl (
            count,
            refl,
            refl,
            record { advanced = from_test row.sign_count count fine; updated = refl; noted = refl },
          ),
          refl,
        )
      ]
    where
      from_test : (old new : ℕ) → (ltb 0 old && leb new old) ≡ false → (old ≡ 0) ⊎ (old < new)
      from_test old new h = ground arith

  -- What a verification that succeeds has read before it settles.
  pub record Answered (user_id : ℕ) (a : Assertion) (expected : String) (s : State)
      (row : WebauthnCredential) (count : ℕ) : Type 0 where
    pub enrolled : stored w a.id user_id s.db.webauthn_credential ≡ some row
    pub answered :
        w.verify_authentication a.payload expected row.public_key row.sign_count ≡ some count

  assess_lem :
      (done user_id : ℕ) (a : Assertion) (actor expected : String) (s : State)
      → let (result, s') = assess w done user_id a actor expected s in
        (((row : WebauthnCredential) × (count : ℕ) × (result ≡ ok tt)
            × Answered user_id a expected s row count
            × Advances done user_id a row count s s')
          ⊎ Refused s (result, s'))
        × (s'.db.webauthn_challenge ≡ s.db.webauthn_challenge)
  unfolding assess
  assess_lem done user_id a actor expected s =
      elim (Option-cases (stored w a.id user_id s.db.webauthn_credential)) [
        | inl unknown ↦ rw (unknown, assess) (inr ((_, refl), refl, refl), refl)
        | inr (row, enrolled) ↦
            let answer = w.verify_authentication a.payload expected row.public_key row.sign_count in
            let (outcome, same) = settle_lem done user_id a actor row s answer in
            rw (enrolled, assess)
              (
                elim outcome [
                  | inl (count, answered, fine, adv) ↦
                      inl
                        (row, count, fine, record { enrolled = enrolled; answered = answered }, adv)
                  | inr refused ↦ inr refused
                ],
                same,
              )
      ]

  absent_refused :
      (now done user_id : ℕ) (a : Assertion) (actor : String) (s : State) (c : String)
      → presented a ≡ some c
      → fetch_one (matching user_id authenticating c) s.db.webauthn_challenge ≡ none
      → let (result, s') = verify w now done user_id a actor s in
        (result ≡ raise expired) × (s'.verified_at ≡ s.verified_at)
  unfolding verify consume_challenge
  absent_refused now done user_id a actor s c given absent =
      rw (given, verify) (rw (absent, verify) (refl, refl))

  -- `verify` either succeeds, and then the challenge presented was issued to that user for signing in
  -- and has not expired, the credential is the user's, the library accepted the assertion, the counter
  -- advanced or was 0, and the new count and the time are stored; or it raises, and no credential and
  -- no time of verification changed. In both cases the challenge presented is gone.
  pub verify_lem :
      (now done user_id : ℕ) (a : Assertion) (actor : String) (s : State) (c : String)
      → presented a ≡ some c
      → let (result, s') = verify w now done user_id a actor s in
        (((r : WebauthnChallenge) × (row : WebauthnCredential) × (count : ℕ) × (result ≡ ok tt)
            × (fetch_one (matching user_id authenticating c) s.db.webauthn_challenge ≡ some r)
            × (now ≤ r.expires_at)
            × Answered user_id a (w.decode r.challenge) s row count
            × Advances done user_id a row count s s')
          ⊎ Refused s (result, s'))
        × (s'.db.webauthn_challenge ≡ delete (λ x. x.challenge == c) s.db.webauthn_challenge)
  unfolding verify consume_challenge
  verify_lem now done user_id a actor s c given =
      rw (given, verify)
        (elim (Option-cases
          (fetch_one (matching user_id authenticating c) s.db.webauthn_challenge)) [
            | inl absent ↦ rw (absent, verify) (inr ((_, refl), refl, refl), refl)
            | inr (r, issued) ↦ elim (Bool-cases (ltb r.expires_at now)) [
              | inl late ↦ rw issued (rw late (inr ((_, refl), refl, refl), refl))
              | inr current ↦
                  let t : State = record s {
                    db = record s.db {
                      webauthn_challenge = delete (λ x. x.challenge == c) s.db.webauthn_challenge;
                    };
                  } in
                  let (outcome, same) = assess_lem done user_id a actor (w.decode r.challenge) t in
                  rw issued (
                    rw (current, verify)
                      (
                        elim outcome [
                          | inl (row, count, fine, ans, adv) ↦ inl (
                            r,
                            row,
                            count,
                            fine,
                            refl,
                            ground arith,
                            record { enrolled = ans.enrolled; answered = ans.answered },
                            record {
                              advanced = adv.advanced;
                              updated = adv.updated;
                              noted = adv.noted;
                            },
                          )
                          | inr refused ↦ inr refused
                        ],
                        same,
                      ))
            ]
          ])

  -- A challenge that was presented once is refused when it is presented again, by whichever user, with
  -- whatever answer and at whatever time, and the second attempt verifies nobody.
  pub verify-replay :
      (now done now' done' user_id user_id' : ℕ) (a a' : Assertion) (actor actor' : String)
      (s : State) (c : String)
      → presented a ≡ some c
      → presented a' ≡ some c
      → let s' = (verify w now done user_id a actor s).1 in
        let (result, s'') = verify w now' done' user_id' a' actor' s' in
        (result ≡ raise expired) × (s''.verified_at ≡ s'.verified_at)
  verify-replay now done now' done' user_id user_id' a a' actor actor' s c given given' =
      let s' = (verify w now done user_id a actor s).1 in
      let gone = (verify_lem now done user_id a actor s c given).1 in
      let absent : fetch_one (matching user_id' authenticating c) s'.db.webauthn_challenge ≡ none =
        rw gone (
          fetch_one-delete_covered (matching user_id' authenticating c) (λ x. x.challenge == c)
            s.db.webauthn_challenge (λ x h. ground arith)) in
      absent_refused now' done' user_id' a' actor' s' c given' absent
