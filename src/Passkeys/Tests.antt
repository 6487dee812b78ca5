-- ===== src/Passkeys/Tests.antt =====
-- Passkeys of one user on a library that counts up: instances of the theorems.
use building_controls.Prelude.{
  ℕ, ◌+◌, ◌≤◌, ◌≡◌, refl, ◌⊎◌, true, none, some, List, [], ◌∷◌, if◌then◌else◌, ◌==◌, nat_eq,
  string_eq, list_eq, option_eq, pair_eq,
}
use building_controls.Database.{new_database, WebauthnCredential, WebauthnChallenge, authenticating}
use building_controls.Prelude.Table.{fetch_one, delete}
use building_controls.Passkeys.{
  Result, ok, raise, expired, Assertion, Webauthn, State, verify, recently_verified, matching,
  consume_challenge,
}
use building_controls.Passkeys.Challenges.{verify_lem, verify-replay, Refused, Advances, Answered}
use building_controls.Passkeys.Window.{
  Event, verified, cleared, step, run, mark, last_success, within, recently_verified-run,
}

-- accepts every assertion but "bad", and answers with the next count
abbrev library : Webauthn
library = record {
  decode = λ s. s;
  encode = λ s. s;
  verify_registration = λ payload c. none;
  verify_authentication = λ payload c key n. if payload == "bad" then none else some (n + 1);
}

abbrev phone : WebauthnCredential
phone = record {
  credential_id = "cred";
  user_id = 7;
  public_key = "key";
  sign_count = 4;
  label = "phone";
  created_at = 0;
  last_used_at = none;
}

abbrev pending : WebauthnChallenge
pending = record { challenge = "abc"; user_id = 7; purpose = authenticating; expires_at = 180000 }

abbrev start : State
start = record {
  db = record new_database { webauthn_credential = phone ∷ []; webauthn_challenge = pending ∷ [] };
  verified_at = [];
}

abbrev answer : Assertion
answer = record { challenge = some "abc"; id = some "cred"; payload = "good" }

abbrev settled : Result (Unit {0}) × State
settled = verify library 1000 2000 7 answer "ann" start

verify_lem_example :
    (((r : WebauthnChallenge) × (row : WebauthnCredential) × (count : ℕ) × (settled.0 ≡ ok tt)
        × (fetch_one (matching 7 authenticating "abc") start.db.webauthn_challenge ≡ some r)
        × (1000 ≤ r.expires_at)
        × Answered library 7 answer r.challenge start row count
        × Advances library 2000 7 answer row count start settled.1)
      ⊎ Refused library start settled)
    × (settled.1.db.webauthn_challenge
        ≡ delete (λ x. x.challenge == "abc") start.db.webauthn_challenge)
verify_lem_example = verify_lem library 1000 2000 7 answer "ann" start "abc" refl

verify-replay_example :
    let (result, s'') = verify library 1500 2500 7 answer "ann" settled.1 in
    (result ≡ raise expired) × (s''.verified_at ≡ settled.1.verified_at)
verify-replay_example =
    verify-replay library 1000 2000 1500 2500 7 7 answer answer "ann" "ann" start "abc" refl refl

abbrev day_events : List Event
day_events = verified 1000 2000 7 answer "ann" ∷ cleared 8 ∷ verified 3000 4000 7 answer "ann" ∷ []

recently_verified-run_example :
    recently_verified 92000 7 (run library day_events start)
    ≡ within library 92000 (last_success library 7 day_events start none)
recently_verified-run_example = recently_verified-run library day_events start 7 92000 refl

succeeds_once : settled.0 ≡ ok tt
unfolding verify consume_challenge
succeeds_once = refl

noted_until : within library 92000 (last_success library 7 day_events start none) ≡ true
unfolding last_success mark step
noted_until = refl
