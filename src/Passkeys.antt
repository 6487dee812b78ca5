-- ===== src/Passkeys.antt =====
-- Step-up verification with passkeys (bms/passkeys.py). The WebAuthn library is a parameter: what its
-- verifiers answer, and its base64url coding. Times are milliseconds; a call that reads the clock
-- more than once takes each reading. A challenge that the library generates is an argument.
pub mod Challenges
pub mod Counter
mod Tests
pub mod Window
use building_controls.Prelude.{
  ℕ, ◌+◌, Bool, true, false, ◌&&◌, not, String, Option, none, some, List, [], ◌∷◌, ◌++◌, ltb, leb,
  if◌then◌else◌, is_nil, Eq, ◌==◌, nat_eq, string_eq, list_eq, option_eq, pair_eq,
}
use Prim.Native.String.{slice}
use building_controls.Prelude.Dict.{Dict, lookup, insert, erase}
use building_controls.Prelude.Table.{select, fetch_one, delete, update, count}
use building_controls.Database.{
  Purpose, registering, authenticating, purpose_eq, WebauthnCredential, WebauthnChallenge, Database,
  log, log_as,
}

abbrev pub challenge_ttl : ℕ
challenge_ttl = 180000

abbrev pub verification_window : ℕ
verification_window = 90000

-- the messages of `PasskeyError`
pub data PasskeyError : Type 0 where
  missing_challenge expired could_not_register no_passkey not_registered verification_failed :
      PasskeyError

pub data Result (A : Type 0) : Type 0 where
  ok : A → Result A
  raise : PasskeyError → Result A

-- what the browser sends: `_challenge` and `id`, and the rest, which only the library reads
pub record Assertion : Type 0 where
  pub challenge : Option String
  pub id : Option String
  pub payload : String

pub record Registered : Type 0 where
  pub credential_id : String
  pub public_key : String
  pub sign_count : ℕ

-- The library. `none` is an exception that a verifier raises; the relying party's id and origin are
-- fixed in it.
pub record Webauthn : Type 0 where
  pub decode : String → String
  pub encode : String → String
  -- payload and expected challenge
  pub verify_registration : String → String → Option Registered
  -- payload, expected challenge, public key and stored count
  pub verify_authentication : String → String → String → ℕ → Option ℕ

-- the database, and `_verified_at`
pub record State : Type 0 where
  pub db : Database
  pub verified_at : Dict ℕ ℕ

unfoldable pub credentials_for : ℕ → Database → List WebauthnCredential
credentials_for user_id db = select (λ r. r.user_id == user_id) db.webauthn_credential

unfoldable pub has_passkey : ℕ → Database → Bool
unfolding credentials_for
has_passkey user_id db = not (is_nil (credentials_for user_id db))

unfoldable pub delete_credential : ℕ → String → String → Database → Bool × Database
delete_credential user_id credential_id actor db =
    let p = λ (r : WebauthnCredential). r.user_id == user_id && r.credential_id == credential_id in
    let db' = record db { webauthn_credential = delete p db.webauthn_credential } in
    if ltb 0 (count p db.webauthn_credential)
    then (true, log actor "passkey.delete" (some (slice credential_id 0 16)) db')
    else (false, db')

abbrev pub challenge_row : String → ℕ → Purpose → ℕ → WebauthnChallenge
challenge_row challenge user_id purpose now = record {
  challenge = challenge;
  user_id = user_id;
  purpose = purpose;
  expires_at = now + challenge_ttl;
}

-- `_issue_challenge`, which the two calls below repeat after a `DELETE` instead of calling it
unfoldable pub issue_challenge : String → ℕ → Purpose → ℕ → Database → Database
issue_challenge challenge user_id purpose now db = record db {
  webauthn_challenge =
      delete (λ r. ltb r.expires_at now) db.webauthn_challenge
      ++ challenge_row challenge user_id purpose now ∷ [];
}

-- the two statements at the end of `registration_options` and of `authentication_options`
unfoldable pub replace_challenge : String → ℕ → Purpose → ℕ → Database → Database
replace_challenge challenge user_id purpose now db = record db {
  webauthn_challenge =
      delete (λ r. r.user_id == user_id && purpose_eq r.purpose purpose) db.webauthn_challenge
      ++ challenge_row challenge user_id purpose now ∷ [];
}

abbrev pub matching : ℕ → Purpose → String → WebauthnChallenge → Bool
matching user_id purpose challenge r =
    r.challenge == challenge && (r.user_id == user_id && purpose_eq r.purpose purpose)

-- `consume` after its `DELETE`: the checks on the row that was read before it
abbrev pub checked : Webauthn → ℕ → Option WebauthnChallenge → Result String
checked w now none = raise expired
checked w now (some r) = if ltb r.expires_at now then raise expired else ok (w.decode r.challenge)

unfoldable pub consume_challenge :
    Webauthn → ℕ → ℕ → Purpose → String → State → Result String × State
consume_challenge w now user_id purpose challenge s = (
  checked w now (fetch_one (matching user_id purpose challenge) s.db.webauthn_challenge),
  record s {
    db = record s.db {
      webauthn_challenge = delete (λ r. r.challenge == challenge) s.db.webauthn_challenge;
    };
  },
)

-- `credential.get("_challenge")`, which the code takes as missing when it is empty
abbrev pub presented : Assertion → Option String
presented a = elim a.challenge [ none ↦ none | some c ↦ if c == "" then none else some c ]

abbrev named_or_phone : String → String
named_or_phone label = if label == "" then "phone" else label

module _ (w : Webauthn) where
  unfoldable pub registration_options : String → ℕ → ℕ → Database → Database
  unfolding replace_challenge
  registration_options challenge user_id now db =
      replace_challenge (w.encode challenge) user_id registering now db

  unfoldable pub authentication_options : String → ℕ → ℕ → Database → Result String × Database
  unfolding replace_challenge credentials_for
  authentication_options challenge user_id now db =
      if is_nil (credentials_for user_id db) then (raise no_passkey, db) else (
        ok (w.encode challenge),
        replace_challenge (w.encode challenge) user_id authenticating now db,
      )

  -- the row that `INSERT OR REPLACE` writes
  abbrev pub enrolled : Registered → ℕ → String → ℕ → WebauthnCredential
  enrolled v user_id label now = record {
    credential_id = w.encode v.credential_id;
    user_id = user_id;
    public_key = v.public_key;
    sign_count = v.sign_count;
    label = named_or_phone label;
    created_at = now;
    last_used_at = none;
  }

  pub enrol : ℕ → String → String → ℕ → State → Option Registered → Result String × State
  enrol user_id label actor now s none = (raise could_not_register, s)
  enrol user_id label actor now s (some v) =
      let row = enrolled v user_id label now in
      (
        ok row.credential_id,
        record s {
          db = log actor "passkey.register" (some (named_or_phone label)) (record s.db {
            webauthn_credential =
                delete (λ r. r.credential_id == row.credential_id) s.db.webauthn_credential
                ++ row ∷ [];
          });
        },
      )

  unfoldable pub register : ℕ → ℕ → ℕ → Assertion → String → String → State → Result String × State
  unfolding consume_challenge enrol
  register now done user_id a label actor s = elim (presented a) [
    | none ↦ (raise missing_challenge, s)
    | some challenge ↦
        let (expected, s') = consume_challenge w now user_id registering challenge s in
        elim expected [
          | raise e ↦ (raise e, s')
          | ok c ↦ enrol user_id label actor done s' (w.verify_registration a.payload c)
        ]
  ]

  abbrev pub id_or_empty : Option String → String
  id_or_empty none = ""
  id_or_empty (some i) = i

  -- `SELECT ... WHERE credential_id = ? AND user_id = ?`; nothing equals NULL
  abbrev pub stored : Option String → ℕ → List WebauthnCredential → Option WebauthnCredential
  stored none user_id t = none
  stored (some i) user_id t = fetch_one (λ r. r.credential_id == i && r.user_id == user_id) t

  -- the end of `verify`, from the answer of the library on
  pub settle :
      ℕ → ℕ → Assertion → String → WebauthnCredential → State → Option ℕ → Result (Unit {0}) × State
  settle done user_id a actor row s none = (
    raise verification_failed,
    record s { db = log_as "error" actor "passkey.verify" (some (id_or_empty a.id)) s.db },
  )
  settle done user_id a actor row s (some new_count) =
      if ltb 0 row.sign_count && leb new_count row.sign_count
      then (
        raise verification_failed,
        record s { db = log_as "error" actor "passkey.verify" (some (id_or_empty a.id)) s.db },
      )
      else (
        ok tt,
        record {
          db = record s.db {
            webauthn_credential =
                update (λ r. r.credential_id == id_or_empty a.id)
                  (λ r. record r { sign_count = new_count; last_used_at = some done })
                  s.db.webauthn_credential;
          };
          verified_at = insert user_id done s.verified_at;
        },
      )

  -- `verify` once the challenge is consumed
  pub assess : ℕ → ℕ → Assertion → String → String → State → Result (Unit {0}) × State
  unfolding settle
  assess done user_id a actor expected s = elim (stored a.id user_id s.db.webauthn_credential) [
    | none ↦ (raise not_registered, s)
    | some row ↦
        settle done user_id a actor row s
          (w.verify_authentication a.payload expected row.public_key row.sign_count)
  ]

  unfoldable pub verify : ℕ → ℕ → ℕ → Assertion → String → State → Result (Unit {0}) × State
  unfolding consume_challenge assess
  verify now done user_id a actor s = elim (presented a) [
    | none ↦ (raise missing_challenge, s)
    | some challenge ↦
        let (expected, s') = consume_challenge w now user_id authenticating challenge s in
        elim expected [ raise e ↦ (raise e, s') | ok c ↦ assess done user_id a actor c s' ]
  ]

unfoldable pub recently_verified : ℕ → ℕ → State → Bool
recently_verified now user_id s = elim (lookup user_id s.verified_at) [
  | none ↦ false
  | some last ↦ leb now (last + verification_window)
]

unfoldable pub clear_verification : ℕ → State → State
clear_verification user_id s = record s { verified_at = erase user_id s.verified_at }
