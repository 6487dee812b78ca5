-- ===== src/Auth/Accounts/Renewal.antt =====
-- A new session after a change of password.
use building_controls.Prelude.{
  ℕ, ◌+◌, ◌≡◌, refl, sym, ap, ◌∙◌, ◌≢◌, inl, inr, Bool, true, false, ◌&&◌, String, Option, none,
  some, List, [], ◌∷◌, ◌++◌, arith, ltb, if◌then◌else◌, Bool-cases, Option-cases, is_some, ◌==◌,
  nat_eq, string_eq, beq_of_ne, list_eq, option_eq, pair_eq,
}
use building_controls.Prelude.Text.{Text}
use building_controls.Prelude.Table.{fetch_one, fetch_one-append, fetch_one-update, fetch_one-holds}
use building_controls.Database.{AppUser, Session, Database}
use building_controls.Auth.User.{User}
use building_controls.Auth.Password.{ok, Scrypt, hash_password, verify_password, Result-cases}
use building_controls.Auth.Accounts.{
  owner, loaded, create_session, resolve_session, session_ttl, revoke_all_sessions,
  change_own_password, replace_password,
}
use building_controls.Auth.Accounts.Sessions.{create_session-fresh}

found_or_none :
    (q : Session → Bool) (t : List Session)
    → (if is_some (fetch_one q t) then fetch_one q t else none) ≡ fetch_one q t
found_or_none q t = elim (Option-cases (fetch_one q t)) [
  | inl absent ↦ rw absent refl
  | inr (s, found) ↦ rw found refl
]

loaded_same :
    (o : Option AppUser) (db : Database) (sessions : List Session)
    → loaded o (record db { session = sessions }) ≡ loaded o db
loaded_same none db sessions = refl
loaded_same (some r) db sessions = refl

-- A new session does not change what other tokens resolve to.
pub other-create_session :
    (hash_token : String → String) (token other : String) (now later : ℕ) (user : User)
    (agent : Option String) (db : Database)
    → (create_session hash_token token now user agent db).0 ≡ ok token
    → hash_token other ≢ hash_token token
    → (resolve_session hash_token other later
        (create_session hash_token token now user agent db).1).0
      ≡ (resolve_session hash_token other later db).0
unfolding resolve_session
other-create_session hash_token token other now later user agent db made ne =
    let (_, shape) = create_session-fresh hash_token token now user agent db made in
    let s : Session = record {
      token_hash = hash_token token;
      user_id = user.id;
      expires_at = now + session_ttl;
      user_agent = agent;
    } in
    let q = λ (x : Session). x.token_hash == hash_token other && is_some (owner db x) in
    let apart : (hash_token token == hash_token other) ≡ false =
      beq_of_ne (hash_token token) (hash_token other) (λ e. ne (sym e)) in
    let same : fetch_one q (db.session ++ s ∷ []) ≡ fetch_one q db.session =
      fetch_one-append q db.session (s ∷ []) ∙ rw apart (found_or_none q db.session) in
    ap (λ d. (resolve_session hash_token other later d).0) shape
    ∙ elim (Option-cases (fetch_one q db.session)) [
      | inl absent ↦ let absent' = same ∙ absent in rw (absent', absent, resolve_session) refl
      | inr (t, found) ↦
          let found' = same ∙ found in
          elim (Bool-cases (ltb t.expires_at later)) [
            | inl late ↦ rw (found', found, resolve_session) (rw late refl)
            | inr early ↦
                rw (found', found, resolve_session)
                  (rw early (loaded_same (owner db t) db (db.session ++ s ∷ [])))
          ]
    ]

-- the row of an account after its password was replaced
abbrev pub IsRenewed : AppUser → AppUser → Type 0
IsRenewed r r' = (r'.id ≡ r.id) × (r'.username ≡ r.username) × (r'.must_change_password ≡ false)

replaced_row :
    (scrypt : Scrypt) (salt : List ℕ) (user : User) (current new : Text) (db : Database)
    (r : AppUser)
    → (replace_password scrypt salt user current new db).0 ≡ ok true
    → fetch_one (λ u. u.id == user.id && u.active) db.app_user ≡ some r
    → (r' : AppUser) × (fetch_one
          (λ u. u.id == user.id && u.active)
          (replace_password scrypt salt user current new db).1.app_user
        ≡ some r')
      × IsRenewed r r'
unfolding replace_password revoke_all_sessions
replaced_row scrypt salt user current new db r done active = elim (Bool-cases (current == new)) [
  | inl same ↦ let g = rw (same, replace_password) at done in ground arith
  | inr differs ↦ elim (Result-cases (hash_password scrypt salt new)) [
    | inr (e, failed) ↦
        let g = rw (failed, replace_password) at (rw (differs, replace_password) at done) in
        ground arith
    | inl (hashed, made) ↦
        let f =
          λ (u : AppUser). record u { password_hash = hashed; must_change_password = false } in
        let mine = fetch_one-holds (λ u. u.id == user.id && u.active) db.app_user r active in
        let here : (r.id == user.id) ≡ true = ground arith in
        let moved =
          fetch_one-update (λ u. u.id == user.id && u.active) (λ u. u.id == user.id) f db.app_user r
            (λ x. refl) active in
        (
          f r,
          rw (differs, replace_password) (rw (made, replace_password) (rw here at moved)),
          (refl, refl, refl),
        )
  ]
]

-- After `change_own_password` returned true, the active row of the account is still there, under its id
-- and its name, and asks for no change any more.
pub change_own_password-IsRenewed :
    (scrypt : Scrypt) (salt : List ℕ) (user : User) (current new : Text) (db : Database)
    (r : AppUser)
    → (change_own_password scrypt salt user current new db).0 ≡ ok true
    → fetch_one (λ u. u.id == user.id && u.active) db.app_user ≡ some r
    → (r' : AppUser) × (fetch_one
          (λ u. u.id == user.id && u.active)
          (change_own_password scrypt salt user current new db).1.app_user
        ≡ some r')
      × IsRenewed r r'
unfolding change_own_password
change_own_password-IsRenewed scrypt salt user current new db r done active =
    elim (Option-cases (fetch_one (λ u. u.id == user.id) db.app_user)) [
      | inl absent ↦ let g = rw (absent, change_own_password) at done in ground arith
      | inr (x, found) ↦ elim (Result-cases (verify_password scrypt current x.password_hash)) [
        | inr (e, failed) ↦
            let g = rw (failed, change_own_password) at (rw (found, change_own_password) at done) in
            ground arith
        | inl (false, bad) ↦
            let g = rw (bad, change_own_password) at (rw (found, change_own_password) at done) in
            ground arith
        | inl (true, good) ↦
            let g = rw (good, change_own_password) at (rw (found, change_own_password) at done) in
            rw (found, change_own_password)
              (rw (good, change_own_password)
                (replaced_row scrypt salt user current new db r g active))
      ]
    ]
