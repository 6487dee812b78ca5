-- ===== src/Api/Login/Entry.antt =====
-- Who gets a session, and where the browser is sent then.
use building_controls.Prelude.{
  ℕ, ◌+◌, ◌++◌, [], ◌∷◌, ap, arith, ◌≡◌, refl, ◌∙◌, ◌⊎◌, inl, inr, Bool, true, false, ◌&&◌, ◌||◌,
  not, String, Option, none, some, List, Bool-cases, Option-cases, ◌==◌, nat_eq, string_eq, list_eq,
  option_eq, pair_eq,
}
use mathlib.Core.List.{Mem}
use building_controls.Prelude.Text.{Text, codes}
use building_controls.Prelude.Table.{fetch_one, fetch_one-holds, fetch_one-Mem, exists}
use building_controls.Database.{AppUser, Session, Database}
use building_controls.Auth.User.{User}
use building_controls.Auth.Throttle.{LoginThrottle, blocked, clear}
use building_controls.Auth.Password.{
  Result, Scrypt, Result-cases, hash_password, verify_password, needs_rehash,
}
use building_controls.Auth.Accounts.{
  named, upgrade, authenticate, create_session, session_ttl, ◌>>=◌,
}
use building_controls.Api.Login.{
  Gate, Login, signed_in, turned_away, raised, is_relative, target_of, enter, checked, login,
}

abbrev pub enters : Login → Bool
enters (signed_in token target) = true
enters (turned_away status) = false
enters (raised e) = false

target-IsRelative :
    (next : Text) (u : User)
    → (is_relative (target_of next u) ≡ true)
      × ((u.must_change_password ≡ false) ⊎ (target_of next u ≡ codes "/ui/password"))
unfolding target_of
target-IsRelative next u = elim (Bool-cases u.must_change_password) [
  | inl owes ↦ rw (owes, target_of) (refl, inr refl)
  | inr free ↦
      rw (free, target_of)
        (elim (Bool-cases (is_relative next)) [
          | inl fine ↦ rw (fine, target_of) (fine, inl refl)
          | inr far ↦ rw (far, target_of) (refl, inl refl)
        ])
]

upgrade-session :
    (scrypt : Scrypt) (salt : List ℕ) (r : AppUser) (password : Text) (db : Database)
    → (upgrade scrypt salt r password db).1.session ≡ db.session
unfolding upgrade
upgrade-session scrypt salt r password db = elim (Result-cases (needs_rehash r.password_hash)) [
  | inr (e, bad) ↦ rw (bad, upgrade) refl
  | inl (false, current) ↦ rw (current, upgrade) refl
  | inl (true, old) ↦ elim (Result-cases (hash_password scrypt salt password)) [
    | inr (e, bad) ↦ rw (old, upgrade) (rw (bad, upgrade) refl)
    | inl (hashed, made) ↦ rw (old, upgrade) (rw (made, upgrade) refl)
  ]
]

authenticate-session :
    (scrypt : Scrypt) (salt : List ℕ) (now : ℕ) (username : String) (password : Text)
    (db : Database)
    → (authenticate scrypt salt now username password db).1.session ≡ db.session
unfolding authenticate
authenticate-session scrypt salt now username password db =
    elim (Option-cases (fetch_one (λ r. named username r && r.active) db.app_user)) [
      | inl absent ↦
          elim (Result-cases (hash_password scrypt salt (codes "timing-equalising-dummy-value"))) [
            | inl (h, made) ↦ rw (absent, authenticate) (rw (made, authenticate) refl)
            | inr (e, bad) ↦ rw (absent, authenticate) (rw (bad, authenticate) refl)
          ]
      | inr (r, found) ↦ elim (Result-cases (verify_password scrypt password r.password_hash)) [
        | inr (e, bad) ↦ rw (found, authenticate) (rw (bad, authenticate) refl)
        | inl (false, wrong) ↦ rw (found, authenticate) (rw (wrong, authenticate) refl)
        | inl (true, good) ↦
            rw (found, authenticate)
              (rw (good, authenticate)
                (elim (Result-cases (upgrade scrypt salt r password db).0) [
                  | inl (d, upgraded) ↦
                      rw (upgraded, ◌>>=◌) (upgrade-session scrypt salt r password db)
                  | inr (e, bad) ↦ rw (bad, ◌>>=◌) (upgrade-session scrypt salt r password db)
                ]))
      ]
    ]

-- The user is an active account of the database that has this name, and the password is the account's.
abbrev pub Owns : Scrypt → String → Text → Database → User → Type 0
Owns scrypt username password db u =
    (r : AppUser) × Mem r db.app_user
    × (named username r ≡ true)
    × (r.active ≡ true)
    × (verify_password scrypt password r.password_hash ≡ Result.ok true)
    × ((u.id ≡ r.id) × (u.username ≡ r.username) × (u.role ≡ r.role))

authenticate-Owns :
    (scrypt : Scrypt) (salt : List ℕ) (now : ℕ) (username : String) (password : Text)
    (db : Database) (u : User)
    → (authenticate scrypt salt now username password db).0 ≡ Result.ok (some u)
    → Owns scrypt username password db u
unfolding authenticate
authenticate-Owns scrypt salt now username password db u h =
    let p = λ (r : AppUser). named username r && r.active in
    elim (Option-cases (fetch_one p db.app_user)) [
      | inl absent ↦
          elim (Result-cases (hash_password scrypt salt (codes "timing-equalising-dummy-value"))) [
            | inl (d, made) ↦ let g = rw (absent, made, authenticate) at h in ground arith
            | inr (e, bad) ↦ let g = rw (absent, bad, authenticate) at h in ground arith
          ]
      | inr (r, found) ↦ elim (Result-cases (verify_password scrypt password r.password_hash)) [
        | inr (e, bad) ↦ let g = rw (found, bad, authenticate) at h in ground arith
        | inl (false, wrong) ↦ let g = rw (found, wrong, authenticate) at h in ground arith
        | inl (true, good) ↦
            let here = fetch_one-holds p db.app_user r found in
            let own = rw (found, good, authenticate) at h in
            elim (Result-cases (upgrade scrypt salt r password db).0) [
              | inr (e, bad) ↦ let g = rw (bad, ◌>>=◌) at own in ground arith
              | inl (d, upgraded) ↦
                  let g = rw (upgraded, ◌>>=◌) at own in
                  (
                    r,
                    fetch_one-Mem p db.app_user r found,
                    ground arith,
                    ground arith,
                    good,
                    (ground arith, ground arith, ground arith),
                  )
            ]
      ]
    ]

module _ (lower hash_token : String → String) (username client : String) (next : Text) where
  -- a browser that is let in with a session of the user, and where it is sent
  abbrev pub Entered : String → ℕ → Option String → List Session → User → Login × Gate → Type 0
  Entered token now agent sessions u (reply, g') =
      (g'.db.session
        ≡ sessions
          ++ record {
            token_hash = hash_token token;
            user_id = u.id;
            expires_at = now + session_ttl;
            user_agent = agent;
          }
            ∷ [])
      × (target : Text) × (reply ≡ signed_in token target)
      × (is_relative target ≡ true)
      × ((u.must_change_password ≡ false) ⊎ (target ≡ codes "/ui/password"))

  -- a browser that is not, and no session for it
  abbrev pub Kept : Database → Login × Gate → Type 0
  Kept db (reply, g') = (enters reply ≡ false) × (g'.db.session ≡ db.session)

  enter_lem :
      (u : User) (t : LoginThrottle) (token : String) (now : ℕ) (agent : Option String)
      (db : Database)
      → Entered token now agent db.session u (
          enter lower hash_token username client next u t
            (create_session hash_token token now u agent db))
        ⊎ Kept db (
            enter lower hash_token username client next u t
              (create_session hash_token token now u agent db))
  unfolding enter create_session
  enter_lem u t token now agent db =
      elim (Bool-cases (
        exists (λ s. s.token_hash == hash_token token) db.session
        || not (exists (λ r. r.id == u.id) db.app_user))) [
          | inl clash ↦ rw (clash, enter) (inr (refl, refl))
          | inr fresh ↦
              let (safe, sent) = target-IsRelative next u in
              rw (fresh, enter) (inl (refl, target_of next u, refl, safe, sent))
        ]

  -- A login lets a browser in only when the throttle does not block it and there is an active account of
  -- that name in the database whose stored hash verifies the password: then one session is added, which
  -- carries the digest of the token handed out, is that account's and lasts for thirty days from now, and
  -- the browser is sent to a path of this site and nowhere else, and to the change of password when that
  -- is owed. In every other case the sessions stay as they were.
  pub login_lem :
      (scrypt : Scrypt) (salt : List ℕ) (token : String) (now : ℕ) (agent : Option String)
      (password : Text) (g : Gate)
      → let r =
          login lower hash_token username client next scrypt salt token now agent password g in
        ((u : User) × ((blocked lower username client now g.throttle).0 ≡ false)
          × ((authenticate scrypt salt now username password g.db).0 ≡ Result.ok (some u))
          × Owns scrypt username password g.db u
          × Entered token now agent g.db.session u r)
        ⊎ Kept g.db r
  unfolding login checked
  login_lem scrypt salt token now agent password g =
      let asked = blocked lower username client now g.throttle in
      let new : User → List Session = λ u.
        record {
          token_hash = hash_token token;
          user_id = u.id;
          expires_at = now + session_ttl;
          user_agent = agent;
        }
        ∷ [] in
      let attempt = authenticate scrypt salt now username password g.db in
      let same = authenticate-session scrypt salt now username password g.db in
      elim (Bool-cases asked.0) [
        | inl stop ↦ rw (stop, login) (inr (refl, refl))
        | inr pass ↦
            rw (pass, login)
              (elim (Result-cases attempt.0) [
                | inr (e, bad) ↦ rw (bad, login) (inr (refl, same))
                | inl (none, wrong) ↦ rw (wrong, login) (inr (refl, same))
                | inl (some u, good) ↦
                    rw (good, login)
                      (elim (enter_lem u (clear lower username client asked.1) token now agent
                        attempt.1) [
                          | inl (stored, target, sent, safe, owed) ↦ inl (
                            u,
                            refl,
                            refl,
                            authenticate-Owns scrypt salt now username password g.db u good,
                            (stored ∙ ap (λ l. l ++ new u) same, target, sent, safe, owed),
                          )
                          | inr (out, kept) ↦ inr (out, kept ∙ same)
                        ])
              ])
      ]
