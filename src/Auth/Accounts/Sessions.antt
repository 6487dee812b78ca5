-- ===== src/Auth/Accounts/Sessions.antt =====
-- The life of a session: from its creation to its expiry or its revocation.
use building_controls.Prelude.{
  ℕ, ◌+◌, ◌≤◌, ◌≡◌, refl, sym, ap, ◌∙◌, ◌≢◌, inl, inr, Bool, true, ◌&&◌, String, Option, none, some,
  List, [], ◌∷◌, ◌++◌, arith, leb, if◌then◌else◌, Option-cases, is_some, ◌==◌, nat_eq, string_eq,
  beq_refl, eq_of_beq, beq_of_ne, list_eq, option_eq, pair_eq,
}
use mathlib.Core.List.{Mem}
use building_controls.Prelude.Table.{
  fetch_one, fetch_one-holds, fetch_one-Mem, fetch_one-delete_covered, fetch_one-delete_apart,
  fetch_one-append,
}
use building_controls.Database.{AppUser, Session, Database}
use building_controls.Auth.User.{User}
use building_controls.Auth.Password.{ok}
use building_controls.Auth.Accounts.{
  load, owner, create_session, resolve_session, revoke_session, session_ttl,
}

module _ (hash_token : String → String) where
  abbrev pub carries : String → Session → Bool
  carries token s = s.token_hash == hash_token token

  -- Whatever `resolve_session` returns comes from an active account that is stored, through a stored
  -- session of that token that has not expired; it changes nothing but the sessions, and nothing at all when it returns a user.
  pub resolve_session_sound :
      (token : String) (now : ℕ) (db : Database) (u : User)
      → (resolve_session hash_token token now db).0 ≡ some u
      → ((s : Session) × (r : AppUser) × Mem s db.session
          × Mem r db.app_user
          × (s.token_hash ≡ hash_token token)
          × (now ≤ s.expires_at)
          × (r.id ≡ s.user_id)
          × (r.active ≡ true)
          × (u ≡ load r db))
        × ((resolve_session hash_token token now db).1 ≡ db)
  unfolding resolve_session
  resolve_session_sound token now db u h =
      let q = λ (s : Session). s.token_hash == hash_token token && is_some (owner db s) in
      elim (Option-cases (fetch_one q db.session)) [
        | inl absent ↦ ground arith
        | inr (s, found) ↦ elim (Option-cases (owner db s)) [
          | inl none_ ↦ ground (arith, fetch_one-holds q db.session s found)
          | inr (r, owns) ↦
              let mine = fetch_one-holds (λ u. u.id == s.user_id && u.active) db.app_user r owns in
              let held = fetch_one-holds q db.session s found in
              (
                (
                  s,
                  r,
                  fetch_one-Mem q db.session s found,
                  fetch_one-Mem (λ u. u.id == s.user_id && u.active) db.app_user r owns,
                  eq_of_beq s.token_hash (hash_token token) (ground arith),
                  ground arith,
                  ground arith,
                  ground arith,
                  ground arith,
                ),
                ground arith,
              )
        ]
      ]

  pub create_session-fresh :
      (token : String) (now : ℕ) (user : User) (agent : Option String) (db : Database)
      → (create_session hash_token token now user agent db).0 ≡ ok token
      → (fetch_one (carries token) db.session ≡ none)
        × ((create_session hash_token token now user agent db).1 ≡ record db {
          session =
              db.session
              ++ record {
                token_hash = hash_token token;
                user_id = user.id;
                expires_at = now + session_ttl;
                user_agent = agent;
              }
                ∷ [];
        })
  unfolding create_session
  create_session-fresh token now user agent db h = ground arith

  none-weaken :
      (q p : Session → Bool) (t : List Session)
      → ((s : Session) → p s ≡ true → q s ≡ true)
      → fetch_one q t ≡ none
      → fetch_one p t ≡ none
  none-weaken q p [] f h = refl
  none-weaken q p (s ∷ t) f h = ground (arith, f s, none-weaken q p t f)

  resolve_found :
      (token : String) (later : ℕ) (db : Database) (s : Session) (r : AppUser)
      → fetch_one (λ x. carries token x && is_some (owner db x)) db.session ≡ some s
      → owner db s ≡ some r
      → (resolve_session hash_token token later db).0
        ≡ (if leb later s.expires_at then some (load r db) else none)
  unfolding resolve_session
  resolve_found token later db s r found owns = rw (found, resolve_session) (ground arith)

  -- A session that was created for an active account resolves to that account at every time up to
  -- thirty days later, and at every time after that to nobody.
  pub create-resolve :
      (token : String) (now later : ℕ) (user : User) (agent : Option String) (db : Database)
      (r : AppUser)
      → fetch_one (λ u. u.id == user.id && u.active) db.app_user ≡ some r
      → (create_session hash_token token now user agent db).0 ≡ ok token
      → (resolve_session hash_token token later
          (create_session hash_token token now user agent db).1).0
        ≡ (if leb later (now + session_ttl) then some (load r db) else none)
  create-resolve token now later user agent db r active made =
      let (new, shape) = create_session-fresh token now user agent db made in
      let s : Session = record {
        token_hash = hash_token token;
        user_id = user.id;
        expires_at = now + session_ttl;
        user_agent = agent;
      } in
      let q = λ (x : Session). carries token x && is_some (owner db x) in
      let old = none-weaken (carries token) q db.session (λ x k. ground arith) new in
      let app = fetch_one-append q db.session (s ∷ []) in
      let self = beq_refl (hash_token token) in
      let found : fetch_one q (db.session ++ s ∷ []) ≡ some s = rw (app, old, self, active) in
      let db' : Database = record db { session = db.session ++ s ∷ [] } in
      ap (λ d. (resolve_session hash_token token later d).0) shape
      ∙ resolve_found token later db' s r found active

  -- A revoked token resolves to nobody, at any time, and every token of another digest resolves as it
  -- did before.
  pub revoke-resolve :
      (token other : String) (now : ℕ) (db : Database)
      → hash_token other ≢ hash_token token
      → ((resolve_session hash_token token now (revoke_session hash_token token db)).0 ≡ none)
        × ((resolve_session hash_token other now (revoke_session hash_token token db)).0
            ≡ (resolve_session hash_token other now db).0)
  unfolding revoke_session resolve_session
  revoke-resolve token other now db ne =
      let q = λ (x : String) (s : Session). carries x s && is_some (owner db s) in
      let gone =
        fetch_one-delete_covered (q token) (carries token) db.session (λ s h. ground arith) in
      let kept = fetch_one-delete_apart (q other) (carries token) db.session (λ s h.
        beq_of_ne s.token_hash (hash_token token)
          (λ e. ne (sym (eq_of_beq s.token_hash (hash_token other) (ground arith)) ∙ e))) in
      (rw (gone, resolve_session) refl, rw (kept, resolve_session) (ground arith))
