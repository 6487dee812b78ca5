-- ===== src/Api/Caller.antt =====
-- The caller of a route, its role and its devices (bms/api.py `current_user`, `require`,
-- `require_device`). An `HTTPException` is its status.
use building_controls.Prelude.{
  ℕ, ◌≤◌, ◌≡◌, refl, sym, ap, ◌⊎◌, inl, inr, Bool, true, false, ◌&&◌, not, String, Option, none,
  some, List, [], ◌∷◌, arith, if◌then◌else◌, Bool-cases, Option-cases, ◌==◌, nat_eq, string_eq,
  contains, list_eq, option_eq, pair_eq,
}
use mathlib.Core.List.{Mem}
use building_controls.Database.{Role, AppUser, Session, Database}
use building_controls.Auth.User.{User, at_least, may_access_zone}
use building_controls.Auth.Accounts.{load, resolve_session}
use building_controls.Auth.Accounts.Sessions.{resolve_session_sound}
use building_controls.Zones.{of_device}
use building_controls.Prelude.Dict.{Dict, lookup}

pub data Reply (A : Type 0) : Type 0 where
  ok : A → Reply A
  refused : ℕ → Reply A

-- `PASSWORD_CHANGE_EXEMPT`
abbrev pub exempt_paths : List String
exempt_paths =
    "/me" ∷ "/me/password" ∷ "/logout" ∷ "/login" ∷ "/ui/password" ∷ "/health" ∷ "/robots.txt" ∷ []

-- an empty cookie counts as none
unfoldable pub session_user :
    (String → String) → Option String → ℕ → Database → Option User × Database
session_user hash_token none now db = (none, db)
session_user hash_token (some token) now db =
    if token == "" then (none, db) else resolve_session hash_token token now db

abbrev pub admit : String → Option User → Reply User
admit path none = refused 401
admit path (some u) =
    if u.must_change_password && not (contains exempt_paths path) then refused 403 else ok u

unfoldable pub current_user :
    (String → String) → Option String → String → ℕ → Database → Reply User × Database
unfolding session_user
current_user hash_token cookie path now db =
    let found = session_user hash_token cookie now db in (admit path found.0, found.1)

unfoldable pub require : Role → User → Reply User
require role u = if at_least u role then ok u else refused 403

-- The inventory gives for each device the zone that it is configured with.
unfoldable pub require_device : Dict ℕ String → ℕ → User → Database → Reply ℕ
require_device inventory device_id u db = elim (lookup device_id inventory) [
  | none ↦ refused 404
  | some own ↦ if may_access_zone u (of_device device_id own db) then ok device_id else refused 404
]

-- a stored session that admits a caller as a stored account
pub record Admits (hash_token : String → String) (token path : String) (now : ℕ) (db : Database)
    (u : User) (s : Session) (r : AppUser) : Type 0 where
  pub stored : Mem s db.session
  pub registered : Mem r db.app_user
  pub carried : s.token_hash ≡ hash_token token
  pub current : now ≤ s.expires_at
  pub owned : r.id ≡ s.user_id
  pub active : r.active ≡ true
  pub loaded_from : u ≡ load r db
  pub settled : (u.must_change_password ≡ false) ⊎ (contains exempt_paths path ≡ true)

admit_ok :
    (path : String) (o : Option User) (u : User)
    → admit path o ≡ ok u
    → (o ≡ some u) × ((u.must_change_password ≡ false) ⊎ (contains exempt_paths path ≡ true))
admit_ok path none u h = ground arith
admit_ok path (some v) u h =
    elim (Bool-cases (v.must_change_password && not (contains exempt_paths path))) [
      | inl owes ↦ let g = rw owes at h in ground arith
      | inr free ↦
          let g = rw free at h in
          let e : v ≡ u = ground arith in
          (ap some e, rw (sym e) (either v.must_change_password (contains exempt_paths path) free))
    ]
  where
    either : (a b : Bool) → (a && not b) ≡ false → (a ≡ false) ⊎ (b ≡ true)
    either a b h = ground arith

-- A caller is admitted to a route only through a cookie that carries the token of a session of the
-- database that has not expired and belongs to an active account of the database, as which it is loaded,
-- and whose password is not owed a change unless the path is one of those open to such an account; and
-- then the database is unchanged.
pub current_user_lem :
    (hash_token : String → String) (cookie : Option String) (path : String) (now : ℕ)
    (db : Database) (u : User)
    → (current_user hash_token cookie path now db).0 ≡ ok u
    → ((token : String) × (s : Session) × (r : AppUser) × (cookie ≡ some token)
        × Admits hash_token token path now db u s r)
      × ((current_user hash_token cookie path now db).1 ≡ db)
unfolding current_user session_user
current_user_lem hash_token none path now db u h = ground arith
current_user_lem hash_token (some token) path now db u h = elim (Bool-cases (token == "")) [
  | inl blank ↦ let g = rw (blank, current_user) at h in ground arith
  | inr full ↦
      let g = rw (full, current_user) at h in
      let found = resolve_session hash_token token now db in
      let (whose, free) = admit_ok path found.0 u g in
      let ((s, r, ms, mr, c, t, o, a, l), same) =
        resolve_session_sound hash_token token now db u whose in
      (
        (
          token,
          s,
          r,
          refl,
          record {
            stored = ms;
            registered = mr;
            carried = c;
            current = t;
            owned = o;
            active = a;
            loaded_from = l;
            settled = free;
          },
        ),
        rw (full, current_user) same,
      )
]

-- A device is let through exactly where it is in the inventory, in a zone that the user may act on.
pub require_device-cases :
    (inventory : Dict ℕ String) (id : ℕ) (u : User) (db : Database)
    → (((own : String) × (lookup id inventory ≡ some own)
          × (may_access_zone u (of_device id own db) ≡ true))
        × (require_device inventory id u db ≡ ok id))
      ⊎ ((e : ℕ) × (require_device inventory id u db ≡ refused e))
unfolding require_device
require_device-cases inventory id u db = elim (Option-cases (lookup id inventory)) [
  | inl absent ↦ inr (404, rw (absent, require_device) refl)
  | inr (own, found) ↦ elim (Bool-cases (may_access_zone u (of_device id own db))) [
    | inl near ↦ inl ((own, found, near), rw (found, require_device) (rw near refl))
    | inr away ↦ inr (404, rw (found, require_device) (rw away refl))
  ]
]
