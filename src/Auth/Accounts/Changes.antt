-- ===== src/Auth/Accounts/Changes.antt =====
-- Accounts: creation, signing in, and their grants of zones.
use building_controls.Prelude.{
  ℕ, ◌≡◌, refl, ◌⊎◌, inl, inr, Bool, true, false, ◌&&◌, ◌||◌, not, String, none, some, List, [],
  ◌∷◌, ◌++◌, map, arith, eq_iff, nat_beq_iff, if◌then◌else◌, Option-cases, All, ◌==◌, nat_eq,
  string_eq, beq_refl, contains, list_eq, option_eq, pair_eq,
}
use building_controls.Prelude.Text.{Text, codes}
use building_controls.Prelude.Int.{ℤ}
use building_controls.Prelude.Table.{select, fetch_one, delete, exists, fetch_one-append}
use building_controls.Database.{Role, AppUser, UserZone, Database, fold_case}
use building_controls.Auth.User.{User, parse_role}
use building_controls.Auth.Password.{
  Error, ok, raise, Result-cases, Scrypt, hash_password, verify_password, needs_rehash,
}
use building_controls.Auth.Password.Hex.{Byte}
use building_controls.Auth.Password.Laws.{hash-verify}
use building_controls.Auth.Accounts.{
  named, load, new_row, upgrade, insert_zone, insert_zones, create_user, authenticate, set_zones,
}

absent-weaken :
    (q p : AppUser → Bool) (t : List AppUser)
    → ((u : AppUser) → p u ≡ true → q u ≡ true)
    → fetch_one q t ≡ none
    → fetch_one p t ≡ none
absent-weaken q p [] f h = refl
absent-weaken q p (u ∷ t) f h = ground (arith, f u, absent-weaken q p t f)

-- What a successful call of `create_user` did.
abbrev pub Created :
    Scrypt → List ℕ → String → Text → String → String → Bool → Database → ℕ → Database → Type 0
Created scrypt salt username password role display_name must_change db id db' =
    (r : Role) × (hashed : Text) × (parse_role role ≡ some r)
    × (hash_password scrypt salt password ≡ ok hashed)
    × (fetch_one (named username) db.app_user ≡ none)
    × (id ≡ db.next_user)
    × (db'.app_user ≡ db.app_user ++ new_row id username display_name hashed r must_change ∷ [])

-- `create_user` succeeds only under a known role, with a password that can be hashed and a name that no
-- account has, up to the case of its letters; then one new active row is added to the accounts. In
-- every other case it raises, and the database is unchanged.
pub create_user_lem :
    (scrypt : Scrypt) (salt : List ℕ) (username : String) (password : Text)
    (role display_name : String) (zones : List String) (actor : String) (must_change : Bool)
    (db : Database)
    → let (result, db') =
        create_user scrypt salt username password role display_name zones actor must_change db in
      ((id : ℕ) × (result ≡ ok id)
        × Created scrypt salt username password role display_name must_change db id db')
      ⊎ (((e : Error) × (result ≡ raise e)) × (db' ≡ db))
unfolding create_user
create_user_lem scrypt salt username password role display_name zones actor must_change db =
    elim (Option-cases (parse_role role)) [
      | inl unknown ↦ rw (unknown, create_user) (inr ((_, refl), refl))
      | inr (r, known) ↦ elim (Result-cases (hash_password scrypt salt password)) [
        | inr (e, failed) ↦ rw (known, failed, create_user) (inr ((_, refl), refl))
        | inl (hashed, made) ↦ elim (Option-cases (fetch_one (named username) db.app_user)) [
          | inr (other, taken) ↦ rw (known, made, taken, create_user) (inr ((_, refl), refl))
          | inl free ↦
              rw (known, made, free, create_user)
                (inl (db.next_user, refl, (r, hashed, refl, refl, refl, refl, refl)))
        ]
      ]
    ]

signs_in :
    (scrypt : Scrypt) (salt : List ℕ) (now : ℕ) (username : String) (password : Text)
    (db : Database) (r : AppUser)
    → fetch_one (λ u. named username u && u.active) db.app_user ≡ some r
    → verify_password scrypt password r.password_hash ≡ ok true
    → needs_rehash r.password_hash ≡ ok false
    → (authenticate scrypt salt now username password db).0 ≡ ok (some (load r db))
unfolding authenticate upgrade
signs_in scrypt salt now username password db r found good current =
    rw (found, authenticate) (rw good (rw (current, upgrade) refl))

-- An account that was just created signs in with its password, and is loaded with the id, the name, the
-- role and the forced change that it was created with.
pub create-authenticate :
    (scrypt : Scrypt)
    (bytes : (password : Text) (salt : List ℕ) (n r p : ℤ) (len : ℕ) (key : List ℕ)
      → scrypt password salt n r p len ≡ ok key
      → All Byte key)
    (salt other_salt : List ℕ) (username : String) (password : Text) (role display_name : String)
    (zones : List String) (actor : String) (must_change : Bool) (now id : ℕ) (db : Database)
    → All Byte salt
    → (create_user scrypt salt username password role display_name zones actor must_change db).0
      ≡ ok id
    → (user : User) × ((authenticate scrypt other_salt now username password
          (create_user scrypt salt username password role display_name zones actor must_change
            db).1).0
        ≡ ok (some user))
      × (user.id ≡ id)
      × (user.username ≡ username)
      × (parse_role role ≡ some user.role)
      × (user.must_change_password ≡ must_change)
create-authenticate scrypt bytes salt other_salt username password role display_name zones actor
      must_change now id db salted made =
    let db' =
      (create_user scrypt salt username password role display_name zones actor must_change db).1 in
    elim (create_user_lem scrypt salt username password role display_name zones actor must_change
      db) [
        | inr ((e, raised), same) ↦ absurd (cc)
        | inl (i, result, (r, hashed, known, hashes, free, next, rows)) ↦
            let row = new_row i username display_name hashed r must_change in
            let (_, current, good, _) =
              hash-verify scrypt bytes salt password hashed salted hashes in
            let q = λ (u : AppUser). named username u && u.active in
            let none_old =
              absent-weaken (named username) q db.app_user (λ u k. ground arith) free in
            let self = beq_refl (fold_case (codes username)) in
            let app = fetch_one-append q db.app_user (row ∷ []) in
            let found : fetch_one q db'.app_user ≡ some row =
              rw rows (rw (app, none_old, self) refl) in
            (
              load row db',
              signs_in scrypt other_salt now username password db' row found good current,
              ground arith,
              refl,
              known,
              refl,
            )
      ]

-- the zones that `_load` reads for an account
abbrev pub granted : ℕ → List UserZone → List String
granted id t = map (λ z. z.zone) (select (λ z. z.user_id == id) t)

granted-exists :
    (id : ℕ) (zone : String) (t : List UserZone)
    → exists (λ r. r.user_id == id && r.zone == zone) t ≡ contains (granted id t) zone
granted-exists id zone [] = refl
granted-exists id zone (r ∷ t) = ground (arith, granted-exists id zone t)

granted-append :
    (id : ℕ) (zone : String) (t : List UserZone) (r : UserZone)
    → contains (granted id (t ++ r ∷ [])) zone
      ≡ (contains (granted id t) zone || (r.user_id == id && r.zone == zone))
granted-append id zone [] r = ground arith
granted-append id zone (x ∷ t) r = ground (arith, granted-append id zone t r)

granted-insert_zone :
    (i j : ℕ) (new zone : String) (t : List UserZone)
    → contains (granted j (insert_zone i new t)) zone
      ≡ (contains (granted j t) zone || (i == j && new == zone))
granted-insert_zone i j new zone t = ground (
  arith,
  granted-exists i new t,
  eq_iff new zone,
  nat_beq_iff i j,
  granted-append j zone t (record { user_id = i; zone = new }),
)

granted-insert_zones :
    (i j : ℕ) (zones : List String) (zone : String) (t : List UserZone)
    → contains (granted j (insert_zones i zones t)) zone
      ≡ (contains (granted j t) zone || (i == j && contains zones zone))
granted-insert_zones i j [] zone t = ground arith
granted-insert_zones i j (z ∷ zones) zone t = ground (
  arith,
  granted-insert_zones i j zones zone (insert_zone i z t),
  granted-insert_zone i j z zone t,
)

granted-delete :
    (i j : ℕ) (zone : String) (t : List UserZone)
    → contains (granted j (delete (λ z. z.user_id == i) t)) zone
      ≡ (not (i == j) && contains (granted j t) zone)
granted-delete i j zone [] = ground arith
granted-delete i j zone (r ∷ t) = ground (arith, granted-delete i j zone t)

-- `set_zones` on an existing account replaces its grants: it holds exactly the zones given, and every
-- other account holds what it held. Without such an account nothing changes.
pub set_zones-grants :
    (username : String) (zones : List String) (actor : String) (db : Database) (other : ℕ)
    (zone : String)
    → let (found, db') = set_zones username zones actor db in
      ((r : AppUser) × (fetch_one (named username) db.app_user ≡ some r)
        × (found ≡ true)
        × (contains (load r db').zones zone ≡ contains zones zone)
        × (contains (granted other db'.user_zone) zone ≡ (
            if other == r.id
            then contains zones zone
            else contains (granted other db.user_zone) zone)))
      ⊎ ((found ≡ false) × (db' ≡ db))
unfolding set_zones
set_zones-grants username zones actor db other zone =
    elim (Option-cases (fetch_one (named username) db.app_user)) [
      | inl absent ↦ rw (absent, set_zones) (inr (refl, refl))
      | inr (r, found) ↦
          let t = delete (λ z. z.user_id == r.id) db.user_zone in
          let mine = granted-insert_zones r.id r.id zones zone t in
          let theirs = granted-insert_zones r.id other zones zone t in
          let gone = granted-delete r.id r.id zone db.user_zone in
          let kept = granted-delete r.id other zone db.user_zone in
          rw (found, set_zones)
            (inl (
              r,
              refl,
              refl,
              ground (arith, nat_beq_iff r.id r.id),
              ground (arith, nat_beq_iff r.id other),
            ))
    ]
