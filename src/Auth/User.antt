-- ===== src/Auth/User.antt =====
-- `User` and the role checks (bms/auth.py).
use building_controls.Prelude.{
  ℕ, ◌≤◌, ◌≡◌, ◌↔◌, ◌⊎◌, Bool, true, ◌||◌, String, Option, none, some, List, arith, leb,
  if◌then◌else◌, ◌==◌, nat_eq, string_eq, contains, list_eq, option_eq, pair_eq,
}
use building_controls.Database.{Role, admin, manager, tenant}

-- `_RANK`
abbrev pub rank : Role → ℕ
rank tenant = 0
rank manager = 1
rank admin = 2

pub record User : Type 0 where
  pub id : ℕ
  pub username : String
  pub display_name : String
  pub role : Role
  pub zones : List String
  pub must_change_password : Bool

unfoldable pub at_least : User → Role → Bool
at_least user role = leb (rank role) (rank user.role)

unfoldable pub may_access_zone : User → String → Bool
unfolding at_least
may_access_zone user zone =
    if at_least user manager then true else contains user.zones zone || contains user.zones "*"

-- `role in ROLES`
unfoldable pub parse_role : String → Option Role
parse_role s =
    if s == "admin"
    then some admin
    else if s == "manager"
    then some manager
    else if s == "tenant"
    then some tenant
    else none

-- A single rank test separates tenants from the two roles above.
staff-or :
    (r : Role) (b : Bool)
    → ((if leb (rank manager) (rank r) then true else b) ≡ true)
      ↔ ((r ≡ admin) ⊎ (r ≡ manager) ⊎ (b ≡ true))
staff-or admin b = ground arith
staff-or manager b = ground arith
staff-or tenant b = ground arith

contains-or :
    (xs : List String) (a b : String)
    → ((contains xs a || contains xs b) ≡ true) ↔ ((contains xs a ≡ true) ⊎ (contains xs b ≡ true))
contains-or xs a b = ground arith

-- A user may act on a zone exactly when the user is an admin or a manager, or holds that zone, or
-- holds "*".
pub may_access_zone_iff :
    (user : User) (zone : String)
    → (may_access_zone user zone ≡ true) ↔ (
        (user.role ≡ admin)
        ⊎ (user.role ≡ manager)
        ⊎ (contains user.zones zone ≡ true)
        ⊎ (contains user.zones "*" ≡ true))
unfolding may_access_zone
may_access_zone_iff user zone = ground (
  arith,
  staff-or user.role (contains user.zones zone || contains user.zones "*"),
  contains-or user.zones zone "*",
)

-- Who passes the check for a role passes it for every role of a lower rank.
pub at_least_order :
    (user : User) (r s : Role) → rank s ≤ rank r → at_least user r ≡ true → at_least user s ≡ true
unfolding at_least
at_least_order user r s h k = ground arith

-- Only an admin passes the check for "admin".
pub at_least-admin_iff : (user : User) → (at_least user admin ≡ true) ↔ (user.role ≡ admin)
unfolding at_least
at_least-admin_iff user = top user.role
  where
    top : (q : Role) → (leb (rank admin) (rank q) ≡ true) ↔ (q ≡ admin)
    top admin = ground arith
    top manager = ground arith
    top tenant = ground arith
