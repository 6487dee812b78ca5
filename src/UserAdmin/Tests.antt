-- ===== src/UserAdmin/Tests.antt =====
-- A file of two tenants: instances of the theorems, and tests.
use building_controls.Prelude.{
  ◌≤◌, ◌≡◌, refl, ◌⊎◌, true, false, String, some, List, [], ◌∷◌, length, All, nat_eq, string_eq,
  contains, list_eq, option_eq, pair_eq,
}
use building_controls.Prelude.Dict.{Dict}
use building_controls.Prelude.Text.{codes, strip_str}
use building_controls.Database.{new_database}
use building_controls.Auth.User.{parse_role}
use building_controls.Auth.Password.{Result, other_error, Scrypt, hash_password}
use building_controls.Auth.Accounts.{create_user}
use building_controls.UserAdmin.Rows.{
  Row, row, Failure, fails, rows, read_rows, unknown, words, scan, problems, sees_nothing,
  appears_twice, short_password, blank_username,
}
use building_controls.UserAdmin.Lines.{AreReadFrom}
use building_controls.UserAdmin.Checked.{IsGood, Distinct, read_rows_lem}
use building_controls.UserAdmin.Commands.{
  Terminal, raised, names, create_all, import_rows, import_csv,
}
use building_controls.UserAdmin.Import.{Imported, import_csv_lem}

abbrev no_scrypt : Scrypt
no_scrypt password salt n r p len = Result.ok []

abbrev terminal : Terminal
terminal = record {
  scrypt = no_scrypt;
  lower = λ s. s;
  salt = λ k. k ∷ [];
  generated = λ k. codes "kJ3mPq9wXz";
  first = codes "short";
  repeat = codes "short";
  zones_in_use = some ("floor-3" ∷ []);
}

abbrev columns : List String
columns = "username" ∷ "zones" ∷ "password" ∷ []

abbrev line : String → String → String → Dict String String
line username zones password =
    ("username", username) ∷ ("zones", zones) ∷ ("password", password) ∷ []

abbrev two_suites : List (Dict String String)
two_suites = line "suite301" "floor-3; floor-4" "" ∷ line " suite302 " "floor-3" "" ∷ []

read_words : words "floor-3; floor-4" ≡ "floor-3" ∷ "floor-4" ∷ []
unfolding words
read_words = refl

-- Every problem of a file is told at once.
all_problems :
    read_rows
      (λ s. s)
      columns
      (line "" "a" "" ∷ line "x" "" "" ∷ line "x" "a" "" ∷ line "y" "a" "1234567" ∷ [])
    ≡ fails (
        problems
          (blank_username 2 ∷ sees_nothing 3 "x" ∷ appears_twice 4 "x" ∷ short_password 5 "y" ∷ []))
unfolding read_rows scan row words strip_str parse_role
all_problems = refl

read_rows_lem_example :
    ((rs : List Row) × (read_rows terminal.lower columns two_suites ≡ rows rs)
      × (contains columns "username" ≡ true)
      × (unknown columns ≡ [])
      × (1 ≤ length rs)
      × AreReadFrom terminal.lower two_suites rs
      × All IsGood rs
      × Distinct [] rs)
    ⊎ ((f : Failure) × (read_rows terminal.lower columns two_suites ≡ fails f))
read_rows_lem_example = read_rows_lem terminal.lower columns two_suites

import_csv_lem_example :
    Imported false
      (read_rows terminal.lower columns two_suites)
      new_database
      (import_csv terminal false columns two_suites new_database)
import_csv_lem_example = import_csv_lem terminal false columns two_suites new_database

-- Names that differ in the case of a letter pass the check, and the second account raises when the
-- first has been made.
abbrev same_but_case : List (Dict String String)
same_but_case = line "Suite301" "floor-3" "" ∷ line "suite301" "floor-3" "" ∷ []

stops_half_way :
    let (end, db') = import_csv terminal false columns same_but_case new_database in
    (end ≡ raised other_error) × (names db' ≡ "Suite301" ∷ [])
unfolding import_csv import_rows create_all read_rows scan row words strip_str parse_role
    create_user hash_password
stops_half_way = (refl, refl)
