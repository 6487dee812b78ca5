-- ===== src/UserAdmin/Rows.antt =====
-- Reading the file of accounts to import (bms/useradmin.py `read_rows`). What `csv.DictReader` makes of
-- the file is given: the names of the columns, and a dictionary for each line. A problem keeps what its
-- message says.
use building_controls.Prelude.{
  ℕ, suc, true, false, ◌&&◌, ◌||◌, not, String, none, some, List, [], ◌∷◌, ◌++◌, ltb, if◌then◌else◌,
  is_some, length, is_nil, ◌==◌, nat_eq, string_eq, contains, list_eq, option_eq, pair_eq,
}
use building_controls.Prelude.Dict.{Dict, lookup}
use building_controls.Prelude.Text.{Text, codes, is_space, strip_str}
use building_controls.Prelude.Table.{delete}
use building_controls.Auth.User.{parse_role}
use building_controls.Auth.Accounts.{or_else}
use Prim.Native.Char.{Char, code}

-- `CSV_COLUMNS`
abbrev pub csv_columns : List String
csv_columns = "username" ∷ "display_name" ∷ "role" ∷ "zones" ∷ "password" ∷ []

pub record Row : Type 0 where
  pub username : String
  pub display_name : String
  pub role : String
  pub zones : List String
  pub password : Text

-- what is wrong with a line of the file, by its number
pub data Problem : Type 0 where
  blank_username : ℕ → Problem
  appears_twice : ℕ → String → Problem
  unknown_role : ℕ → String → Problem
  sees_nothing : ℕ → String → Problem
  short_password : ℕ → String → Problem

-- why the command ends before anything is written
pub data Failure : Type 0 where
  no_header : Failure
  unknown_columns : List String → Failure
  no_username_column : Failure
  problems : List Problem → Failure
  no_rows : Failure

pub data Parsed : Type 0 where
  fails : Failure → Parsed
  rows : List Row → Parsed

-- `r.get(key) or ""`
abbrev pub cell : Dict String String → String → String
cell line key = elim (lookup key line) [ none ↦ "" | some s ↦ s ]

abbrev add_char : Char → List String → List String
add_char c [] = String.◌∷◌ c String.[] ∷ []
add_char c (w ∷ ws) = String.◌∷◌ c w ∷ ws

-- the pieces between separators, empty ones too: a semicolon is replaced by a space
abbrev pieces : String → List String
pieces String.[] = "" ∷ []
pieces (String.◌∷◌ c s) =
    if code c == b';' || is_space (code c) then "" ∷ pieces s else add_char c (pieces s)

-- `text.replace(";", " ").split()`
unfoldable pub words : String → List String
words s = delete (λ w. w == "") (pieces s)

abbrev pub unknown : List String → List String
unknown = delete (contains csv_columns)

abbrev pub role_problem : ℕ → Row → List Problem
role_problem n r = if is_some (parse_role r.role) then [] else unknown_role n r.role ∷ []

abbrev pub zones_problem : ℕ → Row → List Problem
zones_problem n r =
    if r.role == "tenant" && is_nil r.zones then sees_nothing n r.username ∷ [] else []

abbrev pub password_problem : ℕ → Row → List Problem
password_problem n r =
    if not (is_nil r.password) && ltb (length r.password) 8
    then short_password n r.username ∷ []
    else []

-- what is said of a line whose name is there and new
abbrev pub row_problems : ℕ → Row → List Problem
row_problems n r = role_problem n r ++ zones_problem n r ++ password_problem n r

abbrev pub judged : List Row → List Problem → Parsed
judged rs (p ∷ ps) = fails (problems (p ∷ ps))
judged [] [] = fails no_rows
judged (r ∷ rs) [] = rows (r ∷ rs)

module _ (lower : String → String) where
  unfoldable pub row : Dict String String → Row
  row line =
      let username = strip_str (cell line "username") in
      record {
        username = username;
        display_name = or_else (strip_str (cell line "display_name")) username;
        role = lower (strip_str (or_else (cell line "role") "tenant"));
        zones = words (cell line "zones");
        password = codes (strip_str (cell line "password"));
      }

  -- the loop, with the number of the next line and the names seen so far
  unfoldable pub scan : ℕ → List String → List (Dict String String) → List Row × List Problem
  scan n seen [] = ([], [])
  scan n seen (line ∷ lines) =
      let r = row line in
      elim (r.username == "") [
        | true ↦ let (rs, ps) = scan (suc n) seen lines in (rs, blank_username n ∷ ps)
        | false ↦ elim (contains seen r.username) [
          | true ↦ let (rs, ps) = scan (suc n) seen lines in (rs, appears_twice n r.username ∷ ps)
          | false ↦
              let (rs, ps) = scan (suc n) (r.username ∷ seen) lines in
              (r ∷ rs, row_problems n r ++ ps)
        ]
      ]

  unfoldable pub read_rows : List String → List (Dict String String) → Parsed
  unfolding scan
  read_rows fieldnames lines =
      if is_nil fieldnames
      then fails no_header
      else if not (is_nil (unknown fieldnames))
      then fails (unknown_columns (unknown fieldnames))
      else if not (contains fieldnames "username")
      then fails no_username_column
      else let (rs, ps) = scan 2 [] lines in judged rs ps
