-- ===== src/UserAdmin/Lines.antt =====
-- What a row of `read_rows` is made of (bms/useradmin.py): the cells of its line.
use building_controls.Prelude.{
  eq_of_beq, ◌≡◌, refl, ap, ◌≢◌, ◌⊎◌, inl, inr, String, List, [], ◌∷◌, Bool-cases, ◌==◌, nat_eq,
  string_eq, ne_of_beq, list_eq, option_eq, pair_eq,
}
use building_controls.Prelude.Dict.{Dict}
use building_controls.Prelude.Text.{codes, strip_str}
use building_controls.Auth.Accounts.{or_else}
use building_controls.UserAdmin.Rows.{cell, words, Row, row}

-- what each column of a line becomes: the display name is the user name where it is blank, and the role is
-- that of a tenant where its cell is empty
abbrev pub IsReadFrom : (String → String) → Dict String String → Row → Type 0
IsReadFrom lower line r =
    (r.username ≡ strip_str (cell line "username"))
    × (((strip_str (cell line "display_name") ≡ "") × (r.display_name ≡ r.username))
        ⊎ ((strip_str (cell line "display_name") ≢ "")
            × (r.display_name ≡ strip_str (cell line "display_name"))))
    × (((cell line "role" ≡ "") × (r.role ≡ lower (strip_str "tenant")))
        ⊎ ((cell line "role" ≢ "") × (r.role ≡ lower (strip_str (cell line "role")))))
    × (r.zones ≡ words (cell line "zones"))
    × (r.password ≡ codes (strip_str (cell line "password")))

-- one row for each line, in their order
abbrev pub AreReadFrom : (String → String) → List (Dict String String) → List Row → Type 0
AreReadFrom lower [] [] = Unit
AreReadFrom lower [] (r ∷ rs) = ⊥
AreReadFrom lower (line ∷ lines) [] = ⊥
AreReadFrom lower (line ∷ lines) (r ∷ rs) = IsReadFrom lower line r × AreReadFrom lower lines rs

or_else_cases : (a b : String) → ((a ≡ "") × (or_else a b ≡ b)) ⊎ ((a ≢ "") × (or_else a b ≡ a))
or_else_cases a b = elim (Bool-cases (a == "")) [
  | inl blank ↦ inl (eq_of_beq a "" blank, rw blank refl)
  | inr full ↦ inr (ne_of_beq a "" full, rw full refl)
]

pub row-IsReadFrom :
    (lower : String → String) (line : Dict String String) → IsReadFrom lower line (row lower line)
unfolding row
row-IsReadFrom lower line =
    let name = strip_str (cell line "username") in
    (
      refl,
      or_else_cases (strip_str (cell line "display_name")) name,
      elim (or_else_cases (cell line "role") "tenant") [
        | inl (blank, e) ↦ inl (blank, ap (λ s. lower (strip_str s)) e)
        | inr (full, e) ↦ inr (full, ap (λ s. lower (strip_str s)) e)
      ],
      refl,
      refl,
    )
