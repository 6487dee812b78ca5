-- ===== src/UserAdmin/Checked.antt =====
-- What `read_rows` accepts.
use building_controls.Prelude.{
  ℕ, suc, ◌≤◌, ◌≡◌, refl, ◌≢◌, ◌⊎◌, inl, inr, Bool, true, false, ◌&&◌, not, String, List, [], ◌∷◌,
  ◌++◌, arith, eq_iff, ltb, if◌then◌else◌, Bool-cases, is_some, length, is_nil, All, ◌==◌, nat_eq,
  string_eq, ne_of_beq, contains, list_eq, option_eq, pair_eq,
}
use building_controls.Prelude.Dict.{Dict}
use building_controls.Prelude.Text.{Text}
use building_controls.Auth.User.{parse_role}
use building_controls.UserAdmin.Lines.{AreReadFrom, row-IsReadFrom}
use building_controls.UserAdmin.Rows.{
  Row, Problem, Failure, fails, rows, row, role_problem, zones_problem, password_problem,
  row_problems, scan, judged, read_rows, unknown, sees_nothing, short_password, unknown_role,
}

-- an account that can be made, and that sees something
abbrev pub IsGood : Row → Type 0
IsGood r =
    (r.username ≢ "")
    × (is_some (parse_role r.role) ≡ true)
    × (r.role ≡ "tenant" → is_nil r.zones ≡ false)
    × ((r.password ≡ []) ⊎ (8 ≤ length r.password))

-- no name stands twice, and none is one of those seen before
abbrev pub Distinct : List String → List Row → Type 0
Distinct seen [] = Unit
Distinct seen (r ∷ rs) = (contains seen r.username ≡ false) × Distinct (r.username ∷ seen) rs

append-nil : (xs ys : List Problem) → xs ++ ys ≡ [] → (xs ≡ []) × (ys ≡ [])
append-nil [] ys h = (refl, h)
append-nil (x ∷ xs) ys h = ground arith

none_else : (b : Bool) (p : Problem) → (if b then [] else p ∷ []) ≡ [] → b ≡ true
none_else b p h = ground arith

none_then : (b : Bool) (p : Problem) → (if b then p ∷ [] else []) ≡ [] → b ≡ false
none_then b p h = ground arith

long_enough : (t : Text) → (not (is_nil t) && ltb (length t) 8) ≡ false → (t ≡ []) ⊎ (8 ≤ length t)
long_enough [] h = inl refl
long_enough (c ∷ t) h = inr (ground arith)

has_zones :
    (role : String) (zones : List String)
    → (role == "tenant" && is_nil zones) ≡ false
    → role ≡ "tenant"
    → is_nil zones ≡ false
has_zones role zones h tenant = let e = eq_iff role "tenant" in ground arith

row_problems-IsGood : (n : ℕ) (r : Row) → r.username ≢ "" → row_problems n r ≡ [] → IsGood r
row_problems-IsGood n r named h =
    let (first, password) =
      append-nil (role_problem n r ++ zones_problem n r) (password_problem n r) h in
    let (role, zones) = append-nil (role_problem n r) (zones_problem n r) first in
    (
      named,
      none_else _ (unknown_role n r.role) role,
      has_zones r.role r.zones (none_then _ (sees_nothing n r.username) zones),
      long_enough r.password (none_then _ (short_password n r.username) password),
    )

is_nil-nil : (xs : List String) → is_nil xs ≡ true → xs ≡ []
is_nil-nil [] h = refl
is_nil-nil (x ∷ xs) h = ground arith

-- what the loop makes of the lines
abbrev Scanned :
    (String → String) → List String → List (Dict String String) → List Row × List Problem → Type 0
Scanned lower seen lines (rs, ps) =
    ps ≡ [] → All IsGood rs × Distinct seen rs × AreReadFrom lower lines rs

module _ (lower : String → String) where
  scan-Scanned :
      (n : ℕ) (seen : List String) (lines : List (Dict String String))
      → Scanned lower seen lines (scan lower n seen lines)
  unfolding scan
  scan-Scanned n seen [] = λ h. (tt, tt, tt)
  scan-Scanned n seen (line ∷ lines) =
      let r = row lower line in
      elim (Bool-cases (r.username == "")) [
        | inl blank ↦ rw (blank, scan) (λ h. ground arith)
        | inr named ↦ elim (Bool-cases (contains seen r.username)) [
          | inl twice ↦ rw (named, twice, scan) (λ h. ground arith)
          | inr fresh ↦
              let ih = scan-Scanned (suc n) (r.username ∷ seen) lines in
              rw (named, fresh, scan)
                (λ h.
                  let (here, later) = append-nil _ _ h in
                  let (good, apart, as_read) = ih later in
                  (
                    (row_problems-IsGood n r (ne_of_beq r.username "" named) here, good),
                    (fresh, apart),
                    (row-IsReadFrom lower line, as_read),
                  ))
        ]
      ]

  judged_cases :
      (fieldnames : List String) (lines : List (Dict String String)) (header : Bool)
      (result : List Row × List Problem)
      → header ≡ true
      → unknown fieldnames ≡ []
      → Scanned lower [] lines result
      → ((rs : List Row) × (judged result.0 result.1 ≡ rows rs)
          × (header ≡ true)
          × (unknown fieldnames ≡ [])
          × (1 ≤ length rs)
          × AreReadFrom lower lines rs
          × All IsGood rs
          × Distinct [] rs)
        ⊎ ((f : Failure) × (judged result.0 result.1 ≡ fails f))
  judged_cases fieldnames lines header (rs, p ∷ ps) c u h = inr (_, refl)
  judged_cases fieldnames lines header ([], []) c u h = inr (_, refl)
  judged_cases fieldnames lines header (r ∷ rs, []) c u h =
      let (good, apart, as_read) = h refl in
      inl (r ∷ rs, refl, c, u, omega arith, as_read, good, apart)

  -- A file is accepted only with a header of known columns, `username` among them, and with lines
  -- that each make a row: then there is one row for each, in their order, with what the columns of
  -- the line give it, there is at least one, every row has a name, a role of the three, a zone if it is a tenant, and a password of 8 characters or
  -- none, and no two rows have the same name. In every other case the command ends with a failure.
  pub read_rows_lem :
      (fieldnames : List String) (lines : List (Dict String String))
      → ((rs : List Row) × (read_rows lower fieldnames lines ≡ rows rs)
          × (contains fieldnames "username" ≡ true)
          × (unknown fieldnames ≡ [])
          × (1 ≤ length rs)
          × AreReadFrom lower lines rs
          × All IsGood rs
          × Distinct [] rs)
        ⊎ ((f : Failure) × (read_rows lower fieldnames lines ≡ fails f))
  unfolding read_rows
  read_rows_lem fieldnames lines = elim (Bool-cases (is_nil fieldnames)) [
    | inl empty ↦ rw (empty, read_rows) (inr (_, refl))
    | inr header ↦ elim (Bool-cases (is_nil (unknown fieldnames))) [
      | inr strange ↦ rw (header, strange, read_rows) (inr (_, refl))
      | inl known ↦ elim (Bool-cases (contains fieldnames "username")) [
        | inr without ↦ rw (header, known, without, read_rows) (inr (_, refl))
        | inl username ↦
            rw (header, known, username, read_rows)
              (judged_cases fieldnames lines true (scan lower 2 [] lines) refl
                (is_nil-nil (unknown fieldnames) known) (scan-Scanned 2 [] lines))
      ]
    ]
  ]
