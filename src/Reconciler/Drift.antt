-- ===== src/Reconciler/Drift.antt =====
-- Comparing the calendar of a device with the one wanted (bms/reconciler.py `_same`, `_norm`). What
-- bacpypes gives as the contents of an entry is a tree: a dictionary, a list or tuple, or a value, here
-- the text that `str` makes of it.
use building_controls.Prelude.{
  ℕ, suc, ◌+◌, ◌≤◌, ◌≡◌, refl, ap, ◌↔◌, inl, inr, Bool, true, false, Option, none, some, List, [],
  ◌∷◌, ◌++◌, map, arith, nat_beq, nat_beq_iff, if◌then◌else◌, Bool-cases, Option-cases, length,
  ◌==◌, nat_eq, string_eq, beq_refl, eq_of_beq, list_eq, option_eq, pair_eq,
}
use mathlib.Core.Option
use building_controls.Prelude.Text.{Text}
use building_controls.Prelude.Sort.{order_by}
use building_controls.Prelude.Table.{count}

mutual
  pub data Contents : Type 0 where
    leaf : Text → Contents
    items : Items → Contents
    fields : Fields → Contents

  pub data Items : Type 0 where
    nil : Items
    cons : Contents → Items → Items

  pub data Fields : Type 0 where
    end : Fields
    field : Text → Contents → Fields → Fields

-- `",".join(parts)`
abbrev pub join : List Text → Text
join [] = []
join (t ∷ []) = t
join (t ∷ u ∷ ts) = t ++ b',' ∷ join (u ∷ ts)

abbrev pub pairs : List (Text × Text) → List Text
pairs ps = map (λ p. p.0 ++ b':' ∷ p.1) (order_by (λ (p : Text × Text). p.0) ps)

unfoldable mutual
  pub norm : Contents → Text
  norm (leaf s) = s
  norm (items es) = b'[' ∷ join (norm_items es) ++ b']' ∷ []
  norm (fields fs) = b'{' ∷ join (pairs (norm_fields fs)) ++ b'}' ∷ []

  pub norm_items : Items → List Text
  norm_items nil = []
  norm_items (cons e es) = norm e ∷ norm_items es

  pub norm_fields : Fields → List (Text × Text)
  norm_fields end = []
  norm_fields (field k v fs) = (k, norm v) ∷ norm_fields fs

-- the first entry with this form, taken out of the list
take_out : Text → List Contents → Option (List Contents)
take_out n [] = none
take_out n (d ∷ ds) = if norm d == n then some ds else Option.map (λ rest. d ∷ rest) (take_out n ds)

match_all : List Contents → List Contents → Bool
unfolding take_out
match_all [] remaining = true
match_all (e ∷ es) remaining = elim (take_out (norm e) remaining) [
  | none ↦ false
  | some rest ↦ match_all es rest
]

unfoldable pub same : List Contents → List Contents → Bool
unfolding match_all
same current desired =
    if nat_beq (length current) (length desired) then match_all current desired else false

-- how often a form occurs
abbrev pub occurs : Text → List Contents → ℕ
occurs n = count (λ e. norm e == n)

abbrev one_if : Bool → ℕ
one_if b = if b then 1 else 0

take_out-occurs :
    (n : Text) (ds rest : List Contents)
    → take_out n ds ≡ some rest
    → (k : Text) → occurs k ds ≡ occurs k rest + one_if (n == k)
unfolding take_out
take_out-occurs n [] rest h k = ground arith
take_out-occurs n (d ∷ ds) rest h k = elim (Bool-cases (norm d == n)) [
  | inl here ↦
      let e = eq_of_beq (norm d) n here in
      let g : ds ≡ rest = ground arith in rw (← g) (rw e (ground arith))
  | inr apart ↦ elim (Option-cases (take_out n ds)) [
    | inl missing ↦ let g = rw (missing) at (rw apart at h) in ground arith
    | inr (r, found) ↦
        let g = rw (found) at (rw apart at h) in
        let e : d ∷ r ≡ rest = ground arith in
        rw (← e) (ground (arith, take_out-occurs n ds r found k))
  ]
]

take_out-length :
    (n : Text) (ds rest : List Contents) → take_out n ds ≡ some rest → length ds ≡ suc (length rest)
unfolding take_out
take_out-length n [] rest h = ground arith
take_out-length n (d ∷ ds) rest h = elim (Bool-cases (norm d == n)) [
  | inl here ↦ let g : ds ≡ rest = ground arith in rw (← g) refl
  | inr apart ↦ elim (Option-cases (take_out n ds)) [
    | inl missing ↦ let g = rw (missing) at (rw apart at h) in ground arith
    | inr (r, found) ↦
        let g = rw (found) at (rw apart at h) in
        let e : d ∷ r ≡ rest = ground arith in
        rw (← e) (ap (λ k. suc k) (take_out-length n ds r found))
  ]
]

take_out-none : (n : Text) (ds : List Contents) → take_out n ds ≡ none → occurs n ds ≡ 0
unfolding take_out
take_out-none n [] h = refl
take_out-none n (d ∷ ds) h = elim (Bool-cases (norm d == n)) [
  | inl here ↦ let g = rw here at h in ground arith
  | inr apart ↦ elim (Option-cases (take_out n ds)) [
    | inl missing ↦ rw apart (take_out-none n ds missing)
    | inr (r, found) ↦ let g = rw found at (rw apart at h) in ground arith
  ]
]

-- What is left over when every entry of a list has found its own.
record Leftover (es remaining : List Contents) : Type 0 where
  rest : List Contents
  counted : (k : Text) → occurs k remaining ≡ occurs k es + occurs k rest
  measured : length remaining ≡ length es + length rest

match_all-Leftover :
    (es remaining : List Contents) → match_all es remaining ≡ true → Leftover es remaining
unfolding match_all
match_all-Leftover [] remaining h = record {
  rest = remaining;
  counted = λ k. omega arith;
  measured = omega arith;
}
match_all-Leftover (e ∷ es) remaining h = elim (Option-cases (take_out (norm e) remaining)) [
  | inl missing ↦ let g = rw (missing, match_all) at h in ground arith
  | inr (r, found) ↦
      let g = rw (found, match_all) at h in
      let l = match_all-Leftover es r g in
      record {
        rest = l.rest;
        counted = λ k. ground (arith, take_out-occurs (norm e) remaining r found k, l.counted k);
        measured = omega (arith, take_out-length (norm e) remaining r found, l.measured);
      }
]

match_all-of_occurs :
    (es remaining : List Contents)
    → ((k : Text) → occurs k es ≤ occurs k remaining)
    → match_all es remaining ≡ true
unfolding match_all
match_all-of_occurs [] remaining h = refl
match_all-of_occurs (e ∷ es) remaining h = elim (Option-cases (take_out (norm e) remaining)) [
  | inl missing ↦
      let none_there = take_out-none (norm e) remaining missing in
      let one_here : 1 ≤ occurs (norm e) (e ∷ es) = rw (beq_refl (norm e)) (omega arith) in
      absurd (omega (arith, h (norm e)))
  | inr (r, found) ↦
      rw (found, match_all)
        (match_all-of_occurs es r
          (λ k. ground (arith, h k, take_out-occurs (norm e) remaining r found k)))
]

no_occurs-nil : (l : List Contents) → ((k : Text) → occurs k l ≡ 0) → length l ≡ 0
no_occurs-nil [] h = refl
no_occurs-nil (x ∷ l) h =
    let one_here : 1 ≤ occurs (norm x) (x ∷ l) = rw (beq_refl (norm x)) (omega arith) in
    absurd (omega (arith, h (norm x)))

-- The comparison of two lists of entries holds exactly when every form, the text that an entry is
-- normalised to, occurs equally often in both, in whatever order.
pub same_iff :
    (current desired : List Contents)
    → (same current desired ≡ true) ↔ ((form : Text) → occurs form current ≡ occurs form desired)
unfolding same
same_iff current desired = (
  (λ h. elim (Bool-cases (nat_beq (length current) (length desired))) [
    | inr longer ↦ let g = rw longer at h in λ k. ground arith
    | inl level ↦
        let equal = (nat_beq_iff (length current) (length desired)).0 level in
        let l = match_all-Leftover current desired (rw level at h) in
        λ k. omega (arith, l.counted k, nothing_left l.rest (omega (arith, l.measured)) k)
  ]),
  (λ h.
      let matched = match_all-of_occurs current desired (λ k. omega (arith, h k)) in
      let l = match_all-Leftover current desired matched in
      let empty = no_occurs-nil l.rest (λ k. omega (arith, h k, l.counted k)) in
      let level = (nat_beq_iff (length current) (length desired)).1 (omega (arith, l.measured)) in
      rw level matched),
)
  where
    nothing_left : (l : List Contents) → length l ≡ 0 → (k : Text) → occurs k l ≡ 0
    nothing_left [] e k = refl
    nothing_left (x ∷ l) e k = absurd (omega arith)
