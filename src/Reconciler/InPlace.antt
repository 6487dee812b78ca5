-- ===== src/Reconciler/InPlace.antt =====
-- When a point is where the intent wants it (bms/reconciler.py `_reconcile_setpoints`): the limits of
-- `SETPOINT_LIMITS` and the tolerance of the comparison.
use building_controls.Prelude.{
  ◌∙◌, ap, ◌≡◌, refl, sym, inl, inr, Bool, true, ◌&&◌, String, Option, none, some, [], ◌∷◌, arith,
  Bool-cases, and-eq-true, Option-cases, All, ◌==◌, nat_eq, string_eq, list_eq, option_eq, pair_eq,
}
use building_controls.Prelude.Int.{ℤ, leb_ℤ}
use building_controls.Prelude.Dict.{Dict, lookup}
use building_controls.Value.{Values}
use building_controls.Points.{setpoint_limits}
use building_controls.Reconciler.{clamped, min_ℤ, max_ℤ, near}

pub ordered : Dict String (ℤ × ℤ) → Bool
ordered [] = true
ordered ((k, l) ∷ d) = leb_ℤ l.0 l.1 && ordered d

pub lookup-ordered :
    (key : String) (d : Dict String (ℤ × ℤ)) (l : ℤ × ℤ)
    → ordered d ≡ true
    → lookup key d ≡ some l
    → leb_ℤ l.0 l.1 ≡ true
unfolding ordered
lookup-ordered key [] l h e = ground arith
lookup-ordered key ((k, m) ∷ d) l h e =
    let (here, rest) = and-eq-true (leb_ℤ m.0 m.1) (ordered d) h in
    elim (Bool-cases (k == key)) [
      | inl hit ↦ let g = rw hit at e in let same : m ≡ l = ground arith in rw (sym same) here
      | inr miss ↦ lookup-ordered key d l rest (rw miss at e)
    ]

pub limits_ordered : ordered setpoint_limits ≡ true
unfolding ordered
limits_ordered = refl

pub between :
    (lo hi x : ℤ)
    → leb_ℤ lo hi ≡ true
    → (leb_ℤ lo (min_ℤ hi (max_ℤ lo x)) && leb_ℤ (min_ℤ hi (max_ℤ lo x)) hi) ≡ true
between lo hi x h = ground arith

unmoved : (lo hi x : ℤ) → (leb_ℤ lo x && leb_ℤ x hi) ≡ true → min_ℤ hi (max_ℤ lo x) ≡ x
unmoved lo hi x h = ground arith

-- a point without limits may take any value
abbrev pub allows : String → ℤ → Bool
allows key x = elim (lookup key setpoint_limits) [
  | none ↦ true
  | some l ↦ leb_ℤ l.0 x && leb_ℤ x l.1
]

-- The point reads, within the tolerance, as a value that its limits allow, which is the one wanted wherever
-- they allow that.
abbrev pub IsInPlace : (String → Option ℤ) → Values → String → ℤ → Type 0
IsInPlace float v key want =
    (x : ℤ) × (allows key x ≡ true)
    × (allows key want ≡ true → x ≡ want)
    × (near float (lookup key v) x ≡ some true)

clamped-allowed : (key : String) (want : ℤ) → allows key (clamped key want) ≡ true
unfolding clamped
clamped-allowed key want = elim (Option-cases (lookup key setpoint_limits)) [
  | inl free ↦ rw (free, allows) refl
  | inr (l, limited) ↦
      let m = min_ℤ l.1 (max_ℤ l.0 want) in
      let cut : clamped key want ≡ m = rw (limited, clamped) refl in
      let fits : allows key m ≡ true =
        rw (limited, allows)
          (between l.0 l.1 want (lookup-ordered key setpoint_limits l limits_ordered limited)) in
      ap (allows key) cut ∙ fits
]

clamped-same : (key : String) (want : ℤ) → allows key want ≡ true → clamped key want ≡ want
unfolding clamped
clamped-same key want h = elim (Option-cases (lookup key setpoint_limits)) [
  | inl free ↦ rw (free, clamped) refl
  | inr (l, limited) ↦ rw (limited, clamped) (unmoved l.0 l.1 want (rw (limited, allows) at h))
]

module _ (float : String → Option ℤ) (v : Values) where
  near-IsInPlace :
      (key : String) (want : ℤ)
      → near float (lookup key v) (clamped key want) ≡ some true
      → IsInPlace float v key want
  near-IsInPlace key want h = (clamped key want, clamped-allowed key want, clamped-same key want, h)

  pub All-IsInPlace :
      (intended : Dict String ℤ)
      → All (λ e. near float (lookup e.0 v) (clamped e.0 e.1) ≡ some true) intended
      → All (λ e. IsInPlace float v e.0 e.1) intended
  All-IsInPlace [] h = tt
  All-IsInPlace ((key, want) ∷ rest) (h, hs) = (near-IsInPlace key want h, All-IsInPlace rest hs)
