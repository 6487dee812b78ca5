-- ===== src/TruPortal/Spans.antt =====
-- The spans that `parse_timespan` reads.
use building_controls.Prelude.{
  ℕ, ◌*◌, ◌≡◌, refl, sym, ap, ◌∙◌, ◌↔◌, inl, inr, true, false, ◌&&◌, Option, none, some, [], ◌∷◌,
  ◌++◌, arith, Bool-cases, and-eq-true, is_nil, All, ◌==◌, nat_eq, string_eq, eq_of_beq, list_eq,
  option_eq, pair_eq,
}
use building_controls.Prelude.Text.{Text, codes, is_digit}
use building_controls.TruPortal.Durations.{
  unit_size, times, next, after_digits, span, parse_timespan,
}

abbrev pub IsDigit : ℕ → Type 0
IsDigit c = is_digit c ≡ true

-- the number that digits write after others of value `n`
abbrev pub value : ℕ → Text → ℕ
value n [] = n
value n (c ∷ t) = value (next n c) t

-- A text is digits and one unit, and this many seconds, after digits of value `n`.
abbrev pub Spans : ℕ → Text → ℕ → Type 0
Spans n t seconds =
    (digits : Text) × (unit : ℕ) × (size : ℕ) × (t ≡ digits ++ unit ∷ [])
    × All IsDigit digits
    × (unit_size unit ≡ some size)
    × (seconds ≡ value n digits * size)

times-some :
    (n seconds : ℕ) (o : Option ℕ)
    → times n o ≡ some seconds
    → (size : ℕ) × (o ≡ some size) × (seconds ≡ n * size)
times-some n seconds none h = ground arith
times-some n seconds (some size) h = (size, refl, ground arith)

after_digits-Spans :
    (n : ℕ) (t : Text) (seconds : ℕ) → after_digits n t ≡ some seconds → Spans n t seconds
after_digits-Spans n [] seconds h = ground arith
after_digits-Spans n (c ∷ []) seconds h =
    let (size, known, product) = times-some n seconds (unit_size c) h in
    ([], c, size, refl, tt, known, product)
after_digits-Spans n (c ∷ d ∷ t) seconds h = elim (Bool-cases (is_digit c)) [
  | inr other ↦ let g = rw other at h in ground arith
  | inl digit ↦
      let (digits, unit, size, split, all, known, product) =
        after_digits-Spans (next n c) (d ∷ t) seconds (rw digit at h) in
      (c ∷ digits, unit, size, ap (λ l. c ∷ l) split, (digit, all), known, product)
]

Spans-after_digits :
    (n : ℕ) (digits : Text) (unit size : ℕ)
    → All IsDigit digits
    → unit_size unit ≡ some size
    → after_digits n (digits ++ unit ∷ []) ≡ some (value n digits * size)
Spans-after_digits n [] unit size all known = ap (times n) known
Spans-after_digits n (c ∷ []) unit size (digit, all) known =
    rw digit (Spans-after_digits (next n c) [] unit size all known)
Spans-after_digits n (c ∷ d ∷ t) unit size (digit, all) known =
    rw digit (Spans-after_digits (next n c) (d ∷ t) unit size all known)

span_sound :
    (t : Text) (seconds : ℕ)
    → span t ≡ some seconds
    → (digits : Text) × (unit : ℕ) × (size : ℕ) × (t ≡ digits ++ unit ∷ [])
      × (is_nil digits ≡ false)
      × All IsDigit digits
      × (unit_size unit ≡ some size)
      × (seconds ≡ value 0 digits * size)
span_sound [] seconds h = ground arith
span_sound (c ∷ t) seconds h = elim (Bool-cases (is_digit c)) [
  | inr other ↦ let g = rw other at h in ground arith
  | inl digit ↦
      let (digits, unit, size, split, all, known, product) =
        after_digits-Spans (next 0 c) t seconds (rw digit at h) in
      (c ∷ digits, unit, size, ap (λ l. c ∷ l) split, refl, (digit, all), known, product)
]

span_complete :
    (digits : Text) (unit size : ℕ)
    → is_nil digits ≡ false
    → All IsDigit digits
    → unit_size unit ≡ some size
    → span (digits ++ unit ∷ []) ≡ some (value 0 digits * size)
span_complete [] unit size some_ all known = ground arith
span_complete (c ∷ t) unit size some_ (digit, all) known =
    rw digit (Spans-after_digits (next 0 c) t unit size all known)

-- `parse_timespan` reads a text exactly when it is `Tms`, one or more digits, and one of the letters s,
-- m, h and d; then the result is the number written times the seconds of that unit.
pub parse_timespan_iff :
    (t : Text) (seconds : ℕ)
    → (parse_timespan t ≡ some seconds) ↔ (
        (digits : Text) × (unit : ℕ) × (size : ℕ) × (t ≡ codes "Tms" ++ (digits ++ unit ∷ []))
        × (is_nil digits ≡ false)
        × All IsDigit digits
        × (unit_size unit ≡ some size)
        × (seconds ≡ value 0 digits * size))
unfolding parse_timespan
parse_timespan_iff t seconds = (sound t, complete)
  where
    sound :
        (t : Text)
        → parse_timespan t ≡ some seconds
        → (digits : Text) × (unit : ℕ) × (size : ℕ) × (t ≡ codes "Tms" ++ (digits ++ unit ∷ []))
          × (is_nil digits ≡ false)
          × All IsDigit digits
          × (unit_size unit ≡ some size)
          × (seconds ≡ value 0 digits * size)
    sound [] h = ground arith
    sound (a ∷ []) h = ground arith
    sound (a ∷ b ∷ []) h = ground arith
    sound (a ∷ b ∷ c ∷ t) h = elim (Bool-cases ((a == b'T' && b == b'm') && c == b's')) [
      | inr other ↦ let g = rw other at h in ground arith
      | inl prefix ↦
          let (digits, unit, size, split, some_, all, known, product) =
            span_sound t seconds (rw prefix at h) in
          let (ab, cs) = and-eq-true _ _ prefix in
          let (as_, bs) = and-eq-true _ _ ab in
          let first : a ≡ b'T' = eq_of_beq a b'T' as_ in
          let second : b ≡ b'm' = eq_of_beq b b'm' bs in
          let third : c ≡ b's' = eq_of_beq c b's' cs in
          (digits, unit, size, rw (first, second, third, split) refl, some_, all, known, product)
    ]

    complete :
        ((digits : Text) × (unit : ℕ) × (size : ℕ) × (t ≡ codes "Tms" ++ (digits ++ unit ∷ []))
          × (is_nil digits ≡ false)
          × All IsDigit digits
          × (unit_size unit ≡ some size)
          × (seconds ≡ value 0 digits * size))
        → parse_timespan t ≡ some seconds
    complete (digits, unit, size, split, some_, all, known, product) =
        ap parse_timespan split
        ∙ span_complete digits unit size some_ all known
        ∙ ap some (sym product)
