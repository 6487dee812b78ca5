-- ===== src/Prelude/Dates.antt =====
-- Python's `datetime.date`: the proleptic Gregorian calendar, with days counted from 1 January of year 1.
use Prim.Native.Nat.{ℕ, zero, suc, ◌+◌, ◌-◌, ◌*◌, ◌/◌, ◌%◌, ◌≤◌, ◌<◌}
use mathlib.Core.Path.{◌≡◌, refl, ap, ◌∙◌}
use mathlib.Core.Logic.{◌⊎◌, inl, inr, ◌≢◌}
use mathlib.Core.Bool.{Bool, true, false, ◌&&◌, ◌||◌, not}
use mathlib.Core.Option.{Option, none, some}
use mathlib.Core.List.{List, [], ◌∷◌, map}
use native.Mathlib.Omega.{arith}
use native.Mathlib.Decide.{dec_lt}
use building_controls.Prelude.Tests.{
  ltb, leb, nat_beq, leb→le, le→leb, ltb→lt, if◌then◌else◌, Bool-cases,
}

pub record Date : Type 0 where
  pub year : ℕ
  pub month : ℕ
  pub day : ℕ

abbrev pub is_leap : ℕ → Bool
is_leap y = nat_beq (y % 4) 0 && (not (nat_beq (y % 100) 0) || nat_beq (y % 400) 0)

-- the length of a month from 1 to 12, and 0 of any other
abbrev pub month_length : Bool → ℕ → ℕ
month_length leap m =
    if nat_beq m 2
    then if leap then 29 else 28
    else if nat_beq m 4 || nat_beq m 6 || nat_beq m 9 || nat_beq m 11
    then 30
    else if leb 1 m && leb m 12
    then 31
    else 0

-- the days of the year before a month
abbrev pub days_before : Bool → ℕ → ℕ
days_before leap zero = 0
days_before leap (suc m) = days_before leap m + month_length leap m

-- `calendar.monthrange(year, month)[1]`
abbrev pub days_in_month : ℕ → ℕ → ℕ
days_in_month y m = month_length (is_leap y) m

-- the days before a year, from year 1
abbrev pub days_before_year : ℕ → ℕ
days_before_year y = (y - 1) * 365 + (y - 1) / 4 + (y - 1) / 400 - (y - 1) / 100

-- `d.toordinal()`
unfoldable pub ordinal : Date → ℕ
ordinal d = days_before_year d.year + days_before (is_leap d.year) d.month + d.day

-- `d.isoweekday()`: 1 is Monday
unfoldable pub isoweekday : Date → ℕ
isoweekday d = let w = ordinal d % 7 in if nat_beq w 0 then 7 else w

abbrev pub is_date : Date → Bool
is_date d =
    leb 1 d.year
    && leb d.year 9999
    && leb 1 d.month
    && leb d.month 12
    && leb 1 d.day
    && leb d.day (days_in_month d.year d.month)

-- `date(year, month, day)`, which raises where there is no such day
unfoldable pub date : ℕ → ℕ → ℕ → Option Date
date y m d =
    let it : Date = record { year = y; month = m; day = d } in if is_date it then some it else none

-- `d + timedelta(days=1)`, below the end of the calendar
unfoldable pub tomorrow : Date → Date
tomorrow d =
    if ltb d.day (days_in_month d.year d.month)
    then record d { day = d.day + 1 }
    else if ltb d.month 12
    then record { year = d.year; month = d.month + 1; day = 1 }
    else record { year = d.year + 1; month = 1; day = 1 }

-- `[d + timedelta(days=i) for i in range(n)]`
unfoldable pub days_from : Date → ℕ → List Date
days_from d zero = []
days_from d (suc n) = d ∷ days_from (tomorrow d) n

-- the days of a month from one on
unfoldable pub month_days : ℕ → ℕ → ℕ → ℕ → List Date
month_days y m d zero = []
month_days y m d (suc n) = record { year = y; month = m; day = d } ∷ month_days y m (suc d) n

-- `a < b`
abbrev pub before : Date → Date → Bool
before a b =
    ltb a.year b.year
    || nat_beq a.year b.year && (ltb a.month b.month || nat_beq a.month b.month && ltb a.day b.day)

abbrev pub up_from : ℕ → ℕ → List ℕ
up_from k zero = []
up_from k (suc n) = k ∷ up_from (suc k) n

year_length :
    (y : ℕ) → 1 ≤ y → days_before_year (y + 1) ≡ days_before_year y + days_before (is_leap y) 13
year_length y h = ground arith

month_end :
    (y m : ℕ)
    → 1 ≤ m
    → m ≤ 11
    → days_before (is_leap y) (m + 1) ≡ days_before (is_leap y) m + days_in_month y m
month_end y m h k = ground arith

all_six :
    (a b c d e f : Bool)
    → (a && b && c && d && e && f) ≡ true
    → (a ≡ true) × (b ≡ true) × (c ≡ true) × (d ≡ true) × (e ≡ true) × (f ≡ true)
all_six a b c d e f h = ground arith

pub is_date-bounds :
    (d : Date)
    → is_date d ≡ true
    → (1 ≤ d.year)
      × (d.year ≤ 9999)
      × (1 ≤ d.month)
      × (d.month ≤ 12)
      × (1 ≤ d.day)
      × (d.day ≤ days_in_month d.year d.month)
is_date-bounds d h =
    let (a, b, c, e, f, g) =
      all_six (leb 1 d.year) (leb d.year 9999) (leb 1 d.month) (leb d.month 12) (leb 1 d.day)
        (leb d.day (days_in_month d.year d.month)) h in
    (
      leb→le 1 d.year a,
      leb→le d.year 9999 b,
      leb→le 1 d.month c,
      leb→le d.month 12 e,
      leb→le 1 d.day f,
      leb→le d.day (days_in_month d.year d.month) g,
    )

not_ltb : (a b : ℕ) → ltb a b ≡ false → b ≤ a
not_ltb a b h = ground arith

december :
    (y m d : ℕ)
    → m ≡ 12
    → days_before_year (y + 1) ≡ days_before_year y + days_before (is_leap y) 13
    → d ≡ days_in_month y m
    → days_before_year (y + 1) + days_before (is_leap (y + 1)) 1 + 1
      ≡ suc (days_before_year y + days_before (is_leap y) m + d)
december y m d e h k = rw e (rw k (rw e (omega (arith, h))))

pub tomorrow-ordinal : (d : Date) → is_date d ≡ true → ordinal (tomorrow d) ≡ suc (ordinal d)
unfolding tomorrow ordinal
tomorrow-ordinal d h =
    let (y1, y2, m1, m2, d1, d2) = is_date-bounds d h in
    elim (Bool-cases (ltb d.day (days_in_month d.year d.month))) [
      | inl within ↦ rw within (omega arith)
      | inr last ↦
          let at_end = not_ltb d.day (days_in_month d.year d.month) last in
          rw last (elim (Bool-cases (ltb d.month 12)) [
            | inl early ↦
                let e = month_end d.year d.month m1 (omega (arith, ltb→lt d.month 12 early)) in
                rw early (omega arith)
            | inr late ↦
                let twelve : d.month ≡ 12 = omega (arith, not_ltb d.month 12 late) in
                rw late (december d.year d.month d.day twelve (year_length d.year y1) (omega arith))
          ])
    ]

six_all :
    (a b c d e f : Bool)
    → a ≡ true
    → b ≡ true
    → c ≡ true
    → d ≡ true
    → e ≡ true
    → f ≡ true
    → (a && b && c && d && e && f) ≡ true
six_all a b c d e f h i j k l m = ground arith

pub is_date-of_bounds :
    (d : Date)
    → 1 ≤ d.year
    → d.year ≤ 9999
    → 1 ≤ d.month
    → d.month ≤ 12
    → 1 ≤ d.day
    → d.day ≤ days_in_month d.year d.month
    → is_date d ≡ true
is_date-of_bounds d a b c e f g =
    six_all (leb 1 d.year) (leb d.year 9999) (leb 1 d.month) (leb d.month 12) (leb 1 d.day)
      (leb d.day (days_in_month d.year d.month)) (le→leb 1 d.year a) (le→leb d.year 9999 b)
      (le→leb 1 d.month c) (le→leb d.month 12 e) (le→leb 1 d.day f)
      (le→leb d.day (days_in_month d.year d.month) g)

month_length_pos : (leap : Bool) (m : ℕ) → 1 ≤ m → m ≤ 12 → 1 ≤ month_length leap m
month_length_pos leap m h k = ground arith

abbrev pub last_ordinal : ℕ
last_ordinal = 3652059

december-31 :
    (y m d : ℕ)
    → m ≡ 12
    → d ≡ days_in_month y m
    → y ≡ 9999
    → days_before_year y + days_before (is_leap y) m + d ≡ last_ordinal
december-31 y m d e h k = rw h (rw e (rw k refl))

pub tomorrow-is_date :
    (d : Date) → is_date d ≡ true → ordinal d < last_ordinal → is_date (tomorrow d) ≡ true
unfolding tomorrow ordinal
tomorrow-is_date d h below =
    let (y1, y2, m1, m2, d1, d2) = is_date-bounds d h in
    elim (Bool-cases (ltb d.day (days_in_month d.year d.month))) [
      | inl within ↦ rw within (
          is_date-of_bounds (record d { day = d.day + 1 }) y1 y2 m1 m2 (omega arith)
            (omega (arith, ltb→lt d.day (days_in_month d.year d.month) within)))
      | inr last ↦
          let at_end = not_ltb d.day (days_in_month d.year d.month) last in
          rw last (elim (Bool-cases (ltb d.month 12)) [
            | inl early ↦
                let m3 = ltb→lt d.month 12 early in
                rw early (
                  is_date-of_bounds (record { year = d.year; month = d.month + 1; day = 1 }) y1 y2
                    (omega arith) (omega arith) (omega arith)
                    (month_length_pos (is_leap d.year) (d.month + 1) (omega arith) (omega arith)))
            | inr late ↦
                let twelve : d.month ≡ 12 = omega (arith, not_ltb d.month 12 late) in
                let y3 : d.year ≢ 9999 = λ e.
                  absurd (omega (arith, december-31 d.year d.month d.day twelve (omega arith) e)) in
                rw late (
                  is_date-of_bounds (record { year = d.year + 1; month = 1; day = 1 }) (omega arith)
                    (omega (arith, below_end d.year y2 y3)) (omega arith) (omega arith)
                    (omega arith)
                    (month_length_pos (is_leap (d.year + 1)) 1 (omega arith) (omega arith)))
          ])
    ]
  where
    below_end : (y : ℕ) → y ≤ 9999 → y ≢ 9999 → y < 9999
    below_end y a b = omega arith

-- `n` days in a row, from a day on, where the calendar goes so far.
pub days_from-ordinal :
    (d : Date) (n : ℕ)
    → is_date d ≡ true
    → ordinal d + n ≤ suc last_ordinal
    → map ordinal (days_from d n) ≡ up_from (ordinal d) n
unfolding days_from
days_from-ordinal d zero h k = refl
days_from-ordinal d (suc zero) h k = refl
days_from-ordinal d (suc (suc n)) h k =
    let e = tomorrow-ordinal d h in
    let next =
      days_from-ordinal (tomorrow d) (suc n) (tomorrow-is_date d h (omega arith)) (omega arith) in
    ap (λ t. ordinal d ∷ t) (next ∙ ap (λ k. up_from k (suc n)) e)

days_before_mono : (leap : Bool) (m k : ℕ) → m ≤ k → days_before leap m ≤ days_before leap k
days_before_mono leap m zero h = omega (arith, ap (days_before leap) (zero_of m h))
  where
    zero_of : (m : ℕ) → m ≤ 0 → m ≡ 0
    zero_of m h = omega arith
days_before_mono leap m (suc k) h = elim (dec_lt k m) [
  | yes over ↦ omega (arith, ap (days_before leap) (equal m k h over))
  | no under ↦ omega (arith, days_before_mono leap m k (omega arith))
]
  where
    equal : (m k : ℕ) → m ≤ suc k → k < m → m ≡ suc k
    equal m k h o = omega arith

days_before_year_le : (y : ℕ) → 1 ≤ y → y ≤ 9999 → days_before_year (y + 1) ≤ last_ordinal
days_before_year_le y h k = omega arith

pub ordinal-le : (d : Date) → is_date d ≡ true → ordinal d ≤ last_ordinal
unfolding ordinal
ordinal-le d h =
    let (y1, y2, m1, m2, d1, d2) = is_date-bounds d h in
    omega (
      arith,
      days_before_mono (is_leap d.year) (suc d.month) 13 (omega arith),
      year_length d.year y1,
      days_before_year_le d.year y1 y2,
    )

days_before_year_mono : (y z : ℕ) → y ≤ z → days_before_year y ≤ days_before_year z
days_before_year_mono y z h = omega arith

before-cases :
    (a b : Date)
    → before a b ≡ true
    → (a.year < b.year)
      ⊎ ((a.year ≡ b.year) × (a.month < b.month))
      ⊎ ((a.year ≡ b.year) × (a.month ≡ b.month) × (a.day < b.day))
before-cases a b h = ground arith

not_before-cases :
    (a b : Date)
    → before a b ≡ false
    → (before b a ≡ true) ⊎ ((a.year ≡ b.year) × (a.month ≡ b.month) × (a.day ≡ b.day))
not_before-cases a b h = ground arith

-- The order of dates is that of their ordinals.
pub ordinal-before :
    (a b : Date) → is_date a ≡ true → is_date b ≡ true → before a b ≡ true → ordinal a < ordinal b
unfolding ordinal
ordinal-before a b v w h =
    let (y1, y2, m1, m2, d1, d2) = is_date-bounds a v in
    let (z1, z2, n1, n2, e1, e2) = is_date-bounds b w in
    elim (before-cases a b h) [
      | inl years ↦ omega (
        arith,
        days_before_year_mono (a.year + 1) b.year (omega arith),
        days_before_mono (is_leap a.year) (suc a.month) 13 (omega arith),
        year_length a.year y1,
      )
      | inr (inl (same, months)) ↦
          let leaps : is_leap a.year ≡ is_leap b.year = ap is_leap same in
          omega (
            arith,
            ap days_before_year same,
            days_before_mono (is_leap a.year) (suc a.month) b.month (omega arith),
            ap (λ l. days_before l b.month) leaps,
          )
      | inr (inr (same, months, days)) ↦ omega (
        arith,
        ap days_before_year same,
        ap (λ l. days_before l b.month) (ap is_leap same),
        ap (days_before (is_leap a.year)) months,
      )
    ]

pub ordinal-not_before :
    (a b : Date) → is_date a ≡ true → is_date b ≡ true → before a b ≡ false → ordinal b ≤ ordinal a
unfolding ordinal
ordinal-not_before a b v w h = elim (not_before-cases a b h) [
  | inl after ↦ omega (arith, ordinal-before b a w v after)
  | inr (same, months, days) ↦ omega (
    arith,
    ap days_before_year same,
    ap (λ l. days_before l b.month) (ap is_leap same),
    ap (days_before (is_leap a.year)) months,
  )
]
