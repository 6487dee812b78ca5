-- ===== src/Holidays/Range.antt =====
-- The dates of a range.
use building_controls.Prelude.{
  ℕ, ◌+◌, ◌-◌, ◌≤◌, ◌<◌, ◌≡◌, refl, sym, ap, ◌∙◌, inl, inr, true, false, none, some, List, map,
  arith, lt→ltb, if◌then◌else◌, Bool-cases, Option-cases, nat_eq, string_eq, list_eq, option_eq,
  pair_eq,
}
use building_controls.Prelude.Dates.{
  Date, date, is_date, ordinal, days_from, before, up_from, days_from-ordinal, ordinal-le,
  ordinal-before, ordinal-not_before,
}
use building_controls.Database.{Holiday, range}
use building_controls.Holidays.{occurrences, other_year, end_of, range_dates, both}

date-is_date : (y m d : ℕ) (x : Date) → date y m d ≡ some x → (is_date x ≡ true) × (x.year ≡ y)
unfolding date
date-is_date y m d x h =
    let it : Date = record { year = y; month = m; day = d } in
    elim (Bool-cases (is_date it)) [
      | inl yes_ ↦
          let e : it ≡ x =
            some_injective it x (ap (λ b. if b then some it else none) (sym yes_) ∙ h) in
          rw (← e) (yes_, refl)
      | inr no_ ↦ absurd (none_some x (ap (λ b. if b then some it else none) (sym no_) ∙ h))
    ]
  where
    some_injective : (a b : Date) → some a ≡ some b → a ≡ b
    some_injective a b h = cc

    none_some : (a : Date) → none ≡ some a → ⊥
    none_some a h = cc

-- the end is a date, and not before the start
end-ordinal :
    (year em ed : ℕ) (first last : Date)
    → is_date first ≡ true
    → first.year ≡ year
    → end_of year (some (em, ed)) first ≡ some last
    → (is_date last ≡ true) × (ordinal first ≤ ordinal last)
end-ordinal year em ed first last v same h = elim (Option-cases (date year em ed)) [
  | inl bad ↦ let g = rw (bad, end_of) at h in ground arith
  | inr (e, good) ↦
      let (valid, at_year) = date-is_date year em ed e good in
      let g = rw (good, end_of) at h in
      elim (Bool-cases (before e first)) [
        | inl early ↦
            let g' = rw early at g in
            let (valid', next) = date-is_date (year + 1) em ed last g' in
            (
              valid',
              omega
                  (arith, ordinal-before first last v valid' (later_year first last (omega arith))),
            )
        | inr late ↦
            let g' = rw late at g in
            let same_day : e ≡ last = ground arith in
            rw (← same_day) (valid, ordinal-not_before e first valid v late)
      ]
]
  where
    later_year : (a b : Date) → a.year < b.year → before a b ≡ true
    later_year a b h = rw (lt→ltb a.year b.year h) refl

-- A range rule whose start and end are dates means the days in a row from the start in that year to the
-- end in the same year, or in the next one where the end would come before the start: the days are
-- consecutive, the first is the start and the last is the end, which is never before it. The dates are
-- counted from 1 January of year 1.
pub range-occurrences :
    (h : Holiday) (year m d em ed : ℕ) (first last : Date)
    → h.rule_type ≡ range
    → other_year h.year year ≡ false
    → both h.month h.day ≡ some (m, d)
    → both h.end_month h.end_day ≡ some (em, ed)
    → date year m d ≡ some first
    → end_of year (some (em, ed)) first ≡ some last
    → (days : List Date) × (occurrences h year ≡ some days)
      × (map ordinal days ≡ up_from (ordinal first) (ordinal last + 1 - ordinal first))
      × (ordinal first ≤ ordinal last)
unfolding occurrences
range-occurrences h year m d em ed first last kind here start end_given first_is last_is =
    let (valid, at_year) = date-is_date year m d first first_is in
    let (valid', ordered) = end-ordinal year em ed first last valid at_year last_is in
    let n = ordinal last + 1 - ordinal first in
    (
      days_from first n,
      rw (kind, occurrences)
          (rw here (rw start (rw end_given (rw (first_is, range_dates) (rw last_is refl))))),
      days_from-ordinal first n valid (omega (arith, ordinal-le last valid')),
      ordered,
    )
