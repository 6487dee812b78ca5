-- ===== src/Holidays/Floating.antt =====
-- The dates of a floating rule, and the days that its calendar entry means to a device.
use mathlib.Core.Option
use native.Mathlib.Decide.{dec_lt}
use building_controls.Prelude.{
  and-eq-true, ℕ, zero, suc, ◌+◌, ◌-◌, ◌/◌, ◌%◌, ◌≤◌, ◌<◌, ◌≡◌, refl, ap, ◌∙◌, inl, inr, Bool, true,
  false, ◌&&◌, ◌||◌, not, Option, some, List, [], ◌∷◌, map, arith, ltb, leb, nat_beq, nat_beq_iff,
  if◌then◌else◌, Bool-cases, is_some, is_nil, ◌==◌, nat_eq, string_eq, beq_refl, list_eq, option_eq,
  pair_eq,
}
use building_controls.Prelude.Dates.{
  Date, date, is_date-of_bounds, is_leap, month_length, days_before, days_before_year,
  days_in_month, ordinal, isoweekday, month_days, up_from,
}
use building_controls.Prelude.Table.{select}
use building_controls.Database.{Holiday, floating}
use building_controls.Holidays.{
  CalendarEntry, week_n_day, to_calendar_entry, occurrences, pick_week, on_weekday, floating_dates,
  last_of, at_index, floating_entry,
}

-- The weeks of a `WeekNDay` in the BACnet standard: 1 to 4 are the first four times seven days of the
-- month, 5 is what is left, the days from the 29th on.
abbrev pub week_of : ℕ → ℕ
week_of day = if ltb 28 day then 5 else (day - 1) / 7 + 1

-- the weekday of a day, from the ordinal of the day before the first of the month
abbrev weekday_from : ℕ → ℕ → ℕ
weekday_from base day = let w = (base + day) % 7 in if nat_beq w 0 then 7 else w

-- the days of a month of length `n` that fall on a weekday
abbrev falls : ℕ → ℕ → ℕ → List ℕ
falls base n weekday = select (λ x. nat_beq (weekday_from base x) weekday) (up_from 1 n)

-- the weekday and the week of an entry cover a day
abbrev covers : ℕ → ℕ → ℕ → ℕ → Bool
covers base week weekday x = nat_beq (weekday_from base x) weekday && nat_beq (week_of x) week

abbrev same_bool : Bool → Bool → Bool
same_bool true b = b
same_bool false b = not b

-- the day lies in the week, or is the last of its weekday in the month
abbrev pub in_week : ℕ → ℕ → ℕ → Bool
in_week n week day =
    if week == 5 then leb day n && ltb n (day + 7) else nat_beq ((day - 1) / 7 + 1) week

-- of the days of the month, the entry covers this one alone, or none
abbrev agrees : ℕ → ℕ → ℕ → ℕ → ℕ → Bool
agrees base week weekday d x =
    same_bool (covers base week weekday x) (nat_beq x d && (ltb week 5 || ltb 28 d))

-- a test of the numbers from `k` on, as many as the last argument says
every : (ℕ → Bool) → ℕ → ℕ → Bool
every test k zero = true
every test k (suc rounds) = test k && every test (suc k) rounds

every-holds :
    (test : ℕ → Bool) (k rounds day : ℕ)
    → every test k rounds ≡ true
    → k ≤ day
    → day < k + rounds
    → test day ≡ true
unfolding every
every-holds test k zero day all low high = absurd (omega arith)
every-holds test k (suc rounds) day all low high =
    let (first, later) = and-eq-true (test k) (every test (suc k) rounds) all in
    elim (dec_lt k day) [
      | yes beyond ↦ every-holds test (suc k) rounds day later (omega arith) (omega arith)
      | no at_k ↦ let e : k ≡ day = omega arith in rw (← e) first
    ]

check_day : ℕ → ℕ → ℕ → ℕ → ℕ → Bool
unfolding every
check_day base n week weekday d =
    nat_beq (weekday_from base d) weekday
    && in_week n week d
    && every (λ x. agrees base week weekday d (suc x)) 0 n

check_picked : ℕ → ℕ → ℕ → ℕ → List ℕ → Bool
unfolding check_day
check_picked base n week weekday [] = false
check_picked base n week weekday (d ∷ ds) = is_nil ds && check_day base n week weekday d

check : ℕ → ℕ → ℕ → ℕ → Bool
unfolding check_picked
check base i k w =
    check_picked base (28 + i) (suc k) (suc w) (pick_week (suc k) (falls base (28 + i) (suc w)))

check_all : Bool
unfolding check
check_all = every (λ base. every (λ i. every (λ k. every (check base i k) 0 7) 0 5) 0 4) 0 7

checked : check_all ≡ true
unfolding check_all
checked = refl

check-holds : (base i k w : ℕ) → base < 7 → i < 4 → k < 5 → w < 7 → check base i k w ≡ true
unfolding check_all
check-holds base i k w a b c d =
    let weekdays = λ (base i k : ℕ). every (check base i k) 0 7 in
    let weeks = λ (base i : ℕ). every (weekdays base i) 0 5 in
    let lengths = λ (base : ℕ). every (weeks base) 0 4 in
    let one = every-holds lengths 0 7 base checked (omega arith) a in
    let two = every-holds (weeks base) 0 4 i one (omega arith) b in
    let three = every-holds (weekdays base i) 0 5 k two (omega arith) c in
    every-holds (check base i k) 0 7 w three (omega arith) d

-- What a device covers by an entry of weeks, by the standard.
abbrev pub covered : CalendarEntry → Date → Bool
covered (week_n_day m week weekday) d =
    d.month == m && nat_beq (isoweekday d) weekday && nat_beq (week_of d.day) week
covered _ d = false

abbrev day_of : ℕ → ℕ → ℕ → Date
day_of y m x = record { year = y; month = m; day = x }

abbrev base_of : ℕ → ℕ → ℕ
base_of y m = (days_before_year y + days_before (is_leap y) m) % 7

isoweekday-day_of : (y m x : ℕ) → isoweekday (day_of y m x) ≡ weekday_from (base_of y m) x
unfolding isoweekday ordinal
isoweekday-day_of y m x =
    ap (λ w. if nat_beq w 0 then 7 else w) (same (days_before_year y + days_before (is_leap y) m) x)
  where
    same : (b x : ℕ) → (b + x) % 7 ≡ (b % 7 + x) % 7
    same b x = omega arith

select-month_days :
    (y m : ℕ) (p : Date → Bool) (q : ℕ → Bool)
    → ((x : ℕ) → p (day_of y m x) ≡ q x)
    → (d n : ℕ) → select p (month_days y m d n) ≡ map (day_of y m) (select q (up_from d n))
unfolding month_days
select-month_days y m p q e d zero = refl
select-month_days y m p q e d (suc n) = elim (Bool-cases (q d)) [
  | inl yes_ ↦
      rw (e d) (rw yes_ (ap (λ t. day_of y m d ∷ t) (select-month_days y m p q e (suc d) n)))
  | inr no_ ↦ rw (e d) (rw no_ (select-month_days y m p q e (suc d) n))
]

on_weekday-falls :
    (y m weekday : ℕ)
    → on_weekday y m (some weekday)
      ≡ map (day_of y m) (falls (base_of y m) (days_in_month y m) weekday)
on_weekday-falls y m weekday =
    select-month_days y m (λ d. some (isoweekday d) == some weekday)
      (λ x. nat_beq (weekday_from (base_of y m) x) weekday)
      (λ x. ap (λ w. nat_beq w weekday) (isoweekday-day_of y m x)) 1 (days_in_month y m)

last_of-map : (f : ℕ → Date) (l : List ℕ) → last_of (map f l) ≡ map f (last_of l)
last_of-map f [] = refl
last_of-map f (x ∷ []) = refl
last_of-map f (x ∷ y ∷ l) = last_of-map f (y ∷ l)

at_index-map : (f : ℕ → Date) (l : List ℕ) (i : ℕ) → at_index (map f l) i ≡ map f (at_index l i)
at_index-map f [] i = refl
at_index-map f (x ∷ l) zero = refl
at_index-map f (x ∷ l) (suc i) = at_index-map f l i

pick_week-map :
    (f : ℕ → Date) (week : ℕ) (l : List ℕ) → pick_week week (map f l) ≡ map f (pick_week week l)
pick_week-map f week l = elim (Bool-cases (week == 5 || week == 0)) [
  | inl last ↦ rw last (last_of-map f l)
  | inr first ↦ rw first (at_index-map f l (week - 1))
]

-- the day that the check found, with what it checked
record Picked (base n week weekday : ℕ) (l : List ℕ) : Type 0 where
  day : ℕ
  alone : pick_week week l ≡ day ∷ []
  on_day : weekday_from base day ≡ weekday
  placed : in_week n week day ≡ true
  rest : (x : ℕ) → x < n → agrees base week weekday day (suc x) ≡ true

picked_of :
    (base n week weekday : ℕ) (l picked : List ℕ)
    → pick_week week l ≡ picked
    → check_picked base n week weekday picked ≡ true
    → Picked base n week weekday l
unfolding check_picked
picked_of base n week weekday l [] e h = ground arith
picked_of base n week weekday l (d ∷ x ∷ ds) e h = ground arith
picked_of base n week weekday l (d ∷ []) e h =
    let (a, b, c) =
      three (nat_beq (weekday_from base d) weekday) (in_week n week d)
        (every (λ x. agrees base week weekday d (suc x)) 0 n) h in
    record {
      day = d;
      alone = e;
      on_day = (nat_beq_iff (weekday_from base d) weekday).0 a;
      placed = b;
      rest = λ x lt.
          every-holds (λ x. agrees base week weekday d (suc x)) 0 n x c (omega arith) (omega arith);
    }
  where
    three : (a b c : Bool) → (a && b && c) ≡ true → (a ≡ true) × (b ≡ true) × (c ≡ true)
    three a b c h = ground arith

month_length_range :
    (leap : Bool) (m : ℕ) → 1 ≤ m → m ≤ 12 → (28 ≤ month_length leap m) × (month_length leap m < 32)
month_length_range leap m h k = ground arith

same_bool→eq : (a b : Bool) → same_bool a b ≡ true → a ≡ b
same_bool→eq true b h = ground arith
same_bool→eq false b h = ground arith

picked :
    (base n week weekday : ℕ)
    → base < 7
    → 28 ≤ n
    → n < 32
    → 1 ≤ week
    → week ≤ 5
    → 1 ≤ weekday
    → weekday ≤ 7
    → Picked base n week weekday (falls base n weekday)
unfolding check
picked base n week weekday a b c d e f g =
    let n_is : n ≡ 28 + (n - 28) = omega arith in
    let week_is : week ≡ suc (week - 1) = omega arith in
    let weekday_is : weekday ≡ suc (weekday - 1) = omega arith in
    rw n_is (
      rw week_is (
        rw weekday_is (
          picked_of base (28 + (n - 28)) (suc (week - 1)) (suc (weekday - 1))
            (falls base (28 + (n - 28)) (suc (weekday - 1))) _ refl
            (check-holds base (n - 28) (week - 1) (weekday - 1) a (omega arith) (omega arith)
              (omega arith)))))

chosen : Option ℕ → List Date → Option (List Date)
chosen week l = elim l [ [] ↦ some [] | d ∷ ds ↦ Option.map (λ k. pick_week k (d ∷ ds)) week ]

chosen-some :
    (week : ℕ) (l : List Date) (x : Date)
    → pick_week week l ≡ x ∷ []
    → chosen (some week) l ≡ some (x ∷ [])
unfolding chosen
chosen-some week [] x h = elim (Bool-cases (week == 5 || week == 0)) [
  | inl last ↦ let g = rw last at h in ground arith
  | inr first ↦ let g = rw first at h in ground arith
]
chosen-some week (d ∷ ds) x h = ap some h

first_is_date : (y m : ℕ) → 1 ≤ y → y ≤ 9999 → 1 ≤ m → m ≤ 12 → is_some (date y m 1) ≡ true
unfolding date
first_is_date y m a b c d =
    let (low, high) = month_length_range (is_leap y) m c d in
    rw (is_date-of_bounds (day_of y m 1) a b c d (omega arith) (omega arith)) refl

-- A floating rule whose fields are in range means one day of its month in every year, on its weekday,
-- in the week of that number, or the last such day of the month for week 5; its calendar entry carries
-- the same month, week and weekday. Of the days of that month the entry covers that day and no other,
-- as the BACnet standard reads it, but for week 5: there it covers the day only from the 29th on, and
-- otherwise none.
pub floating-occurrences :
    (h : Holiday) (y m week weekday : ℕ)
    → h.rule_type ≡ floating
    → h.month ≡ some m
    → h.week_of_month ≡ some week
    → h.day_of_week ≡ some weekday
    → (1 ≤ y) × (y ≤ 9999)
    → (1 ≤ m) × (m ≤ 12)
    → (1 ≤ week) × (week ≤ 5)
    → (1 ≤ weekday) × (weekday ≤ 7)
    → (day : ℕ) × (occurrences h y ≡ some (day_of y m day ∷ []))
      × (isoweekday (day_of y m day) ≡ weekday)
      × (in_week (days_in_month y m) week day ≡ true)
      × (to_calendar_entry h ≡ some (week_n_day m week weekday))
      × ((x : ℕ)
          → 1 ≤ x
          → x ≤ days_in_month y m
          → covered (week_n_day m week weekday) (day_of y m x)
            ≡ (x == day && (ltb week 5 || ltb 28 day)))
unfolding occurrences to_calendar_entry chosen
floating-occurrences h y m week weekday kind month_is week_is weekday_is (y1, y2) (m1, m2) (k1, k2)
      (w1, w2) =
    let (low, high) = month_length_range (is_leap y) m m1 m2 in
    let base = base_of y m in
    let n = days_in_month y m in
    let p = picked base n week weekday (omega arith) low high k1 k2 w1 w2 in
    let one : pick_week week (on_weekday y m (some weekday)) ≡ day_of y m p.day ∷ [] =
      ap (pick_week week) (on_weekday-falls y m weekday)
      ∙ pick_week-map (day_of y m) week (falls base n weekday)
      ∙ ap (map (day_of y m)) p.alone in
    let found = chosen-some week (on_weekday y m (some weekday)) (day_of y m p.day) one in
    (
      p.day,
      rw (kind, occurrences)
          (ap (λ o. floating_dates y o h.week_of_month h.day_of_week) month_is
            ∙ ap (λ o. floating_dates y (some m) o h.day_of_week) week_is
            ∙ ap (λ o. floating_dates y (some m) (some week) o) weekday_is
            ∙ rw (first_is_date y m y1 y2 m1 m2, floating_dates) found),
      isoweekday-day_of y m p.day ∙ p.on_day,
      p.placed,
      rw (kind, to_calendar_entry)
          (rw month_is (rw week_is (rw weekday_is (entry_of m week weekday m2 k1 k2 w1 w2)))),
      λ x x1 x2. at_day y m week weekday p.day x (
          same_bool→eq (covers base week weekday x)
            (nat_beq x p.day && (ltb week 5 || ltb 28 p.day))
            (ap (agrees base week weekday p.day) (omega arith) ∙ p.rest (x - 1) (omega arith))),
    )
  where
    entry_of :
        (m week weekday : ℕ)
        → m ≤ 12
        → 1 ≤ week
        → week ≤ 5
        → 1 ≤ weekday
        → weekday ≤ 7
        → floating_entry (some m) (some (week, weekday)) ≡ some (week_n_day m week weekday)
    entry_of m week weekday a b c d e = ground arith

    at_day :
        (y m week weekday day x : ℕ)
        → covers (base_of y m) week weekday x ≡ (nat_beq x day && (ltb week 5 || ltb 28 day))
        → covered (week_n_day m week weekday) (day_of y m x)
          ≡ (x == day && (ltb week 5 || ltb 28 day))
    at_day y m week weekday day x h = rw (beq_refl m) (rw (isoweekday-day_of y m x) h)
