-- ===== src/TruPortal/Durations.antt =====
-- The durations of the panel and how a button names them (bms/truportal.py `parse_timespan`,
-- `describe_duration`).
use building_controls.Prelude.{
  ℕ, ◌+◌, ◌-◌, ◌*◌, ◌/◌, ◌%◌, ◌≤◌, ◌≡◌, refl, ap, ◌≢◌, ◌⊎◌, inl, inr, ◌&&◌, String, Option, none,
  some, List, [], ◌∷◌, ◌++◌, arith, leb, if◌then◌else◌, Bool-cases, All, ◌==◌, nat_eq, string_eq,
  eq_of_beq, ne_of_beq, list_eq, option_eq, pair_eq,
}
use Prim.Native.String.{◌++◌ as str_append}
use building_controls.Prelude.Text.{Text, is_digit}
use building_controls.Prelude.Decimal.{str}

-- `_UNITS`
abbrev pub unit_size : ℕ → Option ℕ
unit_size c =
    if c == b's'
    then some 1
    else if c == b'm'
    then some 60
    else if c == b'h'
    then some 3600
    else if c == b'd'
    then some 86400
    else none

abbrev pub times : ℕ → Option ℕ → Option ℕ
times n none = none
times n (some size) = some (n * size)

-- the number `n` with one more digit
abbrev pub next : ℕ → ℕ → ℕ
next n c = n * 10 + (c - b'0')

-- the rest of a span after some digits of value `n`: more digits, and one unit at the end
abbrev pub after_digits : ℕ → Text → Option ℕ
after_digits n [] = none
after_digits n (c ∷ []) = times n (unit_size c)
after_digits n (c ∷ d ∷ t) =
    let rest = after_digits (next n c) (d ∷ t) in if is_digit c then rest else none

-- what follows `Tms`, at least one digit
abbrev pub span : Text → Option ℕ
span [] = none
span (c ∷ t) = if is_digit c then after_digits (next 0 c) t else none

unfoldable pub parse_timespan : Text → Option ℕ
parse_timespan (a ∷ b ∷ c ∷ t) = if (a == b'T' && b == b'm') && c == b's' then span t else none
parse_timespan _ = none

abbrev pub units : List (ℕ × String)
units = (86400, "day") ∷ (3600, "hour") ∷ (60, "minute") ∷ (1, "second") ∷ []

abbrev pub plural : ℕ → String → String
plural count unit =
    str_append (str_append (str count) (str_append " " unit)) (if count == 1 then "" else "s")

abbrev pub describe_in : List (ℕ × String) → ℕ → String
describe_in [] seconds = str_append (str seconds) " seconds"
describe_in ((size, unit) ∷ us) seconds =
    let rest = describe_in us seconds in
    if seconds % size == 0 && leb size seconds then plural (seconds / size) unit else rest

unfoldable pub describe_duration : Option ℕ → String
describe_duration none = ""
describe_duration (some seconds) = if seconds == 0 then "" else describe_in units seconds

-- A unit that goes into the duration a whole number of times, and is the largest such.
abbrev pub IsLargest : ℕ → ℕ → ℕ → String → Type 0
IsLargest seconds count size unit =
    (before : List (ℕ × String)) × (after : List (ℕ × String)) × (units
      ≡ before ++ (size, unit) ∷ after)
    × All (λ (u : ℕ × String). seconds % u.0 ≢ 0) before
    × (count * size ≡ seconds)

in_units :
    (seconds : ℕ)
    → seconds ≢ 0
    → (count : ℕ) × (size : ℕ) × (unit : String) × (1 ≤ count)
      × IsLargest seconds count size unit
      × (describe_in units seconds ≡ plural count unit)
in_units seconds some_ = elim (Bool-cases (seconds % 86400 == 0 && leb 86400 seconds)) [
  | inl day ↦ rw day (_, 86400, _, ground arith, ([], _, refl, tt, ground arith), refl)
  | inr no_day ↦ elim (Bool-cases (seconds % 3600 == 0 && leb 3600 seconds)) [
    | inl hour ↦
        rw (no_day, hour)
          (_, 3600, _, ground arith, (_ ∷ [], _, refl, (ground arith, tt), ground arith), refl)
    | inr no_hour ↦ elim (Bool-cases (seconds % 60 == 0 && leb 60 seconds)) [
      | inl minute ↦
          rw (no_day, no_hour, minute)
            (
              _,
              60,
              _,
              ground arith,
              (_ ∷ _ ∷ [], _, refl, (ground arith, (ground arith, tt)), ground arith),
              refl,
            )
      | inr no_minute ↦ elim (Bool-cases (seconds % 1 == 0 && leb 1 seconds)) [
        | inl second ↦
            rw (no_day, no_hour, no_minute, second)
              (
                _,
                1,
                _,
                ground arith,
                (
                  _ ∷ _ ∷ _ ∷ [],
                  _,
                  refl,
                  (ground arith, (ground arith, (ground arith, tt))),
                  ground arith,
                ),
                refl,
              )
        | inr no_second ↦ ground arith
      ]
    ]
  ]
]

-- The wording of a duration of a second or more names it exactly: a count, in the plural unless it is 1,
-- of the largest unit, of day, hour, minute and second, that goes into it a whole number of times. No
-- duration, or one of 0, is not named.
pub describe_duration_lem :
    (duration : Option ℕ)
    → ((seconds : ℕ) × (count : ℕ) × (size : ℕ) × (unit : String) × (duration ≡ some seconds)
        × (1 ≤ count)
        × IsLargest seconds count size unit
        × (describe_duration duration ≡ plural count unit))
      ⊎ (((duration ≡ none) ⊎ (duration ≡ some 0)) × (describe_duration duration ≡ ""))
unfolding describe_duration
describe_duration_lem none = inr (inl refl, refl)
describe_duration_lem (some seconds) = elim (Bool-cases (seconds == 0)) [
  | inl zero_ ↦
      rw (zero_, describe_duration) (inr (inr (ap some (eq_of_beq seconds 0 zero_)), refl))
  | inr some_ ↦
      let (count, size, unit, one, largest, text) = in_units seconds (ne_of_beq seconds 0 some_) in
      rw (some_, describe_duration) (inl (seconds, count, size, unit, refl, one, largest, text))
]
