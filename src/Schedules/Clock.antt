-- ===== src/Schedules/Clock.antt =====
-- The "HH:MM" form of a time reads back as the time.
use building_controls.Prelude.{
  ℕ, zero, suc, ◌+◌, ◌/◌, ◌%◌, ◌<◌, ◌≡◌, refl, ap, Bool, true, false, ◌&&◌, Option, none, some, [],
  ◌∷◌, arith, nat_beq, ◌==◌, nat_eq, string_eq, eq_of_beq, list_eq, option_eq, pair_eq,
}
use building_controls.Prelude.Int.{ℤ, pos, int_eq}
use building_controls.Prelude.Text.{split, two_digits, strip}
use building_controls.Auth.Password.Hex.{parse_int, signed, parse_digits}
use building_controls.Schedules.{colon, clock, parse_time}

abbrev is_number : ℕ → Option ℤ → Bool
is_number n none = false
is_number n (some i) = i == pos n

all_below : (ℕ → Bool) → ℕ → Bool
all_below p zero = true
all_below p (suc n) = p n && all_below p n

all_below-holds : (p : ℕ → Bool) (k n : ℕ) → all_below p k ≡ true → n < k → p n ≡ true
unfolding all_below
all_below-holds p zero n h lt = ground arith
all_below-holds p (suc k) n h lt = ground (arith, all_below-holds p k n)

hundred : all_below (λ n. is_number n (parse_int (two_digits n))) 100 ≡ true
unfolding all_below parse_int strip signed parse_digits
hundred = refl

number_is : (n : ℕ) (o : Option ℤ) → is_number n o ≡ true → o ≡ some (pos n)
number_is n none h = ground arith
number_is n (some i) h = ap some (eq_of_beq i (pos n) h)

parse_int-two_digits : (n : ℕ) → n < 100 → parse_int (two_digits n) ≡ some (pos n)
parse_int-two_digits n lt =
    number_is n (parse_int (two_digits n))
      (all_below-holds (λ n. is_number n (parse_int (two_digits n))) 100 n hundred lt)

split-clock :
    (h m : ℕ) → h < 100 → m < 100 → split colon (clock h m) ≡ two_digits h ∷ two_digits m ∷ []
split-clock h m a b =
    let apart : (x : ℕ) → x < 10 → nat_beq (b'0' + x) colon ≡ false = λ x lt. ground arith in
    rw
      (
        apart (h / 10) (omega arith),
        apart (h % 10) (omega arith),
        apart (m / 10) (omega arith),
        apart (m % 10) (omega arith),
      )
      refl

-- A time of day reads back from its "HH:MM" form, with its seconds gone.
pub parse_time-clock :
    (h m : ℕ)
    → h < 24
    → m < 60
    → parse_time (clock h m) ≡ some (record { hour = h; minute = m; second = 0 })
unfolding parse_time
parse_time-clock h m a b =
    rw (split-clock h m (omega arith) (omega arith)) (
      rw (parse_int-two_digits h (omega arith), parse_int-two_digits m (omega arith))
        (ground arith))
