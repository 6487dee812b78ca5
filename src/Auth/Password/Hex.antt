-- ===== src/Auth/Password/Hex.antt =====
-- `bytes.hex`, `bytes.fromhex` and `int` on text, of Python's standard library.
use building_controls.Prelude.{
  ℕ, ◌+◌, ◌-◌, ◌*◌, ◌/◌, ◌%◌, ◌≤◌, ◌<◌, ◌≡◌, refl, ap, ◌≢◌, Bool, true, false, ◌&&◌, Option, none,
  some, List, [], ◌∷◌, ◌++◌, arith, ltb, leb, nat_beq, if◌then◌else◌, All, nat_eq, string_eq,
  list_eq, option_eq, pair_eq,
}
use building_controls.Prelude.Int.{ℤ, pos, sub_ℕ}
use building_controls.Prelude.Text.{Text, is_digit, is_ascii_space, strip, split}

abbrev pub Byte : ℕ → Type 0
Byte b = b < 256

unfoldable pub hex_digit : ℕ → ℕ
hex_digit n = if ltb n 10 then n + 48 else n + 87

unfoldable pub hex : List ℕ → Text
hex [] = []
hex (b ∷ bs) = hex_digit (b / 16) ∷ hex_digit (b % 16) ∷ hex bs

unfoldable pub digit_value : ℕ → Option ℕ
digit_value c =
    if leb 48 c && leb c 57
    then some (c - 48)
    else if leb 97 c && leb c 102
    then some (c - 87)
    else if leb 65 c && leb c 70
    then some (c - 55)
    else none

abbrev join : Option ℕ → Option ℕ → Option (List ℕ) → Option (List ℕ)
join (some a) (some b) (some bs) = some ((a * 16 + b) ∷ bs)
join _ _ _ = none

-- White space is skipped between the bytes.
unfoldable pub from_hex : Text → Option (List ℕ)
unfolding digit_value
from_hex [] = some []
from_hex (c ∷ []) = if is_ascii_space c then some [] else none
from_hex (c ∷ d ∷ s) = elim (is_ascii_space c) [
  | true ↦ from_hex (d ∷ s)
  | false ↦ join (digit_value c) (digit_value d) (from_hex s)
]

-- digits, with single underscores between them
unfoldable pub parse_digits : ℕ → Bool → Text → Option ℕ
parse_digits acc after_digit [] = if after_digit then some acc else none
parse_digits acc after_digit (c ∷ s) = elim (is_digit c) [
  | true ↦ parse_digits (acc * 10 + (c - 48)) true s
  | false ↦ elim (nat_beq c b'_' && after_digit) [ true ↦ parse_digits acc false s | false ↦ none ]
]

abbrev negate : Option ℕ → Option ℤ
negate none = none
negate (some n) = some (sub_ℕ 0 n)

abbrev plus : Option ℕ → Option ℤ
plus none = none
plus (some n) = some (pos n)

unfoldable pub signed : Text → Option ℤ
unfolding parse_digits
signed [] = none
signed (c ∷ s) =
    if nat_beq c b'-'
    then negate (parse_digits 0 false s)
    else if nat_beq c b'+'
    then plus (parse_digits 0 false s)
    else plus (parse_digits 0 false (c ∷ s))

-- `int(text)`, for text in ASCII
unfoldable pub parse_int : Text → Option ℤ
unfolding signed strip
parse_int s = signed (strip s)

digit_value-hex_digit : (n : ℕ) → n < 16 → digit_value (hex_digit n) ≡ some n
unfolding hex_digit digit_value
digit_value-hex_digit n h = ground arith

hex_digit_plain :
    (n : ℕ)
    → n < 16
    → (is_ascii_space (hex_digit n) ≡ false) × (48 ≤ hex_digit n) × (hex_digit n < 128)
unfolding hex_digit
hex_digit_plain n h = ground arith

-- Writing bytes as hexadecimal digits and reading them gives the bytes back.
pub from_hex-hex : (bs : List ℕ) → All Byte bs → from_hex (hex bs) ≡ some bs
unfolding from_hex hex
from_hex-hex [] h = refl
from_hex-hex (b ∷ bs) (hb, h) = ground (
  arith,
  hex_digit_plain (b / 16) (omega arith),
  digit_value-hex_digit (b / 16) (omega arith),
  digit_value-hex_digit (b % 16) (omega arith),
  from_hex-hex bs h,
)

pub hex_plain : (bs : List ℕ) → All Byte bs → All (λ c. (48 ≤ c) × (c < 128)) (hex bs)
unfolding hex
hex_plain [] h = tt
hex_plain (b ∷ bs) (hb, h) =
    let x = hex_digit_plain (b / 16) (omega arith) in
    let y = hex_digit_plain (b % 16) (omega arith) in ((x.1, x.2), ((y.1, y.2), hex_plain bs h))

pub hex_inj : (xs bs : List ℕ) → All Byte xs → All Byte bs → hex xs ≡ hex bs → xs ≡ bs
hex_inj xs bs ha hb e =
    let a = from_hex-hex xs ha in
    let b = from_hex-hex bs hb in
    let c : from_hex (hex xs) ≡ from_hex (hex bs) = ap from_hex e in cc

pub split_none : (sep : ℕ) (s : Text) → All (λ c. c ≢ sep) s → split sep s ≡ s ∷ []
split_none sep [] h = refl
split_none sep (c ∷ s) (hc, h) = ground (arith, split_none sep s h)

pub split-append :
    (sep : ℕ) (s r : Text) → All (λ c. c ≢ sep) s → split sep (s ++ sep ∷ r) ≡ s ∷ split sep r
split-append sep [] r h = ground arith
split-append sep (c ∷ s) r (hc, h) = ground (arith, split-append sep s r h)
