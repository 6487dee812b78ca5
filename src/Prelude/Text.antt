-- ===== src/Prelude/Text.antt =====
-- Text that the program walks character by character: a list of code points, with the string
-- methods and the conversions of Python that the program uses.
use Prim.Native.Nat.{ℕ, ◌+◌, ◌/◌, ◌%◌}
use Prim.Native.Char.{code}
use Prim.Native.String.{String}
use mathlib.Core.Bool.{Bool, ◌&&◌, ◌||◌}
use mathlib.Core.List.{List, [], ◌∷◌, reverse}
use building_controls.Prelude.Tests.{leb, nat_beq, if◌then◌else◌}

abbrev pub Text : Type 0
Text = List ℕ

-- The code points of a literal.
abbrev pub codes : String → Text
codes String.[] = []
codes (String.◌∷◌ c s) = code c ∷ codes s

abbrev add_front : ℕ → List Text → List Text
add_front c [] = (c ∷ []) ∷ []
add_front c (w ∷ ws) = (c ∷ w) ∷ ws

-- `text.split(sep)` for a separator of one character: never the empty list
abbrev pub split : ℕ → Text → List Text
split sep [] = [] ∷ []
split sep (c ∷ s) = if nat_beq c sep then [] ∷ split sep s else add_front c (split sep s)

abbrev pub is_digit : ℕ → Bool
is_digit c = leb b'0' c && leb c b'9'

-- the white space that `bytes.fromhex` skips
abbrev pub is_ascii_space : ℕ → Bool
is_ascii_space c = nat_beq c 32 || leb 9 c && leb c 13

-- `str.isspace` of a character, which is what `str.strip`, `str.split` and `int` take off
abbrev pub is_space : ℕ → Bool
is_space c =
    is_ascii_space c
    || leb 28 c && leb c 31
    || nat_beq c 133
    || nat_beq c 160
    || nat_beq c 5760
    || leb 8192 c && leb c 8202
    || leb 8232 c && leb c 8233
    || nat_beq c 8239
    || nat_beq c 8287
    || nat_beq c 12288

abbrev pub lstrip : Text → Text
lstrip [] = []
lstrip (c ∷ s) = if is_space c then lstrip s else c ∷ s

unfoldable pub strip : Text → Text
strip s = reverse (lstrip (reverse (lstrip s)))

-- two digits, as `f"{n:02d}"` writes a number below 100
abbrev pub two_digits : ℕ → Text
two_digits n = (b'0' + n / 10) ∷ (b'0' + n % 10) ∷ []

-- `text.strip()` of a string
abbrev lstrip_str : String → String
lstrip_str String.[] = String.[]
lstrip_str (String.◌∷◌ c s) = if is_space (code c) then lstrip_str s else String.◌∷◌ c s

abbrev reverse_str : String → String → String
reverse_str String.[] done = done
reverse_str (String.◌∷◌ c s) done = reverse_str s (String.◌∷◌ c done)

unfoldable pub strip_str : String → String
strip_str s = reverse_str (lstrip_str (reverse_str (lstrip_str s) String.[])) String.[]
