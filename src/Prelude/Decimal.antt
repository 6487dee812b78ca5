-- ===== src/Prelude/Decimal.antt =====
-- `str(n)` of a natural number.
use Prim.Native.Nat.{ℕ, zero, suc, ◌+◌, ◌-◌, ◌*◌, ◌/◌, ◌%◌, ◌<◌}
use Prim.Native.Char.{Char, code, char}
use Prim.Native.String.{String}
use mathlib.Core.Path.{◌≡◌, refl, sym, ap, ◌∙◌}
use native.Mathlib.Omega.{arith}
use building_controls.Prelude.Tests.{ltb, Bool-cases}
use mathlib.Core.Bool.{true, false}
use mathlib.Core.Logic.{inl, inr}

abbrev pub digit : ℕ → Char
digit zero = char 48 tt
digit (suc zero) = char 49 tt
digit (suc (suc zero)) = char 50 tt
digit (suc (suc (suc zero))) = char 51 tt
digit (suc (suc (suc (suc zero)))) = char 52 tt
digit (suc (suc (suc (suc (suc zero))))) = char 53 tt
digit (suc (suc (suc (suc (suc (suc zero)))))) = char 54 tt
digit (suc (suc (suc (suc (suc (suc (suc zero))))))) = char 55 tt
digit (suc (suc (suc (suc (suc (suc (suc (suc zero)))))))) = char 56 tt
digit _ = char 57 tt

-- Fuel bounds the digits: a number has no more of them than its value and one.
unfoldable pub digits : ℕ → ℕ → String → String
digits zero n rest = rest
digits (suc fuel) n rest = elim (ltb n 10) [
  | true ↦ String.◌∷◌ (digit n) rest
  | false ↦ digits fuel (n / 10) (String.◌∷◌ (digit (n % 10)) rest)
]

unfoldable pub str : ℕ → String
unfolding digits
str n = digits (suc n) n String.[]

abbrev value : ℕ → String → ℕ
value acc String.[] = acc
value acc (String.◌∷◌ c s) = value (acc * 10 + (code c - 48)) s

code-digit : (n : ℕ) → n < 10 → code (digit n) ≡ n + 48
code-digit zero h = refl
code-digit (suc zero) h = refl
code-digit (suc (suc zero)) h = refl
code-digit (suc (suc (suc zero))) h = refl
code-digit (suc (suc (suc (suc zero)))) h = refl
code-digit (suc (suc (suc (suc (suc zero))))) h = refl
code-digit (suc (suc (suc (suc (suc (suc zero)))))) h = refl
code-digit (suc (suc (suc (suc (suc (suc (suc zero))))))) h = refl
code-digit (suc (suc (suc (suc (suc (suc (suc (suc zero)))))))) h = refl
code-digit (suc (suc (suc (suc (suc (suc (suc (suc (suc zero))))))))) h = refl
code-digit (suc (suc (suc (suc (suc (suc (suc (suc (suc (suc n)))))))))) h = ground arith

value-digits : (fuel n : ℕ) (rest : String) → n < fuel → value 0 (digits fuel n rest) ≡ value n rest
unfolding digits
value-digits zero n rest h = ground arith
value-digits (suc fuel) n rest h = elim (Bool-cases (ltb n 10)) [
  | inl small ↦
      rw (small, value) (rw (code-digit n (ground arith)) (ap (λ x. value x rest) (omega arith)))
  | inr large ↦
      let shorter : n / 10 < fuel = ground arith in
      rw (large, value)
        (value-digits fuel (n / 10) (String.◌∷◌ (digit (n % 10)) rest) shorter
          ∙ rw (code-digit (n % 10) (omega arith)) (ap (λ x. value x rest) (omega arith)))
]

-- Different numbers are written differently.
pub str-inj : (m n : ℕ) → str m ≡ str n → m ≡ n
unfolding str
str-inj m n h =
    sym (value-digits (suc m) m String.[] (omega arith))
    ∙ ap (value 0) h
    ∙ value-digits (suc n) n String.[] (omega arith)
