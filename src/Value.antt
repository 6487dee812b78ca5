-- ===== src/Value.antt =====
-- What a point of a thermostat holds (bms/bacnet.py `_unwrap`, bms/points.py): the plain value that
-- is left of a BACnet one. Numbers, whole or not, are integers of thousandths.
use building_controls.Prelude.{Bool, true, false, String, ltb}
use building_controls.Prelude.Int.{ℤ, pos, abs, ◌-ℤ◌}
use building_controls.Prelude.Dict.{Dict}

pub data Value : Type 0 where
  number : ℤ → Value
  flag : Bool → Value
  text : String → Value
  null : Value

-- the values of one poll, by point key
abbrev pub Values : Type 0
Values = Dict String Value

-- 65535.0, the number that the device reports for a point it has no value for
abbrev pub no_value : ℤ
no_value = pos 65535000

-- `isinstance(value, (int, float)) and abs(float(value) - NO_VALUE) > 0.5`; a Python `bool` is an
-- `int`, and is never near 65535
unfoldable pub is_valid : Value → Bool
is_valid (number x) = ltb 500 (abs (x -ℤ no_value))
is_valid (flag b) = true
is_valid (text s) = false
is_valid null = false
