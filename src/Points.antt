-- ===== src/Points.antt =====
-- The points that the service drives, and the limits of the set-points (bms/points.py). Of a point only
-- the key and whether it is writable are kept.
use building_controls.Prelude.{Bool, true, false, String, [], ◌∷◌}
use building_controls.Prelude.Int.{ℤ, pos}
use building_controls.Prelude.Dict.{Dict}

-- `BY_KEY`, in the order of `POINTS`
abbrev pub points : Dict String Bool
points =
    ("space_temp", false)
    ∷ ("space_humidity", false)
    ∷ ("effective_sp", false)
    ∷ ("effective_heat_sp", false)
    ∷ ("effective_cool_sp", false)
    ∷ ("setpoint_status", false)
    ∷ ("effective_occupancy", false)
    ∷ ("temp_mode", false)
    ∷ ("active_heat_stages", false)
    ∷ ("active_cool_stages", false)
    ∷ ("active_aux_heat_stages", false)
    ∷ ("fan_running", false)
    ∷ ("economizer_enabled", false)
    ∷ ("occ_cool_sp", true)
    ∷ ("occ_heat_sp", true)
    ∷ ("standby_cool_sp", true)
    ∷ ("standby_heat_sp", true)
    ∷ ("unocc_cool_sp", true)
    ∷ ("unocc_heat_sp", true)
    ∷ ("occupancy_override", true)
    ∷ ("bypass_enable", true)
    ∷ ("bypass_minutes", true)
    ∷ ("bypass_duration_cfg", true)
    ∷ ("network_override_enable", true)
    ∷ ("heat_adjust", true)
    ∷ ("cool_adjust", true)
    ∷ ("adjust", true)
    ∷ ("occupant_adjust_limit", true)
    ∷ ("bypass_active", false)
    ∷ ("bypass_remaining_minutes", false)
    ∷ ("oa_temp", false)
    ∷ ("oa_humidity", false)
    ∷ ("oa_temp_in", true)
    ∷ ("oa_humidity_in", true)
    ∷ ("schedule_state", false)
    ∷ []

-- `SETPOINT_LIMITS`, in thousandths
abbrev pub setpoint_limits : Dict String (ℤ × ℤ)
setpoint_limits =
    ("occ_cool_sp", (pos 65000, pos 85000))
    ∷ ("occ_heat_sp", (pos 60000, pos 78000))
    ∷ ("standby_cool_sp", (pos 68000, pos 88000))
    ∷ ("standby_heat_sp", (pos 55000, pos 75000))
    ∷ ("unocc_cool_sp", (pos 75000, pos 95000))
    ∷ ("unocc_heat_sp", (pos 50000, pos 68000))
    ∷ []
