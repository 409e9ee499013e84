-- ===== src/PressureCurve/Setting.antt =====
-- Setting the pressure curve of a device: `wcmSetPressureCurve` of src/wcmFilter.c.
use xf86_input_wacom.Prelude.{
  Bool, true, false, ◌&&◌, Option, none, some, List, [], ◌∷◌, replicate, if◌then◌else◌,
}
use xf86_input_wacom.Prelude.Int.{ℤ, pos, ◌==ℤ◌}
use xf86_input_wacom.State.{Device}
use xf86_input_wacom.PressureCurve.{check_pressure_curve_values}

-- What the function takes from elsewhere: whether the table can be allocated, and `filterCurveToLine`, which
-- draws the curve of four numbers, up to a maximum, into a table in floating point.
pub record Drawing : Type 0 where
  pub can_allocate : Bool
  pub draw : List ℤ → ℤ → List ℤ → List ℤ

abbrev pub linear : List ℤ
linear = pos 0 ∷ pos 0 ∷ pos 100 ∷ pos 100 ∷ []

-- The table: none for the linear curve, or when there is no room for one; the control points with it.
abbrev pub curve_table : Drawing → Bool → Option (List ℤ) → List ℤ → Option (List ℤ) × List ℤ
curve_table g true old points = (none, points)
curve_table g false (some table) points = (some table, points)
curve_table g false none points =
    if g.can_allocate then (some (replicate 65537 (pos 0)), points) else (none, linear)

abbrev pub drawn : Drawing → ℤ → Option (List ℤ) × List ℤ → Option (List ℤ)
drawn g max_curve (none, points) = none
drawn g max_curve (some table, points) = some (g.draw table max_curve points)

abbrev pub is_linear : ℤ → ℤ → ℤ → ℤ → Bool
is_linear x0 y0 x1 y1 = x0 ==ℤ pos 0 && (y0 ==ℤ pos 0 && (x1 ==ℤ pos 100 && y1 ==ℤ pos 100))

-- `wcmSetPressureCurve`
unfoldable pub set_pressure_curve : Drawing → Device → ℤ → ℤ → ℤ → ℤ → Device
set_pressure_curve g d x0 y0 x1 y1 =
    if check_pressure_curve_values x0 y0 x1 y1
    then (let made = curve_table g (is_linear x0 y0 x1 y1) d.press_curve (x0 ∷ y0 ∷ x1 ∷ y1 ∷ []) in
        record d { press_curve = drawn g d.max_curve made; press_ctrl = made.1 })
    else d
