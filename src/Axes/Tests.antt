-- ===== src/Axes/Tests.antt =====
-- Axes that are set, read and converted.
use xf86_input_wacom.Prelude.{◌≡◌, refl, none, some, [], ◌∷◌}
use xf86_input_wacom.Prelude.Int.{pos}
use xf86_input_wacom.Axes.{
  AxisData, no_axes, axis_set, axis_get, axis_index, axis_x, axis_throttle, axis_wheel, axis_tilt_x,
  convert_axes, convert_each, valuator_number,
}

abbrev both : AxisData
both = axis_set (axis_set no_axes axis_throttle (pos 5)) axis_wheel (pos 7)

-- The wheel's value is read as the throttle's.
throttle_is_wheel : axis_get both axis_throttle ≡ some (pos 7)
unfolding axis_set axis_get axis_index
throttle_is_wheel = refl

converted :
    convert_axes (axis_set (axis_set no_axes axis_x (pos 3)) axis_tilt_x (pos 9))
    ≡ some (pos 3) ∷ none ∷ none ∷ some (pos 9) ∷ none ∷ none ∷ none ∷ none ∷ []
unfolding convert_axes convert_each valuator_number axis_set axis_get axis_index
converted = refl
