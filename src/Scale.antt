-- ===== src/Scale.antt =====
-- `wcmScaleAxis` and `wcmRotateAndScaleCoordinates` of src/wcmCommon.c.
pub mod Bounds
pub mod Rotate
mod Tests
use xf86_input_wacom.Prelude.{Bool, true, false, ◌||◌, if◌then◌else◌}
use xf86_input_wacom.Prelude.Int.{ℤ, pos, ◌+ℤ◌, ◌-ℤ◌, ◌*ℤ◌, ltb_ℤ, is_set, tdiv, to_int32}
use xf86_input_wacom.State.{Device, Rotation, upright, cw, ccw, half}

abbrev clamp_max : ℤ → ℤ → ℤ
clamp_max to_max x = if ltb_ℤ to_max x then to_max else x

abbrev clamp_min : ℤ → ℤ → ℤ
clamp_min to_min x = if ltb_ℤ x to_min then to_min else x

-- The value before it is clamped; the product is computed in 64 bits and cast to `int`.
unfoldable pub scale_raw : ℤ → ℤ → ℤ → ℤ → ℤ → ℤ
scale_raw cx to_max to_min from_max from_min =
    if is_set (from_max -ℤ from_min)
    then to_int32 (tdiv ((to_max -ℤ to_min) *ℤ (cx -ℤ from_min)) (from_max -ℤ from_min) +ℤ to_min)
    else pos 0

unfoldable pub scale_axis : ℤ → ℤ → ℤ → ℤ → ℤ → ℤ
scale_axis cx to_max to_min from_max from_min =
    clamp_min to_min (clamp_max to_max (scale_raw cx to_max to_min from_max from_min))

-- The scaling into the valuators' ranges; a range that is empty is of a relative axis.
unfoldable pub scale_coordinates : Device → ℤ → ℤ → ℤ × ℤ
scale_coordinates d x y = (
  if ltb_ℤ d.valuator_min_x d.valuator_max_x
      then scale_axis x d.valuator_max_x d.valuator_min_x d.bottom_x d.top_x
      else x,
  if ltb_ℤ d.valuator_min_y d.valuator_max_y
      then scale_axis y d.valuator_max_y d.valuator_min_y d.bottom_y d.top_y
      else y,
)

-- The rotation: a quarter turn swaps the axes first, then one or both are mirrored.
unfoldable pub rotate_coordinates : Rotation → Device → ℤ → ℤ → ℤ × ℤ
rotate_coordinates upright d x y = (x, y)
rotate_coordinates cw d x y = (
  scale_axis y d.valuator_max_x d.valuator_min_x d.valuator_max_y d.valuator_min_y,
  d.valuator_max_y
      -ℤ (scale_axis x d.valuator_max_y d.valuator_min_y d.valuator_max_x d.valuator_min_x
          -ℤ d.valuator_min_y),
)
rotate_coordinates ccw d x y = (
  d.valuator_max_x
      -ℤ (scale_axis y d.valuator_max_x d.valuator_min_x d.valuator_max_y d.valuator_min_y
          -ℤ d.valuator_min_x),
  scale_axis x d.valuator_max_y d.valuator_min_y d.valuator_max_x d.valuator_min_x,
)
rotate_coordinates half d x y =
    (d.valuator_max_x -ℤ (x -ℤ d.valuator_min_x), d.valuator_max_y -ℤ (y -ℤ d.valuator_min_y))

unfoldable pub rotate_and_scale : Rotation → Device → ℤ → ℤ → ℤ × ℤ
rotate_and_scale r d x y = let (sx, sy) = scale_coordinates d x y in rotate_coordinates r d sx sy
