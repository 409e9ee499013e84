-- ===== src/Scale/Rotate.antt =====
-- What the rotation of the tablet does to the scaled coordinates.
use xf86_input_wacom.Prelude.{sym, ◌∙◌, ◌≡◌, arith}
use xf86_input_wacom.Prelude.Int.{ℤ, ◌+ℤ◌, ◌-ℤ◌, ◌≤ℤ◌, ◌<ℤ◌, int_min, int_max, int_laws}
use xf86_input_wacom.State.{Device, Rotation, upright, cw, ccw, half}
use xf86_input_wacom.Scale.{scale_axis, scale_coordinates, rotate_coordinates, rotate_and_scale}
use xf86_input_wacom.Scale.Bounds.{scale_axis_bounds, scale_axis_shift, above, AreRanges}

-- Both valuators have a range: the device is absolute.
pub record HasRanges (d : Device) : Type 0 where
  pub x_range : d.valuator_min_x <ℤ d.valuator_max_x
  pub y_range : d.valuator_min_y <ℤ d.valuator_max_y

-- A point of the area that the valuators advertise.
pub record IsInside (d : Device) (p : ℤ × ℤ) : Type 0 where
  pub x_low : d.valuator_min_x ≤ℤ p.0
  pub x_high : p.0 ≤ℤ d.valuator_max_x
  pub y_low : d.valuator_min_y ≤ℤ p.1
  pub y_high : p.1 ≤ℤ d.valuator_max_y

scale_coordinates-IsInside :
    (d : Device) (x y : ℤ) → HasRanges d → IsInside d (scale_coordinates d x y)
unfolding scale_coordinates
scale_coordinates-IsInside d x y h = ground (
  arith,
  scale_axis_bounds x d.valuator_max_x d.valuator_min_x d.bottom_x d.top_x,
  scale_axis_bounds y d.valuator_max_y d.valuator_min_y d.bottom_y d.top_y,
)

mirror_bounds :
    (lo hi x : ℤ) → lo ≤ℤ x → x ≤ℤ hi → (lo ≤ℤ hi -ℤ (x -ℤ lo)) × (hi -ℤ (x -ℤ lo) ≤ℤ hi)
mirror_bounds lo hi x h k = omega int_laws

rotate_coordinates-IsInside :
    (r : Rotation) (d : Device) (x y : ℤ)
    → HasRanges d
    → IsInside d (x, y)
    → IsInside d (rotate_coordinates r d x y)
unfolding rotate_coordinates
rotate_coordinates-IsInside upright d x y h i = i
rotate_coordinates-IsInside cw d x y h i =
    let over =
      scale_axis_bounds y d.valuator_max_x d.valuator_min_x d.valuator_max_y d.valuator_min_y in
    let up =
      scale_axis_bounds x d.valuator_max_y d.valuator_min_y d.valuator_max_x d.valuator_min_x in
    ground (
      arith,
      over,
      up,
      mirror_bounds d.valuator_min_y d.valuator_max_y
          (scale_axis x d.valuator_max_y d.valuator_min_y d.valuator_max_x d.valuator_min_x),
    )
rotate_coordinates-IsInside ccw d x y h i =
    let over =
      scale_axis_bounds y d.valuator_max_x d.valuator_min_x d.valuator_max_y d.valuator_min_y in
    let up =
      scale_axis_bounds x d.valuator_max_y d.valuator_min_y d.valuator_max_x d.valuator_min_x in
    ground (
      arith,
      over,
      up,
      mirror_bounds d.valuator_min_x d.valuator_max_x
          (scale_axis y d.valuator_max_x d.valuator_min_x d.valuator_max_y d.valuator_min_y),
    )
rotate_coordinates-IsInside half d x y h i = ground (
  arith,
  mirror_bounds d.valuator_min_x d.valuator_max_x x,
  mirror_bounds d.valuator_min_y d.valuator_max_y y,
)

-- Whatever the tablet reports and however it is turned, the coordinates of a device with two ranges come
-- out in the area that its valuators advertise.
pub rotate_and_scale-IsInside :
    (r : Rotation) (d : Device) (x y : ℤ) → HasRanges d → IsInside d (rotate_and_scale r d x y)
unfolding rotate_and_scale
rotate_and_scale-IsInside r d x y h =
    let (sx, sy) = scale_coordinates d x y in
    rotate_coordinates-IsInside r d sx sy h (scale_coordinates-IsInside d x y h)

mirror_twice : (lo hi x : ℤ) → hi -ℤ (hi -ℤ (x -ℤ lo) -ℤ lo) ≡ x
mirror_twice lo hi x = omega int_laws

-- Two half turns lead back to the point, wherever it is.
pub half_twice :
    (d : Device) (x y : ℤ)
    → let (x', y') = rotate_coordinates half d x y in rotate_coordinates half d x' y' ≡ (x, y)
unfolding rotate_coordinates
half_twice d x y = rw (mirror_twice, mirror_twice)

-- A device with `int` ranges of one width, so that a quarter turn loses nothing.
pub record IsSquare (d : Device) : Type 0 where
  pub ranges : HasRanges d
  pub widths : above d.valuator_max_x d.valuator_min_x ≡ above d.valuator_max_y d.valuator_min_y
  pub x_low : int_min ≤ℤ d.valuator_min_x
  pub x_high : d.valuator_max_x ≤ℤ int_max
  pub y_low : int_min ≤ℤ d.valuator_min_y
  pub y_high : d.valuator_max_y ≤ℤ int_max

module _ (d : Device) (q : IsSquare d) where
  x_to_y : AreRanges d.valuator_max_y d.valuator_min_y d.valuator_max_x d.valuator_min_x
  x_to_y = omega arith

  y_to_x : AreRanges d.valuator_max_x d.valuator_min_x d.valuator_max_y d.valuator_min_y
  y_to_x = omega arith

  unturn_x :
      (x : ℤ)
      → d.valuator_min_x ≤ℤ x
      → x ≤ℤ d.valuator_max_x
      → scale_axis
          (d.valuator_max_y -ℤ (x -ℤ d.valuator_min_x +ℤ d.valuator_min_y -ℤ d.valuator_min_y))
          d.valuator_max_x
          d.valuator_min_x
          d.valuator_max_y
          d.valuator_min_y
        ≡ d.valuator_max_x -ℤ (x -ℤ d.valuator_min_x)
  unturn_x x lo hi =
      scale_axis_shift y_to_x _ q.widths (omega int_laws) (omega int_laws) ∙ omega int_laws

  unturn_y :
      (y : ℤ)
      → d.valuator_min_y ≤ℤ y
      → y ≤ℤ d.valuator_max_y
      → scale_axis
          (y -ℤ d.valuator_min_y +ℤ d.valuator_min_x)
          d.valuator_max_y
          d.valuator_min_y
          d.valuator_max_x
          d.valuator_min_x
        ≡ y
  unturn_y y lo hi =
      scale_axis_shift x_to_y _ (sym q.widths) (omega int_laws) (omega int_laws) ∙ omega int_laws

  -- For a device whose two `int` ranges have one width, and a point in them, a quarter turn counterclockwise
  -- undoes a quarter turn clockwise.
  pub ccw_undoes_cw :
      (x y : ℤ)
      → IsInside d (x, y)
      → let (x', y') = rotate_coordinates cw d x y in rotate_coordinates ccw d x' y' ≡ (x, y)
  unfolding rotate_coordinates
  ccw_undoes_cw x y i =
      let right = scale_axis_shift y_to_x y q.widths (omega arith) (omega arith) in
      let down = scale_axis_shift x_to_y x (sym q.widths) (omega arith) (omega arith) in
      rw (right, down, unturn_x x i.x_low i.x_high, unturn_y y i.y_low i.y_high, mirror_twice)
