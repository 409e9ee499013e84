-- ===== src/Axes/Access.antt =====
-- Setting an axis and reading it.

use xf86_input_wacom.Prelude.{ℕ, ◌^◌, ◌≡◌, refl, true, some, arith}
use xf86_input_wacom.Prelude.Int.{ℤ}
use xf86_input_wacom.Prelude.Bits.{has_mask, or_mask}
use xf86_input_wacom.Axes.{
  AxisData, AxisType, axis_index, axis_set, axis_get, put_field, get_field, axis_x, axis_y,
  axis_pressure, axis_tilt_x, axis_tilt_y, axis_strip_x, axis_strip_y, axis_rotation, axis_throttle,
  axis_wheel, axis_ring, axis_ring2, axis_scroll_x, axis_scroll_y,
}

get_field-put_field :
    (d : AxisData) (which : AxisType) (v : ℤ) (mask : ℕ)
    → get_field (record (put_field d which v) { mask = mask }) which ≡ v
get_field-put_field d axis_x v mask = refl
get_field-put_field d axis_y v mask = refl
get_field-put_field d axis_pressure v mask = refl
get_field-put_field d axis_tilt_x v mask = refl
get_field-put_field d axis_tilt_y v mask = refl
get_field-put_field d axis_strip_x v mask = refl
get_field-put_field d axis_strip_y v mask = refl
get_field-put_field d axis_rotation v mask = refl
get_field-put_field d axis_throttle v mask = refl
get_field-put_field d axis_wheel v mask = refl
get_field-put_field d axis_ring v mask = refl
get_field-put_field d axis_ring2 v mask = refl
get_field-put_field d axis_scroll_x v mask = refl
get_field-put_field d axis_scroll_y v mask = refl

has_mask-or_mask :
    (x : ℕ) (which : AxisType)
    → has_mask (or_mask x (2 ^ axis_index which)) (2 ^ axis_index which) ≡ true
unfolding axis_index
has_mask-or_mask x axis_x = ground arith
has_mask-or_mask x axis_y = ground arith
has_mask-or_mask x axis_pressure = ground arith
has_mask-or_mask x axis_tilt_x = ground arith
has_mask-or_mask x axis_tilt_y = ground arith
has_mask-or_mask x axis_strip_x = ground arith
has_mask-or_mask x axis_strip_y = ground arith
has_mask-or_mask x axis_rotation = ground arith
has_mask-or_mask x axis_throttle = ground arith
has_mask-or_mask x axis_wheel = ground arith
has_mask-or_mask x axis_ring = ground arith
has_mask-or_mask x axis_ring2 = ground arith
has_mask-or_mask x axis_scroll_x = ground arith
has_mask-or_mask x axis_scroll_y = ground arith

-- An axis that was set is read back with its value, for every kind of axis.
pub axis_get-axis_set :
    (d : AxisData) (which : AxisType) (v : ℤ) → axis_get (axis_set d which v) which ≡ some v
unfolding axis_get axis_set
axis_get-axis_set d which v =
    rw
      (
        has_mask-or_mask d.mask which,
        get_field-put_field d which v (or_mask d.mask (2 ^ axis_index which)),
      )
      refl
