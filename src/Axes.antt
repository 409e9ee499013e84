-- ===== src/Axes.antt =====
-- The axes of an event: `enum WacomAxisType`, `WacomAxisData`, `wcmAxisSet` and `wcmAxisGet` of
-- src/WacomInterface.h, and `valuatorNumber` and `convertAxes` of src/x11/xf86Wacom.c.
pub mod Access
mod Tests
use xf86_input_wacom.Prelude.{
  ℕ, ◌^◌, Option, none, some, List, [], ◌∷◌, set, replicate, if◌then◌else◌,
}
use xf86_input_wacom.Prelude.Int.{ℤ, pos}
use xf86_input_wacom.Prelude.Bits.{has_mask, or_mask}

pub data AxisType : Type 0 where
  axis_x axis_y axis_pressure axis_tilt_x axis_tilt_y axis_strip_x axis_strip_y axis_rotation
        axis_throttle axis_wheel axis_ring axis_ring2 axis_scroll_x axis_scroll_y :
      AxisType

-- The number of the axis's bit in the mask.
unfoldable pub axis_index : AxisType → ℕ
axis_index axis_x = 0
axis_index axis_y = 1
axis_index axis_pressure = 2
axis_index axis_tilt_x = 3
axis_index axis_tilt_y = 4
axis_index axis_strip_x = 5
axis_index axis_strip_y = 6
axis_index axis_rotation = 7
axis_index axis_throttle = 8
axis_index axis_wheel = 9
axis_index axis_ring = 10
axis_index axis_ring2 = 11
axis_index axis_scroll_x = 12
axis_index axis_scroll_y = 13

pub record AxisData : Type 0 where
  pub mask : ℕ
  pub x : ℤ
  pub y : ℤ
  pub pressure : ℤ
  pub tilt_x : ℤ
  pub tilt_y : ℤ
  pub strip_x : ℤ
  pub strip_y : ℤ
  pub rotation : ℤ
  pub throttle : ℤ
  pub wheel : ℤ
  pub ring : ℤ
  pub ring2 : ℤ
  pub scroll_x : ℤ
  pub scroll_y : ℤ

-- `WacomAxisData axes = {0}`
abbrev pub no_axes : AxisData
no_axes = record {
  mask = 0;
  x = pos 0;
  y = pos 0;
  pressure = pos 0;
  tilt_x = pos 0;
  tilt_y = pos 0;
  strip_x = pos 0;
  strip_y = pos 0;
  rotation = pos 0;
  throttle = pos 0;
  wheel = pos 0;
  ring = pos 0;
  ring2 = pos 0;
  scroll_x = pos 0;
  scroll_y = pos 0;
}

-- The field that `wcmAxisSet` and `wcmAxisGet` use; the throttle shares the wheel's.
abbrev pub put_field : AxisData → AxisType → ℤ → AxisData
put_field d axis_x v = record d { x = v }
put_field d axis_y v = record d { y = v }
put_field d axis_pressure v = record d { pressure = v }
put_field d axis_tilt_x v = record d { tilt_x = v }
put_field d axis_tilt_y v = record d { tilt_y = v }
put_field d axis_strip_x v = record d { strip_x = v }
put_field d axis_strip_y v = record d { strip_y = v }
put_field d axis_rotation v = record d { rotation = v }
put_field d axis_throttle v = record d { wheel = v }
put_field d axis_wheel v = record d { wheel = v }
put_field d axis_ring v = record d { ring = v }
put_field d axis_ring2 v = record d { ring2 = v }
put_field d axis_scroll_x v = record d { scroll_x = v }
put_field d axis_scroll_y v = record d { scroll_y = v }

abbrev pub get_field : AxisData → AxisType → ℤ
get_field d axis_x = d.x
get_field d axis_y = d.y
get_field d axis_pressure = d.pressure
get_field d axis_tilt_x = d.tilt_x
get_field d axis_tilt_y = d.tilt_y
get_field d axis_strip_x = d.strip_x
get_field d axis_strip_y = d.strip_y
get_field d axis_rotation = d.rotation
get_field d axis_throttle = d.wheel
get_field d axis_wheel = d.wheel
get_field d axis_ring = d.ring
get_field d axis_ring2 = d.ring2
get_field d axis_scroll_x = d.scroll_x
get_field d axis_scroll_y = d.scroll_y

-- `wcmAxisSet`
unfoldable pub axis_set : AxisData → AxisType → ℤ → AxisData
unfolding axis_index
axis_set d which v = record (put_field d which v) { mask = or_mask d.mask (2 ^ axis_index which) }

-- `wcmAxisGet`; `none` leaves the variable at `value_out` as it is.
unfoldable pub axis_get : AxisData → AxisType → Option ℤ
unfolding axis_index
axis_get d which = if has_mask d.mask (2 ^ axis_index which) then some (get_field d which) else none

-- `valuatorNumber`
pub valuator_number : AxisType → ℕ
valuator_number axis_x = 0
valuator_number axis_y = 1
valuator_number axis_pressure = 2
valuator_number axis_tilt_x = 3
valuator_number axis_tilt_y = 4
valuator_number axis_strip_x = 3
valuator_number axis_strip_y = 4
valuator_number axis_rotation = 3
valuator_number axis_throttle = 4
valuator_number axis_wheel = 5
valuator_number axis_ring = 5
valuator_number axis_ring2 = 6
valuator_number axis_scroll_x = 6
valuator_number axis_scroll_y = 7

-- One round of the loop: a valuator is set if the axis is.
abbrev convert_axis : AxisData → AxisType → List (Option ℤ) → List (Option ℤ)
unfolding valuator_number
convert_axis d which valuators = elim (axis_get d which) [
  | none ↦ valuators
  | some v ↦ set valuators (valuator_number which) (some v)
]

convert_each : AxisData → List AxisType → List (Option ℤ) → List (Option ℤ)
convert_each d [] valuators = valuators
convert_each d (a ∷ rest) valuators = convert_each d rest (convert_axis d a valuators)

-- From the last axis down to the first.
abbrev axes_downward : List AxisType
axes_downward =
    axis_scroll_y ∷ axis_scroll_x ∷ axis_ring2 ∷ axis_ring ∷ axis_wheel ∷ axis_throttle
    ∷ axis_rotation ∷ axis_strip_y ∷ axis_strip_x ∷ axis_tilt_y ∷ axis_tilt_x ∷ axis_pressure
    ∷ axis_y ∷ axis_x ∷ []

-- `convertAxes`, on eight valuators of which none is set.
pub convert_axes : AxisData → List (Option ℤ)
unfolding convert_each
convert_axes d = convert_each d axes_downward (replicate 8 none)
