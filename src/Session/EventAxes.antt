-- ===== src/Session/EventAxes.antt =====
-- The axes of an event: those of a state, as `wcmSendEvents` sets them, and those of a relative
-- device, as `wcmSendNonPadEvents` does (src/wcmCommon.c).
use xf86_input_wacom.Prelude.{Bool, not, ◌||◌, none, some, ◌==◌, if◌then◌else◌}
use xf86_input_wacom.Prelude.Int.{ℤ, pos, ◌-ℤ◌, ◌*ℤ◌, tdiv, ◌==ℤ◌}
use xf86_input_wacom.State.{DeviceState, Device, is_type, stylus_id, cursor_id, pad_id}
use xf86_input_wacom.Axes.{
  AxisData, AxisType, axis_set, axis_get, no_axes, axis_x, axis_y, axis_pressure, axis_tilt_x,
  axis_tilt_y, axis_strip_x, axis_strip_y, axis_rotation, axis_throttle, axis_wheel, axis_ring,
  axis_ring2,
}

-- `int x = 0; wcmAxisGet(axes, which, &x)`
abbrev pub axis_or_zero : AxisData → AxisType → ℤ
axis_or_zero axes which = elim (axis_get axes which) [ none ↦ pos 0 | some v ↦ v ]

-- An axis that becomes the difference to its old value; an axis not set counts as 0.
abbrev make_relative : AxisType → ℤ → AxisData → AxisData
make_relative which old axes = axis_set axes which (axis_or_zero axes which -ℤ old)

-- The same for an axis that is left alone when not set.
abbrev make_relative_if_set : AxisType → ℤ → AxisData → AxisData
make_relative_if_set which old axes = elim (axis_get axes which) [
  | none ↦ axes
  | some v ↦ axis_set axes which (v -ℤ old)
]

-- The axes of a relative device. The tilt in x is taken relative to the old tilt in y, as the code
-- has it.
unfoldable pub relative_axes : Device → AxisData → AxisData
relative_axes d axes =
    let old = d.old_state in
    let a1 = make_relative axis_x old.x axes in
    let a2 = make_relative axis_y old.y a1 in
    let a3 = make_relative axis_pressure old.pressure a2 in
    let a4 =
      if is_type cursor_id d
      then make_relative axis_throttle old.throttle (make_relative axis_rotation old.rotation a3)
      else make_relative axis_tilt_y old.tilty (make_relative axis_tilt_x old.tilty a3) in
    make_relative_if_set axis_ring2 old.abswheel2 (make_relative_if_set axis_ring old.abswheel a4)

abbrev is_art_pen : DeviceState → Bool
is_art_pen ds =
    ds.device_id ==ℤ pos 0x885 || (ds.device_id ==ℤ pos 0x804 || ds.device_id ==ℤ pos 0x100804)

abbrev is_air_brush : DeviceState → Bool
is_air_brush ds = ds.device_id ==ℤ pos 0x902 || ds.device_id ==ℤ pos 0x100902

-- The airbrush's wheel in the art pen's range: (int)(abswheel * 1800 / 1023.0 - 900), exactly.
abbrev air_brush_wheel : ℤ → ℤ
air_brush_wheel wheel = tdiv (wheel *ℤ pos 1800 -ℤ pos 920700) (pos 1023)

-- The axes of a state at the coordinates (x, y).
unfoldable pub state_axes : Device → DeviceState → ℤ → ℤ → AxisData
state_axes d ds x y =
    let a1 =
      if is_type pad_id d
      then no_axes
      else axis_set (axis_set (axis_set no_axes axis_x x) axis_y y) axis_pressure ds.pressure in
    let a2 =
      if ds.device_type == pad_id
      then axis_set
          (axis_set (axis_set (axis_set a1 axis_strip_x ds.stripx) axis_strip_y ds.stripy) axis_ring
            ds.abswheel)
          axis_ring2 ds.abswheel2
      else if is_type cursor_id d
      then axis_set (axis_set a1 axis_rotation ds.rotation) axis_throttle ds.throttle
      else axis_set (axis_set a1 axis_tilt_x ds.tiltx) axis_tilt_y ds.tilty in
    if not (is_type stylus_id d)
    then a2
    else if is_air_brush ds
    then axis_set a2 axis_wheel (air_brush_wheel ds.abswheel)
    else if is_art_pen ds
    then axis_set a2 axis_wheel ds.abswheel
    else a2
