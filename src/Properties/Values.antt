-- ===== src/Properties/Values.antt =====
-- The properties that hold numbers, in `wcmSetProperty` of src/x11/xf86WacomProperties.c: what each of its branches
-- checks and stores. The debug levels are only there in debug builds and are left out.
use xf86_input_wacom.Prelude.{ℕ, zero, suc, not, ◌&&◌, ◌||◌, [], ◌∷◌, set, ltb, ◌==◌, if◌then◌else◌}
use xf86_input_wacom.Prelude.Int.{ℤ, pos, negsuc, ◌*ℤ◌, tdiv, ltb_ℤ, ◌==ℤ◌, bits32}
use xf86_input_wacom.State.{
  Device, Common, Rotation, upright, cw, ccw, half, is_type, stylus_id, eraser_id, touch_id,
  cursor_id, pad_id,
}
use xf86_input_wacom.Dispatch.Pressure.{is_pen}
use xf86_input_wacom.PressureCurve.{check_pressure_curve_values}
use xf86_input_wacom.PressureCurve.Setting.{Drawing, set_pressure_curve}
use xf86_input_wacom.Life.{default_threshold, rotate_tablet}
use xf86_input_wacom.Properties.{
  bad_match, bad_value, PropertyValue, internal_to_user_pressure, user_to_internal_pressure,
}
use xf86_input_wacom.Properties.Forms.{
  ValueProperty, tablet_area, pressurecurve, suppress, rotation, serials, serial_binding, proxout,
  threshold, touch, hardware_touch, gesture, gesture_param, hover, pressure_recal,
  panscroll_threshold, Setter, refuse, accept, has_shape, card, int, is_flag, flag, is_unset,
}

-- Four times -1 stand for the whole tablet.
abbrev reset_area : Device → PropertyValue → PropertyValue
reset_area d p =
    if is_unset p
    then record p {
      values =
          bits32 d.size.min_x
          ∷ bits32 d.size.min_x
          ∷ bits32 d.size.max_x
          ∷ bits32 d.size.max_y
          ∷ [];
    }
    else p

abbrev pub put_area : Device → PropertyValue → Device
put_area d p = record d { top_x = int p 0; top_y = int p 1; bottom_x = int p 2; bottom_y = int p 3 }

unfoldable pub set_tablet_area : Setter
set_tablet_area p checkonly d c =
    if not (has_shape p 4 32)
    then refuse bad_value p d c
    else if checkonly
    then accept p d c
    else let q = reset_area d p in accept q (put_area d q) c

unfoldable pub set_pressurecurve : Drawing → Setter
set_pressurecurve g p checkonly d c =
    if not (has_shape p 4 32)
    then refuse bad_value p d c
    else if not (check_pressure_curve_values (int p 0) (int p 1) (int p 2) (int p 3))
    then refuse bad_value p d c
    else if is_type cursor_id d || is_type pad_id d
    then refuse bad_value p d c
    else if checkonly
    then accept p d c
    else accept p (set_pressure_curve g d (int p 0) (int p 1) (int p 2) (int p 3)) c

-- MAX_SAMPLES
abbrev pub max_samples : ℕ
max_samples = 20

unfoldable pub set_suppress : Setter
set_suppress p checkonly d c =
    if not (has_shape p 2 32)
    then refuse bad_value p d c
    else if ltb 100 (card p 0)
    then refuse bad_value p d c
    else if ltb (card p 1) 1 || ltb max_samples (card p 1)
    then refuse bad_value p d c
    else if checkonly
    then accept p d c
    else accept p d (record c { suppress = pos (card p 0); raw_sample = card p 1 })

abbrev pub rotation_of : ℕ → Rotation
rotation_of zero = upright
rotation_of (suc zero) = cw
rotation_of (suc (suc zero)) = ccw
rotation_of (suc (suc (suc n))) = half

-- `wcmRotateTablet` when the rotation is another one; with the same one it would change nothing.
unfoldable pub set_rotation : Setter
set_rotation p checkonly d c =
    if not (has_shape p 1 8)
    then refuse bad_value p d c
    else if ltb 3 (card p 0)
    then refuse bad_value p d c
    else if checkonly
    then accept p d c
    else accept p d (rotate_tablet (rotation_of (card p 0)) c)

unfoldable pub set_serials : Setter
set_serials p checkonly d c =
    if has_shape p 5 32 && card p 3 == d.cur_serial then accept p d c else refuse bad_value p d c

-- `wcmBindToSerial`
abbrev pub bind_to_serial : Device → ℕ → Device
bind_to_serial d serial = record d { serial = serial }

unfoldable pub set_serial_binding : Setter
set_serial_binding p checkonly d c =
    if not (has_shape p 1 32)
    then refuse bad_value p d c
    else if checkonly
    then accept p d c
    else accept p (bind_to_serial d (card p 0)) c

unfoldable pub set_proxout : Setter
set_proxout p checkonly d c =
    if not (has_shape p 1 32)
    then refuse bad_value p d c
    else if not (is_pen d || is_type cursor_id d)
    then refuse bad_value p d c
    else if ltb_ℤ c.ranges.max_dist (int p 0) || ltb_ℤ (int p 0) (pos 0)
    then refuse bad_value p d c
    else if checkonly
    then accept p d c
    else accept p (record d { proxout_dist = int p 0 }) c

-- -1 is the default; any other threshold is in the user's range.
unfoldable pub set_threshold : Setter
set_threshold p checkonly d c =
    let is_default = int p 0 ==ℤ negsuc 0 in
    let maximum = internal_to_user_pressure d d.max_curve in
    let value = if is_default then default_threshold d else user_to_internal_pressure d (int p 0) in
    if not (has_shape p 1 32)
    then refuse bad_value p d c
    else if not is_default && (ltb_ℤ (int p 0) (pos 1) || ltb_ℤ maximum (int p 0))
    then refuse bad_value p d c
    else if checkonly
    then accept p d c
    else accept p d (record c { threshold = value })

unfoldable pub set_touch : Setter
set_touch p checkonly d c =
    if not (has_shape p 1 8)
    then refuse bad_value p d c
    else if not (is_flag p)
    then refuse bad_value p d c
    else if checkonly
    then accept p d c
    else accept p d (record c { touch = flag p })

unfoldable pub set_hardware_touch : Setter
set_hardware_touch p checkonly d c =
    if c.has_hw_touch_switch && (has_shape p 1 8 && pos (card p 0) ==ℤ c.hw_touch_switch_state)
    then accept p d c
    else refuse bad_value p d c

unfoldable pub set_gesture : Setter
set_gesture p checkonly d c =
    if not (has_shape p 1 8)
    then refuse bad_value p d c
    else if not (is_flag p)
    then refuse bad_value p d c
    else if checkonly
    then accept p d c
    else accept p d (record c { gesture = flag p })

abbrev pub put_gesture_param : Common → PropertyValue → Common
put_gesture_param c p = record c {
  gesture_parameters = record (c.gesture_parameters) {
    zoom_distance = card p 0;
    scroll_distance = card p 1;
    tap_time = card p 2;
  };
}

unfoldable pub set_gesture_param : Setter
set_gesture_param p checkonly d c =
    if not (has_shape p 3 32)
    then refuse bad_value p d c
    else if checkonly
    then accept p d c
    else accept p d (put_gesture_param c p)

unfoldable pub set_hover : Setter
set_hover p checkonly d c =
    if not (has_shape p 1 8)
    then refuse bad_value p d c
    else if not (is_flag p)
    then refuse bad_value p d c
    else if not (is_type stylus_id d)
    then refuse bad_match p d c
    else if checkonly
    then accept p d c
    else accept p d (record c { tpc_button = not (flag p) })

unfoldable pub set_pressure_recal : Setter
set_pressure_recal p checkonly d c =
    if not (has_shape p 1 8)
    then refuse bad_value p d c
    else if not (is_flag p)
    then refuse bad_value p d c
    else if not (is_type stylus_id d) && not (is_type eraser_id d)
    then refuse bad_match p d c
    else if checkonly
    then accept p d c
    else accept p d (record c { pressure_recalibration = flag p })

-- 0 stands for 13 mm by the resolution, or 1000 without one; the value is written over in the check already.
abbrev default_distance : Common → ℤ
default_distance c = tdiv (c.ranges.pen.resol_y *ℤ pos 13) (pos 1000)

abbrev fill_distance : Common → PropertyValue → PropertyValue
fill_distance c p =
    let filled = record p { values = set p.values 0 (bits32 (default_distance c)) } in
    if int p 0 ==ℤ pos 0
    then (if int filled 0 ==ℤ pos 0 then record p { values = set p.values 0 1000 } else filled)
    else p

unfoldable pub set_panscroll_threshold : Setter
set_panscroll_threshold p checkonly d c =
    if not (has_shape p 1 32)
    then refuse bad_value p d c
    else if is_type touch_id d
    then refuse bad_match p d c
    else let q = fill_distance c p in
      if checkonly then accept q d c else accept q d (record c { panscroll_threshold = int q 0 })

-- `wcmSetProperty`, at a property that holds numbers.
unfoldable pub set_value : Drawing → ValueProperty → Setter
set_value g tablet_area = set_tablet_area
set_value g pressurecurve = set_pressurecurve g
set_value g suppress = set_suppress
set_value g rotation = set_rotation
set_value g serials = set_serials
set_value g serial_binding = set_serial_binding
set_value g proxout = set_proxout
set_value g threshold = set_threshold
set_value g touch = set_touch
set_value g hardware_touch = set_hardware_touch
set_value g gesture = set_gesture
set_value g gesture_param = set_gesture_param
set_value g hover = set_hover
set_value g pressure_recal = set_pressure_recal
set_value g panscroll_threshold = set_panscroll_threshold
