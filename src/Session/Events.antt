-- ===== src/Session/Events.antt =====
-- Sending a state's events: `sendCommonEvents` to `wcmSendEvents` of src/wcmCommon.c.
pub mod Proximity
pub mod Tablet
pub mod OldState
mod Tests
use xf86_input_wacom.Prelude.{
  ℕ, ◌+◌, ◌*◌, ◌-◌, ◌%◌, Bool, true, false, not, ◌&&◌, ◌||◌, Option, none, some, ◌==◌, ◌!=◌,
  if◌then◌else◌,
}
use xf86_input_wacom.Prelude.Int.{ℤ, pos, negsuc, ◌+ℤ◌, ◌-ℤ◌, ◌*ℤ◌, tdiv, is_set, ◌==ℤ◌, int_max}
use xf86_input_wacom.Prelude.Bits.{has_mask, clear_mask}
use xf86_input_wacom.State.{
  DeviceState, Device, Common, is_type, stylus_id, touch_id, cursor_id, eraser_id, pad_id,
  buttons_only_flag, scrollmode_flag, outprox_state,
}
use xf86_input_wacom.Axes.{AxisData, no_axes, axis_x, axis_y}
use xf86_input_wacom.Session.EventAxes.{axis_or_zero, relative_axes, state_axes}
use xf86_input_wacom.Scale.{rotate_and_scale}
use xf86_input_wacom.Session.{
  Session, emit, motion, proximity_event, serial_update, set_old_state, set_flags,
}
use xf86_input_wacom.Session.Mode.{is_absolute}
use xf86_input_wacom.Session.Action.{in_scrollmode}
use xf86_input_wacom.Session.Scroll.{panscroll, send_wheel_strip_events, tip_down}
use xf86_input_wacom.Session.Buttons.{send_buttons, send_keys}

abbrev strip_moved : ℤ → ℤ → Bool
strip_moved current old = is_set (current -ℤ old) && (is_set current && is_set old)

-- The condition under which wheels and strips are looked at.
abbrev pub wheels_moved : DeviceState → DeviceState → Bool
wheels_moved ds old =
    is_set ds.relwheel
    || (is_set ds.relwheel2
        || (not (ds.abswheel ==ℤ old.abswheel)
            || (not (ds.abswheel2 ==ℤ old.abswheel2)
                || (strip_moved ds.stripx old.stripx || strip_moved ds.stripy old.stripy))))

-- `sendCommonEvents`
unfoldable pub send_common_events : DeviceState → AxisData → Session → Session
send_common_events ds axes s0 =
    let s1 = panscroll ds (axis_or_zero axes axis_x) (axis_or_zero axes axis_y) s0 in
    let changed =
      ds.buttons != s1.dev.old_state.buttons
      || (not (is_set s1.dev.old_state.proximity) && (ds.buttons == 0)) in
    let s2 = if changed then send_buttons ds ds.buttons axes s1 else s1 in
    if wheels_moved ds s2.dev.old_state then send_wheel_strip_events ds axes s2 else s2

-- `wcmUpdateOldState`
abbrev pub update_old_state : DeviceState → ℤ → ℤ → Session → Session
update_old_state ds x y s = set_old_state s (record ds { x = x; y = y })

-- `if (!priv->oldState.proximity && ds->proximity) wcmEmitProximity(priv, TRUE, axes)`
unfoldable pub enter_proximity : DeviceState → AxisData → Session → Session
enter_proximity ds axes s =
    if not (is_set s.dev.old_state.proximity) && is_set ds.proximity
    then emit s (proximity_event true axes)
    else s

-- `if (priv->oldState.proximity && !ds->proximity) wcmEmitProximity(priv, FALSE, axes)`
unfoldable pub leave_proximity : DeviceState → AxisData → Session → Session
leave_proximity ds axes s =
    if is_set s.dev.old_state.proximity && not (is_set ds.proximity)
    then emit s (proximity_event false axes)
    else s

-- Whether a pad has anything to report.
abbrev pub pad_active : DeviceState → AxisData → DeviceState → Bool
pad_active ds axes old =
    not (axes.mask == 0)
    || (not (ds.buttons == 0)
        || (is_set ds.relwheel
            || (is_set ds.relwheel2
                || (not (ds.abswheel ==ℤ old.abswheel) || not (ds.abswheel2 ==ℤ old.abswheel2)))))

-- The pad's events between the proximity events and the keys.
unfoldable pub pad_body : DeviceState → AxisData → Session → Session
pad_body ds axes s =
    if pad_active ds axes s.dev.old_state
    then emit (send_common_events ds axes s) (motion true axes)
    else if not (s.dev.old_state.buttons == 0)
    then send_buttons ds ds.buttons axes s
    else s

abbrev pub changed_keys : DeviceState → Session → Session
changed_keys ds s = send_keys ds.keys s.dev.old_state.keys s

-- `wcmSendPadEvents`
unfoldable pub send_pad_events : DeviceState → AxisData → Session → Session
send_pad_events ds axes s =
    leave_proximity ds axes (changed_keys ds (pad_body ds axes (enter_proximity ds axes s)))

-- Whether the pointer stays: in button-only mode, and while panscroll holds it.
abbrev pub pointer_held : Device → Bool
pointer_held d =
    has_mask d.flags buttons_only_flag
    || (in_scrollmode d && (not (is_absolute d) || tip_down d.old_state))

-- The events of a tool in proximity: the motion first, unless the pointer is held. A relative
-- device's axes are not sent again.
unfoldable pub send_near : DeviceState → AxisData → Session → Session
send_near ds axes s =
    if pointer_held s.dev
    then send_common_events ds axes s
    else send_common_events ds (if is_absolute s.dev then axes else no_axes)
        (emit s (motion (is_absolute s.dev) axes))

-- Buttons that were down come up when the tool leaves.
unfoldable pub send_far : DeviceState → AxisData → Session → Session
send_far ds axes s = if s.dev.old_state.buttons == 0 then s else send_buttons ds 0 axes s

-- `wcmSendNonPadEvents` with the axes ready.
unfoldable pub send_tool_events : DeviceState → AxisData → Session → Session
send_tool_events ds axes s =
    if is_set ds.proximity
    then send_near ds axes (enter_proximity ds axes s)
    else leave_proximity ds axes (send_far ds axes s)

-- `wcmSendNonPadEvents`
unfoldable pub send_non_pad_events : DeviceState → AxisData → Session → Session
send_non_pad_events ds axes s =
    send_tool_events ds (if is_absolute s.dev then axes else relative_axes s.dev axes) s

-- `wcmUpdateSerial`
unfoldable pub update_serial : ℕ → ℤ → Session → Session
update_serial serial id s =
    if (s.dev.cur_serial == serial) && (s.dev.cur_device_id ==ℤ id)
    then s
    else emit (record s { dev = record (s.dev) { cur_serial = serial; cur_device_id = id } })
        serial_update

-- `wcmTouchNeedSendEvents` of src/wcmTouchFilter.c: no gesture, or the dragging one, 32.
abbrev pub touch_need_send_events : Common → Bool
touch_need_send_events c = clear_mask c.gesture_mode 32 == 0

-- The old state when a tool enters proximity: a copy of the new one, out of proximity and with no
-- buttons, and with the old keys.
abbrev pub entering_state : DeviceState → DeviceState → ℤ → ℤ → DeviceState
entering_state old ds x y = record ds {
  x = x;
  y = y;
  proximity = pos 0;
  buttons = 0;
  keys = old.keys;
}

-- The old state that a tool out of proximity leaves.
abbrev pub left_state : ℕ → ℤ → DeviceState
left_state serial id = record outprox_state { serial_num = serial; device_id = id }

-- The coordinates of the events; out of proximity they are the last ones.
abbrev pub event_coordinates : DeviceState → Session → ℤ × ℤ
event_coordinates ds s =
    if is_set ds.proximity
    then rotate_and_scale s.common.rotate s.dev ds.x ds.y
    else (s.dev.old_state.x, s.dev.old_state.y)

-- Leaving proximity ends panscroll.
unfoldable pub cancel_panscroll : DeviceState → Session → Session
cancel_panscroll ds s =
    if is_set ds.proximity then s else set_flags s (clear_mask s.dev.flags scrollmode_flag)

unfoldable pub prepare_old_state : DeviceState → ℤ → ℤ → Session → Session
prepare_old_state ds x y s =
    if is_set s.dev.old_state.proximity
    then s
    else set_old_state s (entering_state s.dev.old_state ds x y)

-- The events of a pad, and of every other tool; touch is silent while a gesture goes on.
unfoldable pub send_by_type : DeviceState → AxisData → Session → Session
send_by_type ds axes s =
    if ds.device_type == pad_id
    then send_pad_events ds axes s
    else if not (ds.device_type == touch_id) || touch_need_send_events s.common
    then send_non_pad_events ds axes s
    else s

unfoldable pub finish : DeviceState → ℤ → ℤ → Session → Session
finish ds x y s =
    if is_set ds.proximity
    then update_old_state ds x y s
    else update_serial 0 (pos 0) (set_old_state s (left_state ds.serial_num ds.device_id))

-- `wcmSendEvents` for a tool whose serial number the device accepts, at the events' coordinates.
unfoldable pub send_at : DeviceState → ℤ → ℤ → Session → Session
send_at ds x y s =
    let axes = state_axes s.dev ds x y in
    finish ds x y (send_by_type ds axes (prepare_old_state ds x y (cancel_panscroll ds s)))

unfoldable pub send_accepted : DeviceState → Session → Session
send_accepted ds s =
    let s1 = update_serial ds.serial_num ds.device_id s in
    send_at ds (event_coordinates ds s1).0 (event_coordinates ds s1).1 s1

-- The serial number is not the one that the device is configured for.
abbrev pub is_refused : DeviceState → Device → Bool
is_refused ds d = not (d.serial == 0) && not (ds.serial_num == d.serial)

-- `wcmSendEvents`
unfoldable pub send_events : DeviceState → Session → Session
send_events ds s = if is_refused ds s.dev then s else send_accepted ds s

-- `wcmGetPhyDeviceID` of src/wcmConfig.c
abbrev pub get_phy_device_id : Device → ℤ
get_phy_device_id d =
    if is_type stylus_id d
    then pos 0x02
    else if is_type eraser_id d
    then pos 0x0a
    else if is_type cursor_id d
    then pos 0x06
    else if is_type touch_id d
    then pos 0x03
    else pos 0x0f

-- `wcmSoftOutEvent`
unfoldable pub soft_out_event : Session → Session
soft_out_event s =
    send_events
      (record outprox_state {
        device_type = s.dev.flags % 256;
        device_id = get_phy_device_id s.dev;
      })
      s
