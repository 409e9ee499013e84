-- ===== src/Gesture/Multitouch.antt =====
-- The events of single touches: `wcmSendTouchEvent` and `wcmFingerMultitouch` of src/wcmTouchFilter.c.
use xf86_input_wacom.Prelude.{
  ℕ, ◌+◌, ◌-◌, ◌%◌, ◌^◌, Bool, false, not, ◌&&◌, ◌||◌, List, [], ◌∷◌, ◌==◌, if◌then◌else◌,
}
use xf86_input_wacom.State.{DeviceState, Channel, touch_id}
use xf86_input_wacom.Scale.{rotate_and_scale}
use xf86_input_wacom.Session.{
  Session, emit, touch_event, TouchType, touch_begin, touch_update, touch_end,
}
use xf86_input_wacom.Gesture.{lag_mode, none_mode, multitouch_mode, set_mode, state_of, is_in}

-- The kind of event for a touch, by its last state and the one before.
abbrev pub touch_type : DeviceState → DeviceState → Bool → TouchType
touch_type state old no_update =
    if not (is_in state)
    then touch_end
    else if not (is_in old) || no_update
    then touch_begin
    else touch_update

-- `wcmSendTouchEvent`
unfoldable pub send_touch_event : Channel → Bool → Session → Session
send_touch_event ch no_update s =
    let state = state_of ch 0 in
    let (x, y) = rotate_and_scale s.common.rotate s.dev state.x state.y in
    emit s (
      touch_event (touch_type state (state_of ch 1) no_update)
        ((state.serial_num + 2 ^ 32 - 1) % 2 ^ 32) x y)

-- A channel with a touch, and whether its event is to be sent.
abbrev pub is_touch : Channel → Bool
is_touch ch = (state_of ch 0).device_type == touch_id

abbrev pub is_sent : Bool → ℕ → Channel → Bool
is_sent lagging contact ch =
    is_touch ch && (lagging || ((state_of ch 0).serial_num == (contact + 1) % 2 ^ 32))

-- The loop over the channels.
unfoldable pub send_touches : Bool → ℕ → List Channel → Session → Session
send_touches lagging contact [] s = s
send_touches lagging contact (ch ∷ chs) s =
    send_touches lagging contact chs
      (if is_sent lagging contact ch then send_touch_event ch lagging s else s)

-- Some touch is down.
unfoldable pub any_touch : List Channel → Bool
any_touch [] = false
any_touch (ch ∷ chs) = (is_touch ch && is_in (state_of ch 0)) || any_touch chs

-- `wcmFingerMultitouch`
unfoldable pub finger_multitouch : ℕ → Session → Session
finger_multitouch contact s =
    let lagging = s.common.gesture_mode == lag_mode in
    let sent = send_touches lagging contact s.common.channels s in
    if not (any_touch s.common.channels)
    then set_mode none_mode sent
    else if lagging
    then set_mode multitouch_mode sent
    else sent
