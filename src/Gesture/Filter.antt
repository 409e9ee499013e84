-- ===== src/Gesture/Filter.antt =====
-- The state machine of the gestures: `wcmGestureFilter` of src/wcmTouchFilter.c.
use xf86_input_wacom.Prelude.{ℕ, Bool, true, false, not, ◌&&◌, ◌||◌, ltb, ◌==◌, if◌then◌else◌}
use xf86_input_wacom.Prelude.Bits.{has_mask}
use xf86_input_wacom.State.{is_type, touch_id, has_feature}
use xf86_input_wacom.Session.{Session}
use xf86_input_wacom.Session.Events.{soft_out_event}
use xf86_input_wacom.Dispatch.Tools.{elapsed}
use xf86_input_wacom.Gesture.{
  none_mode, tap_mode, scroll_mode, zoom_mode, lag_mode, predrag_mode, drag_mode, cancel_mode,
  multitouch_mode, lcd, set_mode, set_gesture_state, Fingers, get_state_history, is_in,
  send_button_click, finger_tap_to_click, single_finger_tap, single_finger_press, cancel_gesture,
}
use xf86_input_wacom.Gesture.Scroll.{Floats, set_direction, set_used, finger_scroll, finger_zoom}
use xf86_input_wacom.Gesture.Multitouch.{finger_multitouch}

-- WACOM_GESTURE_LAG_TIME
abbrev pub gesture_lag_time : ℕ
gesture_lag_time = 10

abbrev pub is_two_finger : ℕ → Bool
is_two_finger mode = has_mask mode scroll_mode || has_mask mode zoom_mode

abbrev pub both_in : Fingers → Bool
both_in f = is_in f.ds0 && is_in f.ds1

abbrev pub both_out : Fingers → Bool
both_out f = not (is_in f.ds0) && not (is_in f.ds1)

-- The events of single touches, which are sent when gestures are off.
unfoldable pub multitouch_from_none : ℕ → Fingers → Session → Session
multitouch_from_none contact f s =
    if has_feature s.common lcd
    then finger_multitouch contact (set_mode multitouch_mode s)
    else if is_in f.ds1
    then finger_multitouch contact (set_mode lag_mode s)
    else s

unfoldable pub multitouch_step : ℕ → Fingers → Session → Session
multitouch_step contact f s =
    let mode = s.common.gesture_mode in
    if s.common.gesture
    then s
    else if mode == cancel_mode
    then s
    else if mode == none_mode
    then multitouch_from_none contact f s
    else if (mode == lag_mode) || (mode == multitouch_mode)
    then finger_multitouch contact s
    else cancel_gesture s

-- The mode that one finger gets: it lags for a short time after it came.
unfoldable pub one_finger_mode : ℕ → Fingers → ℕ → ℕ
one_finger_mode now f mode =
    if ltb (elapsed now f.ds0.sample) gesture_lag_time
    then (if mode == none_mode then lag_mode else mode)
    else none_mode

-- The mode by the number of fingers.
unfoldable pub next_mode : ℕ → Fingers → ℕ → ℕ
next_mode now f mode =
    if both_in f
    then (if mode == none_mode then lag_mode else mode)
    else if is_two_finger mode
    then cancel_mode
    else if is_in f.last0 && not (mode == drag_mode)
    then one_finger_mode now f mode
    else mode

-- A finger that came is the start of the gesture.
unfoldable pub note_second : Fingers → Session → Session
note_second f s =
    if is_in f.ds1 && not (is_in f.last1) then set_used 0 (set_gesture_state 1 f.ds1 s) else s

unfoldable pub note_first : Fingers → Session → Session
note_first f s =
    if is_in f.ds0 && not (is_in f.last0) then set_used 0 (set_gesture_state 0 f.ds0 s) else s

-- The label `ret`: taps and presses of the first finger.
unfoldable pub finish_filter : ℕ → Session → Session
finish_filter contact s =
    let mode = s.common.gesture_mode in
    if ((mode == none_mode) || (mode == drag_mode)) && (contact == 0)
    then single_finger_press (single_finger_tap s)
    else s

-- All fingers are up.
unfoldable pub end_gesture : Fingers → Session → Session
end_gesture f s =
    let s1 =
      if not (is_in f.last0) && not (s.common.gesture_mode == none_mode)
      then soft_out_event s
      else s in
    let s2 = if s1.common.gesture_mode == drag_mode then send_button_click 1 false s1 else s1 in
    set_direction 0 (set_mode none_mode s2)

-- Scrolling and zooming, once no tap ended the gesture.
unfoldable pub two_finger_step : Floats → Fingers → Session → Session
two_finger_step fl f s =
    let mode = s.common.gesture_mode in
    if has_mask mode tap_mode
    then s
    else if has_mask mode zoom_mode
    then finger_zoom fl s
    else if has_mask mode scroll_mode
    then finger_scroll fl s
    else if both_in f && (is_in f.last0 && is_in f.last1)
    then (let s1 = finger_scroll fl s in
        if has_mask s1.common.gesture_mode scroll_mode then s1 else finger_zoom fl s1)
    else s

-- A second finger may tap.
unfoldable pub tap_step : ℕ → ℕ → Session → Session
tap_step now contact s =
    if not (is_two_finger s.common.gesture_mode) && (contact == 1)
    then finger_tap_to_click now s
    else s

-- From the end of the mode's update on; the first finger comes, and starts a drag if it was tapped before.
unfoldable pub gesture_step : Floats → ℕ → ℕ → Fingers → Session → Session
gesture_step fl now contact f s =
    let comes = is_in f.ds0 && not (is_in f.last0) in
    let mode = s.common.gesture_mode in
    if comes && ((mode == none_mode) && (contact == 0))
    then s
    else if comes && (mode == predrag_mode)
    then set_mode drag_mode (send_button_click 1 true s)
    else if both_out f
    then end_gesture f s
    else two_finger_step fl f (tap_step now contact s)

-- The rest of the filter, for a mode that is not MULTITOUCH and no longer CANCEL.
unfoldable pub filter_from : Floats → ℕ → ℕ → Fingers → Session → Session
filter_from fl now contact f s =
    let moded = set_mode (next_mode now f s.common.gesture_mode) s in
    finish_filter contact (gesture_step fl now contact f (note_first f (note_second f moded)))

unfoldable pub filter_touches : Floats → ℕ → ℕ → Fingers → Session → Session
filter_touches fl now contact f s =
    let mode = s.common.gesture_mode in
    if mode == multitouch_mode
    then s
    else if (mode == cancel_mode) && not (both_out f)
    then s
    else if mode == cancel_mode
    then filter_from fl now contact f (set_mode none_mode s)
    else filter_from fl now contact f s

-- `wcmGestureFilter`; `contact` is the number of the finger whose state came.
unfoldable pub gesture_filter : Floats → ℕ → ℕ → Session → Session
gesture_filter fl now contact s =
    let f = get_state_history s.common in
    if is_type touch_id s.dev
    then filter_touches fl now contact f (multitouch_step contact f s)
    else s
