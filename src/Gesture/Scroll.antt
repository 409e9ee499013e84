-- ===== src/Gesture/Scroll.antt =====
-- Scrolling and zooming with two fingers: `pointsInLine`, `wcmSendScrollEvent`, `wcmFingerScroll` and
-- `wcmFingerZoom` of src/wcmTouchFilter.c.
use xf86_input_wacom.Prelude.{
  ℕ, zero, suc, ◌-◌, ◌/◌, Bool, true, false, not, ◌&&◌, get_or, ltb, ◌==◌, if◌then◌else◌,
}
use xf86_input_wacom.Prelude.Int.{ℤ, pos, abs, ◌+ℤ◌, ◌-ℤ◌, tdiv, ltb_ℤ}
use xf86_input_wacom.State.{DeviceState, zero_state, Common, Rotation, cw, ccw, upright, half}
use xf86_input_wacom.Scale.{rotate_and_scale}
use xf86_input_wacom.Session.{Session, emit, keycode}
use xf86_input_wacom.Gesture.{
  scroll_mode, zoom_mode, set_mode, set_parameters, set_gesture_state, history, is_in,
  send_button_click,
}

-- C's floating point on the states of two fingers: the change of their distance, `(int) fabs(...)`; their
-- distance, as an `int`; their distance less an `int`; and `vectorsSameDirection`.
pub record Floats : Type 0 where
  pub spread : DeviceState → DeviceState → DeviceState → DeviceState → ℤ
  pub distance : DeviceState → DeviceState → ℤ
  pub distance_over : DeviceState → DeviceState → ℤ → ℤ
  pub same_direction : DeviceState → DeviceState → DeviceState → DeviceState → Bool

-- WACOM_HORIZ_ALLOWED and WACOM_VERT_ALLOWED
abbrev pub horiz_allowed : ℕ
horiz_allowed = 1

abbrev pub vert_allowed : ℕ
vert_allowed = 2

abbrev pub is_turned : Rotation → Bool
is_turned upright = false
is_turned cw = true
is_turned ccw = true
is_turned half = false

-- `horizon_rotated` and `vertical_rotated`
abbrev pub horizon_rotated : Common → ℕ
horizon_rotated c = if is_turned c.rotate then horiz_allowed else vert_allowed

abbrev pub vertical_rotated : Common → ℕ
vertical_rotated c = if is_turned c.rotate then vert_allowed else horiz_allowed

abbrev pub set_direction : ℕ → Session → Session
set_direction d s = set_parameters (record (s.common.gesture_parameters) { scroll_direction = d }) s

abbrev pub set_used : ℕ → Session → Session
set_used n s = set_parameters (record (s.common.gesture_parameters) { gesture_used = n }) s

-- Without a direction, a finger that moved far in one axis only gives it.
unfoldable pub find_direction : ℕ → ℕ → ℕ → Session → Session × Bool
find_direction threshold dx dy s =
    if ltb dx threshold && ltb threshold dy
    then (set_direction (horizon_rotated s.common) s, true)
    else if ltb dy threshold && ltb threshold dx
    then (set_direction (vertical_rotated s.common) s, true)
    else (s, false)

-- `pointsInLine`
unfoldable pub points_in_line : DeviceState → DeviceState → Session → Session × Bool
points_in_line ds0 ds1 s =
    let threshold = s.common.gesture_parameters.scroll_distance in
    let direction = s.common.gesture_parameters.scroll_direction in
    let dx = abs (ds0.x -ℤ ds1.x) in
    let dy = abs (ds0.y -ℤ ds1.y) in
    if direction == 0
    then find_direction threshold dx dy s
    else if direction == vertical_rotated s.common
    then (s, ltb dy threshold)
    else if direction == horizon_rotated s.common
    then (s, ltb dx threshold)
    else (s, false)

-- The start of the gesture is here, and nothing of it is used.
unfoldable pub restart : Session → Session
restart s =
    let ds0 = history s.common 0 0 in
    let ds1 = history s.common 1 0 in
    set_used 0 (set_gesture_state 1 ds1 (set_gesture_state 0 ds0 s))

-- `count` clicks of a button.
unfoldable pub click_button : ℕ → ℕ → Session → Session
click_button zero b s = s
click_button (suc count) b s =
    click_button count b (send_button_click b false (send_button_click b true s))

-- `wcmSendScrollEvent`. The division of two `int`s as `double`s is exact when it is cut to an integer.
unfoldable pub send_scroll_event : ℤ → ℕ → ℕ → Session → Session
send_scroll_event dist up down s =
    let b = if ltb_ℤ (pos 0) dist then up else down in
    let count = abs dist / s.common.gesture_parameters.scroll_distance in
    let used = s.common.gesture_parameters.gesture_used in
    if ltb count used then restart s else click_button (count - used) b (set_used count s)

-- The point between two fingers, or the one finger that is down.
abbrev pub mid_point : Bool → Bool → ℤ → ℤ → ℤ
mid_point in0 in1 a b = if not in1 then a else if not in0 then b else tdiv (a +ℤ b) (pos 2)

abbrev pub gesture_start : Common → ℕ → DeviceState
gesture_start c i = get_or c.gesture_state i zero_state

abbrev pub turned : Session → DeviceState → ℤ × ℤ
turned s ds = rotate_and_scale s.common.rotate s.dev ds.x ds.y

-- The scroll events of one axis; `axis` takes it from a point.
unfoldable pub scroll_axis : (ℤ × ℤ → ℤ) → ℕ → ℕ → Session → Session
scroll_axis axis up down s =
    let ds0 = history s.common 0 0 in
    let ds1 = history s.common 1 0 in
    let old =
      mid_point (is_in ds0) (is_in ds1) (axis (turned s (gesture_start s.common 0)))
        (axis (turned s (gesture_start s.common 1))) in
    let new = mid_point (is_in ds0) (is_in ds1) (axis (turned s ds0)) (axis (turned s ds1)) in
    send_scroll_event (old -ℤ new) up down s

-- The second half of `wcmFingerScroll`, in scroll mode.
unfoldable pub scroll_on : Session → Session
scroll_on s =
    let direction = s.common.gesture_parameters.scroll_direction in
    if direction == vert_allowed
    then scroll_axis (λ p. p.1) 5 4 s
    else if direction == horiz_allowed
    then scroll_axis (λ p. p.0) 7 6 s
    else s

-- The chain of conditions that starts scrolling; a later one is tried only after those before it.
unfoldable pub in_line_step : DeviceState → DeviceState → Session × Bool → Session × Bool
in_line_step ds start (s, false) = (s, false)
in_line_step ds start (s, true) = points_in_line ds start s

unfoldable pub scroll_starts : Floats → Session → Session × Bool
scroll_starts fl s =
    let ds0 = history s.common 0 0 in
    let ds1 = history s.common 1 0 in
    let start0 = gesture_start s.common 0 in
    let start1 = gesture_start s.common 1 in
    let (s1, in_line) = in_line_step ds1 start1 (in_line_step ds0 start0 (s, true)) in
    (
      s1,
      in_line
          && (not (s1.common.gesture_parameters.scroll_direction == 0)
              && fl.same_direction ds0 start0 ds1 start1),
    )

-- The change of the fingers' distance since the gesture started.
abbrev pub spread_of : Floats → Common → ℤ
spread_of fl c = fl.spread (history c 0 0) (history c 1 0) (gesture_start c 0) (gesture_start c 1)

unfoldable pub enter_scroll : Session × Bool → Session
enter_scroll (s, true) = set_mode scroll_mode (send_button_click 1 false s)
enter_scroll (s, false) = s

-- `wcmFingerScroll`
unfoldable pub finger_scroll : Floats → Session → Session
finger_scroll fl s =
    if not s.common.gesture
    then s
    else let s1 =
        if not (s.common.gesture_mode == scroll_mode)
          && ltb_ℤ (spread_of fl s.common) (pos s.common.gesture_parameters.zoom_distance)
        then enter_scroll (scroll_starts fl s)
        else s in
      if s1.common.gesture_mode == scroll_mode then scroll_on s1 else s1

-- `count` zooms: the control key around a click.
unfoldable pub zoom_clicks : ℕ → ℕ → Session → Session
zoom_clicks zero b s = s
zoom_clicks (suc count) b s = zoom_clicks count b (
    emit (send_button_click b false (send_button_click b true (emit s (keycode 37 true))))
      (keycode 37 false))

-- The second half of `wcmFingerZoom`, in zoom mode; `dist` is the distance over the one at the start.
unfoldable pub zoom_by : ℤ → Session → Session
zoom_by dist s =
    let count = abs dist / s.common.gesture_parameters.zoom_distance in
    let used = s.common.gesture_parameters.gesture_used in
    if ltb count used
    then restart s
    else zoom_clicks (count - used) (if ltb_ℤ (pos 0) dist then 4 else 5) (set_used count s)

-- `wcmFingerZoom`
unfoldable pub finger_zoom : Floats → Session → Session
finger_zoom fl s =
    let start = fl.distance (gesture_start s.common 0) (gesture_start s.common 1) in
    if not s.common.gesture
    then s
    else let s1 =
        if not (s.common.gesture_mode == zoom_mode)
          && ltb_ℤ (pos s.common.gesture_parameters.zoom_distance) (spread_of fl s.common)
        then set_mode zoom_mode (send_button_click 1 false s)
        else s in
      if s1.common.gesture_mode == zoom_mode
      then zoom_by (fl.distance_over (history s.common 0 0) (history s.common 1 0) start) s1
      else s1
