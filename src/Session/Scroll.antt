-- ===== src/Session/Scroll.antt =====
-- Scrolling: `wcmButtonPerNotch`, `wcmPanscroll`, `getScrollDelta`, `getWheelButton` and
-- `sendWheelStripEvents` of src/wcmCommon.c.
pub mod Notches
pub mod Delta
mod Tests
use xf86_input_wacom.Prelude.{
  ℕ, zero, suc, ◌+◌, ◌*◌, ◌/◌, ◌%◌, Bool, true, false, not, ◌&&◌, ◌||◌, Option, none, some, List,
  ltb, get_or, if◌then◌else◌,
}
use xf86_input_wacom.Prelude.Int.{
  ℤ, pos, pos_part, abs, neg, ◌+ℤ◌, ◌-ℤ◌, ◌*ℤ◌, tdiv, tmod, ltb_ℤ, is_set, ◌==ℤ◌,
}
use xf86_input_wacom.Prelude.Bits.{has_mask}
use xf86_input_wacom.State.{DeviceState, Device, Action, is_type, pad_id, cursor_id}
use xf86_input_wacom.Axes.{AxisData, no_axes, axis_set, axis_scroll_x, axis_scroll_y}
use xf86_input_wacom.Session.{Session, emit, button, motion, set_panscroll_state}
use xf86_input_wacom.Session.Mode.{is_absolute, no_action}
use xf86_input_wacom.Session.Action.{send_action, in_scrollmode, panscroll_start}

-- A press and a release of button `b`, `n` times.
unfoldable pub clicks : ℕ → Bool → ℕ → Session → Session
clicks zero mode b s = s
clicks (suc n) mode b s =
    clicks n mode b (emit (emit s (button mode b true no_axes)) (button mode b false no_axes))

-- `wcmButtonPerNotch`: the session, and the part of the value that is short of a notch.
unfoldable pub button_per_notch : ℤ → ℤ → ℕ → ℕ → Session → Session × ℤ
button_per_notch value threshold btn_positive btn_negative s =
    let notches = tdiv value threshold in
    let b = if ltb_ℤ (pos 0) notches then btn_positive else btn_negative in
    (clicks (abs notches) (is_absolute s.dev) b s, tmod value threshold)

abbrev scroll_increment : ℤ → ℤ → ℤ
scroll_increment delta threshold = tdiv (neg delta *ℤ pos 0xffff) threshold

-- The scroll of a tip that moved by (delta_x, delta_y).
unfoldable pub panscroll_by : ℤ → ℤ → Session → Session
panscroll_by delta_x delta_y s =
    let threshold = s.common.panscroll_threshold in
    if s.common.panscroll_is_smooth
    then (let axes = axis_set no_axes axis_scroll_x (scroll_increment delta_x threshold) in
        emit s (motion false (axis_set axes axis_scroll_y (scroll_increment delta_y threshold))))
    else let accumulated_x = s.dev.panscroll_state.x +ℤ delta_x in
      let accumulated_y = s.dev.panscroll_state.y +ℤ delta_y in
      let (s1, remainder_x) = button_per_notch accumulated_x threshold 6 7 s in
      let (s2, remainder_y) = button_per_notch accumulated_y threshold 4 5 s1 in
      set_panscroll_state s2 (record (s2.dev.panscroll_state) { x = remainder_x; y = remainder_y })

abbrev pub tip_down : DeviceState → Bool
tip_down ds = has_mask ds.buttons 1

-- `wcmPanscroll`
unfoldable pub panscroll : DeviceState → ℤ → ℤ → Session → Session
panscroll ds x y s =
    if not (in_scrollmode s.dev) || not (tip_down ds)
    then set_panscroll_state s (panscroll_start ds)
    else if not (tip_down s.dev.old_state)
    then s
    else if not (is_absolute s.dev)
    then panscroll_by x y s
    else panscroll_by (x -ℤ s.dev.old_state.x) (y -ℤ s.dev.old_state.y) s

-- `(int)log2(n)` of a positive number, by halving; 32 halvings bring an `unsigned int` to 0.
abbrev pub halvings : ℕ → ℕ → ℕ
halvings zero n = 0
halvings (suc fuel) n = let rest = halvings fuel (n / 2) in if ltb n 2 then 0 else suc rest

abbrev pub log2 : ℕ → ℕ
log2 n = halvings 32 n

-- `log2((v << 1) | 0x01)`; for a negative `v`, where C's result is undefined, this is 0.
abbrev pub bit_position : ℤ → ℤ
bit_position v = pos (log2 (2 * pos_part v + 1))

abbrev pub invert_if : Bool → ℤ → ℤ
invert_if true delta = neg delta
invert_if false delta = delta

-- The shorter way round an axis that wraps after `wrap`.
abbrev pub wrap_delta : ℤ → ℤ → ℤ
wrap_delta wrap delta =
    if ltb_ℤ delta (pos 0) then wrap +ℤ pos 1 +ℤ delta else neg (wrap +ℤ pos 1 -ℤ delta)

abbrev pub unwrap : ℤ → ℤ → ℤ
unwrap wrap delta =
    if is_set wrap && ltb (abs (wrap_delta wrap delta)) (abs delta)
    then wrap_delta wrap delta
    else delta

-- `getScrollDelta`; the flags AXIS_INVERT and AXIS_BITWISE are the last two arguments.
unfoldable pub get_scroll_delta : ℤ → ℤ → ℤ → Bool → Bool → ℤ
get_scroll_delta current old wrap invert bitwise =
    if bitwise
    then unwrap (bit_position wrap) (invert_if invert (bit_position current -ℤ bit_position old))
    else unwrap wrap (invert_if invert (current -ℤ old))

-- `getWheelButton`; `none` is -1.
abbrev pub get_wheel_button : ℤ → ℕ → ℕ → Option ℕ
get_wheel_button delta action_positive action_negative =
    if ltb_ℤ (pos 0) delta
    then some action_positive
    else if ltb_ℤ delta (pos 0)
    then some action_negative
    else none

-- `sendWheelStripEvent`
unfoldable pub send_wheel_strip_event : Action → DeviceState → AxisData → Session → Session
send_wheel_strip_event act ds axes s =
    send_action ds false act axes (send_action ds true act axes s)

-- One of the six parts of `sendWheelStripEvents`, for an action found and a device that has the axis.
abbrev pub scroll_part :
    Option ℕ → Bool → (Device → List Action) → DeviceState → AxisData → Session → Session
scroll_part none has_axis actions ds axes s = s
scroll_part (some idx) has_axis actions ds axes s =
    if has_axis && (s.dev.old_state.proximity ==ℤ ds.proximity)
    then send_wheel_strip_event (get_or (actions s.dev) idx no_action) ds axes s
    else s

-- `sendWheelStripEvents`: both strips, both relative wheels, both rings.
unfoldable pub send_wheel_strip_events : DeviceState → AxisData → Session → Session
send_wheel_strip_events ds axes s0 =
    let pad = is_type pad_id s0.dev in
    let wheeled = is_type cursor_id s0.dev || pad in
    let strip = λ (current old : ℤ). get_scroll_delta current old (pos 0) true true in
    let rel = λ (current : ℤ). get_scroll_delta current (pos 0) (pos 0) false false in
    let ring = λ (current old : ℤ). get_scroll_delta current old s0.common.max_ring true false in
    let strips = λ (d : Device). d.strip_actions in
    let wheels = λ (d : Device). d.wheel_actions in
    let d1 = strip ds.stripx s0.dev.old_state.stripx in
    let s1 = scroll_part (get_wheel_button d1 0 1) pad strips ds axes s0 in
    let d2 = strip ds.stripy s1.dev.old_state.stripy in
    let s2 = scroll_part (get_wheel_button d2 2 3) pad strips ds axes s1 in
    let s3 = scroll_part (get_wheel_button (rel ds.relwheel) 0 1) wheeled wheels ds axes s2 in
    let s4 = scroll_part (get_wheel_button (rel ds.relwheel2) 6 7) wheeled wheels ds axes s3 in
    let d5 = ring ds.abswheel s4.dev.old_state.abswheel in
    let s5 = scroll_part (get_wheel_button d5 2 3) pad wheels ds axes s4 in
    let d6 = ring ds.abswheel2 s5.dev.old_state.abswheel2 in
    scroll_part (get_wheel_button d6 4 5) pad wheels ds axes s5
