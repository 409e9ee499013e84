-- ===== src/Gesture.antt =====
-- The gestures of two fingers, src/wcmTouchFilter.c. This file has their modes, the states of the fingers
-- and the taps; the children have scrolling and zooming, the events of single touches, and the filter.
pub mod Scroll
pub mod Multitouch
pub mod Filter
pub mod Keeps
pub mod Clicks
pub mod Ending
mod Tests
pub mod FilterKeeps
use xf86_input_wacom.Prelude.{
  ℕ, suc, ◌<◌, Bool, true, false, not, ◌&&◌, ◌||◌, Option, none, some, List, [], ◌∷◌, set, get_or,
  ltb, leb, ◌==◌, if◌then◌else◌,
}
use xf86_input_wacom.Prelude.Int.{ℤ, pos, is_set}
use xf86_input_wacom.Prelude.Bits.{or_mask, clear_mask}
use xf86_input_wacom.State.{
  DeviceState, zero_state, Channel, Common, GestureParameters, is_type, touch_id, has_feature,
}
use xf86_input_wacom.State.Zero.{zero_channel}
use xf86_input_wacom.Axes.{no_axes}
use xf86_input_wacom.Session.{Session, emit, button, tap_timer, set_old_state}
use xf86_input_wacom.Session.Mode.{is_absolute}
use xf86_input_wacom.Usb.Channels.{first_channel}
use xf86_input_wacom.Dispatch.Tools.{elapsed}

-- GESTURE_NONE_MODE to GESTURE_MULTITOUCH_MODE
abbrev pub none_mode : ℕ
none_mode = 0

abbrev pub tap_mode : ℕ
tap_mode = 1

abbrev pub scroll_mode : ℕ
scroll_mode = 2

abbrev pub zoom_mode : ℕ
zoom_mode = 4

abbrev pub lag_mode : ℕ
lag_mode = 8

abbrev pub predrag_mode : ℕ
predrag_mode = 16

abbrev pub drag_mode : ℕ
drag_mode = 32

abbrev pub cancel_mode : ℕ
cancel_mode = 64

abbrev pub multitouch_mode : ℕ
multitouch_mode = 128

-- WCM_LCD
abbrev pub lcd : ℕ
lcd = 0x100

abbrev pub set_mode : ℕ → Session → Session
set_mode m s = record s { common = record (s.common) { gesture_mode = m } }

abbrev pub set_parameters : GestureParameters → Session → Session
set_parameters p s = record s { common = record (s.common) { gesture_parameters = p } }

-- `wcmGestureState[i] = ds`
abbrev pub set_gesture_state : ℕ → DeviceState → Session → Session
set_gesture_state i ds s = record s {
  common = record (s.common) { gesture_state = set s.common.gesture_state i ds };
}

-- The last state of a channel, and the `age`th before it.
abbrev pub state_of : Channel → ℕ → DeviceState
state_of ch age = get_or ch.states age zero_state

-- `getContactNumber`
abbrev pub is_contact : ℕ → Channel → Bool
is_contact n ch = ((state_of ch 0).device_type == touch_id) && ((state_of ch 0).serial_num == suc n)

unfoldable pub get_contact_number : Common → ℕ → Option ℕ
get_contact_number c n = first_channel (λ (_ : ℕ) (ch : Channel). is_contact n ch) 0 c.channels

-- One entry of `getStateHistory`: without a channel it stays zero.
unfoldable pub history_at : Common → Option ℕ → ℕ → DeviceState
history_at c none age = zero_state
history_at c (some k) age = state_of (get_or c.channels k zero_channel) age

abbrev pub history : Common → ℕ → ℕ → DeviceState
history c n age = history_at c (get_contact_number c n) age

-- The states of the first two fingers now (`ds`) and before (`dsLast`).
pub record Fingers : Type 0 where
  pub ds0 : DeviceState
  pub ds1 : DeviceState
  pub last0 : DeviceState
  pub last1 : DeviceState

-- `getStateHistory` for both fingers and ages.
unfoldable pub get_state_history : Common → Fingers
get_state_history c = record {
  ds0 = history c 0 0;
  ds1 = history c 1 0;
  last0 = history c 0 1;
  last1 = history c 1 1;
}

abbrev pub is_in : DeviceState → Bool
is_in ds = is_set ds.proximity

-- `wcmSendButtonClick`
unfoldable pub send_button_click : ℕ → Bool → Session → Session
send_button_click b press s =
    let s1 = emit s (button (is_absolute s.dev) b press no_axes) in
    if b == 1 then set_old_state s1 (record (s1.dev.old_state) { buttons = 0 }) else s1

-- The second finger was tapped.
abbrev pub is_second_tap : ℕ → Fingers → ℕ → Bool
is_second_tap now f tap_time =
    ltb f.ds0.sample f.ds1.sample
    && (leb (elapsed now f.last1.sample) tap_time && (not (is_in f.ds1) && is_in f.last1))

-- `wcmFingerTapToClick`
unfoldable pub finger_tap_to_click : ℕ → Session → Session
finger_tap_to_click now s =
    if s.common.gesture
      && is_second_tap now (get_state_history s.common) s.common.gesture_parameters.tap_time
    then send_button_click 3 false
        (send_button_click 3 true (set_mode tap_mode (send_button_click 1 false s)))
    else s

-- `wcmSingleFingerTapTimer`
unfoldable pub single_finger_tap_timer : Session → Session
single_finger_tap_timer s =
    if s.common.gesture_mode == predrag_mode
    then set_mode none_mode (send_button_click 1 false (send_button_click 1 true s))
    else s

-- The first finger was tapped, and the second was up before.
abbrev pub is_first_tap : Fingers → ℕ → Bool
is_first_tap f tap_time =
    (not (is_in f.ds0) && (is_in f.last0 && not (is_in f.ds1)))
    && (leb (elapsed f.ds0.sample f.last0.sample) tap_time && ltb f.ds1.sample f.last0.sample)

-- `wcmSingleFingerTap`
unfoldable pub single_finger_tap : Session → Session
single_finger_tap s =
    if has_feature s.common lcd
    then s
    else if is_first_tap (get_state_history s.common) s.common.gesture_parameters.tap_time
    then emit (set_mode predrag_mode s) (tap_timer s.common.gesture_parameters.tap_time)
    else s

-- The last state of a channel, with other buttons.
abbrev pub put_buttons : (ℕ → ℕ) → Channel → Channel
put_buttons f ch = record ch {
  states = set ch.states 0 (record (state_of ch 0) { buttons = f (state_of ch 0).buttons });
}

abbrev pub update_session_channel : ℕ → (Channel → Channel) → Session → Session
update_session_channel k f s = record s {
  common = record (s.common) {
    channels = set s.common.channels k (f (get_or s.common.channels k zero_channel));
  };
}

unfoldable pub press_first : Option ℕ → Bool → Session → Session
press_first none down s = s
press_first (some k) down s =
    if down
    then set_mode drag_mode (update_session_channel k (put_buttons (λ (b : ℕ). or_mask b 1)) s)
    else set_mode none_mode (update_session_channel k (put_buttons (λ (b : ℕ). clear_mask b 1)) s)

-- `wcmSingleFingerPress`
unfoldable pub single_finger_press : Session → Session
single_finger_press s =
    if has_feature s.common lcd
    then press_first (get_contact_number s.common 0)
        (is_in (history s.common 0 0) && not (is_in (history s.common 1 0))) s
    else s

-- `wcmCancelGesture`
unfoldable pub cancel_gesture : Session → Session
cancel_gesture s =
    if is_type touch_id s.dev
    then set_mode cancel_mode
        (if s.common.gesture_mode == drag_mode then send_button_click 1 false s else s)
    else s
