-- ===== src/Gesture/Tests.antt =====
-- Two fingers on a touchpad that scrolls.
use xf86_input_wacom.Prelude.{ℕ, ◌≡◌, refl, arith, true, [], ◌∷◌, replicate}
use xf86_input_wacom.Prelude.Int.{pos}
use xf86_input_wacom.State.{zero_state, Channel, touch_id}
use xf86_input_wacom.State.Zero.{zero_channel, zero_device, zero_common}
use xf86_input_wacom.Session.{Session, emit}
use xf86_input_wacom.Session.Scroll.Notches.{presses}
use xf86_input_wacom.Gesture.{get_state_history, history_at, get_contact_number, send_button_click}
use xf86_input_wacom.Gesture.Scroll.{Floats, send_scroll_event, click_button}
use xf86_input_wacom.Gesture.Filter.{both_out, gesture_filter}
use xf86_input_wacom.Gesture.Ending.{IsOver, gesture_filter_ends}

abbrev floats : Floats
floats = record {
  spread = λ a b c d. pos 0;
  distance = λ a b. pos 0;
  distance_over = λ a b d. pos 0;
  same_direction = λ a b c d. true;
}

-- A finger that was just lifted.
abbrev lifted : ℕ → Channel
lifted n =
    let down = record zero_state { device_type = touch_id; serial_num = n; proximity = pos 1 } in
    record zero_channel { states = record down { proximity = pos 0 } ∷ replicate 19 down }

abbrev scrolling : Session
scrolling = record {
  dev = record zero_device { flags = touch_id };
  common = record zero_common {
    channels = lifted 1 ∷ lifted 2 ∷ replicate 16 zero_channel;
    gesture = true;
    gesture_mode = 2;
    gesture_parameters = record (zero_common.gesture_parameters) {
      scroll_distance = 20;
      gesture_used = 1;
    };
  };
  calls = [];
}

fingers_up : both_out (get_state_history scrolling.common) ≡ true
unfolding get_state_history history_at get_contact_number
fingers_up = refl

gesture_filter_ends_example : IsOver (gesture_filter floats 100 0 scrolling).common.gesture_mode
gesture_filter_ends_example =
    gesture_filter_ends floats 100 0 scrolling refl refl (omega arith) fingers_up

-- 70 units are three clicks, and one was sent before.
two_more : presses 5 (send_scroll_event (pos 70) 5 4 scrolling).calls ≡ 2
unfolding send_scroll_event click_button send_button_click emit
two_more = refl
