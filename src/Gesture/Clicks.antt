-- ===== src/Gesture/Clicks.antt =====
-- The clicks of a scroll gesture: `wcmSendScrollEvent` of src/wcmTouchFilter.c.
use xf86_input_wacom.Prelude.{ℕ, ◌/◌, if◌then◌else◌}
use xf86_input_wacom.Prelude.Int.{ℤ, pos, abs, ltb_ℤ}
use xf86_input_wacom.Session.{Session}

abbrev used : Session → ℕ
used s = s.common.gesture_parameters.gesture_used

-- The button of a distance, and the clicks that it stands for.
abbrev pub scroll_button : ℤ → ℕ → ℕ → ℕ
scroll_button dist up down = if ltb_ℤ (pos 0) dist then up else down

abbrev pub scroll_count : ℤ → Session → ℕ
scroll_count dist s = abs dist / s.common.gesture_parameters.scroll_distance
