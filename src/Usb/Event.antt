-- ===== src/Usb/Event.antt =====
-- The events that src/wcmUSB.c reads, `struct input_event`, by the names of their types and codes in
-- linux/input.h. A code without a name in src/wcmUSB.c is `other_key`, `other_abs` or `other_rel`.
use xf86_input_wacom.Prelude.{ℕ}
use xf86_input_wacom.Prelude.Int.{ℤ}

pub data Key : Type 0 where
  btn_tool_pen btn_tool_pencil btn_tool_brush btn_tool_airbrush btn_tool_rubber : Key
  btn_tool_mouse btn_tool_lens btn_touch btn_tool_finger : Key
  btn_tool_doubletap btn_tool_tripletap btn_stylus btn_stylus2 btn_stylus3 : Key
  btn_left btn_middle btn_right btn_side btn_back btn_extra btn_forward : Key
  key_controlpanel key_onscreen_keyboard key_buttonconfig key_info other_key : Key

pub data Abs : Type 0 where
  abs_x abs_y abs_z abs_rx abs_ry abs_rz abs_tilt_x abs_tilt_y abs_pressure abs_distance : Abs
  abs_wheel abs_throttle abs_misc : Abs
  abs_mt_slot abs_mt_tracking_id abs_mt_position_x abs_mt_position_y abs_mt_pressure : Abs
  other_abs : Abs

pub data Rel : Type 0 where
  rel_wheel rel_hwheel rel_wheel_hi_res rel_hwheel_hi_res other_rel : Rel

-- An event with its value. A key has its number too, which the pad's table of keys holds; `mute_switch`
-- is EV_SW with SW_MUTE_DEVICE.
pub data Event : Type 0 where
  key_event : Key → ℕ → ℤ → Event
  abs_event : Abs → ℤ → Event
  rel_event : Rel → ℤ → Event
  mute_switch : ℤ → Event
  other_event : Event
