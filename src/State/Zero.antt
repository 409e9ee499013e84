-- ===== src/State/Zero.antt =====
-- The records as `calloc` leaves them: every field zero. A device, a tablet and a channel that the
-- tests fill in.
use xf86_input_wacom.Prelude.{false, none, [], replicate}
use xf86_input_wacom.Prelude.Int.{pos}
use xf86_input_wacom.State.{
  ToolSize, zero_state, Device, FilterState, Channel, generic, upright, Common,
}

abbrev pub zero_filter : FilterState
zero_filter = record {
  npoints = 0;
  xs = replicate 20 (pos 0);
  ys = replicate 20 (pos 0);
  tiltxs = replicate 20 (pos 0);
  tiltys = replicate 20 (pos 0);
}

abbrev pub zero_channel : Channel
zero_channel = record {
  work = zero_state;
  dirty = false;
  states = replicate 20 zero_state;
  nsamples = 0;
  raw_filter = zero_filter;
}

abbrev pub zero_size : ToolSize
zero_size = record {
  min_x = pos 0;
  min_y = pos 0;
  max_x = pos 0;
  max_y = pos 0;
  resol_x = pos 0;
  resol_y = pos 0;
}

abbrev pub zero_device : Device
zero_device = record {
  flags = 0;
  top_x = pos 0;
  top_y = pos 0;
  bottom_x = pos 0;
  bottom_y = pos 0;
  valuator_min_x = pos 0;
  valuator_max_x = pos 0;
  valuator_min_y = pos 0;
  valuator_max_y = pos 0;
  serial = 0;
  cur_serial = 0;
  cur_device_id = pos 0;
  button_default = [];
  strip_default = [];
  wheel_default = [];
  key_actions = [];
  strip_actions = [];
  wheel_actions = [];
  panscroll_state = zero_state;
  old_state = zero_state;
  old_cursor_hw_prox = pos 0;
  max_curve = pos 0;
  press_curve = none;
  press_ctrl = [];
  min_pressure = pos 0;
  old_min_pressure = pos 0;
  surface_dist = pos 0;
  proxout_dist = pos 0;
  event_cnt = 0;
  max_raw_pressure = pos 0;
  size = zero_size;
  action_props = record { btn = []; strip = []; wheel = [] };
  nbuttons = 0;
  naxes = 0;
}

abbrev pub zero_common : Common
zero_common = record {
  wcm_flags = 0;
  vendor_id = 0;
  tablet_id = 0;
  tablet_type = 0;
  has_hw_touch_switch = false;
  hw_touch_switch_state = pos 0;
  max_z = pos 0;
  tilt_min_x = pos 0;
  tilt_min_y = pos 0;
  tilt_max_x = pos 0;
  tilt_max_y = pos 0;
  max_ring = pos 0;
  protocol_level = generic;
  rotate = upright;
  threshold = pos 0;
  channels = [];
  tpc_button = false;
  touch = false;
  gesture = false;
  gesture_mode = 0;
  gesture_state = replicate 16 zero_state;
  gesture_parameters = record {
    zoom_distance = 0;
    scroll_distance = 0;
    scroll_direction = 0;
    gesture_used = 0;
    tap_time = 0;
  };
  suppress = pos 0;
  raw_sample = 0;
  pressure_recalibration = false;
  panscroll_threshold = pos 0;
  panscroll_is_smooth = false;
  tools = [];
  ranges = record {
    pen = zero_size;
    touch = zero_size;
    max_dist = pos 0;
    min_ring = pos 0;
    max_strip_x = pos 0;
    max_strip_y = pos 0;
    max_contacts = pos 0;
    proxout_dist_default = pos 0;
  };
}
