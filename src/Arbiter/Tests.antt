-- ===== src/Arbiter/Tests.antt =====
-- A pen that has the pointer, and a touch beside it.
use xf86_input_wacom.Prelude.{true, some, [], ◌∷◌, replicate}
use xf86_input_wacom.Prelude.Int.{pos}
use xf86_input_wacom.State.{DeviceState, zero_state, Common, Tool, Device, stylus_id, touch_id}
use xf86_input_wacom.State.Zero.{zero_channel, zero_device, zero_common}
use xf86_input_wacom.Arbiter.{Front, Maths}

abbrev maths : Maths
maths = record {
  floats = record {
    spread = λ a b c d. pos 0;
    distance = λ a b. pos 0;
    distance_over = λ a b d. pos 0;
    same_direction = λ a b c d. true;
  };
  tilt_to_rotation = λ x y. x;
}

abbrev finger : DeviceState
finger = record zero_state {
  device_type = touch_id;
  device_id = pos 3;
  serial_num = 1;
  proximity = pos 1;
}

abbrev touch_tool : Tool
touch_tool = record { typeid = touch_id; serial = 0; enabled = true; device = some 1 }

abbrev pen : Device
pen = record zero_device {
  flags = stylus_id;
  old_state = record zero_state { device_id = pos 2; proximity = pos 1 };
}

abbrev tablet : Common
tablet = record zero_common {
  channels = replicate 18 zero_channel;
  touch = true;
  tools = touch_tool ∷ [];
}

abbrev front : Front
front = record {
  devices = pen ∷ record zero_device { flags = touch_id } ∷ [];
  active = some 0;
  calls = [];
}
