-- ===== src/Session/Events/Tests.antt =====
-- A stylus that enters, with the tip down.
use xf86_input_wacom.Prelude.{refl, true, []}
use xf86_input_wacom.Prelude.Int.{pos}
use xf86_input_wacom.State.{DeviceState, zero_state, stylus_id}
use xf86_input_wacom.State.Zero.{zero_device, zero_common}
use xf86_input_wacom.Session.{Session}
use xf86_input_wacom.Session.Events.{send_events}
use xf86_input_wacom.Session.Events.Proximity.{IsTracked, send_events-IsTracked}
use xf86_input_wacom.Session.Events.OldState.{Holds, send_events-Holds}

abbrev start : Session
start = record {
  dev = record zero_device { flags = 0x101; valuator_max_x = pos 100; valuator_max_y = pos 100 };
  common = zero_common;
  calls = [];
}

abbrev tip : DeviceState
tip = record zero_state {
  device_type = stylus_id;
  device_id = pos 2;
  x = pos 40;
  y = pos 50;
  buttons = 1;
  proximity = pos 1;
}

start-IsTracked : IsTracked start
start-IsTracked = record { alternates = tt; agrees = refl }

send_events-IsTracked_example : IsTracked (send_events tip start)
send_events-IsTracked_example = send_events-IsTracked tip start refl start-IsTracked

send_events-Holds_example : Holds true tip start (send_events tip start)
send_events-Holds_example = send_events-Holds tip start refl
