-- ===== src/Usb/Init/Tests.antt =====
-- A pen tablet and a touch screen that start.
use xf86_input_wacom.Prelude.{
  ℕ, ◌≡◌, refl, true, false, none, some, [], replicate, get_or, set, arith,
}
use xf86_input_wacom.Prelude.Int.{pos}
use xf86_input_wacom.State.{Device, Common, stylus_id}
use xf86_input_wacom.State.Zero.{zero_device, zero_common, zero_channel}
use xf86_input_wacom.Hotplug.{udev, touch, is_a_valid_type}
use xf86_input_wacom.Usb.Channels.{pad_channel}
use xf86_input_wacom.Usb.Tablet.{Usb}
use xf86_input_wacom.Usb.Keys.{Keys, btn_touch, probe_keys}
use xf86_input_wacom.Usb.Keys.Touchscreen.{claims_of, probe_keys_touch}
use xf86_input_wacom.Usb.AxisRanges.{AbsInfo, Answers, Reals}
use xf86_input_wacom.Usb.Init.{
  acts_as_touch, start_events, start_abs, start_x, start_y, init_axes, usb_initialize,
}
use xf86_input_wacom.Usb.Init.Positive.{HasRange, usb_initialize-HasRange}
use xf86_input_wacom.Usb.Init.PadChannel.{IsPadNear, usb_initialize_pad}

abbrev reals : Reals
reals = record {
  Factor = ℕ;
  touch_resol = λ a b. a;
  tilt_factor = λ r. 1;
  one = 1;
  round_by = λ f a. a;
}

abbrev width : AbsInfo
width = record { minimum = pos 0; maximum = pos 44704; resolution = pos 200 }

abbrev answers : Answers
answers = record {
  event_bits = some (true, true);
  abs_bits = some (λ a. false);
  abs_info = λ a. some width;
  switch_bits = some false;
  switch_state = none;
}

abbrev no_keys : Keys
no_keys k = false

abbrev pen : Device
pen = record zero_device { flags = stylus_id }

abbrev tablet : Common
tablet = record zero_common { channels = replicate 18 zero_channel }

abbrev usb : Usb
usb = record {
  last_tool_serial = 0;
  device_type = 0;
  pen_touch = false;
  use_mt = false;
  mt_channel = none;
  padkeys = [];
  nbuttons = 4;
  last_channel = 0;
}

abbrev started : Common × Usb
started = init_axes reals answers no_keys true false (λ a. false) width width tablet usb

starts : usb_initialize reals answers no_keys pen tablet usb ≡ some started
unfolding usb_initialize start_events start_abs start_x start_y
starts = refl

usb_initialize-HasRange_example :
    HasRange (acts_as_touch no_keys pen) (pos 44704) (pos 44704) started.0
usb_initialize-HasRange_example =
    usb_initialize-HasRange reals answers no_keys pen tablet usb width width started.0 started.1
      refl refl refl refl starts

usb_initialize_pad_example :
    IsPadNear (get_or started.0.channels pad_channel zero_channel)
    × (started.0.channels
        ≡ set tablet.channels pad_channel (get_or started.0.channels pad_channel zero_channel))
usb_initialize_pad_example =
    usb_initialize_pad reals answers no_keys pen tablet usb false refl started (omega arith) starts

abbrev touched : Keys
touched btn_touch = true
touched k = false

probe_keys_touch_example :
    let (keys, c, id) =
      probe_keys
        (some touched)
        true
        (some (0x56a, 0x5000))
        (some (λ a. false))
        (no_keys, zero_common) in
    ((is_a_valid_type (claims_of keys c udev) (some touch)).1 ≡ true) × (id ≡ 0x5000)
probe_keys_touch_example =
    probe_keys_touch touched no_keys 0x56a 0x5000 (λ a. false) zero_common udev refl refl refl
